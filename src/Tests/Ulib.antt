-- ===== src/Tests/Ulib.antt =====
-- The string functions of the user library on small strings.
use liberal_os.Prelude.{◌≡◌, refl, some, [], ◌∷◌, ◌++◌, sub_ℕ, replicate}
use liberal_os.Verifier.{codes}
use liberal_os.Ulib.{atoi_loop, gets_loop, atoi, gets, strchr, strcmp, strcpy}

reads_number : atoi (codes "42x") ≡ 42
unfolding atoi atoi_loop
reads_number = refl

compares : strcmp (codes "ab") (codes "ac") ≡ sub_ℕ b'b' b'c'
unfolding strcmp
compares = refl

finds : strchr (codes "a:b") 58 ≡ some (codes ":b")
unfolding strchr
finds = refl

reads_line :
    gets (replicate 4 9) 4 (codes "ab" ++ (10 ∷ codes "c"))
    ≡ (codes "ab" ++ (10 ∷ 0 ∷ []), codes "c")
unfolding gets gets_loop
reads_line = refl

copies_string : strcpy (replicate 4 9) (codes "ab") ≡ codes "ab" ++ (0 ∷ 9 ∷ [])
unfolding strcpy
copies_string = refl
