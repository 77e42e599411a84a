-- ===== src/Tests/Strings.antt =====
-- Runs of the string and memory functions.
use liberal_os.Prelude.{ℕ, ◌-◌, ◌≡◌, refl, List, [], ◌∷◌, pos, negsuc}
use liberal_os.CString.{strncmp, safestrcpy, strncpy}
use liberal_os.Verifier.{codes}

abbrev field : List ℕ
field = 9 ∷ 9 ∷ 9 ∷ 9 ∷ 9 ∷ []

safestrcpy_cuts : safestrcpy field (codes "abcdef") (pos 4) ≡ b'a' ∷ b'b' ∷ b'c' ∷ 0 ∷ 9 ∷ []
unfolding safestrcpy
safestrcpy_cuts = refl

-- A short string is terminated twice.
safestrcpy_short : safestrcpy field (codes "a") (pos 4) ≡ b'a' ∷ 0 ∷ 0 ∷ 9 ∷ 9 ∷ []
unfolding safestrcpy
safestrcpy_short = refl

strncmp_runs :
    (strncmp (codes "init") (codes "init") 16 ≡ pos 0)
    × (strncmp (codes "sh") (codes "shell") 16 ≡ negsuc (b'e' - 1))
    × (strncmp (codes "sh") (codes "shell") 2 ≡ pos 0)
unfolding strncmp
strncmp_runs = (refl, refl, refl)

strncpy_runs : strncpy field (codes "ab") (pos 4) ≡ b'a' ∷ b'b' ∷ 0 ∷ 0 ∷ 9 ∷ []
unfolding strncpy
strncpy_runs = refl
