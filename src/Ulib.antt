-- ===== src/Ulib.antt =====
-- user/ulib.c: the string functions of the user library and gets(). A C string is the list of its
-- bytes; the bytes on standard input are a list.
pub mod Strings
use liberal_os.CString.{head, tail}
use liberal_os.Prelude.{
  ℕ, zero, suc, ◌+◌, ◌-◌, ◌*◌, ◌/◌, ◌%◌, ◌^◌, ◌≤◌, ◌<◌, min, ◌≡◌, refl, sym, ap, ap₂, ◌∙◌, subst,
  ◌≢◌, ◌↔◌, ◌⊎◌, inl, inr, Bool, true, false, not, ◌&&◌, ◌||◌, Option, none, some, List, [], ◌∷◌,
  ◌++◌, arith, ltb, leb, ◌==◌, if◌then◌else◌, ==_iff, ==-refl, ==-false, Bool-cases, Option-cases,
  ℤ, pos, negsuc, sub_ℕ, ◌≤ℤ◌, ◌<ℤ◌, ltb_ℤ, leb_ℤ, eqb_ℤ, eqb_ℤ_iff, length, get_elem?, get_or, set,
  take, drop, replicate, length-append, length-set, length-take, length-replicate,
  get_elem?-set_self, get_elem?-set_ne, get_or-set_self, get_or-set_ne, take-length, lt_of_le_ne,
}

-- The buffer s after strcpy(s, t).
unfoldable pub strcpy : List ℕ → List ℕ → List ℕ
strcpy [] t = []
strcpy (d ∷ s) t = let rest = strcpy s (tail t) in head t ∷ (if head t == 0 then s else rest)

unfoldable pub strcmp : List ℕ → List ℕ → ℤ
strcmp [] q = sub_ℕ 0 (head q)
strcmp (c ∷ p) q =
    let rest = strcmp p (tail q) in if not (c == 0) && c == head q then rest else sub_ℕ c (head q)

-- The string from the first c on, or none for a null pointer.
unfoldable pub strchr : List ℕ → ℕ → Option (List ℕ)
strchr [] c = none
strchr (d ∷ s) c =
    let rest = strchr s c in if d == 0 then none else if d == c then some (d ∷ s) else rest

-- '0' <= c && c <= '9'
abbrev pub digit : ℕ → Bool
digit c = leb 48 c && leb c 57

-- The loop of atoi() from n on. C leaves a value above INT_MAX undefined.
unfoldable pub atoi_loop : List ℕ → ℕ → ℕ
atoi_loop [] n = n
atoi_loop (c ∷ s) n = let rest = atoi_loop s (n * 10 + (c - 48)) in if digit c then rest else n

unfoldable pub atoi : List ℕ → ℕ
atoi s = atoi_loop s 0

-- The bytes that gets() stores with `room` places left, and the input that is left.
unfoldable pub gets_loop : ℕ → List ℕ → List ℕ × List ℕ
gets_loop zero input = ([], input)
gets_loop (suc room) [] = ([], [])
gets_loop (suc room) (c ∷ input) =
    let rest = gets_loop room input in
    if c == 10 || c == 13 then (c ∷ [], input) else (c ∷ rest.0, rest.1)

-- The buffer after gets(), and the input that is left.
unfoldable pub gets : List ℕ → ℕ → List ℕ → List ℕ × List ℕ
gets buf max input =
    let r = gets_loop (max - 1) input in (r.0 ++ (0 ∷ drop (length r.0 + 1) buf), r.1)
