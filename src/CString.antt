-- ===== src/CString.antt =====
-- kernel/string.c on strings. A `char *` is the list of the bytes from the pointer on; what lies
-- past the end of the list reads as NUL, so a literal is written without its terminator.
pub mod Laws
use liberal_os.Prelude.{
  ℕ, zero, suc, ◌==◌, if◌then◌else◌, ◌&&◌, not, List, [], ◌∷◌, ℤ, pos, negsuc, sub_ℕ, get_or, set,
  drop,
}

-- *p and p + 1
abbrev pub head : List ℕ → ℕ
head s = get_or s 0 0

abbrev pub tail : List ℕ → List ℕ
tail s = drop 1 s

unfoldable pub strlen : List ℕ → ℕ
strlen [] = 0
strlen (c ∷ s) = let rest = suc (strlen s) in if c == 0 then 0 else rest

unfoldable pub strncmp : List ℕ → List ℕ → ℕ → ℤ
strncmp p q zero = pos 0
strncmp p q (suc n) =
    let rest = strncmp (tail p) (tail q) n in
    if not (head p == 0) && (head p == head q) then rest else sub_ℕ (head p) (head q)

-- The second loop of `strncpy`: n bytes from s on become 0.
unfoldable pub pad : List ℕ → ℕ → List ℕ
pad s zero = s
pad [] (suc n) = []
pad (d ∷ s) (suc n) = 0 ∷ pad s n

unfoldable pub strncpy_pos : List ℕ → List ℕ → ℕ → List ℕ
strncpy_pos s t zero = s
strncpy_pos [] t (suc n) = []
strncpy_pos (d ∷ s) t (suc n) =
    let rest = strncpy_pos s (tail t) n in
    let zeros = pad s n in head t ∷ (if head t == 0 then zeros else rest)

unfoldable pub strncpy : List ℕ → List ℕ → ℤ → List ℕ
unfolding strncpy_pos pad
strncpy s t (pos n) = strncpy_pos s t n
strncpy s t (negsuc n) = s

-- The loop of `safestrcpy` with `left` bytes of room before the terminator. When the copied byte is
-- NUL the loop has already moved on, so the terminator goes one byte further.
unfoldable pub copy_safe : List ℕ → List ℕ → ℕ → List ℕ
copy_safe [] t left = []
copy_safe (d ∷ s) t zero = 0 ∷ s
copy_safe (d ∷ s) t (suc left) =
    let rest = copy_safe s (tail t) left in head t ∷ (if head t == 0 then set s 0 0 else rest)

unfoldable pub safestrcpy : List ℕ → List ℕ → ℤ → List ℕ
unfolding copy_safe
safestrcpy s t (pos zero) = s
safestrcpy s t (pos (suc n)) = copy_safe s t n
safestrcpy s t (negsuc n) = s
