-- ===== src/CString/Laws.antt =====
-- What the string functions mean on the text of a string, the bytes before its first NUL.
use liberal_os.Prelude.{
  ℕ, zero, suc, ◌-◌, ◌≤◌, ◌<◌, ◌≡◌, refl, ap, ◌↔◌, inl, inr, List, [], ◌∷◌, ◌++◌, arith, ◌==◌,
  if◌then◌else◌, Bool-cases, pos, length, set, take, drop, replicate, length-set,
}
use native.Mathlib.Nat.{zero-sub}
use liberal_os.CString.{pad, strncpy_pos, head, tail, strlen, strncmp, copy_safe, safestrcpy}

unfoldable pub text : List ℕ → List ℕ
text [] = []
text (c ∷ s) = let rest = c ∷ text s in if c == 0 then [] else rest

pub strlen_lem : (s : List ℕ) → strlen s ≡ length (text s)
unfolding strlen text
strlen_lem [] = refl
strlen_lem (c ∷ s) = ground (arith, strlen_lem s)

pub text-head-tail : (s : List ℕ) → text s ≡ (if head s == 0 then [] else head s ∷ text (tail s))
unfolding text
text-head-tail [] = refl
text-head-tail (c ∷ s) = ground arith

-- `strncmp` finds no difference exactly when the texts agree on their first n bytes.
pub strncmp_iff :
    (p q : List ℕ) (n : ℕ) → (strncmp p q n ≡ pos 0) ↔ (take n (text p) ≡ take n (text q))
unfolding strncmp
strncmp_iff p q zero = (λ e. refl, λ e. refl)
strncmp_iff p q (suc n) =
    ground (arith, strncmp_iff (tail p) (tail q) n, text-head-tail p, text-head-tail q)

pub text-copy_safe :
    (s t : List ℕ) (left : ℕ) → left < length s → text (copy_safe s t left) ≡ take left (text t)
unfolding copy_safe text
text-copy_safe [] t left h = absurd (omega arith)
text-copy_safe (d ∷ s) t zero h = refl
text-copy_safe (d ∷ s) t (suc left) h =
    ground (arith, text-copy_safe s (tail t) left, text-head-tail t)

-- safestrcpy() to a buffer of more than n bytes, with n + 1 as its size, leaves the first n bytes of
-- the text of t, terminated.
pub text-safestrcpy :
    (s t : List ℕ) (n : ℕ) → n < length s → text (safestrcpy s t (pos (suc n))) ≡ take n (text t)
unfolding safestrcpy
text-safestrcpy s t n h = text-copy_safe s t n h

pub length-copy_safe : (s t : List ℕ) (left : ℕ) → length (copy_safe s t left) ≡ length s
unfolding copy_safe
length-copy_safe [] t left = refl
length-copy_safe (d ∷ s) t zero = refl
length-copy_safe (d ∷ s) t (suc left) =
    ground (arith, length-copy_safe s (tail t) left, length-set s 0 0)

take-pad : (s : List ℕ) (n : ℕ) → n ≤ length s → take n (pad s n) ≡ replicate n 0
unfolding pad
take-pad s zero h = refl
take-pad [] (suc n) h = absurd (omega arith)
take-pad (d ∷ s) (suc n) h = ap (◌∷◌ 0) (take-pad s n (omega arith))

-- What `strncpy` puts into its first n bytes: the text of t, cut at n and filled up with NUL.
pub padded : List ℕ → ℕ → List ℕ
padded t n = take n (text t) ++ replicate (n - length (text t)) 0

-- `strncpy` fills the field of n bytes completely, and cuts a text of n bytes or more at n.
pub take-strncpy_pos :
    (s t : List ℕ) (n : ℕ) → n ≤ length s → take n (strncpy_pos s t n) ≡ padded t n
unfolding strncpy_pos padded
take-strncpy_pos s t zero h = rw (zero-sub (length (text t)))
take-strncpy_pos [] t (suc n) h = absurd (omega arith)
take-strncpy_pos (d ∷ s) t (suc n) h = elim (Bool-cases (head t == 0)) [
  | inl e ↦ rw (text-head-tail t, e) (ground (arith, take-pad s n))
  | inr e ↦ rw (text-head-tail t, e) (ground (arith, take-strncpy_pos s (tail t) n))
]

pub drop-strncpy_pos : (s t : List ℕ) (n : ℕ) → drop n (strncpy_pos s t n) ≡ drop n s
unfolding strncpy_pos pad
drop-strncpy_pos s t zero = refl
drop-strncpy_pos [] t (suc n) = refl
drop-strncpy_pos (d ∷ s) t (suc n) = ground (arith, drop-pad s n, drop-strncpy_pos s (tail t) n)
  where
    drop-pad : (s : List ℕ) (n : ℕ) → drop n (pad s n) ≡ drop n s
    drop-pad s zero = refl
    drop-pad [] (suc n) = refl
    drop-pad (d ∷ s) (suc n) = drop-pad s n

-- A NUL at or after the end of the text changes nothing.
pub text-set : (s : List ℕ) (i : ℕ) → length (text s) ≤ i → text (set s i 0) ≡ text s
unfolding text
text-set [] i h = refl
text-set (c ∷ s) zero h = ground arith
text-set (c ∷ s) (suc i) h = ground (arith, text-set s i)

-- A text has no NUL, and is its own text.
pub text-text : (s : List ℕ) → text (text s) ≡ text s
unfolding text
text-text [] = refl
text-text (c ∷ s) = ground (arith, text-text s)
