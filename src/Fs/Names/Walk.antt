-- ===== src/Fs/Names/Walk.antt =====
-- The elements of a path in kernel/fs.c: the loop ends, and gives the names that were joined.
use liberal_os.Prelude.{
  ℕ, zero, suc, ◌≤◌, ◌<◌, ◌≡◌, refl, subst, inl, inr, false, some, List, [], ◌∷◌, arith, ◌==◌,
  Bool-cases, Option-cases, length,
}
use liberal_os.Fs.Names.{
  name_text, walk_rest, skipelem, slash, walk, after_element, skip_slashes, take_element,
}

length-skip_slashes : (path : List ℕ) → length (skip_slashes path) ≤ length path
unfolding skip_slashes
length-skip_slashes [] = omega arith
length-skip_slashes (c ∷ path) = let ih = length-skip_slashes path in ground arith

length-after_element : (path : List ℕ) → length (after_element path) ≤ length path
unfolding after_element
length-after_element [] = omega arith
length-after_element (c ∷ path) = let ih = length-after_element path in ground arith

skip_slashes_head :
    (path : List ℕ) (c : ℕ) (p : List ℕ) → skip_slashes path ≡ c ∷ p → (c == slash) ≡ false
unfolding skip_slashes
skip_slashes_head [] c p h = absurd (ground arith)
skip_slashes_head (d ∷ path) c p h = elim (Bool-cases (d == slash)) [
  | inl e ↦ skip_slashes_head path c p (ground arith)
  | inr e ↦ let q : d ≡ c = ground arith in subst (λ a. (a == slash) ≡ false) q e
]

-- A path that has an element gets shorter by it.
take_element_shorter :
    (c : ℕ) (path name rest name' : List ℕ)
    → (c == slash) ≡ false
    → take_element (c ∷ path) name ≡ some (rest, name')
    → length rest ≤ length path
unfolding take_element after_element
take_element_shorter c path name rest name' s h = elim (Bool-cases (c == 0)) [
  | inl z ↦ absurd (ground arith)
  | inr z ↦
      let q : skip_slashes (after_element path) ≡ rest = ground arith in
      let a = length-skip_slashes (after_element path) in
      let b = length-after_element path in
      subst (λ r. length r ≤ length path) q (omega (arith, a, b))
]

skipelem_shorter :
    (path name rest name' : List ℕ)
    → skipelem path name ≡ some (rest, name')
    → length rest < length path
unfolding skipelem
skipelem_shorter path name rest name' h = shorter (skip_slashes path) refl h
  where
    shorter :
        (p : List ℕ)
        → skip_slashes path ≡ p
        → take_element p name ≡ some (rest, name')
        → length rest < length path
    shorter [] e g = unfold take_element in absurd (ground arith)
    shorter (c ∷ p) e g =
        let a = take_element_shorter c p name rest name' (skip_slashes_head path c p e) g in
        let b = subst (λ x. length x ≤ length path) e (length-skip_slashes path) in
        omega (arith, a, b)

-- The loop of namex() over the elements of a path ends: each round takes at least a byte of it.
pub walk_ends :
    (n : ℕ) (path name : List ℕ)
    → length path < n
    → (names : List (List ℕ)) × (walk n path name ≡ some names)
unfolding walk walk_rest
walk_ends zero path name h = absurd (omega arith)
walk_ends (suc n) path name h = elim (Option-cases (skipelem path name)) [
  | inl e ↦ rw e ([], refl)
  | inr ((rest, name'), e) ↦
      let l = skipelem_shorter path name rest name' e in
      let ih = walk_ends n rest name' (omega arith) in rw (e, ih.1) (name_text name' ∷ ih.0, refl)
]
