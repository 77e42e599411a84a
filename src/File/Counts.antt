-- ===== src/File/Counts.antt =====
-- The reference counts of the file table.
use liberal_os.Prelude.{
  ℕ, zero, suc, ◌+◌, ◌-◌, ◌<◌, ◌≡◌, refl, ap, ◌∙◌, ◌⊎◌, inl, inr, true, false, Option, none, some,
  List, [], ◌∷◌, arith, ltb, ◌==◌, ==_iff, Bool-cases, length,
}
use liberal_os.File.{
  claim, filealloc, nothing, Release, fileclose, ref_of, with_ref, File, filedup, find_file,
}

with_ref-with_ref :
    (fs : List File) (i r r' : ℕ) → with_ref (with_ref fs i r) i r' ≡ with_ref fs i r'
with_ref-with_ref [] i r r' = refl
with_ref-with_ref (f ∷ fs) zero r r' = refl
with_ref-with_ref (f ∷ fs) (suc i) r r' = ap (◌∷◌ f) (with_ref-with_ref fs i r r')

with_ref-ref_of : (fs : List File) (i : ℕ) → with_ref fs i (ref_of fs i) ≡ fs
with_ref-ref_of [] i = refl
with_ref-ref_of (f ∷ fs) zero = refl
with_ref-ref_of (f ∷ fs) (suc i) = ap (◌∷◌ f) (with_ref-ref_of fs i)

ref_of-with_ref : (fs : List File) (i r : ℕ) → i < length fs → ref_of (with_ref fs i r) i ≡ r
ref_of-with_ref [] i r h = absurd (omega arith)
ref_of-with_ref (f ∷ fs) zero r h = refl
ref_of-with_ref (f ∷ fs) (suc i) r h = ref_of-with_ref fs i r (omega arith)

ref_of-inside : (fs : List File) (i : ℕ) → 0 < ref_of fs i → i < length fs
ref_of-inside [] i h = absurd (omega arith)
ref_of-inside (f ∷ fs) zero h = omega arith
ref_of-inside (f ∷ fs) (suc i) h = omega (arith, ref_of-inside fs i h)

abbrev pub after : Option (List File) → ℕ → Option (Release × List File)
after none i = none
after (some fs) i = fileclose fs i

undo :
    (fs : List File) (i r : ℕ)
    → 0 < r
    → ref_of fs i ≡ r
    → fileclose (with_ref fs i (r + 1)) i ≡ some (nothing, fs)
unfolding fileclose
undo fs i r h e =
    let inside : i < length fs = ref_of-inside fs i (rw e h) in
    let held : ltb (r + 1) 1 ≡ false = ground arith in
    let more : ltb 0 (r + 1 - 1) ≡ true = ground arith in
    let back : r + 1 - 1 ≡ ref_of fs i = omega arith in
    rw
      (
        ref_of-with_ref fs i (r + 1) inside,
        held,
        more,
        with_ref-with_ref fs i (r + 1) (r + 1 - 1),
        back,
        with_ref-ref_of fs i,
      )
      refl

-- fileclose() undoes filedup(): for a file with a reference the table is as before, and nothing is
-- released.
pub fileclose-filedup :
    (fs : List File) (i : ℕ) → 0 < ref_of fs i → after (filedup fs i) i ≡ some (nothing, fs)
unfolding filedup
fileclose-filedup fs i h =
    let held : ltb (ref_of fs i) 1 ≡ false = ground arith in
    rw held (undo fs i (ref_of fs i) h refl)

abbrev pub AllHeld : List File → Type 0
AllHeld [] = true ≡ true
AllHeld (f ∷ fs) = (0 < f.ref) × AllHeld fs

find_file_lem :
    (fs : List File) (i : ℕ)
    → ((find_file fs i ≡ none) × AllHeld fs)
      ⊎ ((j : ℕ) × (find_file fs i ≡ some (i + j)) × (j < length fs) × (ref_of fs j ≡ 0))
unfolding find_file
find_file_lem [] i = inl (refl, refl)
find_file_lem (f ∷ fs) i = elim (Bool-cases (f.ref == 0)) [
  | inl e ↦ inr (0, rw e (ap some (omega arith)), omega arith, (==_iff f.ref 0).0 e)
  | inr e ↦ elim (find_file_lem fs (i + 1)) [
    | inl q ↦ inl (rw e q.0, (ground arith, q.1))
    | inr q ↦ inr (suc q.0, rw e (q.1 ∙ ap some (omega arith)), omega (arith, q.2), q.3)
  ]
]

at_zero : (fs : List File) (j : ℕ) → find_file fs 0 ≡ some (0 + j) → find_file fs 0 ≡ some j
at_zero fs j e = e ∙ ap some (omega arith)

-- filealloc() fails and changes nothing when every file has a reference, and otherwise gives its
-- first reference to a file of the table that has none.
pub filealloc_cases :
    (fs : List File)
    → ((filealloc fs ≡ (none, fs)) × AllHeld fs)
      ⊎ ((i : ℕ) × (filealloc fs ≡ (some i, with_ref fs i 1)) × (i < length fs) × (ref_of fs i ≡ 0))
unfolding filealloc claim
filealloc_cases fs = elim (find_file_lem fs 0) [
  | inl q ↦ inl (rw q.0 refl, q.1)
  | inr q ↦ inr (q.0, rw (at_zero fs q.0 q.1) refl, q.2, q.3)
]
