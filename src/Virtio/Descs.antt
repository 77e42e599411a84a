-- ===== src/Virtio/Descs.antt =====
-- alloc3_desc() of kernel/virtio_disk.c takes three descriptors or none.
use liberal_os.Prelude.{
  ℕ, zero, suc, ◌+◌, ◌<◌, ◌≡◌, refl, sym, ap, ◌∙◌, subst, ◌≢◌, inl, inr, Bool, true, false, some,
  List, [], ◌∷◌, arith, leb, Bool-cases, Option-cases, length, get_or, set, length-set,
  get_or-set_self, get_or-set_ne,
}
use liberal_os.Virtio.{
  first, alloc3_desc, and_free, second, Three.panicked, Three.failed, Three.three,
}
use liberal_os.Virtio.{
  undone, mark, Three, alloc_desc, clear_desc, num, Queue, free_desc, third, first_free,
}
use mathlib.Core.Bool.{true≢false}

first_free_lem :
    (fs : List Bool) (i j : ℕ)
    → first_free fs i ≡ some j
    → (k : ℕ) × ((j ≡ i + k) × ((k < length fs) × (get_or fs k false ≡ true)))
unfolding first_free
first_free_lem [] i j h = absurd (ground arith)
first_free_lem (f ∷ fs) i j h = elim (Bool-cases f) [
  | inl e ↦ (0, (ground arith, (omega arith, e)))
  | inr e ↦
      let (k, (q, (l, m))) = first_free_lem fs (i + 1) j (ground arith) in
      (suc k, (omega arith, (omega arith, m)))
]

-- A descriptor that alloc_desc() gives.
pub record Taken (fs : List Bool) (j : ℕ) : Type 0 where
  pub inside : j < length fs
  pub was_free : get_or fs j false ≡ true

first_free-Taken : (fs : List Bool) (j : ℕ) → first_free fs 0 ≡ some j → Taken fs j
first_free-Taken fs j h =
    let x = first_free_lem fs 0 j h in
    let q : x.0 ≡ j = omega (arith, x.1.0) in
    record {
      inside = subst (λ k. k < length fs) q x.1.1.0;
      was_free = subst (λ k. get_or fs k false ≡ true) q x.1.1.1;
    }

-- A descriptor that is taken and freed again.
set_back : (fs : List Bool) (i : ℕ) → get_or fs i false ≡ true → set (set fs i false) i true ≡ fs
set_back [] i h = refl
set_back (f ∷ fs) zero h = ap (λ b. b ∷ fs) (sym h)
set_back (f ∷ fs) (suc i) h = ap (◌∷◌ f) (set_back fs i h)

set_swap :
    (fs : List Bool) (i j : ℕ) (a b : Bool) → i ≢ j → set (set fs i a) j b ≡ set (set fs j b) i a
set_swap [] i j a b h = refl
set_swap (f ∷ fs) zero zero a b h = absurd (h refl)
set_swap (f ∷ fs) zero (suc j) a b h = refl
set_swap (f ∷ fs) (suc i) zero a b h = refl
set_swap (f ∷ fs) (suc i) (suc j) a b h = ap (◌∷◌ f) (set_swap fs i j a b (λ e. h (ap suc e)))

-- Two taken descriptors are different.
distinct : (fs : List Bool) (i j : ℕ) → i < length fs → Taken (set fs i false) j → i ≢ j
distinct fs i j l t e = absurd (
    true≢false (
      sym t.was_free
      ∙ ap (λ k. get_or (set fs i false) k false) (sym e)
      ∙ get_or-set_self fs i false false l))

free_desc_taken :
    (i : ℕ) (q : Queue)
    → i < num
    → get_or q.free i false ≡ false
    → free_desc i q ≡ some (record { free = set q.free i true; desc = set q.desc i clear_desc })
unfolding free_desc
free_desc_taken i q l h = let s : leb num i ≡ false = ground arith in rw (s, h) refl

pub record ThreeTaken (q : Queue) (i j k : ℕ) (q' : Queue) : Type 0 where
  pub inside : (i < num) × ((j < num) × (k < num))
  pub were_free :
      (get_or q.free i false ≡ true)
      × ((get_or q.free j false ≡ true) × (get_or q.free k false ≡ true))
  pub apart : (i ≢ j) × ((i ≢ k) × (j ≢ k))
  pub taken : q'.free ≡ set (set (set q.free i false) j false) k false
  pub others : q'.desc ≡ q.desc

-- Three descriptors, or none of those that were free.
abbrev pub AllOrNone : Queue → Three → Type 0
AllOrNone q panicked = true ≡ false
AllOrNone q (failed q') = q'.free ≡ q.free
AllOrNone q (three i j k q') = ThreeTaken q i j k q'

unset : (fs : List Bool) (i : ℕ) → i < length fs → get_or (set fs i false) i false ≡ false
unset fs i l = get_or-set_self fs i false false l

-- Two that are taken are given back.
two_back :
    (fs : List Bool) (i j : ℕ)
    → i ≢ j
    → get_or fs i false ≡ true
    → get_or fs j false ≡ true
    → set (set (set (set fs i false) j false) i true) j true ≡ fs
two_back fs i j d a b =
    ap (λ x. set x j true)
      (set_swap (set fs i false) j i false true (λ e. d (sym e))
        ∙ ap (λ x. set x j false) (set_back fs i a))
    ∙ set_back fs j b

undone_two :
    (q : Queue) (i j : ℕ)
    → i < num
    → j < num
    → length q.free ≡ num
    → i ≢ j
    → get_or q.free i false ≡ true
    → get_or q.free j false ≡ true
    → let gs = set (set q.free i false) j false in
      AllOrNone q (undone (and_free j (free_desc i (record { free = gs; desc = q.desc }))))
unfolding undone
undone_two q i j li lj n d a b =
    let gs = set (set q.free i false) j false in
    let hi : get_or gs i false ≡ false =
      get_or-set_ne (set q.free i false) j i false false (λ e. d (sym e))
      ∙ unset q.free i (omega arith) in
    let hj : get_or (set gs i true) j false ≡ false =
      get_or-set_ne gs i j true false d
      ∙ unset (set q.free i false) j (omega (arith, length-set q.free i false)) in
    rw
      (
        free_desc_taken i (record { free = gs; desc = q.desc }) li hi,
        free_desc_taken j (record { free = set gs i true; desc = set q.desc i clear_desc }) lj hj,
      )
      (two_back q.free i j d a b)

third-AllOrNone :
    (q : Queue) (i j : ℕ)
    → length q.free ≡ num
    → Taken q.free i
    → Taken (set q.free i false) j
    → AllOrNone q (third i j (alloc_desc (record q { free = set (set q.free i false) j false })))
unfolding third alloc_desc mark undone
third-AllOrNone q i j n t u =
    let fs = set q.free i false in
    let gs = set fs j false in
    let d : i ≢ j = distinct q.free i j t.inside u in
    let len : length gs ≡ num = length-set fs j false ∙ length-set q.free i false ∙ n in
    elim (Option-cases (first_free gs 0)) [
      | inr (k, e) ↦
          let w = first_free-Taken gs k e in
          let b : j ≢ k = distinct fs j k u.inside w in
          let a : i ≢ k = λ s. absurd (
            true≢false (
              sym w.was_free
              ∙ ap (λ x. get_or gs x false) (sym s)
              ∙ get_or-set_ne fs j i false false (λ e. d (sym e))
              ∙ unset q.free i t.inside)) in
          rw e (record {
            inside = (
              omega (arith, t.inside),
              (omega (arith, u.inside, length-set q.free i false), omega (arith, w.inside, len)),
            );
            were_free = (
              t.was_free,
              (
                sym (get_or-set_ne q.free i j false false d) ∙ u.was_free,
                sym (get_or-set_ne q.free i k false false a)
                    ∙ sym (get_or-set_ne fs j k false false b)
                    ∙ w.was_free,
              ),
            );
            apart = (d, (a, b));
            taken = refl;
            others = refl;
          })
      | inl e ↦ rw e (
          undone_two q i j (omega (arith, t.inside))
            (omega (arith, u.inside, length-set q.free i false)) n d t.was_free
            (sym (get_or-set_ne q.free i j false false d) ∙ u.was_free))
    ]

second-AllOrNone :
    (q : Queue) (i : ℕ)
    → length q.free ≡ num
    → Taken q.free i
    → AllOrNone q (second i (alloc_desc (record q { free = set q.free i false })))
unfolding second alloc_desc mark undone
second-AllOrNone q i n t =
    let fs = set q.free i false in
    elim (Option-cases (first_free fs 0)) [
      | inr (j, e) ↦ rw e (third-AllOrNone q i j n t (first_free-Taken fs j e))
      | inl e ↦
          rw
            (
              e,
              free_desc_taken i (record { free = fs; desc = q.desc }) (omega (arith, t.inside))
                  (unset q.free i t.inside),
            )
            (set_back q.free i t.was_free)
    ]

-- With a flag for each of the NUM descriptors, alloc3_desc() takes three different descriptors
-- that were free and no other, or fails and leaves free exactly those that were; it never panics.
pub alloc3_desc-AllOrNone : (q : Queue) → length q.free ≡ num → AllOrNone q (alloc3_desc q)
unfolding alloc3_desc first alloc_desc mark
alloc3_desc-AllOrNone q n = elim (Option-cases (first_free q.free 0)) [
  | inl e ↦ rw e refl
  | inr (i, e) ↦ rw e (second-AllOrNone q i n (first_free-Taken q.free i e))
]
