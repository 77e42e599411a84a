-- ===== src/PageTable/Grow.antt =====
-- kernel/vm.c: a table that walk() adds maps nothing new.
use liberal_os.Prelude.{
  ℕ, zero, suc, ◌+◌, ◌*◌, ◌%◌, ◌^◌, ◌<◌, ◌≡◌, refl, sym, ap, ap₂, ◌∙◌, subst, ◌≢◌, inl, inr, true,
  false, ◌&&◌, Option, none, some, arith, ◌==◌, if◌then◌else◌, ==_iff, ==-refl, ==-false,
  Bool-cases,
}
use liberal_os.PageTable.Find.{below_way, find_stop, find_clear, find_go, find, IsTree}
use liberal_os.PageTable.{px, clear_table, vpn, put_pte, is_valid, Pages, pa2pte, pte2pa}
use mathlib.Core.Bool.{true≢false}

-- A page that kalloc() may give for a table.
abbrev pub IsPage : ℕ → Type 0
IsPage p = (p % 4096 ≡ 0) × (p < 2 ^ 56)

pub pte2pa-pa2pte : (p : ℕ) → IsPage p → pte2pa (pa2pte p + 1) ≡ p
pte2pa-pa2pte p h = omega arith

pub valid_one : (page : ℕ) → is_valid (pa2pte page + 1) ≡ true
valid_one page = ground arith

-- The place of a table with one more page.
abbrev pub grown : (ℕ → Option (ℕ × ℕ)) → ℕ → ℕ → ℕ → ℕ → Option (ℕ × ℕ)
grown place page l n q = if q == page then some (l, n) else place q

-- What stays when tables are added: the pages of the tree, their valid entries and what is mapped.
pub record Grows (place : ℕ → Option (ℕ × ℕ)) (m : Pages) (place' : ℕ → Option (ℕ × ℕ)) (m' : Pages)
    : Type 0 where
  pub wider : (q : ℕ) (x : ℕ × ℕ) → place q ≡ some x → place' q ≡ some x
  pub kept :
      (q j : ℕ) (x : ℕ × ℕ)
      → place q ≡ some x
      → is_valid (m.ptes q j) ≡ true
      → m'.ptes q j ≡ m.ptes q j
  pub finds : (l q va : ℕ) → place q ≡ some (l, vpn (suc l) va) → find l q va m' ≡ find l q va m

pub Grows-refl : (place : ℕ → Option (ℕ × ℕ)) (m : Pages) → Grows place m place m
Grows-refl place m = record {
  wider = λ q x h. h;
  kept = λ q j x h v. refl;
  finds = λ l q va h. refl;
}

pub Grows-trans :
    (a b c : ℕ → Option (ℕ × ℕ)) (m n o : Pages) → Grows a m b n → Grows b n c o → Grows a m c o
Grows-trans a b c m n o x y = record {
  wider = λ q z h. y.wider q z (x.wider q z h);
  kept =
      λ q j z h v. let e = x.kept q j z h v in y.kept q j z (x.wider q z h) (ap is_valid e ∙ v) ∙ e;
  finds = λ l q va h. y.finds l q va (x.wider q _ h) ∙ x.finds l q va h;
}

module _ (place : ℕ → Option (ℕ × ℕ)) (root : ℕ) (m : Pages) (t : IsTree place root m)
    (p l k i page : ℕ) (at : place p ≡ some (suc l, k)) (small : i < 512)
    (missing : is_valid (m.ptes p i) ≡ false) (out : place page ≡ none) (good : IsPage page) where
  unfoldable pub added : Pages
  added = put_pte p i (pa2pte page + 1) (clear_table page m)

  other_page : (r : ℕ) (x : ℕ × ℕ) → place r ≡ some x → (r == page) ≡ false
  other_page r x h = ==-false r page (λ e. absurd (none_some x (sym out ∙ ap place (sym e) ∙ h)))
    where
      none_some : (x : ℕ × ℕ) → none ≢ some x
      none_some x h = absurd (ground arith)

  added_other :
      (r j : ℕ) (x : ℕ × ℕ)
      → place r ≡ some x
      → (r == p && j == i) ≡ false
      → added.ptes r j ≡ m.ptes r j
  unfolding added
  added_other r j x h e = rw (e, other_page r x h) refl

  added_here : added.ptes p i ≡ pa2pte page + 1
  unfolding added
  added_here = rw (==-refl p, ==-refl i) refl

  added_clear : (j : ℕ) → added.ptes page j ≡ 0
  unfolding added
  added_clear j = rw (page_not_p, ==-refl page) refl
    where
      page_not_p : (page == p) ≡ false
      page_not_p = ==-false page p (λ e.
          absurd
            (true≢false (sym (==-refl p) ∙ ap (λ q. p == q) (sym e) ∙ other_page p (suc l, k) at)))

  place_p : (r n x : ℕ) → place r ≡ some (n, x) → r ≡ p → (n ≡ suc l) × (x ≡ k)
  place_p r n x h e = same (sym h ∙ ap place e ∙ at)
    where
      same : ◌≡◌ {A = Option (ℕ × ℕ)} (some (n, x)) (some (suc l, k)) → (n ≡ suc l) × (x ≡ k)
      same q = (ground arith, ground arith)

  find-added :
      (lr r va : ℕ) → place r ≡ some (lr, vpn (suc lr) va) → find lr r va added ≡ find lr r va m
  unfolding find
  find-added zero r va h =
      added_other r (px 0 va) (0, vpn 1 va) h (ap (λ b. b && px 0 va == i) (==-false r p not_p))
    where
      not_p : r ≢ p
      not_p e = absurd (omega (arith, (place_p r 0 (vpn 1 va) h e).0))
  find-added (suc lr) r va h = elim (Bool-cases (r == p && px (suc lr) va == i)) [
    | inl e ↦
        let a : r ≡ p = (==_iff r p).0 (ground arith) in
        let b : px (suc lr) va ≡ i = (==_iff _ i).0 (ground arith) in
        let c : added.ptes r (px (suc lr) va) ≡ pa2pte page + 1 = ap₂ added.ptes a b ∙ added_here in
        let d : is_valid (m.ptes r (px (suc lr) va)) ≡ false =
          ap₂ (λ x y. is_valid (m.ptes x y)) a b ∙ missing in
        find_go lr r va (pa2pte page + 1) added c (valid_one page)
        ∙ ap (λ x. find lr x va added) (pte2pa-pa2pte page good)
        ∙ find_clear lr page va added added_clear
        ∙ sym (find_stop lr r va _ m refl d)
    | inr e ↦
        let c = added_other r (px (suc lr) va) (suc lr, vpn (suc (suc lr)) va) h e in
        elim (Bool-cases (is_valid (m.ptes r (px (suc lr) va)))) [
          | inl v ↦
              find_go lr r va (m.ptes r (px (suc lr) va)) added c v
              ∙ find-added lr (pte2pa (m.ptes r (px (suc lr) va))) va
                  (below_way place root m lr r va t h v)
              ∙ sym (find_go lr r va _ m refl v)
          | inr v ↦ find_stop lr r va _ added c v ∙ sym (find_stop lr r va _ m refl v)
        ]
  ]

  pub added-Grows : Grows place m (grown place page l (k * 512 + i)) added
  added-Grows = record {
    wider = wider;
    kept = λ q j x h v. added_other q j x h (not_here q j v);
    finds = find-added;
  }
    where
      wider : (q : ℕ) (x : ℕ × ℕ) → place q ≡ some x → grown place page l (k * 512 + i) q ≡ some x
      wider q x h = rw (other_page q x h) h

      not_here : (q j : ℕ) → is_valid (m.ptes q j) ≡ true → (q == p && j == i) ≡ false
      not_here q j v = elim (Bool-cases (q == p && j == i)) [
        | inr e ↦ e
        | inl e ↦
            let a : q ≡ p = (==_iff q p).0 (ground arith) in
            let b : j ≡ i = (==_iff j i).0 (ground arith) in
            absurd (true≢false (sym v ∙ ap₂ (λ x y. is_valid (m.ptes x y)) a b ∙ missing))
      ]

  pub added-IsTree : IsTree (grown place page l (k * 512 + i)) root added
  added-IsTree = record {
    top = added-Grows.wider root (2, 0) t.top;
    below = λ q n x j h s v. below q n x j h s v;
  }
    where
      below :
          (q n x j : ℕ)
          → grown place page l (k * 512 + i) q ≡ some (suc n, x)
          → j < 512
          → is_valid (added.ptes q j) ≡ true
          → grown place page l (k * 512 + i) (pte2pa (added.ptes q j)) ≡ some (n, x * 512 + j)
      below q n x j h s v = elim (Bool-cases (q == page)) [
        | inl e ↦
            let a : q ≡ page = (==_iff q page).0 e in
            absurd (
              true≢false
                (sym v ∙ ap (λ y. is_valid (added.ptes y j)) a ∙ ap is_valid (added_clear j)))
        | inr e ↦
            let h' : place q ≡ some (suc n, x) =
              subst (λ b. (if b then some (l, k * 512 + i) else place q) ≡ some (suc n, x)) e h in
            elim (Bool-cases (q == p && j == i)) [
              | inr o ↦
                  let c = added_other q j (suc n, x) h' o in
                  ap (λ y. grown place page l (k * 512 + i) (pte2pa y)) c
                  ∙ added-Grows.wider _ (n, x * 512 + j)
                      (t.below q n x j h' s (ap is_valid (sym c) ∙ v))
              | inl o ↦
                  let a : q ≡ p = (==_iff q p).0 (ground arith) in
                  let b : j ≡ i = (==_iff j i).0 (ground arith) in
                  let u = place_p q (suc n) x h' a in
                  ap (λ y. grown place page l (k * 512 + i) (pte2pa y))
                    (ap₂ added.ptes a b ∙ added_here)
                  ∙ ap (grown place page l (k * 512 + i)) (pte2pa-pa2pte page good)
                  ∙ ap (λ y. if y then some (l, k * 512 + i) else place page) (==-refl page)
                  ∙ ap₂ (λ y z. some (y, z)) (omega (arith, u.0)) (omega (arith, u.1, b))
            ]
      ]
