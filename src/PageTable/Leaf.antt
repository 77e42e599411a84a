-- ===== src/PageTable/Leaf.antt =====
-- kernel/vm.c: a write to the entry of a page changes what is mapped there, and nowhere else.
use liberal_os.Prelude.{
  ℕ, zero, suc, ◌<◌, ◌≡◌, refl, sym, ap, ◌∙◌, ◌≢◌, ◌⊎◌, inl, inr, true, false, ◌&&◌, Option, some,
  arith, ◌==◌, if◌then◌else◌, ==_iff, ==-refl, ==-false, Bool-cases,
}
use liberal_os.PageTable.{Pages, px, vpn, pte2pa, is_valid, put_pte, maxva}
use liberal_os.PageTable.Walks.{Way}
use liberal_os.PageTable.Find.{
  IsTree, find, find_go, find_stop, below_way, vpn_split, vpn_top, find_same,
}

module _ (place : ℕ → Option (ℕ × ℕ)) (root : ℕ) (m : Pages) (t : IsTree place root m) (p va0 v : ℕ)
    (at : place p ≡ some (0, vpn 1 va0)) where
  unfoldable pub changed : Pages
  changed = put_pte p (px 0 va0) v m

  changed_other : (r j : ℕ) → (r == p && j == px 0 va0) ≡ false → changed.ptes r j ≡ m.ptes r j
  unfolding changed
  changed_other r j e = rw e refl

  level_p : (r n x : ℕ) → place r ≡ some (n, x) → r ≡ p → (n ≡ 0) × (x ≡ vpn 1 va0)
  level_p r n x h e = same (sym h ∙ ap place e ∙ at)
    where
      same :
          ◌≡◌ {A = Option (ℕ × ℕ)} (some (n, x)) (some (0, vpn 1 va0)) → (n ≡ 0) × (x ≡ vpn 1 va0)
      same q = (ground arith, ground arith)

  not_p : (r n x : ℕ) → place r ≡ some (suc n, x) → (r == p) ≡ false
  not_p r n x h = ==-false r p (λ e. absurd (omega (arith, (level_p r (suc n) x h e).0)))

  find_elsewhere :
      (l r va : ℕ)
      → place r ≡ some (l, vpn (suc l) va)
      → vpn 0 va ≢ vpn 0 va0
      → find l r va changed ≡ find l r va m
  unfolding find
  find_elsewhere zero r va h d =
      changed_other r (px 0 va) (elsewhere (Bool-cases (r == p && px 0 va == px 0 va0)))
    where
      elsewhere :
          ((r == p && px 0 va == px 0 va0) ≡ true) ⊎ ((r == p && px 0 va == px 0 va0) ≡ false)
          → (r == p && px 0 va == px 0 va0) ≡ false
      elsewhere (inr e) = e
      elsewhere (inl e) =
          let a : r ≡ p = (==_iff r p).0 (ground arith) in
          let b : px 0 va ≡ px 0 va0 = (==_iff _ _).0 (ground arith) in
          absurd
            (d (omega (arith, vpn_split 0 va, vpn_split 0 va0, b, (level_p r 0 (vpn 1 va) h a).1)))
  find_elsewhere (suc l) r va h d =
      let c =
        changed_other r (px (suc l) va)
          (ap (λ b. b && px (suc l) va == px 0 va0) (not_p r l _ h)) in
      elim (Bool-cases (is_valid (m.ptes r (px (suc l) va)))) [
        | inl w ↦
            find_go l r va (m.ptes r (px (suc l) va)) changed c w
            ∙ find_elsewhere l (pte2pa (m.ptes r (px (suc l) va))) va
                (below_way place root m l r va t h w) d
            ∙ sym (find_go l r va _ m refl w)
        | inr w ↦ find_stop l r va _ changed c w ∙ sym (find_stop l r va _ m refl w)
      ]

  find_here :
      (l r : ℕ) → place r ≡ some (l, vpn (suc l) va0) → Way l r va0 m p → find l r va0 changed ≡ v
  unfolding find changed
  find_here zero r h w = rw (w, ==-refl p, ==-refl (px 0 va0)) refl
  find_here (suc l) r h w =
      let c =
        changed_other r (px (suc l) va0)
          (ap (λ b. b && px (suc l) va0 == px 0 va0) (not_p r l _ h)) in
      find_go l r va0 (m.ptes r (px (suc l) va0)) changed c w.0
      ∙ find_here l (pte2pa (m.ptes r (px (suc l) va0))) (below_way place root m l r va0 t h w.0)
          w.1

  pub changed-IsTree : IsTree place root changed
  changed-IsTree = record {
    top = t.top;
    below = λ q l k i h s w.
        let c = changed_other q i (ap (λ b. b && i == px 0 va0) (not_p q l k h)) in
        ap (λ x. place (pte2pa x)) c ∙ t.below q l k i h s (ap is_valid (sym c) ∙ w);
  }

  pub find-changed :
      Way 2 root va0 m p
      → va0 < maxva
      → (va : ℕ) → va < maxva
      → find 2 root va changed ≡ (if vpn 0 va == vpn 0 va0 then v else find 2 root va m)
  find-changed w s va s' = elim (Bool-cases (vpn 0 va == vpn 0 va0)) [
    | inl e ↦
        rw e (find_same 2 root va va0 changed ((==_iff _ _).0 e) ∙ find_here 2 root (top va0 s) w)
    | inr e ↦ rw e (find_elsewhere 2 root va (top va s') (λ q. absurd (ground arith)))
  ]
    where
      top : (a : ℕ) → a < maxva → place root ≡ some (2, vpn 3 a)
      top a h = t.top ∙ ap (λ n. some (2, n)) (sym (vpn_top a h))
