-- ===== src/PageTable/Outside.antt =====
-- kernel/vm.c: the tables do not see what is written to a page outside the tree.
use liberal_os.Prelude.{
  ℕ, zero, suc, ◌≡◌, refl, sym, ap, ◌∙◌, subst, ◌≢◌, inl, inr, false, Option, none, some, List,
  arith, ◌==◌, if◌then◌else◌, ==-false, Bool-cases,
}
use liberal_os.PageTable.{Pages, px, vpn, pte2pa, is_valid}
use liberal_os.PageTable.Find.{IsTree, find, find_go, find_stop, below_way}
use liberal_os.PageTable.Walks.{Way}

-- The page p holds f, and the free pages are ps.
abbrev pub written : ℕ → (ℕ → ℕ) → List ℕ → Pages → Pages
written p f ps m = record { ptes = λ q j. if q == p then f j else m.ptes q j; free = ps }

module _ (place : ℕ → Option (ℕ × ℕ)) (root : ℕ) (m : Pages) (t : IsTree place root m) (p : ℕ)
    (out : place p ≡ none) (f : ℕ → ℕ) (ps : List ℕ) where
  in_tree : (q : ℕ) (x : ℕ × ℕ) → place q ≡ some x → (q == p) ≡ false
  in_tree q x h = ==-false q p (λ e. none_some x (sym out ∙ ap place (sym e) ∙ h))
    where
      none_some : (x : ℕ × ℕ) → none ≢ some x
      none_some x h = absurd (ground arith)

  ptes-written : (q j : ℕ) (x : ℕ × ℕ) → place q ≡ some x → (written p f ps m).ptes q j ≡ m.ptes q j
  ptes-written q j x h = rw (in_tree q x h) refl

  pub written-IsTree : IsTree place root (written p f ps m)
  written-IsTree = record {
    top = t.top;
    below = λ q l k i h s v.
        let e = ptes-written q i (suc l, k) h in
        ap (λ x. place (pte2pa x)) e ∙ t.below q l k i h s (ap is_valid (sym e) ∙ v);
  }

  pub find-written :
      (l r va : ℕ)
      → place r ≡ some (l, vpn (suc l) va)
      → find l r va (written p f ps m) ≡ find l r va m
  unfolding find
  find-written zero r va h = ptes-written r (px 0 va) _ h
  find-written (suc l) r va h =
      let e = ptes-written r (px (suc l) va) _ h in
      elim (Bool-cases (is_valid (m.ptes r (px (suc l) va)))) [
        | inl v ↦
            find_go l r va (m.ptes r (px (suc l) va)) (written p f ps m) e v
            ∙ find-written l (pte2pa (m.ptes r (px (suc l) va))) va
                (below_way place root m l r va t h v)
            ∙ sym (find_go l r va _ m refl v)
        | inr v ↦ find_stop l r va _ (written p f ps m) e v ∙ sym (find_stop l r va _ m refl v)
      ]

  pub Way-written :
      (l r va q : ℕ)
      → place r ≡ some (l, vpn (suc l) va)
      → Way l r va m q
      → Way l r va (written p f ps m) q
  Way-written zero r va q h w = w
  Way-written (suc l) r va q h w =
      let e = ptes-written r (px (suc l) va) _ h in
      (
        ap is_valid e ∙ w.0,
        subst (λ x. Way l (pte2pa x) va (written p f ps m) q) (sym e)
            (Way-written l (pte2pa (m.ptes r (px (suc l) va))) va q
              (below_way place root m l r va t h w.0) w.1),
      )
