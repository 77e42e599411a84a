-- ===== src/PageTable/Reach.antt =====
-- The loop of walk() in kernel/vm.c with alloc.
use liberal_os.Prelude.{ℕ, zero, suc, ◌≡◌, refl, sym, ap, ◌∙◌, subst, true, Option, none, some}
use liberal_os.PageTable.{Pages, px, vpn, pte2pa, is_valid, walk_from, walk_next}
use liberal_os.PageTable.Grow.{Grows-trans}
use liberal_os.PageTable.Walks.{
  Grown, Grown-same, Way, child-Child, ChildResult.no_page, ChildResult.leads,
}
use liberal_os.PageTable.Find.{IsTree, AreFree}

unfoldable pub Grown-trans :
    (place : ℕ → Option (ℕ × ℕ)) (root : ℕ) (m n o : Pages) (g : Grown place root m n)
    → Grown g.place' root n o
    → Grown place root m o
Grown-trans place root m n o g h = record {
  place' = h.place';
  grows = Grows-trans place g.place' h.place' m n o g.grows h.grows;
  tree = h.tree;
  free_pages = h.free_pages;
  stays = λ q a b. let s = g.stays q a b in h.stays q s.0 s.1;
}

-- How walk() ends: without a page for a table, or at the entry of the address.
pub data WalkResult (place : ℕ → Option (ℕ × ℕ)) (root : ℕ) (m : Pages) (l r va : ℕ)
    (res : Option (ℕ × ℕ) × Pages) : Type 0 where
  out_of_pages :
      (m' : Pages) → Grown place root m m' → res ≡ (none, m') → WalkResult place root m l r va res
  at_entry :
      (p : ℕ) (m' : Pages) (g : Grown place root m m')
      → res ≡ (some (p, px 0 va), m')
      → g.place' p ≡ some (0, vpn 1 va)
      → Way l r va m' p
      → WalkResult place root m l r va res

further :
    (l r va root : ℕ) (place : ℕ → Option (ℕ × ℕ)) (m m' : Pages) (c : ℕ)
    (g : Grown place root m m') (res : Option (ℕ × ℕ) × Pages)
    → WalkResult g.place' root m' l c va res
    → place r ≡ some (suc l, vpn (suc (suc l)) va)
    → is_valid (m'.ptes r (px (suc l) va)) ≡ true
    → pte2pa (m'.ptes r (px (suc l) va)) ≡ c
    → WalkResult place root m (suc l) r va res
unfolding Grown-trans
further l r va root place m m' c g res (out_of_pages o h e) at v q =
    out_of_pages o (Grown-trans place root m m' o g h) e
further l r va root place m m' c g res (at_entry p o h e a w) at v q =
    let k = h.grows.kept r (px (suc l) va) _ (g.grows.wider r _ at) v in
    at_entry p o (Grown-trans place root m m' o g h) e a
      (ap is_valid k ∙ v, subst (λ x. Way l x va o p) (sym (ap pte2pa k ∙ q)) w)

pub walk_from-Walks :
    (l r va root : ℕ) (place : ℕ → Option (ℕ × ℕ)) (m : Pages)
    → IsTree place root m
    → AreFree place m.free
    → place r ≡ some (l, vpn (suc l) va)
    → WalkResult place root m l r va (walk_from l r va true m)
unfolding walk_from walk_next Grown-same Grown-trans
walk_from-Walks zero r va root place m t f at =
    at_entry r m (Grown-same place root m t f) refl at refl
walk_from-Walks (suc l) r va root place m t f at = elim (child-Child place root m t l r va at f) [
  | no_page e ↦ rw e (out_of_pages m (Grown-same place root m t f) refl)
  | leads c m' g e at' v q ↦ rw e (
      further l r va root place m m' c g (walk_from l c va true m')
        (walk_from-Walks l c va root g.place' m' g.tree g.free_pages at') at v q)
]
