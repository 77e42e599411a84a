-- ===== src/PageTable/Walks.antt =====
-- walk() of kernel/vm.c with alloc: where it ends, and that it keeps the tree and what is mapped.
use liberal_os.Prelude.{
  ℕ, zero, suc, ◌+◌, ◌*◌, ◌≡◌, refl, sym, ap, ◌∙◌, subst, ◌≢◌, inl, inr, true, false, Option, none,
  some, List, [], ◌∷◌, arith, if◌then◌else◌, ==-refl, ==-false, Bool-cases,
}
use liberal_os.PageTable.{clear_table, put_pte}
use liberal_os.PageTable.Grow.{added, added-Grows, added-IsTree, valid_one, pte2pa-pa2pte}
use liberal_os.PageTable.Find.{Stays, NotIn, vpn_split, below_way, IsTree, AreFree, NotIn, find}
use liberal_os.PageTable.{Pages, px, vpn, pte2pa, pa2pte, is_valid, new_table, child}
use liberal_os.PageTable.Grow.{grown, Grows, Grows-refl}

pub find_free :
    (l q va : ℕ) (m : Pages) (ps : List ℕ) → find l q va (record m { free = ps }) ≡ find l q va m
unfolding find
find_free zero q va m ps = refl
find_free (suc l) q va m ps =
    ap (λ n. if is_valid (m.ptes q (px (suc l) va)) then n else 0)
      (find_free l (pte2pa (m.ptes q (px (suc l) va))) va m ps)

free_grown :
    (place : ℕ → Option (ℕ × ℕ)) (page l n : ℕ) (ps : List ℕ)
    → NotIn page ps
    → AreFree place ps
    → AreFree (grown place page l n) ps
free_grown place page l n [] d f = refl
free_grown place page l n (q ∷ ps) d f = (
  (ap (λ b. if b then some (l, n) else place q) (==-false q page d.0) ∙ f.0.0, f.0.1),
  (f.1.0, free_grown place page l n ps d.1 f.1.1),
)

-- A state that m has grown to, with its tree and its free pages.
pub record Grown (place : ℕ → Option (ℕ × ℕ)) (root : ℕ) (m m' : Pages) : Type 0 where
  pub place' : ℕ → Option (ℕ × ℕ)
  pub grows : Grows place m place' m'
  pub tree : IsTree place' root m'
  pub free_pages : AreFree place' m'.free
  pub stays : Stays place m.free place' m'.free

unfoldable pub Grown-same :
    (place : ℕ → Option (ℕ × ℕ)) (root : ℕ) (m : Pages)
    → IsTree place root m
    → AreFree place m.free
    → Grown place root m m
Grown-same place root m t f = record {
  place' = place;
  grows = Grows-refl place m;
  tree = t;
  free_pages = f;
  stays = λ q h n. (h, n);
}

-- The way of walk() from a table to the table of the last level.
abbrev pub Way : ℕ → ℕ → ℕ → Pages → ℕ → Type 0
Way zero r va m p = r ≡ p
Way (suc l) r va m p =
    (is_valid (m.ptes r (px (suc l) va)) ≡ true) × Way l (pte2pa (m.ptes r (px (suc l) va))) va m p

pub data ChildResult (place : ℕ → Option (ℕ × ℕ)) (root : ℕ) (m : Pages) (l r va : ℕ)
    (res : Option ℕ × Pages) : Type 0 where
  no_page : res ≡ (none, m) → ChildResult place root m l r va res
  leads :
      (c : ℕ) (m' : Pages) (g : Grown place root m m')
      → res ≡ (some c, m')
      → g.place' c ≡ some (l, vpn (suc l) va)
      → is_valid (m'.ptes r (px (suc l) va)) ≡ true
      → pte2pa (m'.ptes r (px (suc l) va)) ≡ c
      → ChildResult place root m l r va res

module _ (place : ℕ → Option (ℕ × ℕ)) (root : ℕ) (m : Pages) (t : IsTree place root m) (l r va : ℕ)
    (at : place r ≡ some (suc l, vpn (suc (suc l)) va)) where
  unfoldable with_page :
      (page : ℕ) (ps : List ℕ)
      → AreFree place (page ∷ ps)
      → m.free ≡ page ∷ ps
      → is_valid (m.ptes r (px (suc l) va)) ≡ false
      → Grown place root m
          (put_pte r (px (suc l) va) (pa2pte page + 1) (clear_table page (record m { free = ps })))
  unfolding added
  with_page page ps f e v =
      let m0 : Pages = record m { free = ps } in
      let t0 : IsTree place root m0 = record { top = t.top; below = t.below } in
      let g =
        added-Grows place root m0 t0 r l (vpn (suc (suc l)) va) (px (suc l) va) page at
          (omega arith) v f.0.0 f.0.1 in
      record {
        place' = grown place page l (vpn (suc (suc l)) va * 512 + px (suc l) va);
        grows = record {
          wider = g.wider;
          kept = g.kept;
          finds = λ n q x h. g.finds n q x h ∙ find_free n q x m ps;
        };
        tree =
            added-IsTree place root m0 t0 r l (vpn (suc (suc l)) va) (px (suc l) va) page at
              (omega arith) v f.0.0 f.0.1;
        free_pages =
            free_grown place page l (vpn (suc (suc l)) va * 512 + px (suc l) va) ps f.1.0 f.1.1;
        stays =
            λ q h n. let s : NotIn q (page ∷ ps) = subst (NotIn q) e n in (new_page q h s.0, s.1);
      }
    where
      new_page :
          (q : ℕ)
          → place q ≡ none
          → page ≢ q
          → grown place page l (vpn (suc (suc l)) va * 512 + px (suc l) va) q ≡ none
      new_page q h d = rw (==-false q page (λ r. d (sym r))) h

  place_page :
      (page : ℕ) (ps : List ℕ) (f : AreFree place (page ∷ ps)) (e : m.free ≡ page ∷ ps)
      (v : is_valid (m.ptes r (px (suc l) va)) ≡ false)
      → (with_page page ps f e v).place' page ≡ some (l, vpn (suc l) va)
  unfolding with_page
  place_page page ps f e v =
      ap (λ b. if b then some (l, vpn (suc (suc l)) va * 512 + px (suc l) va) else place page)
        (==-refl page)
      ∙ ap (λ n. some (l, n)) (sym (vpn_split (suc l) va))

  new_table-Child :
      (ps : List ℕ)
      → AreFree place ps
      → m.free ≡ ps
      → is_valid (m.ptes r (px (suc l) va)) ≡ false
      → ChildResult place root m l r va (new_table r (px (suc l) va) m ps)
  unfolding new_table
  new_table-Child [] f e v = no_page refl
  new_table-Child (page ∷ ps) f e v =
      leads page
        (put_pte r (px (suc l) va) (pa2pte page + 1) (clear_table page (record m { free = ps })))
        (with_page page ps f e v) refl (place_page page ps f e v)
        (ap is_valid (entry page) ∙ valid_one page)
        (ap pte2pa (entry page) ∙ pte2pa-pa2pte page f.0.1)
    where
      entry :
          (page : ℕ)
          → (put_pte r
                (px (suc l) va)
                (pa2pte page + 1)
                (clear_table page (record m { free = ps }))).ptes
              r
              (px (suc l) va)
            ≡ pa2pte page + 1
      entry page = rw (==-refl r, ==-refl (px (suc l) va)) refl

  pub child-Child :
      AreFree place m.free → ChildResult place root m l r va (child true r (px (suc l) va) m)
  unfolding child Grown-same
  child-Child f = elim (Bool-cases (is_valid (m.ptes r (px (suc l) va)))) [
    | inl v ↦ rw v (
        leads (pte2pa (m.ptes r (px (suc l) va))) m (Grown-same place root m t f) refl
          (below_way place root m l r va t at v) v refl)
    | inr v ↦ rw v (new_table-Child m.free f refl v)
  ]
