-- ===== src/PageTable/Mapped.antt =====
-- mappages() of kernel/vm.c as an update of the map from addresses to entries.
use liberal_os.Prelude.{
  ℕ, zero, suc, ◌+◌, ◌-◌, ◌*◌, ◌/◌, ◌%◌, ◌≤◌, ◌<◌, ◌≡◌, refl, sym, ap, ◌∙◌, subst, ◌⊎◌, inl, inr,
  true, false, ◌&&◌, Option, some, arith, ltb, leb, ◌==◌, if◌then◌else◌, ==-false, Bool-cases,
}
use liberal_os.PageTable.{Pages, px, vpn, pte2pa, is_valid, put_pte, maxva, walk_from}
use liberal_os.PageTable.Find.{Stays, IsTree, AreFree, find, find_go, vpn_top}
use liberal_os.PageTable.Walks.{Way, Grown}
use liberal_os.PageTable.Reach.{
  WalkResult.out_of_pages, WalkResult.at_entry, WalkResult, walk_from-Walks,
}
use liberal_os.PageTable.Leaf.{changed, changed-IsTree, find-changed}
use liberal_os.PageTable.Map.{
  mappages, leaf_pte, map_loop, map_entry, MapResult, MapResult.panics, MapResult.map_failed,
  MapResult.mapped,
}

-- The entries after n pages from a on are mapped to those from pa on.
abbrev pub mapped_to : ℕ → ℕ → ℕ → ℕ → ℕ → ℕ → ℕ
mapped_to n a pa perm va old =
    if leb (vpn 0 a) (vpn 0 va) && ltb (vpn 0 va) (vpn 0 a + n)
    then leaf_pte (pa + (vpn 0 va - vpn 0 a) * 4096) perm
    else old

pub vpn_next : (a : ℕ) → vpn 0 (a + 4096) ≡ vpn 0 a + 1
unfolding vpn
vpn_next a = omega arith

-- One page and the n after it.
mapped_to_more :
    (n a pa perm va old : ℕ)
    → mapped_to n
        (a + 4096)
        (pa + 4096)
        perm
        va
        (if vpn 0 va == vpn 0 a then leaf_pte pa perm else old)
      ≡ mapped_to (suc n) a pa perm va old
mapped_to_more n a pa perm va old = rw (vpn_next a) (cases (vpn 0 va) (vpn 0 a))
  where
    cases :
        (x y : ℕ)
        → (if leb (y + 1) x && ltb x (y + 1 + n)
            then leaf_pte (pa + 4096 + (x - (y + 1)) * 4096) perm
            else (if x == y then leaf_pte pa perm else old))
          ≡ (if leb y x && ltb x (y + suc n) then leaf_pte (pa + (x - y) * 4096) perm else old)
    cases x y = elim (Bool-cases (x == y)) [ inl e ↦ ground arith | inr e ↦ ground arith ]

pub find-Way :
    (l r va : ℕ) (m : Pages) (p : ℕ) → Way l r va m p → find l r va m ≡ m.ptes p (px 0 va)
unfolding find
find-Way zero r va m p w = ap (λ q. m.ptes q (px 0 va)) w
find-Way (suc l) r va m p w =
    find_go l r va _ m refl w.0 ∙ find-Way l (pte2pa (m.ptes r (px (suc l) va))) va m p w.1

-- A state with its tree whose entries are a function of those before.
pub record Remapped (place : ℕ → Option (ℕ × ℕ)) (root : ℕ) (m m' : Pages) (f : ℕ → ℕ → ℕ)
    : Type 0 where
  pub place' : ℕ → Option (ℕ × ℕ)
  pub tree : IsTree place' root m'
  pub free_pages : AreFree place' m'.free
  pub stays : Stays place m.free place' m'.free
  pub entries : (va : ℕ) → va < maxva → find 2 root va m' ≡ f va (find 2 root va m)

-- What mappages() guarantees of n pages from a on: all are mapped, or the first of them when it runs
-- out of pages for tables, and a panic means that one of the addresses was mapped or is no address. A
-- page that is neither a table nor free does not become one of these.
pub data MapSpec (place : ℕ → Option (ℕ × ℕ)) (root n a pa perm : ℕ) (m : Pages)
    : MapResult → Type 0 where
  all_mapped :
      (m' : Pages)
      → Remapped place root m m' (mapped_to n a pa perm)
      → MapSpec place root n a pa perm m (mapped m')
  some_mapped :
      (k : ℕ) (m' : Pages)
      → k < n
      → Remapped place root m m' (mapped_to k a pa perm)
      → MapSpec place root n a pa perm m (map_failed m')
  was_mapped :
      (k : ℕ)
      → k < n
      → (maxva ≤ a + k * 4096) ⊎ (is_valid (find 2 root (a + k * 4096) m) ≡ true)
      → MapSpec place root n a pa perm m panics

pub mapped_none : (a pa perm va old : ℕ) → mapped_to 0 a pa perm va old ≡ old
mapped_none a pa perm va old = none (vpn 0 a) (vpn 0 va)
  where
    none :
        (y x : ℕ)
        → (if leb y x && ltb x (y + 0) then leaf_pte (pa + (x - y) * 4096) perm else old) ≡ old
    none y x = ground arith

pub top :
    (place : ℕ → Option (ℕ × ℕ)) (root : ℕ) (m : Pages) (a : ℕ)
    → IsTree place root m
    → a < maxva
    → place root ≡ some (2, vpn 3 a)
top place root m a t h = t.top ∙ ap (λ n. some (2, n)) (sym (vpn_top a h))

-- A state whose tables have grown has the same entries.
grown_entries :
    (place : ℕ → Option (ℕ × ℕ)) (root : ℕ) (m m' : Pages) (g : Grown place root m m')
    → IsTree place root m
    → (va : ℕ) → va < maxva
    → find 2 root va m' ≡ find 2 root va m
grown_entries place root m m' g t va h = g.grows.finds 2 root va (top place root m va t h)

pub far : (k a : ℕ) → (vpn 0 (a + 4096 + k * 4096) == vpn 0 a) ≡ false
unfolding vpn
far k a = ==-false _ _ (λ q. omega arith)

was_before :
    (k a root : ℕ) (m m2 : Pages)
    → (maxva ≤ a + 4096 + k * 4096) ⊎ (is_valid (find 2 root (a + 4096 + k * 4096) m2) ≡ true)
    → (a + 4096 + k * 4096 < maxva
        → find 2 root (a + 4096 + k * 4096) m2 ≡ find 2 root (a + 4096 + k * 4096) m)
    → (maxva ≤ a + suc k * 4096) ⊎ (is_valid (find 2 root (a + suc k * 4096) m) ≡ true)
was_before k a root m m2 (inl h) e = inl (omega arith)
was_before k a root m m2 (inr h) e = elim (Bool-cases (leb maxva (a + 4096 + k * 4096))) [
  | inl b ↦ inl (let c : maxva ≤ a + 4096 + k * 4096 = ground arith in omega (arith, c))
  | inr b ↦
      let c : a + 4096 + k * 4096 < maxva = ground arith in
      let d : a + 4096 + k * 4096 ≡ a + suc k * 4096 = omega arith in
      inr (subst (λ x. is_valid (find 2 root x m) ≡ true) d (ap is_valid (sym (e c)) ∙ h))
]

-- After the first page, the others.
mapped_rest :
    (n root a pa perm : ℕ) (place place2 : ℕ → Option (ℕ × ℕ)) (m m2 : Pages) (r : MapResult)
    → Stays place m.free place2 m2.free
    → a < maxva
    → ((va : ℕ)
        → va < maxva
        → find 2 root va m2 ≡ (if vpn 0 va == vpn 0 a then leaf_pte pa perm else find 2 root va m))
    → MapSpec place2 root n (a + 4096) (pa + 4096) perm m2 r
    → MapSpec place root (suc n) a pa perm m r
mapped_rest n root a pa perm place place2 m m2 r o l e (all_mapped m' x) = all_mapped m' (record {
  place' = x.place';
  tree = x.tree;
  free_pages = x.free_pages;
  stays = λ q h n. let s = o q h n in x.stays q s.0 s.1;
  entries = λ va h.
      x.entries va h
      ∙ ap (mapped_to n (a + 4096) (pa + 4096) perm va) (e va h)
      ∙ mapped_to_more n a pa perm va (find 2 root va m);
})
mapped_rest n root a pa perm place place2 m m2 r o l e (some_mapped k m' s x) =
    some_mapped (suc k) m' (omega arith) (record {
      place' = x.place';
      tree = x.tree;
      free_pages = x.free_pages;
      stays = λ q h n. let s = o q h n in x.stays q s.0 s.1;
      entries = λ va h.
          x.entries va h
          ∙ ap (mapped_to k (a + 4096) (pa + 4096) perm va) (e va h)
          ∙ mapped_to_more k a pa perm va (find 2 root va m);
    })
mapped_rest n root a pa perm place place2 m m2 r o l e (was_mapped k s q) =
    was_mapped (suc k) (omega arith) (
      was_before k a root m m2 q (λ h.
        e (a + 4096 + k * 4096) h
        ∙ ap (λ b. if b then leaf_pte pa perm else find 2 root (a + 4096 + k * 4096) m) (far k a)))

mapped_next :
    (n root a pa perm : ℕ) (place : ℕ → Option (ℕ × ℕ)) (m : Pages)
    → IsTree place root m
    → a < maxva
    → place root ≡ some (2, vpn 3 a)
    → (w : Option (ℕ × ℕ) × Pages) → WalkResult place root m 2 root a w
    → ((place' : ℕ → Option (ℕ × ℕ)) (m' : Pages)
        → IsTree place' root m'
        → AreFree place' m'.free
        → MapSpec place' root n
            (a + 4096)
            (pa + 4096)
            perm
            m'
            (map_loop n root (a + 4096) (pa + 4096) perm m'))
    → MapSpec place root
        (suc n)
        a
        pa
        perm
        m
        (map_entry (λ m'. map_loop n root (a + 4096) (pa + 4096) perm m') (leaf_pte pa perm) w)
unfolding map_entry changed
mapped_next n root a pa perm place m t l at w (out_of_pages m' g e) ih = rw e (
    some_mapped 0 m' (omega arith) (record {
      place' = g.place';
      tree = g.tree;
      free_pages = g.free_pages;
      stays = g.stays;
      entries = λ va h.
          grown_entries place root m m' g t va h
          ∙ sym (mapped_none a pa perm va (find 2 root va m));
    }))
mapped_next n root a pa perm place m t l at w (at_entry p m' g e at' way) ih =
    let same = grown_entries place root m m' g t in
    rw e (elim (Bool-cases (is_valid (m'.ptes p (px 0 a)))) [
      | inl v ↦ rw v (
          was_mapped 0 (omega arith) (
            inr (
              subst (λ x. is_valid (find 2 root x m) ≡ true) (omega arith)
                (ap is_valid (sym (same a l) ∙ find-Way 2 root a m' p way) ∙ v))))
      | inr v ↦ rw v (
          mapped_rest n root a pa perm place g.place' m (put_pte p (px 0 a) (leaf_pte pa perm) m') _
            g.stays l
            (λ va h.
              find-changed g.place' root m' g.tree p a (leaf_pte pa perm) at' way l va h
              ∙ ap (λ x. if vpn 0 va == vpn 0 a then leaf_pte pa perm else x) (same va h))
            (ih g.place' _ (changed-IsTree g.place' root m' g.tree p a (leaf_pte pa perm) at')
              g.free_pages))
    ])

pub map_loop-MapSpec :
    (n root a pa perm : ℕ) (place : ℕ → Option (ℕ × ℕ)) (m : Pages)
    → IsTree place root m
    → AreFree place m.free
    → MapSpec place root n a pa perm m (map_loop n root a pa perm m)
unfolding map_loop
map_loop-MapSpec zero root a pa perm place m t f = all_mapped m (record {
  place' = place;
  tree = t;
  free_pages = f;
  stays = λ q h n. (h, n);
  entries = λ va h. sym (mapped_none a pa perm va (find 2 root va m));
})
map_loop-MapSpec (suc n) root a pa perm place m t f = elim (Bool-cases (leb maxva a)) [
  | inl e ↦ rw e (was_mapped 0 (omega arith) (inl (ground arith)))
  | inr e ↦
      let a_top : place root ≡ some (2, vpn 3 a) = top place root m a t (ground arith) in
      rw e (
        mapped_next n root a pa perm place m t (ground arith) a_top (walk_from 2 root a true m)
          (walk_from-Walks 2 root a root place m t f a_top)
          (λ place' m' t' f'. map_loop-MapSpec n root (a + 4096) (pa + 4096) perm place' m' t' f'))
]

-- On a tree of tables with distinct free pages outside it, mappages() of a whole number of pages
-- either maps all of them and changes no other entry; or runs out of pages for tables and has mapped
-- the first of them and changed no other entry; or panics, and then one of the addresses was mapped
-- before or is none below MAXVA. The tables stay a tree.
pub mappages-MapSpec :
    (root va size pa perm : ℕ) (place : ℕ → Option (ℕ × ℕ)) (m : Pages)
    → IsTree place root m
    → AreFree place m.free
    → va % 4096 ≡ 0
    → size % 4096 ≡ 0
    → 0 < size
    → MapSpec place root (size / 4096) va pa perm m (mappages root va size pa perm m)
unfolding mappages
mappages-MapSpec root va size pa perm place m t f a b c =
    let d : (size == 0) ≡ false = ==-false size 0 (λ e. omega arith) in
    rw (a, b, d) (map_loop-MapSpec (size / 4096) root va pa perm place m t f)
