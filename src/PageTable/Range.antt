-- ===== src/PageTable/Range.antt =====
-- uvmalloc() of kernel/vm.c: the pages that it has mapped so far.
use liberal_os.Prelude.{
  ℕ, suc, ◌+◌, ◌-◌, ◌*◌, ◌≤◌, ◌<◌, ◌≡◌, refl, sym, ap, ◌∙◌, subst, ◌⊎◌, inl, inr, true, false, ◌&&◌,
  Option, none, some, List, ◌∷◌, arith, ltb, leb, ◌==◌, if◌then◌else◌, ==_iff, Bool-cases,
}
use liberal_os.Kalloc.{is_page}
use mathlib.Core.Bool.{true≢false}
use liberal_os.PageTable.Outside.{written}
use liberal_os.PageTable.Uvm.{AreApart, leaf_page, inside, Differs, IsUserPage, IsUnmapped}
use liberal_os.PageTable.{pte2pa, is_valid, Pages, vpn, maxva}
use liberal_os.PageTable.Find.{Stays, NotIn, find}
use liberal_os.PageTable.Mapped.{mapped_to}
use liberal_os.PageTable.Map.{leaf_pte, kfree_page, freed_entry}

vpn_at : (a k : ℕ) → vpn 0 (a + k * 4096) ≡ vpn 0 a + k
unfolding vpn
vpn_at a k = omega arith

mapped_here :
    (a0 k mem perm va old : ℕ)
    → vpn 0 va ≡ vpn 0 a0 + k
    → mapped_to 1 (a0 + k * 4096) mem perm va old ≡ leaf_pte mem perm
mapped_here a0 k mem perm va old x = rw (vpn_at a0 k, x) (case (vpn 0 a0 + k))
  where
    case :
        (y : ℕ)
        → (if leb y y && ltb y (y + 1) then leaf_pte (mem + (y - y) * 4096) perm else old)
          ≡ leaf_pte mem perm
    case y = ground arith

inside_here : (a0 k va : ℕ) → vpn 0 va ≡ vpn 0 a0 + k → inside a0 (suc k) va ≡ true
inside_here a0 k va x = rw x (case (vpn 0 a0))
  where
    case : (y : ℕ) → (leb y (y + k) && ltb (y + k) (y + suc k)) ≡ true
    case y = ground arith

mapped_there :
    (a0 k mem perm va old : ℕ)
    → (vpn 0 va == vpn 0 a0 + k) ≡ false
    → mapped_to 1 (a0 + k * 4096) mem perm va old ≡ old
mapped_there a0 k mem perm va old q = rw (vpn_at a0 k) (case (vpn 0 a0 + k) (vpn 0 va) q)
  where
    case :
        (y x : ℕ)
        → (x == y) ≡ false
        → (if leb y x && ltb x (y + 1) then leaf_pte (mem + (x - y) * 4096) perm else old) ≡ old
    case y x q = ground arith

inside_before :
    (a0 k va : ℕ) → (vpn 0 va == vpn 0 a0 + k) ≡ false → inside a0 (suc k) va ≡ inside a0 k va
inside_before a0 k va q = case (vpn 0 a0) (vpn 0 va) q
  where
    case :
        (y x : ℕ)
        → (x == y + k) ≡ false
        → (leb y x && ltb x (y + suc k)) ≡ (leb y x && ltb x (y + k))
    case y x q = ground arith

-- The page k is mapped after the k before it.
pub one_more_page :
    (limit root a0 k mem perm : ℕ) (m0 m1 m2 : Pages)
    → IsUserPage limit (leaf_pte mem perm)
    → Differs (IsUserPage limit) root a0 k m0 m1
    → ((va : ℕ)
        → va < maxva
        → find 2 root va m2 ≡ mapped_to 1 (a0 + k * 4096) mem perm va (find 2 root va m1))
    → Differs (IsUserPage limit) root a0 (suc k) m0 m2
one_more_page limit root a0 k mem perm m0 m1 m2 good d e va g =
    elim (Bool-cases (vpn 0 va == vpn 0 a0 + k)) [
      | inl q ↦
          let x : vpn 0 va ≡ vpn 0 a0 + k = (==_iff _ _).0 q in
          let f : find 2 root va m2 ≡ leaf_pte mem perm =
            e va g ∙ mapped_here a0 k mem perm va (find 2 root va m1) x in
          (
            λ j. subst (IsUserPage limit) (sym f) good,
            λ j. absurd (true≢false (sym (inside_here a0 k va x) ∙ j)),
          )
      | inr q ↦
          let f : find 2 root va m2 ≡ find 2 root va m1 =
            e va g ∙ mapped_there a0 k mem perm va (find 2 root va m1) q in
          let i : inside a0 (suc k) va ≡ inside a0 k va = inside_before a0 k va q in
          (
            λ j. subst (IsUserPage limit) (sym f) ((d va g).0 (sym i ∙ j)),
            λ j. f ∙ (d va g).1 (sym i ∙ j),
          )
    ]

pub Differs-same :
    (limit root a k : ℕ) (m0 m1 m2 : Pages)
    → Differs (IsUserPage limit) root a k m0 m1
    → ((va : ℕ) → va < maxva → find 2 root va m2 ≡ find 2 root va m1)
    → Differs (IsUserPage limit) root a k m0 m2
Differs-same limit root a k m0 m1 m2 d e va g =
    (λ i. subst (IsUserPage limit) (sym (e va g)) ((d va g).0 i), λ i. e va g ∙ (d va g).1 i)

pub kfree_runs :
    (limit mem : ℕ) (m : Pages)
    → is_page limit mem ≡ true
    → kfree_page limit mem m ≡ some (written mem (freed_entry m.free) (mem ∷ m.free) m)
unfolding kfree_page
kfree_runs limit mem m e = rw e refl

pub panics_not :
    (root a : ℕ) (m : Pages)
    → a < maxva
    → IsUnmapped (find 2 root a m)
    → ¬ ((maxva ≤ a) ⊎ (is_valid (find 2 root a m) ≡ true))
panics_not root a m l u (inl h) = omega (arith, l, h)
panics_not root a m l u (inr h) = absurd (true≢false (sym h ∙ u))

pub kept-IsUnmapped :
    (limit root a0 k n : ℕ) (m0 m1 : Pages)
    → Differs (IsUserPage limit) root a0 k m0 m1
    → a0 + k * 4096 < maxva
    → ((va : ℕ) → va < maxva → inside a0 (k + suc n) va ≡ true → IsUnmapped (find 2 root va m0))
    → IsUnmapped (find 2 root (a0 + k * 4096) m1)
kept-IsUnmapped limit root a0 k n m0 m1 d l u =
    ap is_valid ((d (a0 + k * 4096) l).1 (outside (vpn 0 a0) _ (vpn_at a0 k)))
    ∙ u (a0 + k * 4096) l (within (vpn 0 a0) _ (vpn_at a0 k))
  where
    outside : (y x : ℕ) → x ≡ y + k → (leb y x && ltb x (y + k)) ≡ false
    outside y x e = ground arith

    within : (y x : ℕ) → x ≡ y + k → (leb y x && ltb x (y + (k + suc n))) ≡ true
    within y x e = ground arith

-- After one more page, with the tables that it needed.
pub AreApart-more :
    (limit root a0 k mem xperm : ℕ) (place place' : ℕ → Option (ℕ × ℕ)) (m m2 : Pages)
    (ps ps' : List ℕ)
    → xperm ≤ 12
    → is_page limit mem ≡ true
    → Stays place ps place' ps'
    → place mem ≡ none
    → NotIn mem ps
    → AreApart place root a0 k m (mem ∷ ps)
    → ((va : ℕ)
        → va < maxva
        → find 2 root va m2 ≡ mapped_to 1 (a0 + k * 4096) mem (18 + xperm) va (find 2 root va m))
    → AreApart place' root a0 (suc k) m2 ps'
AreApart-more limit root a0 k mem xperm place place' m m2 ps ps' xp g st out new before e va l i =
    elim (Bool-cases (vpn 0 va == vpn 0 a0 + k)) [
      | inl q ↦
          let f =
            e va l ∙ mapped_here a0 k mem (18 + xperm) va (find 2 root va m) ((==_iff _ _).0 q) in
          let page : pte2pa (find 2 root va m2) ≡ mem =
            ap pte2pa f ∙ leaf_page limit mem xperm xp g in
          subst (λ x. (place' x ≡ none) × NotIn x ps') (sym page) (st mem out new)
      | inr q ↦
          let f = e va l ∙ mapped_there a0 k mem (18 + xperm) va (find 2 root va m) q in
          let old = before va l (sym (inside_before a0 k va q) ∙ i) in
          subst (λ x. (place' x ≡ none) × NotIn x ps') (ap pte2pa (sym f))
            (st (pte2pa (find 2 root va m)) old.0 old.1.1)
    ]

-- The same pages, seen after the entries stay and tables are added.
pub AreApart-same :
    (root a0 k : ℕ) (place place' : ℕ → Option (ℕ × ℕ)) (m m2 : Pages) (ps ps' : List ℕ)
    → Stays place ps place' ps'
    → ((va : ℕ) → va < maxva → find 2 root va m2 ≡ find 2 root va m)
    → AreApart place root a0 k m ps
    → AreApart place' root a0 k m2 ps'
AreApart-same root a0 k place place' m m2 ps ps' st e before va l i =
    let old = before va l i in
    subst (λ x. (place' x ≡ none) × NotIn x ps') (ap pte2pa (sym (e va l)))
      (st (pte2pa (find 2 root va m)) old.0 old.1)
