-- ===== src/PageTable/Alloc.antt =====
-- The loop of uvmalloc() in kernel/vm.c.
use liberal_os.Prelude.{
  ℕ, zero, suc, ◌+◌, ◌*◌, ◌%◌, ◌≤◌, ◌<◌, ◌≡◌, refl, sym, ap, ◌∙◌, subst, ◌≢◌, ◌⊎◌, inl, inr, true,
  false, ◌&&◌, Option, none, some, List, [], ◌∷◌, arith, ltb, leb,
}
use liberal_os.Kalloc.{is_page}
use liberal_os.PageTable.Outside.{written, written-IsTree, find-written}
use liberal_os.PageTable.Uvm.{
  AreApart, undo_some, leaf-IsUserPage, inside, Differs, IsUserPage, IsUnmapped,
}
use liberal_os.PageTable.{is_valid, Pages, vpn, maxva}
use mathlib.Core.Path.{subst₂}
use liberal_os.PageTable.Frees.{ArePages, LeavesPages, mappages-LeavesPages}
use liberal_os.PageTable.Range.{
  AreApart-more, AreApart-same, one_more_page, Differs-same, kfree_runs, panics_not,
  kept-IsUnmapped,
}
use liberal_os.PageTable.Find.{NotIn, IsTree, AreFree, find}
use liberal_os.PageTable.Mapped.{
  top, mappages-MapSpec, MapSpec, MapSpec.all_mapped, MapSpec.some_mapped, MapSpec.was_mapped,
  mapped_to, mapped_none,
}
use liberal_os.PageTable.Map.{
  freed_entry, mappages, MapResult, pgroundup, pages_between, uvm_undo, uvm_map, uvm_page, uvm_loop,
  uvmalloc,
}

-- All pages, or the mappings of before.
abbrev pub Result : ℕ → ℕ → ℕ → ℕ → ℕ → Pages → Option (ℕ × Pages) → Type 0
Result limit root a0 n newsz m0 r =
    (m' : Pages) × (((r ≡ some (newsz, m')) × Differs (IsUserPage limit) root a0 n m0 m')
      ⊎ ((r ≡ some (0, m')) × Differs IsUnmapped root a0 n m0 m'))

-- The range of n pages is below MAXVA and was not mapped.
abbrev pub IsFreeRange : ℕ → ℕ → ℕ → Pages → Type 0
IsFreeRange root a0 n m0 =
    ((i : ℕ) → i < n → a0 + i * 4096 < maxva)
    × ((va : ℕ) → va < maxva → inside a0 n va ≡ true → IsUnmapped (find 2 root va m0))

module _ (limit root a0 newsz xperm : ℕ) (m0 : Pages) (al : a0 % 4096 ≡ 0) (xp : xperm ≤ 12) where
  abbrev Goes : ℕ → ℕ → Pages → Type 0
  Goes k n m =
      (place : ℕ → Option (ℕ × ℕ))
      → IsTree place root m
      → AreFree place m.free
      → ArePages limit m.free
      → Differs (IsUserPage limit) root a0 k m0 m
      → AreApart place root a0 k m m.free
      → IsFreeRange root a0 (k + n) m0
      → Result limit root a0 (k + n) newsz m0
          (uvm_loop limit root n (a0 + k * 4096) a0 newsz xperm m)

  abbrev next_page : ℕ → ℕ → Pages → Option (ℕ × Pages)
  next_page k n m = uvm_loop limit root n (a0 + k * 4096 + 4096) a0 newsz xperm m

  give_up :
      (k n : ℕ) (place : ℕ → Option (ℕ × ℕ)) (m : Pages) (ps : List ℕ)
      → IsTree place root m
      → Differs (IsUserPage limit) root a0 k m0 m
      → AreApart place root a0 k m ps
      → IsFreeRange root a0 (k + suc n) m0
      → Result limit root a0 (k + suc n) newsz m0 (uvm_undo limit root (a0 + k * 4096) a0 (some m))
  give_up k n place m ps t d o u =
      let (m', x) =
        undo_some limit root a0 k (suc n) place m0 m ps t al d o (λ i s. u.0 i (omega arith)) u.1 in
      (m', inr x)

  after_map :
      (k n mem : ℕ) (place : ℕ → Option (ℕ × ℕ)) (m1 : Pages) (r : MapResult)
      → MapSpec place root 1 (a0 + k * 4096) mem (18 + xperm) m1 r
      → LeavesPages limit r
      → is_page limit mem ≡ true
      → (place mem ≡ none) × NotIn mem m1.free
      → Differs (IsUserPage limit) root a0 k m0 m1
      → AreApart place root a0 k m1 (mem ∷ m1.free)
      → IsFreeRange root a0 (k + suc n) m0
      → ((m : Pages) → Goes (suc k) n m)
      → Result limit root a0
          (k + suc n)
          newsz
          m0
          (uvm_map limit root (a0 + k * 4096) a0 mem (next_page k n) r)
  unfolding uvm_map
  after_map k n mem place m1 r (was_mapped j l q) p g out d o u ih =
      let at = u.0 k (omega arith) in
      absurd (
        panics_not root (a0 + k * 4096) m1 at (kept-IsUnmapped limit root a0 k n m0 m1 d at u.1)
          (subst (λ b. (maxva ≤ b) ⊎ (is_valid (find 2 root b m1) ≡ true)) (omega arith) q))
  after_map k n mem place m1 r (all_mapped m2 x) p g out d o u ih =
      subst (λ b. Result limit root a0 b newsz m0 (next_page k n m2)) (omega arith)
        (subst
          (λ b.
            Result limit root a0 (suc k + n) newsz m0 (uvm_loop limit root n b a0 newsz xperm m2))
          (omega arith)
          (ih m2 x.place' x.tree x.free_pages p
            (one_more_page limit root a0 k mem (18 + xperm) m0 m1 m2
              (leaf-IsUserPage limit mem xperm xp g) d x.entries)
            (AreApart-more limit root a0 k mem xperm place x.place' m1 m2 m1.free m2.free xp g
              x.stays out.0 out.1 o x.entries)
            (subst (λ b. IsFreeRange root a0 b m0) (omega arith) u)))
  after_map k n mem place m1 r (some_mapped j m2 l x) p g out d o u ih =
      let same : (va : ℕ) → va < maxva → find 2 root va m2 ≡ find 2 root va m1 = λ va h.
        x.entries va h
        ∙ ap (λ b. mapped_to b (a0 + k * 4096) mem (18 + xperm) va (find 2 root va m1))
            (omega arith)
        ∙ mapped_none (a0 + k * 4096) mem (18 + xperm) va (find 2 root va m1) in
      let outside = (x.stays mem out.0 out.1).0 in
      let freed = written mem (freed_entry m2.free) (mem ∷ m2.free) m2 in
      let still : (va : ℕ) → va < maxva → find 2 root va freed ≡ find 2 root va m1 = λ va h.
        find-written x.place' root m2 x.tree mem outside (freed_entry m2.free) (mem ∷ m2.free) 2
          root va (top x.place' root m2 va x.tree h)
        ∙ same va h in
      subst
        (λ o. Result limit root a0 (k + suc n) newsz m0 (uvm_undo limit root (a0 + k * 4096) a0 o))
        (sym (kfree_runs limit mem m2 g))
        (give_up k n x.place' freed m2.free
          (written-IsTree x.place' root m2 x.tree mem outside (freed_entry m2.free) (mem ∷ m2.free))
          (Differs-same limit root a0 k m0 m1 freed d still)
          (AreApart-same root a0 k place x.place' m1 freed m1.free m2.free x.stays still
            (λ va h i. let b = o va h i in (b.0, b.1.1)))
          u)

  page-Goes :
      (n k : ℕ) (m : Pages) (ps : List ℕ) (place : ℕ → Option (ℕ × ℕ))
      → IsTree place root m
      → AreFree place ps
      → ArePages limit ps
      → Differs (IsUserPage limit) root a0 k m0 m
      → AreApart place root a0 k m ps
      → IsFreeRange root a0 (k + suc n) m0
      → ((m2 : Pages) → Goes (suc k) n m2)
      → Result limit root a0
          (k + suc n)
          newsz
          m0
          (uvm_page limit root (a0 + k * 4096) a0 xperm (next_page k n) m ps)
  unfolding uvm_page
  page-Goes n k m [] place t f p d o u ih = give_up k n place m [] t d o u
  page-Goes n k m (mem ∷ pages) place t f p d o u ih =
      let m1 : Pages = written mem (λ j. 0) pages m in
      let a : (a0 + k * 4096) % 4096 ≡ 0 = omega (arith, al) in
      let same : (va : ℕ) → va < maxva → find 2 root va m1 ≡ find 2 root va m = λ va h.
        find-written place root m t mem f.0.0 (λ j. 0) pages 2 root va (top place root m va t h) in
      after_map k n mem place m1 (mappages root (a0 + k * 4096) 4096 mem (18 + xperm) m1)
        (mappages-MapSpec root (a0 + k * 4096) 4096 mem (18 + xperm) place m1
          (written-IsTree place root m t mem f.0.0 (λ j. 0) pages) f.1.1 a refl (omega arith))
        (mappages-LeavesPages limit root (a0 + k * 4096) mem (18 + xperm) m1 a p.1) p.0
        (f.0.0, f.1.0) (Differs-same limit root a0 k m0 m m1 d same)
        (AreApart-same root a0 k place place m m1 (mem ∷ pages) (mem ∷ pages) (λ q h n. (h, n)) same
          o)
        u ih

  loop-Goes : (n k : ℕ) (m : Pages) → Goes k n m
  unfolding uvm_loop
  loop-Goes zero k m place t f p d o u =
      (m, inl (refl, subst (λ b. Differs (IsUserPage limit) root a0 b m0 m) (omega arith) d))
  loop-Goes (suc n) k m place t f p d o u =
      page-Goes n k m m.free place t f p d o u (λ m2. loop-Goes n (suc k) m2)

  loop_all :
      (n : ℕ) (place : ℕ → Option (ℕ × ℕ))
      → IsTree place root m0
      → AreFree place m0.free
      → ArePages limit m0.free
      → IsFreeRange root a0 n m0
      → Result limit root a0 n newsz m0 (uvm_loop limit root n a0 a0 newsz xperm m0)
  loop_all n place t f p u =
      subst₂ (λ b a. Result limit root a0 b newsz m0 (uvm_loop limit root n a a0 newsz xperm m0))
        (omega arith) (omega arith)
        (loop-Goes n 0 m0 place t f p
          (λ va g. (λ i. absurd (none_inside (vpn 0 a0) (vpn 0 va) i), λ i. refl))
          (λ va g i. absurd (none_inside (vpn 0 a0) (vpn 0 va) i))
          (subst (λ b. IsFreeRange root a0 b m0) (omega arith) u))
    where
      none_inside : (y x : ℕ) → (leb y x && ltb x (y + 0)) ≢ true
      none_inside y x i = absurd (ground arith)

-- uvmalloc() on a tree of tables, with distinct free pages outside it that kfree() takes, for a range
-- of addresses below MAXVA that is not mapped, does not panic: it returns the new size, and then every
-- page of the range is mapped for the user and no other entry has changed; or it returns 0, and then
-- no page of the range is mapped and no other entry has changed.
pub uvmalloc-Result :
    (limit root oldsz newsz xperm : ℕ) (place : ℕ → Option (ℕ × ℕ)) (m : Pages)
    → IsTree place root m
    → AreFree place m.free
    → ArePages limit m.free
    → xperm ≤ 12
    → oldsz ≤ newsz
    → IsFreeRange root (pgroundup oldsz) (pages_between (pgroundup oldsz) newsz) m
    → Result limit root
        (pgroundup oldsz)
        (pages_between (pgroundup oldsz) newsz)
        newsz
        m
        (uvmalloc limit root oldsz newsz xperm m)
unfolding uvmalloc
uvmalloc-Result limit root oldsz newsz xperm place m t f p xp le u =
    let b : ltb newsz oldsz ≡ false = ground arith in
    let start = pgroundup oldsz in
    rw b (
      loop_all limit root start newsz xperm m (omega arith) xp (pages_between start newsz) place t f
        p u)
