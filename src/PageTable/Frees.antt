-- ===== src/PageTable/Frees.antt =====
-- kernel/vm.c: the pages that are free after walk() and mappages() were free before.
use liberal_os.Prelude.{
  ℕ, zero, suc, ◌+◌, ◌%◌, ◌≡◌, refl, sym, subst, inl, inr, Bool, true, false, Option, none, some,
  List, [], ◌∷◌, leb, if◌then◌else◌, Bool-cases,
}
use liberal_os.Kalloc.{is_page}
use liberal_os.PageTable.{maxva, Pages, child, new_table, walk_next, walk_from, px, is_valid}
use liberal_os.PageTable.Map.{
  leaf_pte, mappages, map_loop, map_entry, MapResult, MapResult.panics, MapResult.map_failed,
  MapResult.mapped,
}

-- Pages that kfree() takes.
abbrev pub ArePages : ℕ → List ℕ → Type 0
ArePages limit [] = true ≡ true
ArePages limit (p ∷ ps) = (is_page limit p ≡ true) × ArePages limit ps

new_table-ArePages :
    (limit table i : ℕ) (m : Pages) (ps : List ℕ)
    → m.free ≡ ps
    → ArePages limit ps
    → ArePages limit (new_table table i m ps).1.free
unfolding new_table
new_table-ArePages limit table i m [] e h = subst (ArePages limit) (sym e) h
new_table-ArePages limit table i m (p ∷ ps) e h = h.1

child-ArePages :
    (limit table i : ℕ) (alloc : Bool) (m : Pages)
    → ArePages limit m.free
    → ArePages limit (child alloc table i m).1.free
unfolding child
child-ArePages limit table i alloc m h = elim (Bool-cases (is_valid (m.ptes table i))) [
  | inl v ↦ rw v h
  | inr v ↦ rw v (both alloc)
]
  where
    both : (b : Bool) → ArePages limit (if b then new_table table i m m.free else (none, m)).1.free
    both true = new_table-ArePages limit table i m m.free refl h
    both false = h

walk_from-ArePages :
    (limit l r va : ℕ) (alloc : Bool) (m : Pages)
    → ArePages limit m.free
    → ArePages limit (walk_from l r va alloc m).1.free
unfolding walk_from walk_next
walk_from-ArePages limit zero r va alloc m h = h
walk_from-ArePages limit (suc l) r va alloc m h =
    next (λ t m' h'. walk_from-ArePages limit l t va alloc m' h') (child alloc r (px (suc l) va) m)
      (child-ArePages limit r (px (suc l) va) alloc m h)
  where
    next :
        ((t : ℕ) (m' : Pages)
          → ArePages limit m'.free
          → ArePages limit (walk_from l t va alloc m').1.free)
        → (c : Option ℕ × Pages) → ArePages limit c.1.free
        → ArePages limit (walk_next (λ t m'. walk_from l t va alloc m') c).1.free
    next ih (none, m') h = h
    next ih (some t, m') h = ih t m' h

abbrev pub LeavesPages : ℕ → MapResult → Type 0
LeavesPages limit panics = true ≡ true
LeavesPages limit (map_failed m) = ArePages limit m.free
LeavesPages limit (mapped m) = ArePages limit m.free

map_entry-LeavesPages :
    (limit pte : ℕ) (next : Pages → MapResult) (w : Option (ℕ × ℕ) × Pages)
    → ((m : Pages) → ArePages limit m.free → LeavesPages limit (next m))
    → ArePages limit w.1.free
    → LeavesPages limit (map_entry next pte w)
unfolding map_entry
map_entry-LeavesPages limit pte next (none, m) n h = h
map_entry-LeavesPages limit pte next (some (p, i), m) n h =
    elim (Bool-cases (is_valid (m.ptes p i))) [ inl v ↦ rw v refl | inr v ↦ rw v (n _ h) ]

map_loop-LeavesPages :
    (limit n root a pa perm : ℕ) (m : Pages)
    → ArePages limit m.free
    → LeavesPages limit (map_loop n root a pa perm m)
unfolding map_loop
map_loop-LeavesPages limit zero root a pa perm m h = h
map_loop-LeavesPages limit (suc n) root a pa perm m h = elim (Bool-cases (leb maxva a)) [
  | inl e ↦ rw e refl
  | inr e ↦ rw e (
      map_entry-LeavesPages limit (leaf_pte pa perm)
        (λ m'. map_loop n root (a + 4096) (pa + 4096) perm m') (walk_from 2 root a true m)
        (λ m' h'. map_loop-LeavesPages limit n root (a + 4096) (pa + 4096) perm m' h')
        (walk_from-ArePages limit 2 root a true m h))
]

-- One page is mapped.
pub mappages-LeavesPages :
    (limit root va pa perm : ℕ) (m : Pages)
    → va % 4096 ≡ 0
    → ArePages limit m.free
    → LeavesPages limit (mappages root va 4096 pa perm m)
unfolding mappages
mappages-LeavesPages limit root va pa perm m a h =
    rw a (map_loop-LeavesPages limit 1 root va pa perm m h)
