-- ===== src/PageTable/Map.antt =====
-- kernel/vm.c: mappages(), uvmunmap() and walkaddr(), and what is built on them: uvmalloc(),
-- uvmdealloc() and ismapped(). An address that passes MAXVA stops in walk() before it could wrap.
use liberal_os.Prelude.{
  ℕ, zero, suc, ◌+◌, ◌-◌, ◌*◌, ◌/◌, ◌%◌, ◌^◌, Bool, true, false, not, Option, none, some, List, [],
  ◌∷◌, ltb, leb, ◌==◌, if◌then◌else◌,
}
use liberal_os.PageTable.{
  clear_table, Pages, pte2pa, pa2pte, is_valid, is_user, put_pte, maxva, walk_from,
}
use liberal_os.Kalloc.{is_page}

-- PA2PTE(pa) | perm | PTE_V, for a perm of the ten flag bits.
unfoldable pub leaf_pte : ℕ → ℕ → ℕ
leaf_pte pa perm = pa2pte pa + (perm / 2 * 2 + 1)

-- What mappages() comes to: a panic, -1 with the pages before mapped, or 0.
pub data MapResult : Type 0 where
  panics : MapResult
  map_failed mapped : Pages → MapResult

-- if(*pte & PTE_V) panic("mappages: remap"); *pte = ...;
unfoldable pub map_entry : (Pages → MapResult) → ℕ → Option (ℕ × ℕ) × Pages → MapResult
map_entry next pte (none, m) = map_failed m
map_entry next pte (some (p, i), m) =
    if is_valid (m.ptes p i) then panics else next (put_pte p i pte m)

-- The loop of mappages() over n pages; the one at `last` is the last of them.
unfoldable pub map_loop : ℕ → ℕ → ℕ → ℕ → ℕ → Pages → MapResult
map_loop zero root a pa perm m = mapped m
map_loop (suc n) root a pa perm m =
    let rest =
      map_entry (λ m'. map_loop n root (a + 4096) (pa + 4096) perm m') (leaf_pte pa perm)
        (walk_from 2 root a true m) in
    if leb maxva a then panics else rest

unfoldable pub mappages : ℕ → ℕ → ℕ → ℕ → ℕ → Pages → MapResult
mappages root va size pa perm m =
    if not (va % 4096 == 0)
    then panics
    else if not (size % 4096 == 0)
    then panics
    else if size == 0
    then panics
    else map_loop (size / 4096) root va pa perm m

-- The page, or 0.
unfoldable pub uvmcreate : Pages → List ℕ → ℕ × Pages
uvmcreate m [] = (0, m)
uvmcreate m (page ∷ pages) = (page, clear_table page (record m { free = pages }))

-- A page after memset(pa, 1, PGSIZE) and r->next = kmem.freelist, as entries.
abbrev pub freed_entry : List ℕ → ℕ → ℕ
freed_entry [] j = if j == 0 then 0 else 72340172838076673
freed_entry (page ∷ pages) j = if j == 0 then page else 72340172838076673

-- kfree() of a page; `limit` is the linker's `end`.
unfoldable pub kfree_page : ℕ → ℕ → Pages → Option Pages
kfree_page limit pa m =
    if is_page limit pa
    then some (record {
      ptes = λ q j. if q == pa then freed_entry m.free j else m.ptes q j;
      free = pa ∷ m.free;
    })
    else none

abbrev pub clear_entry : ℕ → ℕ → Option Pages → Option Pages
clear_entry p i none = none
clear_entry p i (some m) = some (put_pte p i 0 m)

unfoldable pub unmap_entry : ℕ → Bool → Option (ℕ × ℕ) × Pages → Option Pages
unmap_entry limit do_free (none, m) = some m
unmap_entry limit do_free (some (p, i), m) =
    if not (is_valid (m.ptes p i))
    then some m
    else clear_entry p i (if do_free then kfree_page limit (pte2pa (m.ptes p i)) m else some m)

unfoldable pub unmap_next : (Pages → Option Pages) → Option Pages → Option Pages
unmap_next next none = none
unmap_next next (some m) = next m

-- The loop of uvmunmap() over n pages.
unfoldable pub unmap_loop : ℕ → ℕ → ℕ → ℕ → Bool → Pages → Option Pages
unmap_loop limit zero root a do_free m = some m
unmap_loop limit (suc n) root a do_free m =
    let rest =
      unmap_next (λ m'. unmap_loop limit n root (a + 4096) do_free m')
        (unmap_entry limit do_free (walk_from 2 root a false m)) in
    if leb maxva a then none else rest

unfoldable pub uvmunmap : ℕ → ℕ → ℕ → ℕ → Bool → Pages → Option Pages
uvmunmap limit root va npages do_free m =
    if not (va % 4096 == 0)
    then none
    else unmap_loop limit (((va + npages * 4096) % 2 ^ 64 - va) / 4096) root va do_free m

-- The entry, when walk() finds one.
unfoldable pub entry_of : Option (ℕ × ℕ) × Pages → Option ℕ
entry_of (none, m) = none
entry_of (some (p, i), m) = some (m.ptes p i)

unfoldable pub user_page : Option ℕ → ℕ
user_page none = 0
user_page (some pte) = if not (is_valid pte) then 0 else if not (is_user pte) then 0 else pte2pa pte

unfoldable pub walkaddr : ℕ → ℕ → Pages → ℕ
walkaddr root va m = if leb maxva va then 0 else user_page (entry_of (walk_from 2 root va false m))

unfoldable pub valid_entry : Option ℕ → Bool
valid_entry none = false
valid_entry (some pte) = is_valid pte

-- none is the panic of walk().
unfoldable pub ismapped : ℕ → ℕ → Pages → Option Bool
ismapped root va m =
    if leb maxva va then none else some (valid_entry (entry_of (walk_from 2 root va false m)))

-- PGROUNDUP
abbrev pub pgroundup : ℕ → ℕ
pgroundup sz = (sz + 4095) % 2 ^ 64 / 4096 * 4096

-- An int as a uint64.
abbrev pub of_int : ℕ → ℕ
of_int n = if ltb (n % 2 ^ 32) (2 ^ 31) then n % 2 ^ 32 else n % 2 ^ 32 + (2 ^ 64 - 2 ^ 32)

abbrev pub with_size : ℕ → Option Pages → Option (ℕ × Pages)
with_size sz none = none
with_size sz (some m) = some (sz, m)

-- The new size and the pages.
unfoldable pub uvmdealloc : ℕ → ℕ → ℕ → ℕ → Pages → Option (ℕ × Pages)
uvmdealloc limit root oldsz newsz m =
    if leb oldsz newsz
    then some (oldsz, m)
    else if ltb (pgroundup newsz) (pgroundup oldsz)
    then with_size newsz (
        uvmunmap limit root (pgroundup newsz) (of_int ((pgroundup oldsz - pgroundup newsz) / 4096))
          true m)
    else some (newsz, m)

abbrev pub to_zero : Option (ℕ × Pages) → Option (ℕ × Pages)
to_zero none = none
to_zero (some (sz, m)) = some (0, m)

-- uvmalloc() when it fails at the address a: what was allocated before is given back, and it returns 0.
unfoldable pub uvm_undo : ℕ → ℕ → ℕ → ℕ → Option Pages → Option (ℕ × Pages)
uvm_undo limit root a oldsz none = none
uvm_undo limit root a oldsz (some m) = to_zero (uvmdealloc limit root a oldsz m)

-- Maps a page that kalloc() gave.
unfoldable pub uvm_map :
    ℕ → ℕ → ℕ → ℕ → ℕ → (Pages → Option (ℕ × Pages)) → MapResult → Option (ℕ × Pages)
uvm_map limit root a oldsz mem next panics = none
uvm_map limit root a oldsz mem next (map_failed m) =
    uvm_undo limit root a oldsz (kfree_page limit mem m)
uvm_map limit root a oldsz mem next (mapped m) = next m

unfoldable pub uvm_page :
    ℕ → ℕ → ℕ → ℕ → ℕ → (Pages → Option (ℕ × Pages)) → Pages → List ℕ → Option (ℕ × Pages)
uvm_page limit root a oldsz xperm next m [] = uvm_undo limit root a oldsz (some m)
uvm_page limit root a oldsz xperm next m (mem ∷ pages) =
    uvm_map limit root a oldsz mem next
      (mappages root a 4096 mem (18 + xperm) (clear_table mem (record m { free = pages })))

-- The loop of uvmalloc() over n pages, from a on.
unfoldable pub uvm_loop : ℕ → ℕ → ℕ → ℕ → ℕ → ℕ → ℕ → Pages → Option (ℕ × Pages)
uvm_loop limit root zero a oldsz newsz xperm m = some (newsz, m)
uvm_loop limit root (suc n) a oldsz newsz xperm m =
    uvm_page limit root a oldsz xperm (λ m'. uvm_loop limit root n (a + 4096) oldsz newsz xperm m')
      m m.free

-- The rounds of for(a = oldsz; a < newsz; a += PGSIZE)
abbrev pub pages_between : ℕ → ℕ → ℕ
pages_between oldsz newsz = (newsz - oldsz + 4095) / 4096

-- The new size, or 0, and the pages; xperm is PTE_W, PTE_X or both.
unfoldable pub uvmalloc : ℕ → ℕ → ℕ → ℕ → ℕ → Pages → Option (ℕ × Pages)
uvmalloc limit root oldsz newsz xperm m =
    if ltb newsz oldsz
    then some (oldsz, m)
    else uvm_loop limit root (pages_between (pgroundup oldsz) newsz) (pgroundup oldsz)
        (pgroundup oldsz) newsz xperm m
