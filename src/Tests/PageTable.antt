-- ===== src/Tests/PageTable.antt =====
-- Runs of kernel/vm.c on a table with no entries.
use liberal_os.Prelude.{
  ℕ, zero, suc, ◌≤◌, ◌<◌, ◌≡◌, refl, sym, ap, subst, true, Option, none, some, [], ◌∷◌, arith, ◌==◌,
  if◌then◌else◌, ==-false,
}
use liberal_os.PageTable.Map.{mappages}
use liberal_os.PageTable.Mapped.{mappages-MapSpec, MapSpec}
use liberal_os.PageTable.Find.{AreFree, IsTree}
use mathlib.Core.Bool.{true≢false}
use liberal_os.Kalloc.{is_page}
use liberal_os.PageTable.{Pages, is_valid, maxva, walk_from, walk_next, child, new_table, vpn}
use liberal_os.PageTable.Find.{IsTree, AreFree, find, find_clear}
use liberal_os.PageTable.Map.{
  mappages, walkaddr, uvmalloc, uvmunmap, map_loop, map_entry, leaf_pte, MapResult,
  MapResult.panics, MapResult.map_failed, MapResult.mapped,
}
use liberal_os.PageTable.Mapped.{MapSpec, mappages-MapSpec, Remapped, mapped_to}
use liberal_os.PageTable.Unmapped.{MayFree, unmapped_from}
use liberal_os.PageTable.Runs.{AllMayFree, uvmunmap-Unmapped}
use liberal_os.PageTable.Round.{of_mapped, walkaddr-mappages}
use liberal_os.PageTable.Frees.{ArePages}
use liberal_os.PageTable.Alloc.{Result, IsFreeRange, uvmalloc-Result}

abbrev root : ℕ
root = 4096

abbrev empty_table : Pages
empty_table = record { ptes = λ p i. 0; free = 8192 ∷ 12288 ∷ 16384 ∷ 20480 ∷ 24576 ∷ [] }

abbrev at_root : ℕ → Option (ℕ × ℕ)
at_root q = if q == 4096 then some (2, 0) else none

empty-IsTree : IsTree at_root root empty_table
empty-IsTree = record { top = refl; below = λ p l k i h s v. absurd (true≢false (sym v)) }

empty-AreFree : AreFree at_root empty_table.free
empty-AreFree = (
  (refl, (refl, omega arith)),
  (
    (
      λ e. omega (arith, e),
      (λ e. omega (arith, e), (λ e. omega (arith, e), (λ e. omega (arith, e), refl))),
    ),
    (
      (refl, (refl, omega arith)),
      (
        (λ e. omega (arith, e), (λ e. omega (arith, e), (λ e. omega (arith, e), refl))),
        (
          (refl, (refl, omega arith)),
          (
            (λ e. omega (arith, e), (λ e. omega (arith, e), refl)),
            (
              (refl, (refl, omega arith)),
              ((λ e. omega (arith, e), refl), ((refl, (refl, omega arith)), (refl, refl))),
            ),
          ),
        ),
      ),
    ),
  ),
)

mappages-MapSpec_example :
    MapSpec at_root root 2 8192 2147483648 22 empty_table
      (mappages root 8192 8192 2147483648 22 empty_table)
mappages-MapSpec_example =
    mappages-MapSpec root 8192 8192 2147483648 22 at_root empty_table empty-IsTree empty-AreFree
      refl refl (omega arith)

mapped_or_empty : MapResult → Pages
mapped_or_empty panics = empty_table
mapped_or_empty (map_failed m) = empty_table
mapped_or_empty (mapped m) = m

abbrev two_mapped : Pages
two_mapped = mapped_or_empty (mappages root 8192 8192 2147483648 22 empty_table)

mappages_runs : mappages root 8192 8192 2147483648 22 empty_table ≡ mapped two_mapped
unfolding mappages mapped_or_empty map_loop map_entry walk_from walk_next child new_table vpn
    leaf_pte
mappages_runs = refl

mapped_tree : Remapped at_root root empty_table two_mapped (mapped_to 2 8192 2147483648 22)
mapped_tree =
    of_mapped at_root root 2 8192 2147483648 22 empty_table two_mapped _ mappages-MapSpec_example
      mappages_runs

walkaddr-mappages_example : walkaddr root 12300 two_mapped ≡ 2147487744
walkaddr-mappages_example =
    walkaddr-mappages root 8192 8192 2147483648 22 at_root empty_table two_mapped 12300 empty-IsTree
      empty-AreFree refl refl refl (omega arith) refl (omega arith) mappages_runs (omega arith)
      (omega arith) (omega arith)

-- The two pages are no tables.
outside : (q : ℕ) → 2147483648 ≤ q → mapped_tree.place' q ≡ none
outside q l =
    (mapped_tree.stays q (rw (==-false q 4096 (λ e. omega (arith, l, e))) refl) (
      λ e. omega (arith, l, e),
      (
        λ e. omega (arith, l, e),
        (λ e. omega (arith, l, e), (λ e. omega (arith, l, e), (λ e. omega (arith, l, e), refl))),
      ),
    )).0

first_leaf : find 2 root 8192 two_mapped ≡ 536870935
unfolding mappages mapped_or_empty map_loop map_entry walk_from walk_next child new_table vpn
    leaf_pte find
first_leaf = refl

second_leaf : find 2 root 12288 two_mapped ≡ 536871959
unfolding mappages mapped_or_empty map_loop map_entry walk_from walk_next child new_table vpn
    leaf_pte find
second_leaf = refl

two_may_free : AllMayFree 0 mapped_tree.place' 2 root 8192 true two_mapped
unfolding is_page
two_may_free zero l = (
  omega arith,
  subst (MayFree 0 mapped_tree.place' true) (sym first_leaf)
      (λ f v. (refl, outside 2147483648 (omega arith))),
)
two_may_free (suc zero) l = (
  omega arith,
  subst (MayFree 0 mapped_tree.place' true) (sym second_leaf)
      (λ f v. (refl, outside 2147487744 (omega arith))),
)
two_may_free (suc (suc i)) l = absurd (omega arith)

uvmunmap-Unmapped_example :
    (m' : Pages) × ((uvmunmap 0 root 8192 2 true two_mapped ≡ some m')
      × (IsTree mapped_tree.place' root m'
          × ((x : ℕ)
              → x < maxva
              → find 2 root x m' ≡ unmapped_from 2 8192 x (find 2 root x two_mapped))))
uvmunmap-Unmapped_example =
    uvmunmap-Unmapped 0 2 root 8192 true mapped_tree.place' two_mapped mapped_tree.tree refl
      two_may_free

empty-ArePages : ArePages 0 empty_table.free
unfolding is_page
empty-ArePages = (refl, (refl, (refl, (refl, (refl, refl)))))

empty-IsFreeRange : IsFreeRange root 0 2 empty_table
empty-IsFreeRange =
    (λ i l. omega (arith, l), λ va g i. ap is_valid (find_clear 2 root va empty_table (λ i. refl)))

uvmalloc-Result_example : Result 0 root 0 2 8192 empty_table (uvmalloc 0 root 0 8192 4 empty_table)
uvmalloc-Result_example =
    uvmalloc-Result 0 root 0 8192 4 at_root empty_table empty-IsTree empty-AreFree empty-ArePages
      (omega arith) (omega arith) empty-IsFreeRange
