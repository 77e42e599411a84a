-- ===== src/PageTable.antt =====
-- kernel/vm.c: the page tables of Sv39, over the constants of kernel/riscv.h. A table is the address
-- of its page; its 512 entries are read and written through ptes. The free pages are the list that
-- kalloc() and kfree() work on. A panic is none, or panics.
pub mod Find
pub mod Grow
pub mod Walks
pub mod Reach
pub mod Leaf
pub mod Map
pub mod Mapped
pub mod Outside
pub mod Unmapped
pub mod Uvm
pub mod Frees
pub mod Runs
pub mod Range
pub mod Round
pub mod Alloc
use liberal_os.Prelude.{
  ℕ, zero, suc, ◌+◌, ◌-◌, ◌*◌, ◌/◌, ◌%◌, ◌^◌, ◌≤◌, ◌<◌, min, ◌≡◌, refl, sym, ap, ap₂, ◌∙◌, subst,
  ◌≢◌, ◌↔◌, ◌⊎◌, inl, inr, Bool, true, false, not, ◌&&◌, ◌||◌, Option, none, some, List, [], ◌∷◌,
  ◌++◌, arith, ltb, leb, ◌==◌, if◌then◌else◌, ==_iff, ==-refl, ==-false, Bool-cases, Option-cases,
  ℤ, pos, negsuc, sub_ℕ, ◌≤ℤ◌, ◌<ℤ◌, ltb_ℤ, leb_ℤ, eqb_ℤ, eqb_ℤ_iff, length, get_elem?, get_or, set,
  take, drop, replicate, length-append, length-set, length-take, length-replicate,
  get_elem?-set_self, get_elem?-set_ne, get_or-set_self, get_or-set_ne, take-length, lt_of_le_ne,
}

-- PTE_V and PTE_U
abbrev pub is_valid : ℕ → Bool
is_valid pte = pte % 2 == 1

abbrev pub is_user : ℕ → Bool
is_user pte = pte / 16 % 2 == 1

-- PA2PTE and PTE2PA
abbrev pub pa2pte : ℕ → ℕ
pa2pte pa = pa / 4096 * 1024

abbrev pub pte2pa : ℕ → ℕ
pte2pa pte = (pte / 1024 * 4096) % 2 ^ 64

-- MAXVA
abbrev pub maxva : ℕ
maxva = 2 ^ 38

-- va >> PXSHIFT(level)
unfoldable pub vpn : ℕ → ℕ → ℕ
vpn zero va = va / 4096
vpn (suc level) va = vpn level va / 512

-- PX(level, va)
abbrev pub px : ℕ → ℕ → ℕ
px level va = vpn level va % 512

pub record Pages : Type 0 where
  pub ptes : ℕ → ℕ → ℕ
  pub free : List ℕ

-- pagetable[i] = v
abbrev pub put_pte : ℕ → ℕ → ℕ → Pages → Pages
put_pte table i v m = record m { ptes = λ p j. if p == table && j == i then v else m.ptes p j }

-- memset(pagetable, 0, PGSIZE)
abbrev pub clear_table : ℕ → Pages → Pages
clear_table table m = record m { ptes = λ p j. if p == table then 0 else m.ptes p j }

-- A table for an entry that has none: kalloc(), memset() and *pte = PA2PTE(pagetable) | PTE_V.
unfoldable pub new_table : ℕ → ℕ → Pages → List ℕ → Option ℕ × Pages
new_table table i m [] = (none, m)
new_table table i m (page ∷ pages) =
    (some page, put_pte table i (pa2pte page + 1) (clear_table page (record m { free = pages })))

-- The table that the entry i leads to.
unfoldable pub child : Bool → ℕ → ℕ → Pages → Option ℕ × Pages
child alloc table i m =
    if is_valid (m.ptes table i)
    then (some (pte2pa (m.ptes table i)), m)
    else if alloc
    then new_table table i m m.free
    else (none, m)

unfoldable pub walk_next :
    (ℕ → Pages → Option (ℕ × ℕ) × Pages) → Option ℕ × Pages → Option (ℕ × ℕ) × Pages
walk_next next (none, m) = (none, m)
walk_next next (some table, m) = next table m

-- The loop of walk(): the table of the last level and the index of the entry in it, or a null pointer.
unfoldable pub walk_from : ℕ → ℕ → ℕ → Bool → Pages → Option (ℕ × ℕ) × Pages
walk_from zero table va alloc m = (some (table, px 0 va), m)
walk_from (suc level) table va alloc m =
    walk_next (λ t m'. walk_from level t va alloc m') (child alloc table (px (suc level) va) m)

unfoldable pub walk : ℕ → ℕ → Bool → Pages → Option (Option (ℕ × ℕ) × Pages)
walk root va alloc m = if leb maxva va then none else some (walk_from 2 root va alloc m)
