-- ===== src/Virtio.antt =====
-- The descriptors of kernel/virtio_disk.c: which are free, and the chain of a request. A panic is
-- none; the wakeup() of free_desc() is not part of the state.
pub mod Descs
use liberal_os.Prelude.{
  ℕ, zero, suc, ◌+◌, ◌-◌, ◌*◌, ◌/◌, ◌%◌, ◌^◌, ◌≤◌, ◌<◌, min, ◌≡◌, refl, sym, ap, ap₂, ◌∙◌, subst,
  ◌≢◌, ◌↔◌, ◌⊎◌, inl, inr, Bool, true, false, not, ◌&&◌, ◌||◌, Option, none, some, List, [], ◌∷◌,
  ◌++◌, arith, ltb, leb, ◌==◌, if◌then◌else◌, ==_iff, ==-refl, ==-false, Bool-cases, Option-cases,
  ℤ, pos, negsuc, sub_ℕ, ◌≤ℤ◌, ◌<ℤ◌, ltb_ℤ, leb_ℤ, eqb_ℤ, eqb_ℤ_iff, length, get_elem?, get_or, set,
  take, drop, replicate, length-append, length-set, length-take, length-replicate,
  get_elem?-set_self, get_elem?-set_ne, get_or-set_self, get_or-set_ne, take-length, lt_of_le_ne,
}

-- NUM
abbrev pub num : ℕ
num = 8

pub record Desc : Type 0 where
  pub addr : ℕ
  pub len : ℕ
  pub flags : ℕ
  pub link : ℕ

abbrev pub clear_desc : Desc
clear_desc = record { addr = 0; len = 0; flags = 0; link = 0 }

-- disk.free and disk.desc
pub record Queue : Type 0 where
  pub free : List Bool
  pub desc : List Desc

-- The index of the first free descriptor, from i on.
unfoldable pub first_free : List Bool → ℕ → Option ℕ
first_free [] i = none
first_free (f ∷ fs) i = let rest = first_free fs (i + 1) in if f then some i else rest

unfoldable pub mark : Queue → Option ℕ → Option ℕ × Queue
mark q none = (none, q)
mark q (some i) = (some i, record q { free = set q.free i false })

-- none is -1
unfoldable pub alloc_desc : Queue → Option ℕ × Queue
alloc_desc q = mark q (first_free q.free 0)

unfoldable pub free_desc : ℕ → Queue → Option Queue
free_desc i q =
    if leb num i || get_or q.free i false
    then none
    else some (record { free = set q.free i true; desc = set q.desc i clear_desc })

-- free_chain() in at most n rounds; a chain of NUM descriptors ends within NUM of them.
unfoldable pub chain_rest : (ℕ → Queue → Option Queue) → Desc → Option Queue → Option Queue
chain_rest next d none = none
chain_rest next d (some q) = if d.flags % 2 == 1 then next d.link q else some q

unfoldable pub free_chain : ℕ → ℕ → Queue → Option Queue
free_chain zero i q = none
free_chain (suc n) i q = chain_rest (free_chain n) (get_or q.desc i clear_desc) (free_desc i q)

abbrev pub and_free : ℕ → Option Queue → Option Queue
and_free i none = none
and_free i (some q) = free_desc i q

-- What alloc3_desc() comes to: a panic, -1 with what was taken freed again, or three descriptors.
pub data Three : Type 0 where
  panicked : Three
  failed : Queue → Three
  three : ℕ → ℕ → ℕ → Queue → Three

unfoldable pub undone : Option Queue → Three
undone none = panicked
undone (some q) = failed q

unfoldable pub third : ℕ → ℕ → Option ℕ × Queue → Three
third i j (none, q) = undone (and_free j (free_desc i q))
third i j (some k, q) = three i j k q

unfoldable pub second : ℕ → Option ℕ × Queue → Three
second i (none, q) = undone (free_desc i q)
second i (some j, q) = third i j (alloc_desc q)

unfoldable pub first : Option ℕ × Queue → Three
first (none, q) = failed q
first (some i, q) = second i (alloc_desc q)

unfoldable pub alloc3_desc : Queue → Three
alloc3_desc q = first (alloc_desc q)
