-- ===== src/Cache/Api.antt =====
-- cache_get(), cache_set() and cache_clear() of kernel/cache.c. Each critical section under
-- cache.lock is one step of the state.
pub mod Laws
pub mod Similar
pub mod Sound
pub mod Persist
pub mod Invariant
use liberal_os.Prelude.{
  ℕ, zero, suc, ◌+◌, ◌-◌, ◌*◌, ◌/◌, ◌%◌, ◌^◌, ◌≤◌, ◌<◌, min, ◌≡◌, refl, sym, ap, ap₂, ◌∙◌, subst,
  ◌≢◌, ◌↔◌, ◌⊎◌, inl, inr, Bool, true, false, not, ◌&&◌, ◌||◌, Option, none, some, List, [], ◌∷◌,
  ◌++◌, arith, ltb, leb, ◌==◌, if◌then◌else◌, ==_iff, ==-refl, ==-false, Bool-cases, Option-cases,
  ℤ, pos, negsuc, sub_ℕ, ◌≤ℤ◌, ◌<ℤ◌, ltb_ℤ, leb_ℤ, eqb_ℤ, eqb_ℤ_iff, length, get_elem?, get_or, set,
  take, drop, replicate, length-append, length-set, length-take, length-replicate,
  get_elem?-set_self, get_elem?-set_ne, get_or-set_self, get_or-set_ne, take-length, lt_of_le_ne,
}
use liberal_os.CString.{safestrcpy}
use liberal_os.Cache.Hash.{cache_fnv1a}
use liberal_os.Cache.Sig.{cache_sig, sig_over_threshold}
use liberal_os.Cache.Slots.{
  Slot, Best, ram_put, exact_value, best_slot, free_or_match, copy_value, val_len, role_len,
}
use liberal_os.Cache.Disk.{Overlay, disk_append, disk_scan, disk_truncate, settle_sem}

pub record Cache : Type 0 where
  pub slots : List Slot
  pub disk : Overlay

-- A hit or a miss, the out buffer, and the cache.
abbrev pub Answer : Type 0
Answer = Bool × Option (List ℕ) × Cache

unfoldable pub promote : Cache → Option (List ℕ) → ℤ → Option Slot → Answer
promote c out outmax none = (false, out, c)
promote c out outmax (some rec) =
    (true, copy_value out outmax rec.val, record c { slots = ram_put c.slots rec })

-- The semantic match in RAM, or else the disk.
unfoldable pub get_similar : Cache → List ℕ → ℕ → List ℕ → Option (List ℕ) → ℤ → Answer
get_similar c role k qsig out outmax = elim (settle_sem (best_slot c.slots role qsig none)) [
  | some s ↦ (true, copy_value out outmax s.val, c)
  | none ↦ promote c out outmax (disk_scan c.disk role k qsig)
]

unfoldable pub cache_get : Cache → List ℕ → List ℕ → Option (List ℕ) → ℤ → Answer
cache_get c role prompt out outmax =
    let k = cache_fnv1a role prompt in
    elim (exact_value c.slots k) [
      | some v ↦ (true, copy_value out outmax v, c)
      | none ↦ get_similar c role k (cache_sig prompt) out outmax
    ]

-- The record that cache_set builds; the two buffers are fresh ones on the stack.
unfoldable pub record_of : List ℕ → List ℕ → List ℕ → List ℕ → List ℕ → Slot
record_of role_buf val_buf role prompt val = record {
  key = cache_fnv1a role prompt;
  role = safestrcpy role_buf role (pos role_len);
  sig = cache_sig prompt;
  val = safestrcpy val_buf val (pos val_len);
}

-- The critical section of cache_set, and the append that follows it.
unfoldable pub store : Cache → Slot → Bool → Bool × Cache
store c rec written =
    if free_or_match c.slots rec.key
    then (true, record { slots = ram_put c.slots rec; disk = disk_append c.disk rec written })
    else (false, c)

unfoldable pub cache_set : Cache → List ℕ → List ℕ → List ℕ → List ℕ → List ℕ → Bool → Bool × Cache
cache_set c role_buf val_buf role prompt val written =
    store c (record_of role_buf val_buf role prompt val) written

-- cache.slot[i].key = 0 for every slot
unfoldable pub empty_all : List Slot → List Slot
empty_all [] = []
empty_all (s ∷ ss) = record s { key = 0 } ∷ empty_all ss

unfoldable pub cache_clear : Cache → Bool → Cache
unfolding empty_all
cache_clear c disk = record {
  slots = empty_all c.slots;
  disk = if disk then disk_truncate c.disk else c.disk;
}
