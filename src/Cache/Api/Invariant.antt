-- ===== src/Cache/Api/Invariant.antt =====
-- The shape of the table through every call of the cache.
use liberal_os.Prelude.{
  ℕ, suc, ◌≡◌, refl, ap, ◌∙◌, inl, inr, Bool, Option, none, some, List, [], ◌∷◌, Option-cases, ℤ,
  length, length-set,
}
use liberal_os.Cache.Slots.{Slot, ram_put, nslot, target_of}
use liberal_os.Cache.Slots.Laws.{IsDistinct, ram_put-IsDistinct}
use liberal_os.Cache.Hash.{cache_fnv1a}
use liberal_os.Cache.Sig.{cache_sig}
use liberal_os.Cache.Slots.{exact_value, best_slot}
use liberal_os.Cache.Disk.{settle_sem}
use liberal_os.Cache.Api.Laws.{store_cases}
use liberal_os.Cache.Api.{
  store, Cache, promote, get_similar, cache_get, record_of, cache_set, empty_all, cache_clear,
}

-- 64 slots, no two of them in use for one key.
pub record IsTable (c : Cache) : Type 0 where
  pub size : length c.slots ≡ nslot
  pub distinct : IsDistinct c.slots

pub length-ram_put : (ss : List Slot) (rec : Slot) → length (ram_put ss rec) ≡ length ss
unfolding ram_put
length-ram_put ss rec = elim (Option-cases (target_of ss rec.key)) [
  | inl e ↦ rw (e, ram_put)
  | inr (i, e) ↦ rw (e, ram_put) (length-set ss i rec)
]

ram_put-IsTable :
    (c : Cache) (rec : Slot) → IsTable c → IsTable (record c { slots = ram_put c.slots rec })
ram_put-IsTable c rec t = record {
  size = length-ram_put c.slots rec ∙ t.size;
  distinct = ram_put-IsDistinct c.slots rec t.distinct;
}

pub empty_all-IsDistinct :
    (ss : List Slot) → IsDistinct (empty_all ss) × (length (empty_all ss) ≡ length ss)
unfolding empty_all
empty_all-IsDistinct [] = (tt, refl)
empty_all-IsDistinct (s ∷ ss) =
    let rest = empty_all-IsDistinct ss in ((inl refl, rest.0), ap suc rest.1)

-- A call of the cache, with what its environment decides.
pub data Call : Type 0 where
  get : List ℕ → List ℕ → Option (List ℕ) → ℤ → Call
  put : List ℕ → List ℕ → List ℕ → List ℕ → List ℕ → Bool → Call
  clear : Bool → Call

pub run : Cache → Call → Cache
run c (get role prompt out outmax) = (cache_get c role prompt out outmax).2
run c (put role_buf val_buf role prompt val written) =
    (cache_set c role_buf val_buf role prompt val written).1
run c (clear disk) = cache_clear c disk

pub run_all : Cache → List Call → Cache
run_all c [] = c
run_all c (k ∷ ks) = run_all (run c k) ks

promote-IsTable :
    (c : Cache) (out : Option (List ℕ)) (outmax : ℤ) (o : Option Slot)
    → IsTable c
    → IsTable (promote c out outmax o).2
unfolding promote
promote-IsTable c out outmax none t = t
promote-IsTable c out outmax (some rec) t = ram_put-IsTable c rec t

cache_get-IsTable :
    (c : Cache) (role prompt : List ℕ) (out : Option (List ℕ)) (outmax : ℤ)
    → IsTable c
    → IsTable (cache_get c role prompt out outmax).2
cache_get-IsTable c role prompt out outmax t =
    elim (Option-cases (exact_value c.slots (cache_fnv1a role prompt))) [
      | inr (v, e) ↦ unfold cache_get in rw (e, cache_get) t
      | inl e ↦ elim (Option-cases (settle_sem (best_slot c.slots role (cache_sig prompt) none))) [
        | inr (s, f) ↦ unfold cache_get get_similar in rw (e, cache_get, f, get_similar) t
        | inl f ↦
            unfold cache_get get_similar in
            rw (e, cache_get, f, get_similar) (promote-IsTable c out outmax _ t)
      ]
    ]

store-IsTable :
    (c : Cache) (rec : Slot) (written : Bool) → IsTable c → IsTable (store c rec written).1
store-IsTable c rec written t = elim (store_cases c rec written) [
  | inl (room, e) ↦
      let slots_only = ram_put-IsTable c rec t in
      rw e (record { size = slots_only.size; distinct = slots_only.distinct })
  | inr (no_room, e) ↦ rw e t
]

run-IsTable : (c : Cache) (k : Call) → IsTable c → IsTable (run c k)
unfolding run cache_set cache_clear
run-IsTable c (get role prompt out outmax) t = cache_get-IsTable c role prompt out outmax t
run-IsTable c (put role_buf val_buf role prompt val written) t =
    store-IsTable c (record_of role_buf val_buf role prompt val) written t
run-IsTable c (clear disk) t =
    let made = empty_all-IsDistinct c.slots in record { size = made.1 ∙ t.size; distinct = made.0 }

-- Any calls of the cache in any order keep a table of 64 slots in which no key stands twice so,
-- whatever records the overlay brings.
pub run_all-IsTable : (c : Cache) (ks : List Call) → IsTable c → IsTable (run_all c ks)
unfolding run_all
run_all-IsTable c [] t = t
run_all-IsTable c (k ∷ ks) t = run_all-IsTable (run c k) ks (run-IsTable c k t)
