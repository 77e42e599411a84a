-- ===== src/Cache/Api/Laws.antt =====
-- What the calls of the cache promise.
use liberal_os.Prelude.{
  ℕ, suc, ◌<◌, ◌≡◌, refl, sym, ap, ◌≢◌, ◌⊎◌, inl, inr, Bool, true, false, Option, none, some, List,
  [], ◌∷◌, arith, ==-false, Bool-cases, ℤ, pos, length, take,
}
use liberal_os.CString.{safestrcpy}
use liberal_os.CString.Laws.{text, text-safestrcpy}
use liberal_os.Cache.Hash.{cache_fnv1a, cache_fnv1a_range}
use liberal_os.Cache.Sig.{cache_sig}
use liberal_os.Cache.Slots.{
  Slot, Best, ram_put, exact_value, best_slot, free_or_match, copy_value, val_len,
}
use liberal_os.Cache.Slots.Laws.{free_or_match_full, exact_value-ram_put, NoKey}
use liberal_os.Cache.Disk.{
  settle, disk_hits, Overlay, disk_append, disk_scan, disk_truncate, settle_sem,
}
use liberal_os.Cache.Api.{
  Cache, promote, get_similar, cache_get, record_of, store, cache_set, empty_all, cache_clear,
}

-- The out buffer as cache_get leaves it: n bytes of room take the first n - 1 bytes of the text t.
abbrev pub Holds : Option (List ℕ) → ℕ → List ℕ → Type 0
Holds o n t = (b : List ℕ) × (o ≡ some b) × (text b ≡ take n t)

pub copy_value-Holds :
    (out val : List ℕ) (n : ℕ)
    → n < length out
    → Holds (copy_value (some out) (pos (suc n)) val) n (text val)
unfolding copy_value
copy_value-Holds out val n h =
    (safestrcpy out val (pos (suc n)), ground arith, text-safestrcpy out val n h)

cache_get_exact :
    (c : Cache) (role prompt : List ℕ) (out : Option (List ℕ)) (outmax : ℤ) {v : List ℕ}
    → exact_value c.slots (cache_fnv1a role prompt) ≡ some v
    → cache_get c role prompt out outmax ≡ (true, copy_value out outmax v, c)
unfolding cache_get
cache_get_exact c role prompt out outmax e = rw (e, cache_get)

pub store_cases :
    (c : Cache) (rec : Slot) (written : Bool)
    → ((free_or_match c.slots rec.key ≡ true)
        × (store c rec written ≡ (
          true,
          record { slots = ram_put c.slots rec; disk = disk_append c.disk rec written },
        )))
      ⊎ ((free_or_match c.slots rec.key ≡ false) × (store c rec written ≡ (false, c)))
unfolding store
store_cases c rec written = elim (Bool-cases (free_or_match c.slots rec.key)) [
  | inl e ↦ inl (e, rw e)
  | inr e ↦ inr (e, rw e)
]

module _ (c : Cache) (role_buf val_buf role prompt val : List ℕ) (written : Bool) where
  abbrev rec : Slot
  unfolding record_of
  rec = record_of role_buf val_buf role prompt val

  -- The key that was stored has the value that was stored.
  stored_value :
      (cache_set c role_buf val_buf role prompt val written).0 ≡ true
      → exact_value
          (cache_set c role_buf val_buf role prompt val written).1.slots
          (cache_fnv1a role prompt)
        ≡ some (safestrcpy val_buf val (pos val_len))
  unfolding cache_set store record_of
  stored_value stored = elim (store_cases c (record_of role_buf val_buf role prompt val) written) [
    | inl (room, e) ↦
        rw room (exact_value-ram_put c.slots (record_of role_buf val_buf role prompt val) room)
    | inr (no_room, e) ↦ absurd (ground arith)
  ]

  -- With buffers of their C sizes, after a cache_set() that answers 1 a cache_get() of the same role
  -- and prompt hits, copies out the stored text cut to 191 bytes and to the room of the caller's
  -- buffer, and changes nothing.
  pub cache_get-cache_set :
      (out : List ℕ) (n : ℕ)
      → length val_buf ≡ val_len
      → n < length out
      → (cache_set c role_buf val_buf role prompt val written).0 ≡ true
      → let c' = (cache_set c role_buf val_buf role prompt val written).1 in
        let answer = cache_get c' role prompt (some out) (pos (suc n)) in
        (answer.0 ≡ true) × Holds answer.1 n (take 191 (text val)) × (answer.2 ≡ c')
  cache_get-cache_set out n size room stored =
      rw
        (cache_get_exact (cache_set c role_buf val_buf role prompt val written).1 role prompt
          (some out) (pos (suc n)) (stored_value stored))
        (refl, holds, refl)
    where
      holds :
          Holds
            (copy_value (some out) (pos (suc n)) (safestrcpy val_buf val (pos val_len)))
            n
            (take 191 (text val))
      holds =
          rw (← text-safestrcpy val_buf val 191 (omega arith))
            (copy_value-Holds out (safestrcpy val_buf val (pos val_len)) n room)

-- When cache_set() answers 0 nothing has changed, on disk neither, and no slot is free or holds the
-- key.
pub cache_set_full :
    (c : Cache) (role_buf val_buf role prompt val : List ℕ) (written : Bool)
    → (cache_set c role_buf val_buf role prompt val written).0 ≡ false
    → ((cache_set c role_buf val_buf role prompt val written).1 ≡ c)
      × NoKey (cache_fnv1a role prompt) c.slots
      × NoKey 0 c.slots
unfolding cache_set record_of
cache_set_full c role_buf val_buf role prompt val written refused =
    elim (store_cases c (record_of role_buf val_buf role prompt val) written) [
      | inl (room, e) ↦ absurd (ground arith)
      | inr (no_room, e) ↦
          let full = free_or_match_full c.slots (cache_fnv1a role prompt) no_room in
          (ap (λ t. t.1) e, full.0, full.1)
    ]

pub empty_all-exact : (ss : List Slot) (k : ℕ) → k ≢ 0 → exact_value (empty_all ss) k ≡ none
unfolding empty_all exact_value
empty_all-exact [] k h = refl
empty_all-exact (s ∷ ss) k h = rw (==-false 0 k (λ e. h (sym e))) (empty_all-exact ss k h)

pub empty_all-best :
    (ss : List Slot) (role qsig : List ℕ) (best : Best)
    → best_slot (empty_all ss) role qsig best ≡ best
unfolding empty_all best_slot
empty_all-best [] role qsig best = refl
empty_all-best (s ∷ ss) role qsig best = empty_all-best ss role qsig best

scan-truncate :
    (o : Overlay) (role : List ℕ) (k : ℕ) (qsig : List ℕ)
    → disk_scan (disk_truncate o) role k qsig ≡ none
unfolding disk_scan disk_truncate disk_hits settle
scan-truncate none role k qsig = refl
scan-truncate (some recs) role k qsig = refl

-- After a cache_clear() with the disk every cache_get() misses and leaves the buffer and the cache
-- as they are.
pub cache_get-cache_clear :
    (c : Cache) (role prompt : List ℕ) (out : Option (List ℕ)) (outmax : ℤ)
    → cache_get (cache_clear c true) role prompt out outmax ≡ (false, out, cache_clear c true)
unfolding cache_get cache_clear get_similar settle_sem promote
cache_get-cache_clear c role prompt out outmax =
    rw
      (
        empty_all-exact c.slots (cache_fnv1a role prompt) (cache_fnv1a_range role prompt).0,
        cache_get,
        empty_all-best c.slots role (cache_sig prompt) none,
        get_similar,
        scan-truncate c.disk role (cache_fnv1a role prompt) (cache_sig prompt),
      )
      refl
