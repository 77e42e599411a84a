-- ===== src/Cache/Api/Persist.antt =====
-- The overlay keeps what the RAM table loses.
use liberal_os.Prelude.{
  ℕ, suc, ◌-◌, ◌<◌, ◌≡◌, refl, ◌∙◌, ◌≢◌, inl, inr, true, false, Option, none, some, List, [], ◌∷◌,
  ◌++◌, arith, ==-refl, ℤ, pos, length, set, take, length-take,
}
use liberal_os.CString.{safestrcpy}
use liberal_os.CString.Laws.{text, text-safestrcpy, text-set}
use liberal_os.Cache.Hash.{cache_fnv1a, cache_fnv1a_range}
use liberal_os.Cache.Sig.{cache_sig}
use liberal_os.Cache.Slots.{Slot, ram_put, exact_value, free_or_match, val_len}
use liberal_os.Cache.Disk.{
  Hits, bound_value, disk_step, disk_hits, settle, disk_append, disk_scan, settle_sem,
}
use liberal_os.Cache.Api.{
  Cache, promote, get_similar, cache_get, record_of, cache_set, empty_all, cache_clear,
}
use liberal_os.Cache.Slots.Laws.{exact_value-ram_put}
use liberal_os.Cache.Api.Invariant.{length-ram_put}
use liberal_os.Cache.Api.Laws.{
  store_cases, empty_all-exact, empty_all-best, Holds, copy_value-Holds,
}

disk_hits-append :
    (xs ys : List Slot) (role : List ℕ) (key : ℕ) (qsig : List ℕ) (h : Hits)
    → disk_hits (xs ++ ys) role key qsig h
      ≡ disk_hits ys role key qsig (disk_hits xs role key qsig h)
unfolding disk_hits
disk_hits-append [] ys role key qsig h = refl
disk_hits-append (x ∷ xs) ys role key qsig h = disk_hits-append xs ys role key qsig _

settle_exact :
    (role qsig : List ℕ) (h : Hits) (rec : Slot)
    → settle (disk_step role rec.key qsig h (bound_value rec)) ≡ some (bound_value rec)
unfolding disk_step settle bound_value
settle_exact role qsig h rec = rw (==-refl rec.key) refl

-- The last record with the key wins, whatever stands before it.
disk_scan-append :
    (recs : List Slot) (rec : Slot) (role qsig : List ℕ)
    → disk_scan (some (recs ++ rec ∷ [])) role rec.key qsig ≡ some (bound_value rec)
unfolding disk_scan disk_hits
disk_scan-append recs rec role qsig =
    rw (disk_hits-append recs (rec ∷ []) role rec.key qsig) (settle_exact role qsig _ rec)

abbrev emptied : List Slot → List Slot → Slot → Cache
emptied ss recs rec = record { slots = empty_all ss; disk = some (recs ++ rec ∷ []) }

-- With an empty table the lookup goes to the overlay.
get_from_disk :
    (ss recs : List Slot) (rec : Slot) (role prompt : List ℕ) (out : Option (List ℕ)) (outmax : ℤ)
    → cache_fnv1a role prompt ≡ rec.key
    → cache_get (emptied ss recs rec) role prompt out outmax
      ≡ promote (emptied ss recs rec) out outmax (some (bound_value rec))
unfolding cache_get get_similar settle_sem
get_from_disk ss recs rec role prompt out outmax e =
    let used : rec.key ≢ 0 = rw (← e) (cache_fnv1a_range role prompt).0 in
    rw
      (
        e,
        empty_all-exact ss rec.key used,
        cache_get,
        empty_all-best ss role (cache_sig prompt) none,
        get_similar,
        e,
        disk_scan-append recs rec role (cache_sig prompt),
      )
      refl

free_nonempty : (ss : List Slot) (k : ℕ) → free_or_match ss k ≡ true → 0 < length ss
unfolding free_or_match
free_nonempty [] k e = cc
free_nonempty (s ∷ ss) k e = omega arith

empty_all-free : (ss : List Slot) (k : ℕ) → 0 < length ss → free_or_match (empty_all ss) k ≡ true
unfolding empty_all free_or_match
empty_all-free [] k h = absurd (omega arith)
empty_all-free (s ∷ ss) k h = ground arith

text-bound_value :
    (buf val : List ℕ)
    → length buf ≡ val_len
    → text (set (safestrcpy buf val (pos val_len)) (val_len - 1) 0) ≡ take 191 (text val)
text-bound_value buf val size =
    let cut : text (safestrcpy buf val (pos val_len)) ≡ take 191 (text val) =
      text-safestrcpy buf val 191 (omega arith) in
    text-set _ 191 (rw cut (omega (arith, length-take 191 (text val)))) ∙ cut

-- What a hit of the overlay leaves.
promoted :
    (ss recs : List Slot) (rec : Slot) (out t : List ℕ) (n : ℕ)
    → 0 < length ss
    → n < length out
    → text (bound_value rec).val ≡ t
    → let answer =
        promote (emptied ss recs rec) (some out) (pos (suc n)) (some (bound_value rec)) in
      (answer.0 ≡ true)
      × Holds answer.1 n t
      × ((v : List ℕ) × (exact_value answer.2.slots rec.key ≡ some v) × (text v ≡ t))
unfolding promote bound_value
promoted ss recs rec out t n some_slot room e = (
  refl,
  rw (← e) (copy_value-Holds out (bound_value rec).val n room),
  (
    (bound_value rec).val,
    exact_value-ram_put (empty_all ss) (bound_value rec) (empty_all-free ss rec.key some_slot),
    e,
  ),
)

module _ (c : Cache) (role_buf val_buf role prompt val : List ℕ) (recs : List Slot) where
  -- With a working overlay and buffers of their C sizes, a value that cache_set() stored survives a
  -- clear of RAM alone: the next cache_get() returns it, cut to 191 bytes and to the caller's room,
  -- and puts it back in RAM under its key.
  pub cache_get-cache_clear-cache_set :
      (out : List ℕ) (n : ℕ)
      → c.disk ≡ some recs
      → length val_buf ≡ val_len
      → n < length out
      → (cache_set c role_buf val_buf role prompt val true).0 ≡ true
      → let c' = cache_clear (cache_set c role_buf val_buf role prompt val true).1 false in
        let answer = cache_get c' role prompt (some out) (pos (suc n)) in
        (answer.0 ≡ true)
        × Holds answer.1 n (take 191 (text val))
        × ((v : List ℕ) × (exact_value answer.2.slots (cache_fnv1a role prompt) ≡ some v)
            × (text v ≡ take 191 (text val)))
  unfolding cache_set
  cache_get-cache_clear-cache_set out n there size room stored =
      elim (store_cases c (record_of role_buf val_buf role prompt val) true) [
        | inr (no_room, e) ↦ absurd (ground arith)
        | inl (free, e) ↦
            unfold cache_set cache_clear disk_append record_of bound_value in
            rw (e, there)
              (let ss = ram_put c.slots (record_of role_buf val_buf role prompt val) in
                let rec = record_of role_buf val_buf role prompt val in
                rw (get_from_disk ss recs rec role prompt (some out) (pos (suc n)) refl) (
                  promoted ss recs rec out (take 191 (text val)) n
                    (omega (arith, free_nonempty c.slots rec.key free, length-ram_put c.slots rec))
                    room (text-bound_value val_buf val size)))
      ]
