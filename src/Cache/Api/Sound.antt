-- ===== src/Cache/Api/Sound.antt =====
-- Where a hit comes from.
use liberal_os.Prelude.{
  ℕ, ◌*◌, ◌≤◌, ◌≡◌, refl, sym, ap, ◌∙◌, ◌≢◌, ◌⊎◌, inl, inr, true, false, Option, none, some, List,
  [], ◌∷◌, arith, ◌==◌, Bool-cases, Option-cases, ℤ,
}
use liberal_os.Cache.Sig.{sig_match, sig_over_threshold}
use liberal_os.Cache.Slots.{best_slot, improve, beats, Slot, Best, exact_value, same_role}
use liberal_os.Cache.Slots.Best.{best_slot-IsMatch, SlotIn}
use liberal_os.Cache.Disk.{disk_scan, disk_hits, disk_step, settle, Hits, bound_value, settle_sem}
use liberal_os.Cache.Hash.{cache_fnv1a_range}
use liberal_os.Cache.Api.{
  promote, get_similar, copy_value, cache_sig, cache_fnv1a, cache_get, Cache,
}

-- The record answers the query: its key is the query's, or it is of the role and agrees with the
-- query's signature in 7 of 16 places or more.
abbrev pub Fits : List ℕ → ℕ → List ℕ → Slot → Type 0
Fits role k qsig rec =
    (rec.key ≡ k) ⊎ ((same_role rec role ≡ true) × (32 ≤ 5 * sig_match qsig rec.sig))

-- A slot in use, or a record of the overlay.
pub data Held (c : Cache) (rec : Slot) : Type 0 where
  in_ram : SlotIn rec c.slots → rec.key ≢ 0 → Held c rec
  on_disk :
      (recs : List Slot) (r : Slot)
      → c.disk ≡ some recs
      → SlotIn r recs
      → rec ≡ bound_value r
      → Held c rec

exact_value_found :
    (ss : List Slot) (k : ℕ) {v : List ℕ}
    → exact_value ss k ≡ some v
    → (s : Slot) × SlotIn s ss × (s.key ≡ k) × (v ≡ s.val)
unfolding exact_value
exact_value_found [] k e = cc
exact_value_found (s ∷ ss) k {v} e = elim (Bool-cases (s.key == k)) [
  | inl h ↦ (s, inl refl, ground arith, ground arith)
  | inr h ↦
      let (t, found, key, val) = exact_value_found ss k {v = v} (ground arith) in
      (t, inr found, key, val)
]

settle_sem_found :
    (best : Best) (s : Slot)
    → settle_sem best ≡ some s
    → (m : ℕ) × (best ≡ some (m, s)) × (32 ≤ 5 * m)
unfolding settle_sem sig_over_threshold
settle_sem_found none s e = cc
settle_sem_found (some (m, t)) s e = (m, ground arith, ground arith)

-- What a scan of the overlay may hold.
record AreFit (recs : List Slot) (role : List ℕ) (k : ℕ) (qsig : List ℕ) (h : Hits) : Type 0 where
  exact_fits :
      (s : Slot) → h.exact ≡ some s → (r : Slot) × SlotIn r recs × (s ≡ bound_value r) × (s.key ≡ k)
  sem_fits :
      (m : ℕ) (s : Slot)
      → h.sem ≡ some (m, s)
      → (r : Slot) × SlotIn r recs
        × (s ≡ bound_value r)
        × (same_role s role ≡ true)
        × (m ≡ sig_match qsig s.sig)

improve_cases :
    (best : Best) (m : ℕ) (s : Slot) → (improve best m s ≡ best) ⊎ (improve best m s ≡ some (m, s))
unfolding improve
improve_cases best m s = elim (Bool-cases (beats m best)) [
  | inl e ↦ inr (rw e)
  | inr e ↦ inl (rw e)
]

settle-Fits :
    {recs : List Slot} {role : List ℕ} {k : ℕ} {qsig : List ℕ} (h : Hits) (rec : Slot)
    → settle h ≡ some rec
    → AreFit recs role k qsig h
    → (r : Slot) × SlotIn r recs × (rec ≡ bound_value r) × Fits role k qsig rec
unfolding settle
settle-Fits h rec e a = elim (Option-cases h.exact) [
  | inr (s, x) ↦
      let (r, found, made, key) = a.exact_fits s x in
      let same : s ≡ rec = ground arith in
      (r, found, sym same ∙ made, inl (ap (λ t. t.key) (sym same) ∙ key))
  | inl x ↦
      let (m, b, enough) = settle_sem_found h.sem rec (ground arith) in
      let (r, found, made, same, eq) = a.sem_fits m rec b in
      (r, found, made, inr (same, ground arith))
]

module _ (recs : List Slot) (role : List ℕ) (k : ℕ) (qsig : List ℕ) where
  improve-fits :
      (h : Hits) (r : Slot)
      → SlotIn r recs
      → AreFit recs role k qsig h
      → same_role (bound_value r) role ≡ true
      → let rec = bound_value r in
        AreFit recs role k qsig (record h { sem = improve h.sem (sig_match qsig rec.sig) rec })
  improve-fits h r found a same = record {
    exact_fits = a.exact_fits;
    sem_fits = λ m s e.
        elim (improve_cases h.sem (sig_match qsig (bound_value r).sig) (bound_value r)) [
          | inl old ↦ a.sem_fits m s (sym old ∙ e)
          | inr new ↦
              let hit : some (sig_match qsig (bound_value r).sig, bound_value r) ≡ some (m, s) =
                sym new ∙ e in
              (r, found, ground arith, ground arith, ground arith)
        ];
  }

  disk_step-AreFit :
      (h : Hits) (r : Slot)
      → SlotIn r recs
      → AreFit recs role k qsig h
      → AreFit recs role k qsig (disk_step role k qsig h (bound_value r))
  unfolding disk_step
  disk_step-AreFit h r found a = elim (Bool-cases ((bound_value r).key == k)) [
    | inl e ↦ rw e (record {
      exact_fits = λ s eq. (r, found, ground arith, ground arith);
      sem_fits = a.sem_fits;
    })
    | inr e ↦ rw e (elim (Bool-cases (same_role (bound_value r) role)) [
      | inl g ↦ rw g (improve-fits h r found a g)
      | inr g ↦ rw g a
    ])
  ]

  disk_hits-AreFit :
      (rest : List Slot) (h : Hits)
      → ((r : Slot) → SlotIn r rest → SlotIn r recs)
      → AreFit recs role k qsig h
      → AreFit recs role k qsig (disk_hits rest role k qsig h)
  unfolding disk_hits
  disk_hits-AreFit [] h sub a = a
  disk_hits-AreFit (r ∷ rest) h sub a =
      disk_hits-AreFit rest _ (λ s i. sub s (inr i)) (disk_step-AreFit h r (sub r (inl refl)) a)

  -- The record that the overlay gives answers the query.
  disk_scan-Fits :
      (rec : Slot)
      → disk_scan (some recs) role k qsig ≡ some rec
      → (r : Slot) × SlotIn r recs × (rec ≡ bound_value r) × Fits role k qsig rec
  unfolding disk_scan
  disk_scan-Fits rec e = settle-Fits _ rec e (disk_hits-AreFit recs _ (λ r i. i) nothing)
    where
      nothing : AreFit recs role k qsig (record { exact = none; sem = none })
      nothing = record { exact_fits = λ s n. cc; sem_fits = λ m s n. cc }

-- The same of a hit that is not an exact one in RAM.
get_similar_sound :
    (c : Cache) (role : List ℕ) (k : ℕ) (qsig : List ℕ) (out : Option (List ℕ)) (outmax : ℤ)
    → (get_similar c role k qsig out outmax).0 ≡ true
    → (rec : Slot) × Held c rec
      × Fits role k qsig rec
      × ((get_similar c role k qsig out outmax).1 ≡ copy_value out outmax rec.val)
get_similar_sound c role k qsig out outmax hit =
    elim (Option-cases (settle_sem (best_slot c.slots role qsig none))) [
      | inr (s, e) ↦
          let (m, b, enough) = settle_sem_found _ s e in
          elim (best_slot-IsMatch c.slots role qsig none (m, s) b) [
            | inl n ↦ cc
            | inr (found, used, same, eq) ↦ (
              s,
              in_ram found used,
              inr (same, ground arith),
              unfold get_similar in rw (e, get_similar),
            )
          ]
      | inl e ↦ elim (Option-cases (disk_scan c.disk role k qsig)) [
        | inl d ↦ absurd (missed e d)
        | inr (rec, d) ↦ elim (Option-cases c.disk) [
          | inl no_disk ↦ absurd (no_overlay no_disk d)
          | inr (recs, there) ↦
              let (r, found, made, fit) = disk_scan-Fits recs role k qsig rec (rw (← there) d) in
              (
                rec,
                on_disk recs r there found made,
                fit,
                unfold get_similar promote in rw (e, get_similar, d, promote),
              )
        ]
      ]
    ]
  where
    missed :
        settle_sem (best_slot c.slots role qsig none) ≡ none
        → disk_scan c.disk role k qsig ≡ none
        → ⊥
    missed e d =
        let miss : (get_similar c role k qsig out outmax).0 ≡ false =
          (unfold get_similar promote in rw (e, get_similar, d, promote)) in
        cc

    no_overlay : c.disk ≡ none → {rec : Slot} → disk_scan c.disk role k qsig ≡ some rec → ⊥
    no_overlay n d = unfold disk_scan in ground arith

-- When cache_get() hits, what it copies out is the value of a record that stands in a slot in use in
-- RAM or in the overlay and fits the query: by its key, or by its role and a signature over the
-- threshold.
pub cache_get_sound :
    (c : Cache) (role prompt : List ℕ) (out : Option (List ℕ)) (outmax : ℤ)
    → (cache_get c role prompt out outmax).0 ≡ true
    → (rec : Slot) × Held c rec
      × Fits role (cache_fnv1a role prompt) (cache_sig prompt) rec
      × ((cache_get c role prompt out outmax).1 ≡ copy_value out outmax rec.val)
cache_get_sound c role prompt out outmax hit =
    elim (Option-cases (exact_value c.slots (cache_fnv1a role prompt))) [
      | inr (v, e) ↦
          let (s, found, key, val) = exact_value_found c.slots (cache_fnv1a role prompt) e in
          (
            s,
            in_ram found (λ z. (cache_fnv1a_range role prompt).0 (sym key ∙ z)),
            inl key,
            unfold cache_get in rw (e, cache_get) (ap (copy_value out outmax) val),
          )
      | inl e ↦
          let same : cache_get c role prompt out outmax
              ≡ get_similar c role (cache_fnv1a role prompt) (cache_sig prompt) out outmax =
            (unfold cache_get in rw (e, cache_get)) in
          rw same (
            get_similar_sound c role (cache_fnv1a role prompt) (cache_sig prompt) out outmax
              (ap (λ t. t.0) (sym same) ∙ hit))
    ]
