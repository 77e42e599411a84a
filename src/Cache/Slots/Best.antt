-- ===== src/Cache/Slots/Best.antt =====
-- The semantic scan finds the closest slot of the role.
use liberal_os.Prelude.{
  ℕ, ◌≤◌, ◌≡◌, refl, sym, ap, ◌≢◌, ◌⊎◌, inl, inr, true, none, some, List, [], ◌∷◌, arith, ltb, ◌==◌,
  if◌then◌else◌, ==-false, Bool-cases,
}
use liberal_os.Cache.Sig.{sig_match}
use liberal_os.Cache.Slots.{Slot, Best, beats, improve, best_slot, same_role}

abbrev pub SlotIn : Slot → List Slot → Type 0
SlotIn s [] = ⊥
SlotIn s (x ∷ ss) = (s ≡ x) ⊎ SlotIn s ss

-- The scan has seen a match of at least m.
abbrev pub Reached : ℕ → Best → Type 0
Reached m none = ⊥
Reached m (some (b, s)) = m ≤ b

improve-Reached : (best : Best) (m : ℕ) (s : Slot) → Reached m (improve best m s)
unfolding improve beats
improve-Reached none m s = omega arith
improve-Reached (some (b, t)) m s = elim (Bool-cases (ltb b m)) [
  | inl h ↦ rw h (omega arith)
  | inr h ↦ rw h (ground arith)
]

improve-keeps : (best : Best) (m n : ℕ) (s : Slot) → Reached n best → Reached n (improve best m s)
unfolding improve beats
improve-keeps none m n s h = absurd h
improve-keeps (some (b, t)) m n s h = elim (Bool-cases (ltb b m)) [
  | inl g ↦ rw g (ground arith)
  | inr g ↦ rw g h
]

best_slot-keeps :
    (ss : List Slot) (role qsig : List ℕ) (best : Best) (n : ℕ)
    → Reached n best
    → Reached n (best_slot ss role qsig best)
unfolding best_slot
best_slot-keeps [] role qsig best n h = h
best_slot-keeps (s ∷ ss) role qsig best n h = best_slot-keeps ss role qsig _ n kept
  where
    kept : Reached n (
        if s.key == 0
        then best
        else if same_role s role
        then improve best (sig_match qsig s.sig) s
        else best)
    kept = elim (Bool-cases (s.key == 0)) [
      | inl e ↦ rw e h
      | inr e ↦ rw e (elim (Bool-cases (same_role s role)) [
        | inl r ↦ rw r (improve-keeps best (sig_match qsig s.sig) n s h)
        | inr r ↦ rw r h
      ])
    ]

-- The best match is at least that of every slot that is in use and of the role.
pub best_slot-Reached :
    (ss : List Slot) (role qsig : List ℕ) (best : Best) (s : Slot)
    → SlotIn s ss
    → s.key ≢ 0
    → same_role s role ≡ true
    → Reached (sig_match qsig s.sig) (best_slot ss role qsig best)
unfolding best_slot
best_slot-Reached [] role qsig best s h used r = absurd h
best_slot-Reached (x ∷ ss) role qsig best s (inr h) used r =
    best_slot-Reached ss role qsig _ s h used r
best_slot-Reached (x ∷ ss) role qsig best s (inl e) used r =
    rw (← e, ==-false s.key 0 used, r)
      (best_slot-keeps ss role qsig _ _ (improve-Reached best (sig_match qsig s.sig) s))

-- What the scan holds is a match of a slot in use of the role, or what it started from.
abbrev pub IsMatch : List Slot → List ℕ → List ℕ → ℕ × Slot → Type 0
IsMatch ss role qsig b =
    SlotIn b.1 ss × (b.1.key ≢ 0) × (same_role b.1 role ≡ true) × (b.0 ≡ sig_match qsig b.1.sig)

IsMatch-here :
    (x : Slot) (ss : List Slot) (role qsig : List ℕ) (b : ℕ × Slot)
    → x.key ≢ 0
    → same_role x role ≡ true
    → some (sig_match qsig x.sig, x) ≡ some b
    → IsMatch (x ∷ ss) role qsig b
IsMatch-here x ss role qsig b u r e =
    let pair : (sig_match qsig x.sig, x) ≡ b = cc in
    (inl (sym (ap (λ t. t.1) pair)), rw (← pair) u, rw (← pair) r, rw (← pair) refl)

pub best_slot-IsMatch :
    (ss : List Slot) (role qsig : List ℕ) (best : Best) (b : ℕ × Slot)
    → best_slot ss role qsig best ≡ some b
    → (best ≡ some b) ⊎ IsMatch ss role qsig b
unfolding best_slot improve
best_slot-IsMatch [] role qsig best b e = inl e
best_slot-IsMatch (x ∷ ss) role qsig best b e = elim (best_slot-IsMatch ss role qsig _ b e) [
  | inr (found, u, r, m) ↦ inr (inr found, u, r, m)
  | inl g ↦ elim (Bool-cases (x.key == 0)) [
    | inl z ↦ inl (ground arith)
    | inr z ↦ elim (Bool-cases (same_role x role)) [
      | inr r ↦ inl (ground arith)
      | inl r ↦ elim (Bool-cases (beats (sig_match qsig x.sig) best)) [
        | inr w ↦ inl (ground arith)
        | inl w ↦
            let hit : some (sig_match qsig x.sig, x) ≡ some b = ground arith in
            let used : x.key ≢ 0 = λ q. absurd (ground arith) in
            inr (IsMatch-here x ss role qsig b used r hit)
      ]
    ]
  ]
]
