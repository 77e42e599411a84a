-- ===== src/Cache/Slots/Laws.antt =====
-- The RAM table as a map from keys to values.
use liberal_os.Prelude.{
  ℕ, zero, suc, ◌+◌, ◌≡◌, refl, sym, ap, ◌≢◌, ◌↔◌, ◌⊎◌, inl, inr, true, false, Option, none, some,
  List, [], ◌∷◌, arith, ◌==◌, Bool-cases, set,
}
use liberal_os.Cache.Slots.{Slot, find_key, target_of, ram_put, exact_value, free_or_match}

abbrev pub NoKey : ℕ → List Slot → Type 0
NoKey k [] = Unit {0}
NoKey k (s ∷ ss) = (s.key ≢ k) × NoKey k ss

-- Slot n is the first of that key.
abbrev pub FirstKey : ℕ → ℕ → List Slot → Type 0
FirstKey k n [] = ⊥
FirstKey k zero (s ∷ ss) = s.key ≡ k
FirstKey k (suc n) (s ∷ ss) = (s.key ≢ k) × FirstKey k n ss

find_key-cases :
    (ss : List Slot) (k i : ℕ)
    → ((find_key ss k i ≡ none) × NoKey k ss)
      ⊎ ((n : ℕ) × (find_key ss k i ≡ some (i + n)) × FirstKey k n ss)
unfolding find_key
find_key-cases [] k i = inl (refl, tt)
find_key-cases (s ∷ ss) k i = elim (Bool-cases (s.key == k)) [
  | inl e ↦ inr (0, ground arith, ground arith)
  | inr e ↦ elim (find_key-cases ss k (i + 1)) [
    | inl (f, no_key) ↦ inl (ground arith, (ground arith, no_key))
    | inr (n, f, first) ↦ inr (suc n, ground arith, (ground arith, first))
  ]
]

-- Where a record of key k goes: over the record of that key, or into the first empty slot, or
-- nowhere if the table is full.
pub data Target (ss : List Slot) (k : ℕ) (o : Option ℕ) : Type 0 where
  over : (n : ℕ) → o ≡ some n → FirstKey k n ss → Target ss k o
  fresh : (n : ℕ) → o ≡ some n → NoKey k ss → FirstKey 0 n ss → Target ss k o
  full : o ≡ none → NoKey k ss → NoKey 0 ss → Target ss k o

pub target_of-Target : (ss : List Slot) (k : ℕ) → Target ss k (target_of ss k)
unfolding target_of
target_of-Target ss k = elim (find_key-cases ss k 0) [
  | inr (n, e, first) ↦ over n (rw (e, target_of) (ap some (omega arith))) first
  | inl (e, no_key) ↦ elim (find_key-cases ss 0 0) [
    | inr (n, f, first) ↦ fresh n (rw (e, f, target_of) (ap some (omega arith))) no_key first
    | inl (f, no_empty) ↦ full (rw (e, f, target_of)) no_key no_empty
  ]
]

free_or_match-of-FirstKey :
    (ss : List Slot) (k n : ℕ) → FirstKey k n ss ⊎ FirstKey 0 n ss → free_or_match ss k ≡ true
unfolding free_or_match
free_or_match-of-FirstKey [] k n (inl h) = absurd h
free_or_match-of-FirstKey [] k n (inr h) = absurd h
free_or_match-of-FirstKey (s ∷ ss) k zero h = ground arith
free_or_match-of-FirstKey (s ∷ ss) k (suc n) (inl h) =
    ground (arith, free_or_match-of-FirstKey ss k n (inl h.1))
free_or_match-of-FirstKey (s ∷ ss) k (suc n) (inr h) =
    ground (arith, free_or_match-of-FirstKey ss k n (inr h.1))

free_or_match-of-NoKey :
    (ss : List Slot) (k : ℕ) → NoKey k ss → NoKey 0 ss → free_or_match ss k ≡ false
unfolding free_or_match
free_or_match-of-NoKey [] k h e = refl
free_or_match-of-NoKey (s ∷ ss) k h e = ground (arith, free_or_match-of-NoKey ss k h.1 e.1)

pub free_or_match_full :
    (ss : List Slot) (k : ℕ) → free_or_match ss k ≡ false → NoKey k ss × NoKey 0 ss
unfolding free_or_match
free_or_match_full [] k e = (tt, tt)
free_or_match_full (s ∷ ss) k e = ground (arith, free_or_match_full ss k)

-- cache_set reports a full table exactly when ram_put would find no place.
pub free_or_match_iff :
    (ss : List Slot) (k : ℕ) → (free_or_match ss k ≡ false) ↔ (target_of ss k ≡ none)
free_or_match_iff ss k = elim (target_of-Target ss k) [
  | over n e first ↦
      (λ f. ground (arith, free_or_match-of-FirstKey ss k n (inl first)), λ f. ground arith)
  | fresh n e no_key first ↦
      (λ f. ground (arith, free_or_match-of-FirstKey ss k n (inr first)), λ f. ground arith)
  | full e no_key no_empty ↦ (λ f. e, λ f. free_or_match-of-NoKey ss k no_key no_empty)
]

-- The written record is found, if no earlier slot has its key.
exact_value-set_self :
    (ss : List Slot) (n k : ℕ) (rec : Slot)
    → FirstKey k n ss
    → (k ≡ rec.key) ⊎ NoKey rec.key ss
    → exact_value (set ss n rec) rec.key ≡ some rec.val
unfolding exact_value
exact_value-set_self [] n k rec f h = absurd f
exact_value-set_self (s ∷ ss) zero k rec f h = ground arith
exact_value-set_self (s ∷ ss) (suc n) k rec f (inl e) =
    ground (arith, exact_value-set_self ss n k rec f.1 (inl e))
exact_value-set_self (s ∷ ss) (suc n) k rec f (inr h) =
    ground (arith, exact_value-set_self ss n k rec f.1 (inr h.1))

exact_value-set_ne :
    (ss : List Slot) (n k j : ℕ) (rec : Slot)
    → FirstKey k n ss
    → k ≢ j
    → rec.key ≢ j
    → exact_value (set ss n rec) j ≡ exact_value ss j
unfolding exact_value
exact_value-set_ne [] n k j rec f h g = refl
exact_value-set_ne (s ∷ ss) zero k j rec f h g = ground arith
exact_value-set_ne (s ∷ ss) (suc n) k j rec f h g =
    ground (arith, exact_value-set_ne ss n k j rec f.1 h g)

-- After ram_put the key has the value of the record, if there was a place for it.
pub exact_value-ram_put :
    (ss : List Slot) (rec : Slot)
    → free_or_match ss rec.key ≡ true
    → exact_value (ram_put ss rec) rec.key ≡ some rec.val
unfolding ram_put
exact_value-ram_put ss rec room = elim (target_of-Target ss rec.key) [
  | over n e first ↦ rw (e, ram_put) (exact_value-set_self ss n rec.key rec first (inl refl))
  | fresh n e no_key first ↦ rw (e, ram_put) (exact_value-set_self ss n 0 rec first (inr no_key))
  | full e no_key no_empty ↦
      absurd (ground (arith, free_or_match-of-NoKey ss rec.key no_key no_empty))
]

-- Every other key keeps its value: nothing is evicted.
pub exact_value-ram_put_ne :
    (ss : List Slot) (rec : Slot) (j : ℕ)
    → rec.key ≢ j
    → j ≢ 0
    → exact_value (ram_put ss rec) j ≡ exact_value ss j
unfolding ram_put
exact_value-ram_put_ne ss rec j ne pos_j = elim (target_of-Target ss rec.key) [
  | over n e first ↦ rw (e, ram_put) (exact_value-set_ne ss n rec.key j rec first ne ne)
  | fresh n e no_key first ↦
      rw (e, ram_put) (exact_value-set_ne ss n 0 j rec first (λ z. pos_j (sym z)) ne)
  | full e no_key no_empty ↦ rw (e, ram_put)
]

-- No key but 0 stands in two slots.
abbrev pub IsDistinct : List Slot → Type 0
IsDistinct [] = Unit {0}
IsDistinct (s ∷ ss) = ((s.key ≡ 0) ⊎ NoKey s.key ss) × IsDistinct ss

NoKey-set :
    (ss : List Slot) (n j : ℕ) (rec : Slot) → rec.key ≢ j → NoKey j ss → NoKey j (set ss n rec)
NoKey-set [] n j rec h k = tt
NoKey-set (s ∷ ss) zero j rec h k = (h, k.1)
NoKey-set (s ∷ ss) (suc n) j rec h k = (k.0, NoKey-set ss n j rec h k.1)

IsDistinct-set_key :
    (ss : List Slot) (n : ℕ) (rec : Slot)
    → FirstKey rec.key n ss
    → IsDistinct ss
    → IsDistinct (set ss n rec)
IsDistinct-set_key [] n rec f d = tt
IsDistinct-set_key (s ∷ ss) zero rec f d = (ground arith, d.1)
IsDistinct-set_key (s ∷ ss) (suc n) rec f d =
    (ground (arith, NoKey-set ss n s.key rec), IsDistinct-set_key ss n rec f.1 d.1)

IsDistinct-set_empty :
    (ss : List Slot) (n : ℕ) (rec : Slot)
    → NoKey rec.key ss
    → IsDistinct ss
    → IsDistinct (set ss n rec)
IsDistinct-set_empty [] n rec f d = tt
IsDistinct-set_empty (s ∷ ss) zero rec f d = (inr f.1, d.1)
IsDistinct-set_empty (s ∷ ss) (suc n) rec f d =
    (ground (arith, NoKey-set ss n s.key rec), IsDistinct-set_empty ss n rec f.1 d.1)

pub ram_put-IsDistinct : (ss : List Slot) (rec : Slot) → IsDistinct ss → IsDistinct (ram_put ss rec)
unfolding ram_put
ram_put-IsDistinct ss rec d = elim (target_of-Target ss rec.key) [
  | over n e first ↦ rw (e, ram_put) (IsDistinct-set_key ss n rec first d)
  | fresh n e no_key first ↦ rw (e, ram_put) (IsDistinct-set_empty ss n rec no_key d)
  | full e no_key no_empty ↦ rw (e, ram_put) d
]
