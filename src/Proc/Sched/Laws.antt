-- ===== src/Proc/Sched/Laws.antt =====
-- Which process the scheduler runs.
use liberal_os.Prelude.{
  ℕ, zero, suc, ◌+◌, ◌<◌, ◌≡◌, refl, sym, ap, ap₂, ◌≢◌, ◌↔◌, ◌⊎◌, inl, inr, Bool, true, false, not,
  ◌&&◌, ◌||◌, Option, none, some, List, [], ◌∷◌, arith, if◌then◌else◌, Bool-cases, Option-cases, ℤ,
  pos, ◌≤ℤ◌, ◌<ℤ◌, ltb_ℤ, eqb_ℤ, eqb_ℤ_iff, get_elem?, replicate, lt_of_le_ne,
}
use liberal_os.Proc.{running, Proc, ProcState, runnable, is_runnable}
use liberal_os.Proc.Sched.{
  run_yield, rounds, set_state, yield_round, or_else, pick, max_scan, find_prio, find_any,
}

-- Slot i is RUNNABLE with the highest priority, and no earlier slot is RUNNABLE with as high a one.
pub record IsTop (t : List Proc) (i : ℕ) : Type 0 where
  pub chosen : Proc
  pub stands : get_elem? t i ≡ some chosen
  pub ready : chosen.state ≡ runnable
  pub highest :
      (j : ℕ) (q : Proc)
      → get_elem? t j ≡ some q
      → q.state ≡ runnable
      → q.priority ≤ℤ chosen.priority
  pub first :
      (j : ℕ) (q : Proc)
      → j < i
      → get_elem? t j ≡ some q
      → q.state ≡ runnable
      → q.priority <ℤ chosen.priority

abbrev pub NoneRunnable : List Proc → Type 0
NoneRunnable t = (j : ℕ) (q : Proc) → get_elem? t j ≡ some q → q.state ≢ runnable

-- A RUNNABLE slot of that priority.
abbrev HasPrio : List Proc → ℤ → Type 0
HasPrio t m =
    (j : ℕ) × (q : Proc) × (get_elem? t j ≡ some q) × (q.state ≡ runnable) × (q.priority ≡ m)

is_runnable_iff : (s : ProcState) → (is_runnable s ≡ true) ↔ (s ≡ runnable)
is_runnable_iff s = ground arith

-- What pass 1 knows after the slots t, started from (any, m).
record Scanned (t : List Proc) (any : Bool) (m : ℤ) (out : Bool × ℤ) : Type 0 where
  bound :
      (j : ℕ) (q : Proc)
      → get_elem? t j ≡ some q
      → q.state ≡ runnable
      → (out.0 ≡ true) × (q.priority ≤ℤ out.1)
  keeps : any ≡ true → (out.0 ≡ true) × (m ≤ℤ out.1)
  attained : out.0 ≡ true → ((any ≡ true) × (out.1 ≡ m)) ⊎ HasPrio t out.1

HasPrio-cons : (p : Proc) (ps : List Proc) (m : ℤ) → HasPrio ps m → HasPrio (p ∷ ps) m
HasPrio-cons p ps m (j, q, e, r, k) = (suc j, q, e, r, k)

HasPrio-here :
    (p : Proc) (ps : List Proc) (m : ℤ) → p.state ≡ runnable → m ≡ p.priority → HasPrio (p ∷ ps) m
HasPrio-here p ps m r e = (0, p, refl, r, sym e)

attained-cons :
    (p : Proc) (ps : List Proc) (any : Bool) (m : ℤ) (out : Bool × ℤ)
    → let higher = is_runnable p.state && (not any || ltb_ℤ m p.priority) in
      ((any || higher ≡ true) × (out.1 ≡ (if higher then p.priority else m))) ⊎ HasPrio ps out.1
      → ((any ≡ true) × (out.1 ≡ m)) ⊎ HasPrio (p ∷ ps) out.1
attained-cons p ps any m out (inr found) = inr (HasPrio-cons p ps out.1 found)
attained-cons p ps any m out (inl (a, e)) =
    elim (Bool-cases (is_runnable p.state && (not any || ltb_ℤ m p.priority))) [
      | inl h ↦ inr (HasPrio-here p ps out.1 (ground arith) (ground arith))
      | inr h ↦ inl (ground arith, ground arith)
    ]

Scanned-cons :
    (p : Proc) (ps : List Proc) (any : Bool) (m : ℤ) (out : Bool × ℤ)
    → let higher = is_runnable p.state && (not any || ltb_ℤ m p.priority) in
      Scanned ps (any || higher) (if higher then p.priority else m) out → Scanned (p ∷ ps) any m out
Scanned-cons p ps any m out h = record {
  bound = bound';
  keeps = λ e. ground (arith, h.keeps);
  attained = λ e. attained-cons p ps any m out (h.attained e);
}
  where
    bound' :
        (j : ℕ) (q : Proc)
        → get_elem? (p ∷ ps) j ≡ some q
        → q.state ≡ runnable
        → (out.0 ≡ true) × (q.priority ≤ℤ out.1)
    bound' zero q e r = ground (arith, h.keeps)
    bound' (suc j) q e r = h.bound j q e r

max_scan-Scanned : (t : List Proc) (any : Bool) (m : ℤ) → Scanned t any m (max_scan t any m)
unfolding max_scan
max_scan-Scanned [] any m = record {
  bound = λ j q e r. cc;
  keeps = λ e. (e, omega arith);
  attained = λ e. inl (e, refl);
}
max_scan-Scanned (p ∷ ps) any m = Scanned-cons p ps any m _ (max_scan-Scanned ps _ _)

-- What pass 2 finds in the slots t, the first of which is slot i.
record Found (t : List Proc) (m : ℤ) (i k : ℕ) : Type 0 where
  at_slot : ℕ
  offset : k ≡ i + at_slot
  holder : Proc
  holds : get_elem? t at_slot ≡ some holder
  ready : holder.state ≡ runnable
  prio : holder.priority ≡ m
  first :
      (j : ℕ) (q : Proc)
      → j < at_slot
      → get_elem? t j ≡ some q
      → q.state ≡ runnable
      → q.priority ≢ m

Found-cons :
    (p : Proc) (ps : List Proc) (m : ℤ) (i k : ℕ)
    → is_runnable p.state && eqb_ℤ p.priority m ≡ false
    → Found ps m (i + 1) k
    → Found (p ∷ ps) m i k
Found-cons p ps m i k no_match f = record {
  at_slot = suc f.at_slot;
  offset = omega (arith, f.offset);
  holder = f.holder;
  holds = f.holds;
  ready = f.ready;
  prio = f.prio;
  first = first';
}
  where
    first' :
        (j : ℕ) (q : Proc)
        → j < suc f.at_slot
        → get_elem? (p ∷ ps) j ≡ some q
        → q.state ≡ runnable
        → q.priority ≢ m
    first' zero q lt e r = λ h. ground (arith, eqb_ℤ_iff p.priority m)
    first' (suc j) q lt e r = f.first j q (omega arith) e r

find_prio-Found : (t : List Proc) (m : ℤ) (i k : ℕ) → find_prio t m i ≡ some k → Found t m i k
unfolding find_prio
find_prio-Found [] m i k e = cc
find_prio-Found (p ∷ ps) m i k e = elim (Bool-cases (is_runnable p.state && eqb_ℤ p.priority m)) [
  | inl h ↦ record {
    at_slot = 0;
    offset = ground arith;
    holder = p;
    holds = refl;
    ready = ground arith;
    prio = (eqb_ℤ_iff p.priority m).0 (ground arith);
    first = λ j q lt. absurd (omega arith);
  }
  | inr h ↦ Found-cons p ps m i k (ground arith) (find_prio-Found ps m (i + 1) k (ground arith))
]

find_prio-none : (t : List Proc) (m : ℤ) (i : ℕ) → HasPrio t m → find_prio t m i ≢ none
unfolding find_prio
find_prio-none [] m i (j, q, e, r, h) = λ n. cc
find_prio-none (p ∷ ps) m i (zero, q, e, r, h) = λ n. ground (arith, eqb_ℤ_iff p.priority m)
find_prio-none (p ∷ ps) m i (suc j, q, e, r, h) =
    λ n. ground (arith, find_prio-none ps m (i + 1) (j, q, e, r, h))

-- The fallback picks a RUNNABLE slot, and one if there is any.
find_any-none : (t : List Proc) (i : ℕ) → find_any t i ≡ none → NoneRunnable t
unfolding find_any
find_any-none [] i e j q g r = cc
find_any-none (p ∷ ps) i e zero q g r = ground arith
find_any-none (p ∷ ps) i e (suc j) q g r = find_any-none ps (i + 1) (ground arith) j q g r

busy_prio :
    (t : List Proc) → (max_scan t false (pos 0)).0 ≡ true → HasPrio t (max_scan t false (pos 0)).1
busy_prio t busy = elim ((max_scan-Scanned t false (pos 0)).attained busy) [
  | inl (no_start, _) ↦ cc
  | inr found ↦ found
]

Found-IsTop :
    (t : List Proc) (k i : ℕ) {out : Bool × ℤ}
    → k ≡ i
    → Scanned t false (pos 0) out
    → Found t out.1 0 k
    → IsTop t i
Found-IsTop t k i {out} e sc f = record {
  chosen = f.holder;
  stands = let same : i ≡ f.at_slot = omega (arith, f.offset) in rw same f.holds;
  ready = f.ready;
  highest = λ j q g r. rw f.prio (sc.bound j q g r).1;
  first = λ j q lt g r. ground (
    arith,
    sc.bound j q g r,
    f.first j q (omega (arith, f.offset)) g r,
    f.prio,
    lt_of_le_ne q.priority out.1,
  );
}

-- When the scheduler of one core picks a slot of a table that stands still, its process is RUNNABLE,
-- none that is RUNNABLE has a higher priority, and it is the first such in the table.
pub pick-IsTop : (t : List Proc) (i : ℕ) → pick t t t ≡ some i → IsTop t i
unfolding pick or_else
pick-IsTop t i e = elim (Bool-cases (max_scan t false (pos 0)).0) [
  | inr idle ↦ absurd (ground arith)
  | inl busy ↦ elim (Option-cases (find_prio t (max_scan t false (pos 0)).1 0)) [
    | inl missed ↦ absurd (find_prio-none t _ 0 (busy_prio t busy) missed)
    | inr (k, hit) ↦
        Found-IsTop t k i (ground arith) (max_scan-Scanned t false (pos 0))
          (find_prio-Found t _ 0 k hit)
  ]
]

-- On one core with a table that stands still the scheduler picks nothing exactly when nothing is
-- RUNNABLE.
pub pick-none_iff : (t : List Proc) → (pick t t t ≡ none) ↔ NoneRunnable t
unfolding pick or_else
pick-none_iff t = elim (Bool-cases (max_scan t false (pos 0)).0) [
  | inr idle ↦ (
    λ _ j q g r. ground (arith, (max_scan-Scanned t false (pos 0)).bound j q g r),
    λ _. rw (idle, pick),
  )
  | inl busy ↦
      let (j, q, g, r, m) = busy_prio t busy in
      (λ e. absurd (not_none t busy (ground arith)), λ n. absurd (n j q g r))
]
  where
    not_none :
        (t : List Proc)
        → (max_scan t false (pos 0)).0 ≡ true
        → find_prio t (max_scan t false (pos 0)).1 0 ≢ none
    not_none t busy = find_prio-none t _ 0 (busy_prio t busy)

-- When other cores change the table between the passes, and the first pass has seen a RUNNABLE
-- process, the scheduler picks nothing only if the last pass has seen none.
pub pick_others :
    (seen1 seen2 seen3 : List Proc)
    → (max_scan seen1 false (pos 0)).0 ≡ true
    → pick seen1 seen2 seen3 ≡ none
    → NoneRunnable seen3
unfolding pick or_else
pick_others seen1 seen2 seen3 busy e = find_any-none seen3 0 (ground arith)

set_state-set_state :
    (t : List Proc) (i : ℕ) (p : Proc)
    → get_elem? t i ≡ some p
    → p.state ≡ runnable
    → set_state (set_state t i running) i runnable ≡ t
unfolding set_state
set_state-set_state [] i p e r = refl
set_state-set_state (p ∷ ps) zero q e r = ground arith
set_state-set_state (p ∷ ps) (suc i) q e r = ap (◌∷◌ p) (set_state-set_state ps i q e r)

run_yield_same : (t : List Proc) (o : Option ℕ) → pick t t t ≡ o → run_yield o t ≡ t
unfolding run_yield
run_yield_same t none e = refl
run_yield_same t (some i) e =
    let top = pick-IsTop t i e in set_state-set_state t i top.chosen top.stands top.ready

-- On one core where every process yields as soon as it runs, every round picks the slot of the first
-- round: no other RUNNABLE process runs, of the same priority neither.
pub rounds_same : (n : ℕ) (t : List Proc) → rounds n t ≡ replicate n (pick t t t)
unfolding rounds yield_round
rounds_same zero t = refl
rounds_same (suc n) t = ap₂ ◌∷◌ refl (rw (run_yield_same t _ refl) (rounds_same n t))
