-- ===== src/Proc/Sched.antt =====
-- scheduler() and yield() of kernel/proc.c. Every scan reads a slot under that slot's lock, so each
-- takes the table as it was seen; on one core the three views are the table itself.
pub mod Laws
use liberal_os.Prelude.{
  ℕ, zero, suc, ◌+◌, ◌-◌, ◌*◌, ◌/◌, ◌%◌, ◌^◌, ◌≤◌, ◌<◌, min, ◌≡◌, refl, sym, ap, ap₂, ◌∙◌, subst,
  ◌≢◌, ◌↔◌, ◌⊎◌, inl, inr, Bool, true, false, not, ◌&&◌, ◌||◌, Option, none, some, List, [], ◌∷◌,
  ◌++◌, arith, ltb, leb, ◌==◌, if◌then◌else◌, ==_iff, ==-refl, ==-false, Bool-cases, Option-cases,
  ℤ, pos, negsuc, sub_ℕ, ◌≤ℤ◌, ◌<ℤ◌, ltb_ℤ, leb_ℤ, eqb_ℤ, eqb_ℤ_iff, length, get_elem?, get_or, set,
  take, drop, replicate, length-append, length-set, length-take, length-replicate,
  get_elem?-set_self, get_elem?-set_ne, get_or-set_self, get_or-set_ne, take-length, lt_of_le_ne,
}
use liberal_os.Proc.{Proc, ProcState, runnable, running, is_runnable}

-- Pass 1: any_runnable and max_prio.
unfoldable pub max_scan : List Proc → Bool → ℤ → Bool × ℤ
max_scan [] any m = (any, m)
max_scan (p ∷ ps) any m =
    let higher = is_runnable p.state && (not any || ltb_ℤ m p.priority) in
    max_scan ps (any || higher) (if higher then p.priority else m)

-- Pass 2: the first RUNNABLE slot at that priority.
unfoldable pub find_prio : List Proc → ℤ → ℕ → Option ℕ
find_prio [] m i = none
find_prio (p ∷ ps) m i =
    let rest = find_prio ps m (i + 1) in
    if is_runnable p.state && eqb_ℤ p.priority m then some i else rest

-- The fallback: the first RUNNABLE slot of any priority.
unfoldable pub find_any : List Proc → ℕ → Option ℕ
find_any [] i = none
find_any (p ∷ ps) i = let rest = find_any ps (i + 1) in if is_runnable p.state then some i else rest

unfoldable pub or_else : Option ℕ → Option ℕ → Option ℕ
or_else none o = o
or_else (some i) o = some i

-- One turn of the outer loop; `none` is wfi.
unfoldable pub pick : List Proc → List Proc → List Proc → Option ℕ
unfolding max_scan find_prio find_any or_else
pick seen1 seen2 seen3 =
    let (any, m) = max_scan seen1 false (pos 0) in
    if any then or_else (find_prio seen2 m 0) (find_any seen3 0) else none

unfoldable pub set_state : List Proc → ℕ → ProcState → List Proc
set_state [] i s = []
set_state (p ∷ ps) zero s = record p { state = s } ∷ ps
set_state (p ∷ ps) (suc i) s = p ∷ set_state ps i s

-- The chosen process is marked RUNNING and runs; here it gives the core back by yield() at once.
unfoldable pub run_yield : Option ℕ → List Proc → List Proc
run_yield none t = t
run_yield (some i) t = set_state (set_state t i running) i runnable

unfoldable pub yield_round : List Proc → Option ℕ × List Proc
yield_round t = (pick t t t, run_yield (pick t t t) t)

-- What n rounds pick, one after the other.
unfoldable pub rounds : ℕ → List Proc → List (Option ℕ)
rounds zero t = []
rounds (suc n) t = (yield_round t).0 ∷ rounds n (yield_round t).1
