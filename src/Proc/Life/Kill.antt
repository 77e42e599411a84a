-- ===== src/Proc/Life/Kill.antt =====
-- kill() and the slot that the next process gets.
use liberal_os.Prelude.{
  ℕ, zero, suc, ◌+◌, ◌<◌, ◌≡◌, refl, sym, ap, ◌∙◌, Bool, true, false, some, List, [], ◌∷◌, arith,
  ◌==◌, if◌then◌else◌, pos, eqb_ℤ, length, set,
}
use mathlib.Core.Bool.{false≢true}
use liberal_os.Proc.Life.{proc_at, find_unused, kill_proc, kkill}
use liberal_os.Proc.{is_sleeping, ProcState, is_unused, Proc}

-- The slot i is the first UNUSED one.
abbrev pub FirstUnused : List Proc → ℕ → Type 0
FirstUnused [] i = false ≡ true
FirstUnused (p ∷ ps) zero = is_unused p.state ≡ true
FirstUnused (p ∷ ps) (suc i) = (is_unused p.state ≡ false) × FirstUnused ps i

-- Exactly the UNUSED slots have the pid 0.
abbrev pub PidsMatch : List Proc → Type 0
PidsMatch [] = true ≡ true
PidsMatch (p ∷ ps) = (is_unused p.state ≡ p.pid == 0) × PidsMatch ps

pub find_unused-FirstUnused :
    (ps : List Proc) (i k : ℕ) → FirstUnused ps i → find_unused ps k ≡ some (k + i)
unfolding find_unused
find_unused-FirstUnused [] i k h = absurd (false≢true h)
find_unused-FirstUnused (p ∷ ps) zero k h = rw h (ap some (omega arith))
find_unused-FirstUnused (p ∷ ps) (suc i) k h =
    rw (h.0) (find_unused-FirstUnused ps i (k + 1) h.1 ∙ ap some (omega arith))

pub FirstUnused-inside : (ps : List Proc) (i : ℕ) → FirstUnused ps i → i < length ps
FirstUnused-inside [] i h = absurd (false≢true h)
FirstUnused-inside (p ∷ ps) zero h = omega arith
FirstUnused-inside (p ∷ ps) (suc i) h = omega (arith, FirstUnused-inside ps i h.1)

zero_test : (a : ℕ) → eqb_ℤ (pos a) (pos 0) ≡ a == 0
zero_test a = ground arith

still_unused :
    (s : ProcState)
    → is_unused s ≡ true
    → is_unused (if is_sleeping s then ProcState.runnable else s) ≡ true
still_unused ProcState.unused h = refl
still_unused ProcState.used h = absurd (false≢true h)
still_unused ProcState.sleeping h = absurd (false≢true h)
still_unused ProcState.runnable h = absurd (false≢true h)
still_unused ProcState.running h = absurd (false≢true h)
still_unused ProcState.zombie h = absurd (false≢true h)

unused_pid :
    (p : Proc)
    → is_unused p.state ≡ p.pid == 0
    → (b : Bool) → is_unused p.state ≡ b
    → eqb_ℤ (pos p.pid) (pos 0) ≡ b
unused_pid p e b h = zero_test p.pid ∙ sym e ∙ h

unused_kill : (p : Proc) → is_unused p.state ≡ true → is_unused (kill_proc p).state ≡ true
unfolding kill_proc
unused_kill p h = still_unused p.state h

-- kill(0) finds the first UNUSED slot.
pub kkill_unused :
    (ps : List Proc) (i : ℕ)
    → PidsMatch ps
    → FirstUnused ps i
    → (kkill ps (pos 0) ≡ (pos 0, set ps i (kill_proc (proc_at ps i))))
      × FirstUnused (set ps i (kill_proc (proc_at ps i))) i
unfolding kkill
kkill_unused [] i m h = absurd (false≢true h)
kkill_unused (p ∷ ps) zero m h = (rw (unused_pid p m.0 true h) refl, unused_kill p h)
kkill_unused (p ∷ ps) (suc i) m h =
    let rest = kkill_unused ps i m.1 h.1 in
    (rw (unused_pid p m.0 false h.0, rest.0) refl, (h.0, rest.1))
