-- ===== src/Proc/Life.antt =====
-- kernel/proc.c: what the calls that make, wake, kill and free a process do to its slot of the table.
-- Slots are found by scans from slot 0; `i` is the slot that a scan has reached.
pub mod Calls
pub mod Kill
use liberal_os.Prelude.{
  ℕ, zero, suc, ◌+◌, ◌-◌, ◌*◌, ◌/◌, ◌%◌, ◌^◌, ◌≤◌, ◌<◌, min, ◌≡◌, refl, sym, ap, ap₂, ◌∙◌, subst,
  ◌≢◌, ◌↔◌, ◌⊎◌, inl, inr, Bool, true, false, not, ◌&&◌, ◌||◌, Option, none, some, List, [], ◌∷◌,
  ◌++◌, arith, ltb, leb, ◌==◌, if◌then◌else◌, ==_iff, ==-refl, ==-false, Bool-cases, Option-cases,
  ℤ, pos, negsuc, sub_ℕ, ◌≤ℤ◌, ◌<ℤ◌, ltb_ℤ, leb_ℤ, eqb_ℤ, eqb_ℤ_iff, length, get_elem?, get_or, set,
  take, drop, replicate, length-append, length-set, length-take, length-replicate,
  get_elem?-set_self, get_elem?-set_ne, get_or-set_self, get_or-set_ne, take-length, lt_of_le_ne,
}
use liberal_os.Verifier.{codes}
use liberal_os.Proc.{ProcState, is_sleeping, is_unused, Proc}
use liberal_os.File.{Release}
use liberal_os.Proc.Memory.{or_zero}
use liberal_os.CString.{safestrcpy}

abbrev pub no_proc : Proc
no_proc = record {
  state = ProcState.unused;
  chan = 0;
  killed = false;
  xstate = pos 0;
  pid = 0;
  parent = none;
  sz = 0;
  pagetable = none;
  trapframe = none;
  ofile = [];
  cwd = none;
  name = [];
  agent_role = [];
  priority = pos 0;
  agent_state = pos 0;
  mem_quota = pos 0;
  quota_denied = 0;
}

abbrev pub proc_at : List Proc → ℕ → Proc
proc_at procs i = get_or procs i no_proc

-- The first UNUSED slot, counted from i.
unfoldable pub find_unused : List Proc → ℕ → Option ℕ
find_unused [] i = none
find_unused (p ∷ ps) i =
    let rest = find_unused ps (i + 1) in if is_unused p.state then some i else rest

-- The fields that a slot of the table has after `found:`, up to the trapframe.
unfoldable pub fresh_proc : ℕ → Proc → Proc
fresh_proc pid p = record p {
  pid = pid;
  state = ProcState.used;
  agent_role = safestrcpy p.agent_role (codes "none" ++ (0 ∷ [])) (pos 16);
  priority = pos 0;
  agent_state = pos 0;
  mem_quota = pos 0;
  quota_denied = 0;
}

-- The slot after freeproc().
unfoldable pub freed_proc : Proc → Proc
freed_proc p = record p {
  trapframe = none;
  pagetable = none;
  sz = 0;
  pid = 0;
  parent = none;
  name = set p.name 0 0;
  chan = 0;
  killed = false;
  xstate = pos 0;
  agent_role = set p.agent_role 0 0;
  priority = pos 0;
  agent_state = pos 0;
  mem_quota = pos 0;
  quota_denied = 0;
  state = ProcState.unused;
}

-- if(p->state == SLEEPING && p->chan == chan) p->state = RUNNABLE;
unfoldable pub wake : ℕ → Proc → Proc
wake chan p =
    if is_sleeping p.state && p.chan == chan then record p { state = ProcState.runnable } else p

-- The loop of wakeup() from slot i on; `me` is the caller's slot.
unfoldable pub wakeup : ℕ → ℕ → ℕ → List Proc → List Proc
wakeup me chan i [] = []
wakeup me chan i (p ∷ ps) = (if i == me then p else wake chan p) ∷ wakeup me chan (i + 1) ps

-- What sleep() does to the caller's slot before and after sched().
unfoldable pub fall_asleep : ℕ → Proc → Proc
fall_asleep chan p = record p { chan = chan; state = ProcState.sleeping }

unfoldable pub after_sleep : Proc → Proc
after_sleep p = record p { chan = 0 }

-- if(p->state == SLEEPING) p->state = RUNNABLE; of kkill()
unfoldable pub kill_proc : Proc → Proc
kill_proc p = record p {
  killed = true;
  state = if is_sleeping p.state then ProcState.runnable else p.state;
}

-- The answer, and the table.
unfoldable pub kkill : List Proc → ℤ → ℤ × List Proc
kkill [] pid = (negsuc 0, [])
kkill (p ∷ ps) pid =
    let rest = kkill ps pid in
    if eqb_ℤ (pos p.pid) pid then (pos 0, kill_proc p ∷ ps) else (rest.0, p ∷ rest.1)

unfoldable pub setkilled : Proc → Proc
setkilled p = record p { killed = true }

unfoldable pub killed : Proc → Bool
killed p = p.killed
