-- ===== src/Proc.antt =====
-- kernel/proc.h: a slot of the process table. Pointers into the tables are indices, `parent` too;
-- the machine context, the kernel stack and the lock of a slot are left out.
pub mod Sched
pub mod Memory
pub mod Life
use liberal_os.Prelude.{ℕ, Bool, true, false, List, Option, ℤ}

pub data ProcState : Type 0 where
  unused used sleeping runnable running zombie : ProcState

pub record Proc : Type 0 where
  pub state : ProcState
  pub chan : ℕ
  pub killed : Bool
  pub xstate : ℤ
  pub pid : ℕ
  pub parent : Option ℕ
  pub sz : ℕ
  pub pagetable : Option ℕ
  pub trapframe : Option ℕ
  pub ofile : List (Option ℕ)
  pub cwd : Option ℕ
  pub name : List ℕ
  pub agent_role : List ℕ
  pub priority : ℤ
  pub agent_state : ℤ
  pub mem_quota : ℤ
  pub quota_denied : ℕ

abbrev pub is_runnable : ProcState → Bool
is_runnable ProcState.runnable = true
is_runnable _ = false

abbrev pub is_unused : ProcState → Bool
is_unused ProcState.unused = true
is_unused _ = false

abbrev pub is_sleeping : ProcState → Bool
is_sleeping ProcState.sleeping = true
is_sleeping _ = false

abbrev pub is_zombie : ProcState → Bool
is_zombie ProcState.zombie = true
is_zombie _ = false
