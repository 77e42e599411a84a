-- ===== src/Lock.antt =====
-- kernel/spinlock.c and kernel/sleeplock.c. A CPU is its number `me` with its interrupt state; a
-- panic is none, and an attempt that has to wait is a value.
pub mod Laws
use liberal_os.Prelude.{
  ℕ, zero, suc, ◌+◌, ◌-◌, ◌*◌, ◌/◌, ◌%◌, ◌^◌, ◌≤◌, ◌<◌, min, ◌≡◌, refl, sym, ap, ap₂, ◌∙◌, subst,
  ◌≢◌, ◌↔◌, ◌⊎◌, inl, inr, Bool, true, false, not, ◌&&◌, ◌||◌, Option, none, some, List, [], ◌∷◌,
  ◌++◌, arith, ltb, leb, ◌==◌, if◌then◌else◌, ==_iff, ==-refl, ==-false, Bool-cases, Option-cases,
  ℤ, pos, negsuc, sub_ℕ, ◌≤ℤ◌, ◌<ℤ◌, ltb_ℤ, leb_ℤ, eqb_ℤ, eqb_ℤ_iff, length, get_elem?, get_or, set,
  take, drop, replicate, length-append, length-set, length-take, length-replicate,
  get_elem?-set_self, get_elem?-set_ne, get_or-set_self, get_or-set_ne, take-length, lt_of_le_ne,
}

-- The interrupt state of struct cpu: sstatus.SIE, noff and intena.
pub record Cpu : Type 0 where
  pub interrupts : Bool
  pub noff : ℕ
  pub intena : Bool

pub record Spinlock : Type 0 where
  pub locked : Bool
  pub cpu : Option ℕ

abbrev pub initlock : Spinlock
initlock = record { locked = false; cpu = none }

unfoldable pub push_off : Cpu → Cpu
push_off c = record {
  interrupts = false;
  noff = c.noff + 1;
  intena = if c.noff == 0 then c.interrupts else c.intena;
}

unfoldable pub pop_off : Cpu → Option Cpu
pop_off c =
    if c.interrupts
    then none
    else if ltb c.noff 1
    then none
    else some (record c { noff = c.noff - 1; interrupts = c.noff - 1 == 0 && c.intena })

unfoldable pub is_cpu : Option ℕ → ℕ → Bool
is_cpu none me = false
is_cpu (some i) me = i == me

unfoldable pub holding : ℕ → Spinlock → Bool
holding me lk = lk.locked && is_cpu lk.cpu me

-- How an attempt at the lock ends.
pub data Attempt : Type 0 where
  panics : Attempt
  spins : Cpu → Attempt
  got : Cpu → Spinlock → Attempt

-- acquire() up to one swap of the lock word.
unfoldable pub acquire : ℕ → Cpu → Spinlock → Attempt
acquire me c lk =
    let c' = push_off c in
    if holding me lk
    then panics
    else if lk.locked
    then spins c'
    else got c' (record { locked = true; cpu = some me })

unfoldable pub unlocked : Option Cpu → Option (Cpu × Spinlock)
unlocked none = none
unlocked (some c) = some (c, record { locked = false; cpu = none })

unfoldable pub release : ℕ → Cpu → Spinlock → Option (Cpu × Spinlock)
release me c lk = if holding me lk then unlocked (pop_off c) else none

pub record Sleeplock : Type 0 where
  pub locked : Bool
  pub pid : ℕ

abbrev pub initsleeplock : Sleeplock
initsleeplock = record { locked = false; pid = 0 }

-- A round of acquiresleep(): none to sleep on the lock.
unfoldable pub acquiresleep : ℕ → Sleeplock → Option Sleeplock
acquiresleep pid lk = if lk.locked then none else some (record { locked = true; pid = pid })

unfoldable pub releasesleep : Sleeplock → Sleeplock
releasesleep lk = record { locked = false; pid = 0 }

unfoldable pub holdingsleep : ℕ → Sleeplock → Bool
holdingsleep pid lk = lk.locked && lk.pid == pid

-- sys_proxylock() is acquiresleep() of the proxy lock; sys_proxyunlock() releases it for its holder.
unfoldable pub sys_proxyunlock : ℕ → Sleeplock → Sleeplock
sys_proxyunlock pid lk = if holdingsleep pid lk then releasesleep lk else lk
