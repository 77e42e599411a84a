-- ===== src/Lock/Laws.antt =====
-- Matched pairs on the locks.
use liberal_os.Prelude.{
  ℕ, ◌+◌, ◌-◌, ◌≡◌, refl, sym, ◌≢◌, ◌⊎◌, inl, inr, true, false, ◌&&◌, Option, none, some, arith,
  ltb, ◌==◌, if◌then◌else◌, ==-refl, ==-false, Bool-cases,
}
use liberal_os.Lock.{
  Spinlock, Attempt, Cpu, Sleeplock, acquire, acquiresleep, got, holding, holdingsleep, initlock,
  is_cpu, panics, pop_off, push_off, release, spins, sys_proxyunlock, unlocked,
}

-- Outside every push_off() the CPU has the interrupts as they are; inside, they are off.
abbrev pub IsCpu : Cpu → Type 0
IsCpu c = (c.noff ≡ 0) ⊎ (c.interrupts ≡ false)

abbrev pub AsBefore : Cpu → Option (Cpu × Spinlock) → Type 0
AsBefore c none = false ≡ true
AsBefore c (some r) = (r.1 ≡ initlock) × (r.0.noff ≡ c.noff) × (r.0.interrupts ≡ c.interrupts)

abbrev pub Released : ℕ → Cpu → Attempt → Type 0
Released me c panics = false ≡ true
Released me c (spins c') = false ≡ true
Released me c (got c' lk) = AsBefore c (release me c' lk)

restored :
    (c : Cpu)
    → IsCpu c
    → (c.noff == 0 && (if c.noff == 0 then c.interrupts else c.intena)) ≡ c.interrupts
restored c v = elim (Bool-cases (c.noff == 0)) [
  | inl e ↦ rw e refl
  | inr e ↦ elim v [ inl z ↦ absurd (ground arith) | inr q ↦ rw e (sym q) ]
]

-- On a CPU whose interrupts are off inside push_off(), acquire() of a free lock gets it at once, and
-- release() then frees it and gives back the depth and the interrupts of before.
pub release-acquire :
    (me : ℕ) (c : Cpu) (lk : Spinlock)
    → IsCpu c
    → lk.locked ≡ false
    → Released me c (acquire me c lk)
unfolding acquire release holding unlocked is_cpu pop_off push_off
release-acquire me c lk v h =
    let held : ltb (c.noff + 1) 1 ≡ false = ground arith in
    let depth : c.noff + 1 - 1 ≡ c.noff = omega arith in
    rw (h, ==-refl me, held, depth) (refl, refl, restored c v)

abbrev pub Kept : ℕ → ℕ → Option Sleeplock → Type 0
Kept pid other none = false ≡ true
Kept pid other (some held) =
    (acquiresleep other (sys_proxyunlock other held) ≡ none)
    × (holdingsleep pid (sys_proxyunlock other held) ≡ true)

-- A process that takes the free proxy lock keeps it: proxyunlock() by a process of another pid leaves
-- it held, and that process sleeps when it asks for the lock.
pub acquiresleep-Kept :
    (pid other : ℕ) (lk : Sleeplock)
    → pid ≢ other
    → lk.locked ≡ false
    → Kept pid other (acquiresleep pid lk)
unfolding acquiresleep sys_proxyunlock holdingsleep
acquiresleep-Kept pid other lk n h = rw (h, ==-false pid other n, ==-refl pid) (refl, refl)
