-- ===== src/Proc/Memory.antt =====
-- growproc() of kernel/proc.c, and the calls of kernel/sysproc.c that size and rank a process:
-- sys_sbrk, sys_setquota and sys_setprio. A uint64 sum wraps; n, pages and prio are C ints.
pub mod Quota
use liberal_os.Prelude.{
  ℕ, zero, suc, ◌+◌, ◌-◌, ◌*◌, ◌/◌, ◌%◌, ◌^◌, ◌≤◌, ◌<◌, min, ◌≡◌, refl, sym, ap, ap₂, ◌∙◌, subst,
  ◌≢◌, ◌↔◌, ◌⊎◌, inl, inr, Bool, true, false, not, ◌&&◌, ◌||◌, Option, none, some, List, [], ◌∷◌,
  ◌++◌, arith, ltb, leb, ◌==◌, if◌then◌else◌, ==_iff, ==-refl, ==-false, Bool-cases, Option-cases,
  ℤ, pos, negsuc, sub_ℕ, ◌≤ℤ◌, ◌<ℤ◌, ltb_ℤ, leb_ℤ, eqb_ℤ, eqb_ℤ_iff, length, get_elem?, get_or, set,
  take, drop, replicate, length-append, length-set, length-take, length-replicate,
  get_elem?-set_self, get_elem?-set_ne, get_or-set_self, get_or-set_ne, take-length, lt_of_le_ne,
}
use liberal_os.Vm.{Vm}
use liberal_os.Proc.{Proc}

abbrev pub page_size : ℕ
page_size = 4096

abbrev pub u64 : ℕ
u64 = 2 ^ 64

-- MAXVA - 2 * PGSIZE
abbrev pub trapframe_va : ℕ
trapframe_va = 2 ^ 38 - 8192

-- PGROUNDUP(sz) / PGSIZE
unfoldable pub pages_of : ℕ → ℕ
pages_of sz = (sz + (page_size - 1)) % u64 / page_size

-- sz + n for an int n
unfoldable pub add_int : ℕ → ℤ → ℕ
add_int sz (pos n) = (sz + n) % u64
add_int sz (negsuc n) = (sz + u64 - suc n) % u64

-- p->mem_quota > 0 && PGROUNDUP(sz + n) / PGSIZE > (uint64)p->mem_quota
unfoldable pub over_quota : ℤ → ℕ → Bool
unfolding pages_of
over_quota (negsuc q) new = false
over_quota (pos q) new = ltb 0 q && ltb q (pages_of new)

unfoldable pub or_zero : Option ℕ → ℕ
or_zero none = 0
or_zero (some a) = a

module _ (vm : Vm) where
  open vm use {State, uvmalloc, uvmdealloc}

  -- uvmdealloc() of kernel/vm.c returns the smaller of the sizes.
  unfoldable pub shrink : ℕ → ℕ → ℕ
  shrink old new = if leb old new then old else new

  unfoldable pub grown : Proc → Option ℕ × State → ℤ × Proc × State
  grown p (none, s) = (negsuc 0, p, s)
  grown p (some sz, s) = (pos 0, record p { sz = sz }, s)

  unfoldable pub growproc : Proc → ℤ → State → ℤ × Proc × State
  unfolding grown shrink add_int over_quota or_zero
  growproc p (pos zero) s = (pos 0, p, s)
  growproc p (pos (suc n)) s =
      let new = add_int p.sz (pos (suc n)) in
      if ltb trapframe_va new
      then (negsuc 0, p, s)
      else if over_quota p.mem_quota new
      then (negsuc 0, record p { quota_denied = p.quota_denied + 1 }, s)
      else grown p (uvmalloc (or_zero p.pagetable) p.sz new s)
  growproc p (negsuc n) s =
      let new = add_int p.sz (negsuc n) in
      (pos 0, record p { sz = shrink p.sz new }, uvmdealloc (or_zero p.pagetable) p.sz new s)

  -- The lazy branch, for n >= 0: the size grows, nothing is allocated.
  unfoldable pub sbrk_lazy : Proc → ℕ → State → Option ℕ × Proc × State
  unfolding add_int
  sbrk_lazy p n s =
      let new = add_int p.sz (pos n) in
      if ltb new p.sz
      then (none, p, s)
      else if ltb trapframe_va new
      then (none, p, s)
      else (some p.sz, record p { sz = new }, s)

  unfoldable pub sbrk_eager : Proc → ℤ → State → Option ℕ × Proc × State
  unfolding growproc
  sbrk_eager p n s =
      let (rc, p', s') = growproc p n s in (if ltb_ℤ rc (pos 0) then none else some p.sz, p', s')

  -- The old size, or none for -1; `eager` is t == SBRK_EAGER.
  unfoldable pub sys_sbrk : Proc → ℤ → Bool → State → Option ℕ × Proc × State
  sys_sbrk p (negsuc n) eager s = sbrk_eager p (negsuc n) s
  sys_sbrk p (pos n) true s = sbrk_eager p (pos n) s
  sys_sbrk p (pos n) false s = sbrk_lazy p n s

-- The previous quota, and the process with the new one.
unfoldable pub sys_setquota : Proc → ℤ → ℤ × Proc
sys_setquota p pages =
    let cap = if ltb_ℤ pages (pos 0) then pos 0 else pages in
    (p.mem_quota, record p { mem_quota = cap })

unfoldable pub sys_setprio : Proc → ℤ → ℤ × Proc
sys_setprio p prio =
    let low = if ltb_ℤ prio (negsuc 19) then negsuc 19 else prio in
    let high = if ltb_ℤ (pos 19) low then pos 19 else low in
    (p.priority, record p { priority = high })
