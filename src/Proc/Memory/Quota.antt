-- ===== src/Proc/Memory/Quota.antt =====
-- The memory quota: where it holds, and where it does not.
use liberal_os.Prelude.{
  ℕ, zero, suc, ◌+◌, ◌-◌, ◌*◌, ◌^◌, ◌≤◌, ◌<◌, ◌≡◌, false, some, arith, ℤ, pos, negsuc, ◌≤ℤ◌,
}
use liberal_os.Vm.{Vm}
use liberal_os.Proc.{Proc}
use liberal_os.Proc.Memory.{
  add_int, or_zero, page_size, sbrk_lazy, grown, over_quota, shrink, sys_sbrk, pages_of,
  sys_setprio, trapframe_va, growproc,
}

-- A process with a cap has no more pages than the cap.
abbrev pub IsCapped : Proc → Type 0
IsCapped p = (q : ℕ) → p.mem_quota ≡ pos q → 0 < q → pages_of p.sz ≤ q

-- The sizes that a process can have.
abbrev pub IsSized : Proc → Type 0
IsSized p = p.sz ≤ trapframe_va

module _ (vm : Vm) where
  grow-IsCapped :
      (p : Proc) (n : ℕ) (s : vm.State)
      → suc n ≤ 2 ^ 31 - 1
      → IsSized p
      → IsCapped p
      → IsCapped (growproc vm p (pos (suc n)) s).1 × IsSized (growproc vm p (pos (suc n)) s).1
  unfolding growproc grown over_quota
  grow-IsCapped p n s small sized capped = (
    λ q e h. ground (
      arith,
      capped q,
      vm.uvmalloc_size (or_zero p.pagetable) p.sz (add_int p.sz (pos (suc n))) s,
    ),
    ground (arith, vm.uvmalloc_size (or_zero p.pagetable) p.sz (add_int p.sz (pos (suc n))) s),
  )

  pages_of_mono : (a b : ℕ) → a ≤ b → b ≤ trapframe_va → pages_of a ≤ pages_of b
  unfolding pages_of
  pages_of_mono a b h k = omega arith

  -- growproc() of any C int, whether or not it succeeds, keeps a process of a valid size that is
  -- within its cap so: within its cap and of a valid size.
  pub growproc-IsCapped :
      (p : Proc) (n : ℤ) (s : vm.State)
      → n ≤ℤ pos (2 ^ 31 - 1)
      → IsSized p
      → IsCapped p
      → IsCapped (growproc vm p n s).1 × IsSized (growproc vm p n s).1
  unfolding growproc
  growproc-IsCapped p (pos zero) s small sized capped = (capped, sized)
  growproc-IsCapped p (pos (suc n)) s small sized capped =
      grow-IsCapped p n s (omega arith) sized capped
  growproc-IsCapped p (negsuc n) s small sized capped = (
    λ q e h.
        ground (arith, capped q, pages_of_mono (shrink vm p.sz (add_int p.sz (negsuc n))) p.sz),
    ground arith,
  )

  -- growproc() of a positive n that would take a process past its cap, within the address space,
  -- answers -1, adds 1 to quota_denied and changes nothing else.
  pub growproc_denied :
      (p : Proc) (n : ℕ) (s : vm.State) (q : ℕ)
      → p.mem_quota ≡ pos q
      → 0 < q
      → suc n ≤ 2 ^ 31 - 1
      → p.sz + suc n ≤ trapframe_va
      → q * page_size < p.sz + suc n
      → growproc vm p (pos (suc n)) s
        ≡ (negsuc 0, record p { quota_denied = p.quota_denied + 1 }, s)
  unfolding growproc over_quota
  growproc_denied p n s q e h small fits over = ground arith

  -- The lazy call grants any size up to TRAPFRAME, the cap of the process notwithstanding.
  pub sbrk_lazy_uncapped :
      (p : Proc) (n : ℕ) (s : vm.State)
      → p.sz + n ≤ trapframe_va
      → sys_sbrk vm p (pos n) false s ≡ (some p.sz, record p { sz = p.sz + n }, s)
  unfolding sys_sbrk sbrk_lazy
  sbrk_lazy_uncapped p n s fits = ground arith

-- sys_setprio() answers the old priority, stores one within -20 to 19, and stores its argument when
-- that lies there.
pub sys_setprio_lem :
    (p : Proc) (prio : ℤ)
    → let (old, q) = sys_setprio p prio in
      (old ≡ p.priority)
      × (negsuc 19 ≤ℤ q.priority)
      × (q.priority ≤ℤ pos 19)
      × (negsuc 19 ≤ℤ prio → prio ≤ℤ pos 19 → q ≡ record p { priority = prio })
unfolding sys_setprio
sys_setprio_lem p prio = ground arith
