-- ===== src/Tests/Quota.antt =====
-- Runs of growproc and sys_sbrk over an allocator that never fails.
use liberal_os.Prelude.{◌≡◌, refl, inr, true, false, none, some, [], arith, pos}
use liberal_os.Vm.{Vm}
use liberal_os.Proc.{Proc, running}
use liberal_os.Proc.Memory.{pages_of, sbrk_eager, sbrk_lazy, growproc, sys_sbrk}
use liberal_os.Proc.Memory.Quota.{IsCapped, IsSized, growproc-IsCapped}

abbrev plenty : Vm
plenty = record {
  State = Unit {0};
  kalloc = λ s. (some 1, s);
  kfree = λ p s. s;
  proc_pagetable = λ t s. (some 1, s);
  proc_freepagetable = λ p n s. s;
  uvmcopy = λ a b n s. (true, s);
  uvmalloc = λ pt old new s. (some new, s);
  uvmdealloc = λ pt old new s. s;
  uvmalloc_size = λ pt old new s h. inr refl;
}

-- Three pages, with a cap of four.
abbrev agent : Proc
agent = record {
  state = running;
  chan = 0;
  killed = false;
  xstate = pos 0;
  pid = 3;
  parent = none;
  sz = 12288;
  pagetable = some 1;
  trapframe = some 2;
  ofile = [];
  cwd = none;
  name = [];
  agent_role = [];
  priority = pos 0;
  agent_state = pos 0;
  mem_quota = pos 4;
  quota_denied = 0;
}

eager_denied : (sys_sbrk plenty agent (pos 8192) true tt).0 ≡ none
unfolding sys_sbrk sbrk_eager
eager_denied = refl

lazy_granted : (sys_sbrk plenty agent (pos 8192) false tt).1.sz ≡ 20480
unfolding sys_sbrk sbrk_lazy
lazy_granted = refl

growproc-IsCapped_example :
    IsCapped (growproc plenty agent (pos 4096) tt).1
    × IsSized (growproc plenty agent (pos 4096) tt).1
growproc-IsCapped_example =
    growproc-IsCapped plenty agent (pos 4096) tt (omega arith) (omega arith) capped
  where
    capped : IsCapped agent
    capped q e h = unfold pages_of in ground arith
