-- ===== src/Proc/Life/Calls/Fork.antt =====
-- What a child of kfork() has of its parent.
use liberal_os.Prelude.{
  ℕ, ◌≡◌, refl, sym, ap, ap₂, ◌∙◌, ◌≢◌, ◌⊎◌, inl, inr, Bool, true, false, Option, none, some, List,
  ℤ, pos, negsuc, set, get_or-set_self, get_or-set_ne,
}
use liberal_os.Proc.Memory.{or_zero}
use liberal_os.Proc.Life.Kill.{FirstUnused}
use liberal_os.File.{File}
use liberal_os.Proc.{Proc, ProcState}
use liberal_os.Proc.Life.Calls.Laws.{
  allocproc-AllocResult, freeproc-IsFreed, AllocResult, IsAllocated, Others, IsFreed,
}
use liberal_os.Proc.Life.{no_proc, fresh_proc, proc_at}
use liberal_os.Proc.Life.Calls.{
  allocproc, dup_all, forked, fork_copied, fork_named, dup_cwd, fork_done, fork_found, kfork,
  Inodes, Sys,
}
use liberal_os.Vm.{Vm}

-- The slot i is a child of the slot me, ready to run.
pub record IsChild {S : Type 0} (me i : ℕ) (sys s : Sys S) : Type 0 where
  pub pid : (proc_at s.procs i).pid ≡ sys.nextpid
  pub state : (proc_at s.procs i).state ≡ ProcState.runnable
  pub parent : (proc_at s.procs i).parent ≡ some me
  pub sz : (proc_at s.procs i).sz ≡ (proc_at sys.procs me).sz
  pub priority : (proc_at s.procs i).priority ≡ (proc_at sys.procs me).priority
  pub mem_quota : (proc_at s.procs i).mem_quota ≡ (proc_at sys.procs me).mem_quota
  pub quota_denied : (proc_at s.procs i).quota_denied ≡ 0
  pub others : Others sys.procs s.procs i

abbrev pub Forked : {S : Type 0} → ℕ → ℕ → Sys S → Option (ℤ × Sys S) → Type 0
Forked me i sys none = false ≡ true
Forked me i sys (some (r, s)) =
    ((r ≡ negsuc 0) × IsFreed i sys s) ⊎ ((r ≡ pos sys.nextpid) × IsChild me i sys s)

module _ (vm : Vm) (inodes : Inodes (vm.State)) (proc_chan : ℕ → ℕ) where
  fork_done-Forked :
      (me i ip : ℕ) (sys mid : Sys (vm.State)) (files : List File)
      → me ≢ i
      → IsAllocated i sys mid
      → (proc_at sys.procs me).cwd ≡ some ip
      → Forked me i sys (fork_done vm inodes proc_chan me i mid (some files))
  unfolding fork_done fork_named dup_cwd forked fresh_proc
  fork_done-Forked me i ip sys mid files ne a cwd =
      let p = proc_at mid.procs me in
      let c = proc_at mid.procs i in
      let child = forked me p c in
      let here : proc_at (set mid.procs i child) i ≡ child =
        get_or-set_self mid.procs i child no_proc a.inside in
      let parent : p ≡ proc_at sys.procs me = a.others me (λ e. ne (sym e)) in
      let dir : p.cwd ≡ some ip = ap (λ (q : Proc). q.cwd) parent ∙ cwd in
      rw dir (
        inr (
          ap (λ (q : Proc). pos q.pid) a.slot,
          record {
            pid = ap (λ (q : Proc). q.pid) here ∙ ap (λ (q : Proc). q.pid) a.slot;
            state = ap (λ (q : Proc). q.state) here;
            parent = ap (λ (q : Proc). q.parent) here;
            sz = ap (λ (q : Proc). q.sz) here ∙ ap (λ (q : Proc). q.sz) parent;
            priority = ap (λ (q : Proc). q.priority) here ∙ ap (λ (q : Proc). q.priority) parent;
            mem_quota = ap (λ (q : Proc). q.mem_quota) here ∙ ap (λ (q : Proc). q.mem_quota) parent;
            quota_denied =
                ap (λ (q : Proc). q.quota_denied) here ∙ ap (λ (q : Proc). q.quota_denied) a.slot;
            others = λ j n. get_or-set_ne mid.procs i j child no_proc n ∙ a.others j n;
          },
        ))

  fork_copied-Forked :
      (me i ip : ℕ) (sys mid : Sys (vm.State)) (files : List File) (q : Bool × vm.State)
      → me ≢ i
      → IsAllocated i sys mid
      → dup_all (proc_at sys.procs me).ofile (some sys.files) ≡ some files
      → (proc_at sys.procs me).cwd ≡ some ip
      → Forked me i sys (fork_copied vm inodes proc_chan me i mid q)
  unfolding fork_copied
  fork_copied-Forked me i ip sys mid files (false, w) ne a d cwd =
      let freed = freeproc-IsFreed vm i (record mid { world = w }) a.inside in
      inl (
        refl,
        record {
          slot = freed.slot;
          others = λ j n. freed.others j n ∙ a.others j n;
          files = freed.files ∙ a.files;
        },
      )
  fork_copied-Forked me i ip sys mid files (true, w) ne a d cwd =
      let dup : dup_all (proc_at mid.procs me).ofile (some mid.files) ≡ some files =
        ap₂ (λ (p : Proc) (fs : List File). dup_all p.ofile (some fs))
          (a.others me (λ e. ne (sym e))) a.files
        ∙ d in
      rw dup (
        fork_done-Forked me i ip sys (record mid { world = w }) files ne
          (record {
            frame = a.frame;
            table = a.table;
            slot = a.slot;
            others = a.others;
            next = a.next;
            files = a.files;
            inside = a.inside;
          })
          cwd)

  fork_found-Forked :
      (me i ip : ℕ) (sys : Sys (vm.State)) (files : List File) (r : Option ℕ × Sys (vm.State))
      → me ≢ i
      → AllocResult i sys r
      → dup_all (proc_at sys.procs me).ofile (some sys.files) ≡ some files
      → (proc_at sys.procs me).cwd ≡ some ip
      → Forked me i sys (fork_found vm inodes proc_chan me r)
  unfolding fork_found
  fork_found-Forked me i ip sys files (none, s) ne a d cwd = inl (refl, a)
  fork_found-Forked me i ip sys files (some j, s) ne a d cwd = rw (a.0) (
      fork_copied-Forked me i ip sys s files
        (vm.uvmcopy (or_zero (proc_at s.procs me).pagetable) (or_zero (proc_at s.procs i).pagetable)
          (proc_at s.procs me).sz s.world)
        ne a.1 d cwd)

  -- When the files of the caller can be shared without a panic and it has a working directory, kfork() either answers -1 and leaves
  -- the first UNUSED slot UNUSED, or answers the next pid and makes a RUNNABLE child there, with the
  -- size, priority and quota of the caller and no denials; the other slots stay as they are.
  pub kfork-Forked :
      (me i ip : ℕ) (sys : Sys (vm.State)) (files : List File)
      → me ≢ i
      → FirstUnused sys.procs i
      → dup_all (proc_at sys.procs me).ofile (some sys.files) ≡ some files
      → (proc_at sys.procs me).cwd ≡ some ip
      → Forked me i sys (kfork vm inodes proc_chan me sys)
  unfolding kfork
  kfork-Forked me i ip sys files ne h d cwd =
      fork_found-Forked me i ip sys files (allocproc vm sys) ne (allocproc-AllocResult vm i sys h) d
        cwd
