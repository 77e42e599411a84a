-- ===== src/Proc/Life/Calls.antt =====
-- kernel/proc.c: allocproc(), freeproc(), kfork(), reparent(), kexit() and kwait() on the whole
-- system. Each stretch of code between two sleeps is one function; a panic is none. The bytes of
-- pages belong to the interfaces, the trapframe that kfork() copies among them.
pub mod Laws
pub mod Exit
pub mod Fork
use liberal_os.Prelude.{
  ℕ, zero, suc, ◌+◌, ◌-◌, ◌*◌, ◌/◌, ◌%◌, ◌^◌, ◌≤◌, ◌<◌, min, ◌≡◌, refl, sym, ap, ap₂, ◌∙◌, subst,
  ◌≢◌, ◌↔◌, ◌⊎◌, inl, inr, Bool, true, false, not, ◌&&◌, ◌||◌, Option, none, some, List, [], ◌∷◌,
  ◌++◌, arith, ltb, leb, ◌==◌, if◌then◌else◌, ==_iff, ==-refl, ==-false, Bool-cases, Option-cases,
  ℤ, pos, negsuc, sub_ℕ, ◌≤ℤ◌, ◌<ℤ◌, ltb_ℤ, leb_ℤ, eqb_ℤ, eqb_ℤ_iff, length, get_elem?, get_or, set,
  take, drop, replicate, length-append, length-set, length-take, length-replicate,
  get_elem?-set_self, get_elem?-set_ne, get_or-set_self, get_or-set_ne, take-length, lt_of_le_ne,
}
use liberal_os.Proc.Memory.{or_zero}
use liberal_os.CString.{safestrcpy}
use liberal_os.Proc.Life.{fall_asleep, killed, wakeup, find_unused, freed_proc, fresh_proc, proc_at}
use liberal_os.Proc.{ProcState, is_zombie, Proc}
use liberal_os.File.{
  Release.nothing, Release.close_pipe, Release.put_inode, fileclose, filedup, File, Release,
}
use liberal_os.Vm.{Vm}

pub record Sys (S : Type 0) : Type 0 where
  pub procs : List Proc
  pub nextpid : ℕ
  pub files : List File
  pub world : S

-- The inode calls of kernel/fs.c, kernel/pipe.c and kernel/log.c that a process makes. The last two
-- may panic, which is none, and may sleep: they give the whole system as it is when the process runs
-- again, with what the others did.
pub record Inodes (S : Type 0) : Type 0 where
  pub idup : ℕ → S → S
  -- begin_op(); iput(); end_op();
  pub put_cwd : ℕ → Sys S → Option (Sys S)
  pub release : Release → Sys S → Option (Sys S)

-- filedup() of the open files of a process.
unfoldable pub dup_all : List (Option ℕ) → Option (List File) → Option (List File)
dup_all fds none = none
dup_all [] (some files) = some files
dup_all (none ∷ fds) (some files) = dup_all fds (some files)
dup_all (some f ∷ fds) (some files) = dup_all fds (filedup files f)

module _ (vm : Vm) where
  open vm use {State, kalloc, kfree, proc_pagetable, proc_freepagetable}

  unfoldable pub free_page : Option ℕ → State → State
  free_page none s = s
  free_page (some pa) s = kfree pa s

  unfoldable pub free_table : Option ℕ → ℕ → State → State
  free_table none sz s = s
  free_table (some pt) sz s = proc_freepagetable pt sz s

  unfoldable pub freeproc : ℕ → Sys State → Sys State
  unfolding freed_proc free_page free_table
  freeproc i sys =
      let p = proc_at sys.procs i in
      record sys {
        procs = set sys.procs i (freed_proc p);
        world = free_table p.pagetable p.sz (free_page p.trapframe sys.world);
      }

  -- pagetable = proc_pagetable(p) and what follows it
  unfoldable pub with_table : ℕ → Sys State → Option ℕ × State → Option ℕ × Sys State
  with_table i sys (none, w) = (none, freeproc i (record sys { world = w }))
  with_table i sys (some pt, w) = (
    some i,
    record sys {
      procs = set sys.procs i (record (proc_at sys.procs i) { pagetable = some pt });
      world = w;
    },
  )

  unfoldable pub with_frame : ℕ → Sys State → Option ℕ × State → Option ℕ × Sys State
  with_frame i sys (none, w) = (none, freeproc i (record sys { world = w }))
  with_frame i sys (some pa, w) =
      with_table i
        (record sys {
          procs = set sys.procs i (record (proc_at sys.procs i) { trapframe = some pa });
        })
        (proc_pagetable pa w)

  -- From `found:` on; allocpid() is its first line.
  unfoldable pub found : Sys State → Option ℕ → Option ℕ × Sys State
  found sys none = (none, sys)
  found sys (some i) =
      with_frame i
        (record sys {
          procs = set sys.procs i (fresh_proc sys.nextpid (proc_at sys.procs i));
          nextpid = sys.nextpid + 1;
        })
        (kalloc sys.world)

  -- The slot, or none for a null pointer.
  unfoldable pub allocproc : Sys State → Option ℕ × Sys State
  allocproc sys = found sys (find_unused sys.procs 0)

-- if(p->ofile[i]) np->ofile[i] = filedup(p->ofile[i]);
unfoldable pub copy_fds : List (Option ℕ) → List (Option ℕ) → List (Option ℕ)
copy_fds [] cs = cs
copy_fds (f ∷ fs) [] = []
copy_fds (none ∷ fs) (c ∷ cs) = c ∷ copy_fds fs cs
copy_fds (some f ∷ fs) (c ∷ cs) = some f ∷ copy_fds fs cs

-- The child's slot at the end of kfork(): `c` is the slot that allocproc() gave.
unfoldable pub forked : ℕ → Proc → Proc → Proc
forked me p c = record c {
  sz = p.sz;
  ofile = copy_fds p.ofile c.ofile;
  cwd = p.cwd;
  name = safestrcpy c.name p.name (pos 16);
  agent_role = safestrcpy c.agent_role p.agent_role (pos 16);
  priority = p.priority;
  agent_state = p.agent_state;
  mem_quota = p.mem_quota;
  parent = some me;
  state = ProcState.runnable;
}

-- Whether the slot has the parent `q`.
unfoldable pub is_child : Option ℕ → ℕ → Bool
is_child none q = false
is_child (some r) q = r == q

unfoldable pub turn_zombie : ℤ → Proc → Proc
turn_zombie status p = record p { xstate = status; state = ProcState.zombie }

-- How a round of kwait() ends.
pub data Wait : Type 0 where
  reaped : ℕ → Wait
  wait_failed wait_asleep : Wait

-- The scan for an exited child from slot i on: whether there are children, and the first zombie.
unfoldable pub wait_scan : ℕ → ℕ → List Proc → Bool × Option ℕ
wait_scan me i [] = (false, none)
wait_scan me i (p ∷ ps) =
    let rest = wait_scan me (i + 1) ps in
    if is_child p.parent me
    then (if is_zombie p.state then (true, some i) else (true, rest.1))
    else rest

module _ (vm : Vm) (inodes : Inodes (vm.State)) (proc_chan : ℕ → ℕ) where
  open vm use {State, uvmcopy}
  open inodes use {idup, put_cwd, release}

  -- idup(p->cwd), which faults on a null pointer.
  unfoldable pub dup_cwd : Option ℕ → State → Option State
  dup_cwd none w = none
  dup_cwd (some ip) w = some (idup ip w)

  -- After idup() of the working directory.
  unfoldable pub fork_named : ℕ → ℕ → Sys State → Option State → Option (ℤ × Sys State)
  fork_named me i sys none = none
  fork_named me i sys (some w) =
      let c = proc_at sys.procs i in
      some (
        pos c.pid,
        record sys { procs = set sys.procs i (forked me (proc_at sys.procs me) c); world = w },
      )

  -- After filedup() of the files.
  unfoldable pub fork_done : ℕ → ℕ → Sys State → Option (List File) → Option (ℤ × Sys State)
  fork_done me i sys none = none
  fork_done me i sys (some files) =
      fork_named me i (record sys { files = files }) (dup_cwd (proc_at sys.procs me).cwd sys.world)

  unfoldable pub fork_copied : ℕ → ℕ → Sys State → Bool × State → Option (ℤ × Sys State)
  fork_copied me i sys (false, w) = some (negsuc 0, freeproc vm i (record sys { world = w }))
  fork_copied me i sys (true, w) =
      fork_done me i (record sys { world = w })
        (dup_all (proc_at sys.procs me).ofile (some sys.files))

  unfoldable pub fork_found : ℕ → Option ℕ × Sys State → Option (ℤ × Sys State)
  fork_found me (none, sys) = some (negsuc 0, sys)
  fork_found me (some i, sys) =
      let p = proc_at sys.procs me in
      let c = proc_at sys.procs i in
      fork_copied me i sys (uvmcopy (or_zero p.pagetable) (or_zero c.pagetable) p.sz sys.world)

  unfoldable pub kfork : ℕ → Sys State → Option (ℤ × Sys State)
  kfork me sys = fork_found me (allocproc vm sys)

  -- if(pp->parent == p){ pp->parent = initproc; wakeup(initproc); } for the slot i
  unfoldable pub reparent_slot : ℕ → ℕ → ℕ → List Proc → List Proc
  reparent_slot me init i procs =
      if is_child (proc_at procs i).parent me
      then wakeup me (proc_chan init) 0
          (set procs i (record (proc_at procs i) { parent = some init }))
      else procs

  -- The loop of reparent() over the n slots from i on.
  unfoldable pub reparent_from : ℕ → ℕ → ℕ → ℕ → List Proc → List Proc
  reparent_from me init i zero procs = procs
  reparent_from me init i (suc n) procs =
      reparent_from me init (i + 1) n (reparent_slot me init i procs)

  unfoldable pub reparent : ℕ → ℕ → List Proc → List Proc
  reparent me init procs = reparent_from me init 0 (length procs) procs

  -- p->ofile[fd] = 0
  abbrev pub clear_fd : ℕ → ℕ → Option (Sys State) → Option (Sys State)
  clear_fd me fd none = none
  clear_fd me fd (some sys) =
      let p = proc_at sys.procs me in
      some (record sys { procs = set sys.procs me (record p { ofile = set p.ofile fd none }) })

  -- What fileclose() does after the table of files.
  unfoldable pub released : Sys State → Option (Release × List File) → Option (Sys State)
  released sys none = none
  released sys (some (nothing, files)) = some (record sys { files = files })
  released sys (some (close_pipe pi writable, files)) =
      release (close_pipe pi writable) (record sys { files = files })
  released sys (some (put_inode ip, files)) = release (put_inode ip) (record sys { files = files })

  -- if(p->ofile[fd]){ fileclose(f); p->ofile[fd] = 0; }
  unfoldable pub close_fd : ℕ → ℕ → Sys State → Option ℕ → Option (Sys State)
  close_fd me fd sys none = some sys
  close_fd me fd sys (some f) = clear_fd me fd (released sys (fileclose sys.files f))

  -- The n rounds of the loop of kexit() from fd on.
  unfoldable pub close_fds : ℕ → ℕ → ℕ → Option (Sys State) → Option (Sys State)
  close_fds me fd n none = none
  close_fds me fd zero (some sys) = some sys
  close_fds me fd (suc n) (some sys) =
      close_fds me (fd + 1) n (close_fd me fd sys (get_or (proc_at sys.procs me).ofile fd none))

  -- begin_op(); iput(p->cwd); end_op(); where iput() faults on a null pointer.
  unfoldable pub put_dir : Sys State → Option ℕ → Option (Sys State)
  put_dir sys none = none
  put_dir sys (some ip) = put_cwd ip sys

  unfoldable pub put_dir_of : ℕ → Option (Sys State) → Option (Sys State)
  put_dir_of me none = none
  put_dir_of me (some sys) = put_dir sys (proc_at sys.procs me).cwd

  -- What kexit() does up to end_op(). NOFILE is 16.
  unfoldable pub exit_files : ℕ → Sys State → Option (Sys State)
  exit_files me sys = put_dir_of me (close_fds me 0 16 (some sys))

  -- wakeup(p->parent)
  unfoldable pub wake_parent : ℕ → Option ℕ → List Proc → List Proc
  wake_parent me none procs = procs
  wake_parent me (some q) procs = wakeup me (proc_chan q) 0 procs

  -- From `p->cwd = 0` up to sched(), from which it does not return.
  unfoldable pub exit_closed : ℕ → ℕ → ℤ → Sys State → Sys State
  exit_closed me init status sys =
      let p = proc_at sys.procs me in
      let gone = set sys.procs me (record p { cwd = none }) in
      let woken = wake_parent me p.parent (reparent me init gone) in
      record sys { procs = set woken me (turn_zombie status (proc_at woken me)) }

  unfoldable pub exit_with : ℕ → ℕ → ℤ → Option (Sys State) → Option (Sys State)
  exit_with me init status none = none
  exit_with me init status (some sys) = some (exit_closed me init status sys)

  unfoldable pub kexit : ℕ → ℕ → ℤ → Sys State → Option (Sys State)
  kexit me init status sys =
      if me == init then none else exit_with me init status (exit_files me sys)

  -- `copied` is false when addr is not 0 and copyout() of the exit status fails.
  unfoldable pub kwait : ℕ → Bool → Sys State → Wait × Sys State
  kwait me copied sys = elim (wait_scan me 0 sys.procs).1 [
    | some i ↦
        if copied then (reaped (proc_at sys.procs i).pid, freeproc vm i sys) else (wait_failed, sys)
    | none ↦
        let p = proc_at sys.procs me in
        if not (wait_scan me 0 sys.procs).0 || killed p
        then (wait_failed, sys)
        else (wait_asleep, record sys { procs = set sys.procs me (fall_asleep (proc_chan me) p) })
  ]
