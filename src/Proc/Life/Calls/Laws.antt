-- ===== src/Proc/Life/Calls/Laws.antt =====
-- What the calls on the process table leave in it.
use liberal_os.Prelude.{
  ℕ, ◌+◌, ◌<◌, ◌≡◌, refl, ap, ◌∙◌, ◌≢◌, true, Option, none, some, List, arith, pos, length, set,
  length-set, get_or-set_self, get_or-set_ne,
}
use liberal_os.Proc.Life.Kill.{
  kkill_unused, PidsMatch, FirstUnused, find_unused-FirstUnused, FirstUnused-inside,
}
use liberal_os.Proc.Life.Kill.{find_unused-FirstUnused, FirstUnused-inside, FirstUnused}
use liberal_os.Proc.Life.{kill_proc, kkill, find_unused, no_proc, freed_proc, fresh_proc, proc_at}
use liberal_os.Vm.{Vm}
use liberal_os.Proc.Life.Calls.{found, allocproc, freeproc, with_frame, with_table, Sys}
use liberal_os.Proc.{ProcState, Proc}

-- The slots of a table of 64 agree off slot i.
abbrev pub Others : List Proc → List Proc → ℕ → Type 0
Others ps qs i = (j : ℕ) → i ≢ j → proc_at qs j ≡ proc_at ps j

-- The slot i is set up for a new process, and no other slot is touched.
pub record IsAllocated {S : Type 0} (i : ℕ) (sys sys' : Sys S) : Type 0 where
  pub frame : ℕ
  pub table : ℕ
  pub slot : proc_at sys'.procs i ≡ record (fresh_proc sys.nextpid (proc_at sys.procs i)) {
    trapframe = some frame;
    pagetable = some table;
  }
  pub others : Others sys.procs sys'.procs i
  pub next : sys'.nextpid ≡ sys.nextpid + 1
  pub files : sys'.files ≡ sys.files
  pub inside : i < length sys'.procs

-- The slot i is UNUSED, and no other slot is touched.
pub record IsFreed {S : Type 0} (i : ℕ) (sys sys' : Sys S) : Type 0 where
  pub slot : (proc_at sys'.procs i).state ≡ ProcState.unused
  pub others : Others sys.procs sys'.procs i
  pub files : sys'.files ≡ sys.files

abbrev pub AllocResult : {S : Type 0} → ℕ → Sys S → Option ℕ × Sys S → Type 0
AllocResult i sys (none, sys') = IsFreed i sys sys'
AllocResult i sys (some j, sys') = (j ≡ i) × IsAllocated i sys sys'

from_first : (ps : List Proc) (i : ℕ) → FirstUnused ps i → find_unused ps 0 ≡ some i
from_first ps i h = find_unused-FirstUnused ps i 0 h ∙ ap some (omega arith)

-- A process that is allocated is killed before it runs.
abbrev pub BornKilled : {S : Type 0} → Option ℕ × Sys S → Type 0
BornKilled (none, sys) = true ≡ true
BornKilled (some i, sys) = (proc_at sys.procs i).killed ≡ true

module _ (vm : Vm) where
  pub freeproc-IsFreed :
      (i : ℕ) (sys : Sys (vm.State)) → i < length sys.procs → IsFreed i sys (freeproc vm i sys)
  unfolding freeproc freed_proc
  freeproc-IsFreed i sys h = record {
    slot =
        ap (λ p. p.state)
          (get_or-set_self sys.procs i (freed_proc (proc_at sys.procs i)) no_proc h);
    others = λ j n. get_or-set_ne sys.procs i j (freed_proc (proc_at sys.procs i)) no_proc n;
    files = refl;
  }

  alloc_table :
      (i : ℕ) (sys mid : Sys (vm.State)) (fr : ℕ) (q : Option ℕ × vm.State)
      → i < length mid.procs
      → Others sys.procs mid.procs i
      → proc_at mid.procs i
        ≡ record (fresh_proc sys.nextpid (proc_at sys.procs i)) { trapframe = some fr }
      → mid.nextpid ≡ sys.nextpid + 1
      → mid.files ≡ sys.files
      → AllocResult i sys (with_table vm i mid q)
  unfolding with_table
  alloc_table i sys mid fr (none, w) h o e n f =
      let freed = freeproc-IsFreed i (record mid { world = w }) h in
      record {
        slot = freed.slot;
        others = λ j ne. freed.others j ne ∙ o j ne;
        files = freed.files ∙ f;
      }
  alloc_table i sys mid fr (some pt, w) h o e n f = (
    refl,
    record {
      frame = fr;
      table = pt;
      slot =
          get_or-set_self mid.procs i (record (proc_at mid.procs i) { pagetable = some pt }) no_proc
            h
          ∙ ap (λ (p : Proc). record p { pagetable = some pt }) e;
      others = λ j ne.
          get_or-set_ne mid.procs i j (record (proc_at mid.procs i) { pagetable = some pt }) no_proc
            ne
          ∙ o j ne;
      next = n;
      files = f;
      inside = rw (length-set mid.procs i (record (proc_at mid.procs i) { pagetable = some pt })) h;
    },
  )

  alloc_frame :
      (i : ℕ) (sys mid : Sys (vm.State)) (q : Option ℕ × vm.State)
      → i < length mid.procs
      → Others sys.procs mid.procs i
      → proc_at mid.procs i ≡ fresh_proc sys.nextpid (proc_at sys.procs i)
      → mid.nextpid ≡ sys.nextpid + 1
      → mid.files ≡ sys.files
      → AllocResult i sys (with_frame vm i mid q)
  unfolding with_frame
  alloc_frame i sys mid (none, w) h o e n f =
      let freed = freeproc-IsFreed i (record mid { world = w }) h in
      record {
        slot = freed.slot;
        others = λ j ne. freed.others j ne ∙ o j ne;
        files = freed.files ∙ f;
      }
  alloc_frame i sys mid (some fr, w) h o e n f =
      let framed = record (proc_at mid.procs i) { trapframe = some fr } in
      alloc_table i sys (record mid { procs = set mid.procs i framed }) fr (vm.proc_pagetable fr w)
        (rw (length-set mid.procs i framed) h)
        (λ j ne. get_or-set_ne mid.procs i j framed no_proc ne ∙ o j ne)
        (get_or-set_self mid.procs i framed no_proc h
          ∙ ap (λ (p : Proc). record p { trapframe = some fr }) e)
        n f

  -- allocproc() sets up the first UNUSED slot with the next pid, the role "none", no quota and
  -- default ranks, or leaves it UNUSED when memory is short; it changes no other slot.
  pub allocproc-AllocResult :
      (i : ℕ) (sys : Sys (vm.State))
      → FirstUnused sys.procs i
      → AllocResult i sys (allocproc vm sys)
  unfolding allocproc found
  allocproc-AllocResult i sys h =
      let inside = FirstUnused-inside sys.procs i h in
      let fresh = fresh_proc sys.nextpid (proc_at sys.procs i) in
      rw (from_first sys.procs i h) (
        alloc_frame i sys (record sys { procs = set sys.procs i fresh; nextpid = sys.nextpid + 1 })
          (vm.kalloc sys.world) (rw (length-set sys.procs i fresh) inside)
          (λ j ne. get_or-set_ne sys.procs i j fresh no_proc ne)
          (get_or-set_self sys.procs i fresh no_proc inside) refl refl)

  born :
      (i : ℕ) (sys : Sys (vm.State)) (r : Option ℕ × Sys (vm.State))
      → (proc_at sys.procs i).killed ≡ true
      → AllocResult i sys r
      → BornKilled r
  unfolding fresh_proc
  born i sys (none, s) k a = refl
  born i sys (some j, s) k a = rw (a.0, a.1.slot) k

  -- When exactly the UNUSED slots have the pid 0, kill(0) answers 0 and marks the first UNUSED slot
  -- as killed; allocproc() keeps the mark, so the process that gets the slot is killed from birth.
  pub kkill-BornKilled :
      (i : ℕ) (sys : Sys (vm.State))
      → PidsMatch sys.procs
      → FirstUnused sys.procs i
      → ((kkill sys.procs (pos 0)).0 ≡ pos 0)
        × BornKilled (allocproc vm (record sys { procs = (kkill sys.procs (pos 0)).1 }))
  unfolding kill_proc
  kkill-BornKilled i sys m h =
      let marked = kill_proc (proc_at sys.procs i) in
      let run = kkill_unused sys.procs i m h in
      let is_killed : (proc_at (set sys.procs i marked) i).killed ≡ true =
        ap (λ (p : Proc). p.killed)
          (get_or-set_self sys.procs i marked no_proc (FirstUnused-inside sys.procs i h)) in
      rw (run.0) (
        refl,
        born i (record sys { procs = set sys.procs i marked })
            (allocproc vm (record sys { procs = set sys.procs i marked })) is_killed
            (allocproc-AllocResult i (record sys { procs = set sys.procs i marked }) run.1),
      )
