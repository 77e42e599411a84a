-- ===== src/Tests/Life.antt =====
-- Runs of the process calls.
use liberal_os.Prelude.{
  ℕ, ◌+◌, ◌*◌, ◌≡◌, refl, inr, true, Option, none, some, List, [], ◌∷◌, arith, pos, set, replicate,
}
use liberal_os.Proc.Life.Calls.Fork.{Forked, kfork-Forked}
use liberal_os.Proc.Life.Calls.Exit.{kexit-Exited, Exited}
use liberal_os.Proc.Life.{no_proc}
use liberal_os.Proc.{ProcState, Proc}
use liberal_os.Proc.Life.Calls.{
  exit_files, close_fds, close_fd, released, put_dir, put_dir_of, kfork, dup_all, Inodes, Sys,
  kexit,
}
use liberal_os.File.{File, FileType, fileclose, filedup, release_at, release_of, clear_file}
use liberal_os.Vm.{Vm}

-- Pages are counted, page tables are numbered by their trapframe.
abbrev counter : Vm
counter = record {
  State = ℕ;
  kalloc = λ s. (some (s * 4096), s + 1);
  kfree = λ pa s. s;
  proc_pagetable = λ pa s. (some (pa + 1), s);
  proc_freepagetable = λ pt sz s. s;
  uvmcopy = λ from to sz s. (true, s);
  uvmalloc = λ pt old new s. (some new, s);
  uvmdealloc = λ pt old new s. s;
  uvmalloc_size = λ pt old new s h. inr refl;
}

abbrev no_inodes : Inodes ℕ
no_inodes = record {
  idup = λ ip s. s;
  put_cwd = λ ip sys. some (record sys { world = sys.world + 1 });
  release = λ r sys. some (record sys { world = sys.world + 10 });
}

abbrev chan_of : ℕ → ℕ
chan_of i = 1000 + i

abbrev running_proc : ℕ → Option ℕ → Proc
running_proc pid parent = record no_proc {
  state = ProcState.runnable;
  pid = pid;
  parent = parent;
  name = replicate 16 0;
  agent_role = replicate 16 0;
  ofile = some 0 ∷ none ∷ [];
  cwd = some 3;
}

-- Three processes hold the file 0, one the file 1.
abbrev shared_file : File
shared_file = record {
  type = FileType.fd_inode;
  ref = 3;
  readable = true;
  writable = true;
  pipe = 0;
  ip = 2;
  off = 0;
  major = 0;
}

abbrev pipe_end : File
pipe_end = record shared_file { type = FileType.fd_pipe; ref = 1; pipe = 4 }

abbrev leaving : Proc
leaving = record (running_proc 2 (some 0)) { ofile = some 0 ∷ some 1 ∷ [] }

-- init, a process whose parent init sleeps in kwait(), its child, and a free slot.
abbrev family : Sys ℕ
family = record {
  procs =
      record (running_proc 1 none) { state = ProcState.sleeping; chan = 1000 }
      ∷ leaving
      ∷ running_proc 3 (some 1)
      ∷ record no_proc {
        name = replicate 16 0;
        agent_role = replicate 16 0;
        ofile = none ∷ none ∷ [];
      }
      ∷ [];
  nextpid = 4;
  files = shared_file ∷ pipe_end ∷ [];
  world = 7;
}

-- With the files of the process closed and its working directory put.
abbrev closed : Sys ℕ
closed = record family {
  procs = set family.procs 1 (record leaving { ofile = none ∷ none ∷ [] });
  files =
      record shared_file { ref = 2 } ∷ record pipe_end { ref = 0; type = FileType.fd_none } ∷ [];
  world = 18;
}

family_closes : exit_files counter no_inodes chan_of 1 family ≡ some closed
unfolding exit_files close_fds close_fd released put_dir put_dir_of fileclose release_at release_of
    clear_file
family_closes = refl

kexit-Exited_example :
    Exited counter no_inodes chan_of 1
      (pos 5)
      closed
      (kexit counter no_inodes chan_of 1 0 (pos 5) family)
kexit-Exited_example =
    kexit-Exited counter no_inodes chan_of 1 0 (pos 5) family closed (λ e. absurd (omega arith))
      family_closes (omega arith)

-- The caller holds both files.
abbrev shared : List File
shared = record shared_file { ref = 4 } ∷ record pipe_end { ref = 2 } ∷ []

family_shares : dup_all (some 0 ∷ some 1 ∷ []) (some family.files) ≡ some shared
unfolding dup_all filedup
family_shares = refl

kfork-Forked_example : Forked 1 3 family (kfork counter no_inodes chan_of 1 family)
kfork-Forked_example =
    kfork-Forked counter no_inodes chan_of 1 3 3 family shared (λ e. absurd (omega arith))
      (refl, (refl, (refl, refl))) family_shares refl
