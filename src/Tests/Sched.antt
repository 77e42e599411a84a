-- ===== src/Tests/Sched.antt =====
-- Runs of the scheduler.
use liberal_os.Prelude.{◌≡◌, refl, false, none, some, List, [], ◌∷◌, pos, negsuc}
use liberal_os.Proc.{Proc, runnable, sleeping}
use liberal_os.Proc.Sched.{pick}
use liberal_os.Proc.Sched.Laws.{IsTop, pick-IsTop}

abbrev blank : Proc
blank = record {
  state = runnable;
  chan = 0;
  killed = false;
  xstate = pos 0;
  pid = 1;
  parent = none;
  sz = 4096;
  pagetable = some 1;
  trapframe = some 2;
  ofile = [];
  cwd = none;
  name = [];
  agent_role = [];
  priority = pos 0;
  agent_state = pos 0;
  mem_quota = pos 0;
  quota_denied = 0;
}

-- One below the default, then two of the same, then a sleeper of a high priority.
abbrev table : List Proc
table =
    record blank { priority = negsuc 4 }
    ∷ record blank { pid = 2 }
    ∷ record blank { pid = 3 }
    ∷ record blank { pid = 4; state = sleeping; priority = pos 9 }
    ∷ []

pick_runs : pick table table table ≡ some 1
unfolding pick
pick_runs = refl

pick_negative :
    pick (record blank { priority = negsuc 4 } ∷ []) (record blank { priority = negsuc 4 } ∷ []) []
    ≡ some 0
unfolding pick
pick_negative = refl

pick-IsTop_example : IsTop table 1
unfolding pick
pick-IsTop_example = pick-IsTop table 1 refl

abbrev asleep : List Proc
asleep = record blank { state = sleeping } ∷ []
