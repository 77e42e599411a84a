-- ===== src/Tests/Syscall.antt =====
-- Runs of the calls of an agent.
use liberal_os.Prelude.{
  ℕ, ◌+◌, ◌-◌, min, ◌≡◌, refl, sym, ap, ◌∙◌, true, Option, none, some, List, [], ◌∷◌, arith, leb,
  pos, length, get_or, take, replicate, length-replicate,
}
use liberal_os.CString.{strncmp}
use liberal_os.Proc.Life.{no_proc}
use liberal_os.Verifier.{FixProposal}
use liberal_os.Proc.{ProcState, Proc}
use liberal_os.Syscall.Rollback.{sys_restore-sys_checkpoint}
use liberal_os.Syscall.{
  is_protected, matches, c_string, snapshot_step, snapshot_from, UserMem, Ckpt, sys_checkpoint,
  sys_restore, restored, fill_snapshot,
}

abbrev cases_of : Option (List ℕ) → List (List ℕ)
cases_of none = []
cases_of (some b) = b ∷ []

length-flat : (n : ℕ) (bytes : List ℕ) → some (replicate n 7) ≡ some bytes → length bytes ≡ n
length-flat n bytes e = sym (ap (λ o. length (get_or (cases_of o) 0 [])) e) ∙ length-replicate n 7

-- A memory that holds one byte everywhere, and the bytes copied out, of which those from address 901
-- on fault.
abbrev flat : UserMem
flat = record {
  State = List ℕ;
  copyin = λ src n u. some (replicate n 7);
  copyout = λ dst bytes u. (leb (dst + length bytes) 901, take (901 - dst) bytes);
  copyinstr = λ src n u. some (97 ∷ 98 ∷ 0 ∷ []);
  length-copyin = λ src n u bytes e. length-flat n bytes e;
}

abbrev slot : Ckpt
slot = record { len = 0; owner = 0; buf = replicate 256 0 }

sys_restore-sys_checkpoint_example :
    sys_restore flat 5 900 (pos 2) (sys_checkpoint flat 5 800 (pos 3) slot []).1 []
    ≡ restored flat (min 3 2) (flat.copyout 900 (take (min 3 2) (7 ∷ 7 ∷ 7 ∷ [])) [])
sys_restore-sys_checkpoint_example =
    sys_restore-sys_checkpoint flat 5 800 900 3 2 slot (7 ∷ 7 ∷ 7 ∷ []) [] [] (omega arith)
      (omega arith) (omega arith) refl refl

abbrev shell : Proc
shell = record no_proc {
  state = ProcState.running;
  pid = 2;
  name = c_string "sh";
  agent_role = c_string "none";
}

abbrev on_shell : FixProposal
on_shell = record {
  role = c_string "fixer";
  target = c_string "sh";
  action = pos 0;
  severity = pos 1;
  retry_hint = pos 0;
}

shell_marked : (fill_snapshot on_shell (no_proc ∷ shell ∷ [])).target_protected ≡ true
unfolding fill_snapshot snapshot_from snapshot_step matches is_protected strncmp
shell_marked = refl
