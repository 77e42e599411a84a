-- ===== src/Syscall.antt =====
-- Calls of kernel/sysproc.c: checkpoints of an agent's state, its role, the check of a fix.
pub mod Rollback
pub mod Agent
pub mod Responses
use liberal_os.Prelude.{
  ℕ, zero, suc, ◌+◌, ◌-◌, ◌*◌, ◌/◌, ◌%◌, ◌^◌, ◌≤◌, ◌<◌, min, ◌≡◌, refl, sym, ap, ap₂, ◌∙◌, subst,
  ◌≢◌, ◌↔◌, ◌⊎◌, inl, inr, Bool, true, false, not, ◌&&◌, ◌||◌, Option, none, some, List, [], ◌∷◌,
  ◌++◌, arith, ltb, leb, ◌==◌, if◌then◌else◌, ==_iff, ==-refl, ==-false, Bool-cases, Option-cases,
  ℤ, pos, negsuc, sub_ℕ, ◌≤ℤ◌, ◌<ℤ◌, ltb_ℤ, leb_ℤ, eqb_ℤ, eqb_ℤ_iff, length, get_elem?, get_or, set,
  take, drop, replicate, length-append, length-set, length-take, length-replicate,
  get_elem?-set_self, get_elem?-set_ne, get_or-set_self, get_or-set_ne, take-length, lt_of_le_ne,
}
use Prim.Native.String.{String}
use liberal_os.CString.{safestrcpy, strlen, strncmp}
use liberal_os.Verifier.{codes, verify_fix, target_len, SysSnapshot, FixProposal}
use liberal_os.Proc.{is_unused, Proc}

-- The user memory of the calling process, of kernel/vm.c: copyin() gives the bytes or none for a
-- fault, copyout() whether it succeeded and the memory after it, which a copy that failed on a later
-- page has changed as well.
pub record UserMem : Type 1 where
  pub State : Type 0
  pub copyin : ℕ → ℕ → State → Option (List ℕ)
  pub copyout : ℕ → List ℕ → State → Bool × State
  -- copyinstr(): the buffer, with its terminator, of a string shorter than the bound
  pub copyinstr : ℕ → ℕ → State → Option (List ℕ)
  -- copyin() fills the length that is asked for
  pub length-copyin :
      (src n : ℕ) (u : State) (bytes : List ℕ) → copyin src n u ≡ some bytes → length bytes ≡ n

-- CKPT_MAX
abbrev pub ckpt_max : ℕ
ckpt_max = 256

pub record Ckpt : Type 0 where
  pub len : ℕ
  pub owner : ℕ
  pub buf : List ℕ

-- proxyinit()
unfoldable pub ckpt_init : Ckpt → Ckpt
ckpt_init c = record c { len = 0 }

unfoldable pub to_nat : ℤ → ℕ
to_nat (pos n) = n
to_nat (negsuc n) = 0

-- memmove(dst, src, n) between two buffers.
unfoldable pub overwrite : ℕ → List ℕ → List ℕ → List ℕ
overwrite zero src dst = dst
overwrite (suc n) [] dst = dst
overwrite (suc n) (s ∷ ss) [] = []
overwrite (suc n) (s ∷ ss) (d ∷ ds) = s ∷ overwrite n ss ds

-- p->target and the other strings of the kernel's buffers are arrays of 16 bytes.
unfoldable pub matches : Proc → FixProposal → Bool
matches pp p =
    eqb_ℤ (strncmp pp.name p.target target_len) (pos 0)
    || eqb_ℤ (strncmp pp.agent_role p.target target_len) (pos 0)

abbrev pub c_string : String → List ℕ
c_string s = codes s ++ (0 ∷ [])

unfoldable pub is_protected : Proc → Bool
is_protected pp =
    eqb_ℤ (strncmp pp.name (c_string "init") 16) (pos 0)
    || eqb_ℤ (strncmp pp.name (c_string "sh") 16) (pos 0)
    || eqb_ℤ (strncmp pp.agent_role (c_string "evaluator") 16) (pos 0)

-- The body of the loop of fill_snapshot().
unfoldable pub snapshot_step : FixProposal → Proc → SysSnapshot → SysSnapshot
snapshot_step p pp s =
    if is_unused pp.state
    then s
    else if matches pp p
    then record s {
      target_pid = pos pp.pid;
      target_protected = if is_protected pp then true else s.target_protected;
      nproc = s.nproc + 1;
    }
    else record s { nproc = s.nproc + 1 }

unfoldable pub snapshot_from : FixProposal → List Proc → SysSnapshot → SysSnapshot
snapshot_from p [] s = s
snapshot_from p (pp ∷ ps) s = snapshot_from p ps (snapshot_step p pp s)

unfoldable pub fill_snapshot : FixProposal → List Proc → SysSnapshot
fill_snapshot p procs =
    snapshot_from p procs (record { target_pid = negsuc 0; target_protected = false; nproc = 0 })

-- A little-endian C int.
unfoldable pub int32 : List ℕ → ℤ
int32 b =
    let v = get_or b 0 0 + 256 * get_or b 1 0 + 65536 * get_or b 2 0 + 16777216 * get_or b 3 0 in
    if ltb v (2 ^ 31) then pos v else sub_ℕ v (2 ^ 32)

-- The struct fix_proposal in 44 bytes.
unfoldable pub decode : List ℕ → FixProposal
unfolding int32
decode b = record {
  role = take 16 b;
  target = take 16 (drop 16 b);
  action = int32 (drop 32 b);
  severity = int32 (drop 36 b);
  retry_hint = int32 (drop 40 b);
}

-- `reason` as the kernel's stack holds it before the call.
unfoldable pub or_old : List ℕ → Option (List ℕ) → List ℕ
or_old old none = old
or_old old (some new) = new

module _ (mem : UserMem) where
  open mem use {State, copyin, copyout, copyinstr}

  unfoldable pub save : ℕ → ℕ → Ckpt → Option (List ℕ) → ℤ × Ckpt
  save pid n c none = (negsuc 0, c)
  save pid n c (some tmp) = (pos n, record { len = n; owner = pid; buf = overwrite n tmp c.buf })

  unfoldable pub sys_checkpoint : ℕ → ℕ → ℤ → Ckpt → State → ℤ × Ckpt
  sys_checkpoint pid src (negsuc n) c u = (negsuc 0, c)
  sys_checkpoint pid src (pos n) c u =
      if ltb ckpt_max n
      then (negsuc 0, c)
      else save pid n c (if n == 0 then some [] else copyin src n u)

  unfoldable pub restored : ℕ → Bool × State → ℤ × State
  restored n (copied, u) = (if copied then pos n else negsuc 0, u)

  unfoldable pub sys_restore : ℕ → ℕ → ℤ → Ckpt → State → ℤ × State
  sys_restore pid dst (negsuc m) c u = (negsuc 0, u)
  sys_restore pid dst (pos m) c u =
      let stored = if c.owner == pid then c.len else 0 in
      let n = if ltb m stored then m else stored in
      if n == 0 then (pos 0, u) else restored n (copyout dst (take n c.buf) u)

  -- The answer of argstr() is strlen() of the buffer.
  unfoldable pub role_set : Proc → Option (List ℕ) → ℤ × Proc
  role_set p none = (negsuc 0, p)
  role_set p (some buf) =
      if leb (strlen buf) 1
      then (negsuc 0, p)
      else (pos 0, record p { agent_role = safestrcpy p.agent_role buf (pos 16) })

  unfoldable pub sys_setrole : Proc → ℕ → State → ℤ × Proc
  sys_setrole p addr u = role_set p (copyinstr addr 16 u)

  unfoldable pub verdict_out : ℤ → Bool × State → ℤ × State
  verdict_out rc (copied, u) = (if copied then rc else negsuc 99, u)

  -- rlen > 0 and raddr != 0 ask for the reason.
  unfoldable pub verified : List Proc → FixProposal → List ℕ → ℕ → ℤ → State → ℤ × State
  verified procs p stack raddr rlen u =
      let (rc, reason) = verify_fix (some p) (some (fill_snapshot p procs)) (some stack) (pos 64) in
      if not (raddr == 0) && ltb_ℤ (pos 0) rlen
      then (let n = if ltb_ℤ rlen (pos 64) then to_nat rlen else 64 in
          verdict_out rc (copyout raddr (take n (or_old stack reason)) u))
      else (rc, u)

  unfoldable pub with_proposal : List Proc → List ℕ → ℕ → ℤ → State → Option (List ℕ) → ℤ × State
  with_proposal procs stack raddr rlen u none = (negsuc 99, u)
  with_proposal procs stack raddr rlen u (some b) = verified procs (decode b) stack raddr rlen u

  -- `stack` is what the kernel's stack holds in reason[64].
  unfoldable pub sys_verifyfix : List Proc → List ℕ → ℕ → ℕ → ℤ → State → ℤ × State
  sys_verifyfix procs stack paddr raddr rlen u =
      with_proposal procs stack raddr rlen u (copyin paddr 44 u)
