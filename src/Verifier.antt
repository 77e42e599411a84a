-- ===== src/Verifier.antt =====
-- kernel/verifier.h and kernel/verifier.c: the check of a proposed fix. A text field is the list of
-- its bytes; a pointer that may be null is an option.
pub mod Laws
use liberal_os.Prelude.{
  ℕ, zero, suc, ◌+◌, Bool, true, false, not, ◌&&◌, ◌||◌, ltb, leb, ◌==◌, if◌then◌else◌, List, [],
  ◌∷◌, Option, none, some, ℤ, pos, negsuc, ltb_ℤ, eqb_ℤ,
}
use Prim.Native.String.{String}
use Prim.Native.Char.{code}
use liberal_os.CString.{head, tail, strncmp, safestrcpy}

abbrev pub codes : String → List ℕ
codes String.[] = []
codes (String.◌∷◌ c s) = code c ∷ codes s

-- FIX_ROLE_LEN and FIX_TARGET_LEN
abbrev pub role_len : ℕ
role_len = 16

abbrev pub target_len : ℕ
target_len = 16

-- FIX_ACTION_*
abbrev pub report : ℤ
report = pos 0

abbrev pub annotate : ℤ
annotate = pos 1

abbrev pub requeue : ℤ
requeue = pos 2

-- VERIFY_OK and VERIFY_ERR_*
abbrev pub verify_ok : ℤ
verify_ok = pos 0

abbrev pub err_field : ℤ
err_field = negsuc 0

abbrev pub err_range : ℤ
err_range = negsuc 1

abbrev pub err_protected : ℤ
err_protected = negsuc 2

abbrev pub err_action : ℤ
err_action = negsuc 3

pub record FixProposal : Type 0 where
  pub role : List ℕ
  pub target : List ℕ
  pub action : ℤ
  pub severity : ℤ
  pub retry_hint : ℤ

pub record SysSnapshot : Type 0 where
  pub target_pid : ℤ
  pub target_protected : Bool
  pub nproc : ℕ

abbrev pub protected_roles : List (List ℕ)
protected_roles = codes "init" ∷ codes "sh" ∷ codes "evaluator" ∷ []

unfoldable pub is_destructive : ℤ → Bool
is_destructive action =
    not (eqb_ℤ action report) && (not (eqb_ℤ action annotate) && not (eqb_ℤ action requeue))

unfoldable pub is_allowed : ℤ → Bool
is_allowed action = eqb_ℤ action report || (eqb_ℤ action annotate || eqb_ℤ action requeue)

-- while (n < max && f[n] != '\0') n++; with `left` = max - n rounds to go
unfoldable pub field_scan : List ℕ → ℕ → ℕ → ℕ
field_scan f zero n = n
field_scan f (suc left) n =
    let rest = field_scan (tail f) left (n + 1) in if head f == 0 then n else rest

unfoldable pub field_ok : List ℕ → ℕ → Bool
unfolding field_scan
field_ok f max = let n = field_scan f max 0 in leb 1 n && ltb n max

unfoldable pub names_any : List ℕ → List (List ℕ) → Bool
names_any target [] = false
names_any target (r ∷ rs) = eqb_ℤ (strncmp target r target_len) (pos 0) || names_any target rs

unfoldable pub snapshot_protects : Option SysSnapshot → Bool
snapshot_protects none = false
snapshot_protects (some s) = s.target_protected

unfoldable pub target_is_protected : FixProposal → Option SysSnapshot → Bool
unfolding names_any snapshot_protects
target_is_protected p s = if names_any p.target protected_roles then true else snapshot_protects s

unfoldable pub set_reason : Option (List ℕ) → ℤ → List ℕ → Option (List ℕ)
set_reason none rlen msg = none
set_reason (some reason) rlen msg =
    if ltb_ℤ (pos 0) rlen then some (safestrcpy reason msg rlen) else some reason

-- The checks on a proposal that is there, in the order of the code: the code and the message.
unfoldable pub check_proposal : FixProposal → Option SysSnapshot → ℤ × List ℕ
check_proposal p s =
    if not (field_ok p.role role_len)
    then (err_field, codes "role field missing or oversized")
    else if not (field_ok p.target target_len)
    then (err_field, codes "target field missing or oversized")
    else if ltb_ℤ p.severity (pos 0) || ltb_ℤ (pos 3) p.severity
    then (err_range, codes "severity out of range [0,3]")
    else if ltb_ℤ p.retry_hint (pos 0)
    then (err_range, codes "retry_hint negative")
    else if is_destructive p.action && target_is_protected p s
    then (err_protected, codes "destructive action on protected target")
    else if not (is_allowed p.action)
    then (err_action, codes "action not on whitelist")
    else (verify_ok, codes "ok")

-- The result and the reason buffer.
unfoldable pub verify_fix :
    Option FixProposal → Option SysSnapshot → Option (List ℕ) → ℤ → ℤ × Option (List ℕ)
unfolding check_proposal set_reason
verify_fix none s reason rlen = (err_field, set_reason reason rlen (codes "null proposal"))
verify_fix (some p) s reason rlen =
    let (rc, msg) = check_proposal p s in (rc, set_reason reason rlen msg)
