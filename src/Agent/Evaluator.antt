-- ===== src/Agent/Evaluator.antt =====
-- user/evaluator.c: the loop that proposes a fix, has the kernel verify it, and amends it by the
-- verdict. The kernel's verdict on a proposal is a function; what proxy_call() answers for each
-- attempt is a list, at whose end it fails; the checkpoint slot of the process holds a proposal or
-- nothing.
pub mod Converges
pub mod Amends
use liberal_os.Prelude.{
  ℕ, zero, suc, ◌+◌, ◌-◌, ◌*◌, ◌/◌, ◌%◌, ◌^◌, ◌≤◌, ◌<◌, min, ◌≡◌, refl, sym, ap, ap₂, ◌∙◌, subst,
  ◌≢◌, ◌↔◌, ◌⊎◌, inl, inr, Bool, true, false, not, ◌&&◌, ◌||◌, Option, none, some, List, [], ◌∷◌,
  ◌++◌, arith, ltb, leb, ◌==◌, if◌then◌else◌, ==_iff, ==-refl, ==-false, Bool-cases, Option-cases,
  ℤ, pos, negsuc, sub_ℕ, ◌≤ℤ◌, ◌<ℤ◌, ltb_ℤ, leb_ℤ, eqb_ℤ, eqb_ℤ_iff, length, get_elem?, get_or, set,
  take, drop, replicate, length-append, length-set, length-take, length-replicate,
  get_elem?-set_self, get_elem?-set_ne, get_or-set_self, get_or-set_ne, take-length, lt_of_le_ne,
}
use liberal_os.Agent.Stage.{emit}
use liberal_os.Verifier.{
  err_field, err_protected, err_action, err_range, report, requeue, verify_ok, FixProposal, codes,
}
use liberal_os.Agent.Proxy.{newline, append_str, starts_with}
use liberal_os.CString.{head, tail}

-- MAX_RETRIES
abbrev pub max_retries : ℕ
max_retries = 3

-- dst[i] = src[i] for at most `left` = max - 1 bytes, and a terminator
unfoldable pub strcopy : List ℕ → List ℕ → ℕ → List ℕ
strcopy [] src left = []
strcopy (d ∷ dst) src zero = 0 ∷ dst
strcopy (d ∷ dst) src (suc left) =
    let rest = head src ∷ strcopy dst (tail src) left in if head src == 0 then 0 ∷ dst else rest

-- "ERROR" at some place of the text.
unfoldable pub quality_bad : List ℕ → Bool
quality_bad [] = false
quality_bad (c ∷ s) =
    let rest = quality_bad s in
    if c == 0 then false else if starts_with (c ∷ s) (codes "ERROR") then true else rest

abbrev pub zeros : List ℕ
zeros = replicate 16 0

-- strcopy(dst, "...", 16) on a field.
unfoldable pub named : List ℕ → List ℕ → List ℕ
unfolding strcopy
named dst name = strcopy dst name 15

unfoldable pub build_default_proposal : FixProposal
build_default_proposal = record {
  role = named zeros (codes "fixsuggest");
  target = named zeros (codes "parser");
  action = report;
  severity = pos 0;
  retry_hint = pos 0;
}

unfoldable pub build_proposal : List ℕ → FixProposal
build_proposal resp = record {
  role = named zeros (codes "fixsuggest");
  target = named zeros (codes "parser");
  action = requeue;
  severity = if quality_bad resp then pos 9 else pos 2;
  retry_hint = pos 0;
}

unfoldable pub clamp : ℤ → ℤ
clamp severity =
    let low = if ltb_ℤ severity (pos 0) then pos 0 else severity in
    if ltb_ℤ (pos 3) low then pos 3 else low

unfoldable pub amend_from_verdict : FixProposal → FixProposal → ℤ → FixProposal
unfolding clamp
amend_from_verdict p base rc =
    if eqb_ℤ rc err_range
    then record p {
      severity = clamp p.severity;
      retry_hint = if ltb_ℤ p.retry_hint (pos 0) then pos 0 else p.retry_hint;
    }
    else if eqb_ℤ rc err_action
    then record p { action = requeue }
    else if eqb_ℤ rc err_protected
    then record p { action = report; target = named p.target base.target }
    else if eqb_ℤ rc err_field
    then record p { role = named p.role base.role; target = named p.target base.target }
    else base

pub record Eval : Type 0 where
  pub prop : FixProposal
  pub base : FixProposal
  -- what the checkpoint slot holds for this process
  pub saved : Option FixProposal
  pub last_resp : List ℕ
  pub printed : List (List ℕ)

-- How the attempts at a line end.
pub data Attempts : Type 0 where
  accepted rejected stopped : Attempts

unfoldable pub or_base : FixProposal → Option FixProposal → FixProposal
or_base base none = base
or_base base (some p) = p

-- After a verdict other than VERIFY_OK.
unfoldable pub roll_back : List ℕ → ℤ × List ℕ → Eval → Eval
unfolding or_base emit amend_from_verdict
roll_back line (rc, reason) e =
    let base = or_base e.base e.saved in
    record e {
      base = base;
      prop = amend_from_verdict e.prop base rc;
      printed =
          e.printed
          ++ (emit (codes "EVAL_VERIFY_FAIL ") reason
              ∷ emit (codes "EVAL_ROLLBACK ") line
              ∷ emit (codes "EVAL_RETRY ") line
              ∷ []);
    }

unfoldable pub accept_proposal : List ℕ → Eval → Eval
unfolding emit
accept_proposal line e = record e {
  saved = some e.prop;
  printed = e.printed ++ (emit (codes "EVAL_ACCEPT ") line ∷ []);
}

-- The proposal that an attempt submits: the first one is built from the response.
unfoldable pub candidate : Bool → List ℕ → Eval → Eval
candidate first resp e = record e {
  last_resp = strcopy e.last_resp resp 255;
  prop = if first then build_proposal resp else e.prop;
}

module _ (verify : FixProposal → ℤ × List ℕ) where
  -- The attempts that are left for a line.
  unfoldable pub attempts : ℕ → Bool → List ℕ → List (List ℕ) → Eval → Attempts × Eval
  attempts zero first line answers e = (rejected, e)
  attempts (suc n) first line [] e = (stopped, e)
  attempts (suc n) first line (resp ∷ answers) e =
      let e' = candidate first resp e in
      let rest = attempts n false line answers (roll_back line (verify e'.prop) e') in
      if eqb_ℤ (verify e'.prop).0 verify_ok then (accepted, accept_proposal line e') else rest

  unfoldable pub report_line : List ℕ → Attempts × Eval → Bool × Eval
  report_line line (accepted, e) =
      (true, record e { printed = e.printed ++ (emit (codes "evaluator:OK:") e.last_resp ∷ []) })
  report_line line (rejected, e) =
      (true, record e { printed = e.printed ++ (emit (codes "evaluator:FAIL:") line ∷ []) })
  report_line line (stopped, e) = (false, e)

  -- The body of the loop over the lines; false is `goto done`.
  unfoldable pub evaluate : List ℕ → List (List ℕ) → Eval → Bool × Eval
  evaluate line answers e =
      report_line line
        (attempts max_retries true line answers (record e { last_resp = set e.last_resp 0 0 }))
