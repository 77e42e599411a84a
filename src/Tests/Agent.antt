-- ===== src/Tests/Agent.antt =====
-- Runs of the agent programs.
use liberal_os.Prelude.{
  ℕ, ◌-◌, ◌≤◌, ◌≡◌, refl, ◌≢◌, true, false, none, some, List, [], ◌∷◌, ◌++◌, arith, ◌==◌,
  if◌then◌else◌, pos, negsuc, length, take, replicate,
}
use liberal_os.Verifier.Laws.{check_proposal-ok_iff, IsAcceptable}
use liberal_os.Agent.Evaluator.Amends.{check_proposal-amend_from_verdict}
use liberal_os.Agent.Proxy.Requests.{request_lem, frame}
use liberal_os.Agent.Evaluator.Converges.{attempts_accepted, kernel}
use liberal_os.Agent.Stage.Replies.{stage-replies, replies, before_blank, lines_of}
use liberal_os.Agent.Evaluator.{
  accepted, strcopy, amend_from_verdict, named, Eval, attempts, build_default_proposal,
}
use liberal_os.CString.Laws.{text}
use liberal_os.Agent.Proxy.{
  parse_loop, starts_with, parse_int, payload_of, accept, digits, append_str, backwards, newline,
  recv, request, decimal, proxy_recv, readline,
}
use liberal_os.Agent.Proxy.Frames.{proxy_recv-response, response}
use liberal_os.Verifier.{is_allowed, is_destructive, field_ok, FixProposal, check_proposal, codes}
use liberal_os.Syscall.{UserMem}
use liberal_os.Cache.Api.{Cache}
use liberal_os.Agent.Stage.{stage, stage_loop, emit}

abbrev answer : List ℕ
answer = codes "disk full"

abbrev console : List ℕ
console = response 4 (codes "other") ++ (newline ∷ response 7 answer ++ (newline ∷ codes "$ "))

-- The frame of another process is skipped.
second_frame : proxy_recv (pos 3) 7 false 5 console ≡ some (codes "disk", codes "$ ")
unfolding proxy_recv recv accept payload_of starts_with parse_int parse_loop decimal backwards
    digits
second_frame = refl

proxy_recv-response_example :
    proxy_recv (pos 3) 7 false 100 (response 7 answer ++ (newline ∷ codes "$ ")) ≡ (
      if 7 == 7
      then some (take (100 - 1) answer, codes "$ ")
      else proxy_recv (pos 3) 7 false 100 (codes "$ "))
unfolding decimal backwards digits
proxy_recv-response_example =
    proxy_recv-response (pos 3) 7 7 100 answer (codes "$ ") (omega arith) (omega arith)
      (omega arith) (refl, (refl, (refl, (refl, (refl, (refl, (refl, (refl, (refl, refl)))))))))
      (omega arith)

request_lem_example :
    (request 7 (codes "parser") (codes "line one")
      ≡ frame 7 (text (codes "parser")) (text (codes "line one")) ++ (newline ∷ []))
    × (length (request 7 (codes "parser") (codes "line one")) ≤ 640)
unfolding text
request_lem_example = request_lem 7 (codes "parser") (codes "line one") (omega arith)

-- A memory whose strings never fit.
abbrev crowded : UserMem
crowded = record {
  State = Unit {0};
  copyin = λ src n u. none;
  copyout = λ dst bytes u. (false, u);
  copyinstr = λ src n u. none;
  length-copyin = λ src n u bytes e. absurd (ground arith);
}

abbrev no_cache : Cache
no_cache = record { slots = []; disk = none }

stage_stops :
    stage (codes "parser:") (codes "a" ++ (10 ∷ 10 ∷ codes "b")) (codes "x" ∷ codes "y" ∷ [])
    ≡ some ((codes "parser:x" ++ (10 ∷ [])) ∷ [])
unfolding stage stage_loop readline emit append_str
stage_stops = refl

stage-replies_example :
    stage (codes "parser:") (codes "a" ++ (10 ∷ codes "b")) (codes "x" ∷ codes "y" ∷ [])
    ≡ some (
        replies
          (codes "parser:")
          (before_blank (lines_of (codes "a" ++ (10 ∷ codes "b"))))
          (codes "x" ∷ codes "y" ∷ []))
stage-replies_example =
    stage-replies (codes "parser:") (codes "a" ++ (10 ∷ codes "b")) (codes "x" ∷ codes "y" ∷ [])

abbrev start : Eval
start = record {
  prop = build_default_proposal;
  base = build_default_proposal;
  saved = some build_default_proposal;
  last_resp = replicate 256 0;
  printed = [];
}

attempts_accepted_example :
    (attempts
      (kernel [] (replicate 64 0))
      3
      true
      (codes "line")
      (codes "ERROR in pipe" ∷ codes "ok" ∷ [])
      start).0
    ≡ accepted
attempts_accepted_example =
    attempts_accepted [] (replicate 64 0) (codes "line") (codes "ERROR in pipe") (codes "ok") []
      start

abbrev aggressive : FixProposal
aggressive = record {
  role = replicate 16 97;
  target = replicate 16 0;
  action = pos 3;
  severity = pos 9;
  retry_hint = negsuc 0;
}

default-IsAcceptable : IsAcceptable build_default_proposal
unfolding build_default_proposal named strcopy check_proposal field_ok is_destructive is_allowed
default-IsAcceptable = (check_proposal-ok_iff build_default_proposal none).0 refl

check_proposal-amend_from_verdict_example :
    (check_proposal (amend_from_verdict aggressive build_default_proposal (negsuc 0)) none).0
    ≢ negsuc 0
check_proposal-amend_from_verdict_example =
    check_proposal-amend_from_verdict aggressive build_default_proposal none (negsuc 0)
      (λ e. absurd (ground arith)) default-IsAcceptable refl refl
