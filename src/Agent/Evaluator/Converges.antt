-- ===== src/Agent/Evaluator/Converges.antt =====
-- The evaluator against the kernel's verifier.
use liberal_os.Prelude.{
  ℕ, suc, ◌≡◌, refl, inl, inr, Bool, true, false, Option, some, List, ◌∷◌, Bool-cases, ℤ, pos,
}
use liberal_os.Syscall.{or_old, fill_snapshot}
use liberal_os.Agent.Evaluator.{
  or_base, clamp, amend_from_verdict, quality_bad, accepted, max_retries, Eval, strcopy, named,
  roll_back, build_proposal, candidate, attempts,
}
use liberal_os.Verifier.{
  err_range, verify_ok, SysSnapshot, is_allowed, is_destructive, field_ok, verify_fix, FixProposal,
  check_proposal,
}
use liberal_os.Proc.{Proc}

-- What verifyfix() answers with this process table: the code, and the reason.
abbrev pub kernel : List Proc → List ℕ → FixProposal → ℤ × List ℕ
kernel procs stack p =
    let r = verify_fix (some p) (some (fill_snapshot p procs)) (some stack) (pos 64) in
    (r.0, or_old stack r.1)

built_clean :
    (resp : List ℕ) (s : Option SysSnapshot)
    → quality_bad resp ≡ false
    → (check_proposal (build_proposal resp) s).0 ≡ verify_ok
unfolding check_proposal build_proposal field_ok named strcopy is_destructive is_allowed
built_clean resp s h = rw h refl

built_flagged :
    (resp : List ℕ) (s : Option SysSnapshot)
    → quality_bad resp ≡ true
    → (check_proposal (build_proposal resp) s).0 ≡ err_range
unfolding check_proposal build_proposal field_ok named strcopy is_destructive is_allowed
built_flagged resp s h = rw h refl

amended :
    (resp : List ℕ) (base : FixProposal) (s : Option SysSnapshot)
    → quality_bad resp ≡ true
    → (check_proposal (amend_from_verdict (build_proposal resp) base err_range) s).0 ≡ verify_ok
unfolding check_proposal build_proposal field_ok named strcopy is_destructive is_allowed
    amend_from_verdict clamp
amended resp base s h = rw h refl

module _ (verify : FixProposal → ℤ × List ℕ) where
  accepted_first :
      (n : ℕ) (first : Bool) (line resp : List ℕ) (answers : List (List ℕ)) (e : Eval)
      → (verify (candidate first resp e).prop).0 ≡ verify_ok
      → (attempts verify (suc n) first line (resp ∷ answers) e).0 ≡ accepted
  unfolding attempts
  accepted_first n first line resp answers e h = rw h refl

  accepted_second :
      (n : ℕ) (line r1 r2 : List ℕ) (answers : List (List ℕ)) (e : Eval)
      → (verify (build_proposal r1)).0 ≡ err_range
      → ((base : FixProposal)
          → (verify (amend_from_verdict (build_proposal r1) base err_range)).0 ≡ verify_ok)
      → (attempts verify (suc (suc n)) true line (r1 ∷ r2 ∷ answers) e).0 ≡ accepted
  unfolding attempts candidate roll_back
  accepted_second n line r1 r2 answers e h k = rw (h, k (or_base e.base e.saved)) refl

-- Whatever the model answers and whatever runs, the kernel accepts a proposal of the evaluator at its
-- first attempt or at its second, when proxy_call() succeeds for both.
pub attempts_accepted :
    (procs : List Proc) (stack line r1 r2 : List ℕ) (answers : List (List ℕ)) (e : Eval)
    → (attempts (kernel procs stack) max_retries true line (r1 ∷ r2 ∷ answers) e).0 ≡ accepted
unfolding candidate verify_fix
attempts_accepted procs stack line r1 r2 answers e = elim (Bool-cases (quality_bad r1)) [
  | inl bad ↦
      accepted_second (kernel procs stack) 1 line r1 r2 answers e
        (built_flagged r1 (some (fill_snapshot (build_proposal r1) procs)) bad)
        (λ base.
          amended r1 base
            (some (fill_snapshot (amend_from_verdict (build_proposal r1) base err_range) procs))
            bad)
  | inr good ↦
      accepted_first (kernel procs stack) 2 true line r1 (r2 ∷ answers) e
        (built_clean r1 (some (fill_snapshot (build_proposal r1) procs)) good)
]
