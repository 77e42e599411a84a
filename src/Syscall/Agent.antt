-- ===== src/Syscall/Agent.antt =====
-- The snapshot for the verifier, and roles.
use liberal_os.Prelude.{
  ◌≡◌, sym, ◌∙◌, ◌↔◌, ◌⊎◌, inl, inr, Bool, true, false, not, ◌&&◌, ◌||◌, List, [], ◌∷◌, arith,
  negsuc,
}
use mathlib.Core.Bool.{false≢true}
use liberal_os.Proc.{is_unused, Proc}
use liberal_os.Syscall.{is_protected, matches, fill_snapshot, snapshot_from, snapshot_step}
use liberal_os.Verifier.{SysSnapshot, FixProposal}

-- A live process that the proposal names, as init, sh or the evaluator.
abbrev pub NamesProtected : FixProposal → List Proc → Type 0
NamesProtected p [] = false ≡ true
NamesProtected p (pp ∷ ps) =
    (not (is_unused pp.state) && matches pp p && is_protected pp ≡ true) ⊎ NamesProtected p ps

step_protected :
    (p : FixProposal) (pp : Proc) (s : SysSnapshot)
    → (snapshot_step p pp s).target_protected
      ≡ (s.target_protected || (not (is_unused pp.state) && matches pp p && is_protected pp))
unfolding snapshot_step
step_protected p pp s = ground arith

or_iff : (a b : Bool) → ((a || b) ≡ true) ↔ ((a ≡ true) ⊎ (b ≡ true))
or_iff a b = ground arith

snapshot_from_iff :
    (p : FixProposal) (ps : List Proc) (s : SysSnapshot)
    → ((snapshot_from p ps s).target_protected ≡ true)
      ↔ ((s.target_protected ≡ true) ⊎ NamesProtected p ps)
unfolding snapshot_from
snapshot_from_iff p [] s =
    ((λ h. inl h), (λ h. elim h [ inl e ↦ e | inr e ↦ absurd (false≢true e) ]))
snapshot_from_iff p (pp ∷ ps) s =
    let live = not (is_unused pp.state) && matches pp p && is_protected pp in
    let ih = snapshot_from_iff p ps (snapshot_step p pp s) in
    let step = step_protected p pp s in
    let either = or_iff s.target_protected live in
    (
      (λ h. elim (ih.0 h) [
        | inl e ↦ elim (either.0 (sym step ∙ e)) [ inl a ↦ inl a | inr b ↦ inr (inl b) ]
        | inr q ↦ inr (inr q)
      ]),
      (λ h. elim h [
        | inl a ↦ ih.1 (inl (step ∙ either.1 (inl a)))
        | inr q ↦ elim q [ inl b ↦ ih.1 (inl (step ∙ either.1 (inr b))) | inr r ↦ ih.1 (inr r) ]
      ]),
    )

-- fill_snapshot() marks the target as protected exactly when a live process that the proposal names,
-- by name or role, is init, sh or the evaluator.
pub fill_snapshot_iff :
    (p : FixProposal) (procs : List Proc)
    → ((fill_snapshot p procs).target_protected ≡ true) ↔ NamesProtected p procs
unfolding fill_snapshot
fill_snapshot_iff p procs =
    let whole =
      snapshot_from_iff p procs
        (record { target_pid = negsuc 0; target_protected = false; nproc = 0 }) in
    ((λ h. elim (whole.0 h) [ inl e ↦ absurd (false≢true e) | inr q ↦ q ]), (λ q. whole.1 (inr q)))
