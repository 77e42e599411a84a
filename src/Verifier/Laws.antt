-- ===== src/Verifier/Laws.antt =====
-- What verify_fix decides, stated on the texts of the fields.
use liberal_os.Prelude.{
  ℕ, zero, suc, ◌+◌, ◌≤◌, ◌<◌, min, ◌≡◌, refl, sym, ◌∙◌, subst, ◌↔◌, ◌⊎◌, inl, inr, true, false,
  not, ◌&&◌, ◌||◌, Option, some, List, arith, if◌then◌else◌, Bool-cases, ℤ, pos, ◌≤ℤ◌, ltb_ℤ, eqb_ℤ,
  eqb_ℤ_iff, length, take, take-length,
}
use liberal_os.CString.{tail, strncmp}
use liberal_os.CString.Laws.{text, text-head-tail, strncmp_iff}
use liberal_os.Verifier.{
  err_action, err_protected, err_range, names_any, err_field, target_is_protected,
  snapshot_protects, FixProposal, SysSnapshot, codes, role_len, target_len, report, annotate,
  requeue, verify_ok, is_destructive, is_allowed, field_scan, field_ok, check_proposal, verify_fix,
}

field_scan_lem : (f : List ℕ) (left n : ℕ) → field_scan f left n ≡ n + min left (length (text f))
unfolding field_scan
field_scan_lem f zero n = omega arith
field_scan_lem f (suc left) n =
    ground (arith, field_scan_lem (tail f) left (n + 1), text-head-tail f)

-- A field is accepted exactly when its text is not empty and ends inside the field.
pub field_ok_iff :
    (f : List ℕ) (max : ℕ)
    → (field_ok f max ≡ true) ↔ ((1 ≤ length (text f)) × (length (text f) < max))
unfolding field_ok
field_ok_iff f max = ground (arith, field_scan_lem f max 0)

-- A destructive action is one that is not on the whitelist.
pub is_destructive-not-is_allowed : (action : ℤ) → is_destructive action ≡ not (is_allowed action)
unfolding is_destructive is_allowed
is_destructive-not-is_allowed action = ground arith

-- On a valid field, the comparison of 16 bytes is equality with the protected name.
strncmp-eq_name :
    (f r : List ℕ)
    → length (text f) < target_len
    → length r < target_len
    → text r ≡ r
    → (eqb_ℤ (strncmp f r target_len) (pos 0) ≡ true) ↔ (text f ≡ r)
strncmp-eq_name f r hf hr e =
    let cut_f : take target_len (text f) ≡ text f = take-length target_len (text f) (omega arith) in
    let cut_r : take target_len r ≡ r = take-length target_len r (omega arith) in
    let same = strncmp_iff f r target_len in
    let zero_iff = eqb_ℤ_iff (strncmp f r target_len) (pos 0) in
    (λ h. cut_f' cut_f (same.0 (zero_iff.0 h)) e cut_r, λ h. zero_iff.1 (same.1 (cc)))
  where
    cut_f' :
        take target_len (text f) ≡ text f
        → take target_len (text f) ≡ take target_len (text r)
        → text r ≡ r
        → take target_len r ≡ r
        → text f ≡ r
    cut_f' a b c d = cc

abbrev pub IsProtectedName : List ℕ → Type 0
IsProtectedName t = (t ≡ codes "init") ⊎ ((t ≡ codes "sh") ⊎ (t ≡ codes "evaluator"))

-- What the kernel promises to accept: fields in bounds, numbers in range and a harmless action.
pub record IsAcceptable (p : FixProposal) : Type 0 where
  pub role_given : 1 ≤ length (text p.role)
  pub role_fits : length (text p.role) < role_len
  pub target_given : 1 ≤ length (text p.target)
  pub target_fits : length (text p.target) < target_len
  pub severity_low : pos 0 ≤ℤ p.severity
  pub severity_high : p.severity ≤ℤ pos 3
  pub retry_nonneg : pos 0 ≤ℤ p.retry_hint
  pub harmless : (p.action ≡ report) ⊎ ((p.action ≡ annotate) ⊎ (p.action ≡ requeue))

pub check_proposal-ok_iff :
    (p : FixProposal) (s : Option SysSnapshot)
    → ((check_proposal p s).0 ≡ verify_ok) ↔ IsAcceptable p
unfolding check_proposal is_allowed
check_proposal-ok_iff p s = (
  λ h. ground (
    arith,
    field_ok_iff p.role role_len,
    field_ok_iff p.target target_len,
    is_destructive-not-is_allowed p.action,
  ),
  λ h. ground (
    arith,
    field_ok_iff p.role role_len,
    field_ok_iff p.target target_len,
    is_destructive-not-is_allowed p.action,
  ),
)

-- A proposal passes exactly when it is acceptable, whatever the snapshot and the reason buffer.
pub verify_fix-ok_iff :
    (p : FixProposal) (s : Option SysSnapshot) (reason : Option (List ℕ)) (rlen : ℤ)
    → ((verify_fix (some p) s reason rlen).0 ≡ verify_ok) ↔ IsAcceptable p
unfolding verify_fix
verify_fix-ok_iff p s reason rlen = ground (arith, check_proposal-ok_iff p s)

-- On a valid field the protected roles are recognised by name.
target_is_protected_iff :
    (p : FixProposal) (s : Option SysSnapshot)
    → length (text p.target) < target_len
    → (target_is_protected p s ≡ true)
      ↔ (IsProtectedName (text p.target) ⊎ (snapshot_protects s ≡ true))
unfolding target_is_protected names_any text
target_is_protected_iff p s h = ground (
  arith,
  strncmp-eq_name p.target (codes "init") h (omega arith) refl,
  strncmp-eq_name p.target (codes "sh") h (omega arith) refl,
  strncmp-eq_name p.target (codes "evaluator") h (omega arith) refl,
)

abbrev IsWhole : List ℕ → ℕ → Type 0
IsWhole f max = (1 ≤ length (text f)) × (length (text f) < max)

abbrev IsInRange : FixProposal → Type 0
IsInRange p = (pos 0 ≤ℤ p.severity) × (p.severity ≤ℤ pos 3) × (pos 0 ≤ℤ p.retry_hint)

abbrev IsHarmless : ℤ → Type 0
IsHarmless a = (a ≡ report) ⊎ ((a ≡ annotate) ⊎ (a ≡ requeue))

abbrev IsGuarded : FixProposal → Option SysSnapshot → Type 0
IsGuarded p s = IsProtectedName (text p.target) ⊎ (snapshot_protects s ≡ true)

-- The rule that decides a proposal, and the code that stands for it: the rules in the order of
-- their precedence, each under the condition that no earlier one is broken.
pub data Verdict (p : FixProposal) (s : Option SysSnapshot) : ℤ → Type 0 where
  bad_role : {c : ℤ} → c ≡ err_field → ¬ IsWhole p.role role_len → Verdict p s c
  bad_target :
      {c : ℤ}
      → c ≡ err_field
      → IsWhole p.role role_len
      → ¬ IsWhole p.target target_len
      → Verdict p s c
  bad_range :
      {c : ℤ}
      → c ≡ err_range
      → IsWhole p.role role_len
      → IsWhole p.target target_len
      → ¬ IsInRange p
      → Verdict p s c
  hits_protected :
      {c : ℤ}
      → c ≡ err_protected
      → IsWhole p.role role_len
      → IsWhole p.target target_len
      → IsInRange p
      → ¬ IsHarmless p.action
      → IsGuarded p s
      → Verdict p s c
  bad_action :
      {c : ℤ}
      → c ≡ err_action
      → IsWhole p.role role_len
      → IsWhole p.target target_len
      → IsInRange p
      → ¬ IsHarmless p.action
      → ¬ IsGuarded p s
      → Verdict p s c
  passes : {c : ℤ} → c ≡ verify_ok → IsAcceptable p → Verdict p s c

-- One lemma holds the Boolean conditions of the code and those of the rules together.
destructive-not-IsHarmless : (a : ℤ) → is_destructive a ≡ true → ¬ IsHarmless a
unfolding is_destructive
destructive-not-IsHarmless a h = λ k. ground arith

IsHarmless-of_allowed : (a : ℤ) → is_allowed a ≡ true → IsHarmless a
unfolding is_allowed
IsHarmless-of_allowed a h = ground arith

IsInRange-iff :
    (p : FixProposal)
    → (((ltb_ℤ p.severity (pos 0) || ltb_ℤ (pos 3) p.severity) ≡ false)
        × (ltb_ℤ p.retry_hint (pos 0) ≡ false))
      ↔ IsInRange p
IsInRange-iff p = ground arith

-- The last two checks of the code.
action_checks : FixProposal → Option SysSnapshot → ℤ × List ℕ
action_checks p s =
    if is_destructive p.action && target_is_protected p s
    then (err_protected, codes "destructive action on protected target")
    else if not (is_allowed p.action)
    then (err_action, codes "action not on whitelist")
    else (verify_ok, codes "ok")

action_checks-Verdict :
    (p : FixProposal) (s : Option SysSnapshot)
    → IsWhole p.role role_len
    → IsWhole p.target target_len
    → IsInRange p
    → Verdict p s (action_checks p s).0
unfolding action_checks
action_checks-Verdict p s r t n = elim (Bool-cases (is_allowed p.action)) [
  | inl a ↦
      rw (is_destructive-not-is_allowed, a)
        (passes refl (record {
          role_given = r.0;
          role_fits = r.1;
          target_given = t.0;
          target_fits = t.1;
          severity_low = n.0;
          severity_high = n.1;
          retry_nonneg = n.2;
          harmless = IsHarmless-of_allowed p.action a;
        }))
  | inr a ↦
      let d : is_destructive p.action ≡ true =
        ground (arith, is_destructive-not-is_allowed p.action) in
      let harm = destructive-not-IsHarmless p.action d in
      elim (Bool-cases (target_is_protected p s)) [
        | inl g ↦ rw (d, g) (hits_protected refl r t n harm ((target_is_protected_iff p s t.1).0 g))
        | inr g ↦
            rw (d, g, a)
              (bad_action refl r t n harm (λ k. ground (arith, target_is_protected_iff p s t.1)))
      ]
]

late_checks : FixProposal → Option SysSnapshot → ℤ × List ℕ
late_checks p s =
    if ltb_ℤ p.severity (pos 0) || ltb_ℤ (pos 3) p.severity
    then (err_range, codes "severity out of range [0,3]")
    else if ltb_ℤ p.retry_hint (pos 0)
    then (err_range, codes "retry_hint negative")
    else action_checks p s

late_checks-Verdict :
    (p : FixProposal) (s : Option SysSnapshot)
    → IsWhole p.role role_len
    → IsWhole p.target target_len
    → Verdict p s (late_checks p s).0
unfolding late_checks
late_checks-Verdict p s r t =
    elim (Bool-cases (ltb_ℤ p.severity (pos 0) || ltb_ℤ (pos 3) p.severity)) [
      | inl a ↦ rw a (bad_range refl r t (λ k. ground (arith, IsInRange-iff p)))
      | inr a ↦ rw a (elim (Bool-cases (ltb_ℤ p.retry_hint (pos 0))) [
        | inl b ↦ rw b (bad_range refl r t (λ k. ground (arith, IsInRange-iff p)))
        | inr b ↦ rw b (action_checks-Verdict p s r t ((IsInRange-iff p).0 (a, b)))
      ])
    ]

check_proposal-Verdict :
    (p : FixProposal) (s : Option SysSnapshot) → Verdict p s (check_proposal p s).0
unfolding check_proposal late_checks action_checks
check_proposal-Verdict p s = elim (Bool-cases (field_ok p.role role_len)) [
  | inr r ↦ rw r (bad_role refl (λ w. ground (arith, field_ok_iff p.role role_len)))
  | inl r ↦ rw r (elim (Bool-cases (field_ok p.target target_len)) [
    | inr t ↦ rw t (
        bad_target refl (ground (arith, field_ok_iff p.role role_len))
          (λ w. ground (arith, field_ok_iff p.target target_len)))
    | inl t ↦ rw t (
        late_checks-Verdict p s ((field_ok_iff p.role role_len).0 r)
          ((field_ok_iff p.target target_len).0 t))
  ])
]

Verdict-code :
    {p : FixProposal} {s : Option SysSnapshot} {c : ℤ} → Verdict p s c → (check_proposal p s).0 ≡ c
unfolding check_proposal
Verdict-code {p} {s} (bad_role e h) = ground (arith, field_ok_iff p.role role_len)
Verdict-code {p} {s} (bad_target e r h) =
    ground (arith, field_ok_iff p.role role_len, field_ok_iff p.target target_len)
Verdict-code {p} {s} (bad_range e r t h) =
    ground (arith, field_ok_iff p.role role_len, field_ok_iff p.target target_len, IsInRange-iff p)
Verdict-code {p} {s} (hits_protected e r t h a g) = ground (
  arith,
  field_ok_iff p.role role_len,
  field_ok_iff p.target target_len,
  IsInRange-iff p,
  is_destructive-not-is_allowed p.action,
  IsHarmless-of_allowed p.action,
  target_is_protected_iff p s t.1,
)
Verdict-code {p} {s} (bad_action e r t h a g) = ground (
  arith,
  field_ok_iff p.role role_len,
  field_ok_iff p.target target_len,
  IsInRange-iff p,
  is_destructive-not-is_allowed p.action,
  IsHarmless-of_allowed p.action,
  target_is_protected_iff p s t.1,
)
Verdict-code {p} {s} (passes e a) = (check_proposal-ok_iff p s).1 a ∙ sym e

-- verify_fix() of a proposal answers the code of the first rule that the proposal breaks (a text
-- field, a number out of range, a destructive action on a protected target, an action off the
-- whitelist), and 0 exactly when it breaks none.
pub verify_fix-Verdict_iff :
    (p : FixProposal) (s : Option SysSnapshot) (reason : Option (List ℕ)) (rlen c : ℤ)
    → ((verify_fix (some p) s reason rlen).0 ≡ c) ↔ Verdict p s c
unfolding verify_fix
verify_fix-Verdict_iff p s reason rlen c =
    (λ e. subst (Verdict p s) e (check_proposal-Verdict p s), Verdict-code)
