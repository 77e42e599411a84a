-- ===== src/Agent/Evaluator/Amends.antt =====
-- An amended proposal is not rejected again for the same reason.
use liberal_os.Prelude.{
  ℕ, zero, suc, ◌<◌, ◌≡◌, refl, sym, ap, ◌∙◌, ◌≢◌, inl, inr, true, Option, List, [], ◌∷◌, arith,
  ◌==◌, Bool-cases, ℤ, pos, negsuc, length, take, length-take,
}
use liberal_os.Verifier.Laws.{check_proposal-ok_iff, IsAcceptable, field_ok_iff}
use liberal_os.CString.Laws.{text-head-tail, text}
use liberal_os.CString.{head, tail}
use liberal_os.Verifier.{
  verify_ok, err_action, err_protected, err_range, err_field, is_allowed, is_destructive,
  check_proposal, SysSnapshot, field_ok, FixProposal,
}
use liberal_os.Agent.Evaluator.{clamp, amend_from_verdict, named, strcopy}

length-strcopy : (dst src : List ℕ) (left : ℕ) → length (strcopy dst src left) ≡ length dst
unfolding strcopy
length-strcopy [] src left = refl
length-strcopy (d ∷ dst) src zero = refl
length-strcopy (d ∷ dst) src (suc left) = ground (arith, length-strcopy dst (tail src) left)

text-strcopy :
    (dst src : List ℕ) (left : ℕ)
    → left < length dst
    → text (strcopy dst src left) ≡ take left (text src)
unfolding strcopy text
text-strcopy [] src left h = absurd (omega arith)
text-strcopy (d ∷ dst) src zero h = refl
text-strcopy (d ∷ dst) src (suc left) h =
    rw (text-head-tail src) (elim (Bool-cases (head src == 0)) [
      | inl e ↦ rw e refl
      | inr e ↦ rw (e, e) (ap (◌∷◌ (head src)) (text-strcopy dst (tail src) left (omega arith)))
    ])

-- A field of 16 bytes that takes a good name is good.
named_ok :
    (dst name : List ℕ)
    → length dst ≡ 16
    → field_ok name 16 ≡ true
    → field_ok (named dst name) 16 ≡ true
unfolding named
named_ok dst name size h =
    let whole = (field_ok_iff name 16).0 h in
    let short = text-strcopy dst name 15 (omega arith) in
    (field_ok_iff (strcopy dst name 15) 16).1 (
      rw short (
        omega (arith, whole, length-take 15 (text name)),
        omega (arith, whole, length-take 15 (text name)),
      ))

module _ (p base : FixProposal) (s : Option SysSnapshot) where
  fixed_range : (check_proposal (amend_from_verdict p base err_range) s).0 ≢ err_range
  unfolding amend_from_verdict check_proposal clamp
  fixed_range = ground arith

  fixed_action : (check_proposal (amend_from_verdict p base err_action) s).0 ≢ err_action
  unfolding amend_from_verdict check_proposal is_allowed
  fixed_action = ground arith

  fixed_protected : (check_proposal (amend_from_verdict p base err_protected) s).0 ≢ err_protected
  unfolding amend_from_verdict check_proposal is_destructive
  fixed_protected = ground arith

  fixed_field :
      length p.role ≡ 16
      → length p.target ≡ 16
      → field_ok base.role 16 ≡ true
      → field_ok base.target 16 ≡ true
      → (check_proposal (amend_from_verdict p base err_field) s).0 ≢ err_field
  unfolding amend_from_verdict check_proposal
  fixed_field a b c d =
      ground (arith, named_ok p.role base.role a c, named_ok p.target base.target b d)

  reverted : (rc : ℤ) → rc ≢ verify_ok → IsAcceptable base → (check_proposal base s).0 ≢ rc
  reverted rc n good = λ e. n (sym e ∙ (check_proposal-ok_iff base s).1 good)

  -- When the last accepted proposal is acceptable and the fields have their 16 bytes, a proposal that
  -- is amended for a verdict other than VERIFY_OK does not get that verdict again.
  pub check_proposal-amend_from_verdict :
      (rc : ℤ)
      → rc ≢ verify_ok
      → IsAcceptable base
      → length p.role ≡ 16
      → length p.target ≡ 16
      → (check_proposal (amend_from_verdict p base rc) s).0 ≢ rc
  unfolding amend_from_verdict
  check_proposal-amend_from_verdict (pos n) ne good a b =
      let whole : amend_from_verdict p base (pos n) ≡ base = ground arith in
      rw whole (reverted (pos n) ne good)
  check_proposal-amend_from_verdict (negsuc zero) ne good a b =
      fixed_field a b ((field_ok_iff base.role 16).1 (good.role_given, good.role_fits))
        ((field_ok_iff base.target 16).1 (good.target_given, good.target_fits))
  check_proposal-amend_from_verdict (negsuc (suc zero)) ne good a b = fixed_range
  check_proposal-amend_from_verdict (negsuc (suc (suc zero))) ne good a b = fixed_protected
  check_proposal-amend_from_verdict (negsuc (suc (suc (suc zero)))) ne good a b = fixed_action
  check_proposal-amend_from_verdict (negsuc (suc (suc (suc (suc n))))) ne good a b =
      let whole : amend_from_verdict p base (negsuc (suc (suc (suc (suc n))))) ≡ base =
        ground arith in
      rw whole (reverted (negsuc (suc (suc (suc (suc n))))) ne good)
