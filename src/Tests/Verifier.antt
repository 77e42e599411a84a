-- ===== src/Tests/Verifier.antt =====
-- Runs of verify_fix.
use liberal_os.Prelude.{◌≡◌, refl, ◌↔◌, none, some, pos}
use liberal_os.CString.{strncmp}
use liberal_os.Verifier.{
  is_allowed, target_is_protected, is_destructive, field_ok, FixProposal, codes, verify_fix,
  err_protected, err_action,
}
use liberal_os.Verifier.Laws.{Verdict, verify_fix-Verdict_iff}

-- FIX_ACTION_KILL against the shell
abbrev kill_sh : FixProposal
kill_sh = record {
  role = codes "fixsuggest";
  target = codes "sh";
  action = pos 3;
  severity = pos 2;
  retry_hint = pos 0;
}

abbrev kill_parser : FixProposal
kill_parser = record kill_sh { target = codes "parser" }

verdicts :
    ((verify_fix (some kill_sh) none none (pos 0)).0 ≡ err_protected)
    × ((verify_fix (some kill_parser) none none (pos 0)).0 ≡ err_action)
unfolding verify_fix field_ok is_destructive target_is_protected is_allowed strncmp
verdicts = (refl, refl)

verify_fix-Verdict_iff_example :
    ((verify_fix (some kill_sh) none none (pos 0)).0 ≡ err_protected)
    ↔ Verdict kill_sh none err_protected
verify_fix-Verdict_iff_example = verify_fix-Verdict_iff kill_sh none none (pos 0) err_protected
