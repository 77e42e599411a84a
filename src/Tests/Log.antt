-- ===== src/Tests/Log.antt =====
-- Runs of the log.
use liberal_os.Prelude.{ℕ, ◌+◌, ◌≡◌, refl, false, [], ◌∷◌, arith, take}
use liberal_os.Log.Group.{IsLog}
use liberal_os.Log.Crash.{commit-OldOrNew, OldOrNew}
use liberal_os.Log.{
  install_trans, install_trans, write_log, put, apply, commit, run, Disk, Log, recover_from_log,
}

abbrev blank_disk : Disk ℕ
blank_disk = record { header = []; slots = λ i. 0; home = λ i. i }

abbrev changed : ℕ → ℕ
changed i = i + 100

cut_before_header :
    (recover_from_log (run (take 2 (commit changed (5 ∷ 9 ∷ []) blank_disk)) blank_disk)).home 9 ≡ 9
unfolding recover_from_log run apply put commit write_log install_trans
cut_before_header = refl

cut_after_header :
    (recover_from_log (run (take 4 (commit changed (5 ∷ 9 ∷ []) blank_disk)) blank_disk)).home 9
    ≡ 109
unfolding recover_from_log run apply put commit write_log install_trans
cut_after_header = refl

commit-OldOrNew_example :
    OldOrNew changed
      (5 ∷ 9 ∷ [])
      blank_disk.home
      (run (take 4 (commit changed (5 ∷ 9 ∷ []) blank_disk)) blank_disk)
commit-OldOrNew_example = commit-OldOrNew changed (5 ∷ 9 ∷ []) blank_disk 4 refl

abbrev one_open : Log
one_open = record { outstanding = 1; committing = false; blocks = 5 ∷ [] }

one_open-IsLog : IsLog one_open 9
one_open-IsLog = record { spare = omega arith; share = omega arith }
