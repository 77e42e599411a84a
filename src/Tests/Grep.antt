-- ===== src/Tests/Grep.antt =====
-- The matcher of grep on small inputs.
use liberal_os.Grep.Meaning.{match_iff, Found}
use liberal_os.Verifier.{codes}
use liberal_os.Grep.{matchstar, matchhere, match_from, match}
use liberal_os.Prelude.{◌≡◌, refl, ◌↔◌, true, false}

found : match (codes "^a*b") (codes "aab") ≡ true
unfolding match match_from matchhere matchstar
found = refl

not_found : match (codes "^b") (codes "aab") ≡ false
unfolding match match_from matchhere matchstar
not_found = refl

match_iff_example : (match (codes "^a*b") (codes "aab") ≡ true) ↔ Found (codes "^a*b") (codes "aab")
match_iff_example = match_iff (codes "^a*b") (codes "aab")
