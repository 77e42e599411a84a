-- ===== src/Grep.antt =====
-- The matcher of user/grep.c. A pattern and a text are the bytes before the terminator, so that the
-- empty list stands for a pointer to it.
pub mod Meaning
use liberal_os.Prelude.{
  ℕ, zero, suc, ◌+◌, ◌-◌, ◌*◌, ◌/◌, ◌%◌, ◌^◌, ◌≤◌, ◌<◌, min, ◌≡◌, refl, sym, ap, ap₂, ◌∙◌, subst,
  ◌≢◌, ◌↔◌, ◌⊎◌, inl, inr, Bool, true, false, not, ◌&&◌, ◌||◌, Option, none, some, List, [], ◌∷◌,
  ◌++◌, arith, ltb, leb, ◌==◌, if◌then◌else◌, ==_iff, ==-refl, ==-false, Bool-cases, Option-cases,
  ℤ, pos, negsuc, sub_ℕ, ◌≤ℤ◌, ◌<ℤ◌, ltb_ℤ, leb_ℤ, eqb_ℤ, eqb_ℤ_iff, length, get_elem?, get_or, set,
  take, drop, replicate, length-append, length-set, length-take, length-replicate,
  get_elem?-set_self, get_elem?-set_ne, get_or-set_self, get_or-set_ne, take-length, lt_of_le_ne,
}

abbrev pub caret : ℕ
caret = b'^'

abbrev pub dollar : ℕ
dollar = b'$'

abbrev pub star : ℕ
star = b'*'

abbrev pub dot : ℕ
dot = b'.'

-- *text!='\0' && (re[0]=='.' || re[0]==*text)
abbrev pub accepts : ℕ → ℕ → Bool
accepts c t = c == dot || c == t

-- matchstar(c, re, text), where `here` is matchhere(re, _)
unfoldable pub matchstar : ℕ → (List ℕ → Bool) → List ℕ → Bool
matchstar c here [] = here []
matchstar c here (t ∷ ts) =
    let rest = matchstar c here ts in
    if here (t ∷ ts) then true else if t == c || c == dot then rest else false

unfoldable pub matchhere : List ℕ → List ℕ → Bool
matchhere [] text = true
matchhere (c ∷ []) [] = c == dollar
matchhere (c ∷ []) (t ∷ ts) = if c == dollar then false else accepts c t
matchhere (c ∷ d ∷ re) [] =
    let run = matchstar c (matchhere re) [] in if d == star then run else false
matchhere (c ∷ d ∷ re) (t ∷ ts) =
    let run = matchstar c (matchhere re) (t ∷ ts) in
    let rest = matchhere (d ∷ re) ts in
    if d == star then run else if accepts c t then rest else false

-- The loop of match().
unfoldable pub match_from : List ℕ → List ℕ → Bool
match_from re [] = matchhere re []
match_from re (t ∷ ts) = let rest = match_from re ts in if matchhere re (t ∷ ts) then true else rest

unfoldable pub match : List ℕ → List ℕ → Bool
match [] text = match_from [] text
match (c ∷ re) text = if c == caret then matchhere re text else match_from (c ∷ re) text
