-- ===== src/Agent/Stage.antt =====
-- The loop of the stages user/parser.c, classifier.c, rootcause.c and fixsuggest.c: read a line, ask
-- the model, print its answer under the stage's tag. What proxy_call() answers is a list, at whose
-- end it fails. A round reads a line, so as many rounds as there are bytes of input and one more
-- are enough.
pub mod Ends
pub mod Replies
use liberal_os.Prelude.{
  ℕ, zero, suc, ◌+◌, ◌-◌, ◌*◌, ◌/◌, ◌%◌, ◌^◌, ◌≤◌, ◌<◌, min, ◌≡◌, refl, sym, ap, ap₂, ◌∙◌, subst,
  ◌≢◌, ◌↔◌, ◌⊎◌, inl, inr, Bool, true, false, not, ◌&&◌, ◌||◌, Option, none, some, List, [], ◌∷◌,
  ◌++◌, arith, ltb, leb, ◌==◌, if◌then◌else◌, ==_iff, ==-refl, ==-false, Bool-cases, Option-cases,
  ℤ, pos, negsuc, sub_ℕ, ◌≤ℤ◌, ◌<ℤ◌, ltb_ℤ, leb_ℤ, eqb_ℤ, eqb_ℤ_iff, length, get_elem?, get_or, set,
  take, drop, replicate, length-append, length-set, length-take, length-replicate,
  get_elem?-set_self, get_elem?-set_ne, get_or-set_self, get_or-set_ne, take-length, lt_of_le_ne,
}
use liberal_os.Agent.Proxy.{newline, append_str, readline}

-- emit(): the line of `tag` and `body` that is written.
unfoldable pub emit : List ℕ → List ℕ → List ℕ
emit tag body = append_str 640 (append_str 640 [] tag) body ++ (newline ∷ [])

unfoldable pub stage_loop : ℕ → List ℕ → List ℕ → List (List ℕ) → Option (List (List ℕ))
stage_loop zero tag input answers = none
stage_loop (suc n) tag input [] = some []
stage_loop (suc n) tag input (resp ∷ answers) =
    let rest = stage_loop n tag (readline 256 [] input).1 answers in
    if length (readline 256 [] input).0 == 0
    then some []
    else elim rest [ none ↦ none | some lines ↦ some (emit tag resp ∷ lines) ]

-- The lines that a stage prints for the bytes on its standard input.
unfoldable pub stage : List ℕ → List ℕ → List (List ℕ) → Option (List (List ℕ))
stage tag input answers = stage_loop (length input + 1) tag input answers
