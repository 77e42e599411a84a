-- ===== src/Agent/Stage/Ends.antt =====
-- What follows an empty line in the input of a stage.
use liberal_os.Prelude.{
  ℕ, zero, suc, ◌+◌, ◌-◌, ◌<◌, ◌≡◌, refl, ◌∙◌, inl, inr, none, some, List, [], ◌∷◌, ◌++◌, arith,
  ltb, ◌==◌, if◌then◌else◌, Bool-cases, length,
}
use liberal_os.Agent.Stage.{stage_loop}
use liberal_os.Agent.Proxy.{newline, readline}

-- A line that is not empty takes some of the input.
readline_left :
    (max : ℕ) (line input : List ℕ) → length (readline max line input).1 < length input + 1
unfolding readline
readline_left max line [] = omega arith
readline_left max line (c ∷ cs) = elim (Bool-cases (c == newline)) [
  | inl e ↦ rw e (omega arith)
  | inr e ↦ rw e (
      omega (
        arith,
        readline_left max (if ltb (length line) (max - 1) then line ++ (c ∷ []) else line) cs,
      ))
]

pub readline_shorter :
    (max : ℕ) (line input : List ℕ)
    → length line < length (readline max line input).0
    → length (readline max line input).1 < length input
unfolding readline
readline_shorter max line [] h = absurd (omega arith)
readline_shorter max line (c ∷ cs) h = elim (Bool-cases (c == newline)) [
  | inl e ↦ rw e (omega arith)
  | inr e ↦ elim (Bool-cases (ltb (length line) (max - 1))) [
    | inl room ↦ rw (e, room) (omega (arith, readline_left max (line ++ (c ∷ [])) cs))
    | inr full ↦ rw (e, full) (omega (arith, readline_left max line cs))
  ]
]

-- How a line of an input with an empty line in it ends: before the empty line, or at it.
pub data Cut (max : ℕ) (line ps : List ℕ) : Type 0 where
  before :
      (l qs : List ℕ)
      → ((rest : List ℕ)
          → readline max line (ps ++ (newline ∷ newline ∷ rest))
            ≡ (l, qs ++ (newline ∷ newline ∷ rest)))
      → Cut max line ps
  at_end :
      (l : List ℕ)
      → ((rest : List ℕ)
          → readline max line (ps ++ (newline ∷ newline ∷ rest)) ≡ (l, newline ∷ rest))
      → Cut max line ps

moved_on :
    (max : ℕ) (line line' ps : List ℕ) (c : ℕ)
    → ((rest : List ℕ)
        → readline max line (c ∷ ps ++ (newline ∷ newline ∷ rest))
          ≡ readline max line' (ps ++ (newline ∷ newline ∷ rest)))
    → Cut max line' ps
    → Cut max line (c ∷ ps)
moved_on max line line' ps c e (before l qs h) = before l qs (λ rest. e rest ∙ h rest)
moved_on max line line' ps c e (at_end l h) = at_end l (λ rest. e rest ∙ h rest)

readline-Cut : (max : ℕ) (line ps : List ℕ) → Cut max line ps
unfolding readline
readline-Cut max line [] = at_end line (λ rest. refl)
readline-Cut max line (c ∷ ps) = elim (Bool-cases (c == newline)) [
  | inl e ↦ before line ps (λ rest. rw e refl)
  | inr e ↦
      let line' = if ltb (length line) (max - 1) then line ++ (c ∷ []) else line in
      moved_on max line line' ps c (λ rest. rw e refl) (readline-Cut max line' ps)
]

stopped_at :
    (n : ℕ) (tag rest : List ℕ) (answers : List (List ℕ))
    → stage_loop n tag (newline ∷ rest) answers ≡ (if n == 0 then none else some [])
unfolding stage_loop readline
stopped_at zero tag rest answers = refl
stopped_at (suc n) tag rest [] = ground arith
stopped_at (suc n) tag rest (resp ∷ answers) = ground arith

-- What a stage prints does not depend on what follows an empty line in its input: the rest of the
-- input is lost.
pub stage_loop_blank :
    (n : ℕ) (tag ps rest other : List ℕ) (answers : List (List ℕ))
    → stage_loop n tag (ps ++ (newline ∷ newline ∷ rest)) answers
      ≡ stage_loop n tag (ps ++ (newline ∷ newline ∷ other)) answers
unfolding stage_loop
stage_loop_blank zero tag ps rest other answers = refl
stage_loop_blank (suc n) tag ps rest other [] = refl
stage_loop_blank (suc n) tag ps rest other (resp ∷ answers) = elim (readline-Cut 256 [] ps) [
  | before l qs h ↦ rw (h rest, h other, stage_loop_blank n tag qs rest other answers) refl
  | at_end l h ↦
      rw (h rest, h other, stopped_at n tag rest answers, stopped_at n tag other answers) refl
]
