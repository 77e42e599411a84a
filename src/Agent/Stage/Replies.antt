-- ===== src/Agent/Stage/Replies.antt =====
-- What a stage prints, said of the lines of its input.
use liberal_os.Prelude.{
  ℕ, zero, suc, ◌+◌, ◌-◌, ◌≤◌, ◌<◌, ◌≡◌, refl, sym, ap, ◌∙◌, inl, inr, true, false, Option, none,
  some, List, [], ◌∷◌, ◌++◌, arith, ltb, ◌==◌, if◌then◌else◌, Bool-cases, length, take,
  length-append,
}
use mathlib.Core.List.{append_assoc}
use liberal_os.CString.Laws.{text}
use liberal_os.Agent.Proxy.{newline, append_str, readline}
use liberal_os.Agent.Stage.{emit, stage, stage_loop}
use liberal_os.Agent.Stage.Ends.{readline_shorter}

abbrev longer : ℕ → List (List ℕ) → List (List ℕ)
longer c [] = (c ∷ []) ∷ []
longer c (l ∷ ls) = (c ∷ l) ∷ ls

-- The input cut at its newlines.
unfoldable pub lines_of : List ℕ → List (List ℕ)
lines_of [] = [] ∷ []
lines_of (c ∷ cs) = let rest = lines_of cs in if c == newline then [] ∷ rest else longer c rest

-- The lines before the first empty one.
abbrev pub before_blank : List (List ℕ) → List (List ℕ)
before_blank [] = []
before_blank ([] ∷ ls) = []
before_blank ((c ∷ l) ∷ ls) = (c ∷ l) ∷ before_blank ls

-- A line for each line of the input that has an answer: the tag and the answer, cut to 639 bytes.
abbrev pub replies : List ℕ → List (List ℕ) → List (List ℕ) → List (List ℕ)
replies tag [] answers = []
replies tag (l ∷ ls) [] = []
replies tag (l ∷ ls) (resp ∷ answers) =
    (take 639 (text tag ++ text resp) ++ (newline ∷ [])) ∷ replies tag ls answers

take_all : (n : ℕ) (xs : List ℕ) → length xs ≤ n → take n (xs ++ []) ≡ xs
take_all zero [] h = refl
take_all (suc n) [] h = refl
take_all zero (x ∷ xs) h = absurd (omega arith)
take_all (suc n) (x ∷ xs) h = ap (◌∷◌ x) (take_all n xs (omega arith))

take_front : (n : ℕ) (xs ys : List ℕ) → length xs ≡ n → take n (xs ++ ys) ≡ xs
take_front zero [] ys h = refl
take_front zero (x ∷ xs) ys h = absurd (omega arith)
take_front (suc n) [] ys h = absurd (omega arith)
take_front (suc n) (x ∷ xs) ys h = ap (◌∷◌ x) (take_front n xs ys (omega arith))

take-take : (n : ℕ) (xs ys : List ℕ) → take n (take n xs ++ ys) ≡ take n (xs ++ ys)
take-take zero xs ys = refl
take-take (suc n) [] ys = refl
take-take (suc n) (x ∷ xs) ys = ap (◌∷◌ x) (take-take n xs ys)

length-take_le : (n : ℕ) (xs : List ℕ) → length (take n xs) ≤ n
length-take_le zero xs = omega arith
length-take_le (suc n) [] = omega arith
length-take_le (suc n) (x ∷ xs) = omega (arith, length-take_le n xs)

-- The copy of emit() stops at the NUL or at the bound.
append_str-take :
    (buf s : List ℕ) → length buf ≤ 639 → append_str 640 buf s ≡ take 639 (buf ++ text s)
unfolding append_str text
append_str-take buf [] h = sym (take_all 639 buf h)
append_str-take buf (c ∷ s) h = elim (Bool-cases (c == 0)) [
  | inl e ↦ rw e (sym (take_all 639 buf h))
  | inr e ↦ elim (Bool-cases (ltb (length buf) 639)) [
    | inl g ↦
        rw (e, g)
          (append_str-take (buf ++ (c ∷ [])) s (omega (arith, length-append buf (c ∷ []), less g))
            ∙ ap (take 639) (append_assoc buf (c ∷ []) (text s)))
    | inr g ↦ rw (e, g) (sym (take_front 639 buf (c ∷ text s) (equal g)))
  ]
]
  where
    less : ltb (length buf) 639 ≡ true → length buf < 639
    less g = ground arith

    equal : ltb (length buf) 639 ≡ false → length buf ≡ 639
    equal g = ground arith

emit-text : (tag resp : List ℕ) → emit tag resp ≡ take 639 (text tag ++ text resp) ++ (newline ∷ [])
unfolding emit
emit-text tag resp =
    let first = append_str-take [] tag (omega arith) in
    let second =
      append_str-take (take 639 (text tag)) resp (length-take_le 639 (text tag))
      ∙ take-take 639 (text tag) (text resp) in
    ap (λ l. append_str 640 l resp ++ (newline ∷ [])) first ∙ ap (λ l. l ++ (newline ∷ [])) second

abbrev others : List (List ℕ) → List (List ℕ)
others [] = []
others (l ∷ ls) = ls

others-longer : (c : ℕ) (ls : List (List ℕ)) → others (longer c ls) ≡ others ls
others-longer c [] = refl
others-longer c (l ∷ ls) = refl

-- What readline() leaves of the input are its other lines.
before_blank-readline :
    (max : ℕ) (line input : List ℕ)
    → before_blank (lines_of (readline max line input).1) ≡ before_blank (others (lines_of input))
unfolding readline lines_of
before_blank-readline max line [] = refl
before_blank-readline max line (c ∷ cs) = elim (Bool-cases (c == newline)) [
  | inl e ↦ rw e refl
  | inr e ↦ rw e (
      before_blank-readline max (if ltb (length line) (max - 1) then line ++ (c ∷ []) else line) cs
      ∙ ap before_blank (sym (others-longer c (lines_of cs))))
]

longer_line : (max : ℕ) (line input : List ℕ) → length line ≤ length (readline max line input).0
unfolding readline
longer_line max line [] = omega arith
longer_line max line (c ∷ cs) = elim (Bool-cases (c == newline)) [
  | inl e ↦ rw e (omega arith)
  | inr e ↦ elim (Bool-cases (ltb (length line) (max - 1))) [
    | inl g ↦
        rw (e, g)
          (omega (arith, longer_line max (line ++ (c ∷ [])) cs, length-append line (c ∷ [])))
    | inr g ↦ rw (e, g) (longer_line max line cs)
  ]
]

reply :
    (tag resp : List ℕ) (c : ℕ) (ls answers : List (List ℕ)) (o : Option (List (List ℕ)))
    → o ≡ some (replies tag (before_blank (others ls)) answers)
    → elim o [ none ↦ none | some lines ↦ some (emit tag resp ∷ lines) ]
      ≡ some (replies tag (before_blank (longer c ls)) (resp ∷ answers))
reply tag resp c [] answers o e = rw (e, emit-text tag resp) refl
reply tag resp c (l ∷ ls) answers o e = rw (e, emit-text tag resp) refl

no_answer : (tag : List ℕ) (ls : List (List ℕ)) → replies tag ls [] ≡ []
no_answer tag [] = refl
no_answer tag (l ∷ ls) = refl

stage_loop-replies :
    (n : ℕ) (tag input : List ℕ) (answers : List (List ℕ))
    → length input < n
    → stage_loop n tag input answers ≡ some (replies tag (before_blank (lines_of input)) answers)
unfolding stage_loop
stage_loop-replies zero tag input answers h = absurd (omega arith)
stage_loop-replies (suc n) tag input [] h =
    ap some (sym (no_answer tag (before_blank (lines_of input))))
stage_loop-replies (suc n) tag [] (resp ∷ answers) h = unfold readline lines_of in refl
stage_loop-replies (suc n) tag (c ∷ cs) (resp ∷ answers) h = elim (Bool-cases (c == newline)) [
  | inl e ↦ unfold readline lines_of in rw e refl
  | inr e ↦
      let some_byte : 0 < length (readline 256 [] (c ∷ cs)).0 =
        unfold readline in rw e (omega (arith, longer_line 256 (c ∷ []) cs)) in
      let z : (length (readline 256 [] (c ∷ cs)).0 == 0) ≡ false = ground arith in
      let cut : lines_of (c ∷ cs) ≡ longer c (lines_of cs) = unfold lines_of in rw e refl in
      let left : before_blank (lines_of (readline 256 [] (c ∷ cs)).1)
          ≡ before_blank (others (lines_of cs)) =
        before_blank-readline 256 [] (c ∷ cs)
        ∙ ap (λ ls. before_blank (others ls)) cut
        ∙ ap before_blank (others-longer c (lines_of cs)) in
      rw (z, cut)
        (reply tag resp c (lines_of cs) answers _ (
          stage_loop-replies n tag (readline 256 [] (c ∷ cs)).1 answers
            (omega (arith, readline_shorter 256 [] (c ∷ cs) some_byte))
          ∙ ap (λ ls. some (replies tag ls answers)) left))
]

-- A stage ends on every input, and prints, for each line of the input before the first empty one, as
-- long as the model answers, the tag and the answer up to their NULs, cut to 639 bytes, and a newline.
pub stage-replies :
    (tag input : List ℕ) (answers : List (List ℕ))
    → stage tag input answers ≡ some (replies tag (before_blank (lines_of input)) answers)
unfolding stage
stage-replies tag input answers =
    stage_loop-replies (length input + 1) tag input answers (omega arith)
