-- ===== src/Agent/Proxy/Decimal.antt =====
-- Decimal numbers: what append_int() writes, parse_int() reads.
use liberal_os.Prelude.{
  ℕ, zero, suc, ◌+◌, ◌-◌, ◌*◌, ◌/◌, ◌%◌, ◌^◌, ◌≤◌, ◌<◌, ◌≡◌, refl, ap₂, ◌∙◌, inl, inr, true, false,
  some, List, [], ◌∷◌, ◌++◌, arith, ◌==◌, Bool-cases, length, length-append,
}
use liberal_os.Agent.Proxy.{decimal, parse_int, backwards, digits, is_digit, parse_loop}

-- The number that digits denote after v.
abbrev pub value : ℕ → List ℕ → ℕ
value v [] = v
value v (c ∷ cs) = value (v * 10 + (c - 48)) cs

abbrev pub AllDigits : List ℕ → Type 0
AllDigits [] = true ≡ true
AllDigits (c ∷ cs) = (is_digit c ≡ true) × AllDigits cs

value-append : (v : ℕ) (xs ys : List ℕ) → value v (xs ++ ys) ≡ value (value v xs) ys
value-append v [] ys = refl
value-append v (x ∷ xs) ys = value-append (v * 10 + (x - 48)) xs ys

AllDigits-append : (xs ys : List ℕ) → AllDigits xs → AllDigits ys → AllDigits (xs ++ ys)
AllDigits-append [] ys h k = k
AllDigits-append (x ∷ xs) ys h k = (h.0, AllDigits-append xs ys h.1 k)

digit : (v : ℕ) → is_digit (48 + v % 10) ≡ true
digit v = ground arith

backwards-AllDigits : (n v : ℕ) → AllDigits (backwards (digits n v))
unfolding digits backwards
backwards-AllDigits zero v = refl
backwards-AllDigits (suc n) v = elim (Bool-cases (v == 0)) [
  | inl e ↦ rw e refl
  | inr e ↦ rw e (
      AllDigits-append (backwards (digits n (v / 10))) ((48 + v % 10) ∷ [])
        (backwards-AllDigits n (v / 10)) (digit v, refl))
]

abbrev pub ten_to : ℕ → ℕ
ten_to zero = 1
ten_to (suc n) = 10 * ten_to n

value-backwards : (n v : ℕ) → v < ten_to n → value 0 (backwards (digits n v)) ≡ v
unfolding digits backwards
value-backwards zero v h = omega arith
value-backwards (suc n) v h = elim (Bool-cases (v == 0)) [
  | inl e ↦ rw e (ground arith)
  | inr e ↦ rw e (
      value-append 0 (backwards (digits n (v / 10))) ((48 + v % 10) ∷ [])
      ∙ rw (value-backwards n (v / 10) (omega arith)) (omega arith))
]

parse_loop-append :
    (ds rest : List ℕ) (max v i : ℕ)
    → AllDigits ds
    → length ds ≤ max
    → parse_loop (ds ++ rest) max v i
      ≡ parse_loop rest (max - length ds) (value v ds) (i + length ds)
unfolding parse_loop
parse_loop-append [] rest max v i d h =
    let same : i + 0 ≡ i = omega arith in
    let whole : max - 0 ≡ max = omega arith in rw (same, whole) refl
parse_loop-append (c ∷ ds) rest zero v i d h = absurd (omega arith)
parse_loop-append (c ∷ ds) rest (suc max) v i d h =
    let left : suc max - suc (length ds) ≡ max - length ds = omega arith in
    let done : i + suc (length ds) ≡ i + 1 + length ds = omega arith in
    rw (d.0, left, done)
      (parse_loop-append ds rest max (v * 10 + (c - 48)) (i + 1) d.1 (omega arith))

-- The loop stops at a byte that is no digit.
parse_loop_stops :
    (c : ℕ) (rest : List ℕ) (max v i : ℕ)
    → is_digit c ≡ false
    → parse_loop (c ∷ rest) max v i ≡ (v, i)
unfolding parse_loop
parse_loop_stops c rest zero v i h = refl
parse_loop_stops c rest (suc max) v i h = rw h refl

pub decimal-AllDigits : (v : ℕ) → AllDigits (decimal v)
unfolding decimal
decimal-AllDigits v = elim (Bool-cases (v == 0)) [
  | inl e ↦ rw e (refl, refl)
  | inr e ↦ rw e (backwards-AllDigits 12 v)
]

value-decimal : (v : ℕ) → v < 2 ^ 31 → value 0 (decimal v) ≡ v
unfolding decimal
value-decimal v h = elim (Bool-cases (v == 0)) [
  | inl e ↦ rw e (ground arith)
  | inr e ↦ rw e (value-backwards 12 v (omega arith))
]

pub decimal_nonempty : (v : ℕ) → 0 < length (decimal v)
unfolding decimal digits backwards
decimal_nonempty v = elim (Bool-cases (v == 0)) [
  | inl e ↦ rw e (omega arith)
  | inr e ↦
      rw e (omega (arith, length-append (backwards (digits 11 (v / 10))) ((48 + v % 10) ∷ [])))
]

-- _proxy_parse_int() reads back what _proxy_append_int() writes, and stops at the byte after it.
pub parse_int-decimal :
    (v c : ℕ) (rest : List ℕ) (max : ℕ)
    → v < 2 ^ 31
    → is_digit c ≡ false
    → length (decimal v) ≤ max
    → parse_int (decimal v ++ (c ∷ rest)) max ≡ some (v, length (decimal v))
unfolding parse_int
parse_int-decimal v c rest max h n fits =
    let run : parse_loop (decimal v ++ (c ∷ rest)) max 0 0 ≡ (v, length (decimal v)) =
      parse_loop-append (decimal v) (c ∷ rest) max 0 0 (decimal-AllDigits v) fits
      ∙ parse_loop_stops c rest (max - length (decimal v)) (value 0 (decimal v))
          (0 + length (decimal v)) n
      ∙ ap₂ (λ a b. (a, b)) (value-decimal v h) (omega arith) in
    let some_digit : (length (decimal v) == 0) ≡ false = ground (arith, decimal_nonempty v) in
    rw (run, some_digit) refl
