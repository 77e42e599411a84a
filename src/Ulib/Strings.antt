-- ===== src/Ulib/Strings.antt =====
-- The string functions of user/ulib.c on the texts of strings.
use liberal_os.Agent.Proxy.Decimal.{parse_int-decimal}
use liberal_os.Prelude.{
  ℕ, zero, suc, ◌+◌, ◌-◌, ◌*◌, ◌^◌, ◌≤◌, ◌<◌, ◌≡◌, refl, ap, ◌∙◌, ◌↔◌, ◌⊎◌, inl, inr, false, ◌||◌,
  none, some, List, [], ◌∷◌, ◌++◌, arith, ◌==◌, if◌then◌else◌, ==_iff, Bool-cases, pos, length,
  length-append,
}
use liberal_os.CString.{tail}
use liberal_os.Agent.Proxy.{decimal, is_digit, parse_int, parse_loop}
use liberal_os.CString.Laws.{text-head-tail, text}
use liberal_os.Ulib.{atoi, digit, atoi_loop, gets_loop, strchr, strcmp, strcpy}

-- strcmp() finds no difference exactly when the texts are the same.
pub strcmp_iff : (p q : List ℕ) → (strcmp p q ≡ pos 0) ↔ (text p ≡ text q)
unfolding strcmp
strcmp_iff [] q = ground (arith, text-head-tail q, text-head-tail [])
strcmp_iff (c ∷ p) q =
    ground (arith, strcmp_iff p (tail q), text-head-tail (c ∷ p), text-head-tail q)

-- strcpy() to a buffer with room for it copies the text.
pub text-strcpy : (s t : List ℕ) → length (text t) < length s → text (strcpy s t) ≡ text t
unfolding strcpy text
text-strcpy [] t h = absurd (omega arith)
text-strcpy (d ∷ s) t h = ground (arith, text-strcpy s (tail t), text-head-tail t)

-- strchr() gives none or a string that starts with the byte.
pub strchr_cases :
    (s : List ℕ) (c : ℕ) → (strchr s c ≡ none) ⊎ ((r : List ℕ) × (strchr s c ≡ some (c ∷ r)))
unfolding strchr
strchr_cases [] c = inl refl
strchr_cases (d ∷ s) c = elim (Bool-cases (d == 0)) [
  | inl e ↦ rw e (inl refl)
  | inr e ↦ elim (Bool-cases (d == c)) [
    | inl f ↦ rw (e, f) (inr (s, ap (λ x. some (x ∷ s)) ((==_iff d c).0 f)))
    | inr f ↦ rw (e, f) (strchr_cases s c)
  ]
]

-- gets() stores at most max bytes, its terminator included.
pub length-gets_loop : (room : ℕ) (input : List ℕ) → length (gets_loop room input).0 ≤ room
unfolding gets_loop
length-gets_loop zero input = omega arith
length-gets_loop (suc room) [] = omega arith
length-gets_loop (suc room) (c ∷ input) = elim (Bool-cases (c == 10 || c == 13)) [
  | inl e ↦ rw e (omega arith)
  | inr e ↦ rw e (omega (arith, length-gets_loop room input))
]

-- atoi() reads as _proxy_parse_int() does.
pub atoi_loop-parse_loop : (s : List ℕ) (n i : ℕ) → atoi_loop s n ≡ (parse_loop s (length s) n i).0
unfolding atoi_loop parse_loop
atoi_loop-parse_loop [] n i = refl
atoi_loop-parse_loop (c ∷ s) n i = elim (Bool-cases (digit c)) [
  | inl e ↦ rw e (atoi_loop-parse_loop s (n * 10 + (c - 48)) (i + 1))
  | inr e ↦ rw e refl
]

read_out : (r : ℕ × ℕ) (v k : ℕ) → (if r.1 == 0 then none else some r) ≡ some (v, k) → r.0 ≡ v
read_out r v k h = elim (Bool-cases (r.1 == 0)) [
  | inl e ↦ absurd (ground arith)
  | inr e ↦ let q : r ≡ (v, k) = ground arith in ap (λ x. x.0) q
]

-- atoi() reads back the decimal digits of a number, up to a byte that is no digit.
pub atoi-decimal :
    (v c : ℕ) (rest : List ℕ) → v < 2 ^ 31 → is_digit c ≡ false → atoi (decimal v ++ (c ∷ rest)) ≡ v
unfolding atoi parse_int
atoi-decimal v c rest h n =
    let s = decimal v ++ (c ∷ rest) in
    atoi_loop-parse_loop s 0 0
    ∙ read_out (parse_loop s (length s) 0 0) v (length (decimal v)) (
        parse_int-decimal v c rest (length s) h n
          (omega (arith, length-append (decimal v) (c ∷ rest))))
