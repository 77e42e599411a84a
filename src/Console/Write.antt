-- ===== src/Console/Write.antt =====
-- consolewrite() of kernel/console.c: the bytes of a write() go out in chunks of a staging buffer.
-- What either_copyin() gives for an offset and a length is an argument, none for a fault.
use liberal_os.Prelude.{
  ℕ, zero, suc, ◌+◌, ◌-◌, ◌≤◌, ◌<◌, min, ◌≡◌, refl, sym, ap, ◌∙◌, inl, inr, Option, none, some,
  List, [], ◌∷◌, ◌++◌, arith, ltb, if◌then◌else◌, Bool-cases, take, drop,
}

-- sizeof(buf)
abbrev pub staging : ℕ
staging = 1024

-- The result i and the chunks that uartwrite() is given.
pub record Writing : Type 0 where
  pub done : ℕ
  pub chunks : List (List ℕ)

module _ (copyin : ℕ → ℕ → Option (List ℕ)) where
  unfoldable pub write_chunk : Option (List ℕ) → ℕ → Writing → Writing
  write_chunk none i rest = record { done = i; chunks = [] }
  write_chunk (some bytes) i rest = record rest { chunks = bytes ∷ rest.chunks }

  -- The loop from i on, in at most n rounds.
  unfoldable pub write_chunks : ℕ → ℕ → ℕ → Writing
  write_chunks zero n i = record { done = i; chunks = [] }
  write_chunks (suc fuel) n i =
      let rest = write_chunks fuel n (i + min staging (n - i)) in
      if ltb i n
      then write_chunk (copyin i (min staging (n - i))) i rest
      else record { done = i; chunks = [] }

  -- A round writes a byte at least, so n rounds are enough.
  unfoldable pub consolewrite : ℕ → Writing
  consolewrite n = write_chunks n n 0

abbrev pub joined : List (List ℕ) → List ℕ
joined [] = []
joined (c ∷ cs) = c ++ joined cs

-- What memory that holds a text gives.
abbrev pub from_text : List ℕ → ℕ → ℕ → Option (List ℕ)
from_text text i len = some (take len (drop i text))

drop_nil : (n : ℕ) → drop {A = ℕ} n [] ≡ []
drop_nil zero = refl
drop_nil (suc n) = refl

take_nil : (n : ℕ) → take {A = ℕ} n [] ≡ []
take_nil zero = refl
take_nil (suc n) = refl

take_none : (k : ℕ) (xs : List ℕ) → k ≡ 0 → [] ≡ take k xs
take_none zero xs e = refl
take_none (suc k) xs e = absurd (omega arith)

take_split :
    (text : List ℕ) (a b k : ℕ) → k ≡ a + b → take a text ++ take b (drop a text) ≡ take k text
take_split text zero b k e = ap (λ n. take n text) (omega (arith, e))
take_split [] (suc a) b k e = take_nil b ∙ sym (take_nil k)
take_split (x ∷ text) (suc a) b zero e = absurd (omega arith)
take_split (x ∷ text) (suc a) b (suc k) e = ap (◌∷◌ x) (take_split text a b k (omega arith))

drop-drop : (text : List ℕ) (i a j : ℕ) → j ≡ i + a → drop a (drop i text) ≡ drop j text
drop-drop text zero a j e = ap (λ n. drop n text) (omega (arith, e))
drop-drop [] (suc i) a j e = drop_nil a ∙ sym (drop_nil j)
drop-drop (x ∷ text) (suc i) a zero e = absurd (omega arith)
drop-drop (x ∷ text) (suc i) a (suc j) e = drop-drop text i a j (omega arith)

-- The chunk at i and what the later rounds write.
next_chunk :
    (text rest : List ℕ) (i a n : ℕ)
    → i + a ≤ n
    → rest ≡ take (n - (i + a)) (drop (i + a) text)
    → take a (drop i text) ++ rest ≡ take (n - i) (drop i text)
next_chunk text rest i a n l e =
    ap (◌++◌ (take a (drop i text)))
      (e ∙ ap (take (n - (i + a))) (sym (drop-drop text i a (i + a) refl)))
    ∙ take_split (drop i text) a (n - (i + a)) (n - i) (omega arith)

write_chunks_text :
    (text : List ℕ) (fuel n i : ℕ)
    → n ≤ i + fuel
    → i ≤ n
    → (joined (write_chunks (from_text text) fuel n i).chunks ≡ take (n - i) (drop i text))
      × ((write_chunks (from_text text) fuel n i).done ≡ n)
unfolding write_chunks write_chunk
write_chunks_text text zero n i f l = (take_none (n - i) (drop i text) (omega arith), omega arith)
write_chunks_text text (suc fuel) n i f l = elim (Bool-cases (ltb i n)) [
  | inl e ↦
      let h : i < n = ground arith in
      let ih =
        write_chunks_text text fuel n (i + min staging (n - i)) (omega arith) (omega arith) in
      rw e (next_chunk text _ i (min staging (n - i)) n (omega arith) ih.0, ih.1)
  | inr e ↦
      let h : n ≤ i = ground arith in
      rw e (take_none (n - i) (drop i text) (omega arith), omega arith)
]

-- A write() whose bytes can all be read puts them out in order, and returns their number.
pub consolewrite_text :
    (text : List ℕ) (n : ℕ)
    → (joined (consolewrite (from_text text) n).chunks ≡ take n text)
      × ((consolewrite (from_text text) n).done ≡ n)
unfolding consolewrite
consolewrite_text text n =
    let h = write_chunks_text text n n 0 (omega arith) (omega arith) in
    (h.0 ∙ ap (λ k. take k text) (omega arith), h.1)
