-- ===== src/Fs/Bytes.antt =====
-- The little-endian numbers in a block that kernel/fs.c reads and writes through the structs of
-- kernel/fs.h: a short has two bytes, a uint four.
use liberal_os.Prelude.{
  ℕ, zero, suc, ◌+◌, ◌*◌, ◌/◌, ◌%◌, ◌≤◌, ◌<◌, ◌≡◌, refl, sym, ap₂, ◌∙◌, ◌⊎◌, inl, inr, true, List,
  [], ◌∷◌, arith, length, get_or, set, length-set, get_or-set_self, get_or-set_ne,
}

unfoldable pub word_at : ℕ → List ℕ → ℕ → ℕ
word_at zero b o = 0
word_at (suc n) b o = get_or b o 0 + 256 * word_at n b (o + 1)

unfoldable pub put_le : ℕ → ℕ → List ℕ → ℕ → List ℕ
put_le zero x b o = b
put_le (suc n) x b o = put_le n (x / 256) (set b o (x % 256)) (o + 1)

-- An array of uints.
unfoldable pub words_at : ℕ → List ℕ → ℕ → List ℕ
words_at zero b o = []
words_at (suc n) b o = word_at 4 b o ∷ words_at n b (o + 4)

unfoldable pub put_words : List ℕ → List ℕ → ℕ → List ℕ
put_words [] b o = b
put_words (x ∷ xs) b o = put_words xs (put_le 4 x b o) (o + 4)

-- A number of n bytes.
abbrev pub Fits : ℕ → ℕ → Type 0
Fits zero x = x ≡ 0
Fits (suc n) x = Fits n (x / 256)

abbrev pub AllFit : List ℕ → Type 0
AllFit [] = true ≡ true
AllFit (x ∷ xs) = Fits 4 x × AllFit xs

pub length-put_le : (n x : ℕ) (b : List ℕ) (o : ℕ) → length (put_le n x b o) ≡ length b
unfolding put_le
length-put_le zero x b o = refl
length-put_le (suc n) x b o =
    length-put_le n (x / 256) (set b o (x % 256)) (o + 1) ∙ length-set b o (x % 256)

pub get_or-put_le :
    (n x : ℕ) (b : List ℕ) (o i : ℕ)
    → (i < o) ⊎ (o + n ≤ i)
    → get_or (put_le n x b o) i 0 ≡ get_or b i 0
unfolding put_le
get_or-put_le zero x b o i h = refl
get_or-put_le (suc n) x b o i h =
    get_or-put_le n (x / 256) (set b o (x % 256)) (o + 1) i
      (elim h [ inl l ↦ inl (omega arith) | inr l ↦ inr (omega arith) ])
    ∙ get_or-set_ne b o i (x % 256) 0
        (elim h [ inl l ↦ λ e. omega (arith, e, l) | inr l ↦ λ e. omega (arith, e, l) ])

pub word_at-put_le :
    (n x : ℕ) (b : List ℕ) (o : ℕ) → o + n ≤ length b → Fits n x → word_at n (put_le n x b o) o ≡ x
unfolding word_at put_le
word_at-put_le zero x b o l f = sym f
word_at-put_le (suc n) x b o l f =
    let c = set b o (x % 256) in
    let q : length c ≡ length b = length-set b o (x % 256) in
    let low : get_or (put_le n (x / 256) c (o + 1)) o 0 ≡ x % 256 =
      get_or-put_le n (x / 256) c (o + 1) o (inl (omega arith))
      ∙ get_or-set_self b o (x % 256) 0 (omega (arith, l)) in
    let high : word_at n (put_le n (x / 256) c (o + 1)) (o + 1) ≡ x / 256 =
      word_at-put_le n (x / 256) c (o + 1) (omega (arith, l, q)) f in
    rw (low, high) (omega arith)

-- A word that is the same byte by byte.
pub word_at_same :
    (n : ℕ) (b c : List ℕ) (o : ℕ)
    → ((i : ℕ) → o ≤ i → i < o + n → get_or b i 0 ≡ get_or c i 0)
    → word_at n b o ≡ word_at n c o
unfolding word_at
word_at_same zero b c o h = refl
word_at_same (suc n) b c o h =
    ap₂ (λ x y. x + 256 * y) (h o (omega arith) (omega arith))
      (word_at_same n b c (o + 1) (λ i g l. h i (omega arith) (omega arith)))

pub word_at-put_word_other :
    (m n x : ℕ) (b : List ℕ) (o p : ℕ)
    → (p + m ≤ o) ⊎ (o + n ≤ p)
    → word_at m (put_le n x b o) p ≡ word_at m b p
word_at-put_word_other m n x b o p h = word_at_same m (put_le n x b o) b p (λ i g l.
    get_or-put_le n x b o i (elim h [ inl s ↦ inl (omega arith) | inr s ↦ inr (omega arith) ]))

pub words_at_same :
    (n : ℕ) (b c : List ℕ) (o : ℕ)
    → ((i : ℕ) → o ≤ i → i < o + 4 * n → get_or b i 0 ≡ get_or c i 0)
    → words_at n b o ≡ words_at n c o
unfolding words_at
words_at_same zero b c o h = refl
words_at_same (suc n) b c o h =
    ap₂ (λ x y. x ∷ y) (word_at_same 4 b c o (λ i g l. h i g (omega arith)))
      (words_at_same n b c (o + 4) (λ i g l. h i (omega arith) (omega arith)))

pub get_or-put_words :
    (xs b : List ℕ) (o i : ℕ)
    → (i < o) ⊎ (o + 4 * length xs ≤ i)
    → get_or (put_words xs b o) i 0 ≡ get_or b i 0
unfolding put_words
get_or-put_words [] b o i h = refl
get_or-put_words (x ∷ xs) b o i h =
    get_or-put_words xs (put_le 4 x b o) (o + 4) i
      (elim h [ inl l ↦ inl (omega arith) | inr l ↦ inr (omega (arith, l)) ])
    ∙ get_or-put_le 4 x b o i
        (elim h [ inl l ↦ inl (omega arith) | inr l ↦ inr (omega (arith, l)) ])

pub words_at-put_words :
    (xs b : List ℕ) (o : ℕ)
    → o + 4 * length xs ≤ length b
    → AllFit xs
    → words_at (length xs) (put_words xs b o) o ≡ xs
unfolding words_at put_words
words_at-put_words [] b o l f = refl
words_at-put_words (x ∷ xs) b o l f =
    let q : length (put_le 4 x b o) ≡ length b = length-put_le 4 x b o in
    ap₂ (λ y ys. y ∷ ys)
      (word_at_same 4 (put_words xs (put_le 4 x b o) (o + 4)) (put_le 4 x b o) o
          (λ i g s. get_or-put_words xs (put_le 4 x b o) (o + 4) i (inl (omega arith)))
        ∙ word_at-put_le 4 x b o (omega (arith, l)) f.0)
      (words_at-put_words xs (put_le 4 x b o) (o + 4) (omega (arith, l, q)) f.1)
