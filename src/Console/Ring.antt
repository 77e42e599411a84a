-- ===== src/Console/Ring.antt =====
-- The ring of console.c: its places, and what the two stretches between its indices hold.
use liberal_os.Prelude.{
  ℕ, zero, suc, ◌+◌, ◌%◌, ◌≤◌, ◌<◌, ◌≡◌, refl, sym, ap, ap₂, ◌∙◌, ◌≢◌, List, [], ◌∷◌, ◌++◌, arith,
  length, get_or, set, get_or-set_self, get_or-set_ne,
}
use liberal_os.Console.{line_feed, word, Cons, gap, input_buf_size}

-- The n characters from the place of h on.
abbrev pub window : List ℕ → ℕ → ℕ → List ℕ
window buf h zero = []
window buf h (suc n) = get_or buf (h % input_buf_size) 0 ∷ window buf (h + 1) n

pub window-wrap :
    (buf : List ℕ) (h k n : ℕ)
    → h % input_buf_size ≡ k % input_buf_size
    → window buf h n ≡ window buf k n
window-wrap buf h k zero e = refl
window-wrap buf h k (suc n) e =
    ap₂ ◌∷◌ (ap (λ i. get_or buf i 0) e) (window-wrap buf (h + 1) (k + 1) n (omega arith))

-- A character stored m places further on does not change n ≤ m characters.
pub window-set_past :
    (buf : List ℕ) (c h m n i : ℕ)
    → n ≤ m
    → m < input_buf_size
    → i ≡ (h + m) % input_buf_size
    → window (set buf i c) h n ≡ window buf h n
window-set_past buf c h m zero i l small e = refl
window-set_past buf c h zero (suc n) i l small e = absurd (omega arith)
window-set_past buf c h (suc m) (suc n) i l small e =
    ap₂ ◌∷◌ (get_or-set_ne buf i (h % input_buf_size) c 0 (omega arith))
      (window-set_past buf c (h + 1) m n i (omega arith) (omega arith) (omega arith))

pub window-append :
    (buf : List ℕ) (h m n k j : ℕ)
    → k ≡ m + n
    → j ≡ h + m
    → window buf h k ≡ window buf h m ++ window buf j n
window-append buf h zero n k j e d = ap₂ (window buf) (omega (arith, d)) (omega (arith, e))
window-append buf h (suc m) n zero j e d = absurd (omega arith)
window-append buf h (suc m) n (suc k) j e d =
    ap (◌∷◌ (get_or buf (h % input_buf_size) 0))
      (window-append buf (h + 1) m n k j (omega arith) (omega arith))

-- The last of a stretch.
pub window-last :
    (buf : List ℕ) (h n : ℕ)
    → window buf h (suc n) ≡ window buf h n ++ (get_or buf ((h + n) % input_buf_size) 0 ∷ [])
window-last buf h n = window-append buf h n 1 (suc n) (h + n) (omega arith) refl

-- A character stored after n others is the last of n + 1.
pub window-set :
    (buf : List ℕ) (c h n i : ℕ)
    → length buf ≡ input_buf_size
    → n < input_buf_size
    → i ≡ (h + n) % input_buf_size
    → window (set buf i c) h (suc n) ≡ window buf h n ++ (c ∷ [])
window-set buf c h n i size small e =
    window-last (set buf i c) h n
    ∙ ap₂ (λ xs x. xs ++ (x ∷ [])) (window-set_past buf c h n n i (omega arith) small e)
        (ap (λ k. get_or (set buf i c) k 0) (sym e) ∙ get_or-set_self buf i c 0 (omega arith))

pub length-window : (buf : List ℕ) (h n : ℕ) → length (window buf h n) ≡ n
length-window buf h zero = refl
length-window buf h (suc n) = omega (arith, length-window buf (h + 1) n)

pub record IsCons (s : Cons) : Type 0 where
  pub size : length s.buf ≡ input_buf_size
  pub read_word : s.r < word
  pub write_word : s.w < word
  pub edit_word : s.e < word
  pub whole : gap s.e s.r ≡ gap s.w s.r + gap s.e s.w
  pub bounded : gap s.e s.r ≤ input_buf_size
  -- a line that is being edited holds no end of a line
  pub no_feed : (k : ℕ) → k < gap s.e s.w → get_or s.buf ((s.w + k) % input_buf_size) 0 ≢ line_feed

-- The characters that consoleread() may take, and those that can still be erased.
unfoldable pub ready : Cons → List ℕ
ready s = window s.buf s.r (gap s.w s.r)

unfoldable pub edit : Cons → List ℕ
edit s = window s.buf s.w (gap s.e s.w)

-- Where the edited line starts and ends, from the read index.
pub write_place :
    (s : Cons) → IsCons s → s.w % input_buf_size ≡ (s.r + gap s.w s.r) % input_buf_size
unfolding gap
write_place s v = omega (arith, v.read_word, v.write_word)

pub edit_place : (s : Cons) → IsCons s → s.e % input_buf_size ≡ (s.w + gap s.e s.w) % input_buf_size
unfolding gap
edit_place s v = omega (arith, v.edit_word, v.write_word)

pub end_place : (s : Cons) → IsCons s → s.e % input_buf_size ≡ (s.r + gap s.e s.r) % input_buf_size
unfolding gap
end_place s v = omega (arith, v.edit_word, v.read_word)
