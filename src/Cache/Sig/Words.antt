-- ===== src/Cache/Sig/Words.antt =====
-- A signature is a function of the set of content words of the prompt.
use liberal_os.Prelude.{
  ℕ, suc, ◌+◌, ◌-◌, ◌≤◌, ◌≡◌, refl, sym, ap, ap₂, ◌∙◌, ◌⊎◌, inl, inr, List, [], ◌∷◌, arith, ◌==◌,
  if◌then◌else◌, length, replicate,
}
use liberal_os.Cache.Hash.{u64}
use liberal_os.Cache.Sig.{
  sig_k, cache_sig, sig_match, is_alnum, lower, flush_word, grow_word, is_stopword, sig_fold_word,
  sig_loop, fold_min,
}

-- The words of a prompt, cut at 31 bytes: maximal runs of letters and digits, in lower case, without
-- the stopwords. `word` is the run read so far.
unfoldable pub emit : List ℕ → List (List ℕ) → List (List ℕ)
emit [] ws = ws
emit (c ∷ w) ws = if is_stopword (c ∷ w) then ws else (c ∷ w) ∷ ws

unfoldable pub words_from : List ℕ → List ℕ → List (List ℕ)
words_from [] word = emit word []
words_from (c ∷ p) word =
    let stop = emit word [] in
    let next = emit word (words_from p []) in
    let more = words_from p (grow_word word (lower c)) in
    if c == 0 then stop else if is_alnum (lower c) then more else next

unfoldable pub content_words : List ℕ → List (List ℕ)
content_words prompt = words_from prompt []

pub fold_words : List (List ℕ) → List ℕ → List ℕ
fold_words [] sig = sig
fold_words (w ∷ ws) sig = fold_words ws (sig_fold_word sig w)

flush-fold_words :
    (word : List ℕ) (ws : List (List ℕ)) (sig : List ℕ)
    → fold_words ws (flush_word word sig) ≡ fold_words (emit word ws) sig
unfolding flush_word emit fold_words
flush-fold_words [] ws sig = refl
flush-fold_words (c ∷ w) ws sig = ground arith

sig_loop-fold_words :
    (p word sig : List ℕ) → sig_loop p word sig ≡ fold_words (words_from p word) sig
unfolding sig_loop words_from fold_words
sig_loop-fold_words [] word sig = flush-fold_words word [] sig
sig_loop-fold_words (c ∷ p) word sig = ground (
  arith,
  flush-fold_words word [] sig,
  flush-fold_words word (words_from p []) sig,
  sig_loop-fold_words p [] (flush_word word sig),
  sig_loop-fold_words p (grow_word word (lower c)) sig,
)

-- The signature is the fold of the content words, in the order in which they stand.
pub cache_sig-fold_words :
    (prompt : List ℕ)
    → cache_sig prompt ≡ fold_words (content_words prompt) (replicate sig_k (u64 - 1))
unfolding cache_sig content_words
cache_sig-fold_words prompt = sig_loop-fold_words prompt [] _

abbrev pub In : List ℕ → List (List ℕ) → Type 0
In w [] = ⊥
In w (v ∷ ws) = (w ≡ v) ⊎ In w ws

-- The same words, whatever their order and number.
abbrev pub SameWords : List (List ℕ) → List (List ℕ) → Type 0
SameWords ws vs = ((w : List ℕ) → In w ws → In w vs) × ((w : List ℕ) → In w vs → In w ws)

fold_min_comm :
    (k a b c d : ℕ) (sig : List ℕ)
    → fold_min k a b (fold_min k c d sig) ≡ fold_min k c d (fold_min k a b sig)
unfolding fold_min
fold_min_comm k a b c d [] = refl
fold_min_comm k a b c d (s ∷ sig) = ap₂ ◌∷◌ (ground arith) (fold_min_comm (k + 1) a b c d sig)

fold_min_idem :
    (k a b : ℕ) (sig : List ℕ) → fold_min k a b (fold_min k a b sig) ≡ fold_min k a b sig
unfolding fold_min
fold_min_idem k a b [] = refl
fold_min_idem k a b (s ∷ sig) = ap₂ ◌∷◌ (ground arith) (fold_min_idem (k + 1) a b sig)

fold_word_comm :
    (w v sig : List ℕ)
    → sig_fold_word (sig_fold_word sig w) v ≡ sig_fold_word (sig_fold_word sig v) w
unfolding sig_fold_word
fold_word_comm w v sig = fold_min_comm 0 _ _ _ _ sig

fold_words-fold_word :
    (ws : List (List ℕ)) (w sig : List ℕ)
    → fold_words ws (sig_fold_word sig w) ≡ sig_fold_word (fold_words ws sig) w
unfolding fold_words
fold_words-fold_word [] w sig = refl
fold_words-fold_word (v ∷ ws) w sig =
    ap (fold_words ws) (fold_word_comm w v sig) ∙ fold_words-fold_word ws w (sig_fold_word sig v)

-- A word that has been folded in is not felt again.
fold_word-In :
    (ws : List (List ℕ)) (w sig : List ℕ)
    → In w ws
    → sig_fold_word (fold_words ws sig) w ≡ fold_words ws sig
unfolding fold_words
fold_word-In [] w sig h = absurd h
fold_word-In (v ∷ ws) w sig (inr h) = fold_word-In ws w (sig_fold_word sig v) h
fold_word-In (v ∷ ws) w sig (inl e) =
    sym (fold_words-fold_word ws w (sig_fold_word sig v))
    ∙ ap (fold_words ws) (ap (sig_fold_word (sig_fold_word sig v)) e ∙ idem v sig)
  where
    idem : (v sig : List ℕ) → sig_fold_word (sig_fold_word sig v) v ≡ sig_fold_word sig v
    idem v sig = unfold sig_fold_word in fold_min_idem 0 _ _ sig

fold_words-subset :
    (vs ws : List (List ℕ)) (sig : List ℕ)
    → ((w : List ℕ) → In w vs → In w ws)
    → fold_words vs (fold_words ws sig) ≡ fold_words ws sig
unfolding fold_words
fold_words-subset [] ws sig h = refl
fold_words-subset (v ∷ vs) ws sig h =
    rw (fold_word-In ws v sig (h v (inl refl))) (fold_words-subset vs ws sig (λ w k. h w (inr k)))

fold_words_comm :
    (vs ws : List (List ℕ)) (sig : List ℕ)
    → fold_words vs (fold_words ws sig) ≡ fold_words ws (fold_words vs sig)
unfolding fold_words
fold_words_comm [] ws sig = refl
fold_words_comm (v ∷ vs) ws sig =
    ap (fold_words vs) (sym (fold_words-fold_word ws v sig))
    ∙ fold_words_comm vs ws (sig_fold_word sig v)

-- Two prompts with the same content words have the same signature, whatever the order and the
-- number of the words and the filler between them.
pub cache_sig-SameWords :
    (p q : List ℕ) → SameWords (content_words p) (content_words q) → cache_sig p ≡ cache_sig q
cache_sig-SameWords p q (there, back) =
    rw (cache_sig-fold_words p, cache_sig-fold_words q)
      (sym (fold_words-subset (content_words q) (content_words p) _ back)
        ∙ fold_words_comm (content_words q) (content_words p) _
        ∙ fold_words-subset (content_words p) (content_words q) _ there)

length-fold_min : (k a b : ℕ) (sig : List ℕ) → length (fold_min k a b sig) ≡ length sig
unfolding fold_min
length-fold_min k a b [] = refl
length-fold_min k a b (s ∷ sig) = ap suc (length-fold_min (k + 1) a b sig)

length-fold_words : (ws : List (List ℕ)) (sig : List ℕ) → length (fold_words ws sig) ≡ length sig
unfolding fold_words
length-fold_words [] sig = refl
length-fold_words (w ∷ ws) sig = length-fold_words ws (sig_fold_word sig w) ∙ one w sig
  where
    one : (w sig : List ℕ) → length (sig_fold_word sig w) ≡ length sig
    one w sig = unfold sig_fold_word in length-fold_min 0 _ _ sig

pub length-cache_sig : (prompt : List ℕ) → length (cache_sig prompt) ≡ sig_k
length-cache_sig prompt = rw cache_sig-fold_words (length-fold_words (content_words prompt) _)

pub sig_match_self : (a : List ℕ) → sig_match a a ≡ length a
unfolding sig_match
sig_match_self [] = refl
sig_match_self (x ∷ a) = ground (arith, sig_match_self a)

pub sig_match-le : (a b : List ℕ) → sig_match a b ≤ length a
unfolding sig_match
sig_match-le [] b = omega arith
sig_match-le (x ∷ a) [] = omega arith
sig_match-le (x ∷ a) (y ∷ b) = ground (arith, sig_match-le a b)
