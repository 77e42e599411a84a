-- ===== src/Cache/Sig.antt =====
-- The MinHash signature of kernel/cache.c: is_stopword, sig_fold_word, cache_sig, sig_match and
-- sig_over_threshold. A signature is the list of its CACHE_SIG_K words.
pub mod Words
use liberal_os.Prelude.{
  ℕ, zero, suc, ◌+◌, ◌-◌, ◌*◌, ◌/◌, ◌%◌, ◌^◌, ◌≤◌, ◌<◌, min, ◌≡◌, refl, sym, ap, ap₂, ◌∙◌, subst,
  ◌≢◌, ◌↔◌, ◌⊎◌, inl, inr, Bool, true, false, not, ◌&&◌, ◌||◌, Option, none, some, List, [], ◌∷◌,
  ◌++◌, arith, ltb, leb, ◌==◌, if◌then◌else◌, ==_iff, ==-refl, ==-false, Bool-cases, Option-cases,
  ℤ, pos, negsuc, sub_ℕ, ◌≤ℤ◌, ◌<ℤ◌, ltb_ℤ, leb_ℤ, eqb_ℤ, eqb_ℤ_iff, length, get_elem?, get_or, set,
  take, drop, replicate, length-append, length-set, length-take, length-replicate,
  get_elem?-set_self, get_elem?-set_ne, get_or-set_self, get_or-set_ne, take-length, lt_of_le_ne,
}
use Prim.Native.Nat.{bit_xor, bit_or}
use liberal_os.CString.{head, tail}
use liberal_os.Verifier.{codes}
use liberal_os.Cache.Hash.{u64, fnv_basis, fnv_prime}

-- CACHE_SIG_K, CACHE_SIG_NUM and CACHE_SIG_DEN
abbrev pub sig_k : ℕ
sig_k = 16

abbrev pub sig_num : ℕ
sig_num = 2

abbrev pub sig_den : ℕ
sig_den = 5

abbrev pub stopwords : List (List ℕ)
stopwords =
    codes "the"
    ∷ codes "a"
    ∷ codes "an"
    ∷ codes "please"
    ∷ codes "to"
    ∷ codes "of"
    ∷ codes "and"
    ∷ codes "is"
    ∷ codes "are"
    ∷ codes "in"
    ∷ codes "on"
    ∷ codes "at"
    ∷ codes "for"
    ∷ codes "with"
    ∷ codes "this"
    ∷ codes "that"
    ∷ codes "it"
    ∷ codes "be"
    ∷ codes "can"
    ∷ codes "you"
    ∷ codes "me"
    ∷ []

-- The comparison of one stopword, which holds no NUL, with the NUL-terminated word.
unfoldable pub is_word : List ℕ → List ℕ → Bool
is_word [] w = head w == 0
is_word (c ∷ s) w = c == head w && is_word s (tail w)

unfoldable pub is_among : List (List ℕ) → List ℕ → Bool
is_among [] w = false
is_among (s ∷ ss) w = is_word s w || is_among ss w

unfoldable pub is_stopword : List ℕ → Bool
unfolding is_word is_among
is_stopword w = is_among stopwords w

-- h = (h ^ c) * m for each byte of the word
unfoldable pub base_hash : ℕ → ℕ → List ℕ → ℕ
base_hash m h [] = h
base_hash m h (c ∷ w) = base_hash m (bit_xor h c * m % u64) w

-- The loop over k: hash function k is h1 + k * h2.
unfoldable pub fold_min : ℕ → ℕ → ℕ → List ℕ → List ℕ
fold_min k h1 h2 [] = []
fold_min k h1 h2 (s ∷ sig) =
    let hk = (h1 + k * h2) % u64 in (if ltb hk s then hk else s) ∷ fold_min (k + 1) h1 h2 sig

unfoldable pub sig_fold_word : List ℕ → List ℕ → List ℕ
unfolding base_hash fold_min
sig_fold_word sig word =
    let h1 = base_hash fnv_prime fnv_basis word in
    let h2 = base_hash fnv_basis fnv_prime word in fold_min 0 h1 (bit_or h2 1) sig

unfoldable pub lower : ℕ → ℕ
lower c = if leb b'A' c && leb c b'Z' then c - b'A' + b'a' else c

unfoldable pub is_alnum : ℕ → Bool
is_alnum c = leb b'a' c && leb c b'z' || leb b'0' c && leb c b'9'

-- word[wl++] = c while the buffer of 32 bytes has room for a terminator
unfoldable pub grow_word : List ℕ → ℕ → List ℕ
grow_word word c = if ltb (length word) 31 then word ++ (c ∷ []) else word

unfoldable pub flush_word : List ℕ → List ℕ → List ℕ
flush_word [] sig = sig
flush_word (c ∷ w) sig = if is_stopword (c ∷ w) then sig else sig_fold_word sig (c ∷ w)

-- The loop of cache_sig at the word collected so far.
unfoldable pub sig_loop : List ℕ → List ℕ → List ℕ → List ℕ
sig_loop [] word sig = flush_word word sig
sig_loop (c ∷ p) word sig =
    let in_word = is_alnum (lower c) in
    let rest =
      sig_loop p (if in_word then grow_word word (lower c) else [])
        (if in_word then sig else flush_word word sig) in
    if c == 0 then flush_word word sig else rest

unfoldable pub cache_sig : List ℕ → List ℕ
cache_sig prompt = sig_loop prompt [] (replicate sig_k (u64 - 1))

unfoldable pub sig_match : List ℕ → List ℕ → ℕ
sig_match [] b = 0
sig_match (x ∷ a) [] = 0
sig_match (x ∷ a) (y ∷ b) = (if x == y then 1 else 0) + sig_match a b

unfoldable pub sig_over_threshold : ℕ → Bool
sig_over_threshold m = leb (sig_num * sig_k) (m * sig_den)
