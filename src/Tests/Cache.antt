-- ===== src/Tests/Cache.antt =====
-- Runs of the response cache on its 64 slots.
use liberal_os.Prelude.{
  ℕ, ◌≡◌, refl, true, false, none, some, List, [], ◌∷◌, arith, pos, take, replicate,
}
use liberal_os.Cache.Api.Persist.{cache_get-cache_clear-cache_set}
use liberal_os.Cache.Api.Similar.{cache_get-cache_set_paraphrase}
use liberal_os.Cache.Api.Laws.{cache_get-cache_set, Holds}
use liberal_os.Cache.Api.Invariant.{run_all-IsTable, Call, run_all, IsTable}
use liberal_os.Cache.Api.Sound.{cache_get_sound, Fits, Held}
use liberal_os.CString.Laws.{text}
use liberal_os.Verifier.{codes}
use liberal_os.Cache.Hash.{cache_fnv1a, mix, mix_string}
use liberal_os.Cache.Sig.{cache_sig, is_stopword, lower, is_alnum, grow_word}
use liberal_os.Cache.Sig.Words.{SameWords, content_words, words_from, emit}
use liberal_os.Cache.Slots.{copy_value, free_or_match, exact_value, Slot, nslot, val_len, role_len}
use liberal_os.Cache.Api.{record_of, cache_clear, cache_get, store, Cache, cache_set}

abbrev no_slot : Slot
no_slot = record { key = 0; role = []; sig = []; val = [] }

abbrev fresh : Cache
fresh = record { slots = replicate nslot no_slot; disk = some [] }

abbrev role_buf : List ℕ
role_buf = replicate role_len 7

abbrev val_buf : List ℕ
val_buf = replicate val_len 7

abbrev room : List ℕ
room = replicate 8 7

abbrev role : List ℕ
role = codes "parser"

abbrev question : List ℕ
question = codes "Fix the disk"

abbrev paraphrase : List ℕ
paraphrase = codes "please: fix disk!"

abbrev reply : List ℕ
reply = codes "reformat"

-- Two Hangul syllables in UTF-8.
abbrev hangul : List ℕ
hangul = 234 ∷ 176 ∷ 128 ∷ []

abbrev other_hangul : List ℕ
other_hangul = 235 ∷ 130 ∷ 152 ∷ []

abbrev filled : Cache
filled = (cache_set fresh role_buf val_buf role question reply true).1

fnv_runs : cache_fnv1a (codes "a") (codes "b") ≡ 16263343027491735748
unfolding cache_fnv1a mix_string mix
fnv_runs = refl

words_run : content_words paraphrase ≡ codes "fix" ∷ codes "disk" ∷ []
unfolding content_words words_from emit is_stopword lower is_alnum grow_word
words_run = refl

cache_set_stores : (cache_set fresh role_buf val_buf role question reply true).0 ≡ true
unfolding cache_set store free_or_match record_of cache_fnv1a mix_string mix
cache_set_stores = refl

cache_get-cache_set_example :
    let answer = cache_get filled role question (some room) (pos 8) in
    (answer.0 ≡ true) × Holds answer.1 7 (take 191 (text reply)) × (answer.2 ≡ filled)
cache_get-cache_set_example =
    cache_get-cache_set fresh role_buf val_buf role question reply true room 7 refl (omega arith)
      cache_set_stores

cache_get-cache_clear-cache_set_example :
    let answer = cache_get (cache_clear filled false) role question (some room) (pos 8) in
    (answer.0 ≡ true)
    × Holds answer.1 7 (take 191 (text reply))
    × ((v : List ℕ) × (exact_value answer.2.slots (cache_fnv1a role question) ≡ some v)
        × (text v ≡ take 191 (text reply)))
cache_get-cache_clear-cache_set_example =
    cache_get-cache_clear-cache_set fresh role_buf val_buf role question reply [] room 7 refl refl
      (omega arith) cache_set_stores

same_words : SameWords (content_words paraphrase) (content_words question)
unfolding content_words words_from emit is_stopword lower is_alnum grow_word
same_words = ((λ w h. h), (λ w h. h))

cache_get-cache_set_paraphrase_example : (cache_get filled role paraphrase none (pos 0)).0 ≡ true
unfolding text
cache_get-cache_set_paraphrase_example =
    cache_get-cache_set_paraphrase fresh role_buf val_buf role paraphrase question reply true none
      (pos 0) refl (omega arith) same_words cache_set_stores

hangul_stores : (cache_set fresh role_buf val_buf role hangul reply true).0 ≡ true
unfolding cache_set store free_or_match record_of cache_fnv1a mix_string mix
hangul_stores = refl

paraphrase_hits : (cache_get filled role paraphrase none (pos 0)).0 ≡ true
unfolding text
paraphrase_hits =
    cache_get-cache_set_paraphrase fresh role_buf val_buf role paraphrase question reply true none
      (pos 0) refl (omega arith) same_words cache_set_stores

cache_get_sound_example :
    (rec : Slot) × Held filled rec
    × Fits role (cache_fnv1a role paraphrase) (cache_sig paraphrase) rec
    × ((cache_get filled role paraphrase none (pos 0)).1 ≡ copy_value none (pos 0) rec.val)
cache_get_sound_example = cache_get_sound filled role paraphrase none (pos 0) paraphrase_hits

fresh-IsTable : IsTable fresh
fresh-IsTable = record { size = refl; distinct = omega arith }

run_all-IsTable_example :
    IsTable (run_all fresh (Call.get role question none (pos 0) ∷ Call.clear true ∷ []))
run_all-IsTable_example =
    run_all-IsTable fresh (Call.get role question none (pos 0) ∷ Call.clear true ∷ []) fresh-IsTable

-- One slot, taken by a key that no prompt below has.
abbrev taken : Cache
taken = record { slots = record no_slot { key = 5 } ∷ []; disk = none }
