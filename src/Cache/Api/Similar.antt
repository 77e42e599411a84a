-- ===== src/Cache/Api/Similar.antt =====
-- Semantic hits: which they are, and which must be.
use liberal_os.Prelude.{
  ℕ, zero, suc, ◌<◌, ◌≡◌, refl, ap, ◌∙◌, ◌≢◌, ◌⊎◌, inl, inr, Bool, true, false, Option, none, some,
  List, [], ◌∷◌, arith, Option-cases, ℤ, pos, eqb_ℤ_iff, length, set, take, take-length,
}
use liberal_os.Cache.Api.Laws.{store_cases}
use liberal_os.CString.{safestrcpy}
use liberal_os.CString.Laws.{strncmp_iff, text-safestrcpy, text}
use liberal_os.Cache.Slots.Laws.{free_or_match_iff, Target, target_of-Target, FirstKey}
use liberal_os.Cache.Hash.{cache_fnv1a_range, cache_fnv1a}
use liberal_os.Cache.Sig.{lower, is_alnum, cache_sig, sig_match, sig_over_threshold, sig_k}
use liberal_os.Cache.Sig.Words.{
  emit, words_from, content_words, SameWords, cache_sig-SameWords, sig_match_self, length-cache_sig,
}
use liberal_os.Cache.Slots.{free_or_match, ram_put, Slot, Best, exact_value, best_slot, same_role}
use liberal_os.Cache.Slots.Best.{SlotIn, Reached, best_slot-Reached}
use liberal_os.Cache.Disk.{settle_sem}
use liberal_os.Cache.Api.{cache_set, record_of, role_len, Cache, get_similar, cache_get}

over-Reached : (best : Best) → Reached sig_k best → (s : Slot) × (settle_sem best ≡ some s)
unfolding settle_sem sig_over_threshold
over-Reached none h = absurd h
over-Reached (some (b, s)) h = (s, ground arith)

-- A lookup hits if the table has a slot in use, of the role, for a prompt with the same content
-- words.
pub cache_get_paraphrase :
    (c : Cache) (role p q : List ℕ) (out : Option (List ℕ)) (outmax : ℤ) (s : Slot)
    → SlotIn s c.slots
    → s.key ≢ 0
    → same_role s role ≡ true
    → s.sig ≡ cache_sig q
    → SameWords (content_words p) (content_words q)
    → ((cache_get c role p out outmax).0 ≡ true) × ((cache_get c role p out outmax).2 ≡ c)
unfolding cache_get get_similar
cache_get_paraphrase c role p q out outmax s found used r made same =
    elim (Option-cases (exact_value c.slots (cache_fnv1a role p))) [
      | inr (v, e) ↦ rw (e, cache_get) (refl, refl)
      | inl e ↦
          let (t, hit) = over-Reached _ reached in rw (e, cache_get, hit, get_similar) (refl, refl)
    ]
  where
    full : sig_match (cache_sig p) s.sig ≡ sig_k
    full =
        rw (made, ← cache_sig-SameWords p q same)
          (sig_match_self (cache_sig p) ∙ length-cache_sig p)

    reached : Reached sig_k (best_slot c.slots role (cache_sig p) none)
    reached = rw full at (best_slot-Reached c.slots role (cache_sig p) none s found used r)

set-SlotIn : (ss : List Slot) (i : ℕ) (rec : Slot) → i < length ss → SlotIn rec (set ss i rec)
set-SlotIn [] i rec h = absurd (omega arith)
set-SlotIn (s ∷ ss) zero rec h = inl refl
set-SlotIn (s ∷ ss) (suc i) rec h = inr (set-SlotIn ss i rec (omega arith))

FirstKey-lt : (ss : List Slot) (k n : ℕ) → FirstKey k n ss → n < length ss
FirstKey-lt [] k n f = absurd f
FirstKey-lt (s ∷ ss) k zero f = omega arith
FirstKey-lt (s ∷ ss) k (suc n) f = omega (arith, FirstKey-lt ss k n f.1)

ram_put-SlotIn :
    (ss : List Slot) (rec : Slot) → free_or_match ss rec.key ≡ true → SlotIn rec (ram_put ss rec)
unfolding ram_put
ram_put-SlotIn ss rec room = elim (target_of-Target ss rec.key) [
  | Target.over n e first ↦ rw (e, ram_put) (set-SlotIn ss n rec (FirstKey-lt ss rec.key n first))
  | Target.fresh n e no_key first ↦ rw (e, ram_put) (set-SlotIn ss n rec (FirstKey-lt ss 0 n first))
  | Target.full e no_key no_empty ↦ cc ((free_or_match_iff ss rec.key).1 e)
]

-- The role that a record keeps is the role that it was stored for.
same_role-record_of :
    (role_buf val_buf role prompt val : List ℕ)
    → length role_buf ≡ role_len
    → length (text role) < role_len
    → same_role (record_of role_buf val_buf role prompt val) role ≡ true
unfolding same_role record_of
same_role-record_of role_buf val_buf role prompt val size short =
    let kept : text (safestrcpy role_buf role (pos 16)) ≡ text role =
      text-safestrcpy role_buf role 15 (omega arith) ∙ take-length 15 (text role) (omega arith) in
    (eqb_ℤ_iff _ (pos 0)).1
      ((strncmp_iff (safestrcpy role_buf role (pos 16)) role 16).1 (ap (take 16) kept))

-- After a cache_set() that answers 1, a cache_get() of the same role hits for every prompt with the
-- same set of content words, when the role fits its 16 bytes.
pub cache_get-cache_set_paraphrase :
    (c : Cache) (role_buf val_buf role p q val : List ℕ) (written : Bool) (out : Option (List ℕ))
    (outmax : ℤ)
    → length role_buf ≡ role_len
    → length (text role) < role_len
    → SameWords (content_words p) (content_words q)
    → (cache_set c role_buf val_buf role q val written).0 ≡ true
    → (cache_get (cache_set c role_buf val_buf role q val written).1 role p out outmax).0 ≡ true
unfolding cache_set record_of
cache_get-cache_set_paraphrase c role_buf val_buf role p q val written out outmax size short same
      stored =
    elim (store_cases c (record_of role_buf val_buf role q val) written) [
      | inr (no_room, e) ↦ absurd (ground arith)
      | inl (room, e) ↦
          let rec = record_of role_buf val_buf role q val in
          rw e
            (cache_get_paraphrase _ role p q out outmax rec (ram_put-SlotIn c.slots rec room)
              (cache_fnv1a_range role q).0
              (same_role-record_of role_buf val_buf role q val size short) refl same).0
    ]

-- A byte that is no ASCII letter or digit, as every byte of Hangul in UTF-8.
abbrev pub IsSeparator : ℕ → Type 0
IsSeparator c = (c < b'0') ⊎ (((b'9' < c) × (c < b'A')) ⊎ (((b'Z' < c) × (c < b'a')) ⊎ (b'z' < c)))

abbrev pub IsWordless : List ℕ → Type 0
IsWordless [] = Unit {0}
IsWordless (c ∷ p) = IsSeparator c × IsWordless p

separator-not-alnum : (c : ℕ) → IsSeparator c → is_alnum (lower c) ≡ false
unfolding is_alnum lower
separator-not-alnum c h = ground arith

IsWordless-content_words : (p : List ℕ) → IsWordless p → content_words p ≡ []
unfolding content_words words_from emit
IsWordless-content_words [] h = refl
IsWordless-content_words (c ∷ p) h =
    ground (arith, separator-not-alnum c h.0, IsWordless-content_words p h.1)

-- After a cache_set() that answers 1 for a prompt without content words, a cache_get() of the same
-- role hits for every other prompt without any, when the role fits its 16 bytes.
pub cache_get_wordless :
    (c : Cache) (role_buf val_buf role p q val : List ℕ) (written : Bool) (out : Option (List ℕ))
    (outmax : ℤ)
    → length role_buf ≡ role_len
    → length (text role) < role_len
    → IsWordless p
    → IsWordless q
    → (cache_set c role_buf val_buf role q val written).0 ≡ true
    → (cache_get (cache_set c role_buf val_buf role q val written).1 role p out outmax).0 ≡ true
cache_get_wordless c role_buf val_buf role p q val written out outmax size short hp hq stored =
    cache_get-cache_set_paraphrase c role_buf val_buf role p q val written out outmax size short
      (rw (IsWordless-content_words p hp, IsWordless-content_words q hq) ((λ w h. h), (λ w h. h)))
      stored
