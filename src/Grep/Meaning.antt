-- ===== src/Grep/Meaning.antt =====
-- What it means for a pattern to match, with no search in it.
use liberal_os.Prelude.{
  ℕ, ◌≡◌, refl, sym, ap, ◌∙◌, ◌≢◌, ◌↔◌, ◌⊎◌, inl, inr, Bool, true, false, ◌||◌, List, [], ◌∷◌,
  arith, ◌==◌, if◌then◌else◌, ==_iff, Bool-cases, length,
}
use mathlib.Core.Bool.{true≢false, false≢true}
use liberal_os.Grep.{caret, match, match_from, accepts, matchstar, dollar, dot, matchhere, star}

-- The pattern does not go on with a star.
abbrev pub NoStar : List ℕ → Type 0
NoStar [] = true ≡ true
NoStar (d ∷ re) = (d == star) ≡ false

-- The pattern matches a front of the text.
pub data Here : List ℕ → List ℕ → Type 0 where
  empty : {text : List ℕ} → Here [] text
  at_end : {c : ℕ} → c ≡ dollar → Here (c ∷ []) []
  byte :
      {c t : ℕ} {re ts : List ℕ}
      → NoStar re
      → (c ≡ dollar → re ≢ [])
      → accepts c t ≡ true
      → Here re ts
      → Here (c ∷ re) (t ∷ ts)
  leave : {c d : ℕ} {re text : List ℕ} → d ≡ star → Here re text → Here (c ∷ d ∷ re) text
  take_one :
      {c d t : ℕ} {re ts : List ℕ}
      → d ≡ star
      → accepts c t ≡ true
      → Here (c ∷ d ∷ re) ts
      → Here (c ∷ d ∷ re) (t ∷ ts)

-- Some rest of the text begins with a match.
pub data Somewhere (re : List ℕ) : List ℕ → Type 0 where
  here : {text : List ℕ} → Here re text → Somewhere re text
  later : {t : ℕ} {ts : List ℕ} → Somewhere re ts → Somewhere re (t ∷ ts)

accepts_swap : (c t : ℕ) → (t == c || c == dot) ≡ true → accepts c t ≡ true
accepts_swap c t h = ground arith

accepts_back : (c t : ℕ) → accepts c t ≡ true → (t == c || c == dot) ≡ true
accepts_back c t h = ground arith

if_or : (p q : Bool) → ((if p then true else q) ≡ true) ↔ ((p ≡ true) ⊎ (q ≡ true))
if_or p q = ground arith

if_and : (p q : Bool) → ((if p then q else false) ≡ true) ↔ ((p ≡ true) × (q ≡ true))
if_and p q = ground arith

module _ (c d : ℕ) (re : List ℕ) (is_star : d ≡ star)
    (ih : (text : List ℕ) → (matchhere re text ≡ true) ↔ Here re text) where
  matchstar_sound :
      (text : List ℕ) → matchstar c (matchhere re) text ≡ true → Here (c ∷ d ∷ re) text
  unfolding matchstar
  matchstar_sound [] h = leave is_star ((ih []).0 h)
  matchstar_sound (t ∷ ts) h =
      elim ((if_or (matchhere re (t ∷ ts))
          (if t == c || c == dot then matchstar c (matchhere re) ts else false)).0
        h) [
          | inl e ↦ leave is_star ((ih (t ∷ ts)).0 e)
          | inr k ↦
              let (a, rest) = (if_and (t == c || c == dot) (matchstar c (matchhere re) ts)).0 k in
              take_one is_star (accepts_swap c t a) (matchstar_sound ts rest)
        ]

  matchstar_complete :
      (text : List ℕ) → Here (c ∷ d ∷ re) text → matchstar c (matchhere re) text ≡ true
  unfolding matchstar
  matchstar_complete [] (leave e m) = (ih []).1 m
  matchstar_complete (t ∷ ts) (leave e m) =
      (if_or (matchhere re (t ∷ ts))
          (if t == c || c == dot then matchstar c (matchhere re) ts else false)).1
        (inl ((ih (t ∷ ts)).1 m))
  matchstar_complete (t ∷ ts) (take_one e a m) =
      (if_or (matchhere re (t ∷ ts))
          (if t == c || c == dot then matchstar c (matchhere re) ts else false)).1
        (inr (
          (if_and (t == c || c == dot) (matchstar c (matchhere re) ts)).1
            (accepts_back c t a, matchstar_complete ts m)))
  matchstar_complete (t ∷ ts) (byte n e a m) =
      absurd (true≢false (sym ((==_iff d star).1 is_star) ∙ n))

apart : (a b : ℕ) → (a == b) ≡ false → a ≢ b
apart a b e q = true≢false (sym ((==_iff a b).1 q) ∙ e)

cons_ne : (d : ℕ) (re : List ℕ) → d ∷ re ≢ []
cons_ne d re e = absurd (omega (arith, ap length e))

-- matchhere() finds a match exactly when the pattern matches a front of the text.
pub matchhere_iff : (re text : List ℕ) → (matchhere re text ≡ true) ↔ Here re text
unfolding matchhere
matchhere_iff [] text = ((λ h. empty), (λ m. refl))
matchhere_iff (c ∷ []) [] =
    ((λ h. at_end ((==_iff c dollar).0 h)), (λ m. elim m [ at_end e ↦ (==_iff c dollar).1 e ]))
matchhere_iff (c ∷ []) (t ∷ ts) = elim (Bool-cases (c == dollar)) [
  | inl e ↦ rw e (
    (λ h. absurd (false≢true h)),
    (λ m. elim m [ byte n g a r ↦ absurd (g ((==_iff c dollar).0 e) refl) ]),
  )
  | inr e ↦ rw e (
    (λ h. byte refl (λ q. absurd (apart c dollar e q)) h empty),
    (λ m. elim m [ byte n g a r ↦ a ]),
  )
]
matchhere_iff (c ∷ d ∷ re) [] = elim (Bool-cases (d == star)) [
  | inl e ↦
      let s = (==_iff d star).0 e in
      rw e (
        matchstar_sound c d re s (λ text. matchhere_iff re text) [],
        matchstar_complete c d re s (λ text. matchhere_iff re text) [],
      )
  | inr e ↦
      rw e ((λ h. absurd (false≢true h)), (λ m. elim m [ leave s r ↦ absurd (apart d star e s) ]))
]
matchhere_iff (c ∷ d ∷ re) (t ∷ ts) = elim (Bool-cases (d == star)) [
  | inl e ↦
      let s = (==_iff d star).0 e in
      rw e (
        matchstar_sound c d re s (λ text. matchhere_iff re text) (t ∷ ts),
        matchstar_complete c d re s (λ text. matchhere_iff re text) (t ∷ ts),
      )
  | inr e ↦ rw e (
    (λ h.
        let (a, r) = (if_and (accepts c t) (matchhere (d ∷ re) ts)).0 h in
        byte e (λ q z. cons_ne d re z) a ((matchhere_iff (d ∷ re) ts).0 r)),
    (λ m. elim m [
      | byte n g a r ↦
          (if_and (accepts c t) (matchhere (d ∷ re) ts)).1 (a, (matchhere_iff (d ∷ re) ts).1 r)
      | leave s r ↦ absurd (apart d star e s)
      | take_one s a r ↦ absurd (apart d star e s)
    ]),
  )
]

match_from_iff : (re text : List ℕ) → (match_from re text ≡ true) ↔ Somewhere re text
unfolding match_from
match_from_iff re [] =
    ((λ h. here ((matchhere_iff re []).0 h)), (λ m. elim m [ here r ↦ (matchhere_iff re []).1 r ]))
match_from_iff re (t ∷ ts) = (
  (λ h. elim ((if_or (matchhere re (t ∷ ts)) (match_from re ts)).0 h) [
    | inl e ↦ here ((matchhere_iff re (t ∷ ts)).0 e)
    | inr r ↦ later ((match_from_iff re ts).0 r)
  ]),
  (λ m. elim m [
    | here r ↦
        (if_or (matchhere re (t ∷ ts)) (match_from re ts)).1 (inl ((matchhere_iff re (t ∷ ts)).1 r))
    | later r ↦
        (if_or (matchhere re (t ∷ ts)) (match_from re ts)).1 (inr ((match_from_iff re ts).1 r))
  ]),
)

-- What a whole pattern asks of a text: a caret ties it to the front.
abbrev pub Found : List ℕ → List ℕ → Type 0
Found [] text = Somewhere [] text
Found (c ∷ re) text = ((c ≡ caret) × Here re text) ⊎ ((c ≢ caret) × Somewhere (c ∷ re) text)

-- match() answers 1 exactly when the pattern is found in the text: at its front after a caret, and
-- otherwise at some place of it.
pub match_iff : (re text : List ℕ) → (match re text ≡ true) ↔ Found re text
unfolding match
match_iff [] text = match_from_iff [] text
match_iff (c ∷ re) text = elim (Bool-cases (c == caret)) [
  | inl e ↦ rw e (
    (λ h. inl ((==_iff c caret).0 e, (matchhere_iff re text).0 h)),
    (λ f. elim f [
      | inl q ↦ (matchhere_iff re text).1 q.1
      | inr q ↦ absurd (q.0 ((==_iff c caret).0 e))
    ]),
  )
  | inr e ↦ rw e (
    (λ h. inr (apart c caret e, (match_from_iff (c ∷ re) text).0 h)),
    (λ f. elim f [
      | inl q ↦ absurd (apart c caret e q.0)
      | inr q ↦ (match_from_iff (c ∷ re) text).1 q.1
    ]),
  )
]
