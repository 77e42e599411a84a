-- ===== src/Fs/Names/Joined.antt =====
-- The elements of a path in kernel/fs.c are the names that were joined by slashes.
use liberal_os.Prelude.{
  ℕ, zero, suc, ◌+◌, ◌<◌, ◌≡◌, refl, sym, ap, ap₂, ◌∙◌, ◌≢◌, inl, inr, true, false, none, some,
  List, [], ◌∷◌, ◌++◌, arith, leb, ◌==◌, ==-false, Bool-cases, length, take, drop, take-length,
}
use liberal_os.Fs.Names.{
  walk_rest, in_element, take_element, after_element, dirsiz, element, fill_name, name_text,
  skip_slashes, skipelem, slash, walk,
}

-- Bytes of a name: no slash and no NUL.
abbrev pub IsText : List ℕ → Type 0
IsText [] = true ≡ true
IsText (c ∷ cs) = ((c ≢ slash) × (c ≢ 0)) × IsText cs

abbrev pub IsName : List ℕ → Type 0
IsName n = (n ≢ []) × IsText n

abbrev pub AreNames : List (List ℕ) → Type 0
AreNames [] = true ≡ true
AreNames (n ∷ ns) = IsName n × AreNames ns

-- "/a/b/c"
abbrev pub join : List (List ℕ) → List ℕ
join [] = []
join (n ∷ ns) = slash ∷ (n ++ join ns)

abbrev pub cut : List (List ℕ) → List (List ℕ)
cut [] = []
cut (n ∷ ns) = take dirsiz n ∷ cut ns

text_in_element : (c : ℕ) → c ≢ slash → c ≢ 0 → in_element c ≡ true
text_in_element c a b = rw (==-false c slash a, ==-false c 0 b) refl

element_text : (n p : List ℕ) → IsText n → element p ≡ [] → element (n ++ p) ≡ n
unfolding element
element_text [] p t e = e
element_text (c ∷ n) p t e =
    rw (text_in_element c t.0.0 t.0.1) (ap (◌∷◌ c) (element_text n p t.1 e))

after_element_text : (n p : List ℕ) → IsText n → after_element p ≡ p → after_element (n ++ p) ≡ p
unfolding after_element
after_element_text [] p t e = e
after_element_text (c ∷ n) p t e = rw (text_in_element c t.0.0 t.0.1) (after_element_text n p t.1 e)

element-join : (ns : List (List ℕ)) → (element (join ns) ≡ []) × (after_element (join ns) ≡ join ns)
unfolding element after_element
element-join [] = (refl, refl)
element-join (n ∷ ns) = (refl, refl)

name_text_whole : (n rest : List ℕ) → IsText n → name_text (n ++ (0 ∷ rest)) ≡ n
unfolding name_text
name_text_whole [] rest t = refl
name_text_whole (c ∷ n) rest t = rw (==-false c 0 t.0.1) (ap (◌∷◌ c) (name_text_whole n rest t.1))

name_text_cut : (k : ℕ) (n : List ℕ) → IsText n → name_text (take k n) ≡ take k n
unfolding name_text
name_text_cut zero n t = refl
name_text_cut (suc k) [] t = refl
name_text_cut (suc k) (c ∷ n) t = rw (==-false c 0 t.0.1) (ap (◌∷◌ c) (name_text_cut k n t.1))

name_text-fill_name : (name n : List ℕ) → IsText n → name_text (fill_name name n) ≡ take dirsiz n
unfolding fill_name
name_text-fill_name name n t = elim (Bool-cases (leb dirsiz (length n))) [
  | inl e ↦ rw e (name_text_cut dirsiz n t)
  | inr e ↦
      rw e
        (name_text_whole n (drop (length n + 1) name) t ∙ sym (take-length dirsiz n (ground arith)))
]

kept : (c : ℕ) (path : List ℕ) → (c == slash) ≡ false → skip_slashes (c ∷ path) ≡ c ∷ path
unfolding skip_slashes
kept c path e = rw e refl

skip_slashes_twice : (path : List ℕ) → skip_slashes (skip_slashes path) ≡ skip_slashes path
unfolding skip_slashes
skip_slashes_twice [] = refl
skip_slashes_twice (c ∷ path) = elim (Bool-cases (c == slash)) [
  | inl e ↦ rw e (skip_slashes_twice path)
  | inr e ↦ rw e (kept c path e)
]

-- The first name of a joined path.
skipelem-join :
    (n : List ℕ) (ns : List (List ℕ)) (name : List ℕ)
    → IsName n
    → skipelem (join (n ∷ ns)) name ≡ some (skip_slashes (join ns), fill_name name n)
unfolding skipelem skip_slashes take_element
skipelem-join [] ns name h = absurd (h.0 refl)
skipelem-join (c ∷ n) ns name h =
    rw (==-false c slash h.1.0.0, ==-false c 0 h.1.0.1)
      (ap₂ (λ p e. some (skip_slashes p, fill_name name e))
        (after_element_text (c ∷ n) (join ns) h.1 (element-join ns).1)
        (element_text (c ∷ n) (join ns) h.1 (element-join ns).0))

skipelem_same :
    (p q name : List ℕ) → skip_slashes p ≡ skip_slashes q → skipelem p name ≡ skipelem q name
unfolding skipelem
skipelem_same p q name e = ap (λ r. take_element r name) e

walk_joined :
    (k : ℕ) (ns : List (List ℕ)) (p name : List ℕ)
    → AreNames ns
    → length ns < k
    → skip_slashes p ≡ skip_slashes (join ns)
    → walk k p name ≡ some (cut ns)
unfolding walk walk_rest
walk_joined zero ns p name v h e = absurd (omega arith)
walk_joined (suc k) [] p name v h e = rw (at_end p name e) refl
  where
    at_end : (p name : List ℕ) → skip_slashes p ≡ skip_slashes [] → skipelem p name ≡ none
    at_end p name e = unfold skipelem in unfold take_element in unfold skip_slashes in rw e refl
walk_joined (suc k) (n ∷ ns) p name v h e =
    rw
      (
        skipelem_same p (join (n ∷ ns)) name e ∙ skipelem-join n ns name v.0,
        walk_joined k ns (skip_slashes (join ns)) (fill_name name n) v.1 (omega arith)
            (skip_slashes_twice (join ns)),
      )
      (ap (λ t. some (t ∷ cut ns)) (name_text-fill_name name n v.0.1))

-- For a path that joins names by slashes, none of them empty or with a slash or a NUL inside, the
-- loop of namex() looks up these names in their order, each cut to DIRSIZ bytes, whatever name[]
-- held before; one round more than there are names is enough.
pub walk-join :
    (k : ℕ) (ns : List (List ℕ)) (name : List ℕ)
    → AreNames ns
    → length ns < k
    → walk k (join ns) name ≡ some (cut ns)
walk-join k ns name v h = walk_joined k ns (join ns) name v h refl
