-- ===== src/Console/Edit.antt =====
-- consoleintr() of kernel/console.c on the edited line and the characters that may be read.
use liberal_os.Prelude.{
  ℕ, zero, suc, ◌+◌, ◌%◌, ◌≤◌, ◌<◌, ◌≡◌, refl, sym, ap, ◌∙◌, subst, ◌≢◌, inl, inr, false, not, ◌&&◌,
  ◌||◌, List, [], ◌∷◌, ◌++◌, arith, ltb, ◌==◌, if◌then◌else◌, ==_iff, ==-false, Bool-cases, length,
  get_or, length-set, get_or-set_self, get_or-set_ne,
}
use liberal_os.Console.Ring.{
  window-wrap, window-append, window-set, end_place, edit_place, window-set_past, window,
  window-last, edit, ready, IsCons,
}
use liberal_os.Console.{
  kill_line, put_char, word, to_line_feed, delete_key, ctrl_h, input_buf_size, ctrl_d, ctrl_u, Cons,
  ctrl_p, erase, gap, line_feed,
}

-- The characters that may be read and those that can still be erased.
pub record Input : Type 0 where
  pub ready : List ℕ
  pub edit : List ℕ

abbrev pub view : Cons → Input
view s = record { ready = ready s; edit = edit s }

abbrev pub drop_last : List ℕ → List ℕ
drop_last [] = []
drop_last (c ∷ []) = []
drop_last (c ∷ d ∷ cs) = c ∷ drop_last (d ∷ cs)

drop_last-append : (xs : List ℕ) (c : ℕ) → drop_last (xs ++ (c ∷ [])) ≡ xs
drop_last-append [] c = refl
drop_last-append (x ∷ []) c = refl
drop_last-append (x ∷ y ∷ xs) c = ap (◌∷◌ x) (drop_last-append (y ∷ xs) c)

-- What a character makes of them.
abbrev pub enter : ℕ → Input → Input
enter c l =
    if c == line_feed || c == ctrl_d || length l.ready + length l.edit + 1 == input_buf_size
    then record { ready = l.ready ++ (l.edit ++ (c ∷ [])); edit = [] }
    else record { ready = l.ready; edit = l.edit ++ (c ∷ []) }

abbrev pub type_char : ℕ → Input → Input
type_char c l =
    if c == ctrl_p
    then l
    else if c == ctrl_u
    then record l { edit = [] }
    else if c == ctrl_h || c == delete_key
    then record l { edit = drop_last l.edit }
    else if not (c == 0) && ltb (length l.ready + length l.edit) input_buf_size
    then enter (to_line_feed c) l
    else l

pub gap-same : (a : ℕ) → a < word → gap a a ≡ 0
unfolding gap
gap-same a h = omega arith

pub gap_no_edit : (s : Cons) → IsCons s → s.e ≡ s.w → gap s.e s.w ≡ 0
unfolding gap
gap_no_edit s v h = omega (arith, v.edit_word, v.write_word)

pub gap-pos : (s : Cons) → IsCons s → s.e ≢ s.w → 0 < gap s.e s.w
unfolding gap
gap-pos s v h = omega (arith, v.edit_word, v.write_word)

-- Erasing the last character of the edited line.
gap-erase : (s : Cons) → IsCons s → 0 < gap s.e s.w → gap s.e s.w ≡ suc (gap (erase s).e s.w)
unfolding gap
gap-erase s v h = omega (arith, v.edit_word, v.write_word)

whole-erase : (s : Cons) → IsCons s → 0 < gap s.e s.w → gap s.e s.r ≡ suc (gap (erase s).e s.r)
unfolding gap
whole-erase s v h = omega (arith, v.edit_word, v.read_word, v.write_word, v.whole)

pub erase-IsCons : (s : Cons) → IsCons s → 0 < gap s.e s.w → IsCons (erase s)
erase-IsCons s v h = record {
  size = v.size;
  read_word = v.read_word;
  write_word = v.write_word;
  edit_word = omega arith;
  whole = omega (arith, whole-erase s v h, gap-erase s v h, v.whole);
  bounded = omega (arith, whole-erase s v h, v.bounded);
  no_feed = λ k l. v.no_feed k (omega (arith, gap-erase s v h, l));
}

pub edit-erase : (s : Cons) → IsCons s → 0 < gap s.e s.w → edit (erase s) ≡ drop_last (edit s)
unfolding edit
edit-erase s v h =
    rw (gap-erase s v h, window-last s.buf s.w (gap (erase s).e s.w))
      (sym (
        drop_last-append (window s.buf s.w (gap (erase s).e s.w))
          (get_or s.buf ((s.w + gap (erase s).e s.w) % input_buf_size) 0)))

pub ready-erase : (s : Cons) → ready (erase s) ≡ ready s
unfolding ready
ready-erase s = refl

apart : (s : Cons) → IsCons s → 0 < gap s.e s.w → (s.e == s.w) ≡ false
apart s v h = ==-false s.e s.w (λ q. omega (arith, gap_no_edit s v q))

-- The character before the edit index is no line feed.
last_kept :
    (s : Cons)
    → IsCons s
    → 0 < gap s.e s.w
    → (get_or s.buf ((erase s).e % input_buf_size) 0 == line_feed) ≡ false
last_kept s v h =
    rw (edit_place (erase s) (erase-IsCons s v h))
      (==-false _ line_feed (v.no_feed (gap (erase s).e s.w) (omega (arith, gap-erase s v h))))

kill_step :
    (n : ℕ) (s : Cons)
    → IsCons s
    → 0 < gap s.e s.w
    → (kill_line (suc n) s).0 ≡ (kill_line n (erase s)).0
unfolding kill_line
kill_step n s v h = rw (apart s v h, last_kept s v h) refl

-- The kill character empties the edited line: the loop meets no line feed before its start.
pub kill_line-IsCons :
    (n : ℕ) (s : Cons)
    → IsCons s
    → n ≡ gap s.e s.w
    → IsCons (kill_line n s).0 × (view (kill_line n s).0 ≡ record { ready = ready s; edit = [] })
unfolding kill_line edit ready
kill_line-IsCons zero s v q =
    (v, ap (λ n. record { ready = ready s; edit = window s.buf s.w n }) (sym q))
kill_line-IsCons (suc n) s v q =
    let h : 0 < gap s.e s.w = omega arith in
    let ih = kill_line-IsCons n (erase s) (erase-IsCons s v h) (rest h) in
    subst (λ t. IsCons t × (view t ≡ record { ready = ready s; edit = [] }))
      (sym (kill_step n s v h)) ih
  where
    rest : 0 < gap s.e s.w → n ≡ gap (erase s).e (erase s).w
    rest h = omega (arith, gap-erase s v h, q)

-- A character after the edited line, when the ring has room.
pub gap-put_char :
    (c : ℕ) (s : Cons)
    → IsCons s
    → gap s.e s.r < input_buf_size
    → gap (put_char c s).e s.w ≡ suc (gap s.e s.w)
unfolding gap
gap-put_char c s v h = omega (arith, v.edit_word, v.write_word, v.read_word, v.whole)

pub whole-put_char :
    (c : ℕ) (s : Cons)
    → IsCons s
    → gap s.e s.r < input_buf_size
    → gap (put_char c s).e s.r ≡ suc (gap s.e s.r)
unfolding gap
whole-put_char c s v h = omega (arith, v.edit_word, v.read_word)

pub ready-put_char :
    (c : ℕ) (s : Cons) → IsCons s → gap s.e s.r < input_buf_size → ready (put_char c s) ≡ ready s
unfolding ready
ready-put_char c s v h =
    window-set_past s.buf c s.r (gap s.e s.r) (gap s.w s.r) (s.e % input_buf_size)
      (omega (arith, v.whole)) h (end_place s v)

pub edit-put_char :
    (c : ℕ) (s : Cons)
    → IsCons s
    → gap s.e s.r < input_buf_size
    → edit (put_char c s) ≡ edit s ++ (c ∷ [])
unfolding edit
edit-put_char c s v h = rw (gap-put_char c s v h) (
    window-set s.buf c s.w (gap s.e s.w) (s.e % input_buf_size) v.size (omega (arith, v.whole))
      (edit_place s v))

stored_kept :
    (c : ℕ) (s : Cons)
    → IsCons s
    → gap s.e s.r < input_buf_size
    → c ≢ line_feed
    → (k : ℕ) → k ≤ gap s.e s.w
    → get_or (put_char c s).buf ((s.w + k) % input_buf_size) 0 ≢ line_feed
stored_kept c s v h n k l = elim (Bool-cases (k == gap s.e s.w)) [
  | inl e ↦
      let p : (s.w + k) % input_buf_size ≡ s.e % input_buf_size =
        omega (arith, edit_place s v, (==_iff k (gap s.e s.w)).0 e) in
      rw (p, get_or-set_self s.buf (s.e % input_buf_size) c 0 (omega (arith, v.size))) n
  | inr e ↦
      let d : k ≢ gap s.e s.w = λ q. ground arith in
      rw
        (get_or-set_ne s.buf (s.e % input_buf_size) ((s.w + k) % input_buf_size) c 0
          (omega (arith, edit_place s v, v.whole, d, l, h)))
        (v.no_feed k (ground arith))
]

-- The line goes on.
pub put_char-IsCons :
    (c : ℕ) (s : Cons)
    → IsCons s
    → gap s.e s.r < input_buf_size
    → c ≢ line_feed
    → IsCons (put_char c s)
put_char-IsCons c s v h n = record {
  size = length-set s.buf (s.e % input_buf_size) c ∙ v.size;
  read_word = v.read_word;
  write_word = v.write_word;
  edit_word = omega arith;
  whole = omega (arith, gap-put_char c s v h, whole-put_char c s v h, v.whole);
  bounded = omega (arith, whole-put_char c s v h);
  no_feed = λ k l. stored_kept c s v h n k (omega (arith, gap-put_char c s v h, l));
}

-- The line is handed over.
abbrev pub send : Cons → Cons
send s = record s { w = s.e }

pub send-IsCons :
    (c : ℕ) (s : Cons) → IsCons s → gap s.e s.r < input_buf_size → IsCons (send (put_char c s))
send-IsCons c s v h = record {
  size = length-set s.buf (s.e % input_buf_size) c ∙ v.size;
  read_word = v.read_word;
  write_word = omega arith;
  edit_word = omega arith;
  whole = omega (arith, gap-same ((s.e + 1) % word) (omega arith));
  bounded = omega (arith, whole-put_char c s v h);
  no_feed = λ k l. absurd (omega (arith, gap-same ((s.e + 1) % word) (omega arith), l));
}

pub ready-send :
    (s : Cons)
    → gap s.e s.r ≡ gap s.w s.r + gap s.e s.w
    → s.w % input_buf_size ≡ (s.r + gap s.w s.r) % input_buf_size
    → ready (send s) ≡ ready s ++ edit s
unfolding ready edit
ready-send s q p =
    window-append s.buf s.r (gap s.w s.r) (gap s.e s.w) (gap s.e s.r) _ q refl
    ∙ ap (◌++◌ (window s.buf s.r (gap s.w s.r))) (window-wrap s.buf _ s.w (gap s.e s.w) (sym p))

pub edit-send : (s : Cons) → s.e < word → edit (send s) ≡ []
unfolding edit
edit-send s h = ap (window s.buf s.e) (gap-same s.e h)
