-- ===== src/Console/Read.antt =====
-- consoleread() of kernel/console.c on the characters that may be read.
use liberal_os.Prelude.{
  ℕ, suc, ◌+◌, ◌%◌, ◌≤◌, ◌≡◌, refl, ap, ◌∙◌, ◌≢◌, ◌⊎◌, inl, inr, Bool, true, List, [], ◌∷◌, ◌++◌,
  arith, ltb, ◌==◌, if◌then◌else◌, ==_iff, Bool-cases, length, get_or,
}
use liberal_os.Console.Ring.{window-wrap, edit, ready, IsCons}
use liberal_os.Console.{
  word, input_buf_size, with_char, next_char, sleeps, aborted, drop_char, stop, LineRead, ctrl_d,
  Cons, End, gap, line_feed, read_loop,
}

gap-drop_char : (s : Cons) → IsCons s → s.r ≢ s.w → gap s.w s.r ≡ suc (gap s.w (drop_char s).r)
unfolding gap
gap-drop_char s v h = omega (arith, v.read_word, v.write_word)

whole-drop_char : (s : Cons) → IsCons s → s.r ≢ s.w → gap s.e s.r ≡ suc (gap s.e (drop_char s).r)
unfolding gap
whole-drop_char s v h = omega (arith, v.read_word, v.write_word, v.edit_word, v.whole)

pub drop_char-IsCons : (s : Cons) → IsCons s → s.r ≢ s.w → IsCons (drop_char s)
drop_char-IsCons s v h = record {
  size = v.size;
  read_word = omega arith;
  write_word = v.write_word;
  edit_word = v.edit_word;
  whole = omega (arith, gap-drop_char s v h, whole-drop_char s v h, v.whole);
  bounded = omega (arith, whole-drop_char s v h, v.bounded);
  no_feed = v.no_feed;
}

pub ready-drop_char :
    (s : Cons) → IsCons s → s.r ≢ s.w → ready s ≡ next_char s ∷ ready (drop_char s)
unfolding ready next_char
ready-drop_char s v h = rw (gap-drop_char s v h) (
    ap (◌∷◌ (get_or s.buf (s.r % input_buf_size) 0))
      (window-wrap s.buf (s.r + 1) ((s.r + 1) % word) (gap s.w (drop_char s).r) (omega arith)))

-- No line feed and no end of file.
abbrev pub Plain : List ℕ → Type 0
Plain [] = true ≡ true
Plain (c ∷ cs) = ((c ≢ line_feed) × (c ≢ ctrl_d)) × Plain cs

-- Part of a line, or a whole one with its line feed.
abbrev pub WithinLine : List ℕ → Type 0
WithinLine out = Plain out ⊎ ((xs : List ℕ) × (Plain xs × (out ≡ xs ++ (line_feed ∷ []))))

-- What a stretch of consoleread() leaves: the edited line as it was, and the readable characters
-- but for those copied out and at most one more.
pub record ReadEffect (s : Cons) (r : LineRead) : Type 0 where
  pub valid : IsCons r.cons
  pub kept : edit r.cons ≡ edit s
  pub lost : List ℕ
  pub one_lost : length lost ≤ 1
  pub split : ready s ≡ r.out ++ (lost ++ ready r.cons)
  pub within : WithinLine r.out

stop-ReadEffect : (i : ℕ) (s : Cons) → IsCons s → ReadEffect s (stop i s)
stop-ReadEffect i s v = record {
  valid = v;
  kept = refl;
  lost = [];
  one_lost = omega arith;
  split = refl;
  within = inl refl;
}

paused-ReadEffect :
    (end : End) (s : Cons) → IsCons s → ReadEffect s (record { end = end; out = []; cons = s })
paused-ReadEffect end s v = record {
  valid = v;
  kept = refl;
  lost = [];
  one_lost = omega arith;
  split = refl;
  within = inl refl;
}

dropped-ReadEffect : (i : ℕ) (s : Cons) → IsCons s → s.r ≢ s.w → ReadEffect s (stop i (drop_char s))
unfolding edit
dropped-ReadEffect i s v h = record {
  valid = drop_char-IsCons s v h;
  kept = refl;
  lost = next_char s ∷ [];
  one_lost = omega arith;
  split = ready-drop_char s v h;
  within = inl refl;
}

line-ReadEffect :
    (i : ℕ) (s : Cons)
    → IsCons s
    → s.r ≢ s.w
    → next_char s ≡ line_feed
    → ReadEffect s (with_char line_feed (stop i (drop_char s)))
unfolding edit
line-ReadEffect i s v h l = record {
  valid = drop_char-IsCons s v h;
  kept = refl;
  lost = [];
  one_lost = omega arith;
  split = ready-drop_char s v h ∙ ap (λ c. c ∷ ready (drop_char s)) l;
  within = inr ([], (refl, refl));
}

end_of_file :
    (i : ℕ) (s : Cons)
    → IsCons s
    → s.r ≢ s.w
    → ReadEffect s (stop i (if ltb 0 i then s else drop_char s))
end_of_file i s v h = elim (Bool-cases (ltb 0 i)) [
  | inl e ↦ rw e (stop-ReadEffect i s v)
  | inr e ↦ rw e (dropped-ReadEffect i s v h)
]

within-with_char :
    (c : ℕ) (out : List ℕ) → c ≢ line_feed → c ≢ ctrl_d → WithinLine out → WithinLine (c ∷ out)
within-with_char c out a b (inl p) = inl ((a, b), p)
within-with_char c out a b (inr (xs, (p, e))) = inr (c ∷ xs, (((a, b), p), ap (◌∷◌ c) e))

more-ReadEffect :
    (s : Cons) (r : LineRead)
    → IsCons s
    → s.r ≢ s.w
    → next_char s ≢ line_feed
    → next_char s ≢ ctrl_d
    → ReadEffect (drop_char s) r
    → ReadEffect s (with_char (next_char s) r)
unfolding edit
more-ReadEffect s r v h l d x = record {
  valid = x.valid;
  kept = x.kept;
  lost = x.lost;
  one_lost = x.one_lost;
  split = ready-drop_char s v h ∙ ap (◌∷◌ (next_char s)) x.split;
  within = within-with_char (next_char s) r.out l d x.within;
}

-- Whatever is copied out, a stretch of consoleread() keeps a well-formed ring so and the edited
-- line as it is; it takes characters from the front of the readable ones, copies them out in order
-- but for at most one, and copies no more than one line and no end of file.
pub read_loop-ReadEffect :
    (oks : List Bool) (s : Cons) (killed : Bool) (i : ℕ)
    → IsCons s
    → ReadEffect s (read_loop s killed oks i)
unfolding read_loop
read_loop-ReadEffect [] s killed i v = stop-ReadEffect i s v
read_loop-ReadEffect (ok ∷ oks) s killed i v = elim (Bool-cases (s.r == s.w)) [
  | inl e ↦ rw e (paused-ReadEffect (if killed then aborted else sleeps) s v)
  | inr e ↦
      let h : s.r ≢ s.w = λ q. ground arith in
      elim (Bool-cases (next_char s == ctrl_d)) [
        | inl d ↦ rw (e, d) (end_of_file i s v h)
        | inr d ↦ elim (Bool-cases ok) [
          | inr o ↦ rw (e, d, o) (dropped-ReadEffect i s v h)
          | inl o ↦ elim (Bool-cases (next_char s == line_feed)) [
            | inl l ↦
                rw (e, d, o, l)
                  (line-ReadEffect (i + 1) s v h ((==_iff (next_char s) line_feed).0 l))
            | inr l ↦
                rw (e, d, o, l)
                  (more-ReadEffect s (read_loop (drop_char s) killed oks (i + 1)) v h
                    (λ q. ground arith) (λ q. ground arith)
                    (read_loop-ReadEffect oks (drop_char s) killed (i + 1)
                      (drop_char-IsCons s v h)))
          ]
        ]
      ]
]
