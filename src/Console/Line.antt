-- ===== src/Console/Line.antt =====
-- consoleintr() of kernel/console.c as editing of a line.
use liberal_os.Prelude.{
  ℕ, ◌+◌, ◌<◌, ◌≡◌, refl, sym, ap, ap₂, ◌∙◌, inl, inr, not, ◌&&◌, ◌||◌, [], ◌∷◌, ◌++◌, arith, ltb,
  ◌==◌, ==_iff, Bool-cases, length,
}
use liberal_os.Console.Edit.{
  edit-erase, edit-send, kill_line-IsCons, ready-erase, edit-put_char, erase-IsCons, gap-put_char,
  put_char-IsCons, gap-pos, gap_no_edit, ready-put_char, ready-send, send-IsCons, whole-put_char,
  drop_last, enter, send, type_char, view, Input,
}
use liberal_os.Console.Ring.{write_place, length-window, edit, ready, IsCons}
use liberal_os.Console.{
  rub_out, to_line_feed, delete_key, ctrl_h, ctrl_u, ctrl_p, ctrl_d, line_feed, put_char,
  input_buf_size, gap, end_line, Cons, consoleintr, typed,
}

held : (s : Cons) → IsCons s → length (ready s) + length (edit s) ≡ gap s.e s.r
unfolding ready edit
held s v =
    omega
      (arith, length-window s.buf s.r (gap s.w s.r), length-window s.buf s.w (gap s.e s.w), v.whole)

fills :
    (c : ℕ) (s : Cons)
    → IsCons s
    → gap s.e s.r < input_buf_size
    → (gap (put_char c s).e s.r == input_buf_size)
      ≡ (length (ready s) + length (edit s) + 1 == input_buf_size)
fills c s v h = ap (λ n. n == input_buf_size) (omega (arith, whole-put_char c s v h, held s v))

view_sent :
    (c : ℕ) (s : Cons)
    → IsCons s
    → gap s.e s.r < input_buf_size
    → view (send (put_char c s)) ≡ record { ready = ready s ++ (edit s ++ (c ∷ [])); edit = [] }
view_sent c s v h =
    ap₂ (λ x y. record { ready = x; edit = y })
      (ready-send (put_char c s)
          (omega (arith, gap-put_char c s v h, whole-put_char c s v h, v.whole)) (write_place s v)
        ∙ ap₂ ◌++◌ (ready-put_char c s v h) (edit-put_char c s v h))
      (edit-send (put_char c s) (omega arith))

view-put_char :
    (c : ℕ) (s : Cons)
    → IsCons s
    → gap s.e s.r < input_buf_size
    → view (put_char c s) ≡ record { ready = ready s; edit = edit s ++ (c ∷ []) }
view-put_char c s v h =
    ap₂ (λ x y. record { ready = x; edit = y }) (ready-put_char c s v h) (edit-put_char c s v h)

-- A state that is well formed and shows a given input.
abbrev pub Shows : Cons → Input → Type 0
Shows s l = IsCons s × (view s ≡ l)

typed-Shows :
    (c : ℕ) (s : Cons)
    → IsCons s
    → gap s.e s.r < input_buf_size
    → Shows (typed c s).0 (enter c (view s))
unfolding typed end_line
typed-Shows c s v h =
    rw (sym (fills c s v h))
      (elim (Bool-cases
        (c == line_feed || c == ctrl_d || gap (put_char c s).e s.r == input_buf_size)) [
          | inl e ↦ rw e (send-IsCons c s v h, view_sent c s v h)
          | inr e ↦
              rw e (put_char-IsCons c s v h (λ q. absurd (ground arith)), view-put_char c s v h)
        ])

no_edit : (s : Cons) → IsCons s → s.e ≡ s.w → edit s ≡ drop_last (edit s)
unfolding edit
no_edit s v h = rw (gap_no_edit s v h) refl

rub_out-Shows :
    (s : Cons)
    → IsCons s
    → Shows (rub_out s).0 (record { ready = ready s; edit = drop_last (edit s) })
unfolding rub_out
rub_out-Shows s v = elim (Bool-cases (s.e == s.w)) [
  | inl e ↦
      rw e (v, ap (λ y. record { ready = ready s; edit = y }) (no_edit s v ((==_iff s.e s.w).0 e)))
  | inr e ↦
      let h = gap-pos s v (λ q. absurd (ground arith)) in
      rw e (
        erase-IsCons s v h,
        ap₂ (λ x y. record { ready = x; edit = y }) (ready-erase s) (edit-erase s v h),
      )
]

room :
    (s : Cons)
    → IsCons s
    → length (ready s) + length (edit s) < input_buf_size
    → gap s.e s.r < input_buf_size
room s v h = omega (arith, held s v, h)

-- A well-formed ring stays so, whatever character arrives, and in terms of the characters that may
-- be read and those that can still be erased, a kill character erases all of the latter, a
-- backspace the last of them, and any other character that is stored, a carriage return as a line
-- feed, is put behind them; a line feed, an end of file or a full ring makes all of them readable,
-- and a full ring takes no more.
pub consoleintr-Shows :
    (c : ℕ) (s : Cons) → IsCons s → Shows (consoleintr c s).0 (type_char c (view s))
unfolding consoleintr
consoleintr-Shows c s v =
    rw (ap (λ n. ltb n input_buf_size) (sym (held s v))) (elim (Bool-cases (c == ctrl_p)) [
      | inl p ↦ rw p (v, refl)
      | inr p ↦ elim (Bool-cases (c == ctrl_u)) [
        | inl u ↦ rw (p, u) (kill_line-IsCons (gap s.e s.w) s v refl)
        | inr u ↦ elim (Bool-cases (c == ctrl_h || c == delete_key)) [
          | inl h ↦ rw (p, u, h) (rub_out-Shows s v)
          | inr h ↦
              elim (Bool-cases
                (not (c == 0) && ltb (length (ready s) + length (edit s)) input_buf_size)) [
                  | inl t ↦
                      rw (p, u, h, t) (typed-Shows (to_line_feed c) s v (room s v (ground arith)))
                  | inr t ↦ rw (p, u, h, t) (v, refl)
                ]
        ]
      ]
    ])
