-- ===== src/Console/Lines.antt =====
-- kernel/console.c: a line that is typed and then read.
use liberal_os.Prelude.{
  ℕ, zero, suc, ◌+◌, ◌≤◌, ◌<◌, ◌≡◌, refl, sym, ap, ap₂, ◌∙◌, subst, ◌≢◌, Bool, true, List, [], ◌∷◌,
  ◌++◌, arith, ==-false, length, replicate, length-append,
}
use mathlib.Core.List.{append_assoc}
use liberal_os.Console.Line.{consoleintr-Shows, Shows}
use liberal_os.Console.Read.{drop_char-IsCons, ready-drop_char, Plain}
use liberal_os.Console.Ring.{window, edit, ready, IsCons}
use liberal_os.Console.Edit.{gap-same, type_char, Input}
use liberal_os.Console.{
  ctrl_d, drop_char, gap, next_char, returns, line_feed, input_buf_size, consoleintr, Cons,
  delete_key, read_loop, to_line_feed,
}

-- The ring after a list of characters from the device.
abbrev pub intr_all : List ℕ → Cons → Cons
intr_all [] s = s
intr_all (c ∷ cs) s = intr_all cs (consoleintr c s).0

abbrev pub Printable : List ℕ → Type 0
Printable [] = true ≡ true
Printable (c ∷ cs) = ((32 ≤ c) × (c ≢ delete_key)) × Printable cs

-- A printable character goes to the end of the edited line, when it does not fill the ring.
type_char-printable :
    (c : ℕ) (l : Input)
    → 32 ≤ c
    → c ≢ delete_key
    → length l.ready + length l.edit + 1 < input_buf_size
    → type_char c l ≡ record { ready = l.ready; edit = l.edit ++ (c ∷ []) }
unfolding to_line_feed
type_char-printable c l h d room = ground arith

type_char-line_feed :
    (l : Input)
    → length l.ready + length l.edit < input_buf_size
    → type_char line_feed l ≡ record { ready = l.ready ++ (l.edit ++ (line_feed ∷ [])); edit = [] }
unfolding to_line_feed
type_char-line_feed l room = ground arith

intr-Shows : (c : ℕ) (s : Cons) (l : Input) → Shows s l → Shows (consoleintr c s).0 (type_char c l)
intr-Shows c s l h =
    subst (λ k. Shows (consoleintr c s).0 (type_char c k)) h.1 (consoleintr-Shows c s h.0)

-- A line of printable characters becomes readable with its line feed.
intr_line :
    (cs : List ℕ) (s : Cons) (l : Input)
    → Printable cs
    → Shows s l
    → length l.ready + length l.edit + length cs < input_buf_size
    → Shows
        (intr_all (cs ++ (line_feed ∷ [])) s)
        (record { ready = l.ready ++ (l.edit ++ (cs ++ (line_feed ∷ []))); edit = [] })
intr_line [] s l p h room =
    subst (Shows (consoleintr line_feed s).0) (type_char-line_feed l (omega arith))
      (intr-Shows line_feed s l h)
intr_line (c ∷ cs) s l p h room =
    let l' : Input = record { ready = l.ready; edit = l.edit ++ (c ∷ []) } in
    let h' : Shows (consoleintr c s).0 l' =
      subst (Shows (consoleintr c s).0) (type_char-printable c l p.0.0 p.0.1 (omega arith))
        (intr-Shows c s l h) in
    subst
      (λ e.
        Shows (intr_all (cs ++ (line_feed ∷ [])) (consoleintr c s).0)
          (record { ready = l.ready ++ e; edit = [] }))
      (append_assoc l.edit (c ∷ []) (cs ++ (line_feed ∷ [])))
      (intr_line cs (consoleintr c s).0 l' p.1 h' (omega (arith, length-append l.edit (c ∷ []))))

some_ready : (s : Cons) (c : ℕ) (cs : List ℕ) → IsCons s → ready s ≡ c ∷ cs → s.r ≢ s.w
unfolding ready
some_ready s c cs v e q =
    let z : gap s.w s.r ≡ 0 = subst (λ a. gap s.w a ≡ 0) (sym q) (gap-same s.w v.write_word) in
    nothing_in (subst (λ n. window s.buf s.r n ≡ c ∷ cs) z e)
  where
    nothing_in : [] ≢ c ∷ cs
    nothing_in h = absurd (ground arith)

next_ready :
    (s : Cons) (c : ℕ) (cs : List ℕ)
    → IsCons s
    → ready s ≡ c ∷ cs
    → (next_char s ≡ c) × (ready (drop_char s) ≡ cs)
next_ready s c cs v e =
    let d = ready-drop_char s v (some_ready s c cs v e) in (ground arith, ground arith)

-- A call with room for it gets the whole first line.
read_loop_line :
    (cs rest : List ℕ) (s : Cons) (killed : Bool) (m i : ℕ)
    → IsCons s
    → Plain cs
    → ready s ≡ cs ++ (line_feed ∷ rest)
    → length cs < m
    → let r = read_loop s killed (replicate m true) i in
      (r.out ≡ cs ++ (line_feed ∷ [])) × (r.end ≡ returns (i + length cs + 1))
unfolding read_loop
read_loop_line cs rest s killed zero i v p e l = absurd (omega arith)
read_loop_line [] rest s killed (suc m) i v p e l =
    let n = next_ready s line_feed rest v e in
    rw (==-false s.r s.w (some_ready s line_feed rest v e), n.0) (refl, ap returns (omega arith))
read_loop_line (c ∷ cs) rest s killed (suc m) i v p e l =
    let h = some_ready s c (cs ++ (line_feed ∷ rest)) v e in
    let n = next_ready s c (cs ++ (line_feed ∷ rest)) v e in
    let ih =
      read_loop_line cs rest (drop_char s) killed m (i + 1) (drop_char-IsCons s v h) p.1 n.1
        (omega arith) in
    rw (==-false s.r s.w h, n.0, ==-false c ctrl_d p.0.1, ==-false c line_feed p.0.0)
      (ap (◌∷◌ c) ih.0, ih.1 ∙ ap returns (omega arith))

Printable-Plain : (cs : List ℕ) → Printable cs → Plain cs
Printable-Plain [] p = refl
Printable-Plain (c ∷ cs) p = ((λ q. omega arith, λ q. omega arith), Printable-Plain cs p.1)

-- When a line of at most 127 printable characters and its line feed are typed on a well-formed
-- console with no input pending, a consoleread() with room for them, and no fault, copies out that
-- line with its line feed and returns their number.
pub consoleread-consoleintr :
    (cs : List ℕ) (s : Cons) (killed : Bool) (n : ℕ)
    → IsCons s
    → ready s ≡ []
    → edit s ≡ []
    → Printable cs
    → length cs < input_buf_size
    → length cs < n
    → let r = read_loop (intr_all (cs ++ (line_feed ∷ [])) s) killed (replicate n true) 0 in
      (r.out ≡ cs ++ (line_feed ∷ [])) × (r.end ≡ returns (length cs + 1))
consoleread-consoleintr cs s killed n v a b p l m =
    let h =
      intr_line cs s (record { ready = []; edit = [] }) p
        (v, ap₂ (λ x y. record { ready = x; edit = y }) a b) (omega arith) in
    let r =
      read_loop_line cs [] (intr_all (cs ++ (line_feed ∷ [])) s) killed n 0 h.0
        (Printable-Plain cs p) (ap (λ i. i.ready) h.1) m in
    (r.0, r.1 ∙ ap returns (omega arith))
