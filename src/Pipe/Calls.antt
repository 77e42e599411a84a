-- ===== src/Pipe/Calls.antt =====
-- One stretch of pipewrite() or piperead() on a pipe, seen on the queue of its bytes.
use liberal_os.Prelude.{
  ℕ, zero, suc, ◌+◌, ◌-◌, ◌<◌, ◌≡◌, refl, sym, ap, ◌∙◌, inl, inr, Bool, true, false, not, ◌&&◌,
  ◌||◌, Option, none, some, List, [], ◌∷◌, ◌++◌, arith, leb, ◌==◌, if◌then◌else◌, Bool-cases,
  length, take,
}
use mathlib.Core.List.{append-nil, append_assoc}
use liberal_os.Pipe.{
  next_byte, failed, prepend, drop_byte, is_empty, is_full, piperead, put_byte, write_run, asleep,
  returned, pipe_size, Outcome, Reading, Pipe, read_run,
}
use liberal_os.Pipe.Queue.{
  contents-put_byte, count-put_byte, contents-drop_byte, drop_byte-IsPipe, put_byte-IsPipe, IsPipe,
  count, contents,
}

-- The bytes before the first fault.
abbrev pub readable : List (Option ℕ) → List ℕ
readable [] = []
readable (none ∷ bs) = []
readable (some b ∷ bs) = b ∷ readable bs

abbrev pub faults : List (Option ℕ) → Bool
faults [] = false
faults (none ∷ bs) = true
faults (some b ∷ bs) = faults bs

-- The room that pipewrite() needs to get to the end of its bytes, or to a fault in them.
abbrev pub needed : List (Option ℕ) → ℕ
needed bs = if faults bs then suc (length (readable bs)) else length (readable bs)

-- The bytes that a stretch of pipewrite() stores, and how it ends.
pub record WriteEffect (p : Pipe) (bs : List (Option ℕ)) (i : ℕ) (r : Outcome × Pipe) : Type 0 where
  pub appended : contents r.1 ≡ contents p ++ take (pipe_size - count p) (readable bs)
  pub outcome : r.0 ≡ (
      if leb (needed bs) (pipe_size - count p)
      then returned (i + length (readable bs))
      else asleep (i + (pipe_size - count p)))
  pub pipe : IsPipe r.1

-- What a stretch of piperead() takes is a front of the queue, and the rest stays in order.
pub record ReadEffect (p : Pipe) (r : Reading) : Type 0 where
  pub split : contents p ≡ r.out ++ contents r.pipe
  pub pipe : IsPipe r.pipe

kept :
    (p : Pipe) (o : Outcome) → IsPipe p → ReadEffect p (record { outcome = o; out = []; pipe = p })
kept p o v = record { split = refl; pipe = v }

taken :
    (p : Pipe) (r : Reading)
    → IsPipe p
    → 0 < count p
    → ReadEffect (drop_byte p) r
    → ReadEffect p (prepend (next_byte p) r)
taken p r v some_byte e = record {
  split = contents-drop_byte p v some_byte ∙ ap (◌∷◌ (next_byte p)) e.split;
  pipe = e.pipe;
}

nonempty : (p : Pipe) → IsPipe p → is_empty p ≡ false → 0 < count p
unfolding is_empty count
nonempty p v e = ground (arith, v.read_word, v.write_word)

read_run-ReadEffect :
    (p : Pipe) (oks : List Bool) (i : ℕ) → IsPipe p → ReadEffect p (read_run p oks i)
unfolding read_run
read_run-ReadEffect p [] i v = kept p (returned i) v
read_run-ReadEffect p (ok ∷ oks) i v = elim (Bool-cases (is_empty p)) [
  | inl e ↦ rw e (kept p (returned i) v)
  | inr e ↦
      let some_byte = nonempty p v e in
      elim (Bool-cases ok) [
        | inl y ↦
            rw (e, y)
              (taken p (read_run (drop_byte p) oks (i + 1)) v some_byte
                (read_run-ReadEffect (drop_byte p) oks (i + 1) (drop_byte-IsPipe p v some_byte)))
        | inr n ↦ rw (e, n) (kept p (if i == 0 then failed else returned i) v)
      ]
]

-- A stretch of piperead() takes the oldest bytes of a valid pipe, in order, and the pipe stays valid
-- and keeps the rest in order: none is lost, doubled or reordered, also when copyout() fails.
pub piperead-ReadEffect :
    (p : Pipe) (killed : Bool) (oks : List Bool) → IsPipe p → ReadEffect p (piperead p killed oks)
unfolding piperead
piperead-ReadEffect p killed oks v = elim (Bool-cases (is_empty p && p.writeopen)) [
  | inl e ↦ rw e (kept p (if killed then failed else asleep 0) v)
  | inr e ↦ rw e (read_run-ReadEffect p oks 0 v)
]

shifted :
    (n k i : ℕ) (f : Bool)
    → (if leb (if f then suc n else n) k then returned (i + 1 + n) else asleep (i + 1 + k)) ≡ (
        if leb (if f then suc (suc n) else suc n) (suc k)
        then returned (i + suc n)
        else asleep (i + suc k))
shifted n k i true = ground arith
shifted n k i false = ground arith

stuck :
    (n i : ℕ) (f : Bool)
    → asleep i
      ≡ (if leb (if f then suc (suc n) else suc n) 0 then returned (i + suc n) else asleep (i + 0))
stuck n i true = ground arith
stuck n i false = ground arith

stuck_fault : (i : ℕ) → asleep i ≡ (if leb 1 0 then returned (i + 0) else asleep (i + 0))
stuck_fault i = ground arith

faulted : (i k : ℕ) → 0 < k → returned i ≡ (if leb 1 k then returned (i + 0) else asleep (i + k))
faulted i k h = ground arith

take_nil : (n : ℕ) → take {A = ℕ} n [] ≡ []
take_nil zero = refl
take_nil (suc n) = refl

readopen-put_byte : (p : Pipe) (b : ℕ) → (put_byte p b).readopen ≡ p.readopen
unfolding put_byte
readopen-put_byte p b = refl

full_room : (p : Pipe) → IsPipe p → is_full p ≡ true → pipe_size - count p ≡ 0
unfolding is_full count
full_room p v e = ground (arith, v.read_word, v.write_word)

some_room : (p : Pipe) → IsPipe p → is_full p ≡ false → count p < pipe_size
unfolding is_full count
some_room p v e = ground (arith, v.read_word, v.write_word, v.bounded)

full :
    (p : Pipe) (b : ℕ) (bs : List (Option ℕ)) (i : ℕ)
    → IsPipe p
    → is_full p ≡ true
    → WriteEffect p (some b ∷ bs) i (asleep i, p)
full p b bs i v e = record {
  appended = rw (full_room p v e) (sym (append-nil (contents p)));
  outcome = rw (full_room p v e) (stuck (length (readable bs)) i (faults bs));
  pipe = v;
}

room-put_byte :
    (p : Pipe) (b : ℕ)
    → IsPipe p
    → count p < pipe_size
    → pipe_size - count p ≡ suc (pipe_size - count (put_byte p b))
room-put_byte p b v h = omega (arith, count-put_byte p b v h)

more :
    (p : Pipe) (b : ℕ) (bs : List (Option ℕ)) (i : ℕ) (r : Outcome × Pipe)
    → IsPipe p
    → count p < pipe_size
    → WriteEffect (put_byte p b) bs (i + 1) r
    → WriteEffect p (some b ∷ bs) i r
more p b bs i r v h e = record {
  appended = rw (room-put_byte p b v h) (
      e.appended
      ∙ rw (contents-put_byte p b v h) (
          append_assoc (contents p) (b ∷ [])
            (take (pipe_size - count (put_byte p b)) (readable bs))));
  outcome =
      rw (room-put_byte p b v h) (
        e.outcome
        ∙ shifted (length (readable bs)) (pipe_size - count (put_byte p b)) i (faults bs));
  pipe = e.pipe;
}

write_step :
    (p : Pipe) (q : Bool) (b : ℕ) (bs : List (Option ℕ)) (i : ℕ) (r : Outcome × Pipe)
    → IsPipe p
    → q ≡ true
    → (count p < pipe_size → WriteEffect (put_byte p b) bs (i + 1) r)
    → WriteEffect p
        (some b ∷ bs)
        i
        (if not q || false then (failed, p) else if is_full p then (asleep i, p) else r)
write_step p q b bs i r v w ih = elim (Bool-cases (is_full p)) [
  | inl e ↦ rw (w, e) (full p b bs i v e)
  | inr e ↦ rw (w, e) (more p b bs i r v (some_room p v e) (ih (some_room p v e)))
]

write_fault :
    (p : Pipe) (q : Bool) (bs : List (Option ℕ)) (i : ℕ)
    → IsPipe p
    → q ≡ true
    → WriteEffect p (none ∷ bs) i (
        if not q || false
        then (failed, p)
        else if is_full p
        then (asleep i, p)
        else (returned i, p))
write_fault p q bs i v w = elim (Bool-cases (is_full p)) [
  | inl e ↦
      rw (w, e)
        (record {
          appended = rw (take_nil (pipe_size - count p)) (sym (append-nil (contents p)));
          outcome = rw (full_room p v e) (stuck_fault i);
          pipe = v;
        })
  | inr e ↦
      rw (w, e)
        (record {
          appended = rw (take_nil (pipe_size - count p)) (sym (append-nil (contents p)));
          outcome = faulted i (pipe_size - count p) (omega (arith, some_room p v e));
          pipe = v;
        })
]

-- With room for k bytes in a valid pipe with an open read end, a stretch of pipewrite() of a process
-- that is not killed appends the first k of the bytes that it can read before copyin() faults, or all
-- of its bytes when it does not fault. It returns the count of these when it gets to the fault or to
-- the end of its bytes, and otherwise sleeps with k bytes done.
pub write_run-WriteEffect :
    (p : Pipe) (bs : List (Option ℕ)) (i : ℕ)
    → IsPipe p
    → p.readopen ≡ true
    → WriteEffect p bs i (write_run p false bs i)
unfolding write_run
write_run-WriteEffect p [] i v w = record {
  appended = rw (take_nil (pipe_size - count p)) (sym (append-nil (contents p)));
  outcome = ground arith;
  pipe = v;
}
write_run-WriteEffect p (none ∷ bs) i v w = write_fault p p.readopen bs i v w
write_run-WriteEffect p (some b ∷ bs) i v w =
    write_step p p.readopen b bs i (write_run (put_byte p b) false bs (i + 1)) v w (λ h.
      write_run-WriteEffect (put_byte p b) bs (i + 1) (put_byte-IsPipe p b v h)
        (readopen-put_byte p b ∙ w))
