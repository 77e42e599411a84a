-- ===== src/Pipe.antt =====
-- kernel/pipe.c. A call of pipewrite() or piperead() runs under the pipe's lock from one sleep to the
-- next; such a stretch is a function of the pipe. What copyin() gives for the bytes of the caller is
-- a list, `none` for a fault; what copyout() answers is a list of Booleans.
pub mod Queue
pub mod Calls
use liberal_os.Prelude.{
  ℕ, zero, suc, ◌+◌, ◌-◌, ◌*◌, ◌/◌, ◌%◌, ◌^◌, ◌≤◌, ◌<◌, min, ◌≡◌, refl, sym, ap, ap₂, ◌∙◌, subst,
  ◌≢◌, ◌↔◌, ◌⊎◌, inl, inr, Bool, true, false, not, ◌&&◌, ◌||◌, Option, none, some, List, [], ◌∷◌,
  ◌++◌, arith, ltb, leb, ◌==◌, if◌then◌else◌, ==_iff, ==-refl, ==-false, Bool-cases, Option-cases,
  ℤ, pos, negsuc, sub_ℕ, ◌≤ℤ◌, ◌<ℤ◌, ltb_ℤ, leb_ℤ, eqb_ℤ, eqb_ℤ_iff, length, get_elem?, get_or, set,
  take, drop, replicate, length-append, length-set, length-take, length-replicate,
  get_elem?-set_self, get_elem?-set_ne, get_or-set_self, get_or-set_ne, take-length, lt_of_le_ne,
}

-- PIPESIZE
abbrev pub pipe_size : ℕ
pipe_size = 512

abbrev pub u32 : ℕ
u32 = 2 ^ 32

pub record Pipe : Type 0 where
  pub bytes : List ℕ
  pub nread : ℕ
  pub nwrite : ℕ
  pub readopen : Bool
  pub writeopen : Bool

-- The pipe that pipealloc() sets up on a fresh page.
unfoldable pub pipe_init : List ℕ → Pipe
pipe_init page = record {
  bytes = take pipe_size page;
  nread = 0;
  nwrite = 0;
  readopen = true;
  writeopen = true;
}

-- pi->data[pi->nwrite++ % PIPESIZE] = ch;
unfoldable pub put_byte : Pipe → ℕ → Pipe
put_byte p ch = record p {
  bytes = set p.bytes (p.nwrite % pipe_size) ch;
  nwrite = (p.nwrite + 1) % u32;
}

-- ch = pi->data[pi->nread % PIPESIZE];
unfoldable pub next_byte : Pipe → ℕ
next_byte p = get_or p.bytes (p.nread % pipe_size) 0

unfoldable pub drop_byte : Pipe → Pipe
drop_byte p = record p { nread = (p.nread + 1) % u32 }

unfoldable pub is_full : Pipe → Bool
is_full p = p.nwrite == (p.nread + pipe_size) % u32

unfoldable pub is_empty : Pipe → Bool
is_empty p = p.nread == p.nwrite

-- How a stretch ends: asleep on a channel with i bytes done, or with the result of the call.
pub data Outcome : Type 0 where
  asleep : ℕ → Outcome
  returned : ℕ → Outcome
  failed : Outcome

-- The loop of pipewrite() with i bytes written and the given bytes to come.
unfoldable pub write_run : Pipe → Bool → List (Option ℕ) → ℕ → Outcome × Pipe
write_run p killed [] i = (returned i, p)
write_run p killed (none ∷ bs) i =
    if not p.readopen || killed
    then (failed, p)
    else if is_full p
    then (asleep i, p)
    else (returned i, p)
write_run p killed (some ch ∷ bs) i =
    let rest = write_run (put_byte p ch) killed bs (i + 1) in
    if not p.readopen || killed then (failed, p) else if is_full p then (asleep i, p) else rest

-- The bytes that piperead() copies out.
pub record Reading : Type 0 where
  pub outcome : Outcome
  pub out : List ℕ
  pub pipe : Pipe

abbrev pub prepend : ℕ → Reading → Reading
prepend ch r = record r { out = ch ∷ r.out }

-- The copy loop of piperead() with i bytes read; `oks` has an entry for each of the n - i to come.
unfoldable pub read_run : Pipe → List Bool → ℕ → Reading
read_run p [] i = record { outcome = returned i; out = []; pipe = p }
read_run p (ok ∷ oks) i =
    let rest = prepend (next_byte p) (read_run (drop_byte p) oks (i + 1)) in
    if is_empty p
    then record { outcome = returned i; out = []; pipe = p }
    else if ok
    then rest
    else record { outcome = if i == 0 then failed else returned i; out = []; pipe = p }

unfoldable pub piperead : Pipe → Bool → List Bool → Reading
piperead p killed oks =
    if is_empty p && p.writeopen
    then record { outcome = if killed then failed else asleep 0; out = []; pipe = p }
    else read_run p oks 0

-- The pipe, and whether its page is freed.
unfoldable pub pipeclose : Pipe → Bool → Pipe × Bool
pipeclose p writable =
    let p' = if writable then record p { writeopen = false } else record p { readopen = false } in
    (p', not p'.readopen && not p'.writeopen)
