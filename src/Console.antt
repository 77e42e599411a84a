-- ===== src/Console.antt =====
-- kernel/console.c: the input side of the console. consoleintr() takes a character from the device;
-- a call of consoleread() runs under the console's lock from one sleep to the next, and such a
-- stretch is a function of the ring. What either_copyout() answers is a list of Booleans.
pub mod Ring
pub mod Edit
pub mod Line
pub mod Read
pub mod Lines
pub mod Write
use liberal_os.Prelude.{
  ℕ, zero, suc, ◌+◌, ◌-◌, ◌*◌, ◌/◌, ◌%◌, ◌^◌, ◌≤◌, ◌<◌, min, ◌≡◌, refl, sym, ap, ap₂, ◌∙◌, subst,
  ◌≢◌, ◌↔◌, ◌⊎◌, inl, inr, Bool, true, false, not, ◌&&◌, ◌||◌, Option, none, some, List, [], ◌∷◌,
  ◌++◌, arith, ltb, leb, ◌==◌, if◌then◌else◌, ==_iff, ==-refl, ==-false, Bool-cases, Option-cases,
  ℤ, pos, negsuc, sub_ℕ, ◌≤ℤ◌, ◌<ℤ◌, ltb_ℤ, leb_ℤ, eqb_ℤ, eqb_ℤ_iff, length, get_elem?, get_or, set,
  take, drop, replicate, length-append, length-set, length-take, length-replicate,
  get_elem?-set_self, get_elem?-set_ne, get_or-set_self, get_or-set_ne, take-length, lt_of_le_ne,
}

-- INPUT_BUF_SIZE
abbrev pub input_buf_size : ℕ
input_buf_size = 128

abbrev pub word : ℕ
word = 2 ^ 32

-- C('D'), C('H'), C('P'), C('U'), the delete key and the two ends of a line.
abbrev pub ctrl_d : ℕ
ctrl_d = 4

abbrev pub ctrl_h : ℕ
ctrl_h = 8

abbrev pub ctrl_p : ℕ
ctrl_p = 16

abbrev pub ctrl_u : ℕ
ctrl_u = 21

abbrev pub delete_key : ℕ
delete_key = 127

abbrev pub line_feed : ℕ
line_feed = 10

abbrev pub carriage_return : ℕ
carriage_return = 13

-- BACKSPACE
abbrev pub backspace : ℕ
backspace = 256

pub record Cons : Type 0 where
  pub buf : List ℕ
  pub r : ℕ
  pub w : ℕ
  pub e : ℕ

-- Static storage.
unfoldable pub cons_init : Cons
cons_init = record { buf = replicate 128 0; r = 0; w = 0; e = 0 }

-- a - b on uint
unfoldable pub gap : ℕ → ℕ → ℕ
gap a b = (a + word - b) % word

-- What the handler does outside the ring: procdump(), consputc() and wakeup().
pub data Effect : Type 0 where
  dumps wakes : Effect
  puts : ℕ → Effect

-- cons.e--
abbrev pub erase : Cons → Cons
erase s = record s { e = (s.e + word - 1) % word }

-- The loop of C('U'), in at most n rounds.
unfoldable pub kill_line : ℕ → Cons → Cons × List Effect
kill_line zero s = (s, [])
kill_line (suc n) s =
    let rest = kill_line n (erase s) in
    if s.e == s.w || get_or s.buf (((s.e + word - 1) % word) % input_buf_size) 0 == line_feed
    then (s, [])
    else (rest.0, puts backspace ∷ rest.1)

-- Backspace and the delete key.
unfoldable pub rub_out : Cons → Cons × List Effect
rub_out s = if s.e == s.w then (s, []) else (erase s, puts backspace ∷ [])

-- cons.buf[cons.e++ % INPUT_BUF_SIZE] = c;
abbrev pub put_char : ℕ → Cons → Cons
put_char c s = record s { buf = set s.buf (s.e % input_buf_size) c; e = (s.e + 1) % word }

-- if(c == '\n' || c == C('D') || cons.e-cons.r == INPUT_BUF_SIZE)
unfoldable pub end_line : ℕ → Cons → Cons × List Effect
end_line c s =
    if c == line_feed || c == ctrl_d || gap s.e s.r == input_buf_size
    then (record s { w = s.e }, puts c ∷ wakes ∷ [])
    else (s, puts c ∷ [])

unfoldable pub typed : ℕ → Cons → Cons × List Effect
typed c s = end_line c (put_char c s)

-- c = (c == '\r') ? '\n' : c;
unfoldable pub to_line_feed : ℕ → ℕ
to_line_feed c = if c == carriage_return then line_feed else c

unfoldable pub consoleintr : ℕ → Cons → Cons × List Effect
consoleintr c s =
    if c == ctrl_p
    then (s, dumps ∷ [])
    else if c == ctrl_u
    then kill_line (gap s.e s.w) s
    else if c == ctrl_h || c == delete_key
    then rub_out s
    else if not (c == 0) && ltb (gap s.e s.r) input_buf_size
    then typed (to_line_feed c) s
    else (s, [])

-- How a stretch of consoleread() ends: asleep, with -1, or with the number of bytes.
pub data End : Type 0 where
  sleeps aborted : End
  returns : ℕ → End

pub record LineRead : Type 0 where
  pub end : End
  pub out : List ℕ
  pub cons : Cons

-- cons.buf[cons.r % INPUT_BUF_SIZE]
unfoldable pub next_char : Cons → ℕ
next_char s = get_or s.buf (s.r % input_buf_size) 0

-- cons.r++
abbrev pub drop_char : Cons → Cons
drop_char s = record s { r = (s.r + 1) % word }

abbrev pub with_char : ℕ → LineRead → LineRead
with_char c r = record r { out = c ∷ r.out }

abbrev pub stop : ℕ → Cons → LineRead
stop i s = record { end = returns i; out = []; cons = s }

-- The loop of consoleread() with i bytes read in all; `oks` has an entry for each of the n to come.
unfoldable pub read_loop : Cons → Bool → List Bool → ℕ → LineRead
read_loop s killed [] i = stop i s
read_loop s killed (ok ∷ oks) i =
    let rest = read_loop (drop_char s) killed oks (i + 1) in
    if s.r == s.w
    then record { end = if killed then aborted else sleeps; out = []; cons = s }
    else if next_char s == ctrl_d
    then stop i (if ltb 0 i then s else drop_char s)
    else if not ok
    then stop i (drop_char s)
    else if next_char s == line_feed
    then with_char line_feed (stop (i + 1) (drop_char s))
    else with_char (next_char s) rest
