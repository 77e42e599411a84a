-- ===== src/Pipe/Queue.antt =====
-- The bytes in a pipe, oldest first: the ring of 512 bytes and the two wrapping counters as a queue.
use liberal_os.Prelude.{
  ℕ, zero, suc, ◌+◌, ◌-◌, ◌%◌, ◌≤◌, ◌<◌, ◌≡◌, refl, ap, ap₂, ◌∙◌, ◌↔◌, true, List, [], ◌∷◌, ◌++◌,
  arith, length, get_or, set, length-set, get_or-set_self, get_or-set_ne,
}
use liberal_os.Pipe.{drop_byte, is_empty, is_full, next_byte, put_byte, Pipe, pipe_size, u32}

-- The n bytes of the ring from position h on.
abbrev pub window : List ℕ → ℕ → ℕ → List ℕ
window bytes h zero = []
window bytes h (suc n) = get_or bytes (h % pipe_size) 0 ∷ window bytes (h + 1) n

unfoldable pub count : Pipe → ℕ
count p = (p.nwrite + u32 - p.nread) % u32

unfoldable pub contents : Pipe → List ℕ
contents p = window p.bytes p.nread (count p)

pub record IsPipe (p : Pipe) : Type 0 where
  pub size : length p.bytes ≡ pipe_size
  pub read_word : p.nread < u32
  pub write_word : p.nwrite < u32
  pub bounded : count p ≤ pipe_size

window-wrap :
    (bytes : List ℕ) (h k n : ℕ)
    → h % pipe_size ≡ k % pipe_size
    → window bytes h n ≡ window bytes k n
window-wrap bytes h k zero e = refl
window-wrap bytes h k (suc n) e =
    ap₂ ◌∷◌ (ap (λ i. get_or bytes i 0) e) (window-wrap bytes (h + 1) (k + 1) n (omega arith))

window-set :
    (bytes : List ℕ) (x h n i : ℕ)
    → length bytes ≡ pipe_size
    → n < pipe_size
    → i ≡ (h + n) % pipe_size
    → window (set bytes i x) h (suc n) ≡ window bytes h n ++ (x ∷ [])
window-set bytes x h zero i size small e =
    let same : i ≡ h % pipe_size = omega arith in
    rw (same, get_or-set_self bytes (h % pipe_size) x 0 (omega arith)) refl
window-set bytes x h (suc n) i size small e =
    ap₂ ◌∷◌ (get_or-set_ne bytes i (h % pipe_size) x 0 (omega arith))
      (window-set bytes x (h + 1) n i size (omega arith) (omega arith))

pub count-put_byte :
    (p : Pipe) (ch : ℕ) → IsPipe p → count p < pipe_size → count (put_byte p ch) ≡ suc (count p)
unfolding count put_byte
count-put_byte p ch v room = omega (arith, v.read_word, v.write_word)

count-drop_byte : (p : Pipe) → IsPipe p → 0 < count p → count p ≡ suc (count (drop_byte p))
unfolding count drop_byte
count-drop_byte p v some_byte = omega (arith, v.read_word, v.write_word)

-- The place of the write counter in the ring.
write_place : (p : Pipe) → IsPipe p → p.nwrite % pipe_size ≡ (p.nread + count p) % pipe_size
unfolding count
write_place p v = omega (arith, v.read_word, v.write_word)

pub put_byte-IsPipe : (p : Pipe) (ch : ℕ) → IsPipe p → count p < pipe_size → IsPipe (put_byte p ch)
unfolding put_byte
put_byte-IsPipe p ch v room = record {
  size = length-set p.bytes (p.nwrite % pipe_size) ch ∙ v.size;
  read_word = v.read_word;
  write_word = omega arith;
  bounded = rw (count-put_byte p ch v room) room;
}

pub drop_byte-IsPipe : (p : Pipe) → IsPipe p → 0 < count p → IsPipe (drop_byte p)
unfolding drop_byte
drop_byte-IsPipe p v some_byte = record {
  size = v.size;
  read_word = omega arith;
  write_word = v.write_word;
  bounded = omega (arith, count-drop_byte p v some_byte, v.bounded);
}

-- A byte that is put goes to the end of the queue.
pub contents-put_byte :
    (p : Pipe) (ch : ℕ)
    → IsPipe p
    → count p < pipe_size
    → contents (put_byte p ch) ≡ contents p ++ (ch ∷ [])
unfolding contents put_byte
contents-put_byte p ch v room =
    rw (count-put_byte p ch v room)
      (window-set p.bytes ch p.nread (count p) (p.nwrite % pipe_size) v.size room (write_place p v))

-- A byte that is dropped is the head of the queue.
pub contents-drop_byte :
    (p : Pipe) → IsPipe p → 0 < count p → contents p ≡ next_byte p ∷ contents (drop_byte p)
unfolding contents next_byte drop_byte
contents-drop_byte p v some_byte = rw (count-drop_byte p v some_byte) (
    ap (◌∷◌ (get_or p.bytes (p.nread % pipe_size) 0))
      (window-wrap p.bytes (p.nread + 1) ((p.nread + 1) % u32) (count (drop_byte p)) (omega arith)))

pub is_full_iff : (p : Pipe) → IsPipe p → (is_full p ≡ true) ↔ (count p ≡ pipe_size)
unfolding is_full count
is_full_iff p v = ground arith

pub is_empty_iff : (p : Pipe) → IsPipe p → (is_empty p ≡ true) ↔ (count p ≡ 0)
unfolding is_empty count
is_empty_iff p v = ground arith
