-- ===== src/Memory/Laws.antt =====
-- What the memory functions leave at each address.
use liberal_os.Prelude.{
  ℕ, zero, suc, ◌+◌, ◌-◌, ◌%◌, ◌≤◌, ◌≡◌, ◌⊎◌, Bool, ◌&&◌, ltb, leb, if◌then◌else◌, arith,
}
use liberal_os.Memory.{Mem, update, memset, move_up, move_down, memmove}

abbrev pub inside : ℕ → ℕ → ℕ → Bool
inside lo n a = leb lo a && ltb a (lo + n)

-- `memset` makes exactly the n bytes from dst equal to the low byte of c.
pub memset_lem :
    (m : Mem) (dst c n a : ℕ) → memset m dst c n a ≡ (if inside dst n a then c % 256 else m a)
unfolding memset
memset_lem m dst c zero a = ground arith
memset_lem m dst c (suc n) a = ground (arith, memset_lem (update m dst (c % 256)) (dst + 1) c n a)

move_up_lem :
    (m : Mem) (d s n a : ℕ)
    → (d ≤ s) ⊎ (s + n ≤ d)
    → move_up m d s n a ≡ (if inside d n a then m (s + (a - d)) else m a)
unfolding move_up
move_up_lem m d s zero a h = ground arith
move_up_lem m d s (suc n) a h = ground (arith, move_up_lem (update m d (m s)) (d + 1) (s + 1) n a)

-- The pointer below the end of n + 1 bytes is the end of n bytes.
top : (d n : ℕ) → d + suc n - 1 ≡ d + n
top d n = omega arith

move_down_lem :
    (m : Mem) (d s n a : ℕ)
    → s ≤ d
    → move_down m (d + n) (s + n) n a ≡ (if inside d n a then m (s + (a - d)) else m a)
unfolding move_down
move_down_lem m d s zero a h = ground arith
move_down_lem m d s (suc n) a h =
    rw (top d n, top s n) (ground (arith, move_down_lem (update m (d + n) (m (s + n))) d s n a))

-- `memmove` copies the n bytes as they stood before the call, however the two areas overlap, and
-- changes no other byte.
pub memmove_lem :
    (m : Mem) (dst src n a : ℕ)
    → memmove m dst src n a ≡ (if inside dst n a then m (src + (a - dst)) else m a)
unfolding memmove
memmove_lem m dst src n a = ground (arith, move_down_lem m dst src n a, move_up_lem m dst src n a)
