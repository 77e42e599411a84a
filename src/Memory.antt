-- ===== src/Memory.antt =====
-- kernel/string.c on raw memory: a byte for each address. Objects do not wrap round the address
-- space, so addresses are plain numbers.
pub mod Laws
use liberal_os.Prelude.{
  ℕ, zero, suc, ◌+◌, ◌-◌, ◌%◌, Bool, ◌&&◌, ltb, leb, ◌==◌, if◌then◌else◌, ℤ, pos, sub_ℕ,
}

abbrev pub Mem : Type 0
Mem = ℕ → ℕ

abbrev pub update : Mem → ℕ → ℕ → Mem
update m p v a = if p == a then v else m a

-- `cdst[i] = c` stores the low byte of c.
unfoldable pub memset : Mem → ℕ → ℕ → ℕ → Mem
memset m dst c zero = m
memset m dst c (suc n) = memset (update m dst (c % 256)) (dst + 1) c n

unfoldable pub memcmp : Mem → ℕ → ℕ → ℕ → ℤ
memcmp m s1 s2 zero = pos 0
memcmp m s1 s2 (suc n) =
    let rest = memcmp m (s1 + 1) (s2 + 1) n in if m s1 == m s2 then rest else sub_ℕ (m s1) (m s2)

-- while(n-- > 0) *d++ = *s++;
unfoldable pub move_up : Mem → ℕ → ℕ → ℕ → Mem
move_up m d s zero = m
move_up m d s (suc n) = move_up (update m d (m s)) (d + 1) (s + 1) n

-- while(n-- > 0) *--d = *--s;
unfoldable pub move_down : Mem → ℕ → ℕ → ℕ → Mem
move_down m d s zero = m
move_down m d s (suc n) = move_down (update m (d - 1) (m (s - 1))) (d - 1) (s - 1) n

unfoldable pub memmove : Mem → ℕ → ℕ → ℕ → Mem
memmove m dst src n =
    if n == 0
    then m
    else if ltb src dst && ltb dst (src + n)
    then move_down m (dst + n) (src + n) n
    else move_up m dst src n
