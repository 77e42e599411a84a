-- ===== src/Fs/Bitmap.antt =====
-- balloc() and bfree() of kernel/fs.c. The disk is a function from a block number to the bytes of the
-- block, as bread() shows them and log_write() leaves them; the device is the only one. A panic is
-- none.
pub mod Bits
pub mod Alloc
pub mod Blocks
use liberal_os.Prelude.{
  ℕ, zero, suc, ◌+◌, ◌-◌, ◌*◌, ◌/◌, ◌%◌, ◌^◌, ◌≤◌, ◌<◌, min, ◌≡◌, refl, sym, ap, ap₂, ◌∙◌, subst,
  ◌≢◌, ◌↔◌, ◌⊎◌, inl, inr, Bool, true, false, not, ◌&&◌, ◌||◌, Option, none, some, List, [], ◌∷◌,
  ◌++◌, arith, ltb, leb, ◌==◌, if◌then◌else◌, ==_iff, ==-refl, ==-false, Bool-cases, Option-cases,
  ℤ, pos, negsuc, sub_ℕ, ◌≤ℤ◌, ◌<ℤ◌, ltb_ℤ, leb_ℤ, eqb_ℤ, eqb_ℤ_iff, length, get_elem?, get_or, set,
  take, drop, replicate, length-append, length-set, length-take, length-replicate,
  get_elem?-set_self, get_elem?-set_ne, get_or-set_self, get_or-set_ne, take-length, lt_of_le_ne,
}

-- BSIZE
abbrev pub bsize : ℕ
bsize = 1024

-- BPB
abbrev pub bpb : ℕ
bpb = 8192

-- The fields of struct superblock that are read here.
pub record Superblock : Type 0 where
  pub size : ℕ
  pub bmapstart : ℕ

-- BBLOCK(b, sb)
abbrev pub bblock : Superblock → ℕ → ℕ
bblock sb b = b / bpb + sb.bmapstart

-- The bit k of a byte, that is whether byte & (1 << k) is not 0.
unfoldable pub bit : ℕ → ℕ → Bool
bit zero byte = byte % 2 == 1
bit (suc k) byte = bit k (byte / 2)

-- byte | (1 << k)
unfoldable pub or_bit : ℕ → ℕ → ℕ
or_bit zero byte = byte - byte % 2 + 1
or_bit (suc k) byte = byte % 2 + 2 * or_bit k (byte / 2)

-- byte & ~(1 << k)
unfoldable pub and_not : ℕ → ℕ → ℕ
and_not zero byte = byte - byte % 2
and_not (suc k) byte = byte % 2 + 2 * and_not k (byte / 2)

abbrev pub put_at : (ℕ → List ℕ) → ℕ → List ℕ → ℕ → List ℕ
put_at disk n block m = if m == n then block else disk m

-- bp->data[bi/8] & m for the block b, with bi = b % BPB and m = 1 << (bi % 8).
unfoldable pub in_use : Superblock → (ℕ → List ℕ) → ℕ → Bool
in_use sb disk b = bit (b % bpb % 8) (get_or (disk (bblock sb b)) (b % bpb / 8) 0)

-- bp->data[bi/8] = f(bp->data[bi/8], m); log_write(bp);
unfoldable pub change_bit : Superblock → (ℕ → ℕ → ℕ) → ℕ → (ℕ → List ℕ) → ℕ → List ℕ
change_bit sb f b disk = put_at disk (bblock sb b) (
    set (disk (bblock sb b)) (b % bpb / 8)
      (f (b % bpb % 8) (get_or (disk (bblock sb b)) (b % bpb / 8) 0)))

-- memset(bp->data, 0, BSIZE); log_write(bp);
unfoldable pub bzero : ℕ → (ℕ → List ℕ) → ℕ → List ℕ
bzero bno disk = put_at disk bno (replicate bsize 0)

-- The two loops of balloc() as one over the block number b + bi, in at most n rounds.
unfoldable pub scan : Superblock → (ℕ → List ℕ) → ℕ → ℕ → Option ℕ
scan sb disk zero b = none
scan sb disk (suc n) b =
    let rest = scan sb disk n (b + 1) in
    if ltb b sb.size then (if in_use sb disk b then rest else some b) else none

unfoldable pub allot : Superblock → (ℕ → List ℕ) → Option ℕ → ℕ × (ℕ → List ℕ)
allot sb disk none = (0, disk)
allot sb disk (some b) = (b, bzero b (change_bit sb or_bit b disk))

-- The block, or 0 when none is free.
unfoldable pub balloc : Superblock → (ℕ → List ℕ) → ℕ × (ℕ → List ℕ)
balloc sb disk = allot sb disk (scan sb disk sb.size 0)

unfoldable pub bfree : Superblock → ℕ → (ℕ → List ℕ) → Option (ℕ → List ℕ)
bfree sb b disk = if not (in_use sb disk b) then none else some (change_bit sb and_not b disk)
