-- ===== src/Fs/Bitmap/Alloc.antt =====
-- balloc() and bfree() of kernel/fs.c on the set of the blocks in use.
use liberal_os.Prelude.{
  ℕ, zero, suc, ◌+◌, ◌/◌, ◌%◌, ◌≤◌, ◌<◌, ◌≡◌, refl, ap, ◌∙◌, subst, ◌≢◌, inl, inr, Bool, true,
  false, none, some, List, arith, ltb, ◌==◌, ==_iff, ==-refl, ==-false, Bool-cases, length, get_or,
  length-set, get_or-set_self, get_or-set_ne,
}
use liberal_os.Fs.Bitmap.Bits.{bit-and_not_ne, bit-or_bit_ne, bit-and_not, bit-or_bit}
use liberal_os.Fs.Bitmap.{
  bzero, scan, bblock, bpb, change_bit, in_use, Superblock, and_not, bit, bsize, or_bit, put_at,
}

abbrev pub IsDisk : (ℕ → List ℕ) → Type 0
IsDisk disk = (n : ℕ) → length (disk n) ≡ bsize

-- The blocks of the map are marked as in use, and so is block 0.
abbrev pub IsReserved : Superblock → (ℕ → List ℕ) → Type 0
IsReserved sb disk =
    (in_use sb disk 0 ≡ true) × ((b : ℕ) → b < sb.size → in_use sb disk (bblock sb b) ≡ true)

pub at_self : (disk : ℕ → List ℕ) (n : ℕ) (block : List ℕ) → put_at disk n block n ≡ block
at_self disk n block = rw (==-refl n) refl

pub at_other :
    (disk : ℕ → List ℕ) (n m : ℕ) (block : List ℕ) → m ≢ n → put_at disk n block m ≡ disk m
at_other disk n m block h = rw (==-false m n h) refl

-- A map of bits that touches the bit k alone and makes it v.
pub record SetsBit (f : ℕ → ℕ → ℕ) (v : Bool) : Type 0 where
  pub self : (k n : ℕ) → bit k (f k n) ≡ v
  pub other : (j k n : ℕ) → j ≢ k → bit j (f k n) ≡ bit j n

pub or_bit-SetsBit : SetsBit or_bit true
or_bit-SetsBit = record { self = bit-or_bit; other = bit-or_bit_ne }

pub and_not-SetsBit : SetsBit and_not false
and_not-SetsBit = record { self = bit-and_not; other = bit-and_not_ne }

module _ (sb : Superblock) (f : ℕ → ℕ → ℕ) (v : Bool) (x : SetsBit f v) where
  pub in_use-change_bit :
      (b : ℕ) (disk : ℕ → List ℕ) → IsDisk disk → in_use sb (change_bit sb f b disk) b ≡ v
  unfolding in_use change_bit
  in_use-change_bit b disk d = rw (==-refl (b / bpb + sb.bmapstart)) (
      ap (bit (b % bpb % 8))
        (get_or-set_self (disk (bblock sb b)) (b % bpb / 8) _ 0 (omega (arith, d (bblock sb b))))
      ∙ x.self (b % bpb % 8) (get_or (disk (bblock sb b)) (b % bpb / 8) 0))

  pub change_bit_others :
      (b c : ℕ) (disk : ℕ → List ℕ)
      → IsDisk disk
      → c ≢ b
      → in_use sb (change_bit sb f b disk) c ≡ in_use sb disk c
  unfolding in_use change_bit
  change_bit_others b c disk d n = elim (Bool-cases (bblock sb c == bblock sb b)) [
    | inr e ↦ rw e refl
    | inl e ↦ elim (Bool-cases (c % bpb / 8 == b % bpb / 8)) [
      | inl q ↦
          let s : c % bpb / 8 ≡ b % bpb / 8 = (==_iff _ _).0 q in
          let t : bblock sb c ≡ bblock sb b = (==_iff _ _).0 e in
          let j : c % bpb % 8 ≢ b % bpb % 8 = λ r. n (omega (arith, r, s, t)) in
          rw (e, s, t)
            (ap (bit (c % bpb % 8)) (
                get_or-set_self (disk (bblock sb b)) (b % bpb / 8) _ 0
                  (omega (arith, d (bblock sb b))))
              ∙ x.other (c % bpb % 8) (b % bpb % 8) _ j)
      | inr q ↦
          let t : bblock sb c ≡ bblock sb b = (==_iff _ _).0 e in
          rw (e, t)
            (ap (bit (c % bpb % 8)) (
              get_or-set_ne (disk (bblock sb b)) (b % bpb / 8) (c % bpb / 8) _ 0
                (λ r. absurd (ground arith))))
    ]
  ]

  pub change_bit-IsDisk :
      (b : ℕ) (disk : ℕ → List ℕ) → IsDisk disk → IsDisk (change_bit sb f b disk)
  unfolding change_bit
  change_bit-IsDisk b disk d n = elim (Bool-cases (n == bblock sb b)) [
    | inl e ↦ rw e (length-set (disk (bblock sb b)) (b % bpb / 8) _ ∙ d (bblock sb b))
    | inr e ↦ rw e (d n)
  ]

module _ (sb : Superblock) (disk : ℕ → List ℕ) where
  pub scan_free :
      (n b c : ℕ)
      → scan sb disk n b ≡ some c
      → ((b ≤ c) × (c < sb.size))
        × ((in_use sb disk c ≡ false) × ((m : ℕ) → b ≤ m → m < c → in_use sb disk m ≡ true))
  unfolding scan
  scan_free zero b c h = absurd (ground arith)
  scan_free (suc n) b c h = elim (Bool-cases (ltb b sb.size)) [
    | inr e ↦ absurd (ground arith)
    | inl e ↦ elim (Bool-cases (in_use sb disk b)) [
      | inr f ↦
          let q : b ≡ c = ground arith in
          subst
            (λ c.
              ((b ≤ c) × (c < sb.size))
              × ((in_use sb disk c ≡ false) × ((m : ℕ) → b ≤ m → m < c → in_use sb disk m ≡ true)))
            q ((omega arith, ground arith), (f, λ m l g. absurd (omega arith)))
      | inl f ↦
          let r = scan_free n (b + 1) c (ground arith) in
          ((omega (arith, r.0.0), r.0.1), (r.1.0, λ m l g. from_next b f m l (λ k. r.1.1 m k g)))
    ]
  ]
    where
      from_next :
          (b : ℕ)
          → in_use sb disk b ≡ true
          → (m : ℕ) → b ≤ m
          → (b + 1 ≤ m → in_use sb disk m ≡ true)
          → in_use sb disk m ≡ true
      from_next b f m l g = elim (Bool-cases (b == m)) [
        | inl e ↦ subst (λ a. in_use sb disk a ≡ true) ((==_iff b m).0 e) f
        | inr e ↦ g (ground arith)
      ]

  pub scan_full :
      (n b : ℕ)
      → sb.size ≤ b + n
      → scan sb disk n b ≡ none
      → (m : ℕ) → b ≤ m
      → m < sb.size
      → in_use sb disk m ≡ true
  unfolding scan
  scan_full zero b k h m l g = absurd (omega arith)
  scan_full (suc n) b k h m l g = elim (Bool-cases (ltb b sb.size)) [
    | inr e ↦ absurd (ground arith)
    | inl e ↦ elim (Bool-cases (in_use sb disk b)) [
      | inr f ↦ absurd (ground arith)
      | inl f ↦ elim (Bool-cases (b == m)) [
        | inl q ↦ subst (λ a. in_use sb disk a ≡ true) ((==_iff b m).0 q) f
        | inr q ↦ scan_full n (b + 1) (omega arith) (ground arith) m (ground arith) g
      ]
    ]
  ]

  pub in_use-bzero : (n c : ℕ) → bblock sb c ≢ n → in_use sb (bzero n disk) c ≡ in_use sb disk c
  unfolding in_use bzero
  in_use-bzero n c h =
      ap (λ t. bit (c % bpb % 8) (get_or t (c % bpb / 8) 0)) (at_other disk n (bblock sb c) _ h)
