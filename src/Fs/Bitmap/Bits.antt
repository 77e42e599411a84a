-- ===== src/Fs/Bitmap/Bits.antt =====
-- The bits of a byte in kernel/fs.c.
use liberal_os.Fs.Bitmap.{and_not, or_bit, bit}
use liberal_os.Prelude.{
  ℕ, zero, suc, ◌+◌, ◌*◌, ◌/◌, ◌%◌, ◌<◌, ◌≡◌, refl, ap, ◌∙◌, ◌≢◌, true, false, arith, ◌==◌,
}

half : (r m : ℕ) → r < 2 → (r + 2 * m) / 2 ≡ m
half r m h = omega arith

odd : (r m : ℕ) → r < 2 → (r + 2 * m) % 2 ≡ r
odd r m h = omega arith

pub bit-or_bit : (k n : ℕ) → bit k (or_bit k n) ≡ true
unfolding bit or_bit
bit-or_bit zero n = ground arith
bit-or_bit (suc k) n =
    ap (bit k) (half (n % 2) (or_bit k (n / 2)) (omega arith)) ∙ bit-or_bit k (n / 2)

pub bit-or_bit_ne : (j k n : ℕ) → j ≢ k → bit j (or_bit k n) ≡ bit j n
unfolding bit or_bit
bit-or_bit_ne zero zero n h = absurd (h refl)
bit-or_bit_ne zero (suc k) n h = ap (λ r. r == 1) (odd (n % 2) (or_bit k (n / 2)) (omega arith))
bit-or_bit_ne (suc j) zero n h = ap (bit j) (omega arith)
bit-or_bit_ne (suc j) (suc k) n h =
    ap (bit j) (half (n % 2) (or_bit k (n / 2)) (omega arith))
    ∙ bit-or_bit_ne j k (n / 2) (λ e. h (ap suc e))

pub bit-and_not : (k n : ℕ) → bit k (and_not k n) ≡ false
unfolding bit and_not
bit-and_not zero n = ground arith
bit-and_not (suc k) n =
    ap (bit k) (half (n % 2) (and_not k (n / 2)) (omega arith)) ∙ bit-and_not k (n / 2)

pub bit-and_not_ne : (j k n : ℕ) → j ≢ k → bit j (and_not k n) ≡ bit j n
unfolding bit and_not
bit-and_not_ne zero zero n h = absurd (h refl)
bit-and_not_ne zero (suc k) n h = ap (λ r. r == 1) (odd (n % 2) (and_not k (n / 2)) (omega arith))
bit-and_not_ne (suc j) zero n h = ap (bit j) (omega arith)
bit-and_not_ne (suc j) (suc k) n h =
    ap (bit j) (half (n % 2) (and_not k (n / 2)) (omega arith))
    ∙ bit-and_not_ne j k (n / 2) (λ e. h (ap suc e))
