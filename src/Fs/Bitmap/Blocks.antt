-- ===== src/Fs/Bitmap/Blocks.antt =====
-- balloc() and bfree() of kernel/fs.c: which block is given out, and the set of the blocks in use.
use liberal_os.Prelude.{
  ℕ, ◌<◌, ◌≡◌, refl, sym, ap, ◌∙◌, subst, ◌≢◌, ◌⊎◌, inl, inr, true, false, some, List, arith, ◌==◌,
  ==_iff, Bool-cases, Option-cases, replicate, length-replicate,
}
use liberal_os.Fs.Bitmap.Alloc.{
  change_bit-IsDisk, at_self, or_bit-SetsBit, in_use-bzero, change_bit_others, and_not-SetsBit,
  in_use-change_bit, scan_free, scan_full, IsReserved, IsDisk,
}
use liberal_os.Fs.Bitmap.{
  or_bit, and_not, change_bit, scan, allot, balloc, bblock, bfree, bzero, bsize, in_use, Superblock,
}
use mathlib.Core.Bool.{true≢false}

pub record Allotted (sb : Superblock) (disk : ℕ → List ℕ) (r : ℕ × (ℕ → List ℕ)) : Type 0 where
  pub in_range : r.0 < sb.size
  pub not_boot : r.0 ≢ 0
  pub was_free : in_use sb disk r.0 ≡ false
  pub first : (m : ℕ) → m < r.0 → in_use sb disk m ≡ true
  pub taken : in_use sb r.1 r.0 ≡ true
  pub others : (m : ℕ) → m < sb.size → m ≢ r.0 → in_use sb r.1 m ≡ in_use sb disk m
  pub zeroed : r.1 r.0 ≡ replicate bsize 0
  pub blocks : IsDisk r.1

abbrev pub IsFull : Superblock → (ℕ → List ℕ) → Type 0
IsFull sb disk = (m : ℕ) → m < sb.size → in_use sb disk m ≡ true

module _ (sb : Superblock) (disk : ℕ → List ℕ) (d : IsDisk disk) (v : IsReserved sb disk) where
  -- A free block is none of the map.
  not_map : (b m : ℕ) → in_use sb disk b ≡ false → m < sb.size → bblock sb m ≢ b
  not_map b m f h e = absurd (true≢false (sym (v.1 m h) ∙ ap (in_use sb disk) e ∙ f))

  bzero-IsDisk : (b : ℕ) (t : ℕ → List ℕ) → IsDisk t → IsDisk (bzero b t)
  unfolding bzero
  bzero-IsDisk b t h n = elim (Bool-cases (n == b)) [
    | inl e ↦ rw e (length-replicate {A = ℕ} bsize 0)
    | inr e ↦ rw e (h n)
  ]

  allot-Allotted :
      (b : ℕ) → scan sb disk sb.size 0 ≡ some b → Allotted sb disk (allot sb disk (some b))
  unfolding allot
  allot-Allotted b h =
      let s = scan_free sb disk sb.size 0 b h in
      let c = change_bit sb or_bit b disk in
      record {
        in_range = s.0.1;
        not_boot = λ e. absurd (true≢false (sym v.0 ∙ ap (in_use sb disk) (sym e) ∙ s.1.0));
        was_free = s.1.0;
        first = λ m g. s.1.1 m (omega arith) g;
        taken =
            in_use-bzero sb c b b (not_map b b s.1.0 s.0.1)
            ∙ in_use-change_bit sb or_bit true or_bit-SetsBit b disk d;
        others = λ m g n.
            in_use-bzero sb c b m (not_map b m s.1.0 g)
            ∙ change_bit_others sb or_bit true or_bit-SetsBit b m disk d n;
        zeroed = unfold bzero in at_self c b (replicate bsize 0);
        blocks = bzero-IsDisk b c (change_bit-IsDisk sb or_bit true or_bit-SetsBit b disk d);
      }

  -- On a disk of blocks of BSIZE bytes where block 0 and the bitmap itself are marked as in use,
  -- balloc() gives the first block that is free, marks it and no other, and fills it with zeros;
  -- it answers 0 only when all are in use.
  pub balloc-Allotted :
      Allotted sb disk (balloc sb disk) ⊎ ((balloc sb disk ≡ (0, disk)) × IsFull sb disk)
  unfolding balloc
  balloc-Allotted = elim (Option-cases (scan sb disk sb.size 0)) [
    | inl e ↦ inr (
      rw e (unfold allot in refl),
      λ m h. scan_full sb disk sb.size 0 (omega arith) e m (omega arith) h,
    )
    | inr (b, e) ↦
        inl (subst (λ o. Allotted sb disk (allot sb disk o)) (sym e) (allot-Allotted b e))
  ]

  -- On a disk of blocks of BSIZE bytes where block 0 and the bitmap itself are marked as in use, a
  -- block that balloc() gave can be freed, and then the blocks in use are those before.
  pub bfree-balloc :
      (balloc sb disk).0 ≢ 0
      → (disk' : ℕ → List ℕ) × ((bfree sb (balloc sb disk).0 (balloc sb disk).1 ≡ some disk')
          × ((m : ℕ) → m < sb.size → in_use sb disk' m ≡ in_use sb disk m))
  unfolding bfree
  bfree-balloc n = elim balloc-Allotted [
    | inr q ↦ absurd (n (ap (λ r. r.0) q.0))
    | inl a ↦ (
      change_bit sb and_not (balloc sb disk).0 (balloc sb disk).1,
      (rw a.taken refl, λ m h. back a m h),
    )
  ]
    where
      back :
          Allotted sb disk (balloc sb disk)
          → (m : ℕ) → m < sb.size
          → in_use sb (change_bit sb and_not (balloc sb disk).0 (balloc sb disk).1) m
            ≡ in_use sb disk m
      back a m h = elim (Bool-cases (m == (balloc sb disk).0)) [
        | inl e ↦
            let q : m ≡ (balloc sb disk).0 = (==_iff _ _).0 e in
            rw q (
              in_use-change_bit sb and_not false and_not-SetsBit _ (balloc sb disk).1 a.blocks
              ∙ sym a.was_free)
        | inr e ↦
            let q : m ≢ (balloc sb disk).0 = λ r. absurd (ground arith) in
            change_bit_others sb and_not false and_not-SetsBit _ m (balloc sb disk).1 a.blocks q
            ∙ a.others m h q
      ]
