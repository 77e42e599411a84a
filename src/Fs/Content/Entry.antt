-- ===== src/Fs/Content/Entry.antt =====
-- kernel/fs.c: how bmap() fills an entry of the indirect block of a file.
use liberal_os.Prelude.{
  ℕ, ◌+◌, ◌-◌, ◌*◌, ◌^◌, ◌≤◌, ◌<◌, ◌≡◌, refl, sym, ap, ◌∙◌, subst, ◌≢◌, ◌⊎◌, inl, inr, List, arith,
  ltb, ◌==◌, ==_iff, ==-refl, ==-false, Bool-cases,
}
use liberal_os.Fs.Bitmap.{Superblock, bblock, in_use, balloc, put_at}
use liberal_os.Fs.Bitmap.Blocks.{Allotted, balloc-Allotted}
use liberal_os.Fs.Bytes.{word_at, put_le, word_at-put_le, word_at-put_word_other, length-put_le}
use liberal_os.Fs.Content.{LockedInode, with_disk, addr_at, entry_at, fill_entry, entry}
use liberal_os.Fs.Content.Refs.{ref, IsFile, Filled}
use liberal_os.Fs.Content.Fill.{
  ref_slot, ref_entry, balloc_leaves, Slotted, Slotted.was_there, Slotted.filled, Slotted.disk_full,
}
use mathlib.Core.Bool.{true≢false}

pub in_use-put_at :
    (sb : Superblock) (disk : ℕ → List ℕ) (n m : ℕ) (b : List ℕ)
    → bblock sb m ≢ n
    → in_use sb (put_at disk n b) m ≡ in_use sb disk m
unfolding in_use
in_use-put_at sb disk n m b h = rw (==-false (bblock sb m) n h) refl

at_other : (disk : ℕ → List ℕ) (n m : ℕ) (b : List ℕ) → m ≢ n → put_at disk n b m ≡ disk m
at_other disk n m b h = rw (==-false m n h) refl

at_self : (disk : ℕ → List ℕ) (n : ℕ) (b : List ℕ) → put_at disk n b n ≡ b
at_self disk n b = rw (==-refl n) refl

module _ (sb : Superblock) (s : LockedInode) (f : IsFile sb s) (small : sb.size < 2 ^ 32) (k : ℕ)
    (h : k < 256) (y : addr_at s 12 ≢ 0) where
  abbrev blk : ℕ
  blk = addr_at s 12

  map_not_blk : (m : ℕ) → m < sb.size → bblock sb m ≢ blk
  map_not_blk m l e =
      let q = ref_slot s 12 (omega arith) in
      f.outside 12 m (omega arith) (λ r. y (sym q ∙ r)) l (e ∙ sym q)

  entry-Filled :
      (a : ℕ) (disk : ℕ → List ℕ)
      → Allotted sb s.disk (a, disk)
      → ((j : ℕ) → j < 269 → ref s j ≢ 0 → disk (ref s j) ≡ s.disk (ref s j))
      → Filled sb s (13 + k) a (with_disk s (put_at disk blk (put_le 4 a (disk blk) (4 * k))))
  entry-Filled a disk x leaves = record {
    here =
        ref_entry s' (13 + k) (omega arith) y
        ∙ ap (λ b. word_at 4 b (4 * (13 + k - 13))) (at_self disk blk new)
        ∙ ap (λ o. word_at 4 new o) (omega arith)
        ∙ word_at-put_le 4 a (disk blk) (4 * k) (omega (arith, x.blocks blk, h))
            (omega (arith, x.in_range, small));
    others = λ j l n. elim (Bool-cases (ltb j 13)) [
      | inl e ↦ let g : j < 13 = ground arith in ref_slot s' j g ∙ sym (ref_slot s j g)
      | inr e ↦
          let g : 13 ≤ j = ground arith in
          ref_entry s' j g y
          ∙ ap (λ b. word_at 4 b (4 * (j - 13))) (at_self disk blk new)
          ∙ word_at-put_word_other 4 4 a (disk blk) (4 * k) (4 * (j - 13)) (away j g n)
          ∙ ap (λ b. word_at 4 b (4 * (j - 13))) kept
          ∙ sym (ref_entry s j g y)
    ];
    not_zero = x.not_boot;
    in_range = x.in_range;
    was_free = x.was_free;
    taken = in_use-put_at sb disk blk a new (map_not_blk a x.in_range) ∙ x.taken;
    others_in_use = λ m l n. in_use-put_at sb disk blk m new (map_not_blk m l) ∙ x.others m l n;
    data_kept = λ j l n z.
        at_other disk blk (ref s j) new (λ e. n (f.apart j 12 l (omega arith) z (e ∙ sym at_12)))
        ∙ leaves j l z;
    blocks' = λ n. elim (Bool-cases (n == blk)) [
      | inl e ↦ rw e (length-put_le 4 a (disk blk) (4 * k) ∙ x.blocks blk)
      | inr e ↦ rw e (x.blocks n)
    ];
    count' = f.count;
  }
    where
      new : List ℕ
      new = put_le 4 a (disk blk) (4 * k)

      s' : LockedInode
      s' = with_disk s (put_at disk blk new)

      at_12 : ref s 12 ≡ blk
      at_12 = ref_slot s 12 (omega arith)

      kept : disk blk ≡ s.disk blk
      kept = subst (λ b. disk b ≡ s.disk b) at_12 (leaves 12 (omega arith) (λ r. y (sym at_12 ∙ r)))

      away : (j : ℕ) → 13 ≤ j → j ≢ 13 + k → (4 * (j - 13) + 4 ≤ 4 * k) ⊎ (4 * k + 4 ≤ 4 * (j - 13))
      away j g n = elim (Bool-cases (ltb j (13 + k))) [
        | inl e ↦ let l : j < 13 + k = ground arith in inl (omega arith)
        | inr e ↦ elim (Bool-cases (ltb (13 + k) j)) [
          | inl g' ↦ let l : 13 + k < j = ground arith in inr (omega arith)
          | inr g' ↦ absurd (n (ground arith))
        ]
      ]

  pub entry-Slotted : Slotted sb s (13 + k) (entry sb k blk s)
  unfolding entry fill_entry
  entry-Slotted = elim (Bool-cases (entry_at s blk k == 0)) [
    | inr e ↦ rw e (
        was_there (entry_at s blk k)
          (λ z. absurd (true≢false (sym ((==_iff _ _).1 (sym at ∙ z)) ∙ e))) (sym at))
    | inl e ↦
        let z : ref s (13 + k) ≡ 0 = at ∙ (==_iff _ _).0 e in
        rw e (elim (balloc-Allotted sb s.disk f.blocks f.reserved) [
          | inl x ↦ fill (balloc sb s.disk) x (balloc_leaves sb s f small x) z
          | inr x ↦ rw x.0 (disk_full z x.1)
        ])
  ]
    where
      at : ref s (13 + k) ≡ entry_at s blk k
      at = ref_entry s (13 + k) (omega arith) y ∙ ap (entry_at s blk) (omega arith)

      fill :
          (r : ℕ × (ℕ → List ℕ))
          → Allotted sb s.disk r
          → ((j : ℕ) → j < 269 → ref s j ≢ 0 → r.1 (ref s j) ≡ s.disk (ref s j))
          → ref s (13 + k) ≡ 0
          → Slotted sb s (13 + k) (fill_entry blk k s r)
      fill (a, disk) x q z = rw (==-false a 0 x.not_boot) (filled a _ z (entry-Filled a disk x q))
