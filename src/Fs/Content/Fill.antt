-- ===== src/Fs/Content/Fill.antt =====
-- kernel/fs.c: how bmap() fills a position of a file with a block of balloc().
use liberal_os.Prelude.{
  ℕ, zero, suc, ◌+◌, ◌-◌, ◌*◌, ◌^◌, ◌≤◌, ◌<◌, ◌≡◌, refl, sym, ap, ◌∙◌, subst, ◌≢◌, inl, inr, true,
  false, Option, none, some, List, arith, ltb, ◌==◌, ==_iff, ==-false, Bool-cases, get_or, set,
  replicate, length-set, get_or-set_self, get_or-set_ne,
}
use liberal_os.Fs.Bitmap.{Superblock, bblock, in_use, balloc, allot, bzero, change_bit, scan, bsize}
use liberal_os.Fs.Bitmap.Blocks.{Allotted, IsFull, balloc-Allotted}
use liberal_os.Fs.Bytes.{word_at}
use liberal_os.Fs.Content.{
  LockedInode, with_disk, addr_at, set_addr, entry_at, fill_slot, addr_slot,
}
use liberal_os.Fs.Content.Refs.{ref, IsFile, Filled}
use mathlib.Core.Bool.{true≢false}

-- A block that is not in the bitmap and not the one given out keeps its bytes.
balloc_others :
    (sb : Superblock) (disk : ℕ → List ℕ) (n : ℕ)
    → (balloc sb disk).0 < sb.size
    → n ≢ (balloc sb disk).0
    → ((m : ℕ) → m < sb.size → bblock sb m ≢ n)
    → (balloc sb disk).1 n ≡ disk n
unfolding balloc allot bzero change_bit
balloc_others sb disk n = from_scan (scan sb disk sb.size 0)
  where
    from_scan :
        (o : Option ℕ)
        → (allot sb disk o).0 < sb.size
        → n ≢ (allot sb disk o).0
        → ((m : ℕ) → m < sb.size → bblock sb m ≢ n)
        → (allot sb disk o).1 n ≡ disk n
    from_scan none l d h = refl
    from_scan (some b) l d h =
        let e : (n == b) ≡ false = ==-false n b d in
        let g : (n == bblock sb b) ≡ false = ==-false n (bblock sb b) (λ q. h b l (sym q)) in
        rw (e, g) refl

pub get_or-replicate : (n i : ℕ) → ◌≡◌ {A = ℕ} (get_or (replicate n 0) i 0) 0
get_or-replicate zero i = refl
get_or-replicate (suc n) zero = refl
get_or-replicate (suc n) (suc i) = get_or-replicate n i

word_at-replicate : (n m o : ℕ) → word_at n (replicate m 0) o ≡ 0
unfolding word_at
word_at-replicate zero m o = refl
word_at-replicate (suc n) m o = rw (get_or-replicate m o, word_at-replicate n m (o + 1)) refl

pub ref_slot : (s : LockedInode) (i : ℕ) → i < 13 → ref s i ≡ addr_at s i
unfolding ref
ref_slot s i h = let e : ltb i 13 ≡ true = ground arith in rw e refl

pub ref_none : (s : LockedInode) (i : ℕ) → 13 ≤ i → addr_at s 12 ≡ 0 → ref s i ≡ 0
unfolding ref
ref_none s i h z = let e : ltb i 13 ≡ false = ground arith in rw (e, z) refl

pub ref_entry :
    (s : LockedInode) (i : ℕ)
    → 13 ≤ i
    → addr_at s 12 ≢ 0
    → ref s i ≡ entry_at s (addr_at s 12) (i - 13)
unfolding ref
ref_entry s i h z =
    let e : ltb i 13 ≡ false = ground arith in
    let g : (addr_at s 12 == 0) ≡ false = ==-false (addr_at s 12) 0 z in rw (e, g) refl

-- What asking for the block of a position comes to.
pub data Slotted (sb : Superblock) (s : LockedInode) (i : ℕ) : ℕ × LockedInode → Type 0 where
  was_there : (a : ℕ) → ref s i ≢ 0 → a ≡ ref s i → Slotted sb s i (a, s)
  filled : (a : ℕ) (s' : LockedInode) → ref s i ≡ 0 → Filled sb s i a s' → Slotted sb s i (a, s')
  disk_full : ref s i ≡ 0 → IsFull sb s.disk → Slotted sb s i (0, s)

module _ (sb : Superblock) (s : LockedInode) (f : IsFile sb s) (small : sb.size < 2 ^ 32) where
  -- The blocks of the file are not the one given out, and balloc() leaves them.
  pub balloc_leaves :
      Allotted sb s.disk (balloc sb s.disk)
      → (j : ℕ) → j < 269
      → ref s j ≢ 0
      → (balloc sb s.disk).1 (ref s j) ≡ s.disk (ref s j)
  balloc_leaves x j l n =
      let u = f.used j l n in
      balloc_others sb s.disk (ref s j) x.in_range
        (λ e. absurd (true≢false (sym u.1 ∙ ap (in_use sb s.disk) e ∙ x.was_free)))
        (λ m g e. f.outside j m l n g e)

  addr_slot-Filled :
      (i a : ℕ) (disk : ℕ → List ℕ)
      → i < 13
      → ref s i ≡ 0
      → Allotted sb s.disk (a, disk)
      → ((j : ℕ) → j < 269 → ref s j ≢ 0 → disk (ref s j) ≡ s.disk (ref s j))
      → Filled sb s i a (set_addr (with_disk s disk) i a)
  addr_slot-Filled i a disk h z x k = record {
    here = ref_slot s' i h ∙ get_or-set_self s.ip.addrs i a 0 (omega (arith, h, f.count));
    others = λ j l n. elim (Bool-cases (ltb j 13)) [
      | inl e ↦
          let g : j < 13 = ground arith in
          ref_slot s' j g ∙ get_or-set_ne s.ip.addrs i j a 0 (λ q. n (sym q)) ∙ sym (ref_slot s j g)
      | inr e ↦ entries j (ground arith)
    ];
    not_zero = x.not_boot;
    in_range = x.in_range;
    was_free = x.was_free;
    taken = x.taken;
    others_in_use = x.others;
    data_kept = λ j l n z. k j l z;
    blocks' = x.blocks;
    count' = length-set s.ip.addrs i a ∙ f.count;
  }
    where
      s' : LockedInode
      s' = set_addr (with_disk s disk) i a

      indirect : addr_at s 12 ≢ 0 → disk (addr_at s 12) ≡ s.disk (addr_at s 12)
      indirect u =
          let q = ref_slot s 12 (omega arith) in
          subst (λ b. disk b ≡ s.disk b) q (k 12 (omega arith) (λ r. u (sym q ∙ r)))

      entries : (j : ℕ) → 13 ≤ j → ref s' j ≡ ref s j
      entries j g = elim (Bool-cases (i == 12)) [
        | inl e ↦
            let q : i ≡ 12 = (==_iff i 12).0 e in
            let w : addr_at s' 12 ≡ a =
              subst (λ t. get_or (set s.ip.addrs i a) t 0 ≡ a) q
                (get_or-set_self s.ip.addrs i a 0 (omega (arith, h, f.count))) in
            let u : addr_at s 12 ≡ 0 = ap (addr_at s) (sym q) ∙ sym (ref_slot s i h) ∙ z in
            ref_entry s' j g (λ r. x.not_boot (sym w ∙ r))
            ∙ ap (λ t. word_at 4 (disk t) (4 * (j - 13))) w
            ∙ ap (λ b. word_at 4 b (4 * (j - 13))) x.zeroed
            ∙ word_at-replicate 4 bsize (4 * (j - 13))
            ∙ sym (ref_none s j g u)
        | inr e ↦
            let w : addr_at s' 12 ≡ addr_at s 12 =
              get_or-set_ne s.ip.addrs i 12 a 0 (λ q. absurd (ground arith)) in
            elim (Bool-cases (addr_at s 12 == 0)) [
              | inl y ↦
                  let u : addr_at s 12 ≡ 0 = (==_iff _ _).0 y in
                  ref_none s' j g (w ∙ u) ∙ sym (ref_none s j g u)
              | inr y ↦
                  let u : addr_at s 12 ≢ 0 =
                    λ q. absurd (true≢false (sym ((==_iff _ _).1 q) ∙ y)) in
                  ref_entry s' j g (λ r. u (sym w ∙ r))
                  ∙ ap (λ t. word_at 4 (disk t) (4 * (j - 13))) w
                  ∙ ap (λ b. word_at 4 b (4 * (j - 13))) (indirect u)
                  ∙ sym (ref_entry s j g u)
            ]
      ]

  pub addr_slot-Slotted : (i : ℕ) → i < 13 → Slotted sb s i (addr_slot sb i s)
  unfolding addr_slot fill_slot
  addr_slot-Slotted i h = elim (Bool-cases (addr_at s i == 0)) [
    | inr e ↦
        let q = ref_slot s i h in
        rw e (
          was_there (addr_at s i) (λ z. absurd (true≢false (sym ((==_iff _ _).1 (sym q ∙ z)) ∙ e)))
            (sym q))
    | inl e ↦
        let z : ref s i ≡ 0 = ref_slot s i h ∙ (==_iff _ _).0 e in
        rw e (elim (balloc-Allotted sb s.disk f.blocks f.reserved) [
          | inl x ↦ fill (balloc sb s.disk) x (balloc_leaves x) z
          | inr x ↦ rw x.0 (full z x.1)
        ])
  ]
    where
      fill :
          (r : ℕ × (ℕ → List ℕ))
          → Allotted sb s.disk r
          → ((j : ℕ) → j < 269 → ref s j ≢ 0 → r.1 (ref s j) ≡ s.disk (ref s j))
          → ref s i ≡ 0
          → Slotted sb s i (fill_slot i s r)
      fill (a, disk) x k z =
          rw (==-false a 0 x.not_boot) (filled a _ z (addr_slot-Filled i a disk h z x k))

      full : ref s i ≡ 0 → IsFull sb s.disk → Slotted sb s i (fill_slot i s (0, s.disk))
      full z g = disk_full z g
