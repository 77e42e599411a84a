-- ===== src/Fs/Content/Refs.antt =====
-- kernel/fs.c: the block numbers that a file holds, and a position of them that is filled.
use liberal_os.Prelude.{
  ℕ, ◌-◌, ◌<◌, ◌≡◌, sym, ap, ◌∙◌, subst, ◌≢◌, inl, inr, true, false, arith, ltb, ◌==◌,
  if◌then◌else◌, ==_iff, Bool-cases, length,
}
use liberal_os.Fs.Bitmap.{Superblock, bblock, in_use}
use liberal_os.Fs.Bitmap.Alloc.{IsDisk, IsReserved}
use liberal_os.Fs.Content.{LockedInode, addr_at, entry_at}
use mathlib.Core.Bool.{true≢false}

-- The block numbers of a file: twelve data blocks, the indirect block and its entries.
unfoldable pub ref : LockedInode → ℕ → ℕ
ref s i =
    if ltb i 13
    then addr_at s i
    else if addr_at s 12 == 0
    then 0
    else entry_at s (addr_at s 12) (i - 13)

-- The blocks are marked as in use and distinct, and none of them is in the bitmap.
pub record IsFile (sb : Superblock) (s : LockedInode) : Type 0 where
  pub blocks : IsDisk s.disk
  pub reserved : IsReserved sb s.disk
  pub count : length s.ip.addrs ≡ 13
  pub used :
      (i : ℕ) → i < 269 → ref s i ≢ 0 → (ref s i < sb.size) × (in_use sb s.disk (ref s i) ≡ true)
  pub outside : (i m : ℕ) → i < 269 → ref s i ≢ 0 → m < sb.size → bblock sb m ≢ ref s i
  pub apart : (i j : ℕ) → i < 269 → j < 269 → ref s i ≢ 0 → ref s i ≡ ref s j → i ≡ j

-- A position takes a block that was free.
pub record Filled (sb : Superblock) (s : LockedInode) (i a : ℕ) (s' : LockedInode) : Type 0 where
  pub here : ref s' i ≡ a
  pub others : (j : ℕ) → j < 269 → j ≢ i → ref s' j ≡ ref s j
  pub not_zero : a ≢ 0
  pub in_range : a < sb.size
  pub was_free : in_use sb s.disk a ≡ false
  pub taken : in_use sb s'.disk a ≡ true
  pub others_in_use : (m : ℕ) → m < sb.size → m ≢ a → in_use sb s'.disk m ≡ in_use sb s.disk m
  pub data_kept : (j : ℕ) → j < 269 → j ≢ 12 → ref s j ≢ 0 → s'.disk (ref s j) ≡ s.disk (ref s j)
  pub blocks' : IsDisk s'.disk
  pub count' : length s'.ip.addrs ≡ 13

module _ (sb : Superblock) (s s' : LockedInode) (i a : ℕ) (f : IsFile sb s)
    (x : Filled sb s i a s') where
  stays : (m : ℕ) → m < sb.size → in_use sb s.disk m ≡ true → in_use sb s'.disk m ≡ true
  stays m l h =
      x.others_in_use m l (λ e. absurd (true≢false (sym h ∙ ap (in_use sb s.disk) e ∙ x.was_free)))
      ∙ h

  pub not_map : (m : ℕ) → m < sb.size → bblock sb m ≢ a
  not_map m l e =
      absurd (true≢false (sym (f.reserved.1 m l) ∙ ap (in_use sb s.disk) e ∙ x.was_free))

  -- The block was free, so it is none of the others.
  not_other : (j : ℕ) → j < 269 → j ≢ i → ref s' j ≢ 0 → ref s' j ≢ a
  not_other j l n z e =
      let o = x.others j l n in
      let u = f.used j l (λ q. z (o ∙ q)) in
      absurd (true≢false (sym u.1 ∙ ap (in_use sb s.disk) (sym o ∙ e) ∙ x.was_free))

  pub Filled-IsFile : ((b : ℕ) → b < sb.size → bblock sb b < sb.size) → 0 < sb.size → IsFile sb s'
  Filled-IsFile inside some_size = record {
    blocks = x.blocks';
    reserved = (
      stays 0 some_size f.reserved.0,
      λ b l. stays (bblock sb b) (inside b l) (f.reserved.1 b l),
    );
    count = x.count';
    used = λ j l z. elim (Bool-cases (j == i)) [
      | inl e ↦
          let q : ref s' j ≡ a = ap (ref s') ((==_iff j i).0 e) ∙ x.here in
          subst (λ r. (r < sb.size) × (in_use sb s'.disk r ≡ true)) (sym q) (x.in_range, x.taken)
      | inr e ↦
          let o = x.others j l (different j i e) in
          let u = f.used j l (λ q. z (o ∙ q)) in
          subst (λ r. (r < sb.size) × (in_use sb s'.disk r ≡ true)) (sym o)
            (u.0, stays (ref s j) u.0 u.1)
    ];
    outside = λ j m l z g q. elim (Bool-cases (j == i)) [
      | inl e ↦ not_map m g (q ∙ ap (ref s') ((==_iff j i).0 e) ∙ x.here)
      | inr e ↦ let o = x.others j l (different j i e) in f.outside j m l (λ r. z (o ∙ r)) g (q ∙ o)
    ];
    apart = λ j k l g z q. elim (Bool-cases (j == i)) [
      | inl e ↦ elim (Bool-cases (k == i)) [
        | inl h ↦ (==_iff j i).0 e ∙ sym ((==_iff k i).0 h)
        | inr h ↦ absurd (
            not_other k g (different k i h) (λ r. z (q ∙ r))
              (sym q ∙ ap (ref s') ((==_iff j i).0 e) ∙ x.here))
      ]
      | inr e ↦ elim (Bool-cases (k == i)) [
        | inl h ↦
            absurd (not_other j l (different j i e) z (q ∙ ap (ref s') ((==_iff k i).0 h) ∙ x.here))
        | inr h ↦
            let o = x.others j l (different j i e) in
            let p = x.others k g (different k i h) in
            f.apart j k l g (λ r. z (o ∙ r)) (sym o ∙ q ∙ p)
      ]
    ];
  }
    where
      different : (j k : ℕ) → (j == k) ≡ false → j ≢ k
      different j k e q = absurd (ground arith)
