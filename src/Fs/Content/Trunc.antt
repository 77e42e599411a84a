-- ===== src/Fs/Content/Trunc.antt =====
-- kernel/fs.c: itrunc() frees the blocks of a file and no others.
use liberal_os.Prelude.{
  ℕ, zero, suc, ◌+◌, ◌*◌, ◌≤◌, ◌<◌, ◌≡◌, refl, sym, ap, ◌∙◌, subst, ◌≢◌, inl, inr, Bool, false,
  ◌&&◌, ◌||◌, some, List, arith, ltb, leb, ◌==◌, ==_iff, Bool-cases, length, length-set,
  get_or-set_self, get_or-set_ne,
}
use liberal_os.Fs.Bitmap.{Superblock}
use liberal_os.Fs.Bytes.{word_at}
use liberal_os.Fs.Content.{
  LockedInode, with_disk, addr_at, set_addr, free_slot, free_slots, free_entries,
}
use liberal_os.Fs.Content.Refs.{ref, IsFile}
use liberal_os.Fs.Content.Fill.{ref_slot, ref_entry}
use liberal_os.Fs.Content.Freed.{Freed, OneMore, no_block-Freed, bfree-Freed}
use mathlib.Core.Bool.{true≢false}

-- After the first i slots.
pub record Slots (sb : Superblock) (s : LockedInode) (i : ℕ) (t : LockedInode) : Type 0 where
  pub freed : Freed sb s (λ j. ltb j i) t.disk
  pub count : length t.ip.addrs ≡ 13
  pub cleared : (j : ℕ) → j < i → addr_at t j ≡ 0
  pub rest : (j : ℕ) → i ≤ j → addr_at t j ≡ addr_at s j

-- After the slots and k entries.
abbrev pub entries_gone : ℕ → ℕ → Bool
entries_gone k j = ltb j 12 || (leb 13 j && ltb j (13 + k))

module _ (sb : Superblock) (s : LockedInode) (f : IsFile sb s) where
  next_slot : (i : ℕ) → OneMore (λ j. ltb j i) i (λ j. ltb j (i + 1))
  next_slot i j l = (
    λ h. elim (Bool-cases (j == i)) [ inl e ↦ inr ((==_iff j i).0 e) | inr e ↦ inl (ground arith) ],
    λ h. elim h [ inl e ↦ ground arith | inr e ↦ ground arith ],
  )

  free_slot-Slots :
      (i : ℕ) (t : LockedInode)
      → i < 12
      → Slots sb s i t
      → (t' : LockedInode) × ((free_slot sb i t ≡ some t') × Slots sb s (i + 1) t')
  unfolding free_slot
  free_slot-Slots i t l x =
      let new : ltb i i ≡ false = ground arith in
      let q : addr_at t i ≡ ref s i = x.rest i (omega arith) ∙ sym (ref_slot s i (omega arith)) in
      elim (Bool-cases (addr_at t i == 0)) [
        | inl e ↦
            let z : addr_at t i ≡ 0 = (==_iff _ _).0 e in
            (
              t,
              (
                rw e refl,
                record {
                  freed =
                      no_block-Freed sb s f _ _ i (omega arith) new (next_slot i) t.disk (sym q ∙ z)
                        x.freed;
                  count = x.count;
                  cleared = λ j h. elim (Bool-cases (j == i)) [
                    | inl g ↦ ap (addr_at t) ((==_iff j i).0 g) ∙ z
                    | inr g ↦ x.cleared j (ground arith)
                  ];
                  rest = λ j h. x.rest j (omega arith);
                },
              ),
            )
        | inr e ↦
            let n : ref s i ≢ 0 = λ z. absurd (true≢false (sym ((==_iff _ _).1 (q ∙ z)) ∙ e)) in
            let (d, (h, y)) =
              bfree-Freed sb s f _ _ i (omega arith) new (next_slot i) t.disk n x.freed in
            (
              set_addr (with_disk t d) i 0,
              (
                rw (e, q, h) refl,
                record {
                  freed = y;
                  count = length-set t.ip.addrs i 0 ∙ x.count;
                  cleared = λ j g. elim (Bool-cases (j == i)) [
                    | inl k ↦
                        ap (addr_at (set_addr (with_disk t d) i 0)) ((==_iff j i).0 k)
                        ∙ get_or-set_self t.ip.addrs i 0 0 (omega (arith, x.count, l))
                    | inr k ↦
                        get_or-set_ne t.ip.addrs i j 0 0 (λ r. absurd (ground arith))
                        ∙ x.cleared j (ground arith)
                  ];
                  rest = λ j g.
                      get_or-set_ne t.ip.addrs i j 0 0 (λ r. omega (arith, r, g))
                      ∙ x.rest j (omega arith);
                },
              ),
            )
      ]

  pub free_slots-Slots :
      (n i : ℕ) (t : LockedInode)
      → i + n ≡ 12
      → Slots sb s i t
      → (t' : LockedInode) × ((free_slots sb n i (some t) ≡ some t') × Slots sb s 12 t')
  unfolding free_slots
  free_slots-Slots zero i t e x =
      let q : i ≡ 12 = omega arith in (t, (refl, subst (λ k. Slots sb s k t) q x))
  free_slots-Slots (suc n) i t e x =
      let (t1, (h, y)) = free_slot-Slots i t (omega arith) x in
      let (t2, (g, z)) = free_slots-Slots n (i + 1) t1 (omega arith) y in (t2, (rw h g, z))

  module _ (y : addr_at s 12 ≢ 0) where
    abbrev blk : ℕ
    blk = addr_at s 12

    next_entry : (k : ℕ) → k < 256 → OneMore (entries_gone k) (13 + k) (entries_gone (k + 1))
    next_entry k l j g = (
      λ h. elim (Bool-cases (j == 13 + k)) [
        | inl e ↦ inr ((==_iff j (13 + k)).0 e)
        | inr e ↦ inl (ground arith)
      ],
      λ h. elim h [ inl e ↦ ground arith | inr e ↦ ground arith ],
    )

    entry_read :
        (k : ℕ) (disk : ℕ → List ℕ) (gone : ℕ → Bool)
        → Freed sb s gone disk
        → word_at 4 (disk blk) (4 * k) ≡ ref s (13 + k)
    entry_read k disk gone x =
        let q = ref_slot s 12 (omega arith) in
        let same : disk blk ≡ s.disk blk =
          x.contents blk
            (λ m l e. f.outside 12 m (omega arith) (λ r. y (sym q ∙ r)) l (e ∙ sym q)) in
        ap (λ b. word_at 4 b (4 * k)) same
        ∙ ap (λ o. word_at 4 (s.disk blk) (4 * o)) (omega arith)
        ∙ sym (ref_entry s (13 + k) (omega arith) y)

    pub free_entries-Freed :
        (n k : ℕ) (disk : ℕ → List ℕ)
        → k + n ≡ 256
        → Freed sb s (entries_gone k) disk
        → (disk' : ℕ → List ℕ) × ((free_entries sb blk n k (some disk) ≡ some disk')
            × Freed sb s (entries_gone 256) disk')
    unfolding free_entries
    free_entries-Freed zero k disk e x =
        let q : k ≡ 256 = omega arith in
        (disk, (refl, subst (λ i. Freed sb s (entries_gone i) disk) q x))
    free_entries-Freed (suc n) k disk e x =
        let l : k < 256 = omega arith in
        let new : entries_gone k (13 + k) ≡ false = ground arith in
        let q = entry_read k disk (entries_gone k) x in
        elim (Bool-cases (ref s (13 + k) == 0)) [
          | inl z ↦
              let (d, (h, w)) = free_entries-Freed n (k + 1) disk (omega arith) (
                no_block-Freed sb s f _ _ (13 + k) (omega arith) new (next_entry k l) disk
                  ((==_iff _ _).0 z) x) in
              (d, (rw (q, z) h, w))
          | inr z ↦
              let m : ref s (13 + k) ≢ 0 = λ r. absurd (true≢false (sym ((==_iff _ _).1 r) ∙ z)) in
              let (d1, (g, x1)) =
                bfree-Freed sb s f _ _ (13 + k) (omega arith) new (next_entry k l) disk m x in
              let (d, (h, w)) = free_entries-Freed n (k + 1) d1 (omega arith) x1 in
              (d, (rw (q, z, g) h, w))
        ]
