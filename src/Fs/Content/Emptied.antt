-- ===== src/Fs/Content/Emptied.antt =====
-- kernel/fs.c: what itrunc() leaves.
use liberal_os.Prelude.{
  ℕ, ◌<◌, ◌≡◌, refl, sym, ap, ◌∙◌, ◌≢◌, inl, inr, true, false, some, List, arith, ltb, ◌==◌, ==_iff,
  Bool-cases, get_or-set_self, get_or-set_ne,
}
use liberal_os.Fs.Bitmap.{Superblock, bblock, in_use, bfree}
use liberal_os.Fs.Dinode.{iblock, iupdate}
use liberal_os.Fs.Content.{
  free_entries, LockedInode, with_disk, addr_at, set_addr, free_indirect, itrunc,
}
use liberal_os.Fs.Content.Refs.{ref, IsFile}
use liberal_os.Fs.Content.Fill.{ref_slot, ref_none}
use liberal_os.Fs.Content.Entry.{in_use-put_at}
use liberal_os.Fs.Content.Freed.{Freed, OneMore, bfree-Freed, Freed-all, Freed-same}
use liberal_os.Fs.Content.Trunc.{Slots, entries_gone, free_slots-Slots, free_entries-Freed}
use mathlib.Core.Bool.{true≢false}

-- A file without blocks, whose blocks of before are free; no other block has changed.
pub record Truncated (sb : Superblock) (s s' : LockedInode) : Type 0 where
  pub no_size : s'.ip.size ≡ 0
  pub no_addrs : (j : ℕ) → j < 13 → addr_at s' j ≡ 0
  pub is_free : (j : ℕ) → j < 269 → ref s j ≢ 0 → in_use sb s'.disk (ref s j) ≡ false
  pub others :
      (m : ℕ)
      → m < sb.size
      → ((j : ℕ) → j < 269 → ref s j ≢ 0 → m ≢ ref s j)
      → in_use sb s'.disk m ≡ in_use sb s.disk m

module _ (sb : Superblock) (s : LockedInode) (f : IsFile sb s) where
  at_start : Slots sb s 0 s
  at_start = record {
    freed = record {
      is_free = λ j l t n. absurd (ground arith);
      others = λ m l h. refl;
      contents = λ n h. refl;
      blocks = f.blocks;
    };
    count = f.count;
    cleared = λ j l. absurd (omega arith);
    rest = λ j l. refl;
  }

  last_position : OneMore (entries_gone 256) 12 (λ j. true)
  last_position j l = (
    λ h. elim (Bool-cases (j == 12)) [
      | inl e ↦ inr ((==_iff j 12).0 e)
      | inr e ↦ inl (ground arith)
    ],
    λ h. refl,
  )

  indirect_some :
      (t : LockedInode) (d d' : ℕ → List ℕ)
      → (addr_at t 12 == 0) ≡ false
      → free_entries sb (addr_at t 12) 256 0 (some t.disk) ≡ some d
      → bfree sb (addr_at t 12) d ≡ some d'
      → free_indirect sb (some t) ≡ some (set_addr (with_disk t d') 12 0)
  unfolding free_indirect
  indirect_some t d d' e h g = rw (e, h, g) refl

  free_indirect-Freed :
      (t : LockedInode)
      → Slots sb s 12 t
      → (t' : LockedInode) × ((free_indirect sb (some t) ≡ some t')
          × (Freed sb s (λ j. true) t'.disk × ((j : ℕ) → j < 13 → addr_at t' j ≡ 0)))
  unfolding free_indirect
  free_indirect-Freed t x =
      let q : addr_at t 12 ≡ addr_at s 12 = x.rest 12 (omega arith) in
      let r = ref_slot s 12 (omega arith) in
      elim (Bool-cases (addr_at t 12 == 0)) [
        | inl e ↦
            let z : addr_at t 12 ≡ 0 = (==_iff _ _).0 e in
            (
              t,
              (
                rw e refl,
                (
                  Freed-all sb s (λ j. ltb j 12) t.disk (λ j l g. no_more (sym q ∙ z) j g) x.freed,
                  λ j l. elim (Bool-cases (j == 12)) [
                    | inl k ↦ ap (addr_at t) ((==_iff j 12).0 k) ∙ z
                    | inr k ↦ x.cleared j (ground arith)
                  ],
                ),
              ),
            )
        | inr e ↦
            let y : addr_at s 12 ≢ 0 =
              λ z. absurd (true≢false (sym ((==_iff _ _).1 (q ∙ z)) ∙ e)) in
            let (d, (h, w)) = free_entries-Freed sb s f y 256 0 t.disk refl (
              Freed-same sb s (λ j. ltb j 12) (entries_gone 0) t.disk (λ j. ground arith)
                x.freed) in
            let (d', (g, v)) =
              bfree-Freed sb s f (entries_gone 256) (λ j. true) 12 (omega arith) refl last_position
                d (λ z. y (sym r ∙ z)) w in
            (
              set_addr (with_disk t d') 12 0,
              (
                indirect_some t d d' e (ap (λ b. free_entries sb b 256 0 (some t.disk)) q ∙ h)
                    (ap (λ b. bfree sb b d) (q ∙ sym r) ∙ g),
                (
                  v,
                  λ j l. elim (Bool-cases (j == 12)) [
                    | inl k ↦
                        ap (addr_at (set_addr (with_disk t d') 12 0)) ((==_iff j 12).0 k)
                        ∙ get_or-set_self t.ip.addrs 12 0 0 (omega (arith, x.count))
                    | inr k ↦
                        get_or-set_ne t.ip.addrs 12 j 0 0 (λ z. absurd (ground arith))
                        ∙ x.cleared j (ground arith)
                  ],
                ),
              ),
            )
      ]
    where
      no_more : addr_at s 12 ≡ 0 → (j : ℕ) → ltb j 12 ≡ false → ref s j ≡ 0
      no_more z j g = elim (Bool-cases (j == 12)) [
        | inl k ↦ ap (ref s) ((==_iff j 12).0 k) ∙ ref_slot s 12 (omega arith) ∙ z
        | inr k ↦ ref_none s j (ground arith) z
      ]

  -- itrunc() of a file with distinct blocks, all marked as in use, whose inode is not in a block of
  -- the bitmap, does not panic: the file has no blocks and the size 0 after, its data blocks, its
  -- indirect block and the blocks that this lists are free, and every other block is in use when it
  -- was before.
  pub itrunc-Truncated :
      (inodestart inum : ℕ)
      → ((m : ℕ) → m < sb.size → bblock sb m ≢ iblock inodestart inum)
      → (s' : LockedInode) × ((itrunc sb inodestart inum s ≡ some s') × Truncated sb s s')
  unfolding itrunc iupdate
  itrunc-Truncated inodestart inum apart =
      let (t, (h, x)) = free_slots-Slots sb s f 12 0 s refl at_start in
      let (t', (g, (v, z))) = free_indirect-Freed t x in
      let ip = record t'.ip { size = 0 } in
      (
        record { ip = ip; disk = iupdate inodestart inum ip t'.disk },
        (
          rw (h, g) refl,
          record {
            no_size = refl;
            no_addrs = z;
            is_free = λ j l n.
                in_use-put_at sb t'.disk (iblock inodestart inum) (ref s j) _
                  (apart (ref s j) (f.used j l n).0)
                ∙ v.is_free j l refl n;
            others = λ m l k.
                in_use-put_at sb t'.disk (iblock inodestart inum) m _ (apart m l)
                ∙ v.others m l (λ j i q. k j i);
          },
        ),
      )
