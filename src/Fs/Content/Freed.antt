-- ===== src/Fs/Content/Freed.antt =====
-- kernel/fs.c: bfree() of one of the blocks of a file after others.
use liberal_os.Prelude.{
  ℕ, ◌<◌, ◌≡◌, refl, sym, ap, ◌∙◌, ◌≢◌, ◌⊎◌, inl, inr, Bool, true, false, some, List, ◌==◌, ==_iff,
  ==-false, Bool-cases,
}
use liberal_os.Fs.Bitmap.{Superblock, bblock, in_use, bfree, change_bit, and_not}
use liberal_os.Fs.Bitmap.Alloc.{
  IsDisk, in_use-change_bit, change_bit_others, change_bit-IsDisk, and_not-SetsBit,
}
use liberal_os.Fs.Content.{LockedInode}
use liberal_os.Fs.Content.Refs.{ref, IsFile}
use mathlib.Core.Bool.{true≢false}

-- The blocks of the file at the positions in `gone` are free, the other blocks are as they were.
pub record Freed (sb : Superblock) (s : LockedInode) (gone : ℕ → Bool) (disk : ℕ → List ℕ)
    : Type 0 where
  pub is_free : (j : ℕ) → j < 269 → gone j ≡ true → ref s j ≢ 0 → in_use sb disk (ref s j) ≡ false
  pub others :
      (m : ℕ)
      → m < sb.size
      → ((j : ℕ) → j < 269 → gone j ≡ true → ref s j ≢ 0 → m ≢ ref s j)
      → in_use sb disk m ≡ in_use sb s.disk m
  pub contents : (n : ℕ) → ((m : ℕ) → m < sb.size → bblock sb m ≢ n) → disk n ≡ s.disk n
  pub blocks : IsDisk disk

-- One position more.
abbrev pub OneMore : (ℕ → Bool) → ℕ → (ℕ → Bool) → Type 0
OneMore gone p gone' =
    (j : ℕ)
    → j < 269
    → ((gone' j ≡ true) → (gone j ≡ true) ⊎ (j ≡ p))
      × (((gone j ≡ true) ⊎ (j ≡ p)) → gone' j ≡ true)

module _ (sb : Superblock) (s : LockedInode) (f : IsFile sb s) (gone gone' : ℕ → Bool) (p : ℕ)
    (l : p < 269) (new : gone p ≡ false) (more : OneMore gone p gone') where
  pub no_block-Freed :
      (disk : ℕ → List ℕ) → ref s p ≡ 0 → Freed sb s gone disk → Freed sb s gone' disk
  no_block-Freed disk z x = record {
    is_free = λ j g d n. elim ((more j g).0 d) [
      | inl q ↦ x.is_free j g q n
      | inr q ↦ absurd (n (ap (ref s) q ∙ z))
    ];
    others = λ m g h. x.others m g (λ j i q. h j i ((more j i).1 (inl q)));
    contents = x.contents;
    blocks = x.blocks;
  }

  pub bfree-Freed :
      (disk : ℕ → List ℕ)
      → ref s p ≢ 0
      → Freed sb s gone disk
      → (disk' : ℕ → List ℕ) × ((bfree sb (ref s p) disk ≡ some disk') × Freed sb s gone' disk')
  unfolding bfree change_bit
  bfree-Freed disk n x = (after, (rw was_used refl, freed))
    where
      after : ℕ → List ℕ
      after = change_bit sb and_not (ref s p) disk

      not_p : (j : ℕ) → j < 269 → gone j ≡ true → ref s j ≢ 0 → ref s p ≢ ref s j
      not_p j g d z e = absurd (true≢false (sym d ∙ ap gone (f.apart j p g l z (sym e)) ∙ new))

      was_used : in_use sb disk (ref s p) ≡ true
      was_used = x.others (ref s p) (f.used p l n).0 not_p ∙ (f.used p l n).1

      freed : Freed sb s gone' after
      freed = record {
        is_free = λ j g d z. elim (Bool-cases (ref s j == ref s p)) [
          | inl e ↦
              ap (in_use sb after) ((==_iff _ _).0 e)
              ∙ in_use-change_bit sb and_not false and_not-SetsBit (ref s p) disk x.blocks
          | inr e ↦
              let d' : ref s j ≢ ref s p = λ q. absurd (true≢false (sym ((==_iff _ _).1 q) ∙ e)) in
              change_bit_others sb and_not false and_not-SetsBit (ref s p) (ref s j) disk x.blocks
                d'
              ∙ elim ((more j g).0 d) [
                | inl q ↦ x.is_free j g q z
                | inr q ↦ absurd (d' (ap (ref s) q))
              ]
        ];
        others = λ m g h.
            change_bit_others sb and_not false and_not-SetsBit (ref s p) m disk x.blocks
              (h p l ((more p l).1 (inr refl)) n)
            ∙ x.others m g (λ j i q. h j i ((more j i).1 (inl q)));
        contents = λ m h. untouched m (h (ref s p) (f.used p l n).0) ∙ x.contents m h;
        blocks = change_bit-IsDisk sb and_not false and_not-SetsBit (ref s p) disk x.blocks;
      }
        where
          untouched : (m : ℕ) → bblock sb (ref s p) ≢ m → after m ≡ disk m
          untouched m h = rw (==-false m (bblock sb (ref s p)) (λ q. h (sym q))) refl

-- The positions left hold no block.
pub Freed-all :
    (sb : Superblock) (s : LockedInode) (gone : ℕ → Bool) (disk : ℕ → List ℕ)
    → ((j : ℕ) → j < 269 → gone j ≡ false → ref s j ≡ 0)
    → Freed sb s gone disk
    → Freed sb s (λ j. true) disk
Freed-all sb s gone disk z x = record {
  is_free = λ j l t n. elim (Bool-cases (gone j)) [
    | inl e ↦ x.is_free j l e n
    | inr e ↦ absurd (n (z j l e))
  ];
  others = λ m l h. x.others m l (λ j g q. h j g refl);
  contents = x.contents;
  blocks = x.blocks;
}

pub Freed-same :
    (sb : Superblock) (s : LockedInode) (gone gone' : ℕ → Bool) (disk : ℕ → List ℕ)
    → ((j : ℕ) → gone j ≡ gone' j)
    → Freed sb s gone disk
    → Freed sb s gone' disk
Freed-same sb s gone gone' disk e x = record {
  is_free = λ j l t n. x.is_free j l (e j ∙ t) n;
  others = λ m l h. x.others m l (λ j g q. h j g (sym (e j) ∙ q));
  contents = x.contents;
  blocks = x.blocks;
}
