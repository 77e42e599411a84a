-- ===== src/Fs/Content/Bmap.antt =====
-- kernel/fs.c: bmap() as a lookup of the n-th block of a file that fills what is missing.
use liberal_os.Prelude.{
  ℕ, ◌+◌, ◌-◌, ◌^◌, ◌≤◌, ◌<◌, ◌≡◌, refl, sym, ap, ◌∙◌, subst, ◌≢◌, inl, inr, true, false, some,
  arith, ltb, ◌==◌, if◌then◌else◌, ==_iff, ==-false, Bool-cases,
}
use liberal_os.Fs.Content.Entry.{entry-Slotted}
use mathlib.Core.Bool.{true≢false}
use mathlib.Core.Path.{subst₂}
use liberal_os.Fs.Bitmap.{Superblock, bblock, in_use}
use liberal_os.Fs.Bitmap.Blocks.{IsFull}
use liberal_os.Fs.Content.{entry, addr_at, addr_slot, bmap, through, LockedInode}
use liberal_os.Fs.Content.Refs.{Filled, ref, IsFile, Filled-IsFile}
use liberal_os.Fs.Content.Fill.{
  ref_none, addr_slot-Slotted, ref_slot, Slotted, Slotted.was_there, Slotted.filled,
  Slotted.disk_full,
}

-- The place of the block number bn among the block numbers of a file.
abbrev pub place_of : ℕ → ℕ
place_of bn = if ltb bn 12 then bn else bn + 1

-- A superblock whose bitmap lies on the disk.
abbrev pub IsSuperblock : Superblock → Type 0
IsSuperblock sb =
    ((0 < sb.size) × (sb.size < 2 ^ 32)) × ((b : ℕ) → b < sb.size → bblock sb b < sb.size)

-- The answer a and the file s' after bmap() of the block number bn.
pub record Bmapped (sb : Superblock) (bn : ℕ) (s : LockedInode) (a : ℕ) (s' : LockedInode)
    : Type 0 where
  pub file : IsFile sb s'
  pub found : a ≢ 0 → ref s' (place_of bn) ≡ a
  pub full : a ≡ 0 → IsFull sb s'.disk
  pub allotted :
      (j : ℕ) → j < 269 → ref s j ≡ 0 → ref s' j ≢ 0 → in_use sb s.disk (ref s' j) ≡ false
  pub kept : ref s (place_of bn) ≢ 0 → a ≡ ref s (place_of bn)
  pub others : (j : ℕ) → j < 269 → j ≢ place_of bn → ref s j ≢ 0 → ref s' j ≡ ref s j
  pub data_kept : (j : ℕ) → j < 269 → j ≢ 12 → ref s j ≢ 0 → s'.disk (ref s j) ≡ s.disk (ref s j)
  pub unchanged : ref s (place_of bn) ≢ 0 → s' ≡ s
  pub data_blocks : (n : ℕ) → n < 268 → n ≢ bn → ref s' (place_of n) ≡ ref s (place_of n)

of_slotted :
    (sb : Superblock) (bn : ℕ) (s : LockedInode) (r : ℕ × LockedInode)
    → IsFile sb s
    → IsSuperblock sb
    → bn < 268
    → Slotted sb s (place_of bn) r
    → Bmapped sb bn s r.0 r.1
of_slotted sb bn s r f sup l (was_there a z q) = record {
  file = f;
  found = λ n. sym q;
  full = λ n. absurd (z (sym q ∙ n));
  allotted = λ j g z' n. absurd (n z');
  kept = λ n. q;
  others = λ j g n z'. refl;
  data_kept = λ j g n z'. refl;
  unchanged = λ n. refl;
  data_blocks = λ n g d. refl;
}
of_slotted sb bn s r f sup l (filled a s' z x) = record {
  file = Filled-IsFile sb s s' (place_of bn) a f x sup.1 sup.0.0;
  found = λ n. x.here;
  full = λ n. absurd (x.not_zero n);
  allotted = λ j g z' n. elim (Bool-cases (j == place_of bn)) [
    | inl e ↦
        subst (λ b. in_use sb s.disk b ≡ false) (sym (ap (ref s') ((==_iff _ _).0 e) ∙ x.here))
          x.was_free
    | inr e ↦ absurd (n (x.others j g (λ q. absurd (true≢false (sym ((==_iff _ _).1 q) ∙ e))) ∙ z'))
  ];
  kept = λ n. absurd (n z);
  others = λ j g n z'. x.others j g n;
  data_kept = x.data_kept;
  unchanged = λ n. absurd (n z);
  data_blocks = λ n g d. x.others (place_of n) (in_file n g) (λ q. d (place_injective n q));
}
  where
    in_file : (n : ℕ) → n < 268 → place_of n < 269
    in_file n g = ground arith

    place_injective : (n : ℕ) → place_of n ≡ place_of bn → n ≡ bn
    place_injective n q = ground arith
of_slotted sb bn s r f sup l (disk_full z g) = record {
  file = f;
  found = λ n. absurd (n refl);
  full = λ n. g;
  allotted = λ j g z' n. absurd (n z');
  kept = λ n. absurd (n z);
  others = λ j g n z'. refl;
  data_kept = λ j g n z'. refl;
  unchanged = λ n. refl;
  data_blocks = λ n g d. refl;
}

-- After the indirect block was added.
after_indirect :
    (sb : Superblock) (bn : ℕ) (s s1 : LockedInode) (b a : ℕ) (s' : LockedInode)
    → 12 ≤ bn
    → bn < 268
    → ref s 12 ≡ 0
    → Filled sb s 12 b s1
    → Bmapped sb bn s1 a s'
    → Bmapped sb bn s a s'
after_indirect sb bn s s1 b a s' g l z x y =
    let same : ref s1 (place_of bn) ≡ ref s (place_of bn) =
      x.others (place_of bn) (ground arith) (λ q. not_12 bn q) in
    record {
      file = y.file;
      found = y.found;
      full = y.full;
      allotted = λ j h z' n. free_before j h z' n;
      kept = λ n. y.kept (λ q. n (sym same ∙ q)) ∙ same;
      others = λ j h n w.
          let o = x.others j h (λ q. w (ap (ref s) q ∙ z)) in
          y.others j h n (λ q. w (sym o ∙ q)) ∙ o;
      data_kept = λ j h n w.
          let o = x.others j h n in
          ap s'.disk (sym o)
          ∙ y.data_kept j h n (λ q. w (sym o ∙ q))
          ∙ ap s1.disk o
          ∙ x.data_kept j h n w;
      unchanged = λ n.
          absurd
            (n (ref_none s (place_of bn) (ground arith) (sym (ref_slot s 12 (omega arith)) ∙ z)));
      data_blocks =
          λ n h d. y.data_blocks n h d ∙ x.others (place_of n) (in_file n h) (λ q. not_12 n q);
    }
  where
    not_12 : (n : ℕ) → place_of n ≢ 12
    not_12 n q = absurd (ground arith)

    free_before :
        (j : ℕ) → j < 269 → ref s j ≡ 0 → ref s' j ≢ 0 → in_use sb s.disk (ref s' j) ≡ false
    free_before j h z' n = elim (Bool-cases (ref s1 j == 0)) [
      | inl e ↦
          let free = y.allotted j h ((==_iff _ _).0 e) n in
          sym (
            x.others_in_use (ref s' j) (y.file.used j h n).0
              (λ q. absurd (true≢false (sym x.taken ∙ ap (in_use sb s1.disk) (sym q) ∙ free))))
          ∙ free
      | inr e ↦
          let m : ref s1 j ≢ 0 = λ q. absurd (true≢false (sym ((==_iff _ _).1 q) ∙ e)) in
          elim (Bool-cases (j == 12)) [
            | inr d ↦
                absurd
                  (m (x.others j h (λ q. absurd (true≢false (sym ((==_iff _ _).1 q) ∙ d))) ∙ z'))
            | inl d ↦
                let q : j ≡ 12 = (==_iff j 12).0 d in
                let o : ref s' j ≡ ref s1 j = y.others j h (λ r. not_12 bn (sym r ∙ q)) m in
                subst (λ b. in_use sb s.disk b ≡ false) (sym (o ∙ ap (ref s1) q ∙ x.here))
                  x.was_free
          ]
    ]

    in_file : (n : ℕ) → n < 268 → place_of n < 269
    in_file n h = ground arith

entered :
    (sb : Superblock) (bn : ℕ) (s : LockedInode) (a : ℕ)
    → IsFile sb s
    → IsSuperblock sb
    → 12 ≤ bn
    → bn < 268
    → a ≢ 0
    → addr_at s 12 ≡ a
    → Bmapped sb bn s (through sb (bn - 12) (a, s)).0 (through sb (bn - 12) (a, s)).1
unfolding through
entered sb bn s a f sup g l n q = rw (==-false a 0 n) (
    of_slotted sb bn s (entry sb (bn - 12) a s) f sup l (
      subst₂ (λ p b. Slotted sb s p (entry sb (bn - 12) b s)) (ground arith) q
        (entry-Slotted sb s f sup.0.1 (bn - 12) (omega arith) (λ z. n (sym q ∙ z)))))

through-Bmapped :
    (sb : Superblock) (bn : ℕ) (s : LockedInode) (r : ℕ × LockedInode)
    → IsFile sb s
    → IsSuperblock sb
    → 12 ≤ bn
    → bn < 268
    → Slotted sb s 12 r
    → Bmapped sb bn s (through sb (bn - 12) r).0 (through sb (bn - 12) r).1
unfolding through
through-Bmapped sb bn s r f sup g l (was_there a z q) =
    entered sb bn s a f sup g l (λ n. z (sym q ∙ n)) (sym (ref_slot s 12 (omega arith)) ∙ sym q)
through-Bmapped sb bn s r f sup g l (filled a s' z x) = after_indirect sb bn s s' a _ _ g l z x (
    entered sb bn s' a (Filled-IsFile sb s s' 12 a f x sup.1 sup.0.0) sup g l x.not_zero
      (sym (ref_slot s' 12 (omega arith)) ∙ x.here))
through-Bmapped sb bn s r f sup g l (disk_full z h) = record {
  file = f;
  found = λ n. absurd (n refl);
  full = λ n. h;
  allotted = λ j g z' n. absurd (n z');
  kept = λ n.
      absurd (n (ref_none s (place_of bn) (ground arith) (sym (ref_slot s 12 (omega arith)) ∙ z)));
  others = λ j g n z'. refl;
  data_kept = λ j g n z'. refl;
  unchanged = λ n. refl;
  data_blocks = λ n g d. refl;
}

-- bmap() of a block number that a file may have does not panic. On a file with distinct blocks, all
-- marked as in use, it gives the block that stands there; or it allots a block that was free, and
-- that is what stands there after; or it answers 0, and then no block of the disk is free. No other
-- block number of the file changes, nor do the bytes of the data blocks that it had, and the file
-- after has distinct blocks that are in use.
pub bmap-Bmapped :
    (sb : Superblock) (bn : ℕ) (s : LockedInode)
    → IsSuperblock sb
    → IsFile sb s
    → bn < 268
    → (a : ℕ) × ((s' : LockedInode) × ((bmap sb bn s ≡ some (a, s')) × Bmapped sb bn s a s'))
unfolding bmap
bmap-Bmapped sb bn s sup f l = elim (Bool-cases (ltb bn 12)) [
  | inl e ↦
      let r = addr_slot sb bn s in
      let q : place_of bn ≡ bn = ap (λ b. if b then bn else bn + 1) e in
      (
        r.0,
        (
          r.1,
          (
            rw e refl,
            of_slotted sb bn s r f sup l (
                subst (λ p. Slotted sb s p r) (sym q)
                  (addr_slot-Slotted sb s f sup.0.1 bn (ground arith))),
          ),
        ),
      )
  | inr e ↦
      let r = through sb (bn - 12) (addr_slot sb 12 s) in
      let h : ltb (bn - 12) 256 ≡ true = ground arith in
      (
        r.0,
        (
          r.1,
          (
            rw (e, h) refl,
            through-Bmapped sb bn s (addr_slot sb 12 s) f sup (ground arith) l
                (addr_slot-Slotted sb s f sup.0.1 12 (omega arith)),
          ),
        ),
      )
]
