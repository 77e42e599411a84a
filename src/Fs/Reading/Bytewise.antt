-- ===== src/Fs/Reading/Bytewise.antt =====
-- kernel/fs.c: readi() copies the bytes of the file.
use liberal_os.Prelude.{
  ℕ, zero, suc, ◌+◌, ◌-◌, ◌*◌, ◌/◌, ◌%◌, ◌≤◌, ◌<◌, min, ◌≡◌, refl, sym, ap, ap₂, ◌∙◌, subst, ◌≢◌,
  inl, inr, Bool, true, false, some, List, [], ◌∷◌, ◌++◌, arith, ltb, ◌==◌, ==_iff, ==-false,
  Bool-cases, get_or,
}
use liberal_os.Fs.Bitmap.{Superblock}
use liberal_os.Fs.Content.{LockedInode, bmap}
use liberal_os.Fs.Content.Refs.{ref, IsFile}
use liberal_os.Fs.Content.Bmap.{IsSuperblock, bmap-Bmapped, place_of}
use liberal_os.Fs.Reading.{piece, after_piece, read_block, read_blocks}

-- The byte of a file at an offset.
abbrev pub byte_of : LockedInode → ℕ → ℕ
byte_of s i = get_or (s.disk (ref s (place_of (i / 1024)))) (i % 1024) 0

-- The n bytes of a file from an offset on.
unfoldable pub bytes_of : LockedInode → ℕ → ℕ → List ℕ
bytes_of s off zero = []
bytes_of s off (suc n) = byte_of s off ∷ bytes_of s (off + 1) n

-- The bytes of one block.
piece-bytes_of :
    (s : LockedInode) (b off o m r : ℕ)
    → off ≡ b * 1024 + o
    → o + m ≤ 1024
    → piece (s.disk (ref s (place_of b))) o m ++ bytes_of s (off + m) r ≡ bytes_of s off (m + r)
unfolding piece bytes_of
piece-bytes_of s b off o zero r e l = ap₂ (bytes_of s) (omega arith) (omega arith)
piece-bytes_of s b off o (suc m) r e l =
    let d : off / 1024 ≡ b = omega arith in
    let g : off % 1024 ≡ o = omega arith in
    let h : byte_of s off ≡ get_or (s.disk (ref s (place_of b))) o 0 =
      ap₂ (λ x y. get_or (s.disk (ref s (place_of x))) y 0) d g in
    let ih = piece-bytes_of s b (off + 1) (o + 1) m r (omega arith) (omega arith) in
    let n : suc m + r ≡ suc (m + r) = omega arith in
    ap₂ (λ x xs. x ∷ xs) (sym h)
      (ap (λ x. piece (s.disk (ref s (place_of b))) (o + 1) m ++ bytes_of s x r) (omega arith) ∙ ih)
    ∙ ap (bytes_of s off) (sym n)

-- Every block of the range is there.
abbrev pub HasBlocks : LockedInode → ℕ → Type 0
HasBlocks s end = (b : ℕ) → b * 1024 < end → ref s (place_of b) ≢ 0

module _ (sb : Superblock) (sup : IsSuperblock sb) (copies : ℕ → Bool)
    (copied : (tot : ℕ) → copies tot ≡ true) (s : LockedInode) (f : IsFile sb s) where
  bmap_there :
      (b : ℕ) → b < 268 → ref s (place_of b) ≢ 0 → bmap sb b s ≡ some (ref s (place_of b), s)
  bmap_there b l n =
      let (a, (s', (e, x))) = bmap-Bmapped sb b s sup f l in
      e ∙ ap₂ (λ y z. some (y, z)) (x.kept n) (x.unchanged n)

  round :
      (fuel tot off r m : ℕ)
      → min (tot + r - tot) (1024 - off % 1024) ≡ m
      → 0 < r
      → HasBlocks s (off + r)
      → off + r ≤ 274432
      → (read_blocks sb copies fuel (tot + m) (off + m) (tot + m + (r - m)) s
          ≡ some (some (tot + m + (r - m)), (bytes_of s (off + m) (r - m), s)))
      → read_block copies
          (λ m' s'. read_blocks sb copies fuel (tot + m') (off + m') (tot + r) s')
          tot
          off
          (tot + r)
          (bmap sb (off / 1024) s)
        ≡ some (some (tot + r), (bytes_of s off r, s))
  unfolding read_block after_piece
  round fuel tot off r m e g h k ih =
      let n : ref s (place_of (off / 1024)) ≢ 0 = h (off / 1024) (omega arith) in
      let there = bmap_there (off / 1024) (omega arith) n in
      let q : tot + m + (r - m) ≡ tot + r = omega (arith, e) in
      let ih' : read_blocks sb copies fuel (tot + m) (off + m) (tot + r) s
          ≡ some (some (tot + r), (bytes_of s (off + m) (r - m), s)) =
        subst
          (λ x.
            read_blocks sb copies fuel (tot + m) (off + m) x s
            ≡ some (some x, (bytes_of s (off + m) (r - m), s)))
          q ih in
      rw (there, ==-false (ref s (place_of (off / 1024))) 0 n, copied tot, e, ih')
        (ap (λ l. some (some (tot + r), (l, s)))
          (piece-bytes_of s (off / 1024) off (off % 1024) m (r - m) (omega arith) (omega (arith, e))
            ∙ ap (bytes_of s off) (omega (arith, e))))

  pub read_blocks_lem :
      (fuel tot off r : ℕ)
      → r ≤ fuel
      → HasBlocks s (off + r)
      → off + r ≤ 274432
      → read_blocks sb copies fuel tot off (tot + r) s
        ≡ some (some (tot + r), (bytes_of s off r, s))
  unfolding read_blocks bytes_of
  read_blocks_lem zero tot off r g h k =
      let z : r ≡ 0 = omega arith in let t : tot + 0 ≡ tot = omega arith in rw (z, t) refl
  read_blocks_lem (suc fuel) tot off r g h k = elim (Bool-cases (r == 0)) [
    | inl e ↦
        let z : r ≡ 0 = (==_iff r 0).0 e in
        let t : tot + 0 ≡ tot = omega arith in
        let l : ltb tot tot ≡ false = ground arith in rw (z, t, l) refl
    | inr e ↦
        let p : 0 < r = ground arith in
        let l : ltb tot (tot + r) ≡ true = ground arith in
        let m = min (tot + r - tot) (1024 - off % 1024) in
        let q : off + m + (r - m) ≡ off + r = omega arith in
        rw l (
          round fuel tot off r m refl p h k (
            read_blocks_lem fuel (tot + m) (off + m) (r - m) (omega arith)
              (subst (HasBlocks s) (sym q) h) (omega (arith, q))))
  ]
