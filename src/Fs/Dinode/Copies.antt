-- ===== src/Fs/Dinode/Copies.antt =====
-- kernel/fs.c: ilock() reads what iupdate() wrote.
use liberal_os.Prelude.{
  ℕ, ◌+◌, ◌%◌, ◌^◌, ◌≤◌, ◌<◌, ◌≡◌, refl, ◌∙◌, subst, ◌≢◌, ◌⊎◌, inl, inr, false, some, List, arith,
  ltb, ◌==◌, ==_iff, ==-refl, ==-false, Bool-cases, length, get_or,
}
use liberal_os.Fs.Bytes.{
  word_at, put_le, words_at, put_words, Fits, AllFit, length-put_le, word_at-put_le,
  word_at-put_word_other, word_at_same, words_at_same, get_or-put_le, get_or-put_words,
  words_at-put_words,
}
use liberal_os.Fs.Bitmap.Alloc.{IsDisk}
use liberal_os.Fs.Dinode.{
  Dinode, iblock, dinode_at, read_dinode, write_dinode, iupdate, on_disk, ilock, with_type,
}

-- The fields are numbers of their sizes.
pub record IsDinode (ip : Dinode) : Type 0 where
  pub type_fits : ip.type < 2 ^ 16
  pub major_fits : ip.major < 2 ^ 16
  pub minor_fits : ip.minor < 2 ^ 16
  pub nlink_fits : ip.nlink < 2 ^ 16
  pub size_fits : ip.size < 2 ^ 32
  pub addrs_length : length ip.addrs ≡ 13
  pub addrs_fit : AllFit ip.addrs

short-Fits : (x : ℕ) → x < 2 ^ 16 → Fits 2 x
short-Fits x h = omega arith

uint-Fits : (x : ℕ) → x < 2 ^ 32 → Fits 4 x
uint-Fits x h = omega arith

module _ (ip : Dinode) (b : List ℕ) (o : ℕ) (f : IsDinode ip) (l : o + 64 ≤ length b) where
  abbrev b1 : List ℕ
  b1 = put_le 2 ip.type b o

  abbrev b2 : List ℕ
  b2 = put_le 2 ip.major b1 (o + 2)

  abbrev b3 : List ℕ
  b3 = put_le 2 ip.minor b2 (o + 4)

  abbrev b4 : List ℕ
  b4 = put_le 2 ip.nlink b3 (o + 6)

  abbrev b5 : List ℕ
  b5 = put_le 4 ip.size b4 (o + 8)

  abbrev b6 : List ℕ
  b6 = put_words ip.addrs b5 (o + 12)

  length-b1 : length b1 ≡ length b
  length-b1 = length-put_le 2 ip.type b o

  length-b2 : length b2 ≡ length b
  length-b2 = length-put_le 2 ip.major b1 (o + 2) ∙ length-b1

  length-b3 : length b3 ≡ length b
  length-b3 = length-put_le 2 ip.minor b2 (o + 4) ∙ length-b2

  length-b4 : length b4 ≡ length b
  length-b4 = length-put_le 2 ip.nlink b3 (o + 6) ∙ length-b3

  length-b5 : length b5 ≡ length b
  length-b5 = length-put_le 4 ip.size b4 (o + 8) ∙ length-b4

  before_addrs : (n p : ℕ) → p + n ≤ o + 12 → word_at n b6 p ≡ word_at n b5 p
  before_addrs n p h =
      word_at_same n b6 b5 p (λ i g s. get_or-put_words ip.addrs b5 (o + 12) i (inl (omega arith)))

  before_size : (n p : ℕ) → p + n ≤ o + 8 → word_at n b6 p ≡ word_at n b4 p
  before_size n p h =
      before_addrs n p (omega arith)
      ∙ word_at-put_word_other n 4 ip.size b4 (o + 8) p (inl (omega arith))

  before_nlink : (n p : ℕ) → p + n ≤ o + 6 → word_at n b6 p ≡ word_at n b3 p
  before_nlink n p h =
      before_size n p (omega arith)
      ∙ word_at-put_word_other n 2 ip.nlink b3 (o + 6) p (inl (omega arith))

  before_minor : (n p : ℕ) → p + n ≤ o + 4 → word_at n b6 p ≡ word_at n b2 p
  before_minor n p h =
      before_nlink n p (omega arith)
      ∙ word_at-put_word_other n 2 ip.minor b2 (o + 4) p (inl (omega arith))

  same_type : word_at 2 b6 o ≡ ip.type
  same_type =
      before_minor 2 o (omega arith)
      ∙ word_at-put_word_other 2 2 ip.major b1 (o + 2) o (inl (omega arith))
      ∙ word_at-put_le 2 ip.type b o (omega (arith, l)) (short-Fits ip.type f.type_fits)

  same_major : word_at 2 b6 (o + 2) ≡ ip.major
  same_major =
      before_minor 2 (o + 2) (omega arith)
      ∙ word_at-put_le 2 ip.major b1 (o + 2) (omega (arith, l, length-b1))
          (short-Fits ip.major f.major_fits)

  same_minor : word_at 2 b6 (o + 4) ≡ ip.minor
  same_minor =
      before_nlink 2 (o + 4) (omega arith)
      ∙ word_at-put_le 2 ip.minor b2 (o + 4) (omega (arith, l, length-b2))
          (short-Fits ip.minor f.minor_fits)

  same_nlink : word_at 2 b6 (o + 6) ≡ ip.nlink
  same_nlink =
      before_size 2 (o + 6) (omega arith)
      ∙ word_at-put_le 2 ip.nlink b3 (o + 6) (omega (arith, l, length-b3))
          (short-Fits ip.nlink f.nlink_fits)

  same_size : word_at 4 b6 (o + 8) ≡ ip.size
  same_size =
      before_addrs 4 (o + 8) (omega arith)
      ∙ word_at-put_le 4 ip.size b4 (o + 8) (omega (arith, l, length-b4))
          (uint-Fits ip.size f.size_fits)

  same_addrs : words_at 13 b6 (o + 12) ≡ ip.addrs
  same_addrs =
      subst (λ n. words_at n b6 (o + 12) ≡ ip.addrs) f.addrs_length
        (words_at-put_words ip.addrs b5 (o + 12) (omega (arith, l, length-b5, f.addrs_length))
          f.addrs_fit)

  pub read-write : read_dinode (write_dinode ip b o) o ≡ ip
  unfolding read_dinode write_dinode
  read-write = rw (same_type, same_major, same_minor, same_nlink, same_size, same_addrs) refl

  pub write_outside :
      (i : ℕ) → (i < o) ⊎ (o + 64 ≤ i) → get_or (write_dinode ip b o) i 0 ≡ get_or b i 0
  unfolding write_dinode
  write_outside i h =
      get_or-put_words ip.addrs b5 (o + 12) i
        (away h 12 52 (omega arith) (omega (arith, f.addrs_length)))
      ∙ get_or-put_le 4 ip.size b4 (o + 8) i (away h 8 4 (omega arith) refl)
      ∙ get_or-put_le 2 ip.nlink b3 (o + 6) i (away h 6 2 (omega arith) refl)
      ∙ get_or-put_le 2 ip.minor b2 (o + 4) i (away h 4 2 (omega arith) refl)
      ∙ get_or-put_le 2 ip.major b1 (o + 2) i (away h 2 2 (omega arith) refl)
      ∙ get_or-put_le 2 ip.type b o i (elim h [ inl s ↦ inl s | inr s ↦ inr (omega (arith, s)) ])
    where
      away :
          (i < o) ⊎ (o + 64 ≤ i)
          → (d n : ℕ) {m : ℕ} → d + n ≤ 64
          → m ≡ n
          → (i < o + d) ⊎ (o + d + m ≤ i)
      away (inl s) d n k e = inl (omega (arith, s))
      away (inr s) d n k e = inr (omega (arith, s, k, e))

read_same :
    (b c : List ℕ) (o : ℕ)
    → ((i : ℕ) → o ≤ i → i < o + 64 → get_or b i 0 ≡ get_or c i 0)
    → read_dinode b o ≡ read_dinode c o
unfolding read_dinode
read_same b c o h =
    rw
      (
        word_at_same 2 b c o (λ i g s. h i (omega arith) (omega arith)),
        word_at_same 2 b c (o + 2) (λ i g s. h i (omega arith) (omega arith)),
        word_at_same 2 b c (o + 4) (λ i g s. h i (omega arith) (omega arith)),
        word_at_same 2 b c (o + 6) (λ i g s. h i (omega arith) (omega arith)),
        word_at_same 4 b c (o + 8) (λ i g s. h i (omega arith) (omega arith)),
        words_at_same 13 b c (o + 12) (λ i g s. h i (omega arith) (omega arith)),
      )
      refl

module _ (inodestart inum : ℕ) (ip : Dinode) (disk : ℕ → List ℕ) (f : IsDinode ip)
    (d : IsDisk disk) where
  room : dinode_at inum + 64 ≤ length (disk (iblock inodestart inum))
  room = omega (arith, d (iblock inodestart inum))

  on_disk-iupdate : on_disk inodestart inum (iupdate inodestart inum ip disk) ≡ ip
  unfolding iupdate
  on_disk-iupdate =
      rw (==-refl (iblock inodestart inum))
        (read-write ip (disk (iblock inodestart inum)) (dinode_at inum) f room)

  others_on_disk :
      (j : ℕ)
      → j ≢ inum
      → on_disk inodestart j (iupdate inodestart inum ip disk) ≡ on_disk inodestart j disk
  unfolding iupdate
  others_on_disk j n = elim (Bool-cases (iblock inodestart j == iblock inodestart inum)) [
    | inr e ↦ rw e refl
    | inl e ↦
        let q : iblock inodestart j ≡ iblock inodestart inum = (==_iff _ _).0 e in
        let apart : (j % 16 < inum % 16) ⊎ (inum % 16 < j % 16) = apart_lem q n in
        rw (e, q)
          (read_same _ (disk (iblock inodestart inum)) (dinode_at j) (λ i g s.
            write_outside ip (disk (iblock inodestart inum)) (dinode_at inum) f room i
              (elim apart [ inl a ↦ inl (omega (arith, a)) | inr a ↦ inr (omega (arith, a)) ])))
  ]
    where
      apart_lem :
          iblock inodestart j ≡ iblock inodestart inum
          → j ≢ inum
          → (j % 16 < inum % 16) ⊎ (inum % 16 < j % 16)
      apart_lem q n = elim (Bool-cases (ltb (j % 16) (inum % 16))) [
        | inl a ↦ inl (ground arith)
        | inr a ↦ elim (Bool-cases (ltb (inum % 16) (j % 16))) [
          | inl c ↦ inr (ground arith)
          | inr c ↦ absurd (n (equal (j % 16) (inum % 16) refl refl a c))
        ]
      ]
        where
          equal :
              (x y : ℕ) → x ≡ j % 16 → y ≡ inum % 16 → ltb x y ≡ false → ltb y x ≡ false → j ≡ inum
          equal x y e g a c = let h : x ≡ y = ground arith in omega (arith, q, h, e, g)

  -- Where the fields of an inode with a type fit their sizes: after iupdate() of it, ilock() of the
  -- inode that is not valid in memory reads the same fields back, and every other inode on the disk
  -- is the one before.
  pub ilock-iupdate :
      (refs : ℕ) (ip' : Dinode)
      → 0 < refs
      → ip.type ≢ 0
      → (ilock inodestart refs inum false ip' (iupdate inodestart inum ip disk) ≡ some ip)
        × ((j : ℕ)
            → j ≢ inum
            → on_disk inodestart j (iupdate inodestart inum ip disk) ≡ on_disk inodestart j disk)
  unfolding ilock with_type
  ilock-iupdate refs ip' h t =
      let a : ltb refs 1 ≡ false = ground arith in
      let c : (ip.type == 0) ≡ false = ==-false ip.type 0 t in
      (rw (a, on_disk-iupdate, c) refl, others_on_disk)
