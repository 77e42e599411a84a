-- ===== src/Tests/Fs/Content.antt =====
-- The inodes and the blocks of files on a small disk.
use liberal_os.Prelude.{
  ℕ, ◌≡◌, refl, ◌∙◌, ◌≢◌, inl, inr, false, some, [], ◌∷◌, arith, ltb, Bool-cases,
}
use liberal_os.Fs.Dinode.{Dinode, iupdate, ilock, on_disk, empty_dinode}
use liberal_os.Fs.Dinode.Copies.{IsDinode, ilock-iupdate}
use liberal_os.Fs.Content.{LockedInode, bmap, itrunc}
use liberal_os.Fs.Content.Emptied.{Truncated, itrunc-Truncated}
use liberal_os.Fs.Content.Refs.{ref, IsFile}
use liberal_os.Fs.Content.Fill.{ref_slot, ref_none, get_or-replicate}
use liberal_os.Fs.Content.Bmap.{Bmapped, IsSuperblock, bmap-Bmapped}
use liberal_os.Tests.Fs.{ten, small_disk, small_disk-IsDisk, small_disk-IsReserved}

abbrev some_inode : Dinode
some_inode = record {
  type = 2;
  major = 0;
  minor = 0;
  nlink = 1;
  size = 5000;
  addrs = 5 ∷ 6 ∷ 7 ∷ 8 ∷ 9 ∷ 0 ∷ 0 ∷ 0 ∷ 0 ∷ 0 ∷ 0 ∷ 0 ∷ 0 ∷ [];
}

some_inode-IsDinode : IsDinode some_inode
some_inode-IsDinode = record {
  type_fits = omega arith;
  major_fits = omega arith;
  minor_fits = omega arith;
  nlink_fits = omega arith;
  size_fits = omega arith;
  addrs_length = refl;
  addrs_fit = (
    refl,
    (
      refl,
      (refl, (refl, (refl, (refl, (refl, (refl, (refl, (refl, (refl, (refl, (refl, refl))))))))))),
    ),
  );
}

ilock-iupdate_example :
    (ilock 4 1 19 false (empty_dinode 0) (iupdate 4 19 some_inode small_disk) ≡ some some_inode)
    × ((j : ℕ) → j ≢ 19 → on_disk 4 j (iupdate 4 19 some_inode small_disk) ≡ on_disk 4 j small_disk)
ilock-iupdate_example =
    ilock-iupdate 4 19 some_inode small_disk some_inode-IsDinode small_disk-IsDisk 1
      (empty_dinode 0) (omega arith) (λ e. omega (arith, e))

abbrev no_blocks : LockedInode
no_blocks = record { ip = empty_dinode 2; disk = small_disk }

all_missing : (i : ℕ) → ref no_blocks i ≡ 0
all_missing i = elim (Bool-cases (ltb i 13)) [
  | inl e ↦ ref_slot no_blocks i (ground arith) ∙ get_or-replicate 13 i
  | inr e ↦ ref_none no_blocks i (ground arith) refl
]

no_blocks-IsFile : IsFile ten no_blocks
no_blocks-IsFile = record {
  blocks = small_disk-IsDisk;
  reserved = small_disk-IsReserved;
  count = refl;
  used = λ i l n. absurd (n (all_missing i));
  outside = λ i m l n g e. n (all_missing i);
  apart = λ i j l g n e. absurd (n (all_missing i));
}

ten-IsSuperblock : IsSuperblock ten
ten-IsSuperblock = ((omega arith, omega arith), λ b h. omega (arith, h))

bmap-Bmapped_example :
    (a : ℕ) × ((s' : LockedInode) × ((bmap ten 20 no_blocks ≡ some (a, s'))
        × Bmapped ten 20 no_blocks a s'))
bmap-Bmapped_example = bmap-Bmapped ten 20 no_blocks ten-IsSuperblock no_blocks-IsFile (omega arith)

grown :
    (a : ℕ) × ((s' : LockedInode) × ((bmap ten 20 no_blocks ≡ some (a, s'))
        × Bmapped ten 20 no_blocks a s'))
grown = bmap-Bmapped ten 20 no_blocks ten-IsSuperblock no_blocks-IsFile (omega arith)

-- A file with an indirect block and one data block.
abbrev with_blocks : LockedInode
with_blocks = grown.1.0

itrunc-Truncated_example :
    (s' : LockedInode) × ((itrunc ten 4 1 with_blocks ≡ some s') × Truncated ten with_blocks s')
itrunc-Truncated_example =
    itrunc-Truncated ten with_blocks grown.1.1.1.file 4 1 (λ m l e. omega (arith, l, e))
