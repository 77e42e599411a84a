-- ===== src/Fs/Dinode.antt =====
-- kernel/fs.c: the inodes on disk, which ialloc() finds, iupdate() writes and ilock() reads. A short is
-- its 16 bits. The start of the inodes and their number are those of the superblock.
pub mod Copies
use liberal_os.Prelude.{
  ℕ, zero, suc, ◌+◌, ◌-◌, ◌*◌, ◌/◌, ◌%◌, ◌^◌, ◌≤◌, ◌<◌, min, ◌≡◌, refl, sym, ap, ap₂, ◌∙◌, subst,
  ◌≢◌, ◌↔◌, ◌⊎◌, inl, inr, Bool, true, false, not, ◌&&◌, ◌||◌, Option, none, some, List, [], ◌∷◌,
  ◌++◌, arith, ltb, leb, ◌==◌, if◌then◌else◌, ==_iff, ==-refl, ==-false, Bool-cases, Option-cases,
  ℤ, pos, negsuc, sub_ℕ, ◌≤ℤ◌, ◌<ℤ◌, ltb_ℤ, leb_ℤ, eqb_ℤ, eqb_ℤ_iff, length, get_elem?, get_or, set,
  take, drop, replicate, length-append, length-set, length-take, length-replicate,
  get_elem?-set_self, get_elem?-set_ne, get_or-set_self, get_or-set_ne, take-length, lt_of_le_ne,
}
use liberal_os.Fs.Bitmap.{put_at}
use liberal_os.Fs.Itable.{Inode, iget}
use liberal_os.Fs.Bytes.{word_at, put_le, words_at, put_words}

-- The fields that struct dinode and struct inode share.
pub record Dinode : Type 0 where
  pub type : ℕ
  pub major : ℕ
  pub minor : ℕ
  pub nlink : ℕ
  pub size : ℕ
  pub addrs : List ℕ

-- IBLOCK(i, sb)
abbrev pub iblock : ℕ → ℕ → ℕ
iblock inodestart i = i / 16 + inodestart

-- The place of dip in its block.
abbrev pub dinode_at : ℕ → ℕ
dinode_at inum = 64 * (inum % 16)

unfoldable pub read_dinode : List ℕ → ℕ → Dinode
read_dinode b o = record {
  type = word_at 2 b o;
  major = word_at 2 b (o + 2);
  minor = word_at 2 b (o + 4);
  nlink = word_at 2 b (o + 6);
  size = word_at 4 b (o + 8);
  addrs = words_at 13 b (o + 12);
}

unfoldable pub write_dinode : Dinode → List ℕ → ℕ → List ℕ
write_dinode ip b o =
    let b1 = put_le 2 ip.type b o in
    let b2 = put_le 2 ip.major b1 (o + 2) in
    let b3 = put_le 2 ip.minor b2 (o + 4) in
    let b4 = put_le 2 ip.nlink b3 (o + 6) in
    let b5 = put_le 4 ip.size b4 (o + 8) in put_words ip.addrs b5 (o + 12)

unfoldable pub iupdate : ℕ → ℕ → Dinode → (ℕ → List ℕ) → ℕ → List ℕ
iupdate inodestart inum ip disk =
    put_at disk (iblock inodestart inum)
      (write_dinode ip (disk (iblock inodestart inum)) (dinode_at inum))

abbrev pub on_disk : ℕ → ℕ → (ℕ → List ℕ) → Dinode
on_disk inodestart inum disk = read_dinode (disk (iblock inodestart inum)) (dinode_at inum)

unfoldable pub with_type : Dinode → Option Dinode
with_type ip = if ip.type == 0 then none else some ip

-- The copy of the inode; none is a panic.
unfoldable pub ilock : ℕ → ℕ → ℕ → Bool → Dinode → (ℕ → List ℕ) → Option Dinode
ilock inodestart refs inum valid ip disk =
    if ltb refs 1 then none else if valid then some ip else with_type (on_disk inodestart inum disk)

-- memset(dip, 0, sizeof(*dip)); dip->type = type;
abbrev pub empty_dinode : ℕ → Dinode
empty_dinode type = record {
  type = type;
  major = 0;
  minor = 0;
  nlink = 0;
  size = 0;
  addrs = replicate 13 0;
}

-- The first inode from inum on, in n rounds, whose type is 0.
unfoldable pub free_inum : ℕ → (ℕ → List ℕ) → ℕ → ℕ → Option ℕ
free_inum inodestart disk zero inum = none
free_inum inodestart disk (suc n) inum =
    let rest = free_inum inodestart disk n (inum + 1) in
    if (on_disk inodestart inum disk).type == 0 then some inum else rest

unfoldable pub take_inum :
    ℕ
    → ℕ
    → ℕ
    → (ℕ → List ℕ)
    → List Inode
    → Option ℕ
    → Option (Option (ℕ × List Inode) × (ℕ → List ℕ))
take_inum inodestart dev type disk t none = none
take_inum inodestart dev type disk t (some inum) =
    some (iget dev inum t, iupdate inodestart inum (empty_dinode type) disk)

-- What iget() gives for the new inode, and the disk; none when no inode is free.
unfoldable pub ialloc :
    ℕ → ℕ → ℕ → ℕ → (ℕ → List ℕ) → List Inode → Option (Option (ℕ × List Inode) × (ℕ → List ℕ))
ialloc inodestart ninodes dev type disk t =
    take_inum inodestart dev type disk t (free_inum inodestart disk (ninodes - 1) 1)
