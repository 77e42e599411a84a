-- ===== src/Fs/Content.antt =====
-- kernel/fs.c: the blocks of a file, bmap() and itrunc(). The inode is its copy in memory; the disk is
-- what the buffer cache shows of it. A panic is none.
pub mod Refs
pub mod Fill
pub mod Entry
pub mod Bmap
pub mod Freed
pub mod Trunc
pub mod Emptied
use liberal_os.Prelude.{
  ℕ, zero, suc, ◌+◌, ◌-◌, ◌*◌, ◌/◌, ◌%◌, ◌^◌, ◌≤◌, ◌<◌, min, ◌≡◌, refl, sym, ap, ap₂, ◌∙◌, subst,
  ◌≢◌, ◌↔◌, ◌⊎◌, inl, inr, Bool, true, false, not, ◌&&◌, ◌||◌, Option, none, some, List, [], ◌∷◌,
  ◌++◌, arith, ltb, leb, ◌==◌, if◌then◌else◌, ==_iff, ==-refl, ==-false, Bool-cases, Option-cases,
  ℤ, pos, negsuc, sub_ℕ, ◌≤ℤ◌, ◌<ℤ◌, ltb_ℤ, leb_ℤ, eqb_ℤ, eqb_ℤ_iff, length, get_elem?, get_or, set,
  take, drop, replicate, length-append, length-set, length-take, length-replicate,
  get_elem?-set_self, get_elem?-set_ne, get_or-set_self, get_or-set_ne, take-length, lt_of_le_ne,
}
use liberal_os.Fs.Bitmap.{Superblock, balloc, bfree, put_at}
use liberal_os.Fs.Bytes.{word_at, put_le}
use liberal_os.Fs.Dinode.{Dinode, iupdate}

-- A locked inode and the disk.
pub record LockedInode : Type 0 where
  pub ip : Dinode
  pub disk : ℕ → List ℕ

abbrev pub with_disk : LockedInode → (ℕ → List ℕ) → LockedInode
with_disk s disk = record { ip = s.ip; disk = disk }

-- ip->addrs[i]
abbrev pub addr_at : LockedInode → ℕ → ℕ
addr_at s i = get_or s.ip.addrs i 0

abbrev pub set_addr : LockedInode → ℕ → ℕ → LockedInode
set_addr s i a = record { ip = record s.ip { addrs = set s.ip.addrs i a }; disk = s.disk }

-- a[k] of the block blk
abbrev pub entry_at : LockedInode → ℕ → ℕ → ℕ
entry_at s blk k = word_at 4 (s.disk blk) (4 * k)

unfoldable pub fill_slot : ℕ → LockedInode → ℕ × (ℕ → List ℕ) → ℕ × LockedInode
fill_slot i s (a, disk) =
    if a == 0 then (0, with_disk s disk) else (a, set_addr (with_disk s disk) i a)

-- if((addr = ip->addrs[i]) == 0){ addr = balloc(ip->dev); ... ip->addrs[i] = addr; }
unfoldable pub addr_slot : Superblock → ℕ → LockedInode → ℕ × LockedInode
addr_slot sb i s = if addr_at s i == 0 then fill_slot i s (balloc sb s.disk) else (addr_at s i, s)

unfoldable pub fill_entry : ℕ → ℕ → LockedInode → ℕ × (ℕ → List ℕ) → ℕ × LockedInode
fill_entry blk k s (a, disk) =
    if a == 0
    then (0, with_disk s disk)
    else (a, with_disk s (put_at disk blk (put_le 4 a (disk blk) (4 * k))))

-- if((addr = a[bn]) == 0){ addr = balloc(ip->dev); if(addr){ a[bn] = addr; log_write(bp); } }
unfoldable pub entry : Superblock → ℕ → ℕ → LockedInode → ℕ × LockedInode
entry sb k blk s =
    if entry_at s blk k == 0 then fill_entry blk k s (balloc sb s.disk) else (entry_at s blk k, s)

unfoldable pub through : Superblock → ℕ → ℕ × LockedInode → ℕ × LockedInode
through sb k (blk, s) = if blk == 0 then (0, s) else entry sb k blk s

-- The block, or 0 when the disk is full.
unfoldable pub bmap : Superblock → ℕ → LockedInode → Option (ℕ × LockedInode)
bmap sb bn s =
    if ltb bn 12
    then some (addr_slot sb bn s)
    else if ltb (bn - 12) 256
    then some (through sb (bn - 12) (addr_slot sb 12 s))
    else none

abbrev pub freed_slot : ℕ → LockedInode → Option (ℕ → List ℕ) → Option LockedInode
freed_slot i s none = none
freed_slot i s (some disk) = some (set_addr (with_disk s disk) i 0)

unfoldable pub free_slot : Superblock → ℕ → LockedInode → Option LockedInode
free_slot sb i s =
    if addr_at s i == 0 then some s else freed_slot i s (bfree sb (addr_at s i) s.disk)

-- The first loop of itrunc(), over n slots from i on.
unfoldable pub free_slots : Superblock → ℕ → ℕ → Option LockedInode → Option LockedInode
free_slots sb zero i s = s
free_slots sb (suc n) i none = none
free_slots sb (suc n) i (some s) = free_slots sb n (i + 1) (free_slot sb i s)

-- The second loop of itrunc(), over n entries from j on of the block blk.
unfoldable pub free_entries : Superblock → ℕ → ℕ → ℕ → Option (ℕ → List ℕ) → Option (ℕ → List ℕ)
free_entries sb blk zero j disk = disk
free_entries sb blk (suc n) j none = none
free_entries sb blk (suc n) j (some disk) = free_entries sb blk n (j + 1) (
    if word_at 4 (disk blk) (4 * j) == 0
    then some disk
    else bfree sb (word_at 4 (disk blk) (4 * j)) disk)

abbrev pub free_block : Superblock → ℕ → Option (ℕ → List ℕ) → Option (ℕ → List ℕ)
free_block sb blk none = none
free_block sb blk (some disk) = bfree sb blk disk

unfoldable pub free_indirect : Superblock → Option LockedInode → Option LockedInode
free_indirect sb none = none
free_indirect sb (some s) =
    if addr_at s 12 == 0
    then some s
    else freed_slot 12 s
        (free_block sb (addr_at s 12) (free_entries sb (addr_at s 12) 256 0 (some s.disk)))

-- ip->size = 0; iupdate(ip);
abbrev pub with_no_size : ℕ → ℕ → Option LockedInode → Option LockedInode
with_no_size inodestart inum none = none
with_no_size inodestart inum (some s) =
    let ip = record s.ip { size = 0 } in
    some (record { ip = ip; disk = iupdate inodestart inum ip s.disk })

unfoldable pub itrunc : Superblock → ℕ → ℕ → LockedInode → Option LockedInode
itrunc sb inodestart inum s =
    with_no_size inodestart inum (free_indirect sb (free_slots sb 12 0 (some s)))
