-- ===== src/Tests/Fs.antt =====
-- The file system's code on small disks, paths and tables.
mod Content
mod Reading
use liberal_os.Prelude.{
  ℕ, zero, suc, ◌+◌, ◌-◌, ◌*◌, ◌/◌, ◌%◌, ◌^◌, ◌≤◌, ◌<◌, min, ◌≡◌, refl, sym, ap, ap₂, ◌∙◌, subst,
  ◌≢◌, ◌↔◌, ◌⊎◌, inl, inr, Bool, true, false, not, ◌&&◌, ◌||◌, Option, none, some, List, [], ◌∷◌,
  ◌++◌, arith, ltb, leb, ◌==◌, if◌then◌else◌, ==_iff, ==-refl, ==-false, Bool-cases, Option-cases,
  ℤ, pos, negsuc, sub_ℕ, ◌≤ℤ◌, ◌<ℤ◌, ltb_ℤ, leb_ℤ, eqb_ℤ, eqb_ℤ_iff, length, get_elem?, get_or, set,
  take, drop, replicate, length-append, length-set, length-take, length-replicate,
  get_elem?-set_self, get_elem?-set_ne, get_or-set_self, get_or-set_ne, take-length, lt_of_le_ne,
}
use liberal_os.Fs.Itable.Refs.{iget-Got, Got, IsTable, iput-iget}
use liberal_os.Verifier.{codes}
use liberal_os.Fs.Names.Joined.{walk-join, AreNames, join}
use liberal_os.Fs.Itable.{first_with, get_entry, iput, no_inode, Inode, iget, inode_at}
use liberal_os.Fs.Names.{walk}
use liberal_os.Fs.Bitmap.Blocks.{balloc-Allotted, IsFull, bfree-balloc, Allotted}
use liberal_os.Fs.Bitmap.Alloc.{IsDisk, IsReserved}
use liberal_os.Fs.Bitmap.{scan, allot, bit, Superblock, balloc, bfree, bsize, in_use}

-- Ten blocks with the map in block 1; blocks 0 and 1 are in use.
abbrev pub ten : Superblock
ten = record { size = 10; bmapstart = 1 }

abbrev pub small_disk : ℕ → List ℕ
small_disk n = if n == 1 then set (replicate bsize 0) 0 3 else replicate bsize 0

pub small_disk-IsDisk : IsDisk small_disk
small_disk-IsDisk n = elim (Bool-cases (n == 1)) [
  | inl e ↦ rw e (length-set {A = ℕ} (replicate bsize 0) 0 3 ∙ length-replicate {A = ℕ} bsize 0)
  | inr e ↦ rw e (length-replicate {A = ℕ} bsize 0)
]

map_used : in_use ten small_disk 1 ≡ true
unfolding in_use bit
map_used = refl

boot_used : in_use ten small_disk 0 ≡ true
unfolding in_use bit
boot_used = refl

pub small_disk-IsReserved : IsReserved ten small_disk
small_disk-IsReserved =
    (boot_used, λ b h. subst (λ a. in_use ten small_disk a ≡ true) (omega arith) map_used)

gives_two : (balloc ten small_disk).0 ≡ 2
unfolding balloc allot scan in_use bit
gives_two = refl

balloc-Allotted_example :
    Allotted ten small_disk (balloc ten small_disk)
    ⊎ ((balloc ten small_disk ≡ (0, small_disk)) × IsFull ten small_disk)
balloc-Allotted_example = balloc-Allotted ten small_disk small_disk-IsDisk small_disk-IsReserved

bfree-balloc_example :
    (disk : ℕ → List ℕ) × ((bfree ten (balloc ten small_disk).0 (balloc ten small_disk).1
        ≡ some disk)
      × ((m : ℕ) → m < 10 → in_use ten disk m ≡ in_use ten small_disk m))
bfree-balloc_example =
    bfree-balloc ten small_disk small_disk-IsDisk small_disk-IsReserved
      (λ e. absurd (omega (arith, e, gives_two)))

walk-join_example :
    walk 3 (join (codes "usr" ∷ codes "a_name_that_is_long" ∷ [])) []
    ≡ some (codes "usr" ∷ codes "a_name_that_is" ∷ [])
walk-join_example =
    walk-join 3 (codes "usr" ∷ codes "a_name_that_is_long" ∷ []) [] names (omega arith)
  where
    names : AreNames (codes "usr" ∷ codes "a_name_that_is_long" ∷ [])
    names = ground arith

-- Inode 7 of device 1 with a reference, and a free entry.
abbrev two : List Inode
two = record no_inode { dev = 1; inum = 7; refs = 1; nlink = 1; valid = true } ∷ no_inode ∷ []

two-IsTable : IsTable two
two-IsTable zero zero a b d n = refl
two-IsTable zero (suc zero) a b d n = absurd (omega arith)
two-IsTable zero (suc (suc j)) a b d n = absurd (omega arith)
two-IsTable (suc zero) j a b d n = absurd (omega arith)
two-IsTable (suc (suc i)) j a b d n = absurd (omega arith)

abbrev again : ℕ × List Inode
again =
    (0, record no_inode { dev = 1; inum = 7; refs = 2; nlink = 1; valid = true } ∷ no_inode ∷ [])

gets_again : iget 1 7 two ≡ some again
unfolding iget get_entry first_with
gets_again = refl

iget-Got_example : Got two 1 7 again
iget-Got_example = iget-Got 1 7 two again two-IsTable gets_again
