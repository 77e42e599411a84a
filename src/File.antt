-- ===== src/File.antt =====
-- kernel/file.c: the table of open files and its reference counts. A file is its index in the table;
-- a panic is none. What fileclose() does after it let go of the table is a value.
pub mod Counts
use liberal_os.Prelude.{
  ℕ, zero, suc, ◌+◌, ◌-◌, ◌*◌, ◌/◌, ◌%◌, ◌^◌, ◌≤◌, ◌<◌, min, ◌≡◌, refl, sym, ap, ap₂, ◌∙◌, subst,
  ◌≢◌, ◌↔◌, ◌⊎◌, inl, inr, Bool, true, false, not, ◌&&◌, ◌||◌, Option, none, some, List, [], ◌∷◌,
  ◌++◌, arith, ltb, leb, ◌==◌, if◌then◌else◌, ==_iff, ==-refl, ==-false, Bool-cases, Option-cases,
  ℤ, pos, negsuc, sub_ℕ, ◌≤ℤ◌, ◌<ℤ◌, ltb_ℤ, leb_ℤ, eqb_ℤ, eqb_ℤ_iff, length, get_elem?, get_or, set,
  take, drop, replicate, length-append, length-set, length-take, length-replicate,
  get_elem?-set_self, get_elem?-set_ne, get_or-set_self, get_or-set_ne, take-length, lt_of_le_ne,
}

-- FD_NONE, FD_PIPE, FD_INODE, FD_DEVICE
pub data FileType : Type 0 where
  fd_none fd_pipe fd_inode fd_device : FileType

pub record File : Type 0 where
  pub type : FileType
  pub ref : ℕ
  pub readable : Bool
  pub writable : Bool
  pub pipe : ℕ
  pub ip : ℕ
  pub off : ℕ
  pub major : ℕ

-- The first file without a reference, counted from i.
unfoldable pub find_file : List File → ℕ → Option ℕ
find_file [] i = none
find_file (f ∷ fs) i = let rest = find_file fs (i + 1) in if f.ref == 0 then some i else rest

abbrev pub with_ref : List File → ℕ → ℕ → List File
with_ref [] i r = []
with_ref (f ∷ fs) zero r = record f { ref = r } ∷ fs
with_ref (f ∷ fs) (suc i) r = f ∷ with_ref fs i r

abbrev pub ref_of : List File → ℕ → ℕ
ref_of [] i = 0
ref_of (f ∷ fs) zero = f.ref
ref_of (f ∷ fs) (suc i) = ref_of fs i

unfoldable pub claim : List File → Option ℕ → Option ℕ × List File
claim fs none = (none, fs)
claim fs (some i) = (some i, with_ref fs i 1)

-- The index, or none for a null pointer.
unfoldable pub filealloc : List File → Option ℕ × List File
filealloc fs = claim fs (find_file fs 0)

unfoldable pub filedup : List File → ℕ → Option (List File)
filedup fs i = if ltb (ref_of fs i) 1 then none else some (with_ref fs i (ref_of fs i + 1))

-- What is left to do for a file that lost its last reference.
pub data Release : Type 0 where
  nothing : Release
  close_pipe : ℕ → Bool → Release
  put_inode : ℕ → Release

unfoldable pub release_of : FileType → File → Release
release_of fd_none f = nothing
release_of fd_pipe f = close_pipe f.pipe f.writable
release_of fd_inode f = put_inode f.ip
release_of fd_device f = put_inode f.ip

-- The file at i gives up its last reference.
unfoldable pub clear_file : List File → ℕ → List File
clear_file [] i = []
clear_file (f ∷ fs) zero = record f { ref = 0; type = fd_none } ∷ fs
clear_file (f ∷ fs) (suc i) = f ∷ clear_file fs i

unfoldable pub release_at : List File → ℕ → Release
release_at [] i = nothing
release_at (f ∷ fs) zero = release_of f.type f
release_at (f ∷ fs) (suc i) = release_at fs i

unfoldable pub fileclose : List File → ℕ → Option (Release × List File)
fileclose fs i =
    if ltb (ref_of fs i) 1
    then none
    else if ltb 0 (ref_of fs i - 1)
    then some (nothing, with_ref fs i (ref_of fs i - 1))
    else some (release_at fs i, clear_file fs i)
