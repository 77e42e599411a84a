-- ===== src/Fs/Itable.antt =====
-- The table of inodes in memory of kernel/fs.c: iget(), idup(), iput(), and the locks of ilock() and
-- iunlock(). A pointer to an entry is its index; a panic is none.
pub mod Search
pub mod Refs
use liberal_os.Prelude.{
  ℕ, zero, suc, ◌+◌, ◌-◌, ◌*◌, ◌/◌, ◌%◌, ◌^◌, ◌≤◌, ◌<◌, min, ◌≡◌, refl, sym, ap, ap₂, ◌∙◌, subst,
  ◌≢◌, ◌↔◌, ◌⊎◌, inl, inr, Bool, true, false, not, ◌&&◌, ◌||◌, Option, none, some, List, [], ◌∷◌,
  ◌++◌, arith, ltb, leb, ◌==◌, if◌then◌else◌, ==_iff, ==-refl, ==-false, Bool-cases, Option-cases,
  ℤ, pos, negsuc, sub_ℕ, ◌≤ℤ◌, ◌<ℤ◌, ltb_ℤ, leb_ℤ, eqb_ℤ, eqb_ℤ_iff, length, get_elem?, get_or, set,
  take, drop, replicate, length-append, length-set, length-take, length-replicate,
  get_elem?-set_self, get_elem?-set_ne, get_or-set_self, get_or-set_ne, take-length, lt_of_le_ne,
}

-- The fields of struct inode but for the copy of the disk inode, of which nlink and type stand.
pub record Inode : Type 0 where
  pub dev : ℕ
  pub inum : ℕ
  pub refs : ℕ
  pub valid : Bool
  pub nlink : ℕ
  pub type : ℕ

abbrev pub no_inode : Inode
no_inode = record { dev = 0; inum = 0; refs = 0; valid = false; nlink = 0; type = 0 }

abbrev pub inode_at : List Inode → ℕ → Inode
inode_at t i = get_or t i no_inode

-- ip->ref > 0 && ip->dev == dev && ip->inum == inum
abbrev pub holds : ℕ → ℕ → Inode → Bool
holds dev inum ip = ltb 0 ip.refs && ip.dev == dev && ip.inum == inum

-- The first entry with a property, from index i on.
unfoldable pub first_with : (Inode → Bool) → List Inode → ℕ → Option ℕ
first_with p [] i = none
first_with p (ip ∷ t) i = let rest = first_with p t (i + 1) in if p ip then some i else rest

-- ip->ref++
abbrev pub one_ref_more : List Inode → ℕ → List Inode
one_ref_more t i = set t i (record (inode_at t i) { refs = (inode_at t i).refs + 1 })

-- The recycled entry.
abbrev pub reused : ℕ → ℕ → Inode → Inode
reused dev inum ip = record ip { dev = dev; inum = inum; refs = 1; valid = false }

unfoldable pub reuse : ℕ → ℕ → List Inode → Option ℕ → Option (ℕ × List Inode)
reuse dev inum t none = none
reuse dev inum t (some i) = some (i, set t i (reused dev inum (inode_at t i)))

unfoldable pub get_entry : ℕ → ℕ → List Inode → Option ℕ → Option (ℕ × List Inode)
get_entry dev inum t (some i) = some (i, one_ref_more t i)
get_entry dev inum t none = reuse dev inum t (first_with (λ ip. ip.refs == 0) t 0)

unfoldable pub iget : ℕ → ℕ → List Inode → Option (ℕ × List Inode)
iget dev inum t = get_entry dev inum t (first_with (holds dev inum) t 0)

unfoldable pub idup : ℕ → List Inode → List Inode
idup i t = one_ref_more t i

-- if(ip->ref == 1 && ip->valid && ip->nlink == 0)
unfoldable pub is_last : Inode → Bool
is_last ip = ip.refs == 1 && ip.valid && ip.nlink == 0

-- ip->type = 0; ip->valid = 0; in the branch that gives the disk inode back.
abbrev pub given_back : Inode → Inode
given_back ip = if is_last ip then record ip { type = 0; valid = false } else ip

-- The table after iput(), and whether the inode and its blocks were given back to the disk.
unfoldable pub iput : ℕ → List Inode → Bool × List Inode
iput i t =
    let ip = given_back (inode_at t i) in
    (is_last (inode_at t i), set t i (record ip { refs = ip.refs - 1 }))
