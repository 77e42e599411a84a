-- ===== src/Fs/Reading.antt =====
-- kernel/fs.c: readi(). Whether a copy to the destination succeeds is an argument, by the count of the
-- bytes copied before; what is copied is the list of the bytes. A panic is none.
pub mod Bytewise
use liberal_os.Prelude.{
  ℕ, zero, suc, ◌+◌, ◌-◌, ◌*◌, ◌/◌, ◌%◌, ◌^◌, ◌≤◌, ◌<◌, min, ◌≡◌, refl, sym, ap, ap₂, ◌∙◌, subst,
  ◌≢◌, ◌↔◌, ◌⊎◌, inl, inr, Bool, true, false, not, ◌&&◌, ◌||◌, Option, none, some, List, [], ◌∷◌,
  ◌++◌, arith, ltb, leb, ◌==◌, if◌then◌else◌, ==_iff, ==-refl, ==-false, Bool-cases, Option-cases,
  ℤ, pos, negsuc, sub_ℕ, ◌≤ℤ◌, ◌<ℤ◌, ltb_ℤ, leb_ℤ, eqb_ℤ, eqb_ℤ_iff, length, get_elem?, get_or, set,
  take, drop, replicate, length-append, length-set, length-take, length-replicate,
  get_elem?-set_self, get_elem?-set_ne, get_or-set_self, get_or-set_ne, take-length, lt_of_le_ne,
}
use liberal_os.Fs.Bitmap.{Superblock}
use liberal_os.Fs.Content.{LockedInode, bmap}

-- The count, or none for -1, the bytes copied and the file.
abbrev pub ReadResult : Type 0
ReadResult = Option ℕ × (List ℕ × LockedInode)

-- m bytes from bp->data + o on
unfoldable pub piece : List ℕ → ℕ → ℕ → List ℕ
piece b o zero = []
piece b o (suc m) = get_or b o 0 ∷ piece b (o + 1) m

unfoldable pub after_piece : List ℕ → Option ReadResult → Option ReadResult
after_piece bytes none = none
after_piece bytes (some (tot, (rest, s))) = some (tot, (bytes ++ rest, s))

-- A round, for the answer of bmap().
unfoldable pub read_block :
    (ℕ → Bool)
    → (ℕ → LockedInode → Option ReadResult)
    → ℕ
    → ℕ
    → ℕ
    → Option (ℕ × LockedInode)
    → Option ReadResult
read_block copies next tot off n none = none
read_block copies next tot off n (some (addr, s)) =
    if addr == 0
    then some (some tot, ([], s))
    else if copies tot
    then after_piece (piece (s.disk addr) (off % 1024) (min (n - tot) (1024 - off % 1024)))
        (next (min (n - tot) (1024 - off % 1024)) s)
    else some (none, ([], s))

-- The loop of readi(), in at most `fuel` rounds.
unfoldable pub read_blocks :
    Superblock → (ℕ → Bool) → ℕ → ℕ → ℕ → ℕ → LockedInode → Option ReadResult
read_blocks sb copies zero tot off n s = some (some tot, ([], s))
read_blocks sb copies (suc fuel) tot off n s =
    let round =
      read_block copies (λ m s'. read_blocks sb copies fuel (tot + m) (off + m) n s') tot off n
        (bmap sb (off / 1024) s) in
    if ltb tot n then round else some (some tot, ([], s))

-- A round copies a byte at least, so n rounds are enough.
unfoldable pub readi : Superblock → (ℕ → Bool) → ℕ → ℕ → LockedInode → Option ReadResult
readi sb copies off n s =
    if ltb s.ip.size off || ltb ((off + n) % 2 ^ 32) off
    then some (some 0, ([], s))
    else if ltb s.ip.size ((off + n) % 2 ^ 32)
    then read_blocks sb copies (s.ip.size - off) 0 off (s.ip.size - off) s
    else read_blocks sb copies n 0 off n s
