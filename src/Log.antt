-- ===== src/Log.antt =====
-- kernel/log.c. Block contents are a parameter B; the header block is its list of block numbers. A
-- routine that writes to the disk is the list of its writes, in order; a panic is none.
pub mod Crash
pub mod Group
use liberal_os.Prelude.{
  ℕ, zero, suc, ◌+◌, ◌-◌, ◌*◌, ◌/◌, ◌%◌, ◌^◌, ◌≤◌, ◌<◌, min, ◌≡◌, refl, sym, ap, ap₂, ◌∙◌, subst,
  ◌≢◌, ◌↔◌, ◌⊎◌, inl, inr, Bool, true, false, not, ◌&&◌, ◌||◌, Option, none, some, List, [], ◌∷◌,
  ◌++◌, arith, ltb, leb, ◌==◌, if◌then◌else◌, ==_iff, ==-refl, ==-false, Bool-cases, Option-cases,
  ℤ, pos, negsuc, sub_ℕ, ◌≤ℤ◌, ◌<ℤ◌, ltb_ℤ, leb_ℤ, eqb_ℤ, eqb_ℤ_iff, length, get_elem?, get_or, set,
  take, drop, replicate, length-append, length-set, length-take, length-replicate,
  get_elem?-set_self, get_elem?-set_ne, get_or-set_self, get_or-set_ne, take-length, lt_of_le_ne,
}

-- MAXOPBLOCKS and LOGBLOCKS
abbrev pub max_op_blocks : ℕ
max_op_blocks = 10

abbrev pub log_blocks : ℕ
log_blocks = max_op_blocks * 3

-- The disk: the header, the blocks of the log after it, and the blocks at home.
pub record Disk (B : Type 0) : Type 0 where
  pub header : List ℕ
  pub slots : ℕ → B
  pub home : ℕ → B

pub data Write (B : Type 0) : Type 0 where
  to_head : List ℕ → Write B
  to_slot : ℕ → B → Write B
  to_home : ℕ → B → Write B

pub record Log : Type 0 where
  pub outstanding : ℕ
  pub committing : Bool
  pub blocks : List ℕ

unfoldable pub put : {B : Type 0} → ℕ → B → (ℕ → B) → ℕ → B
put i b f j = if i == j then b else f j

-- bwrite()
unfoldable pub apply : {B : Type 0} → Write B → Disk B → Disk B
unfolding put
apply (to_head bs) d = record d { header = bs }
apply (to_slot i b) d = record d { slots = put i b d.slots }
apply (to_home i b) d = record d { home = put i b d.home }

unfoldable pub run : {B : Type 0} → List (Write B) → Disk B → Disk B
run [] d = d
run (w ∷ ws) d = run ws (apply w d)

-- The writes of install_trans() from `tail` on.
unfoldable pub install_trans : {B : Type 0} → Disk B → List ℕ → ℕ → List (Write B)
install_trans d [] tail = []
install_trans d (b ∷ bs) tail = to_home b (d.slots tail) ∷ install_trans d bs (tail + 1)

-- The writes of write_log() from `tail` on; `cache` is the buffer cache.
unfoldable pub write_log : {B : Type 0} → (ℕ → B) → List ℕ → ℕ → List (Write B)
write_log cache [] tail = []
write_log cache (b ∷ bs) tail = to_slot tail (cache b) ∷ write_log cache bs (tail + 1)

-- read_head(), install_trans(1), and the empty header
unfoldable pub recover_from_log : {B : Type 0} → Disk B → Disk B
recover_from_log d = apply (to_head []) (run (install_trans d d.header 0) d)

-- The writes of commit() for the blocks of the transaction.
unfoldable pub commit : {B : Type 0} → (ℕ → B) → List ℕ → Disk B → List (Write B)
commit cache [] d = []
commit cache (b ∷ bs) d =
    let logged = run (write_log cache (b ∷ bs) 0) d in
    write_log cache (b ∷ bs) 0
    ++ (to_head (b ∷ bs) ∷ install_trans logged (b ∷ bs) 0 ++ (to_head [] ∷ []))

-- A round of begin_op(): none to sleep on the log.
unfoldable pub begin_op : Log → Option Log
begin_op l =
    if l.committing
    then none
    else if ltb log_blocks (length l.blocks + (l.outstanding + 1) * max_op_blocks)
    then none
    else some (record l { outstanding = l.outstanding + 1 })

-- The first critical section of end_op(), and whether to commit. The C int may fall to -1, where the
-- call of begin_op() is missing; it is none here.
unfoldable pub end_op : Log → Option (Bool × Log)
end_op l =
    if l.outstanding == 0
    then none
    else if l.committing
    then none
    else if l.outstanding - 1 == 0
    then some (true, record l { outstanding = 0; committing = true })
    else some (false, record l { outstanding = l.outstanding - 1 })

-- The end of end_op() after commit().
unfoldable pub committed : Log → Log
committed l = record l { blocks = []; committing = false }

abbrev pub is_logged : ℕ → List ℕ → Bool
is_logged b [] = false
is_logged b (c ∷ cs) = c == b || is_logged b cs

unfoldable pub log_write : Log → ℕ → Option Log
log_write l b =
    if leb log_blocks (length l.blocks)
    then none
    else if ltb l.outstanding 1
    then none
    else if is_logged b l.blocks
    then some l
    else some (record l { blocks = l.blocks ++ (b ∷ []) })
