-- ===== src/Bio.antt =====
-- kernel/bio.c: the buffer cache. The circular list is the list of the buffers from head.next, the
-- most recently used one first; B is the contents of a block, the disk a function of device and
-- block number. locked is the sleeplock of a buffer, refcnt
-- counts its users and those who wait for it. A panic is none.
pub mod Unique
use liberal_os.Prelude.{
  ℕ, zero, suc, ◌+◌, ◌-◌, ◌*◌, ◌/◌, ◌%◌, ◌^◌, ◌≤◌, ◌<◌, min, ◌≡◌, refl, sym, ap, ap₂, ◌∙◌, subst,
  ◌≢◌, ◌↔◌, ◌⊎◌, inl, inr, Bool, true, false, not, ◌&&◌, ◌||◌, Option, none, some, List, [], ◌∷◌,
  ◌++◌, arith, ltb, leb, ◌==◌, if◌then◌else◌, ==_iff, ==-refl, ==-false, Bool-cases, Option-cases,
  ℤ, pos, negsuc, sub_ℕ, ◌≤ℤ◌, ◌<ℤ◌, ltb_ℤ, leb_ℤ, eqb_ℤ, eqb_ℤ_iff, length, get_elem?, get_or, set,
  take, drop, replicate, length-append, length-set, length-take, length-replicate,
  get_elem?-set_self, get_elem?-set_ne, get_or-set_self, get_or-set_ne, take-length, lt_of_le_ne,
}

pub record Buf (B : Type 0) : Type 0 where
  pub valid : Bool
  pub dev : ℕ
  pub blockno : ℕ
  pub locked : Bool
  pub refcnt : ℕ
  pub block : B

pub record Bcache (B : Type 0) : Type 0 where
  pub bufs : List (Buf B)
  pub disk : ℕ → ℕ → B

-- What bget() comes to: a panic, a wait for the holder of the buffer, or the buffer locked.
pub data Got (B : Type 0) : Type 0 where
  panics : Got B
  waits : List (Buf B) → Got B
  got : List (Buf B) → Got B

module _ {B : Type 0} where
  -- b->dev == dev && b->blockno == blockno
  abbrev pub is_block : ℕ → ℕ → Buf B → Bool
  is_block dev blockno b = b.dev == dev && b.blockno == blockno

  unfoldable pub find_block : ℕ → ℕ → List (Buf B) → Option (Buf B)
  find_block dev blockno [] = none
  find_block dev blockno (b ∷ bs) =
      let rest = find_block dev blockno bs in if is_block dev blockno b then some b else rest

  -- Applies a change to the first buffer of a block.
  unfoldable pub on_block : ℕ → ℕ → (Buf B → Buf B) → List (Buf B) → List (Buf B)
  on_block dev blockno f [] = []
  on_block dev blockno f (b ∷ bs) =
      let rest = b ∷ on_block dev blockno f bs in if is_block dev blockno b then f b ∷ bs else rest

  -- The last buffer without a reference becomes that of the block.
  abbrev pub renew : ℕ → ℕ → Buf B → Buf B
  renew dev blockno b = record b { dev = dev; blockno = blockno; valid = false; refcnt = 1 }

  unfoldable pub recycle_here :
      ℕ → ℕ → Buf B → List (Buf B) → Option (List (Buf B)) → Option (List (Buf B))
  recycle_here dev blockno b bs (some bs') = some (b ∷ bs')
  recycle_here dev blockno b bs none =
      if b.refcnt == 0 then some (renew dev blockno b ∷ bs) else none

  unfoldable pub recycle : ℕ → ℕ → List (Buf B) → Option (List (Buf B))
  recycle dev blockno [] = none
  recycle dev blockno (b ∷ bs) = recycle_here dev blockno b bs (recycle dev blockno bs)

  abbrev pub one_more : Buf B → Buf B
  one_more b = record b { refcnt = b.refcnt + 1 }

  abbrev pub one_less : Buf B → Buf B
  one_less b = record b { refcnt = b.refcnt - 1 }

  abbrev pub lock_buf : Buf B → Buf B
  lock_buf b = record b { locked = true }

  -- The part of bget() under bcache.lock.
  unfoldable pub find_or_recycle : ℕ → ℕ → List (Buf B) → Option (Buf B) → Option (List (Buf B))
  find_or_recycle dev blockno bs (some b) = some (on_block dev blockno one_more bs)
  find_or_recycle dev blockno bs none = recycle dev blockno bs

  -- acquiresleep(&b->lock)
  unfoldable pub lock_or_wait : ℕ → ℕ → List (Buf B) → Option (Buf B) → Got B
  lock_or_wait dev blockno bs none = panics
  lock_or_wait dev blockno bs (some b) =
      if b.locked then waits bs else got (on_block dev blockno lock_buf bs)

  unfoldable pub lock_found : ℕ → ℕ → Option (List (Buf B)) → Got B
  lock_found dev blockno none = panics
  lock_found dev blockno (some bs) = lock_or_wait dev blockno bs (find_block dev blockno bs)

  unfoldable pub bget : ℕ → ℕ → List (Buf B) → Got B
  bget dev blockno bs =
      lock_found dev blockno (find_or_recycle dev blockno bs (find_block dev blockno bs))

  -- if(!b->valid) { virtio_disk_rw(b, 0); b->valid = 1; }
  unfoldable pub fill_buf : B → Buf B → Buf B
  fill_buf d b = if b.valid then b else record b { block = d; valid = true }

  unfoldable pub fill_got : ℕ → ℕ → B → Got B → Got B
  fill_got dev blockno d panics = panics
  fill_got dev blockno d (waits bs) = waits bs
  fill_got dev blockno d (got bs) = got (on_block dev blockno (fill_buf d) bs)

  unfoldable pub bread : ℕ → ℕ → Bcache B → Got B
  bread dev blockno c = fill_got dev blockno (c.disk dev blockno) (bget dev blockno c.bufs)

  unfoldable pub put_block : (ℕ → ℕ → B) → ℕ → ℕ → B → ℕ → ℕ → B
  put_block disk dev blockno d i j = if i == dev && j == blockno then d else disk i j

  unfoldable pub write_out : ℕ → ℕ → Bcache B → Option (Buf B) → Option (Bcache B)
  write_out dev blockno c none = none
  write_out dev blockno c (some b) =
      if b.locked then some (record c { disk = put_block c.disk dev blockno b.block }) else none

  -- bwrite() of the buffer of a block.
  unfoldable pub bwrite : ℕ → ℕ → Bcache B → Option (Bcache B)
  bwrite dev blockno c = write_out dev blockno c (find_block dev blockno c.bufs)

  unfoldable pub without : ℕ → ℕ → List (Buf B) → List (Buf B)
  without dev blockno [] = []
  without dev blockno (b ∷ bs) =
      let rest = b ∷ without dev blockno bs in if is_block dev blockno b then bs else rest

  -- releasesleep(&b->lock); b->refcnt--;
  abbrev pub unheld : Buf B → Buf B
  unheld b = record b { refcnt = b.refcnt - 1; locked = false }

  unfoldable pub let_go : ℕ → ℕ → List (Buf B) → Option (Buf B) → Option (List (Buf B))
  let_go dev blockno bs none = none
  let_go dev blockno bs (some b) =
      if not b.locked
      then none
      else if b.refcnt - 1 == 0
      then some (unheld b ∷ without dev blockno bs)
      else some (on_block dev blockno unheld bs)

  -- brelse() of the buffer of a block.
  unfoldable pub brelse : ℕ → ℕ → List (Buf B) → Option (List (Buf B))
  brelse dev blockno bs = let_go dev blockno bs (find_block dev blockno bs)

  unfoldable pub bpin : ℕ → ℕ → List (Buf B) → List (Buf B)
  bpin dev blockno bs = on_block dev blockno one_more bs

  unfoldable pub bunpin : ℕ → ℕ → List (Buf B) → List (Buf B)
  bunpin dev blockno bs = on_block dev blockno one_less bs

  -- binit(): NBUF buffers of static storage.
  unfoldable pub binit : ℕ → B → List (Buf B)
  binit nbuf d =
      replicate nbuf
        (record { valid = false; dev = 0; blockno = 0; locked = false; refcnt = 0; block = d })

  abbrev pub rewritten : B → Buf B → Buf B
  rewritten d b = record b { block = d }

-- One call of the buffer cache, or the end of a wait for a buffer's lock; a holder that writes to the
-- contents of its buffer is modify.
pub data Step {B : Type 0} (bs cs : List (Buf B)) : Type 0 where
  get :
      (dev blockno : ℕ)
      → (bget dev blockno bs ≡ got cs) ⊎ (bget dev blockno bs ≡ waits cs)
      → Step bs cs
  wake :
      (dev blockno : ℕ)
      → lock_or_wait dev blockno bs (find_block dev blockno bs) ≡ got cs
      → Step bs cs
  fill : (dev blockno : ℕ) (d : B) → cs ≡ on_block dev blockno (fill_buf d) bs → Step bs cs
  modify : (dev blockno : ℕ) (d : B) → cs ≡ on_block dev blockno (rewritten d) bs → Step bs cs
  release : (dev blockno : ℕ) → brelse dev blockno bs ≡ some cs → Step bs cs
  pin : (dev blockno : ℕ) → cs ≡ bpin dev blockno bs → Step bs cs
  unpin : (dev blockno : ℕ) → cs ≡ bunpin dev blockno bs → Step bs cs

pub data Reach {B : Type 0} (s : List (Buf B)) : List (Buf B) → Type 0 where
  start : Reach s s
  next : {bs cs : List (Buf B)} → Reach s bs → Step bs cs → Reach s cs
