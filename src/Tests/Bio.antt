-- ===== src/Tests/Bio.antt =====
-- The buffer cache on three buffers and two blocks of device 1.
use liberal_os.Prelude.{ℕ, ◌≤◌, ◌≡◌, refl, inl, true, false, some, [], ◌∷◌, arith}
use liberal_os.Bio.{Reach.start, Reach.next, Step.get, Step.release}
use liberal_os.Bio.Unique.{Reach-IsUnique, copies}
use liberal_os.Bio.{
  release, get, start, got, on_block, lock_or_wait, lock_found, recycle_here, recycle, without,
  find_or_recycle, let_go, find_block, Buf, bget, binit, brelse,
}

abbrev clean : ℕ → ℕ → Buf ℕ
clean i j = record { valid = false; dev = i; blockno = j; locked = false; refcnt = 0; block = 7 }

abbrev taken : ℕ → ℕ → Buf ℕ
taken i j = record { valid = false; dev = i; blockno = j; locked = true; refcnt = 1; block = 7 }

-- The least recently used buffer is recycled first.
recycled :
    bget 1 6 (clean 0 0 ∷ taken 1 5 ∷ clean 0 0 ∷ []) ≡ got (clean 0 0 ∷ taken 1 5 ∷ taken 1 6 ∷ [])
unfolding bget find_block find_or_recycle recycle recycle_here lock_found lock_or_wait on_block
recycled = refl

first_get : bget 1 5 (binit 3 7) ≡ got (clean 0 0 ∷ clean 0 0 ∷ taken 1 5 ∷ [])
unfolding binit bget find_block find_or_recycle recycle recycle_here lock_found lock_or_wait
    on_block
first_get = refl

first_release :
    brelse 1 5 (clean 0 0 ∷ clean 0 0 ∷ taken 1 5 ∷ [])
    ≡ some (clean 1 5 ∷ clean 0 0 ∷ clean 0 0 ∷ [])
unfolding brelse find_block let_go without
first_release = refl

Reach-IsUnique_example : copies 1 5 (clean 1 5 ∷ clean 0 0 ∷ clean 0 0 ∷ []) ≤ 1
Reach-IsUnique_example =
    Reach-IsUnique 3 7 (clean 1 5 ∷ clean 0 0 ∷ clean 0 0 ∷ [])
      (next (next start (get 1 5 (inl first_get))) (release 1 5 first_release)) 1 5 (omega arith)
