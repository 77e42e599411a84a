-- ===== src/Syscall/Rollback.antt =====
-- Rolling back to a checkpoint.
use liberal_os.Prelude.{
  ℕ, zero, suc, ◌≤◌, ◌<◌, min, ◌≡◌, refl, ap, ◌≢◌, ◌⊎◌, inl, inr, Bool, true, false, Option, none,
  some, List, [], ◌∷◌, arith, ltb, ◌==◌, if◌then◌else◌, ==-refl, ==-false, Bool-cases, ℤ, pos,
  negsuc, length, take,
}
use liberal_os.Syscall.{
  restored, restored, ckpt_max, Ckpt, save, sys_checkpoint, sys_restore, UserMem, overwrite,
}

take-overwrite :
    (n m : ℕ) (src dst : List ℕ)
    → n ≤ length src
    → n ≤ length dst
    → m ≤ n
    → take m (overwrite n src dst) ≡ take m src
unfolding overwrite
take-overwrite n zero src dst a b c = refl
take-overwrite zero (suc m) src dst a b c = absurd (omega arith)
take-overwrite (suc n) (suc m) [] dst a b c = absurd (omega arith)
take-overwrite (suc n) (suc m) (s ∷ ss) [] a b c = absurd (omega arith)
take-overwrite (suc n) (suc m) (s ∷ ss) (d ∷ ds) a b c =
    ap (◌∷◌ s) (take-overwrite n m ss ds (omega arith) (omega arith) (omega arith))

module _ (mem : UserMem) where
  -- A process that checkpoints 0 < n <= 256 readable bytes and then restores up to m > 0 of them gets
  -- back the first min(n, m) bytes of what it saved: copyout() is called with these, its memory is
  -- the memory after, also when the destination faults, and the call answers the number, or -1 for a
  -- fault.
  pub sys_restore-sys_checkpoint :
      (pid src dst n m : ℕ) (c : Ckpt) (bytes : List ℕ) (u u' : mem.State)
      → 0 < n
      → n ≤ ckpt_max
      → 0 < m
      → length c.buf ≡ ckpt_max
      → mem.copyin src n u ≡ some bytes
      → sys_restore mem pid dst (pos m) (sys_checkpoint mem pid src (pos n) c u).1 u'
        ≡ restored mem (min n m) (mem.copyout dst (take (min n m) bytes) u')
  unfolding sys_restore sys_checkpoint save
  sys_restore-sys_checkpoint pid src dst n m c bytes u u' h small k size e =
      let fits : ltb ckpt_max n ≡ false = ground arith in
      let some_bytes : (n == 0) ≡ false = ground arith in
      let least : (if ltb m n then m else n) ≡ min n m = ground arith in
      let nonzero : (min n m == 0) ≡ false = ground arith in
      let whole = mem.length-copyin src n u bytes e in
      rw
        (
          fits,
          some_bytes,
          e,
          ==-refl pid,
          least,
          nonzero,
          take-overwrite n (min n m) bytes c.buf (omega arith) (omega arith) (omega arith),
        )
        refl

  -- After a checkpoint of at most 256 readable bytes, sys_restore() by a process of another pid
  -- answers 0 for every length of at least 0 and leaves its memory as it is.
  pub sys_restore_others :
      (pid other src dst : ℕ) (n m : ℕ) (c : Ckpt) (bytes : List ℕ) (u u' : mem.State)
      → pid ≢ other
      → n ≤ ckpt_max
      → (n ≡ 0) ⊎ (mem.copyin src n u ≡ some bytes)
      → sys_restore mem other dst (pos m) (sys_checkpoint mem pid src (pos n) c u).1 u'
        ≡ (pos 0, u')
  unfolding sys_restore sys_checkpoint save
  sys_restore_others pid other src dst n m c bytes u u' ne small ok =
      let fits : ltb ckpt_max n ≡ false = ground arith in
      let nothing : (if ltb m 0 then m else 0) ≡ 0 = ground arith in
      elim ok [
        | inl e ↦ rw (fits, e, ==-false pid other ne, nothing) refl
        | inr e ↦ elim (Bool-cases (n == 0)) [
          | inl z ↦ rw (fits, z, ==-false pid other ne, nothing) refl
          | inr z ↦ rw (fits, z, e, ==-false pid other ne, nothing) refl
        ]
      ]

  save_rejected :
      (pid n : ℕ) (c : Ckpt) (o : Option (List ℕ))
      → (save mem pid n c o).0 ≡ negsuc 0
      → (save mem pid n c o).1 ≡ c
  unfolding save
  save_rejected pid n c none h = refl
  save_rejected pid n c (some tmp) h = absurd (ground arith)

  rejected_if :
      (bad : Bool) (pid n : ℕ) (c : Ckpt) (o : Option (List ℕ))
      → (if bad then (negsuc 0, c) else save mem pid n c o).0 ≡ negsuc 0
      → (if bad then (negsuc 0, c) else save mem pid n c o).1 ≡ c
  rejected_if true pid n c o h = refl
  rejected_if false pid n c o h = save_rejected pid n c o h

  -- When sys_checkpoint() answers -1, for a bad length or a fault, the checkpoint is the one of
  -- before.
  pub sys_checkpoint_rejected :
      (pid src : ℕ) (len : ℤ) (c : Ckpt) (u : mem.State)
      → (sys_checkpoint mem pid src len c u).0 ≡ negsuc 0
      → (sys_checkpoint mem pid src len c u).1 ≡ c
  unfolding sys_checkpoint save
  sys_checkpoint_rejected pid src (negsuc n) c u h = refl
  sys_checkpoint_rejected pid src (pos n) c u h =
      rejected_if (ltb ckpt_max n) pid n c (if n == 0 then some [] else mem.copyin src n u) h
