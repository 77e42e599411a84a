-- ===== src/Log/Crash.antt =====
-- A crash between any two disk writes of commit().
use liberal_os.Prelude.{
  ℕ, zero, suc, ◌+◌, ◌<◌, ◌≡◌, refl, sym, ap, ◌∙◌, ◌⊎◌, inl, inr, Bool, true, false, ◌||◌, List, [],
  ◌∷◌, ◌++◌, arith, ◌==◌, if◌then◌else◌, ==_iff, ==-refl, ==-false, Bool-cases, take,
}
use mathlib.Core.Bool.{true≢false}
use liberal_os.Log.{
  commit, recover_from_log, to_home, to_slot, to_head, to_home, put, to_slot, apply, Write,
  install_trans, write_log, run, Disk, is_logged,
}

abbrev pub AllIn : List ℕ → List ℕ → Type 0
AllIn [] all = true ≡ true
AllIn (b ∷ bs) all = (is_logged b all ≡ true) × AllIn bs all

AllIn-cons : (c : ℕ) (bs all : List ℕ) → AllIn bs all → AllIn bs (c ∷ all)
AllIn-cons c [] all h = refl
AllIn-cons c (b ∷ bs) all h = (ground (arith, h.0), AllIn-cons c bs all h.1)

AllIn-self : (all : List ℕ) → AllIn all all
AllIn-self [] = refl
AllIn-self (b ∷ bs) = (rw (==-refl b) refl, AllIn-cons b bs bs (AllIn-self bs))

module _ {B : Type 0} where
  -- The log holds what the cache holds of the blocks.
  abbrev pub Holds : (ℕ → B) → List ℕ → ℕ → (ℕ → B) → Type 0
  Holds cache [] tail slots = true ≡ true
  Holds cache (b ∷ bs) tail slots = (slots tail ≡ cache b) × Holds cache bs (tail + 1) slots

  -- The blocks at home once the transaction is installed.
  abbrev pub installed : (ℕ → B) → List ℕ → (ℕ → B) → ℕ → B
  installed cache bs home a = if is_logged a bs then cache a else home a

  run-append : (ws vs : List (Write B)) (d : Disk B) → run (ws ++ vs) d ≡ run vs (run ws d)
  unfolding run
  run-append [] vs d = refl
  run-append (w ∷ ws) vs d = run-append ws vs (apply w d)

  either_way : (q : Bool) (x : B) → (if q then x else x) ≡ x
  either_way true x = refl
  either_way false x = refl

  one :
      (cache : ℕ → B) (b a : ℕ) (home : ℕ → B) (bs : List ℕ)
      → (if is_logged a bs then cache a else (if b == a then cache b else home a))
        ≡ (if b == a || is_logged a bs then cache a else home a)
  one cache b a home bs = elim (Bool-cases (b == a)) [
    | inl e ↦ rw (e, ap cache ((==_iff b a).0 e)) (either_way (is_logged a bs) (cache a))
    | inr e ↦ rw e refl
  ]

  -- Installing twice, or after a part of the install, is installing once.
  run-install_trans :
      (cache : ℕ → B) (bs : List ℕ) (tail : ℕ) (e d : Disk B)
      → Holds cache bs tail e.slots
      → (a : ℕ) → (run (install_trans e bs tail) d).home a ≡ installed cache bs d.home a
  unfolding run install_trans apply put
  run-install_trans cache [] tail e d h a = refl
  run-install_trans cache (b ∷ bs) tail e d h a =
      run-install_trans cache bs (tail + 1) e (apply (to_home b (e.slots tail)) d) h.1 a
      ∙ rw h.0 (one cache b a d.home bs)

  write_log-home :
      (cache : ℕ → B) (bs : List ℕ) (tail : ℕ) (d : Disk B)
      → (run (write_log cache bs tail) d).home ≡ d.home
  unfolding run write_log apply
  write_log-home cache [] tail d = refl
  write_log-home cache (b ∷ bs) tail d =
      write_log-home cache bs (tail + 1) (apply (to_slot tail (cache b)) d)

  write_log-header :
      (cache : ℕ → B) (bs : List ℕ) (tail : ℕ) (d : Disk B)
      → (run (write_log cache bs tail) d).header ≡ d.header
  unfolding run write_log apply
  write_log-header cache [] tail d = refl
  write_log-header cache (b ∷ bs) tail d =
      write_log-header cache bs (tail + 1) (apply (to_slot tail (cache b)) d)

  write_log_below :
      (cache : ℕ → B) (bs : List ℕ) (tail i : ℕ) (d : Disk B)
      → i < tail
      → (run (write_log cache bs tail) d).slots i ≡ d.slots i
  unfolding run write_log apply put
  write_log_below cache [] tail i d h = refl
  write_log_below cache (b ∷ bs) tail i d h =
      write_log_below cache bs (tail + 1) i (apply (to_slot tail (cache b)) d) (omega arith)
      ∙ rw (==-false tail i (λ e. absurd (omega arith))) refl

  write_log-Holds :
      (cache : ℕ → B) (bs : List ℕ) (tail : ℕ) (d : Disk B)
      → Holds cache bs tail (run (write_log cache bs tail) d).slots
  unfolding run write_log apply put
  write_log-Holds cache [] tail slots = refl
  write_log-Holds cache (b ∷ bs) tail d = (
    write_log_below cache bs (tail + 1) tail (apply (to_slot tail (cache b)) d) (omega arith)
        ∙ rw (==-refl tail) refl,
    write_log-Holds cache bs (tail + 1) (apply (to_slot tail (cache b)) d),
  )

  -- The property holds before the writes and after each of them.
  abbrev pub Always : (Disk B → Type 0) → List (Write B) → Disk B → Type 0
  Always P [] d = P d
  Always P (w ∷ ws) d = P d × Always P ws (apply w d)

  Always-append :
      (P : Disk B → Type 0) (ws vs : List (Write B)) (d : Disk B)
      → Always P ws d
      → Always P vs (run ws d)
      → Always P (ws ++ vs) d
  unfolding run
  Always-append P [] vs d a b = b
  Always-append P (w ∷ ws) vs d a b = (a.0, Always-append P ws vs (apply w d) a.1 b)

  Always-take :
      (P : Disk B → Type 0) (ws : List (Write B)) (d : Disk B)
      → Always P ws d
      → (k : ℕ) → P (run (take k ws) d)
  unfolding run
  Always-take P [] d a zero = a
  Always-take P [] d a (suc k) = a
  Always-take P (w ∷ ws) d a zero = a.0
  Always-take P (w ∷ ws) d a (suc k) = Always-take P ws (apply w d) a.1 k

  -- Recovery gives the old blocks, or gives those of the transaction.
  abbrev pub OldOrNew : (ℕ → B) → List ℕ → (ℕ → B) → Disk B → Type 0
  OldOrNew cache bs home d =
      ((a : ℕ) → (recover_from_log d).home a ≡ home a)
      ⊎ ((a : ℕ) → (recover_from_log d).home a ≡ installed cache bs home a)

  -- With an empty header recovery changes no block.
  cleared : (d : Disk B) → d.header ≡ [] → (recover_from_log d).home ≡ d.home
  unfolding recover_from_log apply run install_trans
  cleared d e = rw e refl

  write_log-OldOrNew :
      (cache : ℕ → B) (all bs : List ℕ) (tail : ℕ) (home : ℕ → B) (d : Disk B)
      → d.header ≡ []
      → ((a : ℕ) → d.home a ≡ home a)
      → Always (OldOrNew cache all home) (write_log cache bs tail) d
  unfolding write_log apply
  write_log-OldOrNew cache all [] tail home d e h = inl (λ a. rw (cleared d e) (h a))
  write_log-OldOrNew cache all (b ∷ bs) tail home d e h = (
    inl (λ a. rw (cleared d e) (h a)),
    write_log-OldOrNew cache all bs (tail + 1) home (apply (to_slot tail (cache b)) d) e h,
  )

  -- Off the blocks of the transaction the home is untouched.
  abbrev pub SameOff : List ℕ → (ℕ → B) → Disk B → Type 0
  SameOff all home d = (a : ℕ) → is_logged a all ≡ false → d.home a ≡ home a

  agree :
      (cache : ℕ → B) (all : List ℕ) (f g : ℕ → B) (a : ℕ)
      → (is_logged a all ≡ false → f a ≡ g a)
      → installed cache all f a ≡ installed cache all g a
  agree cache all f g a s = elim (Bool-cases (is_logged a all)) [
    | inl q ↦ rw q refl
    | inr q ↦ rw q (s q)
  ]

  -- With the header on disk, recovery installs the transaction.
  replayed :
      (cache : ℕ → B) (all : List ℕ) (home : ℕ → B) (d : Disk B)
      → d.header ≡ all
      → Holds cache all 0 d.slots
      → SameOff all home d
      → OldOrNew cache all home d
  unfolding recover_from_log apply
  replayed cache all home d e h s = inr (λ a.
      ap (λ bs. (run (install_trans d bs 0) d).home a) e
      ∙ run-install_trans cache all 0 d d h a
      ∙ agree cache all d.home home a (s a))

  Always-run :
      (P : Disk B → Type 0) (ws : List (Write B)) (d : Disk B) → Always P ws d → P (run ws d)
  unfolding run
  Always-run P [] d a = a
  Always-run P (w ∷ ws) d a = Always-run P ws (apply w d) a.1

  put_same :
      (b a : ℕ) (x y : B) (all : List ℕ)
      → is_logged b all ≡ true
      → is_logged a all ≡ false
      → (if b == a then x else y) ≡ y
  put_same b a x y all p q = elim (Bool-cases (b == a)) [
    | inl e ↦ absurd (true≢false (sym p ∙ ap (λ c. is_logged c all) ((==_iff b a).0 e) ∙ q))
    | inr e ↦ rw e refl
  ]

  install_trans-OldOrNew :
      (cache : ℕ → B) (all bs : List ℕ) (tail : ℕ) (home : ℕ → B) (e d : Disk B)
      → d.header ≡ all
      → Holds cache all 0 d.slots
      → SameOff all home d
      → AllIn bs all
      → Always (OldOrNew cache all home) (install_trans e bs tail) d
  unfolding install_trans apply put
  install_trans-OldOrNew cache all [] tail home e d eq h s i = replayed cache all home d eq h s
  install_trans-OldOrNew cache all (b ∷ bs) tail home e d eq h s i = (
    replayed cache all home d eq h s,
    install_trans-OldOrNew cache all bs (tail + 1) home e (apply (to_home b (e.slots tail)) d) eq h
        (λ a n. put_same b a (e.slots tail) (d.home a) all i.0 n ∙ s a n) i.1,
  )

  erased :
      (cache : ℕ → B) (all : List ℕ) (home : ℕ → B) (e d : Disk B)
      → Holds cache all 0 e.slots
      → SameOff all home d
      → OldOrNew cache all home (apply (to_head []) (run (install_trans e all 0) d))
  unfolding apply
  erased cache all home e d h s = inr (λ a.
      rw (cleared (apply (to_head []) (run (install_trans e all 0) d)) refl)
        (run-install_trans cache all 0 e d h a ∙ agree cache all d.home home a (s a)))

  committing :
      (cache : ℕ → B) (all : List ℕ) (home : ℕ → B) (d : Disk B)
      → d.header ≡ []
      → Holds cache all 0 d.slots
      → ((a : ℕ) → d.home a ≡ home a)
      → Always
          (OldOrNew cache all home)
          (to_head all ∷ install_trans d all 0 ++ (to_head [] ∷ []))
          d
  unfolding apply
  committing cache all home d e h s =
      let marked = apply (to_head all) d in
      let safe =
        install_trans-OldOrNew cache all all 0 home d marked refl h (λ a n. s a) (AllIn-self all) in
      (
        inl (λ a. rw (cleared d e) (s a)),
        Always-append (OldOrNew cache all home) (install_trans d all 0) (to_head [] ∷ []) marked
            safe
            (
              Always-run (OldOrNew cache all home) (install_trans d all 0) marked safe,
              erased cache all home d marked h (λ a n. s a),
            ),
      )

  commit-Always :
      (cache : ℕ → B) (bs : List ℕ) (d : Disk B)
      → d.header ≡ []
      → Always (OldOrNew cache bs d.home) (commit cache bs d) d
  unfolding commit
  commit-Always cache [] d e = inl (λ a. rw (cleared d e) refl)
  commit-Always cache (b ∷ bs) d e =
      let all = b ∷ bs in
      let logged = run (write_log cache all 0) d in
      Always-append (OldOrNew cache all d.home) (write_log cache all 0)
        (to_head all ∷ install_trans logged all 0 ++ (to_head [] ∷ [])) d
        (write_log-OldOrNew cache all all 0 d.home d e (λ a. refl))
        (committing cache all d.home logged (write_log-header cache all 0 d ∙ e)
          (write_log-Holds cache all 0 d) (λ a. rw (write_log-home cache all 0 d) refl))

  -- Whenever commit() is cut off, after any number of its disk writes, recovery leaves at home either
  -- every block as before the transaction or every block as the transaction wrote it, if the header
  -- on disk was empty before.
  pub commit-OldOrNew :
      (cache : ℕ → B) (bs : List ℕ) (d : Disk B) (k : ℕ)
      → d.header ≡ []
      → OldOrNew cache bs d.home (run (take k (commit cache bs d)) d)
  commit-OldOrNew cache bs d k e =
      Always-take (OldOrNew cache bs d.home) (commit cache bs d) d (commit-Always cache bs d e) k
