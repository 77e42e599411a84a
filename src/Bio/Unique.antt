-- ===== src/Bio/Unique.antt =====
-- kernel/bio.c: no block of a device has two buffers.
use liberal_os.Prelude.{
  ℕ, zero, suc, ◌+◌, ◌-◌, ◌≤◌, ◌≡◌, refl, sym, ap, subst, ◌≢◌, ◌⊎◌, inl, inr, Bool, true, false,
  ◌&&◌, Option, none, some, List, [], ◌∷◌, arith, ◌==◌, if◌then◌else◌, ==_iff, ==-false, Bool-cases,
  Option-cases, replicate,
}
use mathlib.Core.Path.{subst₂}
use liberal_os.Bio.{
  one_less, rewritten, Step.get, Step.wake, Step.fill, Step.modify, Step.release, Step.pin,
  Step.unpin, Reach.start, Reach.next,
}
use liberal_os.Bio.{
  lock_buf, Step, waits, bunpin, got, Reach, bget, bpin, fill_buf, lock_found, lock_or_wait,
  one_more, unheld, let_go, binit, brelse, find_or_recycle, is_block, recycle_here, without, Buf,
  find_block, on_block, recycle,
}

abbrev one_if : Bool → ℕ
one_if true = 1
one_if false = 0

module _ {B : Type 0} where
  -- The number of buffers that are the block's.
  abbrev pub copies : ℕ → ℕ → List (Buf B) → ℕ
  copies i j [] = 0
  copies i j (b ∷ bs) = one_if (is_block i j b) + copies i j bs

  -- Each block of a device other than 0 has at most one buffer.
  abbrev pub IsUnique : List (Buf B) → Type 0
  IsUnique bs = (i j : ℕ) → 1 ≤ i → copies i j bs ≤ 1

  abbrev KeepsBlock : (Buf B → Buf B) → Type 0
  KeepsBlock f = (i j : ℕ) (b : Buf B) → is_block i j (f b) ≡ is_block i j b

  copies-on_block :
      (dev blockno i j : ℕ) (f : Buf B → Buf B) (bs : List (Buf B))
      → KeepsBlock f
      → copies i j (on_block dev blockno f bs) ≡ copies i j bs
  unfolding on_block
  copies-on_block dev blockno i j f [] k = refl
  copies-on_block dev blockno i j f (b ∷ bs) k = elim (Bool-cases (is_block dev blockno b)) [
    | inl e ↦ rw (e, k i j b) refl
    | inr e ↦ rw (e, copies-on_block dev blockno i j f bs k) refl
  ]

  IsUnique-some : {xs cs : List (Buf B)} → some xs ≡ some cs → IsUnique xs → IsUnique cs
  IsUnique-some {xs} {cs} h u = let e : xs ≡ cs = ground arith in subst IsUnique e u

  on_block-IsUnique :
      (dev blockno : ℕ) (f : Buf B → Buf B) (bs : List (Buf B))
      → KeepsBlock f
      → IsUnique bs
      → IsUnique (on_block dev blockno f bs)
  on_block-IsUnique dev blockno f bs k u i j l =
      subst (λ n. n ≤ 1) (sym (copies-on_block dev blockno i j f bs k)) (u i j l)

  copies-without :
      (dev blockno i j : ℕ) (bs : List (Buf B)) (b : Buf B)
      → find_block dev blockno bs ≡ some b
      → one_if (is_block i j b) + copies i j (without dev blockno bs) ≡ copies i j bs
  unfolding find_block without
  copies-without dev blockno i j [] b h = absurd (ground arith)
  copies-without dev blockno i j (a ∷ bs) b h = elim (Bool-cases (is_block dev blockno a)) [
    | inl e ↦ rw (e, ap (is_block i j) (a_is_b e)) refl
    | inr e ↦ rw e (omega (arith, copies-without dev blockno i j bs b (later e)))
  ]
    where
      a_is_b : is_block dev blockno a ≡ true → b ≡ a
      a_is_b e = cc (subst (λ q. (if q then some a else find_block dev blockno bs) ≡ some b) e h)

      later : is_block dev blockno a ≡ false → find_block dev blockno bs ≡ some b
      later e = subst (λ q. (if q then some a else find_block dev blockno bs) ≡ some b) e h

  copies-not_found :
      (dev blockno : ℕ) (bs : List (Buf B))
      → find_block dev blockno bs ≡ none
      → copies dev blockno bs ≡ 0
  unfolding find_block
  copies-not_found dev blockno [] h = refl
  copies-not_found dev blockno (b ∷ bs) h = elim (Bool-cases (is_block dev blockno b)) [
    | inl e ↦ absurd (ground arith)
    | inr e ↦ rw e (omega (arith, copies-not_found dev blockno bs (ground arith)))
  ]

  -- Recycling a buffer adds one for the block and none for another.
  copies-recycle :
      (dev blockno i j : ℕ) (bs cs : List (Buf B))
      → recycle dev blockno bs ≡ some cs
      → copies i j cs ≤ one_if (dev == i && blockno == j) + copies i j bs
  unfolding recycle recycle_here
  copies-recycle dev blockno i j [] cs h = absurd (ground arith)
  copies-recycle dev blockno i j (b ∷ bs) cs h = elim (Option-cases (recycle dev blockno bs)) [
    | inl e ↦ ground arith
    | inr (ds, e) ↦ let ih = copies-recycle dev blockno i j bs ds e in ground arith
  ]

  recycle-IsUnique :
      (dev blockno : ℕ) (bs cs : List (Buf B))
      → find_block dev blockno bs ≡ none
      → recycle dev blockno bs ≡ some cs
      → IsUnique bs
      → IsUnique cs
  recycle-IsUnique dev blockno bs cs e h u i j l =
      let r = copies-recycle dev blockno i j bs cs h in
      let o = u i j l in
      elim (Bool-cases (dev == i && blockno == j)) [
        | inr ne ↦ omega (arith, subst (λ q. copies i j cs ≤ one_if q + copies i j bs) ne r, o)
        | inl eq ↦
            let z =
              subst₂ (λ a b. copies a b bs ≡ 0) (same₁ eq) (same₂ eq)
                (copies-not_found dev blockno bs e) in
            omega (arith, subst (λ q. copies i j cs ≤ one_if q + copies i j bs) eq r, z)
      ]
    where
      same₁ : (dev == i && blockno == j) ≡ true → dev ≡ i
      same₁ q = (==_iff dev i).0 (ground arith)

      same₂ : (dev == i && blockno == j) ≡ true → blockno ≡ j
      same₂ q = (==_iff blockno j).0 (ground arith)

  find_or_recycle-IsUnique :
      (dev blockno : ℕ) (bs cs : List (Buf B))
      → find_or_recycle dev blockno bs (find_block dev blockno bs) ≡ some cs
      → IsUnique bs
      → IsUnique cs
  unfolding find_or_recycle
  find_or_recycle-IsUnique dev blockno bs cs h u = elim (Option-cases (find_block dev blockno bs)) [
    | inl e ↦
        recycle-IsUnique dev blockno bs cs e
          (subst (λ o. find_or_recycle dev blockno bs o ≡ some cs) e h) u
    | inr (b, e) ↦
        IsUnique-some (subst (λ o. find_or_recycle dev blockno bs o ≡ some cs) e h)
          (on_block-IsUnique dev blockno one_more bs (λ i j b. refl) u)
  ]

  let_go-IsUnique :
      (dev blockno : ℕ) (bs cs : List (Buf B)) (b : Buf B)
      → find_block dev blockno bs ≡ some b
      → let_go dev blockno bs (some b) ≡ some cs
      → IsUnique bs
      → IsUnique cs
  unfolding let_go
  let_go-IsUnique dev blockno bs cs b e h u = elim (Bool-cases b.locked) [
    | inr ne ↦ absurd (ground arith)
    | inl lk ↦ elim (Bool-cases (b.refcnt - 1 == 0)) [
      | inl z ↦
          IsUnique-some {xs = unheld b ∷ without dev blockno bs} (ground arith)
            (λ i j l. subst (λ n. n ≤ 1) (sym (copies-without dev blockno i j bs b e)) (u i j l))
      | inr nz ↦
          IsUnique-some {xs = on_block dev blockno unheld bs} (ground arith)
            (on_block-IsUnique dev blockno unheld bs (λ i j b. refl) u)
    ]
  ]

  let_go-none : (dev blockno : ℕ) (bs cs : List (Buf B)) → let_go dev blockno bs none ≢ some cs
  unfolding let_go
  let_go-none dev blockno bs cs h = absurd (ground arith)

  brelse-IsUnique :
      (dev blockno : ℕ) (bs cs : List (Buf B))
      → brelse dev blockno bs ≡ some cs
      → IsUnique bs
      → IsUnique cs
  unfolding brelse
  brelse-IsUnique dev blockno bs cs h u = elim (Option-cases (find_block dev blockno bs)) [
    | inl e ↦
        absurd (let_go-none dev blockno bs cs (subst (λ o. let_go dev blockno bs o ≡ some cs) e h))
    | inr (b, e) ↦
        let_go-IsUnique dev blockno bs cs b e (subst (λ o. let_go dev blockno bs o ≡ some cs) e h) u
  ]

  copies-replicate :
      (nbuf i j : ℕ) (b : Buf B) → is_block i j b ≡ false → copies i j (replicate nbuf b) ≡ 0
  copies-replicate zero i j b e = refl
  copies-replicate (suc n) i j b e = rw e (omega (arith, copies-replicate n i j b e))

  binit-IsUnique : (nbuf : ℕ) (d : B) → IsUnique (binit nbuf d)
  unfolding binit
  binit-IsUnique nbuf d i j l =
      omega
        (arith, copies-replicate nbuf i j _ (ap (λ q. q && 0 == j) (==-false 0 i (omega arith))))

  lock_or_wait-IsUnique :
      (dev blockno : ℕ) (bs cs : List (Buf B)) (o : Option (Buf B))
      → (lock_or_wait dev blockno bs o ≡ got cs) ⊎ (lock_or_wait dev blockno bs o ≡ waits cs)
      → IsUnique bs
      → IsUnique cs
  unfolding lock_or_wait
  lock_or_wait-IsUnique dev blockno bs cs none h u = absurd (ground arith)
  lock_or_wait-IsUnique dev blockno bs cs (some b) h u = elim (Bool-cases b.locked) [
    | inl e ↦ let q : bs ≡ cs = ground arith in subst IsUnique q u
    | inr e ↦
        let q : on_block dev blockno lock_buf bs ≡ cs = ground arith in
        subst IsUnique q (on_block-IsUnique dev blockno lock_buf bs (λ i j b. refl) u)
  ]

  fill_buf-KeepsBlock : (d : B) → KeepsBlock (fill_buf d)
  unfolding fill_buf
  fill_buf-KeepsBlock d i j b = elim (Bool-cases b.valid) [ inl e ↦ rw e refl | inr e ↦ rw e refl ]

  lock_found-none :
      (dev blockno : ℕ) (cs : List (Buf B))
      → ¬ ((lock_found dev blockno none ≡ got cs) ⊎ (lock_found dev blockno none ≡ waits cs))
  unfolding lock_found
  lock_found-none dev blockno cs h = absurd (ground arith)

  bget-IsUnique :
      (dev blockno : ℕ) (bs cs : List (Buf B))
      → (bget dev blockno bs ≡ got cs) ⊎ (bget dev blockno bs ≡ waits cs)
      → IsUnique bs
      → IsUnique cs
  unfolding bget lock_found
  bget-IsUnique dev blockno bs cs h u =
      elim (Option-cases (find_or_recycle dev blockno bs (find_block dev blockno bs))) [
        | inl e ↦ absurd (
            lock_found-none dev blockno cs (
              subst
                (λ o. (lock_found dev blockno o ≡ got cs) ⊎ (lock_found dev blockno o ≡ waits cs)) e
                h))
        | inr (ds, e) ↦
            lock_or_wait-IsUnique dev blockno ds cs (find_block dev blockno ds)
              (subst
                (λ o. (lock_found dev blockno o ≡ got cs) ⊎ (lock_found dev blockno o ≡ waits cs)) e
                h)
              (find_or_recycle-IsUnique dev blockno bs ds e u)
      ]

  Step-IsUnique : {bs cs : List (Buf B)} → Step bs cs → IsUnique bs → IsUnique cs
  unfolding bpin bunpin
  Step-IsUnique {bs} {cs} (get dev blockno h) u = bget-IsUnique dev blockno bs cs h u
  Step-IsUnique {bs} {cs} (wake dev blockno h) u =
      lock_or_wait-IsUnique dev blockno bs cs (find_block dev blockno bs) (inl h) u
  Step-IsUnique {bs} {cs} (fill dev blockno d h) u =
      subst IsUnique (sym h)
        (on_block-IsUnique dev blockno (fill_buf d) bs (fill_buf-KeepsBlock d) u)
  Step-IsUnique {bs} {cs} (modify dev blockno d h) u =
      subst IsUnique (sym h) (on_block-IsUnique dev blockno (rewritten d) bs (λ i j b. refl) u)
  Step-IsUnique {bs} {cs} (release dev blockno h) u = brelse-IsUnique dev blockno bs cs h u
  Step-IsUnique {bs} {cs} (pin dev blockno h) u =
      subst IsUnique (sym h) (on_block-IsUnique dev blockno one_more bs (λ i j b. refl) u)
  Step-IsUnique {bs} {cs} (unpin dev blockno h) u =
      subst IsUnique (sym h) (on_block-IsUnique dev blockno one_less bs (λ i j b. refl) u)

  -- In every state that the calls of the buffer cache reach from that of binit(), in any order and
  -- for any blocks, each block of a device other than 0 has at most one buffer.
  pub Reach-IsUnique :
      (nbuf : ℕ) (d : B) (bs : List (Buf B)) → Reach (binit nbuf d) bs → IsUnique bs
  Reach-IsUnique nbuf d bs r = go r
    where
      go : {cs : List (Buf B)} → Reach (binit nbuf d) cs → IsUnique cs
      go start = binit-IsUnique nbuf d
      go (next r st) = Step-IsUnique st (go r)
