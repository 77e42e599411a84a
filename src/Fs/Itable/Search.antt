-- ===== src/Fs/Itable/Search.antt =====
-- What the search of the inode table in kernel/fs.c finds.
use liberal_os.Prelude.{
  ℕ, zero, suc, ◌+◌, ◌<◌, ◌≡◌, inl, inr, Bool, true, false, none, some, List, [], ◌∷◌, arith,
  Bool-cases, length,
}
use liberal_os.Fs.Itable.{inode_at, no_inode, Inode, first_with}

pub first_with_found :
    (p : Inode → Bool) (t : List Inode) (i j : ℕ)
    → first_with p t i ≡ some j
    → (k : ℕ) × ((j ≡ i + k) × ((k < length t) × (p (inode_at t k) ≡ true)))
unfolding first_with
first_with_found p [] i j h = absurd (ground arith)
first_with_found p (ip ∷ t) i j h = elim (Bool-cases (p ip)) [
  | inl e ↦ (0, (ground arith, (omega arith, e)))
  | inr e ↦
      let (k, (q, (l, m))) = first_with_found p t (i + 1) j (ground arith) in
      (suc k, (omega arith, (omega arith, m)))
]

pub first_with_missing :
    (p : Inode → Bool) (t : List Inode) (i : ℕ)
    → p no_inode ≡ false
    → first_with p t i ≡ none
    → (k : ℕ) → p (inode_at t k) ≡ false
unfolding first_with
first_with_missing p [] i n h k = n
first_with_missing p (ip ∷ t) i n h zero = elim (Bool-cases (p ip)) [
  | inl e ↦ absurd (ground arith)
  | inr e ↦ e
]
first_with_missing p (ip ∷ t) i n h (suc k) = elim (Bool-cases (p ip)) [
  | inl e ↦ absurd (ground arith)
  | inr e ↦ first_with_missing p t (i + 1) n (ground arith) k
]
