-- ===== src/Fs/Itable/Refs.antt =====
-- iget() and iput() of kernel/fs.c: one entry for each inode in use, and its references.
use liberal_os.Prelude.{
  ℕ, zero, suc, ◌+◌, ◌<◌, ◌≡◌, refl, sym, ap, ◌∙◌, subst, ◌≢◌, inl, inr, true, false, some, List,
  [], ◌∷◌, arith, ◌==◌, ==_iff, ==-false, Bool-cases, Option-cases, length, set, get_or-set_self,
  get_or-set_ne,
}
use liberal_os.Fs.Itable.Search.{first_with_missing, first_with_found}
use liberal_os.Fs.Itable.{
  given_back, is_last, iput, first_with, reuse, get_entry, iget, no_inode, one_ref_more, reused,
  holds, inode_at, Inode,
}

-- No two entries in use are for one inode.
abbrev pub IsTable : List Inode → Type 0
IsTable t =
    (i j : ℕ)
    → 0 < (inode_at t i).refs
    → 0 < (inode_at t j).refs
    → (inode_at t i).dev ≡ (inode_at t j).dev
    → (inode_at t i).inum ≡ (inode_at t j).inum
    → i ≡ j

pub record Got (t : List Inode) (dev inum : ℕ) (r : ℕ × List Inode) : Type 0 where
  pub is_dev : (inode_at r.1 r.0).dev ≡ dev
  pub is_inum : (inode_at r.1 r.0).inum ≡ inum
  pub counted : (inode_at r.1 r.0).refs ≡ (inode_at t r.0).refs + 1
  -- an entry with references is not recycled
  pub kept :
      (j : ℕ)
      → 0 < (inode_at t j).refs
      → ((inode_at r.1 j).dev ≡ (inode_at t j).dev) × ((inode_at r.1 j).inum ≡ (inode_at t j).inum)
  pub others : (j : ℕ) → j ≢ r.0 → inode_at r.1 j ≡ inode_at t j
  pub table : IsTable r.1

at_set : (t : List Inode) (i : ℕ) (ip : Inode) → i < length t → inode_at (set t i ip) i ≡ ip
at_set t i ip h = get_or-set_self t i ip no_inode h

at_set_ne : (t : List Inode) (i j : ℕ) (ip : Inode) → j ≢ i → inode_at (set t i ip) j ≡ inode_at t j
at_set_ne t i j ip h = get_or-set_ne t i j ip no_inode (λ e. h (sym e))

-- A change of one entry that keeps its device and number, when it had references.
same_key-IsTable :
    (t : List Inode) (i : ℕ) (ip : Inode)
    → i < length t
    → ip.dev ≡ (inode_at t i).dev
    → ip.inum ≡ (inode_at t i).inum
    → 0 < (inode_at t i).refs
    → IsTable t
    → IsTable (set t i ip)
same_key-IsTable t i ip l d n r u a b ra rb da na =
    u a b (back a ra).0 (back b rb).0 (sym (back a ra).1.0 ∙ da ∙ (back b rb).1.0)
      (sym (back a ra).1.1 ∙ na ∙ (back b rb).1.1)
  where
    back :
        (k : ℕ)
        → 0 < (inode_at (set t i ip) k).refs
        → (0 < (inode_at t k).refs)
          × (((inode_at (set t i ip) k).dev ≡ (inode_at t k).dev)
              × ((inode_at (set t i ip) k).inum ≡ (inode_at t k).inum))
    back k h = elim (Bool-cases (k == i)) [
      | inl e ↦ let q : k ≡ i = (==_iff k i).0 e in rw (q, at_set t i ip l) (r, (d, n))
      | inr e ↦
          let q : k ≢ i = λ s. absurd (ground arith) in
          let s = at_set_ne t i k ip q in
          (subst (λ x. 0 < x.refs) s h, (ap (λ x. x.dev) s, ap (λ x. x.inum) s))
    ]

holds_iff :
    (dev inum : ℕ) (ip : Inode)
    → holds dev inum ip ≡ true
    → (0 < ip.refs) × ((ip.dev ≡ dev) × (ip.inum ≡ inum))
holds_iff dev inum ip h = (ground arith, (ground arith, ground arith))

-- A change of one entry keeps the keys of the entries with references, when it keeps its own.
key_kept :
    (t : List Inode) (i : ℕ) (ip : Inode)
    → i < length t
    → (0 < (inode_at t i).refs → (ip.dev ≡ (inode_at t i).dev) × (ip.inum ≡ (inode_at t i).inum))
    → (j : ℕ) → 0 < (inode_at t j).refs
    → ((inode_at (set t i ip) j).dev ≡ (inode_at t j).dev)
      × ((inode_at (set t i ip) j).inum ≡ (inode_at t j).inum)
key_kept t i ip l k j g = elim (Bool-cases (j == i)) [
  | inl e ↦
      let q : j ≡ i = (==_iff j i).0 e in
      rw (q, at_set t i ip l) (k (subst (λ a. 0 < (inode_at t a).refs) q g))
  | inr e ↦
      let q : j ≢ i = λ s. absurd (ground arith) in
      let s = at_set_ne t i j ip q in (ap (λ x. x.dev) s, ap (λ x. x.inum) s)
]

found-Got :
    (dev inum i : ℕ) (t : List Inode)
    → IsTable t
    → i < length t
    → holds dev inum (inode_at t i) ≡ true
    → Got t dev inum (i, one_ref_more t i)
found-Got dev inum i t u l h =
    let (r, (d, n)) = holds_iff dev inum (inode_at t i) h in
    let s = at_set t i (record (inode_at t i) { refs = (inode_at t i).refs + 1 }) l in
    record {
      is_dev = ap (λ x. x.dev) s ∙ d;
      is_inum = ap (λ x. x.inum) s ∙ n;
      counted = ap (λ x. x.refs) s;
      kept = key_kept t i _ l (λ _. (refl, refl));
      others = λ j g. at_set_ne t i j _ g;
      table = same_key-IsTable t i _ l refl refl r u;
    }

fresh-IsTable :
    (dev inum i : ℕ) (t : List Inode)
    → IsTable t
    → i < length t
    → ((k : ℕ) → holds dev inum (inode_at t k) ≡ false)
    → IsTable (set t i (reused dev inum (inode_at t i)))
fresh-IsTable dev inum i t u l free a b ra rb d n = elim (Bool-cases (a == i)) [
  | inl ea ↦ elim (Bool-cases (b == i)) [
    | inl eb ↦ omega (arith, (==_iff a i).0 ea, (==_iff b i).0 eb)
    | inr eb ↦
        let p = new a ((==_iff a i).0 ea) in
        let q = old b (λ s. absurd (ground arith)) in
        absurd (
          clash b (subst (λ x. 0 < x.refs) q rb)
            (ap (λ x. x.dev) (sym q) ∙ sym d ∙ ap (λ x. x.dev) p)
            (ap (λ x. x.inum) (sym q) ∙ sym n ∙ ap (λ x. x.inum) p))
  ]
  | inr ea ↦
      let p = old a (λ s. absurd (ground arith)) in
      elim (Bool-cases (b == i)) [
        | inl eb ↦
            let q = new b ((==_iff b i).0 eb) in
            absurd (
              clash a (subst (λ x. 0 < x.refs) p ra)
                (ap (λ x. x.dev) (sym p) ∙ d ∙ ap (λ x. x.dev) q)
                (ap (λ x. x.inum) (sym p) ∙ n ∙ ap (λ x. x.inum) q))
        | inr eb ↦
            let q = old b (λ s. absurd (ground arith)) in
            u a b (subst (λ x. 0 < x.refs) p ra) (subst (λ x. 0 < x.refs) q rb)
              (ap (λ x. x.dev) (sym p) ∙ d ∙ ap (λ x. x.dev) q)
              (ap (λ x. x.inum) (sym p) ∙ n ∙ ap (λ x. x.inum) q)
      ]
]
  where
    fresh : Inode
    fresh = reused dev inum (inode_at t i)

    old : (k : ℕ) → k ≢ i → inode_at (set t i fresh) k ≡ inode_at t k
    old k h = at_set_ne t i k fresh h

    new : (k : ℕ) → k ≡ i → inode_at (set t i fresh) k ≡ fresh
    new k h = rw h (at_set t i fresh l)

    clash :
        (k : ℕ)
        → 0 < (inode_at t k).refs
        → (inode_at t k).dev ≡ dev
        → ¬ ((inode_at t k).inum ≡ inum)
    clash k r e f = let h = free k in absurd (ground arith)

fresh-Got :
    (dev inum i : ℕ) (t : List Inode)
    → IsTable t
    → i < length t
    → (inode_at t i).refs ≡ 0
    → ((k : ℕ) → holds dev inum (inode_at t k) ≡ false)
    → Got t dev inum (i, set t i (reused dev inum (inode_at t i)))
fresh-Got dev inum i t u l z none_holds =
    let s = at_set t i (reused dev inum (inode_at t i)) l in
    record {
      is_dev = ap (λ x. x.dev) s;
      is_inum = ap (λ x. x.inum) s;
      counted = ap (λ x. x.refs) s ∙ omega (arith, z);
      kept = key_kept t i _ l (λ r. absurd (omega arith));
      others = λ j g. at_set_ne t i j _ g;
      table = fresh-IsTable dev inum i t u l none_holds;
    }

-- On a table with one entry for each inode in use, an iget() that does not panic gives an entry
-- for the inode with one reference more than it had, changes no other entry, recycles none that
-- has references, and leaves one entry for each inode in use.
pub iget-Got :
    (dev inum : ℕ) (t : List Inode) (r : ℕ × List Inode)
    → IsTable t
    → iget dev inum t ≡ some r
    → Got t dev inum r
unfolding iget get_entry reuse
iget-Got dev inum t r u h = elim (Option-cases (first_with (holds dev inum) t 0)) [
  | inr (i, e) ↦
      let f = first_with_found (holds dev inum) t 0 i e in
      let q : f.0 ≡ i = omega (arith, f.1.0) in
      let g : (i, one_ref_more t i) ≡ r = ground arith in
      subst (Got t dev inum) g (
        found-Got dev inum i t u (subst (λ k. k < length t) q f.1.1.0)
          (subst (λ k. holds dev inum (inode_at t k) ≡ true) q f.1.1.1))
  | inl e ↦ elim (Option-cases (first_with (λ ip. ip.refs == 0) t 0)) [
    | inl f ↦ absurd (ground arith)
    | inr (i, f) ↦
        let x = first_with_found (λ ip. ip.refs == 0) t 0 i f in
        let q : x.0 ≡ i = omega (arith, x.1.0) in
        let g : (i, set t i (reused dev inum (inode_at t i))) ≡ r = ground arith in
        subst (Got t dev inum) g (
          fresh-Got dev inum i t u (subst (λ k. k < length t) q x.1.1.0)
            ((==_iff _ 0).0 (subst (λ k. ((inode_at t k).refs == 0) ≡ true) q x.1.1.1))
            (first_with_missing (holds dev inum) t 0 refl e))
  ]
]

in_table : (t : List Inode) (i : ℕ) → 0 < (inode_at t i).refs → i < length t
in_table [] zero h = absurd (omega arith)
in_table [] (suc i) h = absurd (omega arith)
in_table (ip ∷ t) zero h = omega arith
in_table (ip ∷ t) (suc i) h = omega (arith, in_table t i h)

refs-given_back : (ip : Inode) → (given_back ip).refs ≡ ip.refs
refs-given_back ip = elim (Bool-cases (is_last ip)) [ inl e ↦ rw e refl | inr e ↦ rw e refl ]

is_last_shared : (ip : Inode) → ip.refs ≢ 1 → is_last ip ≡ false
unfolding is_last
is_last_shared ip h = rw (==-false ip.refs 1 h) refl

-- On a table with one entry for each inode in use, an iput() after an iget() that does not panic
-- leaves all reference counts as they were, and does not give the inode back to the disk when it
-- had a reference before.
pub iput-iget :
    (dev inum : ℕ) (t : List Inode) (r : ℕ × List Inode)
    → IsTable t
    → iget dev inum t ≡ some r
    → ((j : ℕ) → (inode_at (iput r.0 r.1).1 j).refs ≡ (inode_at t j).refs)
      × (0 < (inode_at t r.0).refs → (iput r.0 r.1).0 ≡ false)
unfolding iput
iput-iget dev inum t r u h =
    let g = iget-Got dev inum t r u h in
    (
      λ j. elim (Bool-cases (j == r.0)) [
        | inl e ↦
            let q : j ≡ r.0 = (==_iff _ _).0 e in
            rw (q, at_set r.1 r.0 _ (in_table r.1 r.0 (omega (arith, g.counted))))
              (omega (arith, refs-given_back (inode_at r.1 r.0), g.counted))
        | inr e ↦
            let q : j ≢ r.0 = λ s. absurd (ground arith) in
            ap (λ x. x.refs) (at_set_ne r.1 r.0 j _ q ∙ g.others j q)
      ],
      λ l. is_last_shared (inode_at r.1 r.0) (λ s. omega (arith, s, g.counted, l)),
    )
