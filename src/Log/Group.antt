-- ===== src/Log/Group.antt =====
-- Operations between two commits.
use liberal_os.Log.{log_blocks, max_op_blocks, Log, begin_op, is_logged, log_write}
use liberal_os.Prelude.{
  ℕ, ◌+◌, ◌-◌, ◌*◌, ◌≤◌, ◌<◌, ◌≡◌, refl, inl, inr, true, false, Option, none, some, List, [], ◌∷◌,
  ◌++◌, arith, ltb, leb, ==-refl, Bool-cases, length, length-append,
}

-- Between critical sections: the blocks logged so far and what the open operations may still write
-- fit the log.
pub record IsLog (l : Log) (budget : ℕ) : Type 0 where
  pub spare : length l.blocks + budget ≤ log_blocks
  pub share : budget ≤ l.outstanding * max_op_blocks

abbrev pub Begun : ℕ → Option Log → Type 0
Begun budget none = true ≡ true
Begun budget (some l) = IsLog l (budget + max_op_blocks)

abbrev pub Written : ℕ → ℕ → Option Log → Type 0
Written b budget none = false ≡ true
Written b budget (some l) = IsLog l (budget - 1) × (is_logged b l.blocks ≡ true)

-- While the open operations have a share of ten blocks each, and the transaction and the share fit
-- the log, begin_op() keeps it so when it lets one more in, with ten blocks more.
pub begin_op-Begun : (l : Log) (budget : ℕ) → IsLog l budget → Begun budget (begin_op l)
unfolding begin_op
begin_op-Begun l budget v = elim (Bool-cases l.committing) [
  | inl e ↦ rw e refl
  | inr e ↦
      elim (Bool-cases (ltb log_blocks (length l.blocks + (l.outstanding + 1) * max_op_blocks))) [
        | inl f ↦ rw (e, f) refl
        | inr f ↦
            let room : length l.blocks + (l.outstanding + 1) * max_op_blocks ≤ log_blocks =
              ground arith in
            rw (e, f) (record { spare = omega (arith, v.share); share = omega (arith, v.share) })
      ]
]

is_logged-append : (b : ℕ) (bs : List ℕ) → is_logged b (bs ++ (b ∷ [])) ≡ true
is_logged-append b [] = rw (==-refl b) refl
is_logged-append b (c ∷ cs) = rw (is_logged-append b cs) (ground arith)

-- While the transaction and the share of the open operations fit the log and a block of the share is
-- left, log_write() does not panic, has the block in the transaction, and leaves the rest of the
-- share fitting.
pub log_write-Written :
    (l : Log) (b budget : ℕ) → 0 < budget → IsLog l budget → Written b budget (log_write l b)
unfolding log_write
log_write-Written l b budget h v =
    let fits : leb log_blocks (length l.blocks) ≡ false = ground (arith, v.spare) in
    let held : ltb l.outstanding 1 ≡ false = ground (arith, v.share) in
    elim (Bool-cases (is_logged b l.blocks)) [
      | inl e ↦
          rw (fits, held, e)
            (record { spare = omega (arith, v.spare); share = omega (arith, v.share) }, e)
      | inr e ↦
          rw (fits, held, e)
            (
              record {
                spare = omega (arith, v.spare, length-append l.blocks (b ∷ []));
                share = omega (arith, v.share);
              },
              is_logged-append b l.blocks,
            )
    ]
