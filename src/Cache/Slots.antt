-- ===== src/Cache/Slots.antt =====
-- struct cache_slot and the RAM table of kernel/cache.c: ram_put() and the scans of cache_get() and
-- cache_set(). A key of 0 marks an empty slot.
pub mod Laws
pub mod Best
use liberal_os.Prelude.{
  ℕ, zero, suc, ◌+◌, ◌-◌, ◌*◌, ◌/◌, ◌%◌, ◌^◌, ◌≤◌, ◌<◌, min, ◌≡◌, refl, sym, ap, ap₂, ◌∙◌, subst,
  ◌≢◌, ◌↔◌, ◌⊎◌, inl, inr, Bool, true, false, not, ◌&&◌, ◌||◌, Option, none, some, List, [], ◌∷◌,
  ◌++◌, arith, ltb, leb, ◌==◌, if◌then◌else◌, ==_iff, ==-refl, ==-false, Bool-cases, Option-cases,
  ℤ, pos, negsuc, sub_ℕ, ◌≤ℤ◌, ◌<ℤ◌, ltb_ℤ, leb_ℤ, eqb_ℤ, eqb_ℤ_iff, length, get_elem?, get_or, set,
  take, drop, replicate, length-append, length-set, length-take, length-replicate,
  get_elem?-set_self, get_elem?-set_ne, get_or-set_self, get_or-set_ne, take-length, lt_of_le_ne,
}
use liberal_os.CString.{strncmp, safestrcpy}
use liberal_os.Cache.Sig.{sig_match}

-- CACHE_NSLOT, CACHE_VALLEN and CACHE_ROLELEN
abbrev pub nslot : ℕ
nslot = 64

abbrev pub val_len : ℕ
val_len = 192

abbrev pub role_len : ℕ
role_len = 16

pub record Slot : Type 0 where
  pub key : ℕ
  pub role : List ℕ
  pub sig : List ℕ
  pub val : List ℕ

-- The first index whose key is k.
unfoldable pub find_key : List Slot → ℕ → ℕ → Option ℕ
find_key [] k i = none
find_key (s ∷ ss) k i = let rest = find_key ss k (i + 1) in if s.key == k then some i else rest

-- The target of ram_put: the slot of that key, or else the first empty one.
unfoldable pub target_of : List Slot → ℕ → Option ℕ
target_of ss k = elim (find_key ss k 0) [ none ↦ find_key ss 0 0 | some i ↦ some i ]

unfoldable pub ram_put : List Slot → Slot → List Slot
ram_put ss rec = elim (target_of ss rec.key) [ none ↦ ss | some i ↦ set ss i rec ]

-- The value of the first slot with that key.
unfoldable pub exact_value : List Slot → ℕ → Option (List ℕ)
exact_value [] k = none
exact_value (s ∷ ss) k = let rest = exact_value ss k in if s.key == k then some s.val else rest

-- strncmp(rec.role, role, CACHE_ROLELEN) == 0
unfoldable pub same_role : Slot → List ℕ → Bool
same_role s role = eqb_ℤ (strncmp s.role role role_len) (pos 0)

-- `none` is best_match = -1.
abbrev pub Best : Type 0
Best = Option (ℕ × Slot)

unfoldable pub beats : ℕ → Best → Bool
beats m none = true
beats m (some (b, s)) = ltb b m

unfoldable pub improve : Best → ℕ → Slot → Best
improve best m s = if beats m best then some (m, s) else best

-- The semantic scan: empty slots and slots of other roles are passed over.
unfoldable pub best_slot : List Slot → List ℕ → List ℕ → Best → Best
best_slot [] role qsig best = best
best_slot (s ∷ ss) role qsig best = best_slot ss role qsig (
    if s.key == 0
    then best
    else if same_role s role
    then improve best (sig_match qsig s.sig) s
    else best)

-- The scan of cache_set: a slot with the key or an empty one.
unfoldable pub free_or_match : List Slot → ℕ → Bool
free_or_match [] k = false
free_or_match (s ∷ ss) k = s.key == k || s.key == 0 || free_or_match ss k

-- if(out && outmax > 0) safestrcpy(out, val, outmax);
unfoldable pub copy_value : Option (List ℕ) → ℤ → List ℕ → Option (List ℕ)
copy_value none outmax val = none
copy_value (some out) outmax val =
    if ltb_ℤ (pos 0) outmax then some (safestrcpy out val outmax) else some out
