-- ===== src/Cache/Disk.antt =====
-- The overlay /cache.bin of kernel/cache.c: cache_disk_append, cache_disk_scan and
-- cache_disk_truncate. The file is the list of its whole records, a partial tail is never read;
-- `none` is a file that is not there. The file system underneath is kernel/fs.c.
use liberal_os.Prelude.{
  ℕ, ◌-◌, Bool, Option, none, some, List, [], ◌∷◌, ◌++◌, ◌==◌, if◌then◌else◌, set,
}
use liberal_os.Cache.Sig.{sig_match, sig_over_threshold}
use liberal_os.Cache.Slots.{Slot, Best, same_role, improve, val_len}

abbrev pub Overlay : Type 0
Overlay = Option (List Slot)

-- `written` says whether writei() wrote the whole record; if not, the size is rolled back.
unfoldable pub disk_append : Overlay → Slot → Bool → Overlay
disk_append none rec written = none
disk_append (some recs) rec written = if written then some (recs ++ (rec ∷ [])) else some recs

-- rec.val[CACHE_VALLEN - 1] = 0;
unfoldable pub bound_value : Slot → Slot
bound_value rec = record rec { val = set rec.val (val_len - 1) 0 }

-- What the scan holds: the last record with the key, and the best of the others of that role.
pub record Hits : Type 0 where
  pub exact : Option Slot
  pub sem : Best

unfoldable pub disk_step : List ℕ → ℕ → List ℕ → Hits → Slot → Hits
disk_step role key qsig h rec =
    if rec.key == key
    then record h { exact = some rec }
    else if same_role rec role
    then record h { sem = improve h.sem (sig_match qsig rec.sig) rec }
    else h

unfoldable pub disk_hits : List Slot → List ℕ → ℕ → List ℕ → Hits → Hits
unfolding disk_step bound_value
disk_hits [] role key qsig h = h
disk_hits (rec ∷ recs) role key qsig h =
    disk_hits recs role key qsig (disk_step role key qsig h (bound_value rec))

-- The record that the scan settles on: an exact one, or a semantic one over the threshold.
unfoldable pub settle_sem : Best → Option Slot
settle_sem none = none
settle_sem (some (m, s)) = if sig_over_threshold m then some s else none

unfoldable pub settle : Hits → Option Slot
unfolding settle_sem
settle h = elim h.exact [ some s ↦ some s | none ↦ settle_sem h.sem ]

-- The record found, for promotion into RAM. The caller copies its value.
unfoldable pub disk_scan : Overlay → List ℕ → ℕ → List ℕ → Option Slot
disk_scan none role key qsig = none
disk_scan (some recs) role key qsig =
    settle (disk_hits recs role key qsig (record { exact = none; sem = none }))

unfoldable pub disk_truncate : Overlay → Overlay
disk_truncate none = none
disk_truncate (some recs) = some []
