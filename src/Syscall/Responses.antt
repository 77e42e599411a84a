-- ===== src/Syscall/Responses.antt =====
-- sys_cacheget(), sys_cacheset() and sys_cacheclear() of kernel/sysproc.c: the response cache for
-- user programs. The strings of the caller come through copyinstr(), which fails for one that does
-- not fit; `stack` is what the kernel's stack holds in out[], and the two buffers of a record are
-- those of cache_set().
use liberal_os.Prelude.{
  ℕ, Bool, not, ◌&&◌, Option, none, some, List, ◌==◌, if◌then◌else◌, ℤ, pos, negsuc, ltb_ℤ, eqb_ℤ,
  take,
}
use liberal_os.Syscall.{or_old, to_nat, UserMem}
use liberal_os.Cache.Slots.{val_len}
use liberal_os.Cache.Api.{cache_get, cache_set, cache_clear, Cache, Answer}

module _ (mem : UserMem) where
  open mem use {State, copyout, copyinstr}

  -- hit, or -1 when the copy fails
  unfoldable pub hit_result : ℤ → Bool × State → ℤ × State
  hit_result hit (copied, u) = (if copied then hit else negsuc 0, u)

  -- if(hit && uout != 0 && outmax > 0)
  unfoldable pub hand_out : List ℕ → ℕ → ℤ → State → Answer → (ℤ × State) × Cache
  unfolding hit_result
  hand_out stack uout outmax u (hit, out, c) =
      let rc = if hit then pos 1 else pos 0 in
      let n = if ltb_ℤ outmax (pos val_len) then to_nat outmax else val_len in
      if hit && (not (uout == 0) && ltb_ℤ (pos 0) outmax)
      then (hit_result rc (copyout uout (take n (or_old stack out)) u), c)
      else ((rc, u), c)

  unfoldable pub get_named :
      Cache → List ℕ → ℕ → ℤ → State → Option (List ℕ) → Option (List ℕ) → (ℤ × State) × Cache
  get_named c stack uout outmax u none prompt = ((negsuc 0, u), c)
  get_named c stack uout outmax u (some role) none = ((negsuc 0, u), c)
  get_named c stack uout outmax u (some role) (some prompt) =
      hand_out stack uout outmax u (cache_get c role prompt (some stack) (pos val_len))

  unfoldable pub sys_cacheget : Cache → List ℕ → ℕ → ℕ → ℕ → ℤ → State → (ℤ × State) × Cache
  sys_cacheget c stack role prompt uout outmax u =
      get_named c stack uout outmax u (copyinstr role 16 u) (copyinstr prompt 256 u)

  unfoldable pub set_result : Bool × Cache → ℤ × Cache
  set_result (done, c) = (if done then pos 1 else pos 0, c)

  unfoldable pub set_named :
      Cache
      → List ℕ
      → List ℕ
      → Bool
      → Option (List ℕ)
      → Option (List ℕ)
      → Option (List ℕ)
      → ℤ × Cache
  unfolding set_result
  set_named c role_buf val_buf written none prompt val = (negsuc 0, c)
  set_named c role_buf val_buf written (some role) none val = (negsuc 0, c)
  set_named c role_buf val_buf written (some role) (some prompt) none = (negsuc 0, c)
  set_named c role_buf val_buf written (some role) (some prompt) (some val) =
      set_result (cache_set c role_buf val_buf role prompt val written)

  unfoldable pub sys_cacheset : Cache → List ℕ → List ℕ → Bool → ℕ → ℕ → ℕ → State → ℤ × Cache
  sys_cacheset c role_buf val_buf written role prompt val u =
      set_named c role_buf val_buf written (copyinstr role 16 u) (copyinstr prompt 256 u)
        (copyinstr val val_len u)

-- disk != 0
unfoldable pub sys_cacheclear : Cache → ℤ → ℤ × Cache
sys_cacheclear c disk = (pos 0, cache_clear c (not (eqb_ℤ disk (pos 0))))
