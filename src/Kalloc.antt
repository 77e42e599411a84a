-- ===== src/Kalloc.antt =====
-- kernel/kalloc.c. Of a page's bytes the model keeps the first word, where a free page holds the
-- address of the next one; a null pointer is 0. `limit` is the linker's `end`. A panic is none.
pub mod Free
use liberal_os.Prelude.{
  ℕ, zero, suc, ◌+◌, ◌-◌, ◌*◌, ◌/◌, ◌%◌, ◌^◌, ◌≤◌, ◌<◌, min, ◌≡◌, refl, sym, ap, ap₂, ◌∙◌, subst,
  ◌≢◌, ◌↔◌, ◌⊎◌, inl, inr, Bool, true, false, not, ◌&&◌, ◌||◌, Option, none, some, List, [], ◌∷◌,
  ◌++◌, arith, ltb, leb, ◌==◌, if◌then◌else◌, ==_iff, ==-refl, ==-false, Bool-cases, Option-cases,
  ℤ, pos, negsuc, sub_ℕ, ◌≤ℤ◌, ◌<ℤ◌, ltb_ℤ, leb_ℤ, eqb_ℤ, eqb_ℤ_iff, length, get_elem?, get_or, set,
  take, drop, replicate, length-append, length-set, length-take, length-replicate,
  get_elem?-set_self, get_elem?-set_ne, get_or-set_self, get_or-set_ne, take-length, lt_of_le_ne,
}
use liberal_os.Proc.Memory.{page_size}

-- PHYSTOP
abbrev pub phystop : ℕ
phystop = 2 ^ 31 + 128 * 1024 * 1024

-- The first word of a page of bytes c.
unfoldable pub junk : ℕ → ℕ
junk c = c * 72340172838076673

-- Stores the first word of a page.
unfoldable pub put_word : (ℕ → ℕ) → ℕ → ℕ → ℕ → ℕ
put_word words p v q = if p == q then v else words q

pub record Kmem : Type 0 where
  pub words : ℕ → ℕ
  pub freelist : ℕ

unfoldable pub is_page : ℕ → ℕ → Bool
is_page limit pa = pa % page_size == 0 && leb limit pa && ltb pa phystop

unfoldable pub kfree : ℕ → ℕ → Kmem → Option Kmem
kfree limit pa k =
    if is_page limit pa
    then some
        (record { words = put_word (put_word k.words pa (junk 1)) pa k.freelist; freelist = pa })
    else none

-- The address of the page, or 0.
unfoldable pub kalloc : Kmem → ℕ × Kmem
kalloc k = if k.freelist == 0 then (0, k) else (
  k.freelist,
  record { words = put_word k.words k.freelist (junk 5); freelist = k.words k.freelist },
)

-- The loop of freerange(); each round frees a page, so pa_end / 4096 rounds are enough.
unfoldable pub free_loop : ℕ → ℕ → ℕ → ℕ → Option Kmem → Option Kmem
free_loop fuel limit p pa_end none = none
free_loop zero limit p pa_end (some k) = if leb (p + page_size) pa_end then none else some k
free_loop (suc fuel) limit p pa_end (some k) =
    let rest = free_loop fuel limit (p + page_size) pa_end (kfree limit p k) in
    if leb (p + page_size) pa_end then rest else some k

-- PGROUNDUP
unfoldable pub page_roundup : ℕ → ℕ
page_roundup a = (a + (page_size - 1)) / page_size * page_size

unfoldable pub freerange : ℕ → ℕ → ℕ → Kmem → Option Kmem
unfolding page_roundup
freerange limit pa_start pa_end k =
    free_loop (pa_end / page_size) limit (page_roundup pa_start) pa_end (some k)

-- The words are those found at boot.
unfoldable pub kinit : ℕ → (ℕ → ℕ) → Option Kmem
kinit limit words = freerange limit limit phystop (record { words = words; freelist = 0 })
