-- ===== src/PageTable/Uvm.antt =====
-- uvmalloc() of kernel/vm.c: all the pages asked for, or the mappings of before.
use liberal_os.Prelude.{
  ℕ, zero, suc, ◌+◌, ◌-◌, ◌*◌, ◌/◌, ◌%◌, ◌^◌, ◌≤◌, ◌<◌, ◌≡◌, refl, sym, ap, ◌∙◌, inl, inr, Bool,
  true, false, ◌&&◌, Option, none, some, List, arith, ltb, leb, if◌then◌else◌, Bool-cases,
}
use mathlib.Core.Bool.{true≢false}
use liberal_os.PageTable.Unmapped.{unmapped_none}
use liberal_os.PageTable.{pte2pa, Pages, vpn, is_valid, is_user, maxva}
use liberal_os.PageTable.Find.{NotIn, IsTree, find}
use liberal_os.PageTable.Unmapped.{unmapped_from, cleared}
use liberal_os.Kalloc.{is_page}
use liberal_os.PageTable.Runs.{AllMayFree, unmap_loop-Unmapped}
use liberal_os.PageTable.Map.{
  of_int, leaf_pte, uvmdealloc, uvmunmap, with_size, to_zero, uvm_undo, unmap_loop,
}

-- One of the n pages from a on.
abbrev pub inside : ℕ → ℕ → ℕ → Bool
inside a n va = leb (vpn 0 a) (vpn 0 va) && ltb (vpn 0 va) (vpn 0 a + n)

-- The n pages from a on have entries with P, and the other entries are those of m0.
abbrev pub Differs : (ℕ → Type 0) → ℕ → ℕ → ℕ → Pages → Pages → Type 0
Differs P root a n m0 m =
    (va : ℕ)
    → va < maxva
    → (inside a n va ≡ true → P (find 2 root va m))
      × (inside a n va ≡ false → find 2 root va m ≡ find 2 root va m0)

-- A user page that kfree() takes.
abbrev pub IsUserPage : ℕ → ℕ → Type 0
IsUserPage limit pte =
    (is_valid pte ≡ true) × ((is_user pte ≡ true) × (is_page limit (pte2pa pte) ≡ true))

abbrev pub IsUnmapped : ℕ → Type 0
IsUnmapped pte = is_valid pte ≡ false

leaf_flags :
    (pa xperm : ℕ)
    → xperm ≤ 12
    → (is_valid (leaf_pte pa (18 + xperm)) ≡ true) × (is_user (leaf_pte pa (18 + xperm)) ≡ true)
unfolding leaf_pte
leaf_flags pa xperm h = (ground arith, ground arith)

pub leaf_page :
    (limit pa xperm : ℕ)
    → xperm ≤ 12
    → is_page limit pa ≡ true
    → pte2pa (leaf_pte pa (18 + xperm)) ≡ pa
unfolding leaf_pte is_page
leaf_page limit pa xperm h g =
    let a : pa % 4096 ≡ 0 = ground arith in
    let b : pa < 2281701376 = ground arith in omega (arith, a, b, h)

pub leaf-IsUserPage :
    (limit pa xperm : ℕ)
    → xperm ≤ 12
    → is_page limit pa ≡ true
    → IsUserPage limit (leaf_pte pa (18 + xperm))
leaf-IsUserPage limit pa xperm h g =
    let (v, u) = leaf_flags pa xperm h in
    (v, (u, ap (is_page limit) (leaf_page limit pa xperm h g) ∙ g))

inside_more : (a k n va : ℕ) → inside a k va ≡ true → inside a (k + n) va ≡ true
inside_more a k n va h = more (vpn 0 a) (vpn 0 va) h
  where
    more : (y x : ℕ) → (leb y x && ltb x (y + k)) ≡ true → (leb y x && ltb x (y + (k + n))) ≡ true
    more y x h = ground arith

unmapped_in : (n a va old : ℕ) → inside a n va ≡ true → unmapped_from n a va old ≡ cleared old
unmapped_in n a va old h = rw h refl

unmapped_out : (n a va old : ℕ) → inside a n va ≡ false → unmapped_from n a va old ≡ old
unmapped_out n a va old h = rw h refl

of_int_small : (n x : ℕ) → x ≡ n → n < 2 ^ 31 → of_int x ≡ n
of_int_small n x e h =
    let a : n % 2 ^ 32 ≡ n = omega arith in
    let b : ltb n (2 ^ 31) ≡ true = ground arith in rw (e, a, b) refl

dealloc_runs :
    (limit root a k : ℕ) (m : Pages)
    → a % 4096 ≡ 0
    → a + k * 4096 < maxva
    → uvmdealloc limit root (a + suc k * 4096) a m
      ≡ with_size a (unmap_loop limit (suc k) root a true m)
unfolding uvmdealloc uvmunmap
dealloc_runs limit root a k m h g =
    let b : leb (a + suc k * 4096) a ≡ false = ground arith in
    let up : (a + 4095) % 2 ^ 64 / 4096 * 4096 ≡ a = omega (arith, h, g) in
    let end : (a + suc k * 4096 + 4095) % 2 ^ 64 / 4096 * 4096 ≡ a + suc k * 4096 =
      omega (arith, h, g) in
    let l : ltb a (a + suc k * 4096) ≡ true = ground arith in
    let n : of_int ((a + suc k * 4096 - a) / 4096) ≡ suc k =
      of_int_small (suc k) _ (omega arith) (omega (arith, g)) in
    let r : ((a + suc k * 4096) % 2 ^ 64 - a) / 4096 ≡ suc k = omega (arith, g) in
    rw (b, up, end, l, n, h, r) refl

dealloc_same :
    (limit root a : ℕ) (m : Pages)
    → uvmdealloc limit root (a + 0 * 4096) a m ≡ some (a + 0 * 4096, m)
unfolding uvmdealloc
dealloc_same limit root a m = let b : leb (a + 0 * 4096) a ≡ true = ground arith in rw b refl

-- The pages that uvmalloc() has mapped are unmapped again.
dealloc_back :
    (limit root a0 k n : ℕ) (m0 m m' : Pages)
    → Differs (IsUserPage limit) root a0 k m0 m
    → ((va : ℕ) → va < maxva → inside a0 (k + n) va ≡ true → IsUnmapped (find 2 root va m0))
    → ((va : ℕ) → va < maxva → find 2 root va m' ≡ unmapped_from k a0 va (find 2 root va m))
    → Differs IsUnmapped root a0 (k + n) m0 m'
dealloc_back limit root a0 k n m0 m m' d u entries va g =
    let e = entries va g in
    elim (Bool-cases (inside a0 k va)) [
      | inl i ↦ (
        λ j. ap is_valid (
            e
            ∙ unmapped_in k a0 va (find 2 root va m) i
            ∙ ap (λ b. if b then 0 else find 2 root va m) ((d va g).0 i).0),
        λ j. absurd (true≢false (sym (inside_more a0 k n va i) ∙ j)),
      )
      | inr i ↦
          let q = e ∙ unmapped_out k a0 va (find 2 root va m) i ∙ (d va g).1 i in
          (λ j. ap is_valid q ∙ u va g j, λ j. q)
    ]

inside_nth : (a k i : ℕ) → i < k → inside a k (a + i * 4096) ≡ true
unfolding vpn
inside_nth a k i h = ground arith

-- The pages mapped so far are no tables, and they are not free.
abbrev pub AreApart : (ℕ → Option (ℕ × ℕ)) → ℕ → ℕ → ℕ → Pages → List ℕ → Type 0
AreApart place root a k m ps =
    (va : ℕ)
    → va < maxva
    → inside a k va ≡ true
    → (place (pte2pa (find 2 root va m)) ≡ none) × NotIn (pte2pa (find 2 root va m)) ps

-- Giving up at the page k, when the pages before it are below MAXVA, does not panic.
pub undo_some :
    (limit root a0 k n : ℕ) (place : ℕ → Option (ℕ × ℕ)) (m0 m : Pages) (ps : List ℕ)
    → IsTree place root m
    → a0 % 4096 ≡ 0
    → Differs (IsUserPage limit) root a0 k m0 m
    → AreApart place root a0 k m ps
    → ((i : ℕ) → i < k → a0 + i * 4096 < maxva)
    → ((va : ℕ) → va < maxva → inside a0 (k + n) va ≡ true → IsUnmapped (find 2 root va m0))
    → (m' : Pages) × ((uvm_undo limit root (a0 + k * 4096) a0 (some m) ≡ some (0, m'))
        × Differs IsUnmapped root a0 (k + n) m0 m')
unfolding uvm_undo
undo_some limit root a0 k n place m0 m ps t al d ap' b u =
    let (m', (h, e)) = runs k b (λ i s. (b i s, λ f v. may_free i s)) in
    (m', (h, dealloc_back limit root a0 k n m0 m m' d u e))
  where
    may_free :
        (i : ℕ)
        → i < k
        → (is_page limit (pte2pa (find 2 root (a0 + i * 4096) m)) ≡ true)
          × (place (pte2pa (find 2 root (a0 + i * 4096) m)) ≡ none)
    may_free i s = let q = inside_nth a0 k i s in (((d _ (b i s)).0 q).1.1, (ap' _ (b i s) q).0)

    runs :
        (k : ℕ)
        → ((i : ℕ) → i < k → a0 + i * 4096 < maxva)
        → AllMayFree limit place k root a0 true m
        → (m' : Pages) × ((to_zero (uvmdealloc limit root (a0 + k * 4096) a0 m) ≡ some (0, m'))
            × ((va : ℕ)
                → va < maxva
                → find 2 root va m' ≡ unmapped_from k a0 va (find 2 root va m)))
    runs zero b f = (
      m,
      (
        ap to_zero (dealloc_same limit root a0 m),
        λ va g. sym (unmapped_none a0 va (find 2 root va m)),
      ),
    )
    runs (suc k) b f =
        let (m', (h, x)) = unmap_loop-Unmapped limit (suc k) root a0 true place m t f in
        (
          m',
          (
            ap to_zero
                (dealloc_runs limit root a0 k m al (b k (omega arith)) ∙ ap (with_size a0) h),
            x.1,
          ),
        )
