-- ===== src/PageTable/Runs.antt =====
-- kernel/vm.c: uvmunmap() of pages that it may free does not panic.
use liberal_os.Prelude.{
  ℕ, zero, suc, ◌+◌, ◌-◌, ◌*◌, ◌/◌, ◌%◌, ◌^◌, ◌<◌, ◌≡◌, refl, sym, ap, ◌∙◌, subst, Bool, false,
  Option, some, arith, leb, ◌==◌, if◌then◌else◌,
}
use liberal_os.PageTable.{Pages, maxva, vpn}
use liberal_os.PageTable.Find.{IsTree, find}
use liberal_os.PageTable.Mapped.{top, far}
use liberal_os.PageTable.Map.{unmap_next, unmap_loop, uvmunmap}
use liberal_os.PageTable.Unmapped.{
  MayFree, unmapped_none, unmapped_from_more, walk_from-Look, unmap_entry-Cleared, unmapped_from,
  cleared,
}

-- The n pages from a on are below MAXVA and may be freed.
abbrev pub AllMayFree : ℕ → (ℕ → Option (ℕ × ℕ)) → ℕ → ℕ → ℕ → Bool → Pages → Type 0
AllMayFree limit place n root a do_free m =
    (i : ℕ)
    → i < n
    → (a + i * 4096 < maxva) × MayFree limit place do_free (find 2 root (a + i * 4096) m)

rest_may_free :
    (limit n root a : ℕ) (do_free : Bool) (place : ℕ → Option (ℕ × ℕ)) (m m1 : Pages)
    → ((va : ℕ)
        → va < maxva
        → find 2 root va m1
          ≡ (if vpn 0 va == vpn 0 a then cleared (find 2 root va m) else find 2 root va m))
    → AllMayFree limit place (suc n) root a do_free m
    → AllMayFree limit place n root (a + 4096) do_free m1
rest_may_free limit n root a do_free place m m1 c f i s =
    let q : a + suc i * 4096 ≡ a + 4096 + i * 4096 = omega arith in
    let (l, g) =
      subst (λ b. (b < maxva) × MayFree limit place do_free (find 2 root b m)) q
        (f (suc i) (omega arith)) in
    let e =
      c (a + 4096 + i * 4096) l
      ∙ ap
          (λ b.
            if b
            then cleared (find 2 root (a + 4096 + i * 4096) m)
            else find 2 root (a + 4096 + i * 4096) m)
          (far i a) in
    (l, subst (MayFree limit place do_free) (sym e) g)

-- The pages after the loop of uvmunmap().
abbrev pub Unmapped : (ℕ → Option (ℕ × ℕ)) → ℕ → ℕ → ℕ → Pages → Pages → Type 0
Unmapped place root n a m m' =
    IsTree place root m'
    × ((va : ℕ) → va < maxva → find 2 root va m' ≡ unmapped_from n a va (find 2 root va m))

pub unmap_loop-Unmapped :
    (limit n root a : ℕ) (do_free : Bool) (place : ℕ → Option (ℕ × ℕ)) (m : Pages)
    → IsTree place root m
    → AllMayFree limit place n root a do_free m
    → (m' : Pages) × ((unmap_loop limit n root a do_free m ≡ some m')
        × Unmapped place root n a m m')
unfolding unmap_loop unmap_next
unmap_loop-Unmapped limit zero root a do_free place m t f =
    (m, (refl, (t, λ va g. sym (unmapped_none a va (find 2 root va m)))))
unmap_loop-Unmapped limit (suc n) root a do_free place m t f =
    let q : a + 0 * 4096 ≡ a = omega arith in
    let (l, g) =
      subst (λ b. (b < maxva) × MayFree limit place do_free (find 2 root b m)) q
        (f 0 (omega arith)) in
    let look = walk_from-Look 2 root a root place m t (top place root m a t l) in
    let (m1, (o, c)) = unmap_entry-Cleared limit root a do_free place m _ t l look g in
    let (m', (h, r)) =
      unmap_loop-Unmapped limit n root (a + 4096) do_free place m1 c.0
        (rest_may_free limit n root a do_free place m m1 c.1 f) in
    let e : leb maxva a ≡ false = ground arith in
    (
      m',
      (
        rw (e, o) h,
        (
          r.0,
          λ va s.
              r.1 va s
              ∙ ap (unmapped_from n (a + 4096) va) (c.1 va s)
              ∙ unmapped_from_more n a va (find 2 root va m),
        ),
      ),
    )

-- uvmunmap() of page-aligned addresses below MAXVA on a tree of tables, where the pages that it is to
-- free are pages that kfree() takes and none of them is a table of the tree, does not panic: it clears the valid entries of these addresses,
-- changes no other entry, and leaves a tree.
pub uvmunmap-Unmapped :
    (limit npages root va : ℕ) (do_free : Bool) (place : ℕ → Option (ℕ × ℕ)) (m : Pages)
    → IsTree place root m
    → va % 4096 ≡ 0
    → AllMayFree limit place npages root va do_free m
    → (m' : Pages) × ((uvmunmap limit root va npages do_free m ≡ some m')
        × (IsTree place root m'
            × ((x : ℕ)
                → x < maxva
                → find 2 root x m' ≡ unmapped_from npages va x (find 2 root x m))))
unfolding uvmunmap
uvmunmap-Unmapped limit npages root va do_free place m t al f =
    let r : ((va + npages * 4096) % 2 ^ 64 - va) / 4096 ≡ npages =
      rounds npages (λ i s. (f i s).0) in
    let (m', (h, u)) = unmap_loop-Unmapped limit npages root va do_free place m t f in
    (m', (rw (al, r) h, u))
  where
    rounds :
        (n : ℕ)
        → ((i : ℕ) → i < n → va + i * 4096 < maxva)
        → ((va + n * 4096) % 2 ^ 64 - va) / 4096 ≡ n
    rounds zero b = omega arith
    rounds (suc n) b = omega (arith, b n (omega arith))
