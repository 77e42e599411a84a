-- ===== src/PageTable/Round.antt =====
-- kernel/vm.c: walkaddr() after mappages().
use liberal_os.Prelude.{
  ℕ, ◌+◌, ◌-◌, ◌*◌, ◌/◌, ◌%◌, ◌^◌, ◌≤◌, ◌<◌, ◌≡◌, ap, ◌∙◌, subst, true, Option, arith, ltb,
}
use liberal_os.PageTable.{Pages, pte2pa, is_valid, is_user, maxva, vpn}
use liberal_os.PageTable.Find.{IsTree, AreFree, find}
use liberal_os.PageTable.Map.{leaf_pte, mappages, walkaddr, MapResult, MapResult.mapped}
use liberal_os.PageTable.Mapped.{
  MapSpec, MapSpec.all_mapped, MapSpec.some_mapped, MapSpec.was_mapped, Remapped, mapped_to,
  mappages-MapSpec,
}
use liberal_os.PageTable.Unmapped.{walkaddr_lem}

pub of_mapped :
    (place : ℕ → Option (ℕ × ℕ)) (root n a pa perm : ℕ) (m m' : Pages) (r : MapResult)
    → MapSpec place root n a pa perm m r
    → r ≡ mapped m'
    → Remapped place root m m' (mapped_to n a pa perm)
of_mapped place root n a pa perm m m' r (all_mapped m2 x) e =
    let q : m2 ≡ m' = ground arith in
    subst (λ y. Remapped place root m y (mapped_to n a pa perm)) q x
of_mapped place root n a pa perm m m' r (some_mapped k m2 l x) e = absurd (ground arith)
of_mapped place root n a pa perm m m' r (was_mapped k l q) e = absurd (ground arith)

leaf_user :
    (pa perm : ℕ)
    → perm / 16 % 2 ≡ 1
    → perm < 1024
    → pa % 4096 ≡ 0
    → pa < 2 ^ 56
    → (is_valid (leaf_pte pa perm) ≡ true)
      × ((is_user (leaf_pte pa perm) ≡ true) × (pte2pa (leaf_pte pa perm) ≡ pa))
unfolding leaf_pte
leaf_user pa perm u p a b = (ground arith, (ground arith, omega (arith, u, p, a, b)))

in_range :
    (va size pa x : ℕ)
    → va % 4096 ≡ 0
    → size % 4096 ≡ 0
    → va ≤ x
    → x < va + size
    → (vpn 0 va ≤ vpn 0 x) × (vpn 0 x < vpn 0 va + size / 4096)
unfolding vpn
in_range va size pa x a b l h = (omega arith, omega arith)

page_of : (va x : ℕ) → va % 4096 ≡ 0 → va ≤ x → (vpn 0 x - vpn 0 va) * 4096 ≡ (x - va) / 4096 * 4096
unfolding vpn
page_of va x a l = omega arith

mapped_entry :
    (n a pa perm x old : ℕ)
    → vpn 0 a ≤ vpn 0 x
    → vpn 0 x < vpn 0 a + n
    → mapped_to n a pa perm x old ≡ leaf_pte (pa + (vpn 0 x - vpn 0 a) * 4096) perm
mapped_entry n a pa perm x old l h = ground arith

-- After mappages() of user pages returns 0, walkaddr() of an address in the range gives the physical
-- page that the address was mapped to.
pub walkaddr-mappages :
    (root va size pa perm : ℕ) (place : ℕ → Option (ℕ × ℕ)) (m m' : Pages) (x : ℕ)
    → IsTree place root m
    → AreFree place m.free
    → va % 4096 ≡ 0
    → size % 4096 ≡ 0
    → perm / 16 % 2 ≡ 1
    → perm < 1024
    → pa % 4096 ≡ 0
    → pa + size ≤ 2 ^ 56
    → mappages root va size pa perm m ≡ mapped m'
    → va ≤ x
    → x < va + size
    → x < maxva
    → walkaddr root x m' ≡ pa + (x - va) / 4096 * 4096
walkaddr-mappages root va size pa perm place m m' x t f a b u p pal top e l h s =
    let r =
      of_mapped place root (size / 4096) va pa perm m m' _
        (mappages-MapSpec root va size pa perm place m t f a b (omega arith)) e in
    let (i, j) = in_range va size pa x a b l h in
    let q = page_of va x a l in
    let g =
      r.entries x s
      ∙ mapped_entry (size / 4096) va pa perm x (find 2 root x m) i j
      ∙ ap (λ y. leaf_pte (pa + y) perm) q in
    let (v, (w, z)) =
      leaf_user (pa + (x - va) / 4096 * 4096) perm u p (omega (arith, pal)) (omega arith) in
    let c : ltb x maxva ≡ true = ground arith in
    walkaddr_lem root x r.place' m' r.tree ∙ rw (g, c, v, w) z
