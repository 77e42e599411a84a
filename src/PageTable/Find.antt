-- ===== src/PageTable/Find.antt =====
-- kernel/vm.c: what a page table maps, the tree that it is, and walk() on it.
use liberal_os.Prelude.{
  ℕ, zero, suc, ◌+◌, ◌*◌, ◌/◌, ◌%◌, ◌^◌, ◌<◌, ◌≡◌, refl, sym, ap, ◌∙◌, ◌≢◌, true, false, Option,
  none, some, List, [], ◌∷◌, arith, if◌then◌else◌,
}
use liberal_os.PageTable.{is_valid, pte2pa, Pages, maxva, px, vpn}

-- The entry of an address, or 0: the specification of a page table.
unfoldable pub find : ℕ → ℕ → ℕ → Pages → ℕ
find zero table va m = m.ptes table (px 0 va)
find (suc level) table va m =
    let rest = find level (pte2pa (m.ptes table (px (suc level) va))) va m in
    if is_valid (m.ptes table (px (suc level) va)) then rest else 0

-- A tree of tables: `place` gives the level and the prefix of the addresses of each of its pages.
pub record IsTree (place : ℕ → Option (ℕ × ℕ)) (root : ℕ) (m : Pages) : Type 0 where
  pub top : place root ≡ some (2, 0)
  pub below :
      (p l k i : ℕ)
      → place p ≡ some (suc l, k)
      → i < 512
      → is_valid (m.ptes p i) ≡ true
      → place (pte2pa (m.ptes p i)) ≡ some (l, k * 512 + i)

abbrev pub NotIn : ℕ → List ℕ → Type 0
NotIn p [] = true ≡ true
NotIn p (q ∷ qs) = (q ≢ p) × NotIn p qs

-- The free pages are distinct pages outside the tree.
abbrev pub AreFree : (ℕ → Option (ℕ × ℕ)) → List ℕ → Type 0
AreFree place [] = true ≡ true
AreFree place (p ∷ ps) =
    ((place p ≡ none) × ((p % 4096 ≡ 0) × (p < 2 ^ 56))) × (NotIn p ps × AreFree place ps)

-- A page that is neither in the tree nor free stays so.
abbrev pub Stays : (ℕ → Option (ℕ × ℕ)) → List ℕ → (ℕ → Option (ℕ × ℕ)) → List ℕ → Type 0
Stays place ps place' ps' = (q : ℕ) → place q ≡ none → NotIn q ps → (place' q ≡ none) × NotIn q ps'

pub vpn_split : (l va : ℕ) → vpn l va ≡ vpn (suc l) va * 512 + px l va
unfolding vpn
vpn_split l va = omega arith

pub vpn_same : (l va va' : ℕ) → vpn 0 va ≡ vpn 0 va' → vpn l va ≡ vpn l va'
unfolding vpn
vpn_same zero va va' e = e
vpn_same (suc l) va va' e = ap (λ n. n / 512) (vpn_same l va va' e)

pub vpn_top : (va : ℕ) → va < maxva → vpn 3 va ≡ 0
unfolding vpn
vpn_top va h = omega arith

pub find_clear : (l q va : ℕ) (m : Pages) → ((i : ℕ) → m.ptes q i ≡ 0) → find l q va m ≡ 0
unfolding find
find_clear zero q va m h = h (px 0 va)
find_clear (suc l) q va m h = rw (h (px (suc l) va)) refl

pub find_same : (l q va va' : ℕ) (m : Pages) → vpn 0 va ≡ vpn 0 va' → find l q va m ≡ find l q va' m
unfolding find
find_same zero q va va' m e = ap (λ n. m.ptes q (n % 512)) e
find_same (suc l) q va va' m e = rw (vpn_same (suc l) va va' e) (
    ap (λ n. if is_valid (m.ptes q (px (suc l) va')) then n else 0)
      (find_same l (pte2pa (m.ptes q (px (suc l) va'))) va va' m e))

pub find_go :
    (l r va v : ℕ) (m : Pages)
    → m.ptes r (px (suc l) va) ≡ v
    → is_valid v ≡ true
    → find (suc l) r va m ≡ find l (pte2pa v) va m
unfolding find
find_go l r va v m e h = rw (e, h) refl

pub find_stop :
    (l r va v : ℕ) (m : Pages)
    → m.ptes r (px (suc l) va) ≡ v
    → is_valid v ≡ false
    → find (suc l) r va m ≡ 0
unfolding find
find_stop l r va v m e h = rw (e, h) refl

-- The table below an entry on the way to an address is the next on the way.
pub below_way :
    (place : ℕ → Option (ℕ × ℕ)) (root : ℕ) (m : Pages) (l r va : ℕ)
    → IsTree place root m
    → place r ≡ some (suc l, vpn (suc (suc l)) va)
    → is_valid (m.ptes r (px (suc l) va)) ≡ true
    → place (pte2pa (m.ptes r (px (suc l) va))) ≡ some (l, vpn (suc l) va)
below_way place root m l r va t h v =
    t.below r l (vpn (suc (suc l)) va) (px (suc l) va) h (omega arith) v
    ∙ ap (λ n. some (l, n)) (sym (vpn_split (suc l) va))
