-- ===== src/PageTable/Unmapped.antt =====
-- walkaddr(), ismapped() and uvmunmap() of kernel/vm.c on the map from addresses to entries.
use liberal_os.Prelude.{
  ℕ, zero, suc, ◌+◌, ◌<◌, ◌≡◌, refl, ap, ◌∙◌, subst, inl, inr, Bool, true, false, not, ◌&&◌, Option,
  none, some, ◌∷◌, arith, ltb, leb, ◌==◌, if◌then◌else◌, ==_iff, Bool-cases,
}
use liberal_os.Kalloc.{is_page}
use liberal_os.PageTable.{
  Pages, px, vpn, pte2pa, is_valid, is_user, put_pte, maxva, walk_from, walk_next, child,
}
use liberal_os.PageTable.Find.{find_same, IsTree, find, find_go, find_stop, below_way}
use liberal_os.PageTable.Walks.{Way}
use liberal_os.PageTable.Outside.{written, written-IsTree, find-written, Way-written}
use liberal_os.PageTable.Leaf.{changed, changed-IsTree, find-changed}
use liberal_os.PageTable.Mapped.{vpn_next, top, find-Way}
use liberal_os.PageTable.Map.{walkaddr, user_page, entry_of, unmap_entry, kfree_page, freed_entry}

-- How walk() without alloc ends: nothing below, or the entry of the address.
pub data LookResult (place : ℕ → Option (ℕ × ℕ)) (m : Pages) (l r va : ℕ)
    (res : Option (ℕ × ℕ) × Pages) : Type 0 where
  nothing : res ≡ (none, m) → find l r va m ≡ 0 → LookResult place m l r va res
  entry_at :
      (p : ℕ)
      → res ≡ (some (p, px 0 va), m)
      → place p ≡ some (0, vpn 1 va)
      → Way l r va m p
      → LookResult place m l r va res

look_below :
    (place : ℕ → Option (ℕ × ℕ)) (m : Pages) (l r va : ℕ) (res : Option (ℕ × ℕ) × Pages)
    → is_valid (m.ptes r (px (suc l) va)) ≡ true
    → LookResult place m l (pte2pa (m.ptes r (px (suc l) va))) va res
    → LookResult place m (suc l) r va res
look_below place m l r va res v (nothing e z) = nothing e (find_go l r va _ m refl v ∙ z)
look_below place m l r va res v (entry_at p e a w) = entry_at p e a (v, w)

pub walk_from-Look :
    (l r va root : ℕ) (place : ℕ → Option (ℕ × ℕ)) (m : Pages)
    → IsTree place root m
    → place r ≡ some (l, vpn (suc l) va)
    → LookResult place m l r va (walk_from l r va false m)
unfolding walk_from walk_next child
walk_from-Look zero r va root place m t at = entry_at r refl at refl
walk_from-Look (suc l) r va root place m t at =
    elim (Bool-cases (is_valid (m.ptes r (px (suc l) va)))) [
      | inl v ↦ rw v (
          look_below place m l r va _ v (
            walk_from-Look l (pte2pa (m.ptes r (px (suc l) va))) va root place m t
              (below_way place root m l r va t at v)))
      | inr v ↦ rw v (nothing refl (find_stop l r va _ m refl v))
    ]

from_look :
    (root va : ℕ) (place : ℕ → Option (ℕ × ℕ)) (m : Pages) (res : Option (ℕ × ℕ) × Pages)
    → LookResult place m 2 root va res
    → user_page (entry_of res) ≡ (
        if is_valid (find 2 root va m) && is_user (find 2 root va m)
        then pte2pa (find 2 root va m)
        else 0)
unfolding user_page entry_of
from_look root va place m res (nothing e z) = rw (e, z) refl
from_look root va place m res (entry_at p e a w) =
    rw (e, find-Way 2 root va m p w)
      (both (is_valid (m.ptes p (px 0 va))) (is_user (m.ptes p (px 0 va)))
        (pte2pa (m.ptes p (px 0 va))))
  where
    both :
        (v u : Bool) (pa : ℕ)
        → (if not v then 0 else if not u then 0 else pa) ≡ (if v && u then pa else 0)
    both true true pa = refl
    both true false pa = refl
    both false u pa = refl

-- walkaddr() gives the page of a user entry, and 0 for an address that has none.
pub walkaddr_lem :
    (root va : ℕ) (place : ℕ → Option (ℕ × ℕ)) (m : Pages)
    → IsTree place root m
    → walkaddr root va m ≡ (
        if ltb va maxva && (is_valid (find 2 root va m) && is_user (find 2 root va m))
        then pte2pa (find 2 root va m)
        else 0)
unfolding walkaddr
walkaddr_lem root va place m t = elim (Bool-cases (leb maxva va)) [
  | inl e ↦ ground arith
  | inr e ↦
      let h : va < maxva = ground arith in
      let g : ltb va maxva ≡ true = ground arith in
      rw (e, g)
        (from_look root va place m (walk_from 2 root va false m)
          (walk_from-Look 2 root va root place m t (top place root m va t h)))
]

-- One page is unmapped, its entry cleared when it was valid.
abbrev pub cleared : ℕ → ℕ
cleared pte = if is_valid pte then 0 else pte

abbrev pub unmapped_from : ℕ → ℕ → ℕ → ℕ → ℕ
unmapped_from n a va old =
    if leb (vpn 0 a) (vpn 0 va) && ltb (vpn 0 va) (vpn 0 a + n) then cleared old else old

pub unmapped_from_more :
    (n a va old : ℕ)
    → unmapped_from n (a + 4096) va (if vpn 0 va == vpn 0 a then cleared old else old)
      ≡ unmapped_from (suc n) a va old
unmapped_from_more n a va old = rw (vpn_next a) (cases (vpn 0 va) (vpn 0 a))
  where
    cases :
        (x y : ℕ)
        → (if leb (y + 1) x && ltb x (y + 1 + n)
            then cleared (if x == y then cleared old else old)
            else (if x == y then cleared old else old))
          ≡ (if leb y x && ltb x (y + suc n) then cleared old else old)
    cases x y = elim (Bool-cases (x == y)) [ inl e ↦ ground arith | inr e ↦ ground arith ]

pub unmapped_none : (a va old : ℕ) → unmapped_from 0 a va old ≡ old
unmapped_none a va old = none (vpn 0 a) (vpn 0 va)
  where
    none : (y x : ℕ) → (if leb y x && ltb x (y + 0) then cleared old else old) ≡ old
    none y x = ground arith

-- What one page is after a round of uvmunmap(), and the others.
abbrev pub Cleared : (ℕ → Option (ℕ × ℕ)) → ℕ → ℕ → Pages → Pages → Type 0
Cleared place root a m m' =
    IsTree place root m'
    × ((va : ℕ)
        → va < maxva
        → find 2 root va m'
          ≡ (if vpn 0 va == vpn 0 a then cleared (find 2 root va m) else find 2 root va m))

-- An entry that was not valid stays.
kept_page :
    (place : ℕ → Option (ℕ × ℕ)) (root a : ℕ) (m : Pages)
    → IsTree place root m
    → is_valid (find 2 root a m) ≡ false
    → Cleared place root a m m
kept_page place root a m t v = (
  t,
  λ va h. elim (Bool-cases (vpn 0 va == vpn 0 a)) [
    | inr e ↦ rw e refl
    | inl e ↦
        let q : is_valid (find 2 root va m) ≡ false =
          ap is_valid (find_same 2 root va a m ((==_iff _ _).0 e)) ∙ v in
        rw (e, q) refl
  ],
)

Cleared-page :
    (place : ℕ → Option (ℕ × ℕ)) (root a p : ℕ) (m mf : Pages)
    → IsTree place root mf
    → ((va : ℕ) → va < maxva → find 2 root va mf ≡ find 2 root va m)
    → a < maxva
    → place p ≡ some (0, vpn 1 a)
    → Way 2 root a mf p
    → is_valid (find 2 root a m) ≡ true
    → Cleared place root a m (put_pte p (px 0 a) 0 mf)
unfolding changed
Cleared-page place root a p m mf tf same l at w v = (
  changed-IsTree place root mf tf p a 0 at,
  λ va h.
      find-changed place root mf tf p a 0 at w l va h
      ∙ ap (λ x. if vpn 0 va == vpn 0 a then 0 else x) (same va h)
      ∙ elim (Bool-cases (vpn 0 va == vpn 0 a)) [
        | inr e ↦ rw e refl
        | inl e ↦
            let q : is_valid (find 2 root va m) ≡ true =
              ap is_valid (find_same 2 root va a m ((==_iff _ _).0 e)) ∙ v in
            rw (e, q) refl
      ],
)

-- kfree() takes the page of a valid entry, when it is asked to, and that is no table of the tree.
abbrev pub MayFree : ℕ → (ℕ → Option (ℕ × ℕ)) → Bool → ℕ → Type 0
MayFree limit place do_free pte =
    do_free ≡ true
    → is_valid pte ≡ true
    → (is_page limit (pte2pa pte) ≡ true) × (place (pte2pa pte) ≡ none)

-- A round of uvmunmap().
pub unmap_entry-Cleared :
    (limit root a : ℕ) (do_free : Bool) (place : ℕ → Option (ℕ × ℕ)) (m : Pages)
    (res : Option (ℕ × ℕ) × Pages)
    → IsTree place root m
    → a < maxva
    → LookResult place m 2 root a res
    → MayFree limit place do_free (find 2 root a m)
    → (m' : Pages) × ((unmap_entry limit do_free res ≡ some m') × Cleared place root a m m')
unfolding unmap_entry kfree_page
unmap_entry-Cleared limit root a do_free place m res t l (nothing e z) f =
    (m, (rw e refl, kept_page place root a m t (ap is_valid z)))
unmap_entry-Cleared limit root a do_free place m res t l (entry_at p e at w) f =
    rw e (elim (Bool-cases (is_valid (m.ptes p (px 0 a)))) [
      | inr v ↦
          (m, (rw v refl, kept_page place root a m t (ap is_valid (find-Way 2 root a m p w) ∙ v)))
      | inl v ↦ at_page do_free v (subst (MayFree limit place do_free) (find-Way 2 root a m p w) f)
    ])
  where
    at_page :
        (b : Bool)
        → is_valid (m.ptes p (px 0 a)) ≡ true
        → MayFree limit place b (m.ptes p (px 0 a))
        → (m' : Pages) × ((unmap_entry limit b (some (p, px 0 a), m) ≡ some m')
            × Cleared place root a m m')
    at_page false v g = (
      put_pte p (px 0 a) 0 m,
      (
        rw v refl,
        Cleared-page place root a p m m t (λ va h. refl) l at w
            (ap is_valid (find-Way 2 root a m p w) ∙ v),
      ),
    )
    at_page true v g =
        let (page, out) = g refl v in
        let pa = pte2pa (m.ptes p (px 0 a)) in
        (
          put_pte p (px 0 a) 0 (written pa (freed_entry m.free) (pa ∷ m.free) m),
          (
            rw (v, page) refl,
            Cleared-page place root a p m (written pa (freed_entry m.free) (pa ∷ m.free) m)
                (written-IsTree place root m t pa out (freed_entry m.free) (pa ∷ m.free))
                (λ va h.
                  find-written place root m t pa out (freed_entry m.free) (pa ∷ m.free) 2 root va
                    (top place root m va t h))
                l at
                (Way-written place root m t pa out (freed_entry m.free) (pa ∷ m.free) 2 root a p
                  (top place root m a t l) w)
                (ap is_valid (find-Way 2 root a m p w) ∙ v),
          ),
        )
