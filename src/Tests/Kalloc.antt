-- ===== src/Tests/Kalloc.antt =====
-- Runs of the page allocator.
use liberal_os.Prelude.{ℕ, ◌≡◌, refl, [], ◌∷◌, arith, get_or, drop}
use liberal_os.Kalloc.{is_page, Kmem, kalloc}
use liberal_os.Kalloc.Free.{kalloc-IsFree, IsFree, NotIn}

-- `end` three pages below PHYSTOP.
abbrev low : ℕ
low = 2281689088

abbrev one_page : Kmem
one_page = record { words = λ a. 0; freelist = 2281693184 }

one_page-IsFree : IsFree low one_page (2281693184 ∷ [])
unfolding is_page
one_page-IsFree = record { chain = (refl, refl); pages = (refl, refl, refl) }

kalloc-IsFree_example :
    ((kalloc one_page).0 ≡ get_or (2281693184 ∷ []) 0 0)
    × IsFree low (kalloc one_page).1 (drop 1 (2281693184 ∷ []))
    × NotIn (kalloc one_page).0 (drop 1 (2281693184 ∷ []))
kalloc-IsFree_example = kalloc-IsFree low one_page (2281693184 ∷ []) (omega arith) one_page-IsFree
