-- ===== src/Kalloc/Free.antt =====
-- The free list as a list of distinct pages.
use liberal_os.Prelude.{
  ℕ, zero, suc, ◌+◌, ◌-◌, ◌*◌, ◌/◌, ◌%◌, ◌≤◌, ◌<◌, ◌≡◌, refl, ◌≢◌, true, false, Option, none, some,
  List, [], ◌∷◌, arith, leb, ◌==◌, ==-refl, ==-false, get_or, drop,
}
use mathlib.Core.Bool.{false≢true}
use liberal_os.Proc.Memory.{page_size}
use liberal_os.Kalloc.{
  page_roundup, freerange, kinit, phystop, free_loop, junk, kalloc, kfree, Kmem, is_page, put_word,
}

-- The pages that the links from `head` lead through, to a null pointer.
abbrev pub Chain : (ℕ → ℕ) → ℕ → List ℕ → Type 0
Chain words head [] = head ≡ 0
Chain words head (p ∷ ps) = (head ≡ p) × Chain words (words p) ps

abbrev pub NotIn : ℕ → List ℕ → Type 0
NotIn p [] = true ≡ true
NotIn p (q ∷ qs) = (p ≢ q) × NotIn p qs

-- Distinct pages of the machine.
abbrev pub Pages : ℕ → List ℕ → Type 0
Pages limit [] = true ≡ true
Pages limit (p ∷ ps) = (is_page limit p ≡ true) × NotIn p ps × Pages limit ps

-- The free pages, the next one to hand out first.
pub record IsFree (limit : ℕ) (k : Kmem) (ps : List ℕ) : Type 0 where
  pub chain : Chain k.words k.freelist ps
  pub pages : Pages limit ps

put_word-Chain :
    (words : ℕ → ℕ) (q v head : ℕ) (ps : List ℕ)
    → NotIn q ps
    → Chain words head ps
    → Chain (put_word words q v) head ps
unfolding put_word
put_word-Chain words q v head [] n c = c
put_word-Chain words q v head (p ∷ ps) n c =
    (c.0, rw (==-false q p n.0) (put_word-Chain words q v (words p) ps n.1 c.1))

put_word_self : (words : ℕ → ℕ) (q v : ℕ) → put_word words q v q ≡ v
unfolding put_word
put_word_self words q v = rw (==-refl q) refl

positive : (limit p : ℕ) → 0 < limit → is_page limit p ≡ true → 0 < p
unfolding is_page
positive limit p h ok = ground arith

-- No panic, and these are the free pages after the call.
abbrev pub Ends : ℕ → Option Kmem → List ℕ → Type 0
Ends limit none ps = false ≡ true
Ends limit (some k) ps = IsFree limit k ps

-- kfree() of a page of the machine that is not free does not panic and puts the page at the head of
-- the free pages, which stay distinct.
pub kfree-Ends :
    (limit pa : ℕ) (k : Kmem) (ps : List ℕ)
    → is_page limit pa ≡ true
    → NotIn pa ps
    → IsFree limit k ps
    → Ends limit (kfree limit pa k) (pa ∷ ps)
unfolding kfree
kfree-Ends limit pa k ps ok n v = rw ok (record {
  chain = (
    refl,
    rw (put_word_self (put_word k.words pa (junk 1)) pa k.freelist) (
        put_word-Chain (put_word k.words pa (junk 1)) pa k.freelist k.freelist ps n
          (put_word-Chain k.words pa (junk 1) k.freelist ps n v.chain)),
  );
  pages = (ok, n, v.pages);
})

-- With the linker's `end` above 0, kalloc() answers the first of the free pages, which is then no
-- longer free, and the others stay free in their order; with no free page it answers 0.
pub kalloc-IsFree :
    (limit : ℕ) (k : Kmem) (ps : List ℕ)
    → 0 < limit
    → IsFree limit k ps
    → ((kalloc k).0 ≡ get_or ps 0 0)
      × IsFree limit (kalloc k).1 (drop 1 ps)
      × NotIn (kalloc k).0 (drop 1 ps)
unfolding kalloc
kalloc-IsFree limit k [] h v =
    let z : (k.freelist == 0) ≡ true = rw (v.chain) refl in rw z (refl, v, refl)
kalloc-IsFree limit k (p ∷ ps) h v =
    let nonzero : p ≢ 0 = λ e. absurd (omega (arith, positive limit p h v.pages.0)) in
    rw (v.chain.0, ==-false p 0 nonzero)
      (
        refl,
        record {
          chain = put_word-Chain k.words p (junk 5) (k.words p) ps v.pages.1 v.chain.1;
          pages = v.pages.2;
        },
        v.pages.1,
      )

-- The pages p, p + 4096, ... of n rounds of freerange(), the last one on top.
abbrev pub stack : ℕ → ℕ → List ℕ → List ℕ
stack p zero ps = ps
stack p (suc n) ps = stack (p + page_size) n (p ∷ ps)

abbrev pub Below : ℕ → List ℕ → Type 0
Below p [] = true ≡ true
Below p (q ∷ qs) = (q < p) × Below p qs

Below-NotIn : (p : ℕ) (ps : List ℕ) → Below p ps → NotIn p ps
Below-NotIn p [] b = refl
Below-NotIn p (q ∷ qs) b = ((λ e. absurd (omega arith)), Below-NotIn p qs b.1)

Below-mono : (p q : ℕ) (ps : List ℕ) → p ≤ q → Below p ps → Below q ps
Below-mono p q [] h b = refl
Below-mono p q (r ∷ ps) h b = (omega arith, Below-mono p q ps h b.1)

beyond : (p pa_end : ℕ) → pa_end < p + page_size → leb (p + page_size) pa_end ≡ false
beyond p pa_end h = ground arith

within : (p pa_end : ℕ) → p + page_size ≤ pa_end → leb (p + page_size) pa_end ≡ true
within p pa_end h = ground arith

is_page_aligned :
    (limit p : ℕ) → p % page_size ≡ 0 → limit ≤ p → p < phystop → is_page limit p ≡ true
unfolding is_page
is_page_aligned limit p a b c = ground arith

free_loop-Ends :
    (fuel limit p pa_end n : ℕ) (o : Option Kmem) (ps : List ℕ)
    → n ≤ fuel
    → p % page_size ≡ 0
    → limit ≤ p
    → p + n * page_size ≤ pa_end
    → pa_end < p + suc n * page_size
    → pa_end ≤ phystop
    → Below p ps
    → Ends limit o ps
    → Ends limit (free_loop fuel limit p pa_end o) (stack p n ps)
unfolding free_loop
free_loop-Ends fuel limit p pa_end n none ps a b c d e f g h = absurd (false≢true h)
free_loop-Ends zero limit p pa_end zero (some k) ps a b c d e f g h =
    rw (beyond p pa_end (omega arith)) h
free_loop-Ends (suc fuel) limit p pa_end zero (some k) ps a b c d e f g h =
    rw (beyond p pa_end (omega arith)) h
free_loop-Ends (suc fuel) limit p pa_end (suc n) (some k) ps a b c d e f g h =
    rw (within p pa_end (omega arith)) (
      free_loop-Ends fuel limit (p + page_size) pa_end n (kfree limit p k) (p ∷ ps) (omega arith)
        (omega arith) (omega arith) (omega arith) (omega arith) f
        (omega arith, Below-mono p (p + page_size) ps (omega arith) g)
        (kfree-Ends limit p k ps (is_page_aligned limit p b c (omega arith)) (Below-NotIn p ps g)
          h))
free_loop-Ends zero limit p pa_end (suc n) (some k) ps a b c d e f g h = absurd (omega arith)

-- When the linker's `end` is a page or more below PHYSTOP, kinit() frees, without a panic, every
-- whole page from there to PHYSTOP, the last one to be handed out first.
pub kinit-Ends :
    (limit : ℕ) (words : ℕ → ℕ)
    → limit ≤ phystop - page_size
    → Ends limit
        (kinit limit words)
        (stack (page_roundup limit) ((phystop - page_roundup limit) / page_size) [])
unfolding kinit freerange page_roundup
kinit-Ends limit words h =
    free_loop-Ends (phystop / page_size) limit (page_roundup limit) phystop
      ((phystop - page_roundup limit) / page_size) (some (record { words = words; freelist = 0 }))
      [] (omega arith) (omega arith) (omega arith) (omega arith) (omega arith) (omega arith) refl
      (record { chain = refl; pages = refl })
