-- ===== src/Vm.antt =====
-- The interface of kernel/vm.c and kernel/kalloc.c to the process code: page tables and physical
-- pages are a state that only these operations see. A page table is a number, 0 is a null pointer.
use liberal_os.Prelude.{ℕ, ◌≤◌, ◌≡◌, ◌⊎◌, Bool, Option, none, some}

pub record Vm : Type 1 where
  pub State : Type 0
  -- the page, or none
  pub kalloc : State → Option ℕ × State
  pub kfree : ℕ → State → State
  -- for a trapframe page: the page table, or none
  pub proc_pagetable : ℕ → State → Option ℕ × State
  pub proc_freepagetable : ℕ → ℕ → State → State
  -- true is 0, false is -1
  pub uvmcopy : ℕ → ℕ → ℕ → State → Bool × State
  -- the new size, or none
  pub uvmalloc : ℕ → ℕ → ℕ → State → Option ℕ × State
  pub uvmdealloc : ℕ → ℕ → ℕ → State → State
  -- uvmalloc fails or returns the new size
  pub uvmalloc_size :
      (pt old new : ℕ) (s : State)
      → old ≤ new
      → ((uvmalloc pt old new s).0 ≡ none) ⊎ ((uvmalloc pt old new s).0 ≡ some new)
