-- ===== src/Proc/Life/Calls/Exit.antt =====
-- kexit() leaves a zombie without children, and its parent awake.
use liberal_os.Prelude.{
  ℕ, zero, suc, ◌+◌, ◌<◌, ◌≡◌, refl, sym, ap, ◌∙◌, subst, ◌≢◌, inl, inr, Bool, true, false, ◌&&◌,
  Option, none, some, List, [], ◌∷◌, arith, ltb, ◌==◌, ==_iff, ==-false, Bool-cases, ℤ, length, set,
  length-set, get_or-set_self, get_or-set_ne,
}
use liberal_os.Proc.Life.Calls.{
  exit_files, exit_with, turn_zombie, reparent, exit_closed, Sys, kexit, wake_parent, is_child,
  reparent_from, reparent_slot, Inodes,
}
use liberal_os.Proc.Life.{no_proc, proc_at, wake, wakeup}
use liberal_os.Proc.{ProcState, is_sleeping, Proc}
use liberal_os.Vm.{Vm}

unfoldable pub sleeps_on : ℕ → Proc → Bool
sleeps_on chan p = is_sleeping p.state && p.chan == chan

wake-sleeps_on : (chan : ℕ) (p : Proc) → sleeps_on chan (wake chan p) ≡ false
unfolding sleeps_on wake
wake-sleeps_on chan p = elim (Bool-cases (is_sleeping p.state && p.chan == chan)) [
  | inl e ↦ rw e refl
  | inr e ↦ rw (e, e) refl
]

-- What wakeup() leaves of a slot.
wakeup-sleeps_on :
    (me chan i j : ℕ) (ps : List Proc)
    → me ≢ i + j
    → sleeps_on chan (proc_at (wakeup me chan i ps) j) ≡ false
unfolding wakeup sleeps_on
wakeup-sleeps_on me chan i j [] n = refl
wakeup-sleeps_on me chan i zero (p ∷ ps) n =
    rw (==-false i me (λ e. n (omega arith))) (wake-sleeps_on chan p)
wakeup-sleeps_on me chan i (suc j) (p ∷ ps) n =
    wakeup-sleeps_on me chan (i + 1) j ps (λ e. n (omega arith))

wake-parent : (chan : ℕ) (p : Proc) → (wake chan p).parent ≡ p.parent
unfolding wake
wake-parent chan p = elim (Bool-cases (is_sleeping p.state && p.chan == chan)) [
  | inl e ↦ rw e refl
  | inr e ↦ rw e refl
]

wakeup-parent :
    (me chan i j : ℕ) (ps : List Proc)
    → (proc_at (wakeup me chan i ps) j).parent ≡ (proc_at ps j).parent
unfolding wakeup
wakeup-parent me chan i j [] = refl
wakeup-parent me chan i zero (p ∷ ps) = elim (Bool-cases (i == me)) [
  | inl e ↦ rw e refl
  | inr e ↦ rw e (wake-parent chan p)
]
wakeup-parent me chan i (suc j) (p ∷ ps) = wakeup-parent me chan (i + 1) j ps

length-wakeup : (me chan i : ℕ) (ps : List Proc) → length (wakeup me chan i ps) ≡ length ps
unfolding wakeup
length-wakeup me chan i [] = refl
length-wakeup me chan i (p ∷ ps) = ap suc (length-wakeup me chan (i + 1) ps)

module _ (vm : Vm) (inodes : Inodes (vm.State)) (proc_chan : ℕ → ℕ) where
  reparent_slot-parent :
      (me init i j : ℕ) (ps : List Proc)
      → i ≢ j
      → (proc_at (reparent_slot vm inodes proc_chan me init i ps) j).parent ≡ (proc_at ps j).parent
  unfolding reparent_slot
  reparent_slot-parent me init i j ps n = elim (Bool-cases (is_child (proc_at ps i).parent me)) [
    | inl e ↦
        let moved = record (proc_at ps i) { parent = some init } in
        rw e (
          wakeup-parent me (proc_chan init) 0 j (set ps i moved)
          ∙ ap (λ (p : Proc). p.parent) (get_or-set_ne ps i j moved no_proc n))
    | inr e ↦ rw e refl
  ]

  reparent_slot-is_child :
      (me init i : ℕ) (ps : List Proc)
      → init ≢ me
      → i < length ps
      → is_child (proc_at (reparent_slot vm inodes proc_chan me init i ps) i).parent me ≡ false
  unfolding reparent_slot is_child
  reparent_slot-is_child me init i ps n h = elim (Bool-cases (is_child (proc_at ps i).parent me)) [
    | inl e ↦
        let moved = record (proc_at ps i) { parent = some init } in
        rw
          (
            e,
            wakeup-parent me (proc_chan init) 0 i (set ps i moved),
            get_or-set_self ps i moved no_proc h,
          )
          (==-false init me n)
    | inr e ↦ rw (e, e) refl
  ]

  length-reparent_slot :
      (me init i : ℕ) (ps : List Proc)
      → length (reparent_slot vm inodes proc_chan me init i ps) ≡ length ps
  unfolding reparent_slot
  length-reparent_slot me init i ps = elim (Bool-cases (is_child (proc_at ps i).parent me)) [
    | inl e ↦
        let moved = record (proc_at ps i) { parent = some init } in
        rw e (length-wakeup me (proc_chan init) 0 (set ps i moved) ∙ length-set ps i moved)
    | inr e ↦ rw e refl
  ]

  reparent_from-is_child :
      (me init i n : ℕ) (ps : List Proc)
      → init ≢ me
      → i + n ≡ length ps
      → ((j : ℕ) → j < i → is_child (proc_at ps j).parent me ≡ false)
      → (j : ℕ) → j < length ps
      → is_child (proc_at (reparent_from vm inodes proc_chan me init i n ps) j).parent me ≡ false
  unfolding reparent_from
  reparent_from-is_child me init i zero ps ne e done j h = done j (omega arith)
  reparent_from-is_child me init i (suc n) ps ne e done j h =
      let next = reparent_slot vm inodes proc_chan me init i ps in
      let same = length-reparent_slot me init i ps in
      reparent_from-is_child me init (i + 1) n next ne (omega (arith, same))
        (λ k below. elim (Bool-cases (ltb k i)) [
          | inl early ↦
              rw (reparent_slot-parent me init i k ps (λ f. absurd (ground arith)))
                (done k (ground arith))
          | inr late ↦
              let last : k ≡ i = ground arith in
              rw last (reparent_slot-is_child me init i ps ne (omega arith))
        ])
        j (omega (arith, same))

  wake_parent-parent :
      (me j : ℕ) (o : Option ℕ) (ps : List Proc)
      → (proc_at (wake_parent vm inodes proc_chan me o ps) j).parent ≡ (proc_at ps j).parent
  unfolding wake_parent
  wake_parent-parent me j none ps = refl
  wake_parent-parent me j (some q) ps = wakeup-parent me (proc_chan q) 0 j ps

  wake_parent-sleeps_on :
      (me q : ℕ) (o : Option ℕ) (ps : List Proc)
      → me ≢ q
      → o ≡ some q
      → sleeps_on (proc_chan q) (proc_at (wake_parent vm inodes proc_chan me o ps) q) ≡ false
  unfolding wake_parent
  wake_parent-sleeps_on me q o ps n e =
      rw e (wakeup-sleeps_on me (proc_chan q) 0 q ps (λ f. n (f ∙ omega arith)))

  length-wake_parent :
      (me : ℕ) (o : Option ℕ) (ps : List Proc)
      → length (wake_parent vm inodes proc_chan me o ps) ≡ length ps
  unfolding wake_parent
  length-wake_parent me none ps = refl
  length-wake_parent me (some q) ps = length-wakeup me (proc_chan q) 0 ps

  length-reparent_from :
      (me init i n : ℕ) (ps : List Proc)
      → length (reparent_from vm inodes proc_chan me init i n ps) ≡ length ps
  unfolding reparent_from
  length-reparent_from me init i zero ps = refl
  length-reparent_from me init i (suc n) ps =
      length-reparent_from me init (i + 1) n (reparent_slot vm inodes proc_chan me init i ps)
      ∙ length-reparent_slot me init i ps

  -- The slot of the exiting process and its relatives after kexit().
  pub record IsExited (me : ℕ) (status : ℤ) (sys s : Sys (vm.State)) : Type 0 where
    pub zombie : (proc_at s.procs me).state ≡ ProcState.zombie
    pub xstate : (proc_at s.procs me).xstate ≡ status
    pub no_child : (j : ℕ) → j < length sys.procs → is_child (proc_at s.procs j).parent me ≡ false
    pub parent_awake :
        (q : ℕ)
        → me ≢ q
        → (proc_at sys.procs me).parent ≡ some q
        → sleeps_on (proc_chan q) (proc_at s.procs q) ≡ false

  abbrev pub Exited : ℕ → ℤ → Sys (vm.State) → Option (Sys (vm.State)) → Type 0
  Exited me status sys none = false ≡ true
  Exited me status sys (some s) = IsExited me status sys s

  -- When the open files of a process other than init close and its working directory is put without
  -- a panic, kexit() does not panic. Of the system `mid` that it finds then, with what the others did
  -- while it slept: the process becomes a zombie with its exit status, no slot has it as parent any
  -- more, and its parent is not left asleep on the channel of kwait().
  pub kexit-Exited :
      (me init : ℕ) (status : ℤ) (sys mid : Sys (vm.State))
      → init ≢ me
      → exit_files vm inodes proc_chan me sys ≡ some mid
      → me < length mid.procs
      → Exited me status mid (kexit vm inodes proc_chan me init status sys)
  unfolding kexit exit_with exit_closed reparent turn_zombie
  kexit-Exited me init status sys mid ne closed inside =
      let p = proc_at mid.procs me in
      let gone = set mid.procs me (record p { cwd = none }) in
      let moved = reparent_from vm inodes proc_chan me init 0 (length gone) gone in
      let woken = wake_parent vm inodes proc_chan me p.parent moved in
      let size : length woken ≡ length mid.procs =
        length-wake_parent me p.parent moved
        ∙ length-reparent_from me init 0 (length gone) gone
        ∙ length-set mid.procs me (record p { cwd = none }) in
      let here : proc_at (set woken me (turn_zombie status (proc_at woken me))) me
          ≡ turn_zombie status (proc_at woken me) =
        get_or-set_self woken me (turn_zombie status (proc_at woken me)) no_proc
          (omega (arith, size)) in
      let parents : (j : ℕ) → j < length mid.procs → is_child (proc_at woken j).parent me ≡ false =
        λ j h. rw (wake_parent-parent me j p.parent moved) (
          reparent_from-is_child me init 0 (length gone) gone ne (omega arith)
            (λ k below. absurd (omega arith)) j
            (rw (length-set mid.procs me (record p { cwd = none })) h)) in
      let no_child : (j : ℕ)
          → j < length mid.procs
          → is_child (proc_at (set woken me (turn_zombie status (proc_at woken me))) j).parent me
            ≡ false =
        λ j h. elim (Bool-cases (me == j)) [
          | inl e ↦
              subst
                (λ k.
                  is_child (proc_at (set woken me (turn_zombie status (proc_at woken me))) k).parent
                    me
                  ≡ false)
                ((==_iff me j).0 e) (rw here (parents me inside))
          | inr e ↦
              rw
                (get_or-set_ne woken me j (turn_zombie status (proc_at woken me)) no_proc
                  (λ f. absurd (ground arith)))
                (parents j h)
        ] in
      let awake : (q : ℕ)
          → me ≢ q
          → p.parent ≡ some q
          → sleeps_on (proc_chan q)
              (proc_at (set woken me (turn_zombie status (proc_at woken me))) q)
            ≡ false =
        λ q n e.
          rw (get_or-set_ne woken me q (turn_zombie status (proc_at woken me)) no_proc n)
            (wake_parent-sleeps_on me q p.parent moved n e) in
      rw (==-false me init (λ e. ne (sym e)), closed)
        (record {
          zombie = rw here refl;
          xstate = rw here refl;
          no_child = λ j h. no_child j h;
          parent_awake = λ q n e. awake q n e;
        })
