-- ===== src/Sched/Choice.antt =====
-- What `shortest_job_first` and `first_come_first_service` choose.
use operating_system_laborat.Base.{
  ℕ, zero, suc, ◌+◌, ◌%◌, ◌^◌, ◌≤◌, ◌<◌, ◌≡◌, refl, sym, ap, subst, ◌⊎◌, inl, inr, Bool, true,
  false, Option, none, some, List, [], ◌∷◌, arith, ltb, Bool-cases, get_elem?, slt,
}
use operating_system_laborat.Proc.{sjf, fcfs, Proc}
use operating_system_laborat.Sched.{
  shorter, eligible, first_come_first_service, create_random_number, shortest_job_first, pointer,
  pick_loop,
}

-- No entry is eligible.
abbrev pub NoneEligible : (Proc → Bool) → List Proc → Type 0
NoneEligible elig ps = (j : ℕ) (p : Proc) → get_elem? ps j ≡ some p → elig p ≡ false

-- Entry r is eligible, has the least key of the eligible ones, and is the first with that key.
pub record FirstLeast (elig : Proc → Bool) (key : Proc → ℕ) (ps : List Proc) (r : ℕ) (x : Proc)
    : Type 0 where
  pub at_r : get_elem? ps r ≡ some x
  pub fits : elig x ≡ true
  pub least : (j : ℕ) (p : Proc) → get_elem? ps j ≡ some p → elig p ≡ true → key x ≤ key p
  pub first : (j : ℕ) (p : Proc) → j < r → get_elem? ps j ≡ some p → elig p ≡ true → key x < key p

module _ (elig : Proc → Bool) (key : Proc → ℕ) where
  abbrev below : Proc → Proc → Bool
  below p b = ltb (key p) (key b)

  -- What the loop may answer from index i on with a best so far.
  abbrev Picked : ℕ → Option (ℕ × Proc) → List Proc → Option (ℕ × Proc) → Type 0
  Picked i none ps none = NoneEligible elig ps
  Picked i none ps (some (r, x)) = (j : ℕ) × (r ≡ i + j) × FirstLeast elig key ps j x
  Picked i (some b) ps none = ⊥
  Picked i (some (b, y)) ps (some (r, x)) =
      ((r ≡ b)
        × (x ≡ y)
        × ((j : ℕ) (p : Proc) → get_elem? ps j ≡ some p → elig p ≡ true → key y ≤ key p))
      ⊎ ((j : ℕ) × (r ≡ i + j) × FirstLeast elig key ps j x × (key x < key y))

  least_cons :
      (p : Proc) (ps : List Proc) (k : ℕ)
      → (elig p ≡ true → k ≤ key p)
      → ((j : ℕ) (q : Proc) → get_elem? ps j ≡ some q → elig q ≡ true → k ≤ key q)
      → (j : ℕ) (q : Proc) → get_elem? (p ∷ ps) j ≡ some q
      → elig q ≡ true
      → k ≤ key q
  least_cons p ps k h t zero q e f = ground arith
  least_cons p ps k h t (suc j) q e f = t j q e f

  first_cons :
      (p : Proc) (ps : List Proc) (r : ℕ) (x : Proc)
      → (elig p ≡ true → key x < key p)
      → FirstLeast elig key ps r x
      → FirstLeast elig key (p ∷ ps) (suc r) x
  first_cons p ps r x h f = record {
    at_r = f.at_r;
    fits = f.fits;
    least = least_cons p ps (key x) (λ e. omega (arith, h e)) f.least;
    first = before;
  }
    where
      before :
          (j : ℕ) (q : Proc)
          → j < suc r
          → get_elem? (p ∷ ps) j ≡ some q
          → elig q ≡ true
          → key x < key q
      before zero q lt e g = ground arith
      before (suc j) q lt e g = f.first j q (omega arith) e g

  first_here :
      (p : Proc) (ps : List Proc)
      → elig p ≡ true
      → ((j : ℕ) (q : Proc) → get_elem? ps j ≡ some q → elig q ≡ true → key p ≤ key q)
      → FirstLeast elig key (p ∷ ps) 0 p
  first_here p ps e t = record {
    at_r = refl;
    fits = e;
    least = least_cons p ps (key p) (λ f. omega arith) t;
    first = λ j q lt. absurd (omega arith);
  }

  none_cons :
      (p : Proc) (ps : List Proc)
      → elig p ≡ false
      → NoneEligible elig ps
      → NoneEligible elig (p ∷ ps)
  none_cons p ps e h zero q f = ground arith
  none_cons p ps e h (suc j) q f = h j q f

  -- A round that passes p over.
  skip :
      (i : ℕ) (p : Proc) (ps : List Proc) (best r : Option (ℕ × Proc))
      → elig p ≡ false
      → Picked (i + 1) best ps r
      → Picked i best (p ∷ ps) r
  skip i p ps none none e h = none_cons p ps e h
  skip i p ps none (some (r, x)) e (j, q, f) = (suc j, omega arith, first_cons p ps j x (λ t. cc) f)
  skip i p ps (some b) none e h = h
  skip i p ps (some (b, y)) (some (r, x)) e (inl (s, t, l)) =
      inl (s, t, least_cons p ps (key y) (λ f. cc) l)
  skip i p ps (some (b, y)) (some (r, x)) e (inr (j, q, f, lt)) =
      inr (suc j, omega arith, first_cons p ps j x (λ t. cc) f, lt)

  -- A round that takes p for the best.
  take_first :
      (i : ℕ) (p : Proc) (ps : List Proc) (r : Option (ℕ × Proc))
      → elig p ≡ true
      → Picked (i + 1) (some (i, p)) ps r
      → Picked i none (p ∷ ps) r
  take_first i p ps none e h = absurd h
  take_first i p ps (some (r, x)) e (inl (s, t, l)) =
      (0, omega arith, subst (FirstLeast elig key (p ∷ ps) 0) (sym t) (first_here p ps e l))
  take_first i p ps (some (r, x)) e (inr (j, q, f, lt)) =
      (suc j, omega arith, first_cons p ps j x (λ t. lt) f)

  take_better :
      (i : ℕ) (p : Proc) (ps : List Proc) (b : ℕ) (y : Proc) (r : Option (ℕ × Proc))
      → elig p ≡ true
      → key p < key y
      → Picked (i + 1) (some (i, p)) ps r
      → Picked i (some (b, y)) (p ∷ ps) r
  take_better i p ps b y none e lt h = h
  take_better i p ps b y (some (r, x)) e lt (inl (s, t, l)) = inr (
    0,
    omega arith,
    subst (FirstLeast elig key (p ∷ ps) 0) (sym t) (first_here p ps e l),
    omega (arith, ap key t),
  )
  take_better i p ps b y (some (r, x)) e lt (inr (j, q, f, lt')) =
      inr (suc j, omega arith, first_cons p ps j x (λ t. lt') f, omega arith)

  keep_best :
      (i : ℕ) (p : Proc) (ps : List Proc) (b : ℕ) (y : Proc) (r : Option (ℕ × Proc))
      → key y ≤ key p
      → Picked (i + 1) (some (b, y)) ps r
      → Picked i (some (b, y)) (p ∷ ps) r
  keep_best i p ps b y none le h = h
  keep_best i p ps b y (some (r, x)) le (inl (s, t, l)) =
      inl (s, t, least_cons p ps (key y) (λ f. le) l)
  keep_best i p ps b y (some (r, x)) le (inr (j, q, f, lt)) =
      inr (suc j, omega arith, first_cons p ps j x (λ t. omega arith) f, lt)

  pick_loop_lem :
      (i : ℕ) (best : Option (ℕ × Proc)) (ps : List Proc)
      → Picked i best ps (pick_loop elig below i best ps)
  unfolding pick_loop
  pick_loop_lem i none [] = λ j p e. cc
  pick_loop_lem i (some (b, y)) [] = inl (refl, refl, λ j p e. cc)
  pick_loop_lem i none (p ∷ ps) = elim (Bool-cases (elig p)) [
    | inl e ↦ rw e (take_first i p ps _ e (pick_loop_lem (i + 1) (some (i, p)) ps))
    | inr e ↦ rw e (skip i p ps none _ e (pick_loop_lem (i + 1) none ps))
  ]
  pick_loop_lem i (some (b, y)) (p ∷ ps) = elim (Bool-cases (elig p)) [
    | inl e ↦ elim (Bool-cases (below p y)) [
      | inl l ↦
          rw (e, l)
            (take_better i p ps b y _ e (ground arith) (pick_loop_lem (i + 1) (some (i, p)) ps))
      | inr l ↦
          rw (e, l) (keep_best i p ps b y _ (ground arith) (pick_loop_lem (i + 1) (some (b, y)) ps))
    ]
    | inr e ↦ rw e (skip i p ps (some (b, y)) _ e (pick_loop_lem (i + 1) (some (b, y)) ps))
  ]

-- What a search answers: the null pointer if no entry is eligible, otherwise the first of the
-- eligible entries that have the least key.
abbrev pub Chosen : (Proc → Bool) → (Proc → ℕ) → List Proc → Option ℕ → Type 0
Chosen elig key ps none = NoneEligible elig ps
Chosen elig key ps (some r) = (x : Proc) × FirstLeast elig key ps r x

Picked-Chosen :
    (elig : Proc → Bool) (key : Proc → ℕ) (ps : List Proc) (r : Option (ℕ × Proc))
    → Picked elig key 0 none ps r
    → Chosen elig key ps (pointer r)
Picked-Chosen elig key ps none h = h
Picked-Chosen elig key ps (some (r, x)) (j, e, f) =
    (x, subst (λ n. FirstLeast elig key ps n x) (omega arith) f)

pick_loop-Chosen :
    (elig : Proc → Bool) (key : Proc → ℕ) (ps : List Proc)
    → Chosen elig key ps (pointer (pick_loop elig (λ p b. ltb (key p) (key b)) 0 none ps))
pick_loop-Chosen elig key ps = Picked-Chosen elig key ps _ (pick_loop_lem elig key 0 none ps)

-- The entry time as the signed comparison orders it.
abbrev pub arrival : Proc → ℕ
arrival p = (p.ti.enter_queue_time + 2 ^ 31) % 2 ^ 32

-- `first_come_first_service` answers with the runnable process of the FCFS queue whose entry
-- time is least as an int, the first of these in the table, and with the null pointer exactly if
-- there is no such process.
pub first_come_first_service_lem :
    (ps : List Proc) → Chosen (eligible fcfs) arrival ps (first_come_first_service ps)
unfolding first_come_first_service
first_come_first_service_lem ps = pick_loop-Chosen (eligible fcfs) arrival ps

-- The burst time as the signed comparison orders it.
abbrev pub burst : Proc → ℕ
burst p = (p.ti.burst_time + 2 ^ 31) % 2 ^ 32

-- Two tests that agree wherever the loop asks them choose alike.
pick_loop-congr :
    (elig : Proc → Bool) (f g : Proc → Proc → Bool) (i : ℕ) (best : Option (ℕ × Proc))
    (ps : List Proc)
    → ((j : ℕ) (p b : Proc) → get_elem? ps j ≡ some p → elig p ≡ true → f p b ≡ g p b)
    → pick_loop elig f i best ps ≡ pick_loop elig g i best ps
unfolding pick_loop
pick_loop-congr elig f g i best [] h = refl
pick_loop-congr elig f g i none (p ∷ ps) h = pick_loop-congr elig f g (i + 1) _ ps (λ j. h (suc j))
pick_loop-congr elig f g i (some (b, x)) (p ∷ ps) h = elim (Bool-cases (elig p)) [
  | inl e ↦ rw (e, h 0 p x refl e) (pick_loop-congr elig f g (i + 1) _ ps (λ j. h (suc j)))
  | inr e ↦ rw e (pick_loop-congr elig f g (i + 1) _ ps (λ j. h (suc j)))
]

-- The confidence of p is above the random number of this moment.
abbrev pub lucky : ℕ → Proc → Bool
lucky ticks p = slt (create_random_number ticks 100) p.ti.confidence

-- While every eligible process is lucky, `shortest_job_first` answers with the runnable process of
-- the SJF queue whose burst time is least as an int, the first of these in the table, and with the
-- null pointer exactly if there is no such process.
pub shortest_job_first-lucky :
    (ticks : ℕ) (ps : List Proc)
    → ((j : ℕ) (p : Proc) → get_elem? ps j ≡ some p → eligible sjf p ≡ true → lucky ticks p ≡ true)
    → Chosen (eligible sjf) burst ps (shortest_job_first ticks ps)
unfolding shortest_job_first
shortest_job_first-lucky ticks ps h =
    rw
      (pick_loop-congr (eligible sjf) (shorter ticks) (λ p b. ltb (burst p) (burst b)) 0 none ps
        (λ j p b e f. ground (arith, h j p e f)))
      (pick_loop-Chosen (eligible sjf) burst ps)

-- While no eligible process is lucky, `shortest_job_first` answers with the first runnable
-- process of the SJF queue in the table, whatever the burst times are.
pub shortest_job_first-unlucky :
    (ticks : ℕ) (ps : List Proc)
    → ((j : ℕ) (p : Proc) → get_elem? ps j ≡ some p → eligible sjf p ≡ true → lucky ticks p ≡ false)
    → Chosen (eligible sjf) (λ p. 0) ps (shortest_job_first ticks ps)
unfolding shortest_job_first
shortest_job_first-unlucky ticks ps h =
    rw
      (pick_loop-congr (eligible sjf) (shorter ticks) (λ p b. ltb 0 0) 0 none ps
        (λ j p b e f. ground (arith, h j p e f)))
      (pick_loop-Chosen (eligible sjf) (λ p. 0) ps)
