-- ===== src/Sched/Found.antt =====
-- That each of the three searches answers with a runnable process of its queue, or with none if there is none.
use operating_system_laborat.Base.{
  ℕ, zero, suc, ◌+◌, ◌-◌, ◌%◌, ◌≤◌, ◌<◌, ◌≡◌, refl, ◌⊎◌, inl, inr, Bool, true, false, Option, none,
  some, List, [], ◌∷◌, arith, Bool-cases, Option-cases, length, get_elem?, get_elem?-lt,
}
use operating_system_laborat.Proc.{Proc, rr, sjf, fcfs, nproc}
use operating_system_laborat.Sched.{
  eligible, eligible_at, shortest_job_first, first_come_first_service, pick_loop, pointer,
}
use operating_system_laborat.Sched.RoundRobin.{Scan}
use operating_system_laborat.Sched.Choice.{NoneEligible}

-- What the common loop answers, whatever its test.
abbrev pub Answers : (Proc → Bool) → ℕ → Option (ℕ × Proc) → List Proc → Option (ℕ × Proc) → Type 0
Answers elig i best ps none = (best ≡ none) × NoneEligible elig ps
Answers elig i best ps (some (r, x)) =
    (best ≡ some (r, x)) ⊎ ((j : ℕ) × (r ≡ i + j) × (get_elem? ps j ≡ some x) × (elig x ≡ true))

Answers-skip :
    (elig : Proc → Bool) (i : ℕ) (best : Option (ℕ × Proc)) (p : Proc) (ps : List Proc)
    (r : Option (ℕ × Proc))
    → elig p ≡ false
    → Answers elig (i + 1) best ps r
    → Answers elig i best (p ∷ ps) r
Answers-skip elig i best p ps none e (b, h) = (b, go)
  where
    go : NoneEligible elig (p ∷ ps)
    go zero q f = ground arith
    go (suc j) q f = h j q f
Answers-skip elig i best p ps (some (r, x)) e (inl h) = inl h
Answers-skip elig i best p ps (some (r, x)) e (inr (j, q, f, g)) = inr (suc j, omega arith, f, g)

Answers-take :
    (elig : Proc → Bool) (i : ℕ) (best : Option (ℕ × Proc)) (p : Proc) (ps : List Proc)
    (r : Option (ℕ × Proc))
    → elig p ≡ true
    → Answers elig (i + 1) (some (i, p)) ps r
    → Answers elig i best (p ∷ ps) r
Answers-take elig i best p ps none e (b, h) = cc
Answers-take elig i best p ps (some (r, x)) e (inl h) =
    inr (0, ground arith, ground arith, ground arith)
Answers-take elig i best p ps (some (r, x)) e (inr (j, q, f, g)) = inr (suc j, omega arith, f, g)

Answers-keep :
    (elig : Proc → Bool) (i : ℕ) (b : ℕ × Proc) (p : Proc) (ps : List Proc) (r : Option (ℕ × Proc))
    → Answers elig (i + 1) (some b) ps r
    → Answers elig i (some b) (p ∷ ps) r
Answers-keep elig i b p ps none (e, h) = cc
Answers-keep elig i b p ps (some (r, x)) (inl h) = inl h
Answers-keep elig i b p ps (some (r, x)) (inr (j, q, f, g)) = inr (suc j, omega arith, f, g)

pick_loop-Answers :
    (elig : Proc → Bool) (better : Proc → Proc → Bool) (i : ℕ) (best : Option (ℕ × Proc))
    (ps : List Proc)
    → Answers elig i best ps (pick_loop elig better i best ps)
unfolding pick_loop
pick_loop-Answers elig better i none [] = (refl, λ j p e. cc)
pick_loop-Answers elig better i (some b) [] = inl refl
pick_loop-Answers elig better i none (p ∷ ps) = elim (Bool-cases (elig p)) [
  | inl e ↦
      rw e
        (Answers-take elig i none p ps _ e (pick_loop-Answers elig better (i + 1) (some (i, p)) ps))
  | inr e ↦ rw e (Answers-skip elig i none p ps _ e (pick_loop-Answers elig better (i + 1) none ps))
]
pick_loop-Answers elig better i (some (b, x)) (p ∷ ps) = elim (Bool-cases (elig p)) [
  | inl e ↦ elim (Bool-cases (better p x)) [
    | inl l ↦
        rw (e, l)
          (Answers-take elig i (some (b, x)) p ps _ e
            (pick_loop-Answers elig better (i + 1) (some (i, p)) ps))
    | inr l ↦
        rw (e, l)
          (Answers-keep elig i (b, x) p ps _
            (pick_loop-Answers elig better (i + 1) (some (b, x)) ps))
  ]
  | inr e ↦ rw e (
      Answers-skip elig i (some (b, x)) p ps _ e
        (pick_loop-Answers elig better (i + 1) (some (b, x)) ps))
]

-- What one of the three searches answers: nothing, if no process of its queue is runnable, or
-- the place of a runnable one.
abbrev pub Finds : ℕ → List Proc → Option ℕ → Type 0
Finds q ps none = NoneEligible (eligible q) ps
Finds q ps (some i) = (p : Proc) × (get_elem? ps i ≡ some p) × (eligible q p ≡ true)

pub Answers-find :
    (q : ℕ) (ps : List Proc) (r : Option (ℕ × Proc))
    → Answers (eligible q) 0 none ps r
    → Finds q ps (pointer r)
Answers-find q ps none (e, h) = h
Answers-find q ps (some (r, x)) (inl h) = absurd (cc)
Answers-find q ps (some (r, x)) (inr (j, e, f, g)) = (x, (let s : r ≡ j = omega arith in rw s f), g)

pub sjf-Finds : (ticks : ℕ) (ps : List Proc) → Finds sjf ps (shortest_job_first ticks ps)
unfolding shortest_job_first
sjf-Finds ticks ps = Answers-find sjf ps _ (pick_loop-Answers (eligible sjf) _ 0 none ps)

pub fcfs-Finds : (ps : List Proc) → Finds fcfs ps (first_come_first_service ps)
unfolding first_come_first_service
fcfs-Finds ps = Answers-find fcfs ps _ (pick_loop-Answers (eligible fcfs) _ 0 none ps)

pub eligible_entry :
    (q : ℕ) (ps : List Proc) (i : ℕ)
    → eligible_at q ps i ≡ true
    → (p : Proc) × (get_elem? ps i ≡ some p) × (eligible q p ≡ true)
eligible_entry q ps i h = elim (Option-cases (get_elem? ps i)) [
  | inl e ↦ absurd (ground arith)
  | inr (p, e) ↦ (p, e, ground arith)
]

pub Scan-Finds :
    (last : ℕ) (ps : List Proc) (r : Option ℕ)
    → last < nproc
    → length ps ≤ nproc
    → Scan nproc last ps r
    → Finds rr ps r
Scan-Finds last ps none h l s = λ j p e.
    let lt : j < length ps = get_elem?-lt ps j e in
    let here : (last + (j + nproc - last) % nproc) % nproc ≡ j = omega arith in
    let x : eligible_at rr ps j ≡ false =
      rw here at (s ((j + nproc - last) % nproc) (omega arith)) in
    ground arith
Scan-Finds last ps (some q) h l (j, lt, e, y, b) = eligible_entry rr ps q y
