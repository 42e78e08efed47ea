-- ===== src/Sched/Aging.antt =====
-- `aging` against its specification, process by process.
use mathlib.Core.Option
use operating_system_laborat.Base.{
  ℕ, zero, suc, ◌+◌, ◌≤◌, ◌<◌, ◌≡◌, refl, sym, ap, ap₂, ◌∙◌, inl, inr, true, ◌&&◌, ◌||◌, Option,
  none, some, List, [], ◌∷◌, map, arith, ltb, leb, ◌==◌, if◌then◌else◌, Option-cases, length,
  get_elem?, get_elem?-lt, ok,
}
use operating_system_laborat.Proc.{is_runnable, Proc, Kernel, rr, sjf, fcfs, nproc}
use operating_system_laborat.Proc.Lookup.{modify, change_queue}
use operating_system_laborat.Proc.Lookup.Laws.{
  get_elem?-map, Answer, get_proc_by_pid_lem, get_elem?-modify, length-modify,
}
use operating_system_laborat.Sched.{waited, age_entry, aging_loop, aging}

-- A runnable process shares its pid with no other entry.
abbrev pub UniquePids : List Proc → Type 0
UniquePids ps =
    (i j : ℕ) (p q : Proc)
    → get_elem? ps i ≡ some p
    → get_elem? ps j ≡ some q
    → is_runnable p.state ≡ true
    → p.pid ≡ q.pid
    → i ≡ j

-- The queue above, for a process of the lower two.
abbrev pub next_queue : ℕ → ℕ
next_queue q = if q == fcfs then sjf else rr

-- A runnable process of the lower two queues that has waited too long moves up by one queue, and
-- its wait begins anew.
abbrev pub promote : ℕ → Proc → Proc
promote t p =
    if is_runnable p.state && (p.ti.queue == sjf || p.ti.queue == fcfs) && waited t p
    then record p { ti = record (p.ti) { queue = next_queue p.ti.queue; enter_queue_time = t } }
    else p

found_at :
    (i : ℕ) (p : Proc) (pid : ℕ) (ps : List Proc) (r : Option ℕ)
    → UniquePids ps
    → get_elem? ps i ≡ some p
    → is_runnable p.state ≡ true
    → p.pid ≡ pid
    → Answer pid ps 0 r
    → r ≡ some i
found_at i p pid ps none u e run h a = absurd (a i p e h)
found_at i p pid ps (some r) u e run h (j, s, f) =
    ap some (s ∙ (let t : i ≡ j = u i j p f.entry e f.at_i run (h ∙ sym f.has_pid) in omega arith))

change_queue-at :
    (i : ℕ) (p : Proc) (target : ℕ) (k : Kernel)
    → UniquePids k.procs
    → get_elem? k.procs i ≡ some p
    → is_runnable p.state ≡ true
    → change_queue p.pid target k
      ≡ ok (record k {
        procs =
            modify i
              (λ x. record x { ti = record (x.ti) { queue = target; enter_queue_time = k.ticks } })
              k.procs;
      })
unfolding change_queue
change_queue-at i p target k u e run =
    rw (found_at i p p.pid k.procs _ u e run refl (get_proc_by_pid_lem p.pid k), change_queue)

same {ℓ} : {A : Type ℓ} (x y : A) → some x ≡ some y → x ≡ y
same x y e = cc

list_ext {ℓ} : {A : Type ℓ} (xs ys : List A) → ((i : ℕ) → get_elem? xs i ≡ get_elem? ys i) → xs ≡ ys
list_ext [] [] h = refl
list_ext [] (y ∷ ys) h = absurd (let e = h 0 in cc)
list_ext (x ∷ xs) [] h = absurd (let e = h 0 in cc)
list_ext (x ∷ xs) (y ∷ ys) h = ap₂ ◌∷◌ (same x y (h 0)) (list_ext xs ys (λ i. h (suc i)))

-- Two changes that agree on the entry make the same table.
modify-congr :
    (i : ℕ) (f g : Proc → Proc) (ps : List Proc) (p : Proc)
    → get_elem? ps i ≡ some p
    → f p ≡ g p
    → modify i f ps ≡ modify i g ps
unfolding modify
modify-congr i f g [] p e h = refl
modify-congr zero f g (x ∷ ps) p e h = ap (λ y. y ∷ ps) (let t : x ≡ p = cc in rw t h)
modify-congr (suc i) f g (x ∷ ps) p e h = ap (λ ys. x ∷ ys) (modify-congr i f g ps p e h)

modify_same : (i : ℕ) (ps : List Proc) → modify i (λ p. p) ps ≡ ps
unfolding modify
modify_same i [] = refl
modify_same zero (x ∷ ps) = refl
modify_same (suc i) (x ∷ ps) = ap (λ ys. x ∷ ys) (modify_same i ps)

age_change :
    (i : ℕ) (p : Proc) (target : ℕ) (k : Kernel)
    → UniquePids k.procs
    → get_elem? k.procs i ≡ some p
    → is_runnable p.state ≡ true
    → promote k.ticks p
      ≡ record p { ti = record (p.ti) { queue = target; enter_queue_time = k.ticks } }
    → change_queue p.pid target k ≡ ok (record k { procs = modify i (promote k.ticks) k.procs })
age_change i p target k u e run h =
    change_queue-at i p target k u e run
    ∙ ap (λ ps. ok (record k { procs = ps }))
        (modify-congr i _ (promote k.ticks) k.procs p e (sym h))

age_nothing :
    (i : ℕ) (p : Proc) (k : Kernel)
    → get_elem? k.procs i ≡ some p
    → promote k.ticks p ≡ p
    → ok k ≡ ok (record k { procs = modify i (promote k.ticks) k.procs })
age_nothing i p k e h =
    ap (λ ps. ok (record k { procs = ps }))
      (sym (modify-congr i (promote k.ticks) (λ x. x) k.procs p e h ∙ modify_same i k.procs))

age_entry_lem :
    (i : ℕ) (p : Proc) (k : Kernel)
    → UniquePids k.procs
    → get_elem? k.procs i ≡ some p
    → age_entry i k ≡ ok (record k { procs = modify i (promote k.ticks) k.procs })
unfolding age_entry
age_entry_lem i p k u e =
    rw (e, age_entry)
      (ground (arith, age_change i p rr k u e, age_change i p sjf k u e, age_nothing i p k e))

-- Promotion keeps the pid and the state.
promote_keeps : (t : ℕ) (p : Proc) → ((promote t p).pid ≡ p.pid) × ((promote t p).state ≡ p.state)
promote_keeps t p = ground arith

-- The entry that stood where the changed table has one.
before_promote :
    (i : ℕ) (t : ℕ) (ps : List Proc) (j : ℕ) (q : Proc)
    → get_elem? (modify i (promote t) ps) j ≡ some q
    → (p : Proc) × (get_elem? ps j ≡ some p) × (q.pid ≡ p.pid) × (q.state ≡ p.state)
before_promote i t ps j q e = elim (Option-cases (get_elem? ps j)) [
  | inl f ↦ absurd (ground (arith, get_elem?-modify i (promote t) ps j))
  | inr (p, f) ↦ (
    p,
    f,
    ground (arith, get_elem?-modify i (promote t) ps j, promote_keeps t p),
    ground (arith, get_elem?-modify i (promote t) ps j, promote_keeps t p),
  )
]

promote-UniquePids :
    (i t : ℕ) (ps : List Proc) → UniquePids ps → UniquePids (modify i (promote t) ps)
promote-UniquePids i t ps u a b p q ea eb run same =
    let (p', fa, pa, sa) = before_promote i t ps a p ea in
    let (q', fb, pb, sb) = before_promote i t ps b q eb in
    u a b p' q' fa fb (rw (← sa) run) (sym pa ∙ same ∙ pb)

-- The n entries from i on promoted, one after another.
promote_range : ℕ → ℕ → ℕ → List Proc → List Proc
promote_range t zero i ps = ps
promote_range t (suc n) i ps = promote_range t n (i + 1) (modify i (promote t) ps)

aging_loop_lem :
    (n i : ℕ) (k : Kernel)
    → UniquePids k.procs
    → i + n ≤ length k.procs
    → aging_loop n i k ≡ ok (record k { procs = promote_range k.ticks n i k.procs })
unfolding aging_loop promote_range
aging_loop_lem zero i k u h = refl
aging_loop_lem (suc n) i k u h =
    let (p, e) = entry i k.procs (omega arith) in
    rw (age_entry_lem i p k u e) (
      aging_loop_lem n (i + 1) (record k { procs = modify i (promote k.ticks) k.procs })
        (promote-UniquePids i k.ticks k.procs u)
        (omega (arith, length-modify i (promote k.ticks) k.procs)))
  where
    entry : (i : ℕ) (ps : List Proc) → i < length ps → (p : Proc) × (get_elem? ps i ≡ some p)
    entry i [] lt = absurd (omega arith)
    entry zero (p ∷ ps) lt = (p, refl)
    entry (suc i) (p ∷ ps) lt = entry i ps (omega arith)

promote_range-entry :
    (t n i : ℕ) (ps : List Proc) (j : ℕ)
    → get_elem? (promote_range t n i ps) j ≡ (
        if leb i j && ltb j (i + n)
        then Option.map (promote t) (get_elem? ps j)
        else get_elem? ps j)
unfolding promote_range
promote_range-entry t zero i ps j = ground arith
promote_range-entry t (suc n) i ps j = ground (
  arith,
  promote_range-entry t n (i + 1) (modify i (promote t) ps) j,
  get_elem?-modify i (promote t) ps j,
)

promote_range-all : (t : ℕ) (ps : List Proc) → promote_range t (length ps) 0 ps ≡ map (promote t) ps
promote_range-all t ps = list_ext _ _ (λ j.
    promote_range-entry t (length ps) 0 ps j ∙ inside j ∙ sym (get_elem?-map (promote t) ps j))
  where
    inside :
        (j : ℕ)
        → (if leb 0 j && ltb j (0 + length ps)
            then Option.map (promote t) (get_elem? ps j)
            else get_elem? ps j)
          ≡ Option.map (promote t) (get_elem? ps j)
    inside j = elim (Option-cases (get_elem? ps j)) [
      | inl e ↦ ground arith
      | inr (p, e) ↦ ground (arith, get_elem?-lt ps j e)
    ]

-- On a full table whose runnable processes have pids of their own, `aging` ends, and promotes each
-- process by itself: the runnable ones of the lower two queues that have waited more than 800
-- ticks since they last ran and since they entered the queue go up by one queue. Nothing else changes.
pub aging_lem :
    (k : Kernel)
    → length k.procs ≡ nproc
    → UniquePids k.procs
    → aging k ≡ ok (record k { procs = map (promote k.ticks) k.procs })
unfolding aging
aging_lem k h u =
    aging_loop_lem nproc 0 k u (omega arith)
    ∙ ap (λ ps. ok (record k { procs = ps }))
        (ap (λ n. promote_range k.ticks n 0 k.procs) (sym h) ∙ promote_range-all k.ticks k.procs)
