-- ===== src/Sched/RoundRobin.antt =====
-- What `round_robin` chooses.
use native.Mathlib.Decide.{dec_lt}
use operating_system_laborat.Base.{
  ℕ, zero, suc, ◌+◌, ◌-◌, ◌%◌, ◌≤◌, ◌<◌, ◌≡◌, ◌∙◌, inl, inr, true, false, Option, none, some, List,
  arith, leb, if◌then◌else◌, Bool-cases,
}
use operating_system_laborat.Proc.{Proc, rr, nproc}
use operating_system_laborat.Sched.{sizeof_table, round_robin, eligible_at, round_robin_loop}

-- The place of the table reached j steps after p, going round.
abbrev pub step_from : ℕ → ℕ → ℕ
step_from p j = (p + j) % nproc

-- What a search that starts at p and makes n steps may answer.
abbrev pub Scan : ℕ → ℕ → List Proc → Option ℕ → Type 0
Scan n p ps none = (j : ℕ) → j < n → eligible_at rr ps (step_from p j) ≡ false
Scan n p ps (some q) =
    (j : ℕ) × (j < n)
    × (q ≡ step_from p j)
    × (eligible_at rr ps q ≡ true)
    × ((i : ℕ) → i < j → eligible_at rr ps (step_from p i) ≡ false)

step_next : (p q i : ℕ) → q ≡ p % nproc → step_from (q + 1) i ≡ step_from p (suc i)
step_next p q i e = omega arith

Scan-next :
    (n p q : ℕ) (ps : List Proc) (r : Option ℕ)
    → q ≡ p % nproc
    → eligible_at rr ps q ≡ false
    → Scan n (q + 1) ps r
    → Scan (suc n) p ps r
Scan-next n p q ps none e x h = go
  where
    go : (j : ℕ) → j < suc n → eligible_at rr ps (step_from p j) ≡ false
    go zero lt = let s : step_from p 0 ≡ q = omega arith in rw s x
    go (suc j) lt = rw (← step_next p q j e) (h j (omega arith))
Scan-next n p q ps (some r) e x (j, lt, at_r, yes_r, before) =
    (suc j, omega arith, at_r ∙ step_next p q j e, yes_r, go)
  where
    go : (i : ℕ) → i < suc j → eligible_at rr ps (step_from p i) ≡ false
    go zero lt' = let s : step_from p 0 ≡ q = omega arith in rw s x
    go (suc i) lt' = rw (← step_next p q i e) (before i (omega arith))

-- The index after the wrap at the end of the table.
abbrev wrap : ℕ → ℕ
wrap p = if leb nproc p then 0 else p

wrap_lem : (p : ℕ) → p ≤ nproc → (wrap p ≡ p % nproc) × (wrap p + 1 ≤ nproc)
wrap_lem p h = ground arith

Scan-hit :
    (n p q : ℕ) (ps : List Proc)
    → q ≡ p % nproc
    → eligible_at rr ps q ≡ true
    → Scan (suc n) p ps (some q)
Scan-hit n p q ps e x = (0, omega arith, omega arith, x, λ i lt. absurd (omega arith))

round_robin_loop_lem :
    (n p : ℕ) (ps : List Proc) → p ≤ nproc → Scan n p ps (round_robin_loop n p ps)
unfolding round_robin_loop
round_robin_loop_lem zero p ps h = λ j lt. absurd (omega arith)
round_robin_loop_lem (suc n) p ps h = elim (Bool-cases (eligible_at rr ps (wrap p))) [
  | inl e ↦ rw e (Scan-hit n p (wrap p) ps (wrap_lem p h).0 e)
  | inr e ↦ rw e (
      Scan-next n p (wrap p) ps _ (wrap_lem p h).0 e
        (round_robin_loop_lem n (wrap p + 1) ps (wrap_lem p h).1))
]

Scan-one_round :
    (n p : ℕ) (ps : List Proc) (r : Option ℕ) → nproc ≤ n → Scan n p ps r → Scan nproc p ps r
Scan-one_round n p ps none h s = λ j lt. s j (omega arith)
Scan-one_round n p ps (some q) h (j, lt, at_q, yes_q, before) = elim (dec_lt j nproc) [
  | yes l ↦ (j, l, at_q, yes_q, before)
  | no l ↦
      let same : q ≡ step_from p (j - nproc) = omega arith in
      let not_q : eligible_at rr ps q ≡ false = rw same (before (j - nproc) (omega arith)) in cc
]

-- `round_robin` goes once round the table from the place handed in, that place included, and
-- answers with the first runnable process of the RR queue on that way; the null pointer says that
-- none of the 64 places has one. The byte count that bounds its loop is never reached before.
pub round_robin_lem :
    (last : ℕ) (ps : List Proc) → last < nproc → Scan nproc last ps (round_robin last ps)
unfolding round_robin
round_robin_lem last ps h =
    Scan-one_round sizeof_table last ps _ (omega arith)
      (round_robin_loop_lem sizeof_table last ps (omega arith))
