-- ===== src/Proc/Pids.antt =====
-- The pids of the table: what each operation keeps, and what holds in every reachable table.
pub mod Tables
pub mod Alloc
pub mod Fork
pub mod Wait
pub mod Exit
pub mod Boot
pub mod Reach
use operating_system_laborat.Base.{
  ℕ, ◌<◌, ◌≡◌, refl, ◌∙◌, ◌≢◌, ◌⊎◌, inl, inr, true, false, some, List, arith, get_elem?,
}
use operating_system_laborat.Proc.{ProcState, unused, is_unused, Proc, Kernel}

-- No two entries have the same pid but 0, an entry in use has another pid than 0, and all pids
-- have been handed out before.
pub record Pids (k : Kernel) : Type 0 where
  pub started : 0 < k.nextpid
  pub below : (i : ℕ) (p : Proc) → get_elem? k.procs i ≡ some p → p.pid < k.nextpid
  pub unique :
      (i j : ℕ) (p q : Proc)
      → get_elem? k.procs i ≡ some p
      → get_elem? k.procs j ≡ some q
      → p.pid ≡ q.pid
      → p.pid ≢ 0
      → i ≡ j
  pub live :
      (i : ℕ) (p : Proc) → get_elem? k.procs i ≡ some p → is_unused p.state ≡ false → p.pid ≢ 0

-- Entry q may take the place of p: it has its pid and is in use only if p was, or it is free
-- and has no pid.
abbrev pub Follows : Proc → Proc → Type 0
Follows p q =
    ((q.pid ≡ p.pid) × (is_unused q.state ≡ false → is_unused p.state ≡ false))
    ⊎ ((q.pid ≡ 0) × (is_unused q.state ≡ true))

-- Each entry of the second table may take the place of the one in the first.
abbrev pub Tame : List Proc → List Proc → Type 0
Tame ps qs =
    (j : ℕ) (q : Proc)
    → get_elem? qs j ≡ some q
    → (p : Proc) × (get_elem? ps j ≡ some p) × Follows p q

pub Tame-Pids :
    (k : Kernel) (qs : List Proc) → Tame k.procs qs → Pids k → Pids (record k { procs = qs })
Tame-Pids k qs t v = record {
  started = v.started;
  below = λ i q e. let (p, f, h) = t i q e in ground (arith, v.below i p f, v.started);
  unique = λ i j a b ea eb same nz.
      let (p, f, h) = t i a ea in
      let (q, g, l) = t j b eb in v.unique i j p q f g (ground arith) (ground arith);
  live = λ i q e u. let (p, f, h) = t i q e in ground (arith, v.live i p f);
}

pub Tame-refl : (ps : List Proc) → Tame ps ps
Tame-refl ps j q e = (q, e, inl (refl, λ u. u))

pub Tame-trans : (ps qs rs : List Proc) → Tame ps qs → Tame qs rs → Tame ps rs
Tame-trans ps qs rs s t j r e =
    let (q, f, h) = t j r e in let (p, g, l) = s j q f in (p, g, follow p q r l h)
  where
    follow : (p q r : Proc) → Follows p q → Follows q r → Follows p r
    follow p q r (inl (a, b)) (inl (c, d)) = inl (c ∙ a, λ u. b (d u))
    follow p q r (inr (a, b)) (inl (c, d)) = inr (c ∙ a, ground arith)
    follow p q r h (inr l) = inr l
