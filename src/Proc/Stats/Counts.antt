-- ===== src/Proc/Stats/Counts.antt =====
-- What the counts of system calls add up to, and which is greatest.
use operating_system_laborat.Base.{
  ℕ, zero, suc, ◌+◌, ◌^◌, ◌≤◌, ◌<◌, ◌≡◌, refl, sym, ap, ◌⊎◌, inl, inr, none, some, List, [], ◌∷◌,
  arith, Bool-cases, Option-cases, get_elem?, u32, slt, minus_one,
}
use operating_system_laborat.Proc.{Proc, Kernel}
use operating_system_laborat.Proc.Stats.{
  get_proc_by_pid, most_loop, get_most_invoked_syscall, entry_of, total_loop, get_total_syscalls,
}

-- Every count is an int that is not negative.
abbrev pub Counts : List ℕ → Type 0
Counts [] = Unit
Counts (c ∷ cs) = (c < 2 ^ 31) × Counts cs

-- No count is above m.
abbrev pub NoneAbove : List ℕ → ℕ → Type 0
NoneAbove cs m = (j c : ℕ) → get_elem? cs j ≡ some c → c ≤ m

-- Entry j is m, which is greater than every entry before.
pub record FirstGreatest (cs : List ℕ) (j m : ℕ) : Type 0 where
  pub at_j : get_elem? cs j ≡ some m
  pub before : (l c : ℕ) → l < j → get_elem? cs l ≡ some c → c < m

-- What the loop answers from index i on, with the best so far.
abbrev Best : ℕ → ℕ → ℕ → List ℕ → ℕ × ℕ → Type 0
Best i best most cs r =
    (most ≤ r.1)
    × NoneAbove cs r.1
    × ((r ≡ (best, most)) ⊎ ((j : ℕ) × (r.0 ≡ i + j) × (most < r.1) × FirstGreatest cs j r.1))

NoneAbove-cons : (c : ℕ) (cs : List ℕ) (m : ℕ) → c ≤ m → NoneAbove cs m → NoneAbove (c ∷ cs) m
NoneAbove-cons c cs m le h zero d e = ground arith
NoneAbove-cons c cs m le h (suc j) d e = h j d e

first_cons :
    (c : ℕ) (cs : List ℕ) (j m : ℕ)
    → c < m
    → FirstGreatest cs j m
    → FirstGreatest (c ∷ cs) (suc j) m
first_cons c cs j m lt f = record { at_j = f.at_j; before = go }
  where
    go : (l d : ℕ) → l < suc j → get_elem? (c ∷ cs) l ≡ some d → d < m
    go zero d h e = ground arith
    go (suc l) d h e = f.before l d (omega arith) e

Best-above :
    (i best most c : ℕ) (cs : List ℕ) (r : ℕ × ℕ)
    → most < c
    → Best (i + 1) i c cs r
    → Best i best most (c ∷ cs) r
Best-above i best most c cs r lt (le, h, inl e) =
    let top : r.1 ≡ c = ap (λ x. x.1) e in
    let place : r.0 ≡ i = ap (λ x. x.0) e in
    (
      omega arith,
      NoneAbove-cons c cs r.1 le h,
      inr (
        0,
        omega arith,
        omega arith,
        record { at_j = ap some (sym top); before = λ l d l0. absurd (omega arith) },
      ),
    )
Best-above i best most c cs r lt (le, h, inr (j, e, m, f)) = (
  omega arith,
  NoneAbove-cons c cs r.1 le h,
  inr (suc j, omega arith, omega arith, first_cons c cs j r.1 m f),
)

Best-below :
    (i best most c : ℕ) (cs : List ℕ) (r : ℕ × ℕ)
    → c ≤ most
    → Best (i + 1) best most cs r
    → Best i best most (c ∷ cs) r
Best-below i best most c cs r lt (le, h, inl e) =
    (le, NoneAbove-cons c cs r.1 (omega arith) h, inl e)
Best-below i best most c cs r lt (le, h, inr (j, e, m, f)) = (
  le,
  NoneAbove-cons c cs r.1 (omega arith) h,
  inr (suc j, omega arith, m, first_cons c cs j r.1 (omega arith) f),
)

most_loop_lem :
    (i best most : ℕ) (cs : List ℕ)
    → most < 2 ^ 31
    → Counts cs
    → Best i best most cs (most_loop i best most cs)
unfolding most_loop
most_loop_lem i best most [] h v = (omega arith, (λ j c e. cc), inl refl)
most_loop_lem i best most (c ∷ cs) h (b, v) = elim (Bool-cases (slt most c)) [
  | inl y ↦ rw y (Best-above i best most c cs _ (ground arith) (most_loop_lem (i + 1) i c cs b v))
  | inr n ↦
      rw n (Best-below i best most c cs _ (ground arith) (most_loop_lem (i + 1) best most cs h v))
]

-- What is printed: the first system call that is used most and its count, or number 1 and a count of 0.
abbrev pub MostUsed : List ℕ → ℕ × ℕ → Type 0
MostUsed cs r =
    NoneAbove cs r.1 × ((r ≡ (1, 0)) ⊎ ((j : ℕ) × (r.0 ≡ j + 1) × FirstGreatest cs j r.1))

most_used :
    (cs : List ℕ) → Counts cs → MostUsed cs ((most_loop 0 0 0 cs).0 + 1, (most_loop 0 0 0 cs).1)
most_used cs v = let (le, h, c) = most_loop_lem 0 0 0 cs (omega arith) v in (h, pick c)
  where
    pick :
        ((most_loop 0 0 0 cs ≡ (0, 0))
          ⊎ ((j : ℕ) × ((most_loop 0 0 0 cs).0 ≡ 0 + j)
              × (0 < (most_loop 0 0 0 cs).1)
              × FirstGreatest cs j (most_loop 0 0 0 cs).1))
        → ((let printed : ℕ × ℕ = ((most_loop 0 0 0 cs).0 + 1, (most_loop 0 0 0 cs).1) in printed)
            ≡ (1, 0))
          ⊎ ((j : ℕ) × ((most_loop 0 0 0 cs).0 + 1 ≡ j + 1)
              × FirstGreatest cs j (most_loop 0 0 0 cs).1)
    pick (inl e) = inl (let f : ℕ × ℕ → ℕ × ℕ = (λ x. (x.0 + 1, x.1)) in ap f e)
    pick (inr (j, e, m, f)) = inr (j, omega arith, f)

entry_of-place :
    (pid : ℕ) (k : Kernel) (p : Proc)
    → entry_of pid k ≡ some p
    → (i : ℕ) × (get_elem? k.procs i ≡ some p)
unfolding entry_of
entry_of-place pid k p e = elim (Option-cases (get_proc_by_pid pid k)) [
  | inl f ↦ absurd (ground arith)
  | inr (i, f) ↦ (i, ground arith)
]

-- `get_most_invoked_syscall` returns -1 and prints nothing if no entry of the table has the pid.
-- Otherwise it returns 0 and prints the first system call whose count is greatest with its count,
-- or the number 1 and the count 0 when no counted call was made, provided no count has passed 2^31.
pub get_most_invoked_syscall_lem :
    (pid : ℕ) (k : Kernel)
    → ((i : ℕ) (p : Proc) → get_elem? k.procs i ≡ some p → Counts p.used_syscalls)
    → ((entry_of pid k ≡ none) × (get_most_invoked_syscall pid k ≡ (minus_one, none)))
      ⊎ ((p : Proc) × (r : ℕ × ℕ) × (entry_of pid k ≡ some p)
          × (get_most_invoked_syscall pid k ≡ (0, some r))
          × MostUsed p.used_syscalls r)
unfolding get_most_invoked_syscall
get_most_invoked_syscall_lem pid k v = elim (Option-cases (entry_of pid k)) [
  | inl e ↦ inl (e, rw (e, get_most_invoked_syscall))
  | inr (p, e) ↦
      let (i, at_i) = entry_of-place pid k p e in
      inr (
        p,
        ((most_loop 0 0 0 p.used_syscalls).0 + 1, (most_loop 0 0 0 p.used_syscalls).1),
        e,
        rw (e, get_most_invoked_syscall),
        most_used p.used_syscalls (v i p at_i),
      )
]

abbrev pub sum : List ℕ → ℕ
sum [] = 0
sum (c ∷ cs) = c + sum cs

total_loop_lem : (n : ℕ) (cs : List ℕ) → n < 2 ^ 32 → total_loop n cs ≡ u32 (n + sum cs)
unfolding total_loop
total_loop_lem n [] h = omega arith
total_loop_lem n (c ∷ cs) h = omega (arith, total_loop_lem (u32 (n + c)) cs)

-- `get_total_syscalls` returns the sum of the 26 counts as an int, or -1 if no entry has the pid.
pub get_total_syscalls_lem :
    (pid : ℕ) (k : Kernel)
    → ((entry_of pid k ≡ none) × (get_total_syscalls pid k ≡ minus_one))
      ⊎ ((p : Proc) × (entry_of pid k ≡ some p)
          × (get_total_syscalls pid k ≡ u32 (sum p.used_syscalls)))
unfolding get_total_syscalls
get_total_syscalls_lem pid k = elim (Option-cases (entry_of pid k)) [
  | inl e ↦ inl (e, rw (e, get_total_syscalls))
  | inr (p, e) ↦
      inr (p, e, rw (e, get_total_syscalls) (omega (arith, total_loop_lem 0 p.used_syscalls)))
]
