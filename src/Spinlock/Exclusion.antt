-- ===== src/Spinlock/Exclusion.antt =====
-- Mutual exclusion, and that no correct use of the lock panics.
use operating_system_laborat.Base.{
  ℕ, ◌+◌, ◌-◌, ◌<◌, ◌≡◌, refl, sym, ap, subst, ◌↔◌, inl, inr, Bool, true, false, ◌&&◌, none, some,
  List, [], ◌∷◌, arith, ltb, ◌==◌, if◌then◌else◌, Bool-cases, Outcome, ok,
}
use operating_system_laborat.Spinlock.{
  Core, pushcli, popcli, SpinLock, initlock, is_cpu, holding, Phase, outside, spinning, taken,
  inside, releasing, acquire_start, xchg_step, release_start, Machine, put, step, run,
}

-- The processor has taken the lock's word and not yet given it back.
abbrev pub holds : Phase → Bool
holds outside = false
holds spinning = false
holds taken = true
holds inside = true
holds releasing = true

abbrev pub is_outside : Phase → Bool
is_outside outside = true
is_outside _ = false

-- Interrupts are off while pushcli calls are open, and one is open wherever the lock is wanted or held.
abbrev pub CoreOk : Core → Phase → Type 0
CoreOk c p = (0 < c.ncli → c.eflags_if ≡ false) × (is_outside p ≡ false → 0 < c.ncli)

pub record Inv (m : Machine) : Type 0 where
  pub one : (i j : ℕ) → holds (m.phase i) ≡ true → holds (m.phase j) ≡ true → i ≡ j
  pub free : (i : ℕ) → m.lock.locked ≡ false → holds (m.phase i) ≡ false
  pub owner_in : (i : ℕ) → m.phase i ≡ inside → is_cpu m.lock.cpu i ≡ true
  pub owner_out : (i : ℕ) → is_cpu m.lock.cpu i ≡ true → m.phase i ≡ inside
  pub cores : (i : ℕ) → CoreOk (m.core i) (m.phase i)

popcli-pushcli : (c : Core) → 0 < c.ncli → c.eflags_if ≡ false → popcli (pushcli c) ≡ ok c
unfolding popcli pushcli
popcli-pushcli c h e =
    let enough : ltb (c.ncli + 1) 1 ≡ false = ground arith in
    let off : (c.ncli == 0) ≡ false = ground arith in
    let back : c.ncli + 1 - 1 ≡ c.ncli = omega arith in
    rw (enough, back, off) (ap (λ b. ok (record c { eflags_if = b })) (sym e))

holding_lem :
    (i : ℕ) (lk : SpinLock) (c : Core)
    → 0 < c.ncli
    → c.eflags_if ≡ false
    → holding i lk c ≡ ok (lk.locked && is_cpu lk.cpu i, c)
unfolding holding
holding_lem i lk c h e = rw (popcli-pushcli c h e)

acquire_start_lem :
    (i : ℕ) (lk : SpinLock) (c : Core)
    → is_cpu lk.cpu i ≡ false
    → acquire_start i lk c ≡ ok (pushcli c)
unfolding acquire_start pushcli
acquire_start_lem i lk c h = rw (holding_lem i lk (pushcli c) (omega arith) refl) (ground arith)

release_start_lem :
    (i : ℕ) (lk : SpinLock) (c : Core)
    → 0 < c.ncli
    → c.eflags_if ≡ false
    → lk.locked ≡ true
    → is_cpu lk.cpu i ≡ true
    → release_start i lk c ≡ ok (record lk { cpu = none }, c)
unfolding release_start
release_start_lem i lk c h e l o = rw (holding_lem i lk c h e) (ground arith)

-- What popcli gives back.
abbrev popped : Core → Core
popped c = record c {
  ncli = c.ncli - 1;
  eflags_if = if c.ncli - 1 == 0 && c.intena then true else c.eflags_if;
}

popcli_lem :
    (c : Core)
    → 0 < c.ncli
    → c.eflags_if ≡ false
    → (popcli c ≡ ok (popped c)) × (0 < c.ncli - 1 → (popped c).eflags_if ≡ false)
unfolding popcli
popcli_lem c h e =
    let one : ltb c.ncli 1 ≡ false = ground arith in (rw (e, one) refl, λ l. ground arith)

put_all :
    (P : Core → Phase → Type 0) (core : ℕ → Core) (phase : ℕ → Phase) (i : ℕ) (c : Core) (p : Phase)
    → P c p
    → ((a : ℕ) → P (core a) (phase a))
    → (a : ℕ) → P (put core i c a) (put phase i p a)
put_all P core phase i c p h f a = elim (Bool-cases (a == i)) [
  | inl e ↦ rw e h
  | inr e ↦ rw e (f a)
]

put_phase :
    (core : ℕ → Core) (phase : ℕ → Phase) (i : ℕ) (p : Phase)
    → CoreOk (core i) p
    → ((a : ℕ) → CoreOk (core a) (phase a))
    → (a : ℕ) → CoreOk (core a) (put phase i p a)
put_phase core phase i p h f a = elim (Bool-cases (a == i)) [
  | inl e ↦ let s : i ≡ a = ground arith in rw e (subst (λ n. CoreOk (core n) p) s h)
  | inr e ↦ rw e (f a)
]

-- The machine after processor i has got to phase p, with the lock lk and its own state c.
abbrev moved : Machine → ℕ → SpinLock → Core → Phase → Machine
moved m i lk c p = record { lock = lk; core = put m.core i c; phase = put m.phase i p }

-- The result of a step, and that the invariant holds there.
abbrev Good : Outcome Machine → Type 0
Good r = (m : Machine) × (r ≡ ok m) × Inv m

pushed : (c : Core) → CoreOk (pushcli c) spinning
unfolding pushcli
pushed c = (λ l. refl, λ e. omega arith)

start-Good : (i : ℕ) (m : Machine) → Inv m → m.phase i ≡ outside → Good (step i m)
unfolding step
start-Good i m v at_i =
    let quiet : is_cpu m.lock.cpu i ≡ false = ground (arith, v.owner_out i) in
    let m' : Machine = moved m i m.lock (pushcli (m.core i)) spinning in
    (
      m',
      rw (at_i, step) (rw (acquire_start_lem i m.lock (m.core i) quiet) refl),
      record {
        one = λ a b x y. ground (arith, v.one a b);
        free = λ a f. ground (arith, v.free a f);
        owner_in = λ a x. ground (arith, v.owner_in a);
        owner_out = λ a x. ground (arith, v.owner_out a);
        cores =
            put_all CoreOk m.core m.phase i (pushcli (m.core i)) spinning (pushed (m.core i))
              v.cores;
      },
    )

spin-Good : (i : ℕ) (m : Machine) → Inv m → m.phase i ≡ spinning → Good (step i m)
unfolding step xchg_step
spin-Good i m v at_i =
    let (off, open_) = v.cores i in
    let open' : 0 < (m.core i).ncli = open_ (rw at_i refl) in
    elim (Bool-cases (m.lock.locked)) [
      | inl l ↦ (
        record m { lock = record (m.lock) { locked = true }; phase = put m.phase i spinning },
        rw (at_i, step) (rw l refl),
        record {
          one = λ a b x y. ground (arith, v.one a b);
          free = λ a f. ground arith;
          owner_in = λ a x. ground (arith, v.owner_in a);
          owner_out = λ a x. ground (arith, v.owner_out a);
          cores = put_phase m.core m.phase i spinning (off, λ e. open') v.cores;
        },
      )
      | inr l ↦ (
        record m { lock = record (m.lock) { locked = true }; phase = put m.phase i taken },
        rw (at_i, step) (rw l refl),
        record {
          one = λ a b x y. ground (arith, v.free a l, v.free b l);
          free = λ a f. ground arith;
          owner_in = λ a x. ground (arith, v.owner_in a);
          owner_out = λ a x. ground (arith, v.owner_out a, v.free a l);
          cores = put_phase m.core m.phase i taken (off, λ e. open') v.cores;
        },
      )
    ]

take-Good : (i : ℕ) (m : Machine) → Inv m → m.phase i ≡ taken → Good (step i m)
unfolding step
take-Good i m v at_i =
    let (off, open_) = v.cores i in
    let open' : 0 < (m.core i).ncli = open_ (rw at_i refl) in
    let held : holds (m.phase i) ≡ true = rw at_i refl in
    let lk : SpinLock = record (m.lock) { cpu = some i } in
    let m' : Machine = record m { lock = lk; phase = put m.phase i inside } in
    (
      m',
      rw (at_i, step) refl,
      record {
        one = λ a b x y. ground (arith, v.one a b);
        free = λ a f. ground (arith, v.free a f, v.free i f);
        owner_in = λ a x. ground (arith, v.one i a held);
        owner_out = λ a x. ground arith;
        cores = put_phase m.core m.phase i inside (off, λ e. open') v.cores;
      },
    )

let_go-Good : (i : ℕ) (m : Machine) → Inv m → m.phase i ≡ inside → Good (step i m)
unfolding step
let_go-Good i m v at_i =
    let (off, open_) = v.cores i in
    let open' : 0 < (m.core i).ncli = open_ (rw at_i refl) in
    let held : holds (m.phase i) ≡ true = rw at_i refl in
    let word : m.lock.locked ≡ true = ground (arith, v.free i) in
    let m' : Machine = moved m i (record (m.lock) { cpu = none }) (m.core i) releasing in
    (
      m',
      rw (at_i, step)
          (rw (release_start_lem i m.lock (m.core i) open' (off open') word (v.owner_in i at_i))
            refl),
      record {
        one = λ a b x y. ground (arith, v.one a b);
        free = λ a f. ground (arith, v.free a f, v.free i f);
        owner_in = λ a x. ground (arith, v.one i a held);
        owner_out = λ a x. ground arith;
        cores = put_all CoreOk m.core m.phase i (m.core i) releasing (off, λ e. open') v.cores;
      },
    )

leave-Good : (i : ℕ) (m : Machine) → Inv m → m.phase i ≡ releasing → Good (step i m)
unfolding step
leave-Good i m v at_i =
    let (off, open_) = v.cores i in
    let open' : 0 < (m.core i).ncli = open_ (rw at_i refl) in
    let held : holds (m.phase i) ≡ true = rw at_i refl in
    let (done, off') = popcli_lem (m.core i) open' (off open') in
    let m' : Machine = moved m i (record (m.lock) { locked = false }) (popped (m.core i)) outside in
    (
      m',
      rw (at_i, step) (rw done refl),
      record {
        one = λ a b x y. ground (arith, v.one a b);
        free = λ a f. ground (arith, v.one i a held);
        owner_in = λ a x. ground (arith, v.owner_in a);
        owner_out = λ a x. ground (arith, v.owner_out a);
        cores =
            put_all CoreOk m.core m.phase i (popped (m.core i)) outside
              (off', λ e. absurd (ground arith)) v.cores;
      },
    )

step-Good : (i : ℕ) (m : Machine) → Inv m → Good (step i m)
step-Good i m v = go (m.phase i) refl
  where
    go : (p : Phase) → m.phase i ≡ p → Good (step i m)
    go outside e = start-Good i m v e
    go spinning e = spin-Good i m v e
    go taken e = take-Good i m v e
    go inside e = let_go-Good i m v e
    go releasing e = leave-Good i m v e

run-Good : (is : List ℕ) (m : Machine) → Inv m → Good (run is m)
unfolding run
run-Good [] m v = (m, refl, v)
run-Good (i ∷ is) m v =
    let (m1, e, w) = step-Good i m v in let (m2, f, x) = run-Good is m1 w in (m2, rw e f, x)

-- Before anyone uses the lock: it is free, and a processor with open pushcli calls has its
-- interrupts off.
pub record Quiet (m : Machine) : Type 0 where
  pub unlocked : m.lock ≡ initlock
  pub all_outside : (i : ℕ) → m.phase i ≡ outside
  pub off : (i : ℕ) → 0 < (m.core i).ncli → (m.core i).eflags_if ≡ false

-- Whatever the order in which the processors make their steps, from a free lock no step panics;
-- afterwards at most one of them has the lock's word, only that one can be `lk->cpu`, and
-- interrupts are off on every processor that waits for the lock or has it.
pub mutual_exclusion :
    (is : List ℕ) (m : Machine)
    → Quiet m
    → (m' : Machine) × (run is m ≡ ok m')
      × ((i j : ℕ) → holds (m'.phase i) ≡ true → holds (m'.phase j) ≡ true → i ≡ j)
      × ((i : ℕ) → (m'.phase i ≡ inside) ↔ (is_cpu m'.lock.cpu i ≡ true))
      × ((i : ℕ) → is_outside (m'.phase i) ≡ false → (m'.core i).eflags_if ≡ false)
mutual_exclusion is m q =
    let (m', e, v) = run-Good is m start in
    (m', e, v.one, (λ i. (v.owner_in i, v.owner_out i)), λ i o. (v.cores i).0 ((v.cores i).1 o))
  where
    start : Inv m
    start = record {
      one = λ i j x y. ground (arith, q.all_outside i);
      free = λ i l. ground (arith, q.all_outside i);
      owner_in = λ i x. ground (arith, q.all_outside i);
      owner_out = λ i x. ground (arith, q.unlocked);
      cores = λ i. (q.off i, λ o. absurd (ground (arith, q.all_outside i)));
    }
