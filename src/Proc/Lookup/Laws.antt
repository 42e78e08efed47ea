-- ===== src/Proc/Lookup/Laws.antt =====
-- What the searches of proc.c find, and what `kill` and `wakeup` change.
use operating_system_laborat.Base.{
  ℕ, zero, suc, ◌+◌, ◌-◌, ◌≤◌, ◌<◌, ◌≡◌, refl, ap, ◌∙◌, subst, ◌≢◌, ◌⊎◌, inl, inr, true, Option,
  none, some, List, [], ◌∷◌, map, arith, ◌==◌, if◌then◌else◌, Bool-cases, Option-cases, length,
  get_elem?, set, minus_one,
}
use mathlib.Core.Option
use operating_system_laborat.Proc.{runnable, is_sleeping, sleeping, Chan, chan_eq, Proc, Kernel}
use operating_system_laborat.Proc.Lookup.{
  find_pid, get_proc_by_pid, wake, wakeup1, wakeup, kill_proc, kill_loop, kill, modify,
}

pub get_elem?-modify :
    (i : ℕ) (f : Proc → Proc) (ps : List Proc) (j : ℕ)
    → get_elem? (modify i f ps) j
      ≡ (if i == j then Option.map f (get_elem? ps j) else get_elem? ps j)
unfolding modify
get_elem?-modify i f [] j = ground arith
get_elem?-modify zero f (p ∷ ps) zero = refl
get_elem?-modify zero f (p ∷ ps) (suc j) = ground arith
get_elem?-modify (suc i) f (p ∷ ps) zero = ground arith
get_elem?-modify (suc i) f (p ∷ ps) (suc j) = ground (arith, get_elem?-modify i f ps j)

pub length-modify : (i : ℕ) (f : Proc → Proc) (ps : List Proc) → length (modify i f ps) ≡ length ps
unfolding modify
length-modify i f [] = refl
length-modify zero f (p ∷ ps) = refl
length-modify (suc i) f (p ∷ ps) = ap suc (length-modify i f ps)

-- No entry of the table has this pid.
abbrev pub Absent : ℕ → List Proc → Type 0
Absent pid ps = (j : ℕ) (p : Proc) → get_elem? ps j ≡ some p → p.pid ≢ pid

-- Entry i is the first with this pid.
pub record First (pid : ℕ) (ps : List Proc) (i : ℕ) : Type 0 where
  pub entry : Proc
  pub at_i : get_elem? ps i ≡ some entry
  pub has_pid : entry.pid ≡ pid
  pub earlier : (j : ℕ) (p : Proc) → j < i → get_elem? ps j ≡ some p → p.pid ≢ pid

-- What a search may answer for the entries from b on.
abbrev pub Answer : ℕ → List Proc → ℕ → Option ℕ → Type 0
Answer pid ps b none = Absent pid ps
Answer pid ps b (some r) = (i : ℕ) × (r ≡ b + i) × First pid ps i

Absent-cons :
    (pid : ℕ) (x : Proc) (xs : List Proc) → x.pid ≢ pid → Absent pid xs → Absent pid (x ∷ xs)
Absent-cons pid x xs n h zero p e = ground arith
Absent-cons pid x xs n h (suc j) p e = h j p e

First-cons :
    (pid : ℕ) (x : Proc) (xs : List Proc) (i : ℕ)
    → x.pid ≢ pid
    → First pid xs i
    → First pid (x ∷ xs) (suc i)
First-cons pid x xs i n f = record {
  entry = f.entry;
  at_i = f.at_i;
  has_pid = f.has_pid;
  earlier = before;
}
  where
    before : (j : ℕ) (p : Proc) → j < suc i → get_elem? (x ∷ xs) j ≡ some p → p.pid ≢ pid
    before zero p lt e = ground arith
    before (suc j) p lt e = f.earlier j p (omega arith) e

Answer-cons :
    (pid : ℕ) (x : Proc) (xs : List Proc) (b : ℕ) (r : Option ℕ)
    → x.pid ≢ pid
    → Answer pid xs (b + 1) r
    → Answer pid (x ∷ xs) b r
Answer-cons pid x xs b none n h = Absent-cons pid x xs n h
Answer-cons pid x xs b (some r) n (i, e, f) = (suc i, omega arith, First-cons pid x xs i n f)

find_pid_lem : (pid b : ℕ) (ps : List Proc) → Answer pid ps b (find_pid pid b ps)
unfolding find_pid
find_pid_lem pid b [] = λ j p e. cc
find_pid_lem pid b (x ∷ xs) = elim (Bool-cases (x.pid == pid)) [
  | inl e ↦ rw e (
    0,
    omega arith,
    record {
      entry = x;
      at_i = refl;
      has_pid = ground arith;
      earlier = λ j p lt. absurd (omega arith);
    },
  )
  | inr e ↦ rw e (Answer-cons pid x xs b _ (ground arith) (find_pid_lem pid (b + 1) xs))
]

-- `get_proc_by_pid` answers with the first entry of the table that has the pid, and with the null
-- pointer exactly if there is none.
pub get_proc_by_pid_lem : (pid : ℕ) (k : Kernel) → Answer pid k.procs 0 (get_proc_by_pid pid k)
unfolding get_proc_by_pid
get_proc_by_pid_lem pid k = find_pid_lem pid 0 k.procs

-- What `kill` does, told by the result of a search for the pid.
abbrev pub kill_at : ℕ → List Proc → Option ℕ → ℕ × List Proc
kill_at b ps none = (minus_one, ps)
kill_at b ps (some i) = (0, modify (i - b) kill_proc ps)

find_pid-le : (pid b : ℕ) (ps : List Proc) (r : ℕ) → find_pid pid b ps ≡ some r → b ≤ r
unfolding find_pid
find_pid-le pid b [] r h = cc
find_pid-le pid b (x ∷ xs) r h = ground (arith, find_pid-le pid (b + 1) xs r)

modify-suc :
    (i j : ℕ) (f : Proc → Proc) (p : Proc) (ps : List Proc)
    → i ≡ suc j
    → modify i f (p ∷ ps) ≡ p ∷ modify j f ps
unfolding modify
modify-suc zero j f p ps e = absurd (omega arith)
modify-suc (suc i) j f p ps e = ap (λ n. p ∷ modify n f ps) (omega arith)

modify_zero :
    (i : ℕ) (f : Proc → Proc) (p : Proc) (ps : List Proc) → i ≡ 0 → modify i f (p ∷ ps) ≡ f p ∷ ps
unfolding modify
modify_zero zero f p ps e = refl
modify_zero (suc i) f p ps e = absurd (omega arith)

kill_loop_lem : (pid b : ℕ) (ps : List Proc) → kill_loop pid ps ≡ kill_at b ps (find_pid pid b ps)
unfolding kill_loop find_pid
kill_loop_lem pid b [] = refl
kill_loop_lem pid b (p ∷ ps) = elim (Bool-cases (p.pid == pid)) [
  | inl e ↦ rw e (ground (arith, modify_zero (b - b) kill_proc p ps))
  | inr e ↦ elim (Option-cases (find_pid pid (b + 1) ps)) [
    | inl f ↦ rw (e, f, kill_loop_lem pid (b + 1) ps, f) refl
    | inr (r, f) ↦
        let le : b + 1 ≤ r = find_pid-le pid (b + 1) ps r f in
        rw (e, kill_loop_lem pid (b + 1) ps, f)
          (rw (modify-suc (r - b) (r - (b + 1)) kill_proc p ps (omega arith)))
  ]
]

pub kill-kill_at :
    (pid : ℕ) (k : Kernel)
    → kill pid k
      ≡ (let (r, ps) = kill_at 0 k.procs (get_proc_by_pid pid k) in (r, record k { procs = ps }))
unfolding kill get_proc_by_pid
kill-kill_at pid k = rw (kill_loop_lem pid 0 k.procs)

modify-set :
    (i : ℕ) (f : Proc → Proc) (ps : List Proc) (p : Proc)
    → get_elem? ps i ≡ some p
    → modify i f ps ≡ set ps i (f p)
unfolding modify
modify-set i f [] p e = ground arith
modify-set zero f (q ∷ ps) p e = let s : q ≡ p = ground arith in ap (λ x. f x ∷ ps) s
modify-set (suc i) f (q ∷ ps) p e = ap (λ qs. q ∷ qs) (modify-set i f ps p e)

abbrev with_procs : Kernel → List Proc → ℕ × Kernel
with_procs k ps = (0, record k { procs = ps })

abbrev killed_at : Kernel → Option ℕ → ℕ × Kernel
killed_at k r = let (n, ps) = kill_at 0 k.procs r in (n, record k { procs = ps })

-- `kill` of a pid that no entry of the table has returns -1 and changes nothing. Otherwise it
-- returns 0; the first entry that has the pid is marked as killed and is runnable if it slept;
-- nothing else of this entry, of the others and of the kernel is changed.
pub kill_lem :
    (pid : ℕ) (k : Kernel)
    → (Absent pid k.procs × (kill pid k ≡ (minus_one, k)))
      ⊎ ((i : ℕ) × (first : First pid k.procs i) × (kill pid k ≡ (
        0,
        record k {
          procs = set k.procs i (record first.entry {
            killed = 1;
            state = if is_sleeping first.entry.state then runnable else first.entry.state;
          });
        },
      )))
unfolding kill_proc
kill_lem pid k = elim (Option-cases (get_proc_by_pid pid k)) [
  | inl e ↦
      inl
        (subst (Answer pid k.procs 0) e (get_proc_by_pid_lem pid k), kill-kill_at pid k ∙ rw e refl)
  | inr (r, e) ↦
      let (i, at, first) = subst (Answer pid k.procs 0) e (get_proc_by_pid_lem pid k) in
      let place : r - 0 ≡ i = omega arith in
      inr (
        i,
        first,
        kill-kill_at pid k
            ∙ ap (killed_at k) e
            ∙ ap (with_procs k) (
                ap (λ n. modify n kill_proc k.procs) place
                ∙ modify-set i kill_proc k.procs first.entry first.at_i),
      )
]

pub get_elem?-map :
    (f : Proc → Proc) (ps : List Proc) (i : ℕ)
    → get_elem? (map f ps) i ≡ Option.map f (get_elem? ps i)
get_elem?-map f [] i = refl
get_elem?-map f (p ∷ ps) zero = refl
get_elem?-map f (p ∷ ps) (suc i) = get_elem?-map f ps i

-- After `wakeup` no process sleeps on the channel.
pub wakeup-none_left :
    (c : Chan) (k : Kernel) (i : ℕ) {p : Proc}
    → get_elem? (wakeup c k).procs i ≡ some p
    → chan_eq p.chan c ≡ true
    → p.state ≢ sleeping
unfolding wakeup wakeup1 wake
wakeup-none_left c k i h e s = ground (arith, get_elem?-map (wake c) k.procs i)
