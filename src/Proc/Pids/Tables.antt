-- ===== src/Proc/Pids/Tables.antt =====
-- What wakeup, kill, change_queue and other changes of entries do to the pids.
use operating_system_laborat.Base.{
  ℕ, ◌-◌, ◌≡◌, refl, subst, ◌≢◌, ◌⊎◌, inl, inr, false, Option, none, some, List, map, arith,
  Option-cases, get_elem?, ok, ℕ_discrete,
}
use operating_system_laborat.Proc.{is_unused, Chan, Proc, Kernel}
use operating_system_laborat.Proc.Lookup.{
  modify, wake, wakeup1, wakeup, kill_proc, kill, change_queue, get_proc_by_pid,
}
use operating_system_laborat.Proc.Lookup.Laws.{
  get_elem?-modify, get_elem?-map, kill_at, kill-kill_at,
}
use operating_system_laborat.Proc.Life.{}
use operating_system_laborat.Proc.Pids.{Pids, Follows, Tame, Tame-Pids, Tame-refl}

-- What stands at j after a change of entry i.
pub modify_entry :
    (i : ℕ) (f : Proc → Proc) (ps : List Proc) (j : ℕ) (q : Proc)
    → get_elem? (modify i f ps) j ≡ some q
    → (p : Proc) × (get_elem? ps j ≡ some p) × (((i ≡ j) × (f p ≡ q)) ⊎ ((i ≢ j) × (p ≡ q)))
modify_entry i f ps j q e = elim (Option-cases (get_elem? ps j)) [
  | inl g ↦ absurd (ground (arith, get_elem?-modify i f ps j))
  | inr (p, g) ↦ elim (ℕ_discrete i j) [
    | yes s ↦ (p, g, inl (s, ground (arith, get_elem?-modify i f ps j)))
    | no n ↦ (p, g, inr (n, ground (arith, get_elem?-modify i f ps j)))
  ]
]

pub modify-Tame :
    (i : ℕ) (f : Proc → Proc) (ps : List Proc)
    → ((p : Proc) → get_elem? ps i ≡ some p → Follows p (f p))
    → Tame ps (modify i f ps)
modify-Tame i f ps h j q e = let (p, g, c) = modify_entry i f ps j q e in (p, g, pick p g c)
  where
    pick :
        (p : Proc)
        → get_elem? ps j ≡ some p
        → ((i ≡ j) × (f p ≡ q)) ⊎ ((i ≢ j) × (p ≡ q))
        → Follows p q
    pick p g (inl (s, fq)) = subst (Follows p) fq (h p (rw s g))
    pick p g (inr (n, pq)) = subst (Follows p) pq (inl (refl, λ u. u))

-- A change that keeps the pid, of an entry in use.
pub modify-Pids :
    (i : ℕ) (f : Proc → Proc) (k : Kernel)
    → ((p : Proc) → (f p).pid ≡ p.pid)
    → ((p : Proc) → get_elem? k.procs i ≡ some p → is_unused p.state ≡ false)
    → Pids k
    → Pids (record k { procs = modify i f k.procs })
modify-Pids i f k same used v =
    Tame-Pids k (modify i f k.procs) (modify-Tame i f k.procs (λ p e. inl (same p, λ u. used p e)))
      v

pub map-Tame :
    (f : Proc → Proc) (ps : List Proc) → ((p : Proc) → Follows p (f p)) → Tame ps (map f ps)
map-Tame f ps h j q e = elim (Option-cases (get_elem? ps j)) [
  | inl g ↦ absurd (ground (arith, get_elem?-map f ps j))
  | inr (p, g) ↦
      let fq : f p ≡ q = ground (arith, get_elem?-map f ps j) in (p, g, subst (Follows p) fq (h p))
]

pub wakeup1-Tame : (c : Chan) (ps : List Proc) → Tame ps (wakeup1 c ps)
unfolding wakeup1 wake
wakeup1-Tame c ps = map-Tame (wake c) ps (λ p. inl (ground arith, ground arith))

pub wakeup-Pids : (c : Chan) (k : Kernel) → Pids k → Pids (wakeup c k)
unfolding wakeup
wakeup-Pids c k v = Tame-Pids k (wakeup1 c k.procs) (wakeup1-Tame c k.procs) v

kill_at-Tame : (ps : List Proc) (r : Option ℕ) → Tame ps (kill_at 0 ps r).1
unfolding kill_proc
kill_at-Tame ps none = Tame-refl ps
kill_at-Tame ps (some i) = modify-Tame (i - 0) kill_proc ps (λ p e. inl (refl, ground arith))

pub kill-Pids : (pid : ℕ) (k : Kernel) → Pids k → Pids (kill pid k).1
kill-Pids pid k v =
    rw (kill-kill_at pid k)
      (Tame-Pids k (kill_at 0 k.procs (get_proc_by_pid pid k)).1 (kill_at-Tame k.procs _) v)

pub pages-Pids : (pages : List ℕ) (k : Kernel) → Pids k → Pids (record k { pages = pages })
pages-Pids pages k v = record {
  started = v.started;
  below = v.below;
  unique = v.unique;
  live = v.live;
}

pub unpages-Pids : (pages : List ℕ) (k : Kernel) → Pids (record k { pages = pages }) → Pids k
unpages-Pids pages k v = record {
  started = v.started;
  below = v.below;
  unique = v.unique;
  live = v.live;
}

pub change_queue-Pids :
    (pid target : ℕ) (k k' : Kernel) → change_queue pid target k ≡ ok k' → Pids k → Pids k'
unfolding change_queue
change_queue-Pids pid target k k' e v = go (get_proc_by_pid pid k) refl
  where
    go : (r : Option ℕ) → get_proc_by_pid pid k ≡ r → Pids k'
    go none f = absurd (ground arith)
    go (some i) f = subst Pids (ground arith) (
        Tame-Pids k _
          (modify-Tame i
            (λ x. record x { ti = record (x.ti) { queue = target; enter_queue_time = k.ticks } })
            k.procs (λ p g. inl (refl, λ u. u)))
          v)
