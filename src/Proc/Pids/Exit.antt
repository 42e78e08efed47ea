-- ===== src/Proc/Pids/Exit.antt =====
-- What exit does to the pids.
use operating_system_laborat.Base.{
  ℕ, zero, suc, ◌+◌, ◌≡◌, refl, subst, inl, inr, false, Option, none, some, List, arith, Bool-cases,
  Option-cases, get_elem?, ok, fault,
}
use operating_system_laborat.Proc.{
  nproc, zombie, is_unused, is_zombie, is_parent, Chan, Proc, Kernel,
}
use operating_system_laborat.Proc.Lookup.{modify, wake, wakeup1}
use operating_system_laborat.Proc.Lookup.Laws.{get_elem?-map}
use operating_system_laborat.Proc.Life.{}
use operating_system_laborat.Proc.Exit.{parent_chan, pass_on, pass_on_loop, exit_table}
use operating_system_laborat.Proc.Pids.{Pids, Tame, Tame-Pids, Tame-refl, Tame-trans}
use operating_system_laborat.Proc.Pids.Tables.{modify_entry, modify-Tame, modify-Pids, wakeup1-Tame}

pass_on-Tame :
    (cur : ℕ) (init : Option ℕ) (i : ℕ) (ps : List Proc) → Tame ps (pass_on cur init i ps)
unfolding pass_on
pass_on-Tame cur init i ps = elim (Option-cases (get_elem? ps i)) [
  | inl e ↦ rw (e, pass_on) (Tame-refl ps)
  | inr (p, e) ↦ elim (Bool-cases (is_parent p.parent cur)) [
    | inr n ↦ rw (e, pass_on) (rw n (Tame-refl ps))
    | inl y ↦ elim (Bool-cases (is_zombie p.state)) [
      | inr l ↦ rw (e, pass_on) (rw (y, l) (changed init))
      | inl z ↦
          rw (e, pass_on)
            (rw (y, z) (Tame-trans ps _ _ (changed init) (wakeup1-Tame (parent_chan init) _)))
    ]
  ]
]
  where
    changed : (init : Option ℕ) → Tame ps (modify i (λ x. record x { parent = init }) ps)
    changed init = modify-Tame i (λ x. record x { parent = init }) ps (λ p e. inl (refl, λ u. u))

pass_on_loop-Tame :
    (n cur : ℕ) (init : Option ℕ) (i : ℕ) (ps : List Proc) → Tame ps (pass_on_loop n cur init i ps)
unfolding pass_on_loop
pass_on_loop-Tame zero cur init i ps = Tame-refl ps
pass_on_loop-Tame (suc n) cur init i ps =
    Tame-trans ps _ _ (pass_on-Tame cur init i ps)
      (pass_on_loop-Tame n cur init (i + 1) (pass_on cur init i ps))

-- Entry j is in use.
abbrev pub InUse : ℕ → List Proc → Type 0
InUse j ps = (q : Proc) → get_elem? ps j ≡ some q → is_unused q.state ≡ false

wakeup1-InUse : (j : ℕ) (c : Chan) (ps : List Proc) → InUse j ps → InUse j (wakeup1 c ps)
unfolding wakeup1 wake
wakeup1-InUse j c ps u q e = elim (Option-cases (get_elem? ps j)) [
  | inl g ↦ absurd (ground (arith, get_elem?-map (wake c) ps j))
  | inr (p, g) ↦ ground (arith, get_elem?-map (wake c) ps j, u p g)
]

parent-InUse :
    (j i : ℕ) (init : Option ℕ) (ps : List Proc)
    → InUse j ps
    → InUse j (modify i (λ x. record x { parent = init }) ps)
parent-InUse j i init ps u q e =
    let (p, g, c) = modify_entry i (λ x. record x { parent = init }) ps j q e in
    ground (arith, u p g)

pass_on-InUse :
    (j cur : ℕ) (init : Option ℕ) (i : ℕ) (ps : List Proc)
    → InUse j ps
    → InUse j (pass_on cur init i ps)
unfolding pass_on
pass_on-InUse j cur init i ps u = elim (Option-cases (get_elem? ps i)) [
  | inl e ↦ rw (e, pass_on) u
  | inr (p, e) ↦ elim (Bool-cases (is_parent p.parent cur)) [
    | inr n ↦ rw (e, pass_on) (rw n u)
    | inl y ↦ elim (Bool-cases (is_zombie p.state)) [
      | inr l ↦ rw (e, pass_on) (rw (y, l) (parent-InUse j i init ps u))
      | inl z ↦
          rw (e, pass_on)
            (rw (y, z) (wakeup1-InUse j (parent_chan init) _ (parent-InUse j i init ps u)))
    ]
  ]
]

pass_on_loop-InUse :
    (n j cur : ℕ) (init : Option ℕ) (i : ℕ) (ps : List Proc)
    → InUse j ps
    → InUse j (pass_on_loop n cur init i ps)
unfolding pass_on_loop
pass_on_loop-InUse zero j cur init i ps u = u
pass_on_loop-InUse (suc n) j cur init i ps u =
    pass_on_loop-InUse n j cur init (i + 1) (pass_on cur init i ps)
      (pass_on-InUse j cur init i ps u)

-- The table that `exit` leaves, but for the state of its own entry.
passed_on : ℕ → Proc → Kernel → List Proc
passed_on cur p k = pass_on_loop nproc cur k.initproc 0 (wakeup1 (parent_chan p.parent) k.procs)

exit_table-at :
    (cur : ℕ) (p : Proc) (k : Kernel)
    → get_elem? k.procs cur ≡ some p
    → exit_table cur k
      ≡ ok (record k { procs = modify cur (λ x. record x { state = zombie }) (passed_on cur p k) })
unfolding exit_table passed_on
exit_table-at cur p k f = rw (f, exit_table)

exit_table-none : (cur : ℕ) (k : Kernel) → get_elem? k.procs cur ≡ none → exit_table cur k ≡ fault
unfolding exit_table
exit_table-none cur k f = rw (f, exit_table)

-- The table part of `exit` keeps the pids in order, for a caller that is in use.
pub exit_table-Pids :
    (cur : ℕ) (k k' : Kernel) → exit_table cur k ≡ ok k' → InUse cur k.procs → Pids k → Pids k'
unfolding passed_on
exit_table-Pids cur k k' e used v = elim (Option-cases (get_elem? k.procs cur)) [
  | inl f ↦ absurd (none_faults f)
  | inr (p, f) ↦
      let qs : List Proc = passed_on cur p k in
      let same : record k { procs = modify cur (λ x. record x { state = zombie }) qs } ≡ k' =
        cc (exit_table-at cur p k f) in
      subst Pids same (
        modify-Pids cur (λ x. record x { state = zombie }) (record k { procs = qs }) (λ x. refl)
          (in_use p) (Tame-Pids k qs (tame p) v))
]
  where
    none_faults : get_elem? k.procs cur ≡ none → ⊥
    none_faults f = ground (arith, exit_table-none cur k f)

    tame : (p : Proc) → Tame k.procs (passed_on cur p k)
    tame p =
        Tame-trans k.procs _ _ (wakeup1-Tame (parent_chan p.parent) k.procs)
          (pass_on_loop-Tame nproc cur k.initproc 0 _)

    in_use : (p : Proc) → InUse cur (passed_on cur p k)
    in_use p =
        pass_on_loop-InUse nproc cur cur k.initproc 0 _
          (wakeup1-InUse cur (parent_chan p.parent) k.procs used)
