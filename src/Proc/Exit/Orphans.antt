-- ===== src/Proc/Exit/Orphans.antt =====
-- Whom exit leaves as the parent of each process.
use operating_system_laborat.Base.{
  ℕ, zero, suc, ◌+◌, ◌≤◌, ◌<◌, ◌≡◌, refl, sym, ap, ◌∙◌, ◌≢◌, ◌⊎◌, inl, inr, Bool, true, ◌&&◌,
  Option, some, List, arith, ltb, leb, ◌==◌, if◌then◌else◌, Bool-cases, Option-cases, length,
  get_elem?, get_elem?-lt, ok,
}
use operating_system_laborat.Proc.{Chan, is_zombie, Proc, Kernel, is_parent, nproc, zombie}
use operating_system_laborat.Proc.Lookup.{wake, wakeup1, modify}
use operating_system_laborat.Proc.Lookup.Laws.{get_elem?-map}
use operating_system_laborat.Proc.Exit.{pass_on, pass_on_loop, exit_table, parent_chan}
use operating_system_laborat.Proc.Pids.Tables.{modify_entry}

-- The parent of a process once the children of cur, if it is one of them, have been passed on.
abbrev new_parent : Bool → ℕ → Option ℕ → Option ℕ → Option ℕ
new_parent here cur init old = if here && is_parent old cur then init else old

-- Entry j of the second table stands for entry j of the first, with the parent given by f.
abbrev Parents : (ℕ → Option ℕ → Option ℕ) → List Proc → List Proc → Type 0
Parents f ps qs =
    (j : ℕ) (q : Proc)
    → get_elem? qs j ≡ some q
    → (p : Proc) × (get_elem? ps j ≡ some p) × (q.parent ≡ f j p.parent)

wakeup1-Parents : (c : Chan) (ps : List Proc) → Parents (λ j o. o) ps (wakeup1 c ps)
unfolding wakeup1 wake
wakeup1-Parents c ps j q e = elim (Option-cases (get_elem? ps j)) [
  | inl g ↦ absurd (ground (arith, get_elem?-map (wake c) ps j))
  | inr (p, g) ↦ (p, g, ground (arith, get_elem?-map (wake c) ps j))
]

Parents-then :
    (f : ℕ → Option ℕ → Option ℕ) (c : Chan) (ps qs : List Proc)
    → Parents f ps qs
    → Parents f ps (wakeup1 c qs)
Parents-then f c ps qs h j r e =
    let (q, g, s) = wakeup1-Parents c qs j r e in let (p, l, t) = h j q g in (p, l, s ∙ t)

changed-Parents :
    (cur : ℕ) (init : Option ℕ) (i : ℕ) (p : Proc) (ps : List Proc)
    → get_elem? ps i ≡ some p
    → is_parent p.parent cur ≡ true
    → Parents (λ j. new_parent (j == i) cur init) ps (modify i (λ x. record x { parent = init }) ps)
changed-Parents cur init i p ps e y j q h =
    let (r, g, c) = modify_entry i (λ x. record x { parent = init }) ps j q h in
    (r, g, ground arith)

pass_on-Parents :
    (cur : ℕ) (init : Option ℕ) (i : ℕ) (ps : List Proc)
    → Parents (λ j. new_parent (j == i) cur init) ps (pass_on cur init i ps)
unfolding pass_on
pass_on-Parents cur init i ps = elim (Option-cases (get_elem? ps i)) [
  | inl e ↦ rw (e, pass_on) (λ j q h. (q, h, ground arith))
  | inr (p, e) ↦ elim (Bool-cases (is_parent p.parent cur)) [
    | inr n ↦ rw (e, pass_on) (rw n (λ j q h. (q, h, ground arith)))
    | inl y ↦ elim (Bool-cases (is_zombie p.state)) [
      | inr l ↦ rw (e, pass_on) (rw (y, l) (changed-Parents cur init i p ps e y))
      | inl z ↦
          rw (e, pass_on)
            (rw (y, z)
              (Parents-then _ (parent_chan init) ps _ (changed-Parents cur init i p ps e y)))
    ]
  ]
]

pass_on_loop-Parents :
    (n cur : ℕ) (init : Option ℕ) (i : ℕ) (ps : List Proc)
    → Parents
        (λ j. new_parent (leb i j && ltb j (i + n)) cur init)
        ps
        (pass_on_loop n cur init i ps)
unfolding pass_on_loop
pass_on_loop-Parents zero cur init i ps j q h = (q, h, ground arith)
pass_on_loop-Parents (suc n) cur init i ps j r h =
    let (q, g, s) = pass_on_loop-Parents n cur init (i + 1) (pass_on cur init i ps) j r h in
    let (p, l, t) = pass_on-Parents cur init i ps j q g in
    (p, l, once p.parent q.parent r.parent s t)
  where
    once :
        (a b c : Option ℕ)
        → c ≡ new_parent (leb (i + 1) j && ltb j (i + 1 + n)) cur init b
        → b ≡ new_parent (j == i) cur init a
        → c ≡ new_parent (leb i j && ltb j (i + suc n)) cur init a
    once a b c s t = ground arith

exit_table-procs :
    (cur : ℕ) (k k' : Kernel)
    → exit_table cur k ≡ ok k'
    → (p : Proc) × (get_elem? k.procs cur ≡ some p)
      × (k'.procs
          ≡ modify cur
              (λ x. record x { state = zombie })
              (pass_on_loop nproc cur k.initproc 0 (wakeup1 (parent_chan p.parent) k.procs)))
unfolding exit_table
exit_table-procs cur k k' e = elim (Option-cases (get_elem? k.procs cur)) [
  | inl f ↦ absurd (ground arith)
  | inr (p, f) ↦
      let table : List Proc =
        modify cur (λ x. record x { state = zombie })
          (pass_on_loop nproc cur k.initproc 0 (wakeup1 (parent_chan p.parent) k.procs)) in
      let done : exit_table cur k ≡ ok (record k { procs = table }) = rw (f, exit_table) refl in
      let same : record k { procs = table } ≡ k' = cc in (p, f, ap (λ x. x.procs) (sym same))
]

-- When `exit` gives the processor up, its process is a zombie, and every process of the table has
-- the parent it had, but those whose parent was the exiting process have init.
pub exit_table_lem :
    (cur : ℕ) (k k' : Kernel)
    → exit_table cur k ≡ ok k'
    → length k.procs ≤ nproc
    → (j : ℕ) (q : Proc) → get_elem? k'.procs j ≡ some q
    → (p : Proc) × (get_elem? k.procs j ≡ some p)
      × (q.parent ≡ (if is_parent p.parent cur then k.initproc else p.parent))
      × (j ≡ cur → q.state ≡ zombie)
exit_table_lem cur k k' e len j q at_j =
    let (me, f, same) = exit_table-procs cur k k' e in
    let (r, g, c) =
      modify_entry cur (λ x. record x { state = zombie })
        (pass_on_loop nproc cur k.initproc 0 (wakeup1 (parent_chan me.parent) k.procs)) j q
        (rw same at at_j) in
    let (s, l, t) =
      pass_on_loop-Parents nproc cur k.initproc 0 (wakeup1 (parent_chan me.parent) k.procs) j r g in
    let (p, m, u) = wakeup1-Parents (parent_chan me.parent) k.procs j s l in
    let inside : j < nproc = omega (arith, get_elem?-lt k.procs j m) in
    (p, m, parent_of p s r u t inside c, λ z. ground arith)
  where
    parent_of :
        (p s r : Proc)
        → s.parent ≡ p.parent
        → r.parent ≡ new_parent (leb 0 j && ltb j (0 + nproc)) cur k.initproc s.parent
        → j < nproc
        → (((cur ≡ j) × (record r { state = zombie } ≡ q)) ⊎ ((cur ≢ j) × (r ≡ q)))
        → q.parent ≡ (if is_parent p.parent cur then k.initproc else p.parent)
    parent_of p s r u t lt c = ground arith
