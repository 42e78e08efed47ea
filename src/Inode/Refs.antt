-- ===== src/Inode/Refs.antt =====
-- The references of the inode cache against a counter for each inode.
use operating_system_laborat.Base.{
  ℕ, zero, suc, ◌+◌, ◌-◌, ◌<◌, ◌≡◌, refl, sym, ap, ◌∙◌, subst, inl, inr, true, false, ◌&&◌, none,
  some, List, [], ◌∷◌, arith, ◌==◌, get_elem?, Outcome, ok, panic, fault,
}
use operating_system_laborat.Inode.{
  Inode, is_inode, Slot, cached, empty, iget_scan, change, iget, idup, drop_ref,
}
use operating_system_laborat.Inode.Cache.{
  refs_of, Unique, Seen, iget_scan-Seen, refs_of-change, get_elem?-change_self, change-Unique,
}

-- What an operation does to the references: it turns the count of one inode to n, and leaves the others'.
abbrev pub Counts : ℕ → ℕ → ℕ → List Inode → List Inode → Type 0
Counts dev inum n t t' =
    (refs_of dev inum t' ≡ n)
    × ((d m : ℕ) → ((d == dev && m == inum) ≡ false) → refs_of d m t' ≡ refs_of d m t)

-- What `iget` promises of each of its results.
abbrev pub Got : ℕ → ℕ → List Inode → Outcome (List Inode × ℕ) → Type 0
Got dev inum t panic =
    (j : ℕ) (ip : Inode) → get_elem? t j ≡ some ip → (0 < ip.refs) × (is_inode dev inum ip ≡ false)
Got dev inum t fault = ⊥
Got dev inum t (ok (t', i)) =
    (ip : Inode) × (get_elem? t' i ≡ some ip)
    × (is_inode dev inum ip ≡ true)
    × Counts dev inum (refs_of dev inum t + 1) t t'
    × Unique t'

abbrev more : Inode → Inode
more ip = record ip { refs = ip.refs + 1 }

abbrev recycle : ℕ → ℕ → Inode → Inode
recycle dev inum ip = record ip { dev = dev; inum = inum; refs = 1; valid = false }

more-Unique :
    (t : List Inode) (i : ℕ) (ip : Inode)
    → Unique t
    → get_elem? t i ≡ some ip
    → 0 < ip.refs
    → Unique (change i more t)
more-Unique t i ip u e p = change-Unique more t i u (λ j b x hb hx px pb d n.
    u i j b x hb hx
      (let same : ip ≡ b = ground (arith, e, hb) in subst (λ (y : Inode). 0 < y.refs) same p) px d
      n)

other_key :
    (dev inum d m : ℕ) (ip : Inode)
    → (ip.dev == dev && ip.inum == inum) ≡ true
    → (d == dev && m == inum) ≡ false
    → (ip.dev == d && ip.inum == m) ≡ false
other_key dev inum d m ip h g = ground arith

more-Counts :
    (dev inum : ℕ) (t : List Inode) (i : ℕ) (ip : Inode)
    → get_elem? t i ≡ some ip
    → (ip.dev == dev && ip.inum == inum) ≡ true
    → Counts dev inum (refs_of dev inum t + 1) t (change i more t)
more-Counts dev inum t i ip e h =
    let own = refs_of-change dev inum i more t ip e in
    (
      ground (arith, own),
      λ d m ne.
          let away = other_key dev inum d m ip h ne in
          let all = refs_of-change d m i more t ip e in ground (arith, all, away),
    )

none_held :
    (dev inum : ℕ) (t : List Inode)
    → ((j : ℕ) (ip : Inode) → get_elem? t j ≡ some ip → is_inode dev inum ip ≡ false)
    → refs_of dev inum t ≡ 0
none_held dev inum [] h = refl
none_held dev inum (x ∷ t) h =
    ground (arith, h 0 x refl, none_held dev inum t (λ j ip e. h (suc j) ip e))

recycle-Counts :
    (dev inum : ℕ) (t : List Inode) (i : ℕ) (ip : Inode)
    → get_elem? t i ≡ some ip
    → ip.refs ≡ 0
    → Counts dev inum (refs_of dev inum t + 1) t (change i (recycle dev inum) t)
recycle-Counts dev inum t i ip e z =
    let own = refs_of-change dev inum i (recycle dev inum) t ip e in
    (
      ground (arith, own),
      λ d m ne. let all = refs_of-change d m i (recycle dev inum) t ip e in ground (arith, all),
    )

recycle-Unique :
    (dev inum : ℕ) (t : List Inode) (i : ℕ)
    → Unique t
    → ((j : ℕ) (ip : Inode) → get_elem? t j ≡ some ip → is_inode dev inum ip ≡ false)
    → Unique (change i (recycle dev inum) t)
recycle-Unique dev inum t i u absent =
    change-Unique (recycle dev inum) t i u
      (λ j b x hb hx px pb d n. absurd (ground (arith, absent j x hx)))

abbrev from_slot : ℕ → ℕ → List Inode → Slot → Outcome (List Inode × ℕ)
from_slot dev inum t (cached i) = ok (change i more t, i)
from_slot dev inum t (empty none) = panic
from_slot dev inum t (empty (some i)) = ok (change i (recycle dev inum) t, i)

iget_from :
    (dev inum : ℕ) (t : List Inode) (s : Slot)
    → iget_scan dev inum t 0 none ≡ s
    → iget dev inum t ≡ from_slot dev inum t s
unfolding iget
iget_from dev inum t (cached i) e = rw (e, iget) refl
iget_from dev inum t (empty none) e = rw (e, iget) refl
iget_from dev inum t (empty (some i)) e = rw (e, iget) refl

iget-Got :
    (dev inum : ℕ) (t : List Inode) (s : Slot)
    → Unique t
    → iget_scan dev inum t 0 none ≡ s
    → Seen dev inum t 0 none s
    → Got dev inum t (iget dev inum t)
iget-Got dev inum t (cached i) u e (j, ip, p, g, m) =
    let at : get_elem? t i ≡ some ip = ap (get_elem? t) (let q : i ≡ j = omega arith in q) ∙ g in
    subst (Got dev inum t) (sym (iget_from dev inum t (cached i) e)) (
      more ip,
      get_elem?-change_self more t i ip at,
      ground (arith, m),
      more-Counts dev inum t i ip at (ground (arith, m)),
      more-Unique t i ip u at (ground (arith, m)),
    )
iget-Got dev inum t (empty none) u e h =
    subst (Got dev inum t) (sym (iget_from dev inum t (empty none) e))
      (λ j ip q. (h.1 j ip q, h.0 j ip q))
iget-Got dev inum t (empty (some i)) u e (absent, inl q) = absurd (ground (arith, q))
iget-Got dev inum t (empty (some i)) u e (absent, inr (j, ip, p, g, z)) =
    let at : get_elem? t i ≡ some ip = ap (get_elem? t) (let q : i ≡ j = omega arith in q) ∙ g in
    subst (Got dev inum t) (sym (iget_from dev inum t (empty (some i)) e)) (
      recycle dev inum ip,
      get_elem?-change_self (recycle dev inum) t i ip at,
      ground arith,
      recycle-Counts dev inum t i ip at z,
      recycle-Unique dev inum t i u absent,
    )

-- `iget` panics only where every entry of the cache is in use by another inode. Else it hands out an entry
-- of the inode and makes one more reference to it and to no other inode, and still no inode stands in two entries.
pub iget_lem : (dev inum : ℕ) (t : List Inode) → Unique t → Got dev inum t (iget dev inum t)
iget_lem dev inum t u =
    iget-Got dev inum t (iget_scan dev inum t 0 none) u refl (iget_scan-Seen dev inum t 0 none)

-- At an entry in use `idup` makes one more reference to its inode and the end of `iput` one less, which undoes it; no other
-- inode's references change, and still no inode stands in two entries.
pub idup-drop_ref :
    (t : List Inode) (i : ℕ) (ip : Inode)
    → Unique t
    → get_elem? t i ≡ some ip
    → 0 < ip.refs
    → Counts ip.dev ip.inum (refs_of ip.dev ip.inum t + 1) t (idup i t)
      × Counts ip.dev ip.inum (refs_of ip.dev ip.inum t - 1) t (drop_ref i t)
      × Unique (idup i t)
      × Unique (drop_ref i t)
      × (drop_ref i (idup i t) ≡ t)
unfolding idup drop_ref
idup-drop_ref t i ip u e p =
    let self : (ip.dev == ip.dev && ip.inum == ip.inum) ≡ true = ground arith in
    let down = λ (x : Inode). record x { refs = x.refs - 1 } in
    let own = refs_of-change ip.dev ip.inum i down t ip e in
    (
      more-Counts ip.dev ip.inum t i ip e self,
      (
        ground (arith, own, p),
        λ d m ne.
            let away = other_key ip.dev ip.inum d m ip self ne in
            let all = refs_of-change d m i down t ip e in ground (arith, all, away),
      ),
      more-Unique t i ip u e p,
      change-Unique down t i u (λ j b x hb hx px pb dd n. u i j b x hb hx (omega arith) px dd n),
      undone t i,
    )
  where
    undone :
        (t : List Inode) (i : ℕ)
        → change i
            (λ x. record x { refs = x.refs - 1 })
            (change i (λ x. record x { refs = x.refs + 1 }) t)
          ≡ t
    undone [] i = refl
    undone (x ∷ t) zero =
        ap (λ (n : ℕ). record x { refs = n } ∷ t)
          (let q : x.refs + 1 - 1 ≡ x.refs = omega arith in q)
    undone (x ∷ t) (suc i) = ap (λ l. x ∷ l) (undone t i)
