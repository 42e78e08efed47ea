-- ===== src/Inode/Cache.antt =====
-- The table of the inode cache: entries, and the references to an inode.
use operating_system_laborat.Base.{
  ℕ, zero, suc, ◌+◌, ◌<◌, ◌≡◌, refl, sym, ap, ◌∙◌, subst, ◌⊎◌, inl, inr, true, false, ◌&&◌, Option,
  none, some, List, [], ◌∷◌, arith, ◌==◌, if◌then◌else◌, Bool-cases, get_elem?, ℕ_discrete,
}
use operating_system_laborat.Inode.{
  Inode, first_empty, is_inode, Slot, cached, empty, iget_scan, change,
}

-- How many references the cache holds to an inode.
abbrev pub refs_of : ℕ → ℕ → List Inode → ℕ
refs_of dev inum [] = 0
refs_of dev inum (ip ∷ t) =
    (if ip.dev == dev && ip.inum == inum then ip.refs else 0) + refs_of dev inum t

-- An inode stands in one entry at most.
abbrev pub Unique : List Inode → Type 0
Unique t =
    (i j : ℕ) (a b : Inode)
    → get_elem? t i ≡ some a
    → get_elem? t j ≡ some b
    → 0 < a.refs
    → 0 < b.refs
    → a.dev ≡ b.dev
    → a.inum ≡ b.inum
    → i ≡ j

get_elem?-change :
    (f : Inode → Inode) (t : List Inode) (i j : ℕ) (a : Inode)
    → get_elem? (change i f t) j ≡ some a
    → (b : Inode) × (get_elem? t j ≡ some b) × (a ≡ (if i == j then f b else b))
get_elem?-change f [] i j a h = ground arith
get_elem?-change f (x ∷ t) zero zero a h = (x, refl, ground arith)
get_elem?-change f (x ∷ t) zero (suc j) a h = (a, h, ground arith)
get_elem?-change f (x ∷ t) (suc i) zero a h = (x, refl, ground arith)
get_elem?-change f (x ∷ t) (suc i) (suc j) a h =
    let w = get_elem?-change f t i j a h in (w.0, w.1, w.2 ∙ ground arith)

-- What the loop of `iget` says about the table.
abbrev pub Seen : ℕ → ℕ → List Inode → ℕ → Option ℕ → Slot → Type 0
Seen dev inum t k e (cached i) =
    (j : ℕ) × (ip : Inode) × (i ≡ k + j) × (get_elem? t j ≡ some ip) × (is_inode dev inum ip ≡ true)
Seen dev inum t k e (empty none) =
    ((j : ℕ) (ip : Inode) → get_elem? t j ≡ some ip → is_inode dev inum ip ≡ false)
    × ((j : ℕ) (ip : Inode) → get_elem? t j ≡ some ip → 0 < ip.refs)
    × (e ≡ none)
Seen dev inum t k e (empty (some i)) =
    ((j : ℕ) (ip : Inode) → get_elem? t j ≡ some ip → is_inode dev inum ip ≡ false)
    × ((e ≡ some i)
        ⊎ ((j : ℕ) × (ip : Inode) × (i ≡ k + j) × (get_elem? t j ≡ some ip) × (ip.refs ≡ 0)))

at_zero :
    {P : Inode → Type 0} (x : Inode) (t : List Inode)
    → P x
    → ((j : ℕ) (ip : Inode) → get_elem? t j ≡ some ip → P ip)
    → (j : ℕ) (ip : Inode) → get_elem? (x ∷ t) j ≡ some ip
    → P ip
at_zero {P} x t h g zero ip e = subst P (some_inj e) h
  where
    some_inj : {a b : Inode} → some a ≡ some b → a ≡ b
    some_inj q = cc
at_zero x t h g (suc j) ip e = g j ip e

Seen-later :
    (dev inum : ℕ) (x : Inode) (t : List Inode) (k : ℕ) (e : Option ℕ) (s : Slot)
    → is_inode dev inum x ≡ false
    → Seen dev inum t (k + 1) (first_empty e x.refs k) s
    → Seen dev inum (x ∷ t) k e s
Seen-later dev inum x t k e (cached i) h (j, ip, p, g, m) = (suc j, ip, omega arith, g, m)
Seen-later dev inum x t k (some b) (empty none) h g = absurd (ground (arith, g.2))
Seen-later dev inum x t k none (empty none) h g = (
  at_zero {P = λ ip. is_inode dev inum ip ≡ false} x t h g.0,
  at_zero {P = λ ip. 0 < ip.refs} x t (ground (arith, g.2)) g.1,
  refl,
)
Seen-later dev inum x t k (some b) (empty (some i)) h g = (
  at_zero {P = λ ip. is_inode dev inum ip ≡ false} x t h g.0,
  elim (g.1) [ inl q ↦ inl q | inr w ↦ inr (suc (w.0), w.1, omega (arith, w.2), w.3, w.4) ],
)
Seen-later dev inum x t k none (empty (some i)) h g = (
  at_zero {P = λ ip. is_inode dev inum ip ≡ false} x t h g.0,
  elim (g.1) [
    | inl q ↦ inr (0, x, ground (arith, q), refl, ground (arith, q))
    | inr w ↦ inr (suc (w.0), w.1, omega (arith, w.2), w.3, w.4)
  ],
)

pub iget_scan-Seen :
    (dev inum : ℕ) (t : List Inode) (k : ℕ) (e : Option ℕ)
    → Seen dev inum t k e (iget_scan dev inum t k e)
unfolding iget_scan
iget_scan-Seen dev inum [] k none =
    ((λ j ip q. absurd (ground arith)), (λ j ip q. absurd (ground arith)), refl)
iget_scan-Seen dev inum [] k (some i) = ((λ j ip q. absurd (ground arith)), inl refl)
iget_scan-Seen dev inum (x ∷ t) k e = elim (Bool-cases (is_inode dev inum x)) [
  | inl q ↦ rw q (0, x, omega arith, refl, q)
  | inr q ↦ rw q (
      Seen-later dev inum x t k e (iget_scan dev inum t (k + 1) (first_empty e x.refs k)) q
        (iget_scan-Seen dev inum t (k + 1) (first_empty e x.refs k)))
]

-- The references that one entry holds to an inode.
abbrev held : ℕ → ℕ → Inode → ℕ
held dev inum ip = if ip.dev == dev && ip.inum == inum then ip.refs else 0

pub refs_of-change :
    (dev inum i : ℕ) (f : Inode → Inode) (t : List Inode) (b : Inode)
    → get_elem? t i ≡ some b
    → refs_of dev inum (change i f t) + held dev inum b ≡ refs_of dev inum t + held dev inum (f b)
refs_of-change dev inum i f [] b h = absurd (ground arith)
refs_of-change dev inum zero f (x ∷ t) b h =
    let same : x ≡ b = ground (arith, h) in
    let old : held dev inum x ≡ held dev inum b = ap (held dev inum) same in
    let new : held dev inum (f x) ≡ held dev inum (f b) = ap (λ y. held dev inum (f y)) same in
    omega (arith, old, new)
refs_of-change dev inum (suc i) f (x ∷ t) b h = omega (arith, refs_of-change dev inum i f t b h)

pub get_elem?-change_self :
    (f : Inode → Inode) (t : List Inode) (i : ℕ) (b : Inode)
    → get_elem? t i ≡ some b
    → get_elem? (change i f t) i ≡ some (f b)
get_elem?-change_self f [] i b h = absurd (ground arith)
get_elem?-change_self f (x ∷ t) zero b h =
    let same : x ≡ b = ground (arith, h) in ap (λ y. some (f y)) same
get_elem?-change_self f (x ∷ t) (suc i) b h = get_elem?-change_self f t i b h

-- A change of one entry that makes it equal to no other.
pub change-Unique :
    (f : Inode → Inode) (t : List Inode) (i : ℕ)
    → Unique t
    → ((j : ℕ) (b x : Inode)
        → get_elem? t i ≡ some b
        → get_elem? t j ≡ some x
        → 0 < x.refs
        → 0 < (f b).refs
        → (f b).dev ≡ x.dev
        → (f b).inum ≡ x.inum
        → i ≡ j)
    → Unique (change i f t)
change-Unique f t i u g j k a b ha hb pa pb d n =
    let wa = get_elem?-change f t i j a ha in
    let wb = get_elem?-change f t i k b hb in
    elim (ℕ_discrete i j) [
      | yes ej ↦ elim (ℕ_discrete i k) [
        | yes ek ↦ sym ej ∙ ek
        | no nk ↦
            let same : b ≡ wb.0 = wb.2 ∙ ground arith in
            let new : a ≡ f (wa.0) = wa.2 ∙ ground arith in
            sym ej
            ∙ g k wa.0 wb.0 (ap (get_elem? t) ej ∙ wa.1) wb.1
                (subst (λ (x : Inode). 0 < x.refs) same pb)
                (subst (λ (x : Inode). 0 < x.refs) new pa)
                (ap (λ (x : Inode). x.dev) (sym new) ∙ d ∙ ap (λ (x : Inode). x.dev) same)
                (ap (λ (x : Inode). x.inum) (sym new) ∙ n ∙ ap (λ (x : Inode). x.inum) same)
      ]
      | no nj ↦ elim (ℕ_discrete i k) [
        | yes ek ↦
            let same : a ≡ wa.0 = wa.2 ∙ ground arith in
            let new : b ≡ f (wb.0) = wb.2 ∙ ground arith in
            sym (
              g j wb.0 wa.0 (ap (get_elem? t) ek ∙ wb.1) wa.1
                (subst (λ (x : Inode). 0 < x.refs) same pa)
                (subst (λ (x : Inode). 0 < x.refs) new pb)
                (ap (λ (x : Inode). x.dev) (sym new) ∙ sym d ∙ ap (λ (x : Inode). x.dev) same)
                (ap (λ (x : Inode). x.inum) (sym new) ∙ sym n ∙ ap (λ (x : Inode). x.inum) same))
            ∙ ek
        | no nk ↦
            let sa : a ≡ wa.0 = wa.2 ∙ ground arith in
            let sb : b ≡ wb.0 = wb.2 ∙ ground arith in
            u j k wa.0 wb.0 wa.1 wb.1 (subst (λ (x : Inode). 0 < x.refs) sa pa)
              (subst (λ (x : Inode). 0 < x.refs) sb pb)
              (ap (λ (x : Inode). x.dev) (sym sa) ∙ d ∙ ap (λ (x : Inode). x.dev) sb)
              (ap (λ (x : Inode). x.inum) (sym sa) ∙ n ∙ ap (λ (x : Inode). x.inum) sb)
      ]
    ]
