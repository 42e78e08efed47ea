-- ===== src/Kalloc/FreeList.antt =====
-- The threaded list implements the list of free pages.
use operating_system_laborat.Base.{
  ℕ, ◌+◌, ◌%◌, ◌^◌, ◌≤◌, ◌<◌, ◌≡◌, refl, sym, ◌∙◌, ◌≢◌, ◌↔◌, ◌⊎◌, inl, inr, true, false, List, [],
  ◌∷◌, arith, ◌==◌, Bool-cases, ok, panic,
}
use operating_system_laborat.Bytes.{Mem, memset, store32}
use operating_system_laborat.Bytes.Move.{memset_lem, within}
use operating_system_laborat.Kalloc.Words.{load32-store32, store32_other, load32-congr}
use operating_system_laborat.Kalloc.{
  pgsize, load32, Kmem, bad_page, kfree, kalloc, free_page, take_page,
}

-- The page v is none of these.
abbrev pub Fresh : ℕ → List ℕ → Type 0
Fresh v [] = Unit
Fresh v (p ∷ ps) = (v ≢ p) × Fresh v ps

-- The chain of words from `head` on goes through these pages, each one once, and ends.
abbrev pub Chain : Mem → ℕ → List ℕ → Type 0
Chain m head [] = head ≡ 0
Chain m head (p ∷ ps) =
    (head ≡ p) × (p % pgsize ≡ 0) × (p ≢ 0) × Fresh p ps × Chain m (load32 m p) ps

-- The pages that the allocator holds.
abbrev pub Holds : Kmem → List ℕ → Type 0
Holds km pages = Chain km.mem km.freelist pages

-- Two pages do not overlap.
apart :
    (v p i : ℕ) → v % pgsize ≡ 0 → p % pgsize ≡ 0 → v ≢ p → i < 4 → within v pgsize (p + i) ≡ false
apart v p i a b n lt = ground arith

apart_order :
    (v p i : ℕ) → v % pgsize ≡ 0 → p % pgsize ≡ 0 → v ≢ p → i < 4 → (p + i < v) ⊎ (v + 3 < p + i)
apart_order v p i a b n lt = omega arith

freed : Mem → ℕ → ℕ → Mem
freed m v next = store32 (memset m v 1 pgsize) v next

freed-other :
    (m : Mem) (v next p i : ℕ)
    → v % pgsize ≡ 0
    → p % pgsize ≡ 0
    → v ≢ p
    → i < 4
    → freed m v next (p + i) ≡ m (p + i)
unfolding freed
freed-other m v next p i a b n lt =
    store32_other (memset m v 1 pgsize) v next (p + i) (apart_order v p i a b n lt)
    ∙ memset_lem m v 1 pgsize (p + i)
    ∙ rw (apart v p i a b n lt)

freed-Chain :
    (m : Mem) (v next head : ℕ) (ps : List ℕ)
    → v % pgsize ≡ 0
    → Fresh v ps
    → Chain m head ps
    → Chain (freed m v next) head ps
freed-Chain m v next head [] a f c = c
freed-Chain m v next head (p ∷ ps) a (n, f) (e, b, nz, g, c) = (
  e,
  b,
  nz,
  g,
  rw (load32-congr m (freed m v next) p (λ i. freed-other m v next p i a b n))
      (freed-Chain m v next (load32 m p) ps a f c),
)

good_page : (kernel_end v : ℕ) → bad_page kernel_end v ≡ false → (v % pgsize ≡ 0) × (kernel_end ≤ v)
good_page kernel_end v h = ground arith

-- `kfree` of a page that the allocator does not hold puts it before the others, or panics in the same
-- cases as the list does; the words that link the other pages stay.
pub kfree_refines :
    (kernel_end v : ℕ) (km : Kmem) (pages : List ℕ)
    → 0 < kernel_end
    → km.freelist < 2 ^ 32
    → Fresh v pages
    → Holds km pages
    → (free_page kernel_end v pages ≡ panic) × (kfree kernel_end v km ≡ panic)
      ⊎ ((km' : Kmem) × (free_page kernel_end v pages ≡ ok (v ∷ pages))
          × (kfree kernel_end v km ≡ ok km')
          × Holds km' (v ∷ pages))
unfolding kfree free_page freed
kfree_refines kernel_end v km pages pos word f c = elim (Bool-cases (bad_page kernel_end v)) [
  | inl bad ↦ inl (rw bad, rw bad)
  | inr good ↦
      let (a, le) = good_page kernel_end v good in
      inr (
        record { mem = freed km.mem v km.freelist; freelist = v },
        rw good,
        rw good,
        (
          refl,
          a,
          omega arith,
          f,
          rw (load32-store32 (memset km.mem v 1 pgsize) v km.freelist word)
              (freed-Chain km.mem v km.freelist km.freelist pages a f c),
        ),
      )
]

-- `kalloc` takes the first page of the list, and holds the others; it returns 0, and holds what
-- it held, exactly if there is none.
pub kalloc_refines :
    (km : Kmem) (pages : List ℕ)
    → Holds km pages
    → ((kalloc km).0 ≡ (take_page pages).0)
      × Holds (kalloc km).1 (take_page pages).1
      × ((kalloc km).0 ≡ 0 ↔ (pages ≡ []))
unfolding kalloc take_page
kalloc_refines km [] c =
    (c, (let e : (km.freelist == 0) ≡ true = ground arith in rw e c), ((λ e. refl), λ e. c))
kalloc_refines km (p ∷ ps) (e, b, nz, f, c) =
    let n : (km.freelist == 0) ≡ false = ground arith in
    (e, rw n (rw e c), ((λ z. absurd (nz (sym e ∙ z))), λ z. absurd (cc)))
