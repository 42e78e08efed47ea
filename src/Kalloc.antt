-- ===== src/Kalloc.antt =====
-- kalloc.c: the free pages of physical memory, as a list threaded through their first words. `mem`
-- are the bytes at kernel addresses, and `kernel_end` is the symbol `end` of the linker script. Each
-- call is one step: the lock is held while the list is read and changed, and the bytes that kfree
-- fills before it takes the lock are those of a page that its caller owns.
pub mod FreeList
pub mod Words
use operating_system_laborat.Base.{
  ℕ, zero, suc, ◌+◌, ◌-◌, ◌*◌, ◌/◌, ◌%◌, Bool, not, ◌||◌, List, [], ◌∷◌, ltb, leb, ◌==◌,
  if◌then◌else◌, sub32, Outcome, ok, panic, ◌>>=◌,
}
use operating_system_laborat.Bytes.{Mem, memset, store32}

abbrev pub pgsize : ℕ
pgsize = 4096

abbrev pub kernbase : ℕ
kernbase = 0x80000000

abbrev pub phystop : ℕ
phystop = 0xE000000

-- The word at an address, its lowest byte first.
unfoldable pub load32 : Mem → ℕ → ℕ
load32 m a = m a + 256 * m (a + 1) + 65536 * m (a + 2) + 16777216 * m (a + 3)

pub record Kmem : Type 0 where
  pub mem : Mem
  pub freelist : ℕ

-- The test of `kfree`.
abbrev pub bad_page : ℕ → ℕ → Bool
bad_page kernel_end v = not (v % pgsize == 0) || ltb v kernel_end || leb phystop (sub32 v kernbase)

unfoldable pub kfree : ℕ → ℕ → Kmem → Outcome Kmem
unfolding memset store32
kfree kernel_end v km =
    if bad_page kernel_end v
    then panic
    else ok (record { mem = store32 (memset km.mem v 1 pgsize) v km.freelist; freelist = v })

-- The address returned, 0 for none.
unfoldable pub kalloc : Kmem → ℕ × Kmem
unfolding load32
kalloc km = (
  km.freelist,
  (if km.freelist == 0 then km else record km { freelist = load32 km.mem km.freelist }),
)

abbrev pub page_round_up : ℕ → ℕ
page_round_up a = (a + pgsize - 1) / pgsize * pgsize

-- The loop of `freerange`, with the rounds that are left at most.
unfoldable pub freerange_loop : ℕ → ℕ → ℕ → ℕ → Kmem → Outcome Kmem
unfolding kfree
freerange_loop zero kernel_end p vend km = ok km
freerange_loop (suc n) kernel_end p vend km =
    if leb (p + pgsize) vend
    then (kfree kernel_end p km >>= λ km'. freerange_loop n kernel_end (p + pgsize) vend km')
    else ok km

unfoldable pub freerange : ℕ → ℕ → ℕ → Kmem → Outcome Kmem
unfolding freerange_loop
freerange kernel_end vstart vend km =
    freerange_loop (suc (vend / pgsize)) kernel_end (page_round_up vstart) vend km

-- `kfree` and `kalloc` as the rest of the kernel sees them: a list of free pages.
unfoldable pub free_page : ℕ → ℕ → List ℕ → Outcome (List ℕ)
free_page kernel_end v pages = if bad_page kernel_end v then panic else ok (v ∷ pages)

unfoldable pub take_page : List ℕ → ℕ × List ℕ
take_page [] = (0, [])
take_page (v ∷ pages) = (v, pages)
