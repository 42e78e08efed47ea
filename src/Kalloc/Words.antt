-- ===== src/Kalloc/Words.antt =====
-- Words in memory: what a load finds after a store.
use operating_system_laborat.Base.{ℕ, ◌+◌, ◌^◌, ◌≤◌, ◌<◌, ◌≡◌, sym, ap, ◌∙◌, ◌⊎◌, arith}
use operating_system_laborat.Bytes.{Mem, store32}
use operating_system_laborat.Kalloc.{load32}

pub load32-store32 : (m : Mem) (a w : ℕ) → w < 2 ^ 32 → load32 (store32 m a w) a ≡ w
unfolding load32 store32
load32-store32 m a w h = ground arith

pub store32_other : (m : Mem) (a w b : ℕ) → (b < a) ⊎ (a + 3 < b) → store32 m a w b ≡ m b
unfolding store32
store32_other m a w b h = ground arith

pub load32-congr :
    (m m' : Mem) (p : ℕ) → ((i : ℕ) → i < 4 → m' (p + i) ≡ m (p + i)) → load32 m' p ≡ load32 m p
unfolding load32
load32-congr m m' p h =
    let zero_off : p + 0 ≡ p = omega arith in
    let first : m' p ≡ m p = ap m' (sym zero_off) ∙ h 0 (omega arith) ∙ ap m zero_off in
    ground (arith, h 1, h 2, h 3)

pub load32-store32_other :
    (m : Mem) (a w b : ℕ) → (b + 4 ≤ a) ⊎ (a + 4 ≤ b) → load32 (store32 m a w) b ≡ load32 m b
load32-store32_other m a w b h =
    load32-congr m (store32 m a w) b (λ i lt. store32_other m a w (b + i) (omega arith))
