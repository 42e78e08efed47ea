-- ===== src/Bytes.antt =====
-- string.c: the routines on bytes in memory. Memory is a function from addresses to bytes; an
-- object does not reach round the end of the address space, so address sums do not wrap.
pub mod Move
pub mod Compare
pub mod Copy
use operating_system_laborat.Base.{
  ℕ, zero, suc, ◌+◌, ◌-◌, ◌*◌, ◌/◌, ◌%◌, ◌^◌, ◌&&◌, Option, none, some, ltb, ◌==◌, if◌then◌else◌,
  sub32, slt,
}

abbrev pub Mem : Type 0
Mem = ℕ → ℕ

abbrev pub update : Mem → ℕ → ℕ → Mem
update m a v b = if a == b then v else m b

-- stosb of x86.h: n bytes from dst on
unfoldable pub stosb : Mem → ℕ → ℕ → ℕ → Mem
stosb m dst c zero = m
stosb m dst c (suc n) = stosb (update m dst (c % 256)) (dst + 1) c n

-- One little-endian 32-bit store.
unfoldable pub store32 : Mem → ℕ → ℕ → Mem
store32 m a w =
    update
      (update (update (update m a (w % 256)) (a + 1) (w / 256 % 256)) (a + 2) (w / 65536 % 256))
      (a + 3) (w / 16777216 % 256)

-- stosl of x86.h: n words from dst on
unfoldable pub stosl : Mem → ℕ → ℕ → ℕ → Mem
unfolding store32
stosl m dst w zero = m
stosl m dst w (suc n) = stosl (store32 m dst w) (dst + 4) w n

-- The word that `memset` makes of a byte: the four shifted copies have no bit in common.
abbrev pub spread : ℕ → ℕ
spread c = c * 2 ^ 24 + c * 2 ^ 16 + c * 2 ^ 8 + c

unfoldable pub memset : Mem → ℕ → ℕ → ℕ → Mem
unfolding stosb stosl
memset m dst c n =
    if dst % 4 == 0 && n % 4 == 0 then stosl m dst (spread (c % 256)) (n / 4) else stosb m dst c n

-- The result is a difference of bytes, as an int.
unfoldable pub memcmp : Mem → ℕ → ℕ → ℕ → ℕ
memcmp m s1 s2 zero = 0
memcmp m s1 s2 (suc n) =
    let rest = memcmp m (s1 + 1) (s2 + 1) n in if m s1 == m s2 then rest else sub32 (m s1) (m s2)

-- The forward loop of `memmove`.
unfoldable pub copy_up : Mem → ℕ → ℕ → ℕ → Mem
copy_up m d s zero = m
copy_up m d s (suc n) = copy_up (update m d (m s)) (d + 1) (s + 1) n

-- The backward loop of `memmove`: d and s point behind the bytes left.
unfoldable pub copy_down : Mem → ℕ → ℕ → ℕ → Mem
copy_down m d s zero = m
copy_down m d s (suc n) = copy_down (update m (d - 1) (m (s - 1))) (d - 1) (s - 1) n

unfoldable pub memmove : Mem → ℕ → ℕ → ℕ → Mem
unfolding copy_up copy_down
memmove m d s n =
    if ltb s d && ltb d (s + n) then copy_down m (d + n) (s + n) n else copy_up m d s n

unfoldable pub memcpy : Mem → ℕ → ℕ → ℕ → Mem
unfolding memmove
memcpy m d s n = memmove m d s n

unfoldable pub strncmp : Mem → ℕ → ℕ → ℕ → ℕ
strncmp m p q zero = 0
strncmp m p q (suc n) =
    let rest = strncmp m (p + 1) (q + 1) n in
    if m p == 0 then sub32 (m p) (m q) else if m p == m q then rest else sub32 (m p) (m q)

-- The number of rounds that `while (n-- > 0)` makes for an int n.
abbrev pub rounds : ℕ → ℕ
rounds n = if slt 0 n then n else 0

-- The second loop of `strncpy`.
unfoldable pub zero_fill : Mem → ℕ → ℕ → Mem
zero_fill m s zero = m
zero_fill m s (suc n) = zero_fill (update m s 0) (s + 1) n

-- The first loop of `strncpy`, and what follows it.
unfoldable pub strncpy_loop : Mem → ℕ → ℕ → ℕ → Mem
unfolding zero_fill
strncpy_loop m s t zero = m
strncpy_loop m s t (suc n) =
    let rest = strncpy_loop (update m s (m t)) (s + 1) (t + 1) n in
    if m t == 0 then zero_fill (update m s (m t)) (s + 1) n else rest

unfoldable pub strncpy : Mem → ℕ → ℕ → ℕ → Mem
unfolding strncpy_loop
strncpy m s t n = strncpy_loop m s t (rounds n)

-- The loop of `safestrcpy` and the last store; n counts the rounds left.
unfoldable pub safestrcpy_loop : Mem → ℕ → ℕ → ℕ → Mem
safestrcpy_loop m s t zero = update m s 0
safestrcpy_loop m s t (suc n) =
    let rest = safestrcpy_loop (update m s (m t)) (s + 1) (t + 1) n in
    if m t == 0 then update (update m s (m t)) (s + 1) 0 else rest

unfoldable pub safestrcpy : Mem → ℕ → ℕ → ℕ → Mem
unfolding safestrcpy_loop
safestrcpy m s t n = if slt 0 n then safestrcpy_loop m s t (n - 1) else m

-- `none`: the fuel ran out before a NUL was found.
unfoldable pub strlen_from : ℕ → Mem → ℕ → ℕ → Option ℕ
strlen_from zero m s n = none
strlen_from (suc fuel) m s n =
    let rest = strlen_from fuel m s (n + 1) in if m (s + n) == 0 then some n else rest

unfoldable pub strlen : ℕ → Mem → ℕ → Option ℕ
unfolding strlen_from
strlen fuel m s = strlen_from fuel m s 0
