-- ===== src/Syscall/Arguments.antt =====
-- What fetchint, fetchstr, argint and argptr let a process name.
use operating_system_laborat.Base.{
  ℕ, zero, suc, ◌+◌, ◌-◌, ◌^◌, ◌≤◌, ◌<◌, ◌≡◌, subst, ◌≢◌, ◌↔◌, inl, inr, Option, none, some, arith,
  leb, ◌==◌, if◌then◌else◌, Bool-cases, Option-cases,
}
use operating_system_laborat.Bytes.{Mem}
use operating_system_laborat.Kalloc.{load32, kernbase}
use operating_system_laborat.Proc.{Proc}
use operating_system_laborat.Syscall.{fetchint, fetchstr, fetchstr_loop, argint, argptr}

-- For a process below KERNBASE, `fetchint` reads a word exactly if all four of its bytes lie
-- inside the process.
pub fetchint_lem :
    (sz : ℕ) (mem : Mem) (addr : ℕ)
    → sz ≤ kernbase
    → addr < 2 ^ 32
    → fetchint sz mem addr ≡ (if leb (addr + 4) sz then some (load32 mem addr) else none)
unfolding fetchint
fetchint_lem sz mem addr h a = ground arith

-- For a process below KERNBASE, a pointer to a block that `argptr` returns is the argument, and
-- every byte of the block lies inside the process; it refuses all other blocks.
pub argptr_lem :
    (p : Proc) (mem : Mem) (n size : ℕ)
    → p.sz ≤ kernbase
    → size < 2 ^ 32
    → (i : ℕ)
    → (argptr p mem n size ≡ some i)
      ↔ ((argint p mem n ≡ some i) × (size < 2 ^ 31) × (i < p.sz) × (i + size ≤ p.sz))
unfolding argptr
argptr_lem p mem n size h w i = elim (Option-cases (argint p mem n)) [
  | inl e ↦ (λ f. absurd (ground arith), λ (f, g, l, m). absurd (ground arith))
  | inr (v, e) ↦ (λ f. ground arith, λ (f, g, l, m). ground arith)
]

-- The n bytes from addr on are not 0, and the next one is.
pub record StringAt (mem : Mem) (addr n : ℕ) : Type 0 where
  pub no_zero : (i : ℕ) → i < n → mem (addr + i) ≢ 0
  pub ends : mem (addr + n) ≡ 0

abbrev Finds : ℕ → Mem → ℕ → ℕ → Option ℕ → Type 0
Finds left mem addr n none = (i : ℕ) → i < left → mem (addr + i) ≢ 0
Finds left mem addr n (some r) = (m : ℕ) × (r ≡ n + m) × (m < left) × StringAt mem addr m

Finds-cons :
    (left : ℕ) (mem : Mem) (addr n : ℕ) (r : Option ℕ)
    → mem addr ≢ 0
    → Finds left mem (addr + 1) (n + 1) r
    → Finds (suc left) mem addr n r
Finds-cons left mem addr n none nz h = go
  where
    go : (i : ℕ) → i < suc left → mem (addr + i) ≢ 0
    go zero lt e = let s : addr + 0 ≡ addr = omega arith in nz (rw s at e)
    go (suc i) lt e =
        let s : addr + suc i ≡ addr + 1 + i = omega arith in h i (omega arith) (rw s at e)
Finds-cons left mem addr n (some r) nz (m, e, lt, s) =
    (suc m, omega arith, omega arith, record { no_zero = go; ends = last })
  where
    go : (i : ℕ) → i < suc m → mem (addr + i) ≢ 0
    go zero l f = let q : addr + 0 ≡ addr = omega arith in nz (rw q at f)
    go (suc i) l f =
        let q : addr + suc i ≡ addr + 1 + i = omega arith in s.no_zero i (omega arith) (rw q at f)

    last : mem (addr + suc m) ≡ 0
    last = let q : addr + suc m ≡ addr + 1 + m = omega arith in rw q s.ends

fetchstr_loop_lem :
    (left : ℕ) (mem : Mem) (addr n : ℕ) → Finds left mem addr n (fetchstr_loop left mem addr n)
unfolding fetchstr_loop
fetchstr_loop_lem zero mem addr n = λ i lt. absurd (omega arith)
fetchstr_loop_lem (suc left) mem addr n = elim (Bool-cases (mem addr == 0)) [
  | inl z ↦ rw z (
    0,
    omega arith,
    omega arith,
    record {
      no_zero = λ i lt. absurd (omega arith);
      ends = (let s : addr + 0 ≡ addr = omega arith in rw s (ground arith));
    },
  )
  | inr nz ↦
      rw nz (
        Finds-cons left mem addr n _ (ground arith) (fetchstr_loop_lem left mem (addr + 1) (n + 1)))
]

-- What `fetchstr` answers: the length of a string that lies inside the process with its terminator,
-- or none if no byte from the address to the end of the process is 0.
abbrev pub StringIn : ℕ → Mem → ℕ → Option ℕ → Type 0
StringIn sz mem addr none = (a : ℕ) → addr ≤ a → a < sz → mem a ≢ 0
StringIn sz mem addr (some n) = (addr + n < sz) × StringAt mem addr n

-- `fetchstr` returns the length of the string at the address if the string and its terminator lie
-- inside the process, and -1 exactly if there is no terminator between the address and its end.
pub fetchstr_lem : (sz : ℕ) (mem : Mem) (addr : ℕ) → StringIn sz mem addr (fetchstr sz mem addr)
unfolding fetchstr
fetchstr_lem sz mem addr = elim (Bool-cases (leb sz addr)) [
  | inl out ↦ rw out (λ a le lt. absurd (ground arith))
  | inr inside ↦ rw inside (go _ (fetchstr_loop_lem (sz - addr) mem addr 0))
]
  where
    go : (r : Option ℕ) → Finds (sz - addr) mem addr 0 r → StringIn sz mem addr r
    go none h = λ a le lt e.
        let s : a ≡ addr + (a - addr) = omega arith in h (a - addr) (omega arith) (rw s at e)
    go (some r) (m, e, lt, s) =
        let same : m ≡ r = omega arith in
        subst (λ n. (addr + n < sz) × StringAt mem addr n) same (omega arith, s)
