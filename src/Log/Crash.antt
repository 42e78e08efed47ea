-- ===== src/Log/Crash.antt =====
-- What may be on the disk when the power fails in the middle of a commit.
use operating_system_laborat.Base.{
  ℕ, ◌+◌, ◌^◌, ◌≤◌, ◌<◌, ◌≡◌, ap, ◌∙◌, ◌≢◌, ◌⊎◌, some, List, arith, length, get_elem?, get_elem?-lt,
}
use operating_system_laborat.Bytes.{Mem}
use operating_system_laborat.Kalloc.{load32}
use operating_system_laborat.Log.{Disk, Machine, bwrite, header}
use operating_system_laborat.Log.Header.{Words}

-- The log lies in `size` blocks from `start` on; every other block is a home block.
abbrev pub Home : ℕ → ℕ → ℕ → Type 0
Home start size b = (b < start) ⊎ (start + size ≤ b)

abbrev pub Absent : ℕ → List ℕ → Type 0
Absent b bs = (t : ℕ) → get_elem? bs t ≢ some b

-- The block numbers of a transaction that fits the log: words, of home blocks.
pub record Fits (start size : ℕ) (lh : List ℕ) : Type 0 where
  pub short : length lh < size
  pub word : size < 2 ^ 32
  pub words : Words lh
  pub homes : (t b : ℕ) → get_elem? lh t ≡ some b → Home start size b

-- A write changes no other block.
pub bwrite_frame :
    (s : Machine) (b : ℕ) (x : Mem) (a : ℕ) → a ≢ b → (bwrite b x s).disk a ≡ s.disk a
unfolding bwrite
bwrite_frame s b x a n = ground arith

-- D is the disk before the commit, C the content that the cache has for each block.
module _ (start size : ℕ) (D C : Disk) (lh : List ℕ) where
  -- The log is empty, and the home blocks are as before.
  pub record Old (d : Disk) : Type 0 where
    pub empty : load32 (d start) 0 ≡ 0
    pub before : (b : ℕ) → Home start size b → d b ≡ D b

  -- The log holds the whole transaction, and the home blocks outside it are up to date.
  pub record Mid (d : Disk) : Type 0 where
    pub listed : header (d start) ≡ lh
    pub logged : (t b : ℕ) → get_elem? lh t ≡ some b → d (start + t + 1) ≡ C b
    pub outside : (b : ℕ) → Home start size b → Absent b lh → d b ≡ C b

  -- The log is empty, and every home block is up to date.
  pub record New (d : Disk) : Type 0 where
    pub cleared : load32 (d start) 0 ≡ 0
    pub after : (b : ℕ) → Home start size b → d b ≡ C b

  -- A write to a block of the log behind the header.
  pub bwrite-Old :
      (s : Machine) (t : ℕ) (x : Mem)
      → t + 1 < size
      → Old s.disk
      → Old (bwrite (start + t + 1) x s).disk
  unfolding bwrite
  bwrite-Old s t x lt o = record {
    empty = ground (arith, o.empty);
    before = λ b h. ground (arith, o.before b h);
  }

  -- A write to a block of the transaction.
  pub bwrite-Mid :
      (s : Machine) (b : ℕ) (x : Mem)
      → Fits start size lh
      → ((t : ℕ) × (get_elem? lh t ≡ some b))
      → Mid s.disk
      → Mid (bwrite b x s).disk
  unfolding bwrite
  bwrite-Mid s b x f (u, e) m =
      let home : Home start size b = f.homes u b e in
      let short : length lh < size = f.short in
      record {
        listed = ap header (bwrite_frame s b x start (ground arith)) ∙ m.listed;
        logged = λ t c g. ground (arith, m.logged t c g, get_elem?-lt lh t g);
        outside = λ c h a. ground (arith, m.outside c h a, a u);
      }

  -- An empty log header.
  pub bwrite-clear-Old :
      (s : Machine) (x : Mem) → 0 < size → load32 x 0 ≡ 0 → Old s.disk → Old (bwrite start x s).disk
  unfolding bwrite
  bwrite-clear-Old s x pos z o = record {
    empty = ground (arith, o.empty);
    before = λ b h. ground (arith, o.before b h);
  }

  pub bwrite-clear-New :
      (s : Machine) (x : Mem) → 0 < size → load32 x 0 ≡ 0 → New s.disk → New (bwrite start x s).disk
  unfolding bwrite
  bwrite-clear-New s x pos z o = record {
    cleared = ground (arith, o.cleared);
    after = λ b h. ground (arith, o.after b h);
  }
