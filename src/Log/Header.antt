-- ===== src/Log/Header.antt =====
-- The header block: what write_head stores, read_head reads.
use operating_system_laborat.Base.{
  ℕ, ◌+◌, ◌^◌, ◌≤◌, ◌<◌, ◌≡◌, refl, ap₂, ◌∙◌, inl, List, [], ◌∷◌, arith, length,
}
use operating_system_laborat.Bytes.{Mem, store32}
use operating_system_laborat.Kalloc.{load32}
use operating_system_laborat.Kalloc.Words.{load32-store32, load32-store32_other}
use operating_system_laborat.Log.{write_words, read_words, set_header, header}

-- Every number of the list is a word.
abbrev pub Words : List ℕ → Type 0
Words [] = Unit
Words (w ∷ ws) = (w < 2 ^ 32) × Words ws

pub load32-write_words :
    (m : Mem) (a b : ℕ) (ws : List ℕ) → b + 4 ≤ a → load32 (write_words m a ws) b ≡ load32 m b
unfolding write_words
load32-write_words m a b [] h = refl
load32-write_words m a b (w ∷ ws) h =
    load32-write_words (store32 m a w) (a + 4) b ws (omega arith)
    ∙ load32-store32_other m a w b (inl h)

pub read_words-write_words :
    (m : Mem) (a : ℕ) (ws : List ℕ) → Words ws → read_words (write_words m a ws) a (length ws) ≡ ws
unfolding write_words read_words
read_words-write_words m a [] h = refl
read_words-write_words m a (w ∷ ws) (lt, h) =
    ap₂ ◌∷◌
      (load32-write_words (store32 m a w) (a + 4) a ws (omega arith) ∙ load32-store32 m a w lt)
      (read_words-write_words (store32 m a w) (a + 4) ws h)

-- The header that write_head stores in a block is the one that read_head reads there, for up
-- to 2^32 - 1 block numbers.
pub header-set_header :
    (lh : List ℕ) (m : Mem) → length lh < 2 ^ 32 → Words lh → header (set_header lh m) ≡ lh
header-set_header lh m short h =
    rw
      (load32-write_words (store32 m 0 (length lh)) 4 0 lh (omega arith)
        ∙ load32-store32 m 0 (length lh) short)
      (read_words-write_words (store32 m 0 (length lh)) 4 lh h)

pub count-set_header :
    (lh : List ℕ) (m : Mem) → length lh < 2 ^ 32 → load32 (set_header lh m) 0 ≡ length lh
count-set_header lh m short =
    load32-write_words (store32 m 0 (length lh)) 4 0 lh (omega arith)
    ∙ load32-store32 m 0 (length lh) short
