-- ===== src/Log/Space.antt =====
-- The space that begin_op reserves is enough.
use operating_system_laborat.Base.{
  ℕ, zero, suc, ◌+◌, ◌-◌, ◌*◌, ◌≤◌, ◌<◌, ◌≡◌, refl, sym, ◌∙◌, subst, inl, inr, Bool, true, false,
  some, List, [], ◌∷◌, arith, ltb, leb, ◌==◌, if◌then◌else◌, Bool-cases, length, get_elem?, set,
  length-set, get_elem?-set_self, get_elem?-set_ne, get_elem?-lt, sub32, Outcome, ok, panic,
  ℕ_discrete,
}
use operating_system_laborat.Log.{
  Log, logsize, maxopblocks, begin_op, end_op, end_commit, log_write, absorb,
}

-- How many more blocks each running operation may write.
abbrev pub total : List ℕ → ℕ
total [] = 0
total (n ∷ ns) = n + total ns

-- The list without its entry i.
abbrev pub without : ℕ → List ℕ → List ℕ
without i [] = []
without zero (n ∷ ns) = ns
without (suc i) (n ∷ ns) = n ∷ without i ns

-- The operations' blocks have room behind those of the header.
pub record Room (l : Log) (ops : List ℕ) : Type 0 where
  pub running : l.outstanding ≡ length ops
  pub room : length l.lh + total ops ≤ logsize
  pub few : (i n : ℕ) → get_elem? ops i ≡ some n → n ≤ maxopblocks
  pub few_ops : length ops * maxopblocks ≤ logsize
  pub quiet : l.committing ≡ true → ops ≡ []

-- What the operations do to the log: one starts, writes a block, ends, or the commit is over. An
-- operation is its place in the list.
pub data Step : Log → List ℕ → Log → List ℕ → Type 0 where
  starts : (l l' : Log) (ops : List ℕ) → begin_op l ≡ some l' → Step l ops l' (maxopblocks ∷ ops)
  writes :
      (b i n : ℕ) (l l' : Log) (ops : List ℕ)
      → get_elem? ops i ≡ some (suc n)
      → log_write b l ≡ ok l'
      → Step l ops l' (set ops i n)
  ends :
      (i n : ℕ) (l l' : Log) (flag : Bool) (ops : List ℕ)
      → get_elem? ops i ≡ some n
      → end_op l ≡ ok (l', flag)
      → Step l ops l' (without i ops)
  commits : (l : Log) → l.committing ≡ true → Step l [] (end_commit l) []

total-le :
    (ops : List ℕ)
    → ((i n : ℕ) → get_elem? ops i ≡ some n → n ≤ maxopblocks)
    → total ops ≤ length ops * maxopblocks
total-le [] h = omega arith
total-le (n ∷ ns) h = omega (arith, h 0 n refl, total-le ns (λ i. h (suc i)))

total-set :
    (ops : List ℕ) (i n : ℕ) → get_elem? ops i ≡ some (suc n) → total (set ops i n) + 1 ≡ total ops
total-set [] i n e = ground arith
total-set (m ∷ ms) zero n e = let s : m ≡ suc n = ground arith in omega arith
total-set (m ∷ ms) (suc i) n e = omega (arith, total-set ms i n e)

without_lem :
    (ops : List ℕ) (i n : ℕ)
    → get_elem? ops i ≡ some n
    → (length (without i ops) + 1 ≡ length ops) × (total (without i ops) + n ≡ total ops)
without_lem [] i n e = ground arith
without_lem (m ∷ ms) zero n e = let s : m ≡ n = ground arith in (omega arith, omega arith)
without_lem (m ∷ ms) (suc i) n e = let (l, t) = without_lem ms i n e in (omega arith, omega arith)

pub length-absorb : (b : ℕ) (bs : List ℕ) → length (absorb b bs) ≤ length bs + 1
unfolding absorb
length-absorb b [] = omega arith
length-absorb b (c ∷ cs) = ground (arith, length-absorb b cs)

some-total : (ops : List ℕ) (i n : ℕ) → get_elem? ops i ≡ some n → n ≤ total ops
some-total [] i n e = ground arith
some-total (m ∷ ms) zero n e = ground arith
some-total (m ∷ ms) (suc i) n e = omega (arith, some-total ms i n e)

abbrev if_room : ℕ → Log → Outcome Log
if_room b l = if ltb (length l.lh) (l.size - 1) then ok (record l { lh = absorb b l.lh }) else panic

-- An operation that has blocks left can write one if the log on the disk has a block for it. The guards
-- on the 30 entries of the header and on the running operation never stop it.
pub can_write :
    (b i n : ℕ) (l : Log) (ops : List ℕ)
    → Room l ops
    → get_elem? ops i ≡ some (suc n)
    → log_write b l ≡ if_room b l
unfolding log_write
can_write b i n l ops r e =
    let a : suc n ≤ total ops = some-total ops i (suc n) e in
    let c : i < length ops = get_elem?-lt ops i e in
    let p : leb logsize (length l.lh) ≡ false = ground (arith, r.room) in
    let o : ltb l.outstanding 1 ≡ false = ground (arith, r.running) in
    elim (Bool-cases (ltb (length l.lh) (l.size - 1))) [
      | inl y ↦
          let q : leb (l.size - 1) (length l.lh) ≡ false = ground arith in rw (p, q, o, y) refl
      | inr n ↦ let q : leb (l.size - 1) (length l.lh) ≡ true = ground arith in rw (p, q, n) refl
    ]

-- A write that goes through puts the block into the header.
written :
    (b i n : ℕ) (l l' : Log) (ops : List ℕ)
    → Room l ops
    → get_elem? ops i ≡ some (suc n)
    → log_write b l ≡ ok l'
    → record l { lh = absorb b l.lh } ≡ l'
written b i n l l' ops r e w = elim (Bool-cases (ltb (length l.lh) (l.size - 1))) [
  | inl y ↦ ground (arith, can_write b i n l ops r e)
  | inr z ↦ absurd (ground (arith, can_write b i n l ops r e))
]

-- An operation that runs can end; the last one goes on to the commit.
pub can_end :
    (i n : ℕ) (l : Log) (ops : List ℕ)
    → Room l ops
    → get_elem? ops i ≡ some n
    → end_op l
      ≡ ok (
        record l { outstanding = l.outstanding - 1; committing = l.outstanding == 1 },
        l.outstanding == 1,
      )
unfolding end_op
can_end i n l ops r e = elim (Bool-cases l.committing) [
  | inl y ↦ absurd (none_left (r.quiet y))
  | inr c ↦ elim (Bool-cases (l.outstanding == 1)) [
    | inl one ↦
        let z : (sub32 l.outstanding 1 == 0) ≡ true = ground arith in
        let d : sub32 l.outstanding 1 ≡ l.outstanding - 1 = ground arith in rw (c, z, d, one) refl
    | inr more ↦
        let lt : i < length ops = get_elem?-lt ops i e in
        let pos : (0 < l.outstanding) × (l.outstanding ≤ 3) = omega (arith, r.running, r.few_ops) in
        let z : (sub32 l.outstanding 1 == 0) ≡ false = ground arith in
        let d : sub32 l.outstanding 1 ≡ l.outstanding - 1 = omega arith in rw (c, z, d, more) refl
  ]
]
  where
    none_left : ops ≡ [] → ⊥
    none_left z = ground (arith, get_elem?-lt ops i e)

set-few :
    (ops : List ℕ) (i n j m : ℕ)
    → get_elem? ops i ≡ some (suc n)
    → ((i n : ℕ) → get_elem? ops i ≡ some n → n ≤ maxopblocks)
    → get_elem? (set ops i n) j ≡ some m
    → m ≤ maxopblocks
set-few ops i n j m e h f = elim (ℕ_discrete i j) [
  | yes s ↦
      let lt : i < length ops = get_elem?-lt ops i e in
      ground (arith, get_elem?-set_self ops i n lt, h i (suc n) e)
  | no ne ↦ h j m (sym (get_elem?-set_ne ops i j n ne) ∙ f)
]

without-few :
    (ops : List ℕ) (i : ℕ)
    → ((i n : ℕ) → get_elem? ops i ≡ some n → n ≤ maxopblocks)
    → (j m : ℕ) → get_elem? (without i ops) j ≡ some m
    → m ≤ maxopblocks
without-few [] i h j m f = h j m f
without-few (n ∷ ns) zero h j m f = h (suc j) m f
without-few (n ∷ ns) (suc i) h zero m f = h 0 m f
without-few (n ∷ ns) (suc i) h (suc j) m f = without-few ns i (λ k. h (suc k)) j m f

begin-Room :
    (l l' : Log) (ops : List ℕ) → begin_op l ≡ some l' → Room l ops → Room l' (maxopblocks ∷ ops)
unfolding begin_op
begin-Room l l' ops e r = elim (Bool-cases l.committing) [
  | inl y ↦ absurd (ground arith)
  | inr c ↦
      let fits : ltb logsize (length l.lh + (l.outstanding + 1) * maxopblocks) ≡ false =
        ground arith in
      let same : record l { outstanding = l.outstanding + 1 } ≡ l' = ground arith in
      subst (λ k. Room k (maxopblocks ∷ ops)) same
        (record {
          running = omega (arith, r.running);
          room = ground (arith, total-le ops r.few, r.running);
          few = few;
          few_ops = ground (arith, r.running);
          quiet = λ q. cc;
        })
]
  where
    few : (i n : ℕ) → get_elem? (maxopblocks ∷ ops) i ≡ some n → n ≤ maxopblocks
    few zero n f = ground arith
    few (suc i) n f = r.few i n f

-- Each step keeps the room.
pub Step-Room : (l l' : Log) (ops ops' : List ℕ) → Step l ops l' ops' → Room l ops → Room l' ops'
unfolding end_commit
Step-Room _ _ _ _ (starts l l' ops e) r = begin-Room l l' ops e r
Step-Room _ _ _ _ (writes b i n l l' ops e w) r =
    let same : record l { lh = absorb b l.lh } ≡ l' = written b i n l l' ops r e w in
    subst (λ k. Room k (set ops i n)) same
      (record {
        running = omega (arith, r.running, length-set ops i n);
        room = omega (arith, r.room, length-absorb b l.lh, total-set ops i n e);
        few = λ j m f. set-few ops i n j m e r.few f;
        few_ops = omega (arith, r.few_ops, length-set ops i n);
        quiet = λ q. absurd (ground (arith, r.quiet q, get_elem?-lt ops i e));
      })
Step-Room _ _ _ _ (ends i n l l' flag ops e w) r =
    let same : record l { outstanding = l.outstanding - 1; committing = l.outstanding == 1 } ≡ l' =
      ground (arith, can_end i n l ops r e) in
    let (len, sum) = without_lem ops i n e in
    subst (λ k. Room k (without i ops)) same
      (record {
        running = omega (arith, r.running, len);
        room = omega (arith, r.room, sum);
        few = without-few ops i r.few;
        few_ops = omega (arith, r.few_ops, len);
        quiet = λ q. no_entry (without i ops) (ground (arith, r.running, len));
      })
  where
    no_entry : (ns : List ℕ) → length ns ≡ 0 → ns ≡ []
    no_entry [] h = refl
    no_entry (m ∷ ns) h = absurd (omega arith)
Step-Room _ _ _ _ (commits l c) r = record {
  running = r.running;
  room = omega arith;
  few = λ i n f. cc;
  few_ops = omega arith;
  quiet = λ q. refl;
}

-- Every log that can be reached from an empty one, however many blocks it has on the disk.
pub data Reach : Log → List ℕ → Type 0 where
  starts_empty : (l : Log) → l.outstanding ≡ 0 → l.committing ≡ false → l.lh ≡ [] → Reach l []
  later : (l l' : Log) (ops ops' : List ℕ) → Reach l ops → Step l ops l' ops' → Reach l' ops'
