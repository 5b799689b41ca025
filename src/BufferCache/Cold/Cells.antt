-- ===== src/BufferCache/Cold/Cells.antt =====
-- pkg/buffercache/cold.go: what is read from a cell is what was put in it.
use mathlib.Core.Option.{some}
use baker.Common.{
  Bytes, [], ◌∷◌, ℕ, zero, suc, ◌+◌, ◌*◌, ◌/◌, ◌%◌, ◌^◌, ◌≤◌, ◌<◌, Bool, true, false, Bool-cases,
  if◌then◌else◌, length, ◌==◌, ==_iff, ==_ne, leb, ltb, ◌≡◌, ◌≢◌, ◌⊎◌, refl, sym, ap, ap₂, ◌∙◌, inl,
  inr, arith,
}
use baker.BufferCache.Bitmap.{find_free_cell, set_bit, is_set}
use baker.BufferCache.Bitmap.Free.{is_set-set_bit, nwords-set_bit}
use baker.BufferCache.Cold.{Bucket, prefix_of, put_uint32, uint32, write_at, read_at, put, get}

-- A byte outside of what is written stays.
write_at-outside :
    (m : ℕ → ℕ) (pos : ℕ) (s : Bytes) (i : ℕ)
    → (i < pos) ⊎ (pos + length s ≤ i)
    → write_at m pos s i ≡ m i
unfolding write_at
write_at-outside m pos [] i h = refl
write_at-outside m pos (c ∷ s) i h =
    write_at-outside (λ j. if pos == j then c else m j) (pos + 1) s i (shifted h)
    ∙ rw (==_ne pos i (apart h)) refl
  where
    shifted : (i < pos) ⊎ (pos + length (c ∷ s) ≤ i) → (i < pos + 1) ⊎ (pos + 1 + length s ≤ i)
    shifted (inl p) = inl (omega arith)
    shifted (inr p) = inr (omega arith)

    apart : (i < pos) ⊎ (pos + length (c ∷ s) ≤ i) → pos ≢ i
    apart (inl p) e = omega arith
    apart (inr p) e = omega arith

read_at-write_at : (m : ℕ → ℕ) (pos : ℕ) (s : Bytes) → read_at (write_at m pos s) pos (length s) ≡ s
unfolding read_at write_at
read_at-write_at m pos [] = refl
read_at-write_at m pos (c ∷ s) =
    ap₂ (λ d t. d ∷ t)
      (write_at-outside (λ j. if pos == j then c else m j) (pos + 1) s pos (inl (omega arith))
        ∙ rw ((==_iff pos pos).1 refl) refl)
      (read_at-write_at (λ j. if pos == j then c else m j) (pos + 1) s)

-- What is read elsewhere stays.
read_at-outside :
    (m : ℕ → ℕ) (pos q n : ℕ) (s : Bytes)
    → (q + n ≤ pos) ⊎ (pos + length s ≤ q)
    → read_at (write_at m pos s) q n ≡ read_at m q n
unfolding read_at
read_at-outside m pos q zero s h = refl
read_at-outside m pos q (suc n) s h =
    ap₂ (λ d t. d ∷ t) (write_at-outside m pos s q (here h))
      (read_at-outside m pos (q + 1) n s (there h))
  where
    here : (q + suc n ≤ pos) ⊎ (pos + length s ≤ q) → (q < pos) ⊎ (pos + length s ≤ q)
    here (inl p) = inl (omega arith)
    here (inr p) = inr p

    there : (q + suc n ≤ pos) ⊎ (pos + length s ≤ q) → (q + 1 + n ≤ pos) ⊎ (pos + length s ≤ q + 1)
    there (inl p) = inl (omega arith)
    there (inr p) = inr (omega arith)

-- A prefix is read back as the length and the mark.
pub prefix_read :
    (len : ℕ) (z : Bool)
    → len < 2 ^ 31
    → let p = prefix_of len z in
      let q = uint32 (p % 256) (p / 256 % 256) (p / 65536 % 256) (p / 16777216 % 256) in
      (q % 2 ^ 31 ≡ len) × (leb (2 ^ 31) q ≡ z)
unfolding prefix_of uint32
prefix_read len z h = ground arith

module _ (m : ℕ → ℕ) (pos n : ℕ) where
  put_uint32_bytes :
      let w = write_at m pos (put_uint32 n) in
      (w pos ≡ n % 256)
      × (w (pos + 1) ≡ n / 256 % 256)
      × (w (pos + 2) ≡ n / 65536 % 256)
      × (w (pos + 3) ≡ n / 16777216 % 256)
  unfolding put_uint32 write_at
  put_uint32_bytes = (ground arith, ground arith, ground arith, ground arith)

length-read_at : (m : ℕ → ℕ) (pos n : ℕ) → length (read_at m pos n) ≡ n
unfolding read_at
length-read_at m pos zero = refl
length-read_at m pos (suc n) = ap suc (length-read_at m (pos + 1) n)

fits_in : (i n cb : ℕ) → i < n → i * cb + cb ≤ n * cb
fits_in i n cb h = grind arith

two_fit : (n cb : ℕ) → 1 < n → cb + cb ≤ n * cb
two_fit n cb h = grind arith

length-put_uint32 : (n : ℕ) → length (put_uint32 n) ≡ 4
unfolding put_uint32
length-put_uint32 n = refl

-- Cells do not overlap.
cells_apart : (i j cb : ℕ) → j ≢ i → (j * cb + cb ≤ i * cb) ⊎ (i * cb + cb ≤ j * cb)
cells_apart i j cb h = elim (Bool-cases (ltb j i)) [
  | inl e ↦ inl (mul_step j i (ground (arith, e)))
  | inr e ↦ inr (mul_step i j (ground (arith, e)))
]
  where
    mul_step : (a b : ℕ) → a < b → a * cb + cb ≤ b * cb
    mul_step a b l = grind arith

-- The bucket's cells have room for what they hold, and a uint32 for their positions.
pub record IsWell (b : Bucket) : Type 0 where
  pub sized : b.freecells.nwords * 64 * b.cellbytes ≤ 2 ^ 32
  pub held :
      (j : ℕ)
      → j < b.freecells.nwords * 64
      → is_set b.freecells j ≡ true
      → length (get b j).0 + 4 ≤ b.cellbytes

-- The prefix at byte `pos`, and what stands behind a prefix.
abbrev pub prefix_at : (ℕ → ℕ) → ℕ → ℕ
prefix_at m pos = uint32 (m pos) (m (pos + 1)) (m (pos + 2)) (m (pos + 3))

abbrev pub behind : (ℕ → ℕ) → ℕ → ℕ → Bytes × Bool
behind m pos prefix = (read_at m (pos + 4) (prefix % 2 ^ 31), leb (2 ^ 31) prefix)

-- What a cell at byte `pos` holds.
abbrev pub get_at : (ℕ → ℕ) → ℕ → Bytes × Bool
get_at m pos = behind m pos (prefix_at m pos)

pub get-get_at :
    (b : Bucket) (j : ℕ) → j * b.cellbytes < 2 ^ 32 → get b j ≡ get_at b.memory (j * b.cellbytes)
unfolding get
get-get_at b j h = ap (get_at b.memory) {y = j * b.cellbytes} (omega arith)

prefix_at-outside :
    (m : ℕ → ℕ) (pos q : ℕ) (s : Bytes)
    → (pos + 4 ≤ q) ⊎ (q + length s ≤ pos)
    → prefix_at (write_at m q s) pos ≡ prefix_at m pos
prefix_at-outside m pos q s h =
    rw
      (
        write_at-outside m q s pos (at 0 (omega arith) pos (omega arith)),
        write_at-outside m q s (pos + 1) (at 1 (omega arith) (pos + 1) refl),
        write_at-outside m q s (pos + 2) (at 2 (omega arith) (pos + 2) refl),
        write_at-outside m q s (pos + 3) (at 3 (omega arith) (pos + 3) refl),
      )
      refl
  where
    at : (k : ℕ) → k < 4 → (i : ℕ) → i ≡ pos + k → (i < q) ⊎ (q + length s ≤ i)
    at k l i e = elim h [ inl p ↦ inl (omega arith) | inr p ↦ inr (omega arith) ]

-- A write outside of the cell leaves what it holds.
get_at-outside :
    (m : ℕ → ℕ) (pos q : ℕ) (s : Bytes)
    → (pos + 4 + length (get_at m pos).0 ≤ q) ⊎ (q + length s ≤ pos)
    → get_at (write_at m q s) pos ≡ get_at m pos
get_at-outside m pos q s h =
    ap (behind (write_at m q s) pos) (prefix_at-outside m pos q s (before h))
    ∙ ap (λ t. (t, leb (2 ^ 31) (prefix_at m pos)))
        (read_at-outside m q (pos + 4) (prefix_at m pos % 2 ^ 31) s (after h))
  where
    size : length (get_at m pos).0 ≡ prefix_at m pos % 2 ^ 31
    size = length-read_at m (pos + 4) (prefix_at m pos % 2 ^ 31)

    before :
        (pos + 4 + length (get_at m pos).0 ≤ q) ⊎ (q + length s ≤ pos)
        → (pos + 4 ≤ q) ⊎ (q + length s ≤ pos)
    before (inl p) = inl (omega arith)
    before (inr p) = inr p

    after :
        (pos + 4 + length (get_at m pos).0 ≤ q) ⊎ (q + length s ≤ pos)
        → (pos + 4 + prefix_at m pos % 2 ^ 31 ≤ q) ⊎ (q + length s ≤ pos + 4)
    after (inl p) = inl (omega (arith, size))
    after (inr p) = inr (omega arith)

-- What is put in a cell is read back.
get_at-write_at :
    (m : ℕ → ℕ) (pos : ℕ) (buf : Bytes) (z : Bool)
    → length buf < 2 ^ 31
    → get_at (write_at (write_at m pos (put_uint32 (prefix_of (length buf) z))) (pos + 4) buf) pos
      ≡ (buf, z)
get_at-write_at m pos buf z h =
    let p = prefix_of (length buf) z in
    let w = write_at m pos (put_uint32 p) in
    let (b0, b1, b2, b3) = put_uint32_bytes m pos p in
    let q = uint32 (p % 256) (p / 256 % 256) (p / 65536 % 256) (p / 16777216 % 256) in
    let e : prefix_at w pos ≡ q = rw (b0, b1, b2, b3) refl in
    let r = prefix_read (length buf) z h in
    ap (behind (write_at w (pos + 4) buf) pos)
      (prefix_at-outside w pos (pos + 4) buf (inl (omega arith)) ∙ e)
    ∙ ap₂ (λ n t. (read_at (write_at w (pos + 4) buf) (pos + 4) n, t)) r.0 r.1
    ∙ ap (λ t. (t, z)) (read_at-write_at w (pos + 4) buf)

module _ (b : Bucket) (buf : Bytes) (z : Bool) (i : ℕ) where
  -- The bucket once the buffer is in cell `i`.
  abbrev pub filled : Bucket
  filled = record b {
    memory =
        write_at (write_at b.memory (i * b.cellbytes) (put_uint32 (prefix_of (length buf) z)))
          (i * b.cellbytes + 4) buf;
    freecells = set_bit b.freecells i;
  }

  pub put-filled : find_free_cell b.freecells ≡ some i → put buf z b ≡ some (i, filled)
  unfolding put
  put-filled e = rw (put, e) refl

  pub get-filled :
      i < b.freecells.nwords * 64
      → b.freecells.nwords * 64 * b.cellbytes ≤ 2 ^ 32
      → length buf + 4 ≤ b.cellbytes
      → get filled i ≡ (buf, z)
  get-filled h s l =
      let n = b.freecells.nwords * 64 in
      let inside = fits_in i n b.cellbytes h in
      let small : b.cellbytes ≤ 2 ^ 32 = omega (arith, inside) in
      get-get_at filled i (omega (arith, inside))
      ∙ get_at-write_at b.memory (i * b.cellbytes) buf z
          (omega (arith, two_fit n b.cellbytes (omega arith)))

  -- The other cells hold what they held.
  pub get-filled_other :
      (j : ℕ)
      → IsWell b
      → i < b.freecells.nwords * 64
      → j < b.freecells.nwords * 64
      → is_set b.freecells j ≡ true
      → length buf + 4 ≤ b.cellbytes
      → j ≢ i
      → get filled j ≡ get b j
  get-filled_other j v h k t l d =
      let room = v.held j k t in
      let within_j = fits_in j (b.freecells.nwords * 64) b.cellbytes k in
      let bound : j * b.cellbytes < 2 ^ 32 = omega (arith, within_j, v.sized, room) in
      let same = get-get_at b j bound in
      let size : length (get_at b.memory (j * b.cellbytes)).0 + 4 ≤ b.cellbytes =
        omega (arith, room, ap (λ t. length t.0) same) in
      get-get_at filled j bound ∙ unchanged (cells_apart i j b.cellbytes d) size ∙ sym same
    where
      w : ℕ → ℕ
      w = write_at b.memory (i * b.cellbytes) (put_uint32 (prefix_of (length buf) z))

      inner :
          (j * b.cellbytes + b.cellbytes ≤ i * b.cellbytes)
            ⊎ (i * b.cellbytes + b.cellbytes ≤ j * b.cellbytes)
          → length (get_at b.memory (j * b.cellbytes)).0 + 4 ≤ b.cellbytes
          → get_at w (j * b.cellbytes) ≡ get_at b.memory (j * b.cellbytes)
      inner h size =
          get_at-outside b.memory (j * b.cellbytes) (i * b.cellbytes)
            (put_uint32 (prefix_of (length buf) z))
            (elim h [
              | inl p ↦ inl (omega arith)
              | inr p ↦ inr (omega (arith, length-put_uint32 (prefix_of (length buf) z)))
            ])

      unchanged :
          (j * b.cellbytes + b.cellbytes ≤ i * b.cellbytes)
            ⊎ (i * b.cellbytes + b.cellbytes ≤ j * b.cellbytes)
          → length (get_at b.memory (j * b.cellbytes)).0 + 4 ≤ b.cellbytes
          → get_at filled.memory (j * b.cellbytes) ≡ get_at b.memory (j * b.cellbytes)
      unchanged h size =
          get_at-outside w (j * b.cellbytes) (i * b.cellbytes + 4) buf (elim h [
            | inl p ↦ inl (omega (arith, ap (λ t. length t.0) (inner (inl p) size)))
            | inr p ↦ inr (omega arith)
          ])
          ∙ inner h size

  filled_room :
      IsWell b
      → i < b.freecells.nwords * 64
      → length buf + 4 ≤ b.cellbytes
      → (j : ℕ) → j < (set_bit b.freecells i).nwords * 64
      → is_set b.freecells j ≡ true
      → j ≢ i
      → length (get filled j).0 + 4 ≤ b.cellbytes
  filled_room v h l j k t d =
      let k' : j < b.freecells.nwords * 64 = omega (arith, nwords-set_bit b.freecells i) in
      omega (arith, ap (λ u. length u.0) (get-filled_other j v h k' t l d), v.held j k' t)

  pub filled-IsWell :
      IsWell b → i < b.freecells.nwords * 64 → length buf + 4 ≤ b.cellbytes → IsWell filled
  filled-IsWell v h l = record {
    sized = unfold set_bit in v.sized;
    held = λ j k t. elim (Bool-cases (i == j)) [
      | inl e ↦ omega (
        arith,
        ap (λ c. length (get filled c).0) ((==_iff i j).0 e),
        ap (λ t. length t.0) (get-filled h v.sized l),
      )
      | inr e ↦ filled_room v h l j k (unset j e t) (λ p. apart j e p)
    ];
  }
    where
      unset :
          (j : ℕ)
          → (i == j) ≡ false
          → is_set filled.freecells j ≡ true
          → is_set b.freecells j ≡ true
      unset j e t = ground (arith, is_set-set_bit b.freecells i j)

      apart : (j : ℕ) → (i == j) ≡ false → j ≢ i
      apart j e p = ground (arith, e)
