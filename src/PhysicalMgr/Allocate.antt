-- ===== src/PhysicalMgr/Allocate.antt =====
-- `PhysicalMgr::allocate_block` and `free_block`: the first free block is taken, and given back.
use avi_kernel.Base.{
  ℕ, zero, suc, ◌+◌, ◌-◌, ◌*◌, ◌/◌, ◌%◌, ◌^◌, ◌≤◌, ◌<◌, not, ◌&&◌, Option, none, some, ◌≡◌, ◌≢◌,
  refl, sym, ap, ◌∙◌, arith, ◌⊎◌, inl, inr, ◌==◌, if◌then◌else◌, Bool-cases, u32, ltb,
}
use avi_kernel.Bits.{bit_at, bit_at-le, bit_at-zero, bit_at-complement, bit_at_ext}
use avi_kernel.Bitmap.{Cells, set, clear, test}
use avi_kernel.Bitmap.Laws.{bit, HoldsWords, bit-set, bit-clear, test-bit}
use avi_kernel.PhysicalMgr.{
  PhysicalMgr, find_in_cell, find_block, allocate_block, free_block, block_size,
}

bit_at-full : (k : ℕ) → k < 32 → bit_at 0xffffffff k ≡ 1
bit_at-full k h = bit_at-complement 32 0 k (omega arith) h ∙ rw (bit_at-zero k)

-- A cell other than 0xffffffff has a zero.
not_all_ones : (c : ℕ) → c < 2 ^ 32 → c ≢ 0xffffffff → ¬ ((k : ℕ) → k < 32 → bit_at c k ≡ 1)
not_all_ones c fits ne ones =
    ne (bit_at_ext 32 c 0xffffffff fits (omega arith) (λ k h. ones k h ∙ sym (bit_at-full k h)))

bit_in_cell : (p : Cells) (i j : ℕ) → j < 32 → bit p (i * 32 + j) ≡ bit_at (p i) j
bit_in_cell p i j h =
    let q : (i * 32 + j) / 32 ≡ i = omega arith in
    let r : (i * 32 + j) % 32 ≡ j = omega arith in rw (q, r)

test_in_cell :
    (p : Cells) (i j : ℕ) → j < 32 → test p (i * 32 + j) ≡ ((bit_at (p i) j == 1) && not (j == 31))
test_in_cell p i j h =
    let r : (i * 32 + j) % 32 ≡ j = omega arith in
    rw (test-bit p (i * 32 + j), bit_in_cell p i j h, r)

-- All of `lo` up to `j` and `j` itself.
upto_suc :
    (f : ℕ → ℕ) (lo j : ℕ)
    → ((k : ℕ) → lo ≤ k → k < j → f k ≡ 1)
    → f j ≡ 1
    → (k : ℕ) → lo ≤ k
    → k < j + 1
    → f k ≡ 1
upto_suc f lo j below at k hl h = elim (Bool-cases (k == j)) [
  | inl same ↦ let e : k ≡ j = ground arith in rw e at
  | inr other ↦ below k hl (ground arith)
]

-- `b` is the first free block from `lo` on.
pub record IsFirstFree (p : Cells) (lo b : ℕ) : Type 0 where
  pub from : lo ≤ b
  pub free : bit p b ≡ 0
  pub first : (k : ℕ) → lo ≤ k → k < b → bit p k ≡ 1

-- The outcome of a search among the blocks from `lo` up to `hi`.
abbrev pub Finds : Cells → ℕ → ℕ → Option ℕ → Type 0
Finds p lo hi none = (k : ℕ) → lo ≤ k → k < hi → bit p k ≡ 1
Finds p lo hi (some b) = IsFirstFree p lo b × (b < hi)

module _ (p : Cells) (i : ℕ) (fits : p i < 2 ^ 32) (ne : p i ≢ 0xffffffff) where
  find_in_cell_lem :
      (rounds j : ℕ)
      → j + rounds ≡ 32
      → ((k : ℕ) → 0 ≤ k → k < j → bit_at (p i) k ≡ 1)
      → (b : ℕ) × (find_in_cell p i rounds j ≡ some (i * 32 + b))
        × (b < 32)
        × (bit_at (p i) b ≡ 0)
        × ((k : ℕ) → 0 ≤ k → k < b → bit_at (p i) k ≡ 1)
  unfolding find_in_cell
  find_in_cell_lem zero j e ones =
      absurd (not_all_ones (p i) fits ne (λ k h. ones k (omega arith) (omega arith)))
  find_in_cell_lem (suc rounds) j e ones = elim (Bool-cases (bit_at (p i) j == 1)) [
    | inl used ↦
        let ones' = upto_suc (bit_at (p i)) 0 j ones (ground arith) in
        elim (Bool-cases (j == 31)) [
          | inl last ↦
              absurd (not_all_ones (p i) fits ne (λ k h. ones' k (omega arith) (ground arith)))
          | inr more ↦
              rw (test_in_cell p i j (omega arith), used, more)
                (find_in_cell_lem rounds (j + 1) (omega arith) ones')
        ]
    | inr clear ↦
        rw (test_in_cell p i j (omega arith), clear)
          (j, refl, omega arith, ground (arith, bit_at-le (p i) j), ones)
  ]

full_cell :
    (p : Cells) (i : ℕ) → p i ≡ 0xffffffff → (k : ℕ) → i * 32 ≤ k → k < (i + 1) * 32 → bit p k ≡ 1
full_cell p i full k hl h =
    let q : k / 32 ≡ i = omega arith in rw (q, full) (bit_at-full (k % 32) (omega arith))

-- A search that passes over a full cell.
Finds-skip :
    (p : Cells) (i hi : ℕ) (r : Option ℕ)
    → ((k : ℕ) → i * 32 ≤ k → k < (i + 1) * 32 → bit p k ≡ 1)
    → Finds p ((i + 1) * 32) hi r
    → Finds p (i * 32) hi r
Finds-skip p i hi none full later = λ k hl h. elim (Bool-cases (ltb k ((i + 1) * 32))) [
  | inl here ↦ full k hl (ground arith)
  | inr there ↦ later k (ground arith) h
]
Finds-skip p i hi (some b) full later = (
  record {
    from = omega (arith, later.0.from);
    free = later.0.free;
    first = λ k hl h. elim (Bool-cases (ltb k ((i + 1) * 32))) [
      | inl here ↦ full k hl (ground arith)
      | inr there ↦ later.0.first k (ground arith) h
    ];
  },
  later.1,
)

Finds-cell :
    (p : Cells) (i hi b : ℕ)
    → (i + 1) * 32 ≤ hi
    → b < 32
    → bit_at (p i) b ≡ 0
    → ((k : ℕ) → 0 ≤ k → k < b → bit_at (p i) k ≡ 1)
    → Finds p (i * 32) hi (some (i * 32 + b))
Finds-cell p i hi b room h zero_bit ones = (
  record {
    from = omega arith;
    free = bit_in_cell p i b h ∙ zero_bit;
    first = λ k hl lt.
        let e : i * 32 + (k - i * 32) ≡ k = omega arith in
        let at : bit p (i * 32 + (k - i * 32)) ≡ 1 =
          bit_in_cell p i (k - i * 32) (omega arith)
          ∙ ones (k - i * 32) (omega arith) (omega arith) in
        rw e at at;
  },
  omega arith,
)

find_block-Finds :
    (p : Cells) (rounds i hi : ℕ)
    → HoldsWords p
    → (i + rounds) * 32 ≡ hi
    → Finds p (i * 32) hi (find_block p rounds i)
unfolding find_block
find_block-Finds p zero i hi fits e = λ k hl h. absurd (omega arith)
find_block-Finds p (suc rounds) i hi fits e = elim (Bool-cases (p i == 0xffffffff)) [
  | inl full ↦ rw full (
      Finds-skip p i hi (find_block p rounds (i + 1)) (full_cell p i (ground arith))
        (find_block-Finds p rounds (i + 1) hi fits (omega arith)))
  | inr other ↦
      let (b, found, h, zero_bit, ones) =
        find_in_cell_lem p i (fits i) (ground arith) 32 0 (omega arith)
          (λ k hl h. absurd (omega arith)) in
      rw (other, found) (Finds-cell p i hi b (omega arith) h zero_bit ones)
]

abbrev pub blocks : PhysicalMgr → ℕ
blocks s = s.number_of_cells * 32

-- Block `b` was the first free one, and now it alone has changed.
pub record Takes (s : PhysicalMgr) (b : ℕ) (r : ℕ × PhysicalMgr) : Type 0 where
  pub first : IsFirstFree s.cells 0 b
  pub in_range : b < blocks s
  pub address : r.0 ≡ u32 (b * block_size)
  pub state : r.1 ≡ record s { cells = set s.cells b }
  pub marked : (j : ℕ) → bit r.1.cells j ≡ (if b == j then 1 else bit s.cells j)

abbrev pub AllocateOutcome : PhysicalMgr → ℕ × PhysicalMgr → Type 0
AllocateOutcome s r =
    (((k : ℕ) → k < blocks s → bit s.cells k ≡ 1) × (r ≡ (0, s))) ⊎ ((b : ℕ) × Takes s b r)

allocate_found :
    (s : PhysicalMgr) (o : Option ℕ)
    → find_block s.cells s.number_of_cells 0 ≡ o
    → Finds s.cells 0 (blocks s) o
    → AllocateOutcome s (allocate_block s)
unfolding allocate_block
allocate_found s none e all = inl ((λ k h. all k (omega arith) h), rw (e, allocate_block))
allocate_found s (some b) e found =
    rw (e, allocate_block)
      (inr (
        b,
        record {
          first = found.0;
          in_range = found.1;
          address = refl;
          state = refl;
          marked = bit-set s.cells b;
        },
      ))

-- Over cells that hold words, `allocate_block` either finds every block of the bitmap in use, and
-- then returns 0 and changes nothing; or it returns the address (modulo 2 ^ 32) of the first free
-- block, marks that block as used, and leaves every other block and every other member as it was.
pub allocate_block_outcome :
    (s : PhysicalMgr) → HoldsWords s.cells → AllocateOutcome s (allocate_block s)
allocate_block_outcome s fits =
    allocate_found s (find_block s.cells s.number_of_cells 0) refl
      (find_block-Finds s.cells s.number_of_cells 0 (blocks s) fits (omega arith))

-- `free_block` does nothing with an address that is not that of a block. Otherwise the block's bit becomes 0,
-- and every other bit keeps its value: the block is one of the bitmap's, or its bit is in a cell behind the
-- bitmap, in memory that is not the manager's.
pub free_block_lem :
    (block : ℕ) (s : PhysicalMgr)
    → ((u32 block % block_size ≢ 0) × (free_block block s ≡ s))
      ⊎ ((u32 block % block_size ≡ 0)
          × ((u32 block / block_size < blocks s)
              ⊎ (s.number_of_cells ≤ u32 block / block_size / 32))
          × ((j : ℕ)
              → bit (free_block block s).cells j
                ≡ (if u32 block / block_size == j then 0 else bit s.cells j)))
unfolding free_block
free_block_lem block s = elim (Bool-cases (u32 block % block_size == 0)) [
  | inl aligned ↦ rw aligned (
      inr (
        ground arith,
        elim (Bool-cases (ltb (u32 block / block_size) (blocks s))) [
          | inl inside ↦ inl (ground arith)
          | inr behind ↦ inr (ground arith)
        ],
        bit-clear s.cells (u32 block / block_size),
      ))
  | inr other ↦ rw other (inl (ground arith, refl))
]

give_back :
    (s : PhysicalMgr) (b j : ℕ) (r : ℕ × PhysicalMgr)
    → Takes s b r
    → b < 2 ^ 20
    → bit (free_block r.0 r.1).cells j ≡ bit s.cells j
give_back s b j r t small = elim (free_block_lem r.0 r.1) [
  | inl skipped ↦ absurd (skipped.0 (omega (arith, t.address)))
  | inr freed ↦
      let e : u32 r.0 / block_size ≡ b = omega (arith, t.address) in
      ground (arith, freed.2 j, t.marked j, t.first.free)
]

-- With a bitmap of words and of at most 2 ^ 20 blocks, whatever block other than block 0
-- `allocate_block` takes `free_block` gives back: after the two calls every block is in use exactly if it
-- was before.
pub free_block-allocate_block :
    (s : PhysicalMgr) (j : ℕ)
    → HoldsWords s.cells
    → blocks s ≤ 2 ^ 20
    → 0 < (allocate_block s).0
    → bit (free_block (allocate_block s).0 (allocate_block s).1).cells j ≡ bit s.cells j
free_block-allocate_block s j fits small taken = elim (allocate_block_outcome s fits) [
  | inl full ↦ absurd (let e : (allocate_block s).0 ≡ 0 = ap (λ r. r.0) full.1 in omega arith)
  | inr found ↦ give_back s found.0 j (allocate_block s) found.1 (omega (arith, found.1.in_range))
]
