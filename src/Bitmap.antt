-- ===== src/Bitmap.antt =====
-- src/utils/bitmap.cpp: an array of 32-bit cells read and written bit by bit.
-- The array is the memory from the given pointer on, a function of the cell's index: as in the
-- source, nothing checks the index against a length.
pub mod Laws
use avi_kernel.Base.{
  ℕ, ◌-◌, ◌*◌, ◌/◌, ◌%◌, ◌^◌, Bool, ◌&&◌, bit_and, bit_or, ltb, ◌==◌, if◌then◌else◌, u32, not32,
  ◌<<<◌,
}

abbrev pub Cells : Type 0
Cells = ℕ → ℕ

-- `p[i] = v`.
abbrev pub update : Cells → ℕ → ℕ → Cells
update p i v j = if i == j then v else p j

abbrev pub bits_per_cell : ℕ
bits_per_cell = 32

abbrev pub index_to_offset : ℕ → ℕ
index_to_offset i = i / bits_per_cell

abbrev pub index_to_bit : ℕ → ℕ
index_to_bit i = i % bits_per_cell

unfoldable pub set : Cells → ℕ → Cells
set p i = update p (index_to_offset i) (bit_or (p (index_to_offset i)) (1 <<< index_to_bit i))

unfoldable pub clear : Cells → ℕ → Cells
clear p i =
    update p (index_to_offset i) (bit_and (p (index_to_offset i)) (not32 (1 <<< index_to_bit i)))

unfoldable pub put : Cells → ℕ → Bool → Cells
put p i what = if what then set p i else clear p i

-- `int result = cell & mask; return result > 0;`: a result with bit 31 is a negative `int`.
unfoldable pub test : Cells → ℕ → Bool
test p i =
    let result = bit_and (p (index_to_offset i)) (1 <<< index_to_bit i) in
    ltb 0 result && ltb result (2 ^ 31)
