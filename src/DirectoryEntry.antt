-- ===== src/DirectoryEntry.antt =====
-- src/fs/fat32/fat32_directory_entry.cpp: an entry of a directory, as its 32 bytes.
pub mod Laws
use avi_kernel.Base.{
  ℕ, zero, suc, ◌+◌, ◌*◌, ◌^◌, Bool, true, false, not, ◌&&◌, List, [], ◌∷◌, ◌==◌, if◌then◌else◌,
  Option, Result, ok, ◌>>=◌, bit_and, u32, ◌<<<◌, get_or,
}
use avi_kernel.String
use avi_kernel.String.{String, string_of_chars, append_char}

abbrev pub fat32_dir_entry_length : ℕ
fat32_dir_entry_length = 32

-- The entry holds a copy of the 32 bytes; a read of one of them is in range.
pub record DirectoryEntry : Type 0 where
  pub bytes : List ℕ

module _ (entry : DirectoryEntry) where
  unfoldable pub byte : ℕ → ℕ
  byte i = get_or entry.bytes i 0

  -- The 16 and the 32 bits that start with a byte.
  unfoldable pub load16 : ℕ → ℕ
  unfolding byte
  load16 i = byte i + 2 ^ 8 * byte (i + 1)

  unfoldable pub load32 : ℕ → ℕ
  unfolding load16
  load32 i = load16 i + 2 ^ 16 * load16 (i + 2)

  unfoldable pub get_attributes : ℕ
  unfolding byte
  get_attributes = byte 11

  unfoldable pub is_free : Bool
  unfolding byte
  is_free = byte 0 == 0xE5

  unfoldable pub is_end : Bool
  unfolding byte
  is_end = byte 0 == 0x0

  unfoldable pub is_used : Bool
  unfolding is_free is_end
  is_used = not is_free && not is_end

  unfoldable pub has_attribute : ℕ → Bool
  unfolding get_attributes
  has_attribute mask = not (bit_and get_attributes mask == 0)

  unfoldable pub is_directory : Bool
  unfolding has_attribute
  is_directory = has_attribute 0x10

  unfoldable pub is_archive : Bool
  unfolding has_attribute
  is_archive = has_attribute 0x20

  unfoldable pub is_long_entry : Bool
  unfolding has_attribute
  is_long_entry = has_attribute 0x0F

  unfoldable pub se_is_readonly : Bool
  unfolding has_attribute
  se_is_readonly = has_attribute 0x01

  unfoldable pub se_is_hidden : Bool
  unfolding has_attribute
  se_is_hidden = has_attribute 0x02

  unfoldable pub se_is_system_file : Bool
  unfolding has_attribute
  se_is_system_file = has_attribute 0x04

  unfoldable pub se_is_volume_label : Bool
  unfolding has_attribute
  se_is_volume_label = has_attribute 0x08

  unfoldable pub se_get_creation_time_tenth : ℕ
  unfolding byte
  se_get_creation_time_tenth = byte 13

  unfoldable pub se_get_creation_time : ℕ
  unfolding load16
  se_get_creation_time = load16 14

  unfoldable pub se_get_creation_date : ℕ
  unfolding load16
  se_get_creation_date = load16 16

  unfoldable pub se_get_last_access_date : ℕ
  unfolding load16
  se_get_last_access_date = load16 18

  unfoldable pub se_get_first_cluster : ℕ
  unfolding load16
  se_get_first_cluster = u32 (load16 20 <<< 16 + load16 26)

  unfoldable pub se_get_last_write_time : ℕ
  unfolding load16
  se_get_last_write_time = load16 22

  unfoldable pub se_get_last_write_date : ℕ
  unfolding load16
  se_get_last_write_date = load16 24

  unfoldable pub se_get_file_size_bytes : ℕ
  unfolding load32
  se_get_file_size_bytes = load32 28

  unfoldable pub le_is_last : Bool
  unfolding byte
  le_is_last = not (bit_and (byte 0) 0x40 == 0)

  unfoldable pub le_get_order : ℕ
  unfolding byte le_is_last
  le_get_order = if le_is_last then bit_and (byte 0) 0xBF else byte 0

  module _ (new_chars : ℕ → Option (List ℕ)) where
    unfoldable pub se_get_name : Result String
    unfolding string_of_chars
    se_get_name = string_of_chars new_chars entry.bytes 11

    unfoldable pub le_name_from : ℕ → ℕ → String → Result String
    unfolding byte append_char
    le_name_from zero i s = ok s
    le_name_from (suc rounds) i s =
        let rest = append_char new_chars s (byte i) >>= le_name_from rounds (i + 1) in
        if byte i == 0 then ok s else rest

    -- The loop counts to the number of the indexes, and takes the byte at the counter.
    unfoldable pub le_get_name : Result String
    unfolding String.clear le_name_from
    le_get_name = String.clear new_chars >>= le_name_from 13 0
