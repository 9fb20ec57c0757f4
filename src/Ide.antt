-- ===== src/Ide.antt =====
-- src/drivers_manager/drivers/storage/ide: the driver of IDE drives.
--
-- The driver's two controllers are constants. A buffer of bytes that the data register fills is the
-- list of these bytes; the registers carry them as little-endian words. `Time::sleep` is an event.
use avi_kernel.Base.{
  ℕ, zero, suc, ◌+◌, ◌*◌, ◌/◌, ◌%◌, Bool, true, false, not, ◌&&◌, List, [], ◌∷◌, ◌++◌, ◌==◌,
  if◌then◌else◌, bit_and, bit_or, u8, ◌<<<◌, ◌>>>◌, ℤ, drop,
}
use avi_kernel.Vector
use avi_kernel.Vector.{Vector}
use avi_kernel.Ports.{Io, panicked, faulted, pure, of_result, ◌>>=◌, ◌>>◌, sleep, poll}
use Controller.{
  IdeController, read_drive_head_register, read_data_register_buffer, write_data_register_buffer,
  write_sector_count_register, write_sector_number_register, write_cylinder_lsb_register,
  write_cylinder_msb_register, write_drive_head_register, write_command_register,
  write_digital_output_register, write_sector_count_register_48, write_lba_lo_register_48,
  write_lba_mid_register_48, write_lbi_hi_register_48,
}
pub mod Controller
pub mod Registers
pub mod Answers
pub mod Reading
pub mod Writing
pub mod Detection
pub mod Detecting
pub mod Places
pub mod Found
pub mod Modes
pub mod Setup
pub mod Presence

pub record PhysicalIdeDrive : Type 0 where
  pub channel : ℕ
  pub drive_in_channel : ℕ
  pub supports_lba : Bool
  pub uses_48_bits_mode : Bool
  pub sector_size : ℕ
  pub number_of_sectors : ℕ

pub record IdeDriver : Type 0 where
  pub number_of_drives : ℕ
  pub drives : Vector PhysicalIdeDrive

abbrev pub primary_ide_controller : IdeController
primary_ide_controller = record { ports1_base = 0x1F0; ports2_base = 0x3F6 }

abbrev pub secondary_ide_controller : IdeController
secondary_ide_controller = record { ports1_base = 0x170; ports2_base = 0x376 }

abbrev pub sector_bytes : ℕ
sector_bytes = 512

abbrev pub icd_read_pio_not_48 : ℕ
icd_read_pio_not_48 = 0x20

abbrev pub icd_write_pio_not_48 : ℕ
icd_write_pio_not_48 = 0x30

abbrev pub icd_write_pio_48 : ℕ
icd_write_pio_48 = 0x34

abbrev pub icd_flush_cache_48 : ℕ
icd_flush_cache_48 = 0xEA

abbrev pub icd_status_bsy : ℕ
icd_status_bsy = 128

abbrev pub icd_status_drq : ℕ
icd_status_drq = 8

abbrev pub icd_status_err : ℕ
icd_status_err = 1

-- Whether any of these bits is set.
abbrev pub any_bit : ℕ → ℕ → Bool
any_bit value mask = not (bit_and value mask == 0)

unfoldable pub get_ide_controller : ℕ → IdeController
get_ide_controller channel =
    if channel == 0 then primary_ide_controller else secondary_ide_controller

unfoldable pub disable_interrupts : ℕ → Io (Unit {0})
unfolding get_ide_controller write_digital_output_register
disable_interrupts channel = write_digital_output_register (get_ide_controller channel) 2

unfoldable pub ide_select_drive : ℕ → ℕ → Bool → Io (Unit {0})
unfolding get_ide_controller write_drive_head_register sleep
ide_select_drive channel drive lba = do
  let tmp = if lba then 0xE0 else 0xA0
  write_drive_head_register (get_ide_controller channel) (u8 (bit_or tmp (drive <<< 4)))
  sleep 1

unfoldable pub fill_address_48_bits : IdeController → ℕ → Io (Unit {0})
unfolding write_lba_lo_register_48 write_lba_mid_register_48 write_lbi_hi_register_48
fill_address_48_bits controller lba = do
  write_lba_lo_register_48 controller (u8 (lba >>> 0)) (u8 (lba >>> 24))
  write_lba_mid_register_48 controller (u8 (lba >>> 8)) (u8 (lba >>> 32))
  write_lbi_hi_register_48 controller (u8 (lba >>> 16)) (u8 (lba >>> 40))

unfoldable pub fill_address_28_bits : IdeController → ℕ → Io (Unit {0})
unfolding write_sector_number_register write_cylinder_lsb_register write_cylinder_msb_register
    read_drive_head_register write_drive_head_register
fill_address_28_bits controller lba = do
  let lba3 = bit_and (u8 (lba >>> 24)) 0x0F
  write_sector_number_register controller (u8 (lba >>> 0))
  write_cylinder_lsb_register controller (u8 (lba >>> 8))
  write_cylinder_msb_register controller (u8 (lba >>> 16))
  drive_head ← read_drive_head_register controller
  write_drive_head_register controller (bit_or (bit_and drive_head 0xF0) lba3)

unfoldable pub fill_address_chs : IdeController → ℕ → Io (Unit {0})
fill_address_chs controller lba = λ b. panicked

unfoldable pub setup_rw_48_bits : PhysicalIdeDrive → IdeController → ℕ → ℕ → Io (Unit {0})
unfolding ide_select_drive fill_address_48_bits fill_address_28_bits fill_address_chs
    write_sector_count_register_48 write_sector_count_register
setup_rw_48_bits drive controller lba count = do
  ide_select_drive drive.channel drive.drive_in_channel drive.supports_lba
  if drive.supports_lba
      then if drive.uses_48_bits_mode
        then fill_address_48_bits controller lba
        else fill_address_28_bits controller lba
      else fill_address_chs controller lba
  if drive.uses_48_bits_mode
      then write_sector_count_register_48 controller count 0
      else write_sector_count_register controller count

-- The condition of the loops that wait for a sector.
unfoldable pub still_waits : ℕ → Bool
still_waits status = bit_and status icd_status_drq == 0 && any_bit status icd_status_bsy

-- The bytes of 16-bit words in memory, and the words of bytes.
unfoldable pub bytes_of : List ℕ → List ℕ
bytes_of [] = []
bytes_of (word ∷ words) = word % 256 ∷ word / 256 ∷ bytes_of words

unfoldable pub words_of : List ℕ → List ℕ
words_of (low ∷ high ∷ bytes) = (low + 256 * high) ∷ words_of bytes
words_of _ = []

unfoldable pub read_rounds : IdeController → ℕ → Io (List ℕ)
unfolding poll still_waits read_data_register_buffer bytes_of
read_rounds controller zero = pure []
read_rounds controller (suc rounds) = do
  status ← poll (controller.ports2_base + 0) still_waits
  words ← read_data_register_buffer controller sector_bytes
  rest ← read_rounds controller rounds
  pure (bytes_of words ++ rest)

-- The part of `read_sectors` that knows the drive.
unfoldable pub read_drive : PhysicalIdeDrive → ℕ → ℕ → Io (List ℕ)
unfolding get_ide_controller setup_rw_48_bits write_command_register sleep read_rounds
read_drive drive lba count = do
  let controller = get_ide_controller drive.channel
  setup_rw_48_bits drive controller lba count
  write_command_register controller
      (if drive.uses_48_bits_mode then icd_read_pio_not_48 else icd_read_pio_not_48)
  sleep 1
  read_rounds controller count

unfoldable pub read_sectors : IdeDriver → ℤ → ℕ → ℕ → Io (List ℕ)
unfolding Vector.get read_drive
read_sectors driver drive_number lba count = if u8 count == 0 then pure [] else (do
  drive ← of_result (Vector.get driver.drives drive_number)
  read_drive drive lba (u8 count))

unfoldable pub write_rounds : IdeController → ℕ → List ℕ → Io (Unit {0})
unfolding poll still_waits write_data_register_buffer words_of
write_rounds controller zero buffer = pure tt
write_rounds controller (suc rounds) buffer = do
  status ← poll (controller.ports2_base + 0) still_waits
  write_data_register_buffer controller (words_of buffer) sector_bytes
  write_rounds controller rounds (drop sector_bytes buffer)

-- The part of `write_sectors` that knows the drive.
unfoldable pub write_drive : PhysicalIdeDrive → ℕ → ℕ → List ℕ → Io (Unit {0})
unfolding get_ide_controller setup_rw_48_bits write_command_register sleep write_rounds poll
write_drive drive lba count buffer = do
  let controller = get_ide_controller drive.channel
  setup_rw_48_bits drive controller lba count
  write_command_register controller
      (if drive.uses_48_bits_mode then icd_write_pio_48 else icd_write_pio_not_48)
  sleep 1
  write_rounds controller count buffer
  write_command_register controller icd_flush_cache_48
  status ← poll (controller.ports2_base + 0) (λ status. any_bit status icd_status_bsy)
  pure tt

unfoldable pub write_sectors : IdeDriver → ℤ → ℕ → ℕ → List ℕ → Io (Unit {0})
unfolding Vector.get write_drive
write_sectors driver drive_number lba count buffer = if u8 count == 0 then pure tt else (do
  drive ← of_result (Vector.get driver.drives drive_number)
  write_drive drive lba (u8 count) buffer)
