-- ===== src/Ide/Detection.antt =====
-- `StorageIDECompatibilityDriver::detect_drives` and `add_drive`: the search for drives.
--
-- The buffer of the IDENTIFY command is the list of its 256 words.
use avi_kernel.Base.{
  ℕ, zero, suc, ◌+◌, ◌*◌, ◌^◌, Bool, false, not, ◌&&◌, List, ◌==◌, if◌then◌else◌, ◌<<<◌, get_or,
}
use avi_kernel.Vector
use avi_kernel.Ports.{Io, pure, ◌>>=◌, ◌>>◌, poll}
use avi_kernel.Ide.{
  IdeDriver, PhysicalIdeDrive, sector_bytes, icd_status_bsy, icd_status_drq, icd_status_err,
  any_bit, get_ide_controller, ide_select_drive,
}
use avi_kernel.Ide.Controller.{
  read_alternate_status_register, read_data_register_buffer, write_command_register,
}

abbrev pub icd_identify : ℕ
icd_identify = 0xEC

abbrev pub icd_ident_cmds_set : ℕ
icd_ident_cmds_set = 82

abbrev pub icd_ident_capabilities : ℕ
icd_ident_capabilities = 49

abbrev pub icd_ident_28_bits_sectors : ℕ
icd_ident_28_bits_sectors = 60

abbrev pub icd_ident_48_bits_sectors : ℕ
icd_ident_48_bits_sectors = 100

-- `IS_SET`.
unfoldable pub is_set : ℕ → ℕ → Bool
is_set value offset = any_bit value (1 <<< offset)

-- The 32 and the 64 bits that start with a word of the buffer.
unfoldable pub load32 : List ℕ → ℕ → ℕ
load32 buf i = get_or buf i 0 + 2 ^ 16 * get_or buf (i + 1) 0

unfoldable pub load64 : List ℕ → ℕ → ℕ
unfolding load32
load64 buf i = load32 buf i + 2 ^ 32 * load32 buf (i + 2)

unfoldable pub drive_from : ℕ → ℕ → List ℕ → PhysicalIdeDrive
unfolding is_set load32 load64
drive_from channel drive buf =
    let supports_lba = is_set (load32 buf icd_ident_capabilities) 9 in
    let uses_48_bits_mode =
      if supports_lba then is_set (load64 buf icd_ident_cmds_set) 26 else false in
    record {
      channel = channel;
      drive_in_channel = drive;
      supports_lba = supports_lba;
      uses_48_bits_mode = uses_48_bits_mode;
      sector_size = sector_bytes;
      number_of_sectors =
          if uses_48_bits_mode
          then load64 buf icd_ident_48_bits_sectors
          else load32 buf icd_ident_28_bits_sectors;
    }

unfoldable pub add_drive : IdeDriver → ℕ → ℕ → List ℕ → IdeDriver
unfolding drive_from Vector.append
add_drive driver channel drive buf = record {
  number_of_drives = driver.number_of_drives + 1;
  drives = Vector.append driver.drives (drive_from channel drive buf);
}

-- Where there is a device, and where it has ended its silence.
unfoldable pub identify_device : ℕ → ℕ → IdeDriver → ℕ → Io IdeDriver
unfolding get_ide_controller read_data_register_buffer add_drive
identify_device channel drive driver status =
    if any_bit status icd_status_err then pure driver else (do
      buf ← read_data_register_buffer (get_ide_controller channel) sector_bytes
      pure (add_drive driver channel drive buf))

unfoldable pub await_device : ℕ → ℕ → IdeDriver → Io IdeDriver
unfolding get_ide_controller poll identify_device
await_device channel drive driver = do
  let controller = get_ide_controller channel
  cleared ← poll (controller.ports2_base + 0) (λ status. any_bit status icd_status_bsy)
  status ←
      poll (controller.ports2_base + 0)
        (λ status. not (any_bit status icd_status_err) && not (any_bit status icd_status_drq))
  identify_device channel drive driver status

-- One round of the inner loop of `detect_drives`.
unfoldable pub detect_drive : ℕ → ℕ → IdeDriver → Io IdeDriver
unfolding ide_select_drive get_ide_controller write_command_register read_alternate_status_register
    await_device
detect_drive channel drive driver = do
  ide_select_drive channel drive false
  let controller = get_ide_controller channel
  write_command_register controller icd_identify
  status ← read_alternate_status_register controller
  if status == 0 then pure driver else await_device channel drive driver

unfoldable pub detect_channel : ℕ → ℕ → ℕ → IdeDriver → Io IdeDriver
unfolding detect_drive
detect_channel zero channel drive driver = pure driver
detect_channel (suc rounds) channel drive driver =
    detect_drive channel drive driver >>= λ found. detect_channel rounds channel (drive + 1) found

unfoldable pub detect_channels : ℕ → ℕ → IdeDriver → Io IdeDriver
unfolding detect_channel
detect_channels zero channel driver = pure driver
detect_channels (suc rounds) channel driver =
    detect_channel 2 channel 0 driver >>= λ found. detect_channels rounds (channel + 1) found

unfoldable pub detect_drives : IdeDriver → Io IdeDriver
unfolding detect_channels
detect_drives driver = detect_channels 2 0 driver
