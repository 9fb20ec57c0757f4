-- ===== src/DevFs/Sectors.antt =====
-- Reading and writing the bytes of a drive, which are moved as whole sectors, and `DevFS::io`.
use avi_kernel.Base.{
  ℕ, zero, suc, ◌+◌, ◌-◌, ◌*◌, ◌/◌, ◌%◌, ◌^◌, not, ◌||◌, List, ◌++◌, ◌==◌, ltb, leb, if◌then◌else◌,
  Option, none, some, Result, faulted, ok, ◌>>=◌, u8, u32, u64, ℤ, take, drop, length,
}
use avi_kernel.String.{copy_chars}
use avi_kernel.FilePath.{FilePath, is_folder}
use avi_kernel.DevFs.{
  DevFs, DevFsOperation, devfs_opr_read, devfs_opr_write, Done, StorageDriver, get_size_by,
  get_drive, drive_number, is_drive, file_exist, fail, enoent, eisdir, enomem, enospc,
}

-- How many sectors lie from the first byte's to the one behind the last byte.
unfoldable pub sectors_count : ℕ → ℕ → ℕ → ℕ
sectors_count sector_size count offset =
    u64 (u64 (offset + count) / sector_size + 2 ^ 64 - offset / sector_size + 1)

-- A copy of `count` bytes into a buffer, from one of its positions on.
unfoldable pub copy_at : ℕ → ℕ → List ℕ → List ℕ → Result (List ℕ)
unfolding copy_chars
copy_at at count src bytes =
    copy_chars count src (drop at bytes) >>= λ written. ok (take at bytes ++ written)

module _ {W : Type 0} where
  -- The reads of groups of 255 sectors, and the last one.
  unfoldable pub read_groups : StorageDriver W → ℤ → ℕ → ℕ → ℕ → W → List ℕ
  read_groups driver number zero lba last w = driver.read_sectors number lba (u8 last) w
  read_groups driver number (suc rounds) lba last w =
      driver.read_sectors number lba 255 w ++ read_groups driver number rounds (lba + 255) last w

  unfoldable pub read_all : StorageDriver W → ℤ → ℕ → ℕ → W → List ℕ
  unfolding read_groups
  read_all driver number lba n w =
      if leb n 255
      then driver.read_sectors number lba (u8 n) w
      else read_groups driver number (n / 255) lba (n % 255) w

  -- The writes of groups of 255 sectors, each of the bytes from `data` on.
  unfoldable pub write_groups : StorageDriver W → ℤ → ℕ → ℕ → List ℕ → W → W
  write_groups driver number zero lba data_from w = w
  write_groups driver number (suc rounds) lba data_from w =
      write_groups driver number rounds (lba + 255) data_from
        (driver.write_sectors number lba 255 data_from w)

  module _ (new_chars : ℕ → Option (List ℕ)) (driver : StorageDriver W) where
    unfoldable pub storage_drive_read : FilePath → ℕ → ℕ → List ℕ → DevFs W → Result (Done W)
    unfolding drive_number get_drive sectors_count read_all fail copy_chars
    storage_drive_read path count offset buf fs = do
      number ← drive_number new_chars path
      drive ← get_drive driver number
      let size = drive.sector_size
      let n = sectors_count size count offset
      if size == 0 then faulted else elim (new_chars (u32 (n * size))) [
        | none ↦ ok (fail enomem buf fs)
        | some allocated ↦ (do
          let sectors = read_all driver number (offset / size) n fs.world
          temp_buf ← copy_chars (length sectors) sectors allocated
          copied ← copy_chars count (drop (offset % size) temp_buf) buf
          ok (record { code = 1; buf = copied; dev_fs = fs }))
      ]

    -- One or two sectors are read, changed and written back.
    unfoldable pub write_short : ℤ → ℕ → ℕ → ℕ → ℕ → List ℕ → DevFs W → Result (Done W)
    unfolding fail copy_at copy_chars
    write_short number size n count offset buf fs = elim (new_chars (u32 (size * n))) [
      | none ↦ ok (fail enomem buf fs)
      | some allocated ↦ (do
        let lba = offset / size
        let from_drive = driver.read_sectors number lba (u8 n) fs.world
        sectors ← copy_chars (length from_drive) from_drive allocated
        updated ← copy_at (offset % size) count buf sectors
        ok (record {
          code = 1;
          buf = buf;
          dev_fs = record fs { world = driver.write_sectors number lba (u8 n) updated fs.world };
        }))
    ]

    -- The sectors between the first and the last one. Behind the full groups, the source reads.
    unfoldable pub write_between : ℤ → ℕ → ℕ → ℕ → ℕ → List ℕ → W → Result (List ℕ × W)
    unfolding write_groups copy_at
    write_between number size lba between first_count buf w =
        if leb between 255
        then ok (buf, driver.write_sectors number lba (u8 between) (drop first_count buf) w)
        else (do
          let rounds = between / 255
          let after = write_groups driver number rounds lba (drop first_count buf) w
          let rest = driver.read_sectors number (lba + rounds * 255) (u8 (between % 255)) after
          clobbered ← copy_at (first_count + rounds * 255 * size) (length rest) rest buf
          ok (clobbered, after))

    -- The first and the last sector are read, changed and written back, and then those between them.
    unfoldable pub write_long : ℤ → ℕ → ℕ → ℕ → ℕ → List ℕ → DevFs W → Result (Done W)
    unfolding fail copy_at copy_chars write_between
    write_long number size n count offset buf fs = elim (new_chars size) [
      | none ↦ ok (fail enomem buf fs)
      | some allocated ↦ (do
        let starting_sector = offset / size
        let ending_sector = u64 (offset + count) / size
        let first_read = driver.read_sectors number starting_sector 1 fs.world
        first_sector ← copy_chars (length first_read) first_read allocated
        let last_read = driver.read_sectors number ending_sector 1 fs.world
        last_sector ← copy_chars (length last_read) last_read allocated
        let first_count = size - offset % size
        first ← copy_at (offset % size) first_count buf first_sector
        let offset_in_buf = (n - 2) * size + first_count
        last ← copy_at 0 (count - offset_in_buf) (drop offset_in_buf buf) last_sector
        let w₁ = driver.write_sectors number starting_sector 1 first fs.world
        let w₂ = driver.write_sectors number ending_sector 1 last w₁
        r ← write_between number size (starting_sector + 1) (n - 2) first_count buf w₂
        ok (record { code = 1; buf = r.0; dev_fs = record fs { world = r.1 } }))
    ]

    unfoldable pub storage_drive_write : FilePath → ℕ → ℕ → List ℕ → DevFs W → Result (Done W)
    unfolding drive_number get_drive get_size_by sectors_count fail write_short write_long
    storage_drive_write path count offset buf fs = do
      number ← drive_number new_chars path
      drive ← get_drive driver number
      let size = drive.sector_size
      let n = sectors_count size count offset
      if ltb (get_size_by drive) (u64 (offset + count))
          then ok (fail enospc buf fs)
          else if size == 0
          then faulted
          else if n == 1 || n == 2
          then write_short number size n count offset buf fs
          else write_long number size n count offset buf fs

    unfoldable pub io : DevFsOperation → FilePath → ℕ → ℕ → List ℕ → DevFs W → Result (Done W)
    unfolding is_folder file_exist is_drive fail storage_drive_read storage_drive_write
    io operation path count offset buf fs = if is_folder path then ok (fail eisdir buf fs) else (do
      exists ← file_exist new_chars path fs
      if exists == 0 then ok (fail enoent buf fs) else (do
        is_sd ← is_drive new_chars path
        if not is_sd then ok (record { code = 1; buf = buf; dev_fs = fs }) else elim operation [
          | devfs_opr_read ↦ storage_drive_read path count offset buf fs
          | devfs_opr_write ↦ storage_drive_write path count offset buf fs
        ]))

    unfoldable pub read : FilePath → ℕ → ℕ → List ℕ → DevFs W → Result (Done W)
    unfolding io
    read path count offset buf fs = io devfs_opr_read path count offset buf fs

    unfoldable pub write : FilePath → ℕ → ℕ → List ℕ → DevFs W → Result (Done W)
    unfolding io
    write path count offset buf fs = io devfs_opr_write path count offset buf fs
