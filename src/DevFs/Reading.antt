-- ===== src/DevFs/Reading.antt =====
-- Reading the bytes of a drive.
use avi_kernel.Base.{
  ℕ, zero, suc, ◌+◌, ◌-◌, ◌*◌, ◌/◌, ◌%◌, ◌^◌, ◌<◌, ◌≤◌, List, ◌++◌, ◌≡◌, sym, ap, ◌∙◌, arith,
  Result, ok, ◌>>=◌, drop, length, leb, u8, u32, u64, ℤ, false, Bool-cases, inl, inr, Option, some,
  ◌==◌,
}
use native.Mathlib.Nat.{div-le_self}
use avi_kernel.String.{copy_chars}
use avi_kernel.FilePath.{FilePath}
use avi_kernel.DevFs.{DevFs, Done, StorageDriver, PhysicalDrive, drive_number, get_drive}
use avi_kernel.DevFs.Sectors.{sectors_count, read_groups, read_all, storage_drive_read}
use avi_kernel.DevFs.Ranges.{
  range, range-append, length-range, copy_chars-whole, copy_chars-range, sectors_cover,
  sector_start, first_sector-le,
}

module _ {W : Type 0} (driver : StorageDriver W) (number : ℤ) (size total : ℕ) (w : W)
    (f : ℕ → ℕ) where
  -- Reading up to 255 sectors, none behind the drive's last one, gives the bytes of the drive that they hold.
  abbrev pub ReadsSectors : Type 0
  ReadsSectors =
      (lba n : ℕ)
      → lba + n ≤ total
      → n ≤ 255
      → driver.read_sectors number lba n w ≡ range f (lba * size) (n * size)

  module _ (reads : ReadsSectors) where
    read_groups-range :
        (rounds lba last : ℕ)
        → lba + rounds * 255 + last ≤ total
        → last < 255
        → read_groups driver number rounds lba last w
          ≡ range f (lba * size) ((rounds * 255 + last) * size)
    unfolding read_groups
    read_groups-range zero lba last lo hi =
        let cast : u8 last ≡ last = omega arith in
        let all : (0 * 255 + last) * size ≡ last * size = omega arith in
        ap (λ k. driver.read_sectors number lba k w) cast
        ∙ reads lba last (omega arith) (omega arith)
        ∙ ap (range f (lba * size)) (sym all)
    read_groups-range (suc rounds) lba last lo hi =
        let behind : (lba + 255) * size ≡ lba * size + 255 * size = omega arith in
        let rest = read_groups-range rounds (lba + 255) last (omega arith) hi in
        let first = reads lba 255 (omega arith) (omega arith) in
        let joined =
          range-append f (lba * size) (255 * size) ((rounds * 255 + last) * size)
            ((suc rounds * 255 + last) * size) (omega arith) in
        ap (λ xs. xs ++ read_groups driver number rounds (lba + 255) last w) first
        ∙ ap (λ xs. range f (lba * size) (255 * size) ++ xs) rest
        ∙ ap (λ s. range f (lba * size) (255 * size) ++ range f s ((rounds * 255 + last) * size))
            behind
        ∙ joined

    read_all-range :
        (lba n : ℕ)
        → lba + n ≤ total
        → read_all driver number lba n w ≡ range f (lba * size) (n * size)
    unfolding read_all
    read_all-range lba n inside = elim (Bool-cases (leb n 255)) [
      | inl e ↦
          let cast : u8 n ≡ n = ground arith in rw (e, cast) (reads lba n inside (ground arith))
      | inr e ↦
          let all : n / 255 * 255 + n % 255 ≡ n = omega arith in
          rw e (
            read_groups-range (n / 255) lba (n % 255) (omega arith) (omega arith)
            ∙ ap (λ k. range f (lba * size) (k * size)) all)
    ]

-- The difference of the sector numbers and one, where they are in order and below 2^64.
pub sectors_count-add :
    (size count offset : ℕ)
    → 0 < size
    → offset + count + 1 < 2 ^ 64
    → sectors_count size count offset + offset / size ≡ (offset + count) / size + 1
unfolding sectors_count
sectors_count-add size count offset pos_size lt =
    let whole : u64 (offset + count) ≡ offset + count = omega arith in
    let order = first_sector-le size offset count pos_size in
    let below = div-le_self (offset + count) size in
    let difference : u64 ((offset + count) / size + 2 ^ 64 - offset / size + 1)
        ≡ (offset + count) / size - offset / size + 1 =
      omega arith in
    rw whole (omega arith)

-- A read of bytes of a drive gives exactly these, in front of what the buffer held behind them, where the
-- driver reads groups of up to 255 sectors of the drive as its bytes, the temporary buffer is allocated with the
-- size of all the sectors, below 4 GB, the buffer has room, and the end of the read is below 2^64 and lies in
-- a sector of the drive. Since the sector of the end is read too, a read up to the drive's last byte is none of
-- these.
pub storage_drive_read_lem :
    {W : Type 0} (new_chars : ℕ → Option (List ℕ)) (driver : StorageDriver W) (path : FilePath)
    (count offset : ℕ) (buf : List ℕ) (fs : DevFs W) (number : ℤ) (drive : PhysicalDrive)
    (f : ℕ → ℕ) (allocated : List ℕ)
    → drive_number new_chars path ≡ ok number
    → get_drive driver number ≡ ok drive
    → 0 < drive.sector_size
    → new_chars (u32 (sectors_count drive.sector_size count offset * drive.sector_size))
      ≡ some allocated
    → length allocated ≡ u32 (sectors_count drive.sector_size count offset * drive.sector_size)
    → sectors_count drive.sector_size count offset * drive.sector_size < 2 ^ 32
    → offset + count + 1 < 2 ^ 64
    → (offset + count) / drive.sector_size < drive.number_of_sectors
    → count ≤ length buf
    → ReadsSectors driver number drive.sector_size drive.number_of_sectors fs.world f
    → storage_drive_read new_chars driver path count offset buf fs
      ≡ ok (record { code = 1; buf = range f offset count ++ drop count buf; dev_fs = fs })
unfolding storage_drive_read
storage_drive_read_lem {W = W} new_chars driver path count offset buf fs number drive f allocated
      is_number is_drive pos_size given sized small lt inside room reads =
    let give : List ℕ → Result (Done W) = λ xs. ok (record { code = 1; buf = xs; dev_fs = fs }) in
    let size = drive.sector_size in
    let n = sectors_count size count offset in
    let total = sectors_count-add size count offset pos_size lt in
    let order = first_sector-le size offset count pos_size in
    let cover = sectors_cover size offset count n pos_size total in
    let sectors = range f (offset / size * size) (n * size) in
    let load : List ℕ → Result (Done W) = λ xs. copy_chars (length xs) xs allocated >>= λ temp.
    copy_chars count (drop (offset % size) temp) buf >>= give in
    let all =
      read_all-range driver number size drive.number_of_sectors fs.world f reads (offset / size) n
        (omega arith) in
    let long = length-range f (offset / size * size) (n * size) in
    let loaded = copy_chars-whole sectors allocated (omega arith) in
    let some_size : (size == 0) ≡ false = ground arith in
    let copied =
      copy_chars-range f (offset / size * size) (n * size) (offset % size) count buf cover room in
    let from = sector_start size offset in
    rw (is_number, is_drive, some_size, given)
      (ap load all
        ∙ ap (λ r. r >>= λ temp. copy_chars count (drop (offset % size) temp) buf >>= give) loaded
        ∙ ap (λ r. r >>= give) copied
        ∙ ap (λ s. give (range f s count ++ drop count buf)) from)
