-- ===== src/DevFs/Writing.antt =====
-- Writing the bytes of a drive that lie in one or two sectors.
use avi_kernel.Base.{
  ℕ, zero, suc, ◌+◌, ◌*◌, ◌/◌, ◌%◌, ◌^◌, ◌<◌, ◌≤◌, List, [], ◌∷◌, ◌++◌, ◌≡◌, refl, sym, ap, ◌∙◌,
  arith, Result, ok, ◌>>=◌, take, drop, length, length-append, length-take, length-drop, ltb, u8,
  u32, u64, ℤ, true, false, Bool-cases, inl, inr, Option, some, ◌==◌, ◌||◌, if◌then◌else◌,
}
use avi_kernel.String.{copy_chars}
use avi_kernel.String.Laws.{take_all}
use avi_kernel.FilePath.{FilePath}
use avi_kernel.DevFs.{
  DevFs, Done, StorageDriver, PhysicalDrive, drive_number, get_drive, get_size_by,
}
use avi_kernel.DevFs.Sectors.{sectors_count, copy_at, write_short, storage_drive_write}
use avi_kernel.DevFs.Ranges.{
  range, copy_chars-take-drop, copy_chars-whole, length-range, sectors_cover, sector_start,
  first_sector-le,
}
use avi_kernel.DevFs.Reading.{ReadsSectors, sectors_count-add}

-- The bytes of a drive after a list of bytes was put at a position.
unfoldable pub patched : (ℕ → ℕ) → ℕ → List ℕ → ℕ → ℕ
patched f start [] x = f x
patched f start (b ∷ bytes) x =
    let rest = patched f (start + 1) bytes x in if x == start then b else rest

patched_below :
    (f : ℕ → ℕ) (start : ℕ) (bytes : List ℕ) (x : ℕ) → x < start → patched f start bytes x ≡ f x
unfolding patched
patched_below f start [] x lt = refl
patched_below f start (b ∷ bytes) x lt =
    let apart : (x == start) ≡ false = ground arith in
    rw apart (patched_below f (start + 1) bytes x (omega arith))

patched-range : (f : ℕ → ℕ) (start n x : ℕ) → patched f start (range f start n) x ≡ f x
unfolding patched range
patched-range f start zero x = refl
patched-range f start (suc n) x = elim (Bool-cases (x == start)) [
  | inl e ↦ let same : start ≡ x = ground arith in rw e (ap f same)
  | inr e ↦ rw e (patched-range f (start + 1) n x)
]

patched_front :
    (f : ℕ → ℕ) (start n : ℕ) (bytes : List ℕ) (x : ℕ)
    → length bytes ≤ n
    → patched f start (bytes ++ drop (length bytes) (range f start n)) x ≡ patched f start bytes x
unfolding patched range
patched_front f start n [] x le = patched-range f start n x
patched_front f start zero (b ∷ bytes) x le = absurd (omega arith)
patched_front f start (suc n) (b ∷ bytes) x le = elim (Bool-cases (x == start)) [
  | inl e ↦ rw e refl
  | inr e ↦ rw e (patched_front f (start + 1) n bytes x (omega arith))
]

-- Bytes in the middle of what is written back: the others are as they were.
patched_middle :
    (f : ℕ → ℕ) (start n skip : ℕ) (bytes : List ℕ) (x : ℕ)
    → skip + length bytes ≤ n
    → patched f start
        (take skip (range f start n)
          ++ (bytes ++ drop (length bytes) (drop skip (range f start n))))
        x
      ≡ patched f (start + skip) bytes x
unfolding patched range
patched_middle f start n zero bytes x le =
    let same : start ≡ start + 0 = omega arith in
    patched_front f start n bytes x (omega arith) ∙ ap (λ s. patched f s bytes x) same
patched_middle f start zero (suc skip) bytes x le = absurd (omega arith)
patched_middle f start (suc n) (suc skip) bytes x le =
    let rest = patched_middle f (start + 1) n skip bytes x (omega arith) in
    let same : start + 1 + skip ≡ start + suc skip = omega arith in
    elim (Bool-cases (x == start)) [
      | inl e ↦
          let at_start : start ≡ x = ground arith in
          rw e (ap f at_start ∙ sym (patched_below f (start + suc skip) bytes x (omega arith)))
      | inr e ↦ rw e (rest ∙ ap (λ s. patched f s bytes x) same)
    ]

one_or_two_lem : (n : ℕ) → 0 < n → n ≤ 2 → (n == 1 || n == 2) ≡ true
one_or_two_lem n lo hi = elim (Bool-cases (n == 1)) [
  | inl e ↦ rw e refl
  | inr e ↦ (let two : (n == 2) ≡ true = ground arith in rw (e, two) refl)
]

module _ {W : Type 0} (driver : StorageDriver W) (number : ℤ) (size total : ℕ)
    (contents : W → ℕ → ℕ) where
  -- Writing up to 255 sectors, none behind the drive's last one, puts the first bytes of the data on the drive.
  abbrev pub WritesSectors : Type 0
  WritesSectors =
      (lba n : ℕ) (bytes : List ℕ) (w : W) (x : ℕ)
      → lba + n ≤ total
      → n ≤ 255
      → n * size ≤ length bytes
      → contents (driver.write_sectors number lba n bytes w) x
        ≡ patched (contents w) (lba * size) (take (n * size) bytes) x

  module _ (new_chars : ℕ → Option (List ℕ)) (n count offset : ℕ) (buf allocated : List ℕ)
      (fs : DevFs W) (given : new_chars (u32 (size * n)) ≡ some allocated)
      (sized : length allocated ≡ n * size) (lo : offset / size + n ≤ total) (hi : n ≤ 255)
      (room : count ≤ length buf) (cover : offset % size + count ≤ n * size)
      (reads : ReadsSectors driver number size total fs.world (contents fs.world))
      (writes : WritesSectors) where
    write_short-patched :
        (after : Done W) × (write_short new_chars driver number size n count offset buf fs
          ≡ ok after)
        × (after.code ≡ 1)
        × ((x : ℕ)
            → contents after.dev_fs.world x ≡ patched (contents fs.world) offset (take count buf) x)
    unfolding write_short copy_at
    write_short-patched =
        let f = contents fs.world in
        let lba = offset / size in
        let skip = offset % size in
        let sectors = range f (lba * size) (n * size) in
        let cast : u8 n ≡ n = omega arith in
        let read : driver.read_sectors number lba (u8 n) fs.world ≡ sectors =
          ap (λ k. driver.read_sectors number lba k fs.world) cast ∙ reads lba n lo hi in
        let updated = take skip sectors ++ (take count buf ++ drop count (drop skip sectors)) in
        let total = length-range f (lba * size) (n * size) in
        let behind = length-drop skip sectors in
        let copied = copy_chars-take-drop count buf (drop skip sectors) room (omega arith) in
        let w = driver.write_sectors number lba (u8 n) updated fs.world in
        let after : Done W = record { code = 1; buf = buf; dev_fs = record fs { world = w } } in
        let finish : List ℕ → Result (Done W) = λ xs. ok (record {
          code = 1;
          buf = buf;
          dev_fs = record fs { world = driver.write_sectors number lba (u8 n) xs fs.world };
        }) in
        let taken = length-take count buf in
        let taken' : length (take count buf) ≡ count = omega arith in
        let size_front = length-take skip sectors in
        let size_middle = length-append (take count buf) (drop count (drop skip sectors)) in
        let size_back = length-drop count (drop skip sectors) in
        let size_all =
          length-append (take skip sectors) (take count buf ++ drop count (drop skip sectors)) in
        let size_is : length updated ≡ n * size = omega arith in
        let written = λ (x : ℕ).
          ap (λ k. contents (driver.write_sectors number lba k updated fs.world) x) cast
          ∙ writes lba n updated fs.world x lo hi (omega arith)
          ∙ ap (λ xs. patched f (lba * size) xs x) (take_all (n * size) updated (omega arith))
          ∙ ap
              (λ k.
                patched f (lba * size)
                  (take skip sectors ++ (take count buf ++ drop k (drop skip sectors))) x)
              (sym taken')
          ∙ patched_middle f (lba * size) (n * size) skip (take count buf) x (omega arith)
          ∙ ap (λ s. patched f s (take count buf) x) (sector_start size offset) in
        (
          after,
          rw (given, write_short)
              (ap
                  (λ s. copy_chars (length s) s allocated >>= λ loaded.
                    copy_at skip count buf loaded >>= finish)
                  read
                ∙ ap (λ r. r >>= λ loaded. copy_at skip count buf loaded >>= finish)
                    (copy_chars-whole sectors allocated (omega arith))
                ∙ ap (λ r. (r >>= λ bytes. ok (take skip sectors ++ bytes)) >>= finish) copied),
          refl,
          written,
        )

-- A write to a drive of bytes that lie in one or two of its sectors succeeds and changes exactly these
-- bytes, where the driver reads and writes groups of up to 255 sectors of the drive as its bytes, the temporary
-- buffer is allocated with the size of the sectors, below 4 GB, the source has the bytes, and the end of the
-- write is below 2^64, within the size that the drive reports, and lies in a sector of the drive. Since the
-- sector of the end is read and written too, a write up to the drive's last byte is none of these.
pub storage_drive_write_lem :
    {W : Type 0} (new_chars : ℕ → Option (List ℕ)) (driver : StorageDriver W) (path : FilePath)
    (count offset : ℕ) (buf : List ℕ) (fs : DevFs W) (number : ℤ) (drive : PhysicalDrive)
    (contents : W → ℕ → ℕ) (allocated : List ℕ)
    → drive_number new_chars path ≡ ok number
    → get_drive driver number ≡ ok drive
    → 0 < drive.sector_size
    → offset + count ≤ get_size_by drive
    → offset + count + 1 < 2 ^ 64
    → count ≤ length buf
    → sectors_count drive.sector_size count offset ≤ 2
    → new_chars (u32 (drive.sector_size * sectors_count drive.sector_size count offset))
      ≡ some allocated
    → length allocated ≡ u32 (drive.sector_size * sectors_count drive.sector_size count offset)
    → drive.sector_size * sectors_count drive.sector_size count offset < 2 ^ 32
    → (offset + count) / drive.sector_size < drive.number_of_sectors
    → ReadsSectors driver number drive.sector_size drive.number_of_sectors fs.world
        (contents fs.world)
    → WritesSectors driver number drive.sector_size drive.number_of_sectors contents
    → (after : Done W) × (storage_drive_write new_chars driver path count offset buf fs ≡ ok after)
      × (after.code ≡ 1)
      × ((x : ℕ)
          → contents after.dev_fs.world x ≡ patched (contents fs.world) offset (take count buf) x)
unfolding storage_drive_write
storage_drive_write_lem new_chars driver path count offset buf fs number drive contents allocated
      is_number is_drive pos_size inside lt room short given sized small whole_sectors reads
      writes =
    let size = drive.sector_size in
    let n = sectors_count size count offset in
    let total = sectors_count-add size count offset pos_size lt in
    let order = first_sector-le size offset count pos_size in
    let cover = sectors_cover size offset count n pos_size total in
    let (after, done, code, written) =
      write_short-patched driver number size drive.number_of_sectors contents new_chars n count
        offset buf allocated fs given (omega arith) (omega arith) (omega arith) room cover reads
        writes in
    let whole : u64 (offset + count) ≡ offset + count = omega arith in
    let fits : ltb (get_size_by drive) (u64 (offset + count)) ≡ false = ground (arith, whole) in
    let some_size : (size == 0) ≡ false = ground arith in
    let one_or_two : (n == 1 || n == 2) ≡ true = one_or_two_lem n (omega arith) short in
    (after, rw (is_number, is_drive, fits, some_size, one_or_two) done, code, written)
