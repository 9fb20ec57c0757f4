-- ===== src/DevFs.antt =====
-- src/fs/devfs/devfs.cpp: the files of the storage drives, and src/drivers_manager/drivers/storage/
-- physical_drive.cpp and storage_driver.cpp, the drives themselves.
--
-- `W` is the state behind the driver. A read of sectors returns their bytes; these are
-- copied into the buffer, which faults where it is too small. Allocations are by `new_chars`.
use avi_kernel.Base.{
  ℕ, zero, suc, ◌+◌, ◌-◌, ◌*◌, ◌/◌, ◌%◌, ◌^◌, Bool, true, false, not, ◌&&◌, ◌||◌, List, [], ◌∷◌,
  ◌++◌, ◌==◌, ltb, leb, if◌then◌else◌, Option, none, some, Result, panicked, faulted, ok, ◌>>=◌,
  ◌>>◌, u8, u32, u64, ℤ, pos, negsuc, difference, take, drop,
}
use avi_kernel.Vector
use avi_kernel.Vector.{Vector}
use avi_kernel.String
use avi_kernel.String.{
  String, c_str, at, equal, substr, copy_chars, append_char, initialize_from_c_string,
}
use avi_kernel.FilePath.{FilePath, is_folder, is_root, to_string, path_equal, path_of_string}
pub mod Sectors
pub mod Ranges
pub mod Reading
pub mod Writing

pub record PhysicalDrive : Type 0 where
  pub sector_size : ℕ
  pub number_of_sectors : ℕ

unfoldable pub get_size_by : PhysicalDrive → ℕ
get_size_by drive = u64 (drive.number_of_sectors * 512)

unfoldable pub get_size_kb : PhysicalDrive → ℕ
unfolding get_size_by
get_size_kb drive = get_size_by drive / 1024

unfoldable pub get_size_mb : PhysicalDrive → ℕ
unfolding get_size_kb
get_size_mb drive = get_size_kb drive / 1024

unfoldable pub get_size_gb : PhysicalDrive → ℕ
unfolding get_size_mb
get_size_gb drive = get_size_mb drive / 1024

-- The storage driver: its drives, and its two virtual methods.
pub record StorageDriver (W : Type 0) : Type 0 where
  pub number_of_drives : ℕ
  pub drives : Vector PhysicalDrive
  pub read_sectors : ℤ → ℕ → ℕ → W → List ℕ
  pub write_sectors : ℤ → ℕ → ℕ → List ℕ → W → W

unfoldable pub get_drive : {W : Type 0} → StorageDriver W → ℤ → Result PhysicalDrive
unfolding Vector.get
get_drive driver i = Vector.get driver.drives i

pub data DevFsOperation : Type 0 where
  devfs_opr_read devfs_opr_write : DevFsOperation

pub record DevFs (W : Type 0) : Type 0 where
  pub root_dir : Vector FilePath
  pub errno : ℕ
  pub world : W

-- What an operation returns, the buffer behind it, and the state.
pub record Done (W : Type 0) : Type 0 where
  pub code : ℕ
  pub buf : List ℕ
  pub dev_fs : DevFs W

abbrev pub enoent : ℕ
enoent = 1

abbrev pub eisdir : ℕ
eisdir = 7

abbrev pub enomem : ℕ
enomem = 8

abbrev pub enotsup : ℕ
enotsup = 9

abbrev pub enospc : ℕ
enospc = 10

abbrev pub fs_file_exist : ℕ
fs_file_exist = 1

abbrev pub fs_file_n_exists : ℕ
fs_file_n_exists = 2

unfoldable pub umount : ℕ
umount = 1

module _ (new_chars : ℕ → Option (List ℕ)) where
  -- The loop of `mount` over the drives, up to "sdz".
  unfoldable pub add_drives : ℕ → ℕ → Vector FilePath → Result (Vector FilePath)
  unfolding initialize_from_c_string append_char path_of_string Vector.append
  add_drives zero c root_dir = ok root_dir
  add_drives (suc rounds) c root_dir = if ltb 122 c then ok root_dir else (do
    path_str ← initialize_from_c_string new_chars (47 ∷ 115 ∷ 100 ∷ 0 ∷ [])
    whole ← append_char new_chars path_str c
    path ← path_of_string new_chars whole
    add_drives rounds (c + 1) (Vector.append root_dir path))

  unfoldable pub exists_from : ℕ → ℕ → Vector FilePath → FilePath → Result Bool
  unfolding path_equal Vector.get
  exists_from zero i root_dir path = ok false
  exists_from (suc rounds) i root_dir path = do
    element ← Vector.get root_dir (pos i)
    same ← path_equal new_chars element path
    if same then ok true else exists_from rounds (i + 1) root_dir path

  -- Whether the path is that of a drive: four characters, with "sd" behind the slash.
  unfoldable pub is_drive : FilePath → Result Bool
  unfolding to_string substr equal c_str String.size
  is_drive path = do
    s ← to_string new_chars path
    part ← substr new_chars s 1 2
    same ← equal (c_str part) (115 ∷ 100 ∷ 0 ∷ [])
    ok (same && String.size s == 4)

  -- The number of the drive: 0 for 'a'.
  unfoldable pub drive_number : FilePath → Result ℤ
  unfolding to_string at
  drive_number path = do
    s ← to_string new_chars path
    drive_char ← at s 3
    ok (difference drive_char 97)

module _ {W : Type 0} where
  unfoldable pub fail : ℕ → List ℕ → DevFs W → Done W
  fail e buf fs = record { code = 0; buf = buf; dev_fs = record fs { errno = e } }

  module _ (new_chars : ℕ → Option (List ℕ)) where
    unfoldable pub mount : StorageDriver W → DevFs W → Result (ℕ × DevFs W)
    unfolding add_drives
    mount driver fs = add_drives new_chars driver.number_of_drives 97 fs.root_dir >>= λ root_dir.
        ok (1, record fs { root_dir = root_dir })

    unfoldable pub file_exist : FilePath → DevFs W → Result ℕ
    unfolding exists_from is_folder is_root Vector.size
    file_exist path fs =
        if is_folder path
        then ok (if is_root path then fs_file_exist else fs_file_n_exists)
        else (exists_from new_chars (Vector.size fs.root_dir) 0 fs.root_dir path >>= λ found.
            ok (if found then fs_file_exist else fs_file_n_exists))

    unfoldable pub create_file : FilePath → DevFs W → ℕ × DevFs W
    create_file path fs = (0, record fs { errno = enotsup })

    unfoldable pub delete_file : FilePath → DevFs W → ℕ × DevFs W
    delete_file path fs = (0, record fs { errno = enotsup })

    unfoldable pub list_files :
        FilePath → Vector FilePath → DevFs W → Result (ℕ × Vector FilePath × DevFs W)
    unfolding is_root Vector.assign
    list_files path vect fs =
        if not (is_root path)
        then ok (0, vect, record fs { errno = enoent })
        else (Vector.assign vect fs.root_dir >>= λ copied. ok (1, copied, fs))

    unfoldable pub get_file_size :
        StorageDriver W → FilePath → ℕ → DevFs W → Result (ℕ × ℕ × DevFs W)
    unfolding is_folder file_exist is_drive drive_number get_drive get_size_by
    get_file_size driver path size fs =
        if is_folder path then ok (0, size, record fs { errno = eisdir }) else (do
          exists ← file_exist path fs
          if exists == 0 then ok (0, size, record fs { errno = enoent }) else (do
            is_sd ← is_drive new_chars path
            if not is_sd then ok (1, size, fs) else (do
              number ← drive_number new_chars path
              drive ← get_drive driver number
              ok (1, get_size_by drive, fs))))
