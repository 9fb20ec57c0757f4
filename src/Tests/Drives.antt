-- ===== src/Tests/Drives.antt =====
-- The theorems on the files of drives, at a drive of ten sectors of four bytes.
use avi_kernel.Base.{
  ℕ, ◌*◌, false, List, [], ◌∷◌, ◌++◌, ◌≡◌, refl, arith, Option, some, ok, replicate, drop, take,
  pos,
}
use avi_kernel.CString
use avi_kernel.FilePath.{FilePath}
use avi_kernel.DevFs.{
  DevFs, Done, StorageDriver, PhysicalDrive, drive_number, get_drive, get_size_by,
}
use avi_kernel.DevFs.Sectors.{sectors_count, storage_drive_read, storage_drive_write}
use avi_kernel.DevFs.Writing.{patched, storage_drive_write_lem}
use avi_kernel.DevFs.Ranges.{range}
use avi_kernel.DevFs.Reading.{storage_drive_read_lem}

abbrev new_chars : ℕ → Option (List ℕ)
new_chars n = some (replicate n 0xCC)

abbrev small_drive : PhysicalDrive
small_drive = record { sector_size = 4; number_of_sectors = 10 }

-- Each byte of the drive is its own position.
abbrev own_position : ℕ → ℕ
own_position x = x

abbrev driver : StorageDriver (Unit {0})
driver = record {
  number_of_drives = 1;
  drives = record { nodes = small_drive ∷ []; vector_size = 1 };
  read_sectors = λ number lba n w. range own_position (lba * 4) (n * 4);
  write_sectors = λ number lba n data_from w. w;
}

abbrev sda : FilePath
sda = record {
  folder = false;
  parts = record {
    nodes = record { actual_string = 115 ∷ 100 ∷ 97 ∷ 0 ∷ []; _size = 3 } ∷ [];
    vector_size = 1;
  };
}

abbrev dev_fs : DevFs (Unit {0})
dev_fs = record { root_dir = record { nodes = sda ∷ []; vector_size = 1 }; errno = 0; world = tt }

first_drive : drive_number new_chars sda ≡ ok (pos 0)
unfolding drive_number CString.strlen CString.strcpy CString.strcat
first_drive = refl

only_drive : get_drive driver (pos 0) ≡ ok small_drive
unfolding get_drive
only_drive = refl

storage_drive_read_lem_example :
    storage_drive_read new_chars driver sda 5 6 (1 ∷ 1 ∷ 1 ∷ 1 ∷ 1 ∷ 1 ∷ []) dev_fs
    ≡ ok (record {
      code = 1;
      buf = range own_position 6 5 ++ drop 5 (1 ∷ 1 ∷ 1 ∷ 1 ∷ 1 ∷ 1 ∷ []);
      dev_fs = dev_fs;
    })
unfolding sectors_count
storage_drive_read_lem_example =
    storage_drive_read_lem new_chars driver sda 5 6 (1 ∷ 1 ∷ 1 ∷ 1 ∷ 1 ∷ 1 ∷ []) dev_fs (pos 0)
      small_drive own_position (replicate 8 0xCC) first_drive only_drive (omega arith) refl refl
      (omega arith) (omega arith) (omega arith) (omega arith) (λ lba n lo hi. refl)

-- The same drive, with its bytes as the state.
abbrev written_driver : StorageDriver (ℕ → ℕ)
written_driver = record {
  number_of_drives = 1;
  drives = record { nodes = small_drive ∷ []; vector_size = 1 };
  read_sectors = λ number lba n w. range w (lba * 4) (n * 4);
  write_sectors = λ number lba n bytes w. patched w (lba * 4) (take (n * 4) bytes);
}

abbrev written_dev_fs : DevFs (ℕ → ℕ)
written_dev_fs = record {
  root_dir = record { nodes = sda ∷ []; vector_size = 1 };
  errno = 0;
  world = own_position;
}

only_written_drive : get_drive written_driver (pos 0) ≡ ok small_drive
unfolding get_drive
only_written_drive = refl

storage_drive_write_lem_example :
    (after : Done (ℕ → ℕ)) × (storage_drive_write new_chars written_driver sda 3 6
        (7 ∷ 8 ∷ 9 ∷ [])
        written_dev_fs
      ≡ ok after)
    × (after.code ≡ 1)
    × ((x : ℕ) → after.dev_fs.world x ≡ patched own_position 6 (take 3 (7 ∷ 8 ∷ 9 ∷ [])) x)
unfolding sectors_count get_size_by
storage_drive_write_lem_example =
    storage_drive_write_lem new_chars written_driver sda 3 6 (7 ∷ 8 ∷ 9 ∷ []) written_dev_fs (pos 0)
      small_drive (λ w. w) (replicate 8 0xCC) first_drive only_written_drive (omega arith)
      (omega arith) (omega arith) (omega arith) (omega arith) refl refl (omega arith) (omega arith)
      (λ lba n lo hi. refl) (λ lba n bytes w x lo hi le. refl)
