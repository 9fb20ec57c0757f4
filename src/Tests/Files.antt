-- ===== src/Tests/Files.antt =====
-- The theorems on the virtual file system at a table of 200 descriptors.
use avi_kernel.Base.{
  ℕ, true, false, List, [], ◌∷◌, ◌≡◌, ◌⊎◌, refl, Option, some, ok, faulted, replicate, length, set,
  get_elem?, pos, negsuc,
}
use avi_kernel.String
use avi_kernel.CString
use avi_kernel.FilePath.{FilePath}
use avi_kernel.Vfs
use avi_kernel.Vfs.{
  Vfs, FileSystems, FileDesc, MountedFs, close, allocate_descriptor, ebadf, get_descriptor,
}
use avi_kernel.Vfs.Opening.{open_file}
use avi_kernel.Vfs.Io.{Transfer}
use avi_kernel.Vfs.Table.{UsedBelow, close_lem, allocate_descriptor_lem}
use avi_kernel.Vfs.Frame.{open_file_lem}
use avi_kernel.Vfs.Steps.{Reached, IsReserved, Reached-IsReserved, constructed, then_step, opens}

abbrev new_chars : ℕ → Option (List ℕ)
new_chars n = some (replicate n 0xCC)

-- A file system that has every file, of ten bytes, and reads nothing into the buffer.
abbrev systems : FileSystems (Unit {0})
systems = record {
  mount = λ fs path w. (1, w);
  read = λ fs path count offset buf w. (1, buf, w);
  write = λ fs path count offset buf w. (1, w);
  get_file_size = λ fs path w. (1, 10, w);
  create_file = λ fs path w. (1, w);
  file_exist = λ fs path w. (1, w);
}

abbrev root : FilePath
root = record { folder = true; parts = record { nodes = []; vector_size = 0 } }

abbrev fresh : FileDesc
fresh = record {
  file_path = root;
  position = 0;
  read = false;
  write = false;
  append = false;
  size = 0;
  in_use = false;
}

abbrev reserved : FileDesc
reserved = record fresh { in_use = true }

abbrev table : List FileDesc
table = reserved ∷ reserved ∷ reserved ∷ replicate 197 fresh

abbrev start : Vfs (Unit {0})
start = record {
  mounted_fss = record { nodes = []; vector_size = 0 };
  file_descriptors = table;
  errno = 0;
  world = tt;
}

close_lem_example : close (pos 7) start ≡ ok (negsuc 0, record start { errno = ebadf })
close_lem_example = close_lem start (pos 7) refl

-- The path "/a" with its zero.
abbrev a_bytes : List ℕ
a_bytes = 47 ∷ 97 ∷ 0 ∷ []

abbrev refused : Vfs (Unit {0})
refused = record start { errno = 1 }

opens_nothing : open_file systems new_chars a_bytes 1 start ≡ ok (negsuc 0, refused)
unfolding open_file CString.strlen CString.strcpy
opens_nothing = refl

open_file_lem_example : get_elem? refused.file_descriptors 2 ≡ some reserved
open_file_lem_example =
    open_file_lem systems new_chars a_bytes 1 start (negsuc 0) refused 2 reserved opens_nothing refl
      refl

started : Vfs.construct fresh tt ≡ ok start
unfolding Vfs.construct
started = refl

opened : Reached systems new_chars fresh tt refused
opened = then_step (constructed started) (opens a_bytes 1 opens_nothing)

Reached-IsReserved_example : IsReserved refused.file_descriptors
Reached-IsReserved_example = Reached-IsReserved systems new_chars fresh tt refused opened

allocate_descriptor_lem_example :
    ((i : ℕ) × (d : FileDesc) × (get_elem? table i ≡ some d)
      × (d.in_use ≡ false)
      × UsedBelow table i
      × (allocate_descriptor table ≡ ok (pos i, set table i (record d { in_use = true }))))
    ⊎ (UsedBelow table (length table) × (allocate_descriptor table ≡ faulted))
allocate_descriptor_lem_example = allocate_descriptor_lem table

-- The file "/a" of ten bytes, open for reading at position 2 in descriptor 3, with a file system mounted
-- at the root.
abbrev a_part : String.String
a_part = record { actual_string = 97 ∷ 0 ∷ []; _size = 1 }

abbrev a_path : FilePath
a_path = record { folder = false; parts = record { nodes = a_part ∷ []; vector_size = 1 } }

abbrev a_file : FileDesc
a_file = record {
  file_path = a_path;
  position = 2;
  read = true;
  write = false;
  append = false;
  size = 10;
  in_use = true;
}

abbrev at_root : MountedFs
at_root = record { mount_path = root; fs = 0 }

abbrev with_file : Vfs (Unit {0})
with_file = record start {
  mounted_fss = record { nodes = at_root ∷ []; vector_size = 1 };
  file_descriptors = set table 3 a_file;
}

abbrev after_read : Transfer (Unit {0})
after_read = record {
  count = 4;
  buf = [];
  vfs = record with_file { file_descriptors = set table 3 (record a_file { position = 6 }) };
}
