-- ===== src/Vfs.antt =====
-- src/fs/vfs/vfs.cpp and its header: the table of open files and the mounted file systems.
--
-- `W` is the state behind the file systems, and a file system is known by its number in `FileSystems`.
-- A goto is the code that it leads to. A buffer that is written to comes back with the result.
use avi_kernel.Base.{
  ℕ, zero, suc, ◌+◌, Bool, true, false, not, ◌&&◌, ◌||◌, List, [], ◌∷◌, ◌==◌, ltb, leb,
  if◌then◌else◌, Option, none, some, Result, panicked, faulted, ok, ◌>>=◌, ◌>>◌, panic_if, or_fault,
  set, get_elem?, replicate, u32, sub32, u64, ℤ, pos, negsuc, leb_ℤ, bit_and,
}
use avi_kernel.Vector.{Vector}
use avi_kernel.Vector
use avi_kernel.String.{c_str, equal}
use avi_kernel.FilePath.{
  FilePath, is_folder, is_root, get_depth, get_part, remove_part, path_of_c_string,
}
pub mod Mounts
pub mod Opening
pub mod Io
pub mod Table
pub mod Frame
pub mod Uses
pub mod Transfers
pub mod Steps

-- include/fs/fs.h: what a file system does. The results are the C++ ones; a read gives the buffer too,
-- and `get_file_size` the size.
pub record FileSystems (W : Type 0) : Type 0 where
  pub mount : ℕ → FilePath → W → ℕ × W
  pub read : ℕ → FilePath → ℕ → ℕ → List ℕ → W → ℕ × List ℕ × W
  pub write : ℕ → FilePath → ℕ → ℕ → List ℕ → W → ℕ × W
  pub get_file_size : ℕ → FilePath → W → ℕ × ℕ × W
  pub create_file : ℕ → FilePath → W → ℕ × W
  pub file_exist : ℕ → FilePath → W → ℕ × W

pub record MountedFs : Type 0 where
  pub mount_path : FilePath
  pub fs : ℕ

pub record FileDesc : Type 0 where
  pub file_path : FilePath
  pub position : ℕ
  pub read : Bool
  pub write : Bool
  pub append : Bool
  pub size : ℕ
  pub in_use : Bool

-- The members, with `errno` and the file systems' state.
pub record Vfs (W : Type 0) : Type 0 where
  pub mounted_fss : Vector MountedFs
  pub file_descriptors : List FileDesc
  pub errno : ℕ
  pub world : W

pub data VfsOperation : Type 0 where
  vfs_opr_read vfs_opr_write : VfsOperation

abbrev pub vfs_open_files_max : ℕ
vfs_open_files_max = 200

abbrev pub o_rdonly : ℕ
o_rdonly = 0b1

abbrev pub o_wronly : ℕ
o_wronly = 0b10

abbrev pub o_rdwr : ℕ
o_rdwr = 0b100

abbrev pub o_append : ℕ
o_append = 0b1000

abbrev pub o_creat : ℕ
o_creat = 0b100000

abbrev pub o_excl : ℕ
o_excl = 0b1000000

abbrev pub enoent : ℕ
enoent = 1

abbrev pub eexist : ℕ
eexist = 2

abbrev pub emfile : ℕ
emfile = 4

abbrev pub ebadf : ℕ
ebadf = 5

abbrev pub eoverflow : ℕ
eoverflow = 6

abbrev pub eisdir : ℕ
eisdir = 7

unfoldable pub has_flag : ℕ → ℕ → Bool
has_flag oflag flag = not (bit_and oflag flag == 0)

-- The first descriptor that is not in use, counted from `i`.
unfoldable pub find_unused : ℕ → List FileDesc → Option ℕ
find_unused i [] = none
find_unused i (d ∷ descriptors) =
    let rest = find_unused (i + 1) descriptors in if d.in_use then rest else some i

unfoldable pub get_descriptor : List FileDesc → ℤ → Result FileDesc
get_descriptor descriptors (pos i) = or_fault (get_elem? descriptors i)
get_descriptor descriptors (negsuc i) = faulted

unfoldable pub put_descriptor : List FileDesc → ℤ → FileDesc → Result (List FileDesc)
put_descriptor descriptors (pos i) d =
    or_fault (get_elem? descriptors i) >>= λ old. ok (set descriptors i d)
put_descriptor descriptors (negsuc i) d = faulted

-- Where no descriptor is free the source stores to the element with index -1.
unfoldable pub allocate_descriptor : List FileDesc → Result (ℤ × List FileDesc)
unfolding find_unused get_descriptor put_descriptor
allocate_descriptor descriptors = do
  let desct = elim (find_unused 0 descriptors) as (λ o. ℤ) [ none ↦ negsuc 0 | some i ↦ pos i ]
  d ← get_descriptor descriptors desct
  written ← put_descriptor descriptors desct (record d { in_use = true })
  ok (desct, written)

unfoldable pub is_legal_descriptor : List FileDesc → ℤ → Result Bool
unfolding get_descriptor
is_legal_descriptor descriptors desc =
    if leb_ℤ (pos vfs_open_files_max) desc
    then ok false
    else (get_descriptor descriptors desc >>= λ d. ok d.in_use)

unfoldable pub free_descriptor : List FileDesc → ℤ → Result (List FileDesc)
unfolding get_descriptor put_descriptor
free_descriptor descriptors desct = do
  d ← get_descriptor descriptors desct
  panic_if (not d.in_use)
  put_descriptor descriptors desct (record d { in_use = false })

-- The loop of the constructor, which reserves the first descriptors.
unfoldable pub reserve : ℕ → ℕ → List FileDesc → Result (List FileDesc)
unfolding get_descriptor put_descriptor
reserve zero i descriptors = ok descriptors
reserve (suc rounds) i descriptors = do
  d ← get_descriptor descriptors (pos i)
  written ← put_descriptor descriptors (pos i) (record d { in_use = true })
  reserve rounds (i + 1) written

module _ {W : Type 0} where
  -- `fresh` is what the members of a descriptor hold that are not initialized.
  unfoldable pub construct : FileDesc → W → Result (Vfs W)
  unfolding reserve Vector.empty_vector
  construct fresh world =
      reserve 3 0 (replicate vfs_open_files_max (record fresh { in_use = false }))
      >>= λ descriptors. ok (record {
        mounted_fss = Vector.empty_vector;
        file_descriptors = descriptors;
        errno = 0;
        world = world;
      })

  unfoldable pub set_errno : ℕ → Vfs W → Vfs W
  set_errno e v = record v { errno = e }

  unfoldable pub close : ℤ → Vfs W → Result (ℤ × Vfs W)
  unfolding is_legal_descriptor free_descriptor set_errno
  close fildes v = do
    legal ← is_legal_descriptor v.file_descriptors fildes
    if not legal
        then ok (negsuc 0, set_errno ebadf v)
        else (free_descriptor v.file_descriptors fildes >>= λ descriptors.
            ok (pos 0, record v { file_descriptors = descriptors }))

  module _ (systems : FileSystems W) where
    unfoldable pub mount_fs : FilePath → FilePath → ℕ → Vfs W → Result (ℕ × Vfs W)
    unfolding is_folder is_root Vector.append
    mount_fs at_path device what v = do
      panic_if (is_folder device && not (is_root device))
      panic_if (not (is_folder at_path))
      let mounted : MountedFs = record { mount_path = at_path; fs = what }
      let (code, world) = systems.mount what device v.world
      if code == 0
          then ok (0, record v { world = world })
          else ok (1, record v { world = world; mounted_fss = Vector.append v.mounted_fss mounted })
