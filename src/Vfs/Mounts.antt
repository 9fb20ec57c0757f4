-- ===== src/Vfs/Mounts.antt =====
-- `VFS::get_mounted_fs`, and the paths inside a mounted file system.
use avi_kernel.Base.{
  ℕ, zero, suc, ◌+◌, Bool, true, false, not, ◌&&◌, List, ◌==◌, ltb, if◌then◌else◌, Option, none,
  some, Result, ok, ◌>>=◌, u32, sub32, ℤ, pos, negsuc, leb_ℤ,
}
use avi_kernel.Vector.{Vector}
use avi_kernel.Vector
use avi_kernel.String.{c_str, equal}
use avi_kernel.FilePath.{FilePath, get_depth, get_part, remove_part}
use avi_kernel.Vfs.{MountedFs}

-- How often a loop up to this depth runs.
unfoldable pub rounds_to : ℤ → ℕ
rounds_to (pos depth) = depth
rounds_to (negsuc depth) = 0

-- A depth and one more, as a `size_t`.
unfoldable pub depth_count : ℤ → ℕ
depth_count (pos depth) = u32 (depth + 1)
depth_count (negsuc depth) = sub32 0 depth

module _ (new_chars : ℕ → Option (List ℕ)) where
  -- The inner loop of `get_mounted_fs`, which compares the parts with the index `i` of the outer loop.
  unfoldable pub parts_match : ℕ → ℤ → FilePath → FilePath → Result Bool
  unfolding get_part equal c_str
  parts_match zero i mount_path path = ok true
  parts_match (suc rounds) i mount_path path = do
    lhs ← get_part new_chars mount_path i
    rhs ← get_part new_chars path i
    same ← equal (c_str lhs) (c_str rhs)
    if not same then ok false else parts_match rounds i mount_path path

  unfoldable pub find_mounted :
      ℕ → ℕ → Vector MountedFs → FilePath → ℕ → Option MountedFs → Result (ℕ × Option MountedFs)
  unfolding parts_match rounds_to depth_count get_depth Vector.get
  find_mounted zero i mounted_fss path best m = ok (best, m)
  find_mounted (suc rounds) i mounted_fss path best m = do
    mounted ← Vector.get mounted_fss (pos i)
    let depth = get_depth mounted.mount_path
    found ←
        if leb_ℤ depth (get_depth path)
        then parts_match (rounds_to depth) (pos i) mounted.mount_path path
        else ok false
    if found && ltb best (depth_count depth)
        then find_mounted rounds (i + 1) mounted_fss path (depth_count depth) (some mounted)
        else find_mounted rounds (i + 1) mounted_fss path best m

  -- The mounted file system, where the source returns true.
  unfoldable pub get_mounted_fs : Vector MountedFs → FilePath → Result (Option MountedFs)
  unfolding find_mounted Vector.size
  get_mounted_fs mounted_fss path =
      find_mounted (Vector.size mounted_fss) 0 mounted_fss path 0 none >>= λ r.
      ok (if r.0 == 0 then none else r.1)

unfoldable pub remove_first_parts : ℕ → FilePath → Result FilePath
unfolding remove_part
remove_first_parts zero path = ok path
remove_first_parts (suc rounds) path = remove_part path (pos 0) >>= remove_first_parts rounds

unfoldable pub trim : MountedFs → FilePath → Result FilePath
unfolding remove_first_parts rounds_to get_depth
trim mounted path = remove_first_parts (rounds_to (get_depth mounted.mount_path)) path
