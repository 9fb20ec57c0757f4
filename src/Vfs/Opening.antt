-- ===== src/Vfs/Opening.antt =====
-- `VFS::open`. A goto is the code that it leads to.
use avi_kernel.Base.{
  ℕ, Bool, not, ◌&&◌, ◌||◌, List, ◌==◌, if◌then◌else◌, Option, none, some, Result, ok, ◌>>=◌,
  or_fault, get_elem?, ℤ, pos, negsuc, leb_ℤ,
}
use avi_kernel.FilePath.{FilePath, is_folder, path_of_c_string}
use avi_kernel.Vfs.{
  Vfs, FileSystems, MountedFs, has_flag, get_descriptor, put_descriptor, allocate_descriptor,
  free_descriptor, set_errno, o_rdonly, o_wronly, o_rdwr, o_append, o_creat, o_excl, enoent, eexist,
  emfile, eisdir,
}
use avi_kernel.Vfs.Mounts.{get_mounted_fs, trim}

module _ {W : Type 0} where
  module _ (systems : FileSystems W) where
    -- The end of `open` on an error with a descriptor: it is freed.
    unfoldable pub exit_err_cleanup : ℤ → ℕ → Vfs W → Result (ℤ × Vfs W)
    unfolding free_descriptor set_errno
    exit_err_cleanup desct e v = free_descriptor v.file_descriptors desct >>= λ descriptors.
        ok (negsuc 0, set_errno e (record v { file_descriptors = descriptors }))

    -- The end of `open` on success: the descriptor is filled, and the size read into it.
    unfoldable pub fill_descriptor :
        ℤ → ℕ → FilePath → FilePath → MountedFs → Vfs W → Result (ℤ × Vfs W)
    unfolding has_flag get_descriptor put_descriptor
    fill_descriptor desct oflag path trimmed_path mounted v = do
      d ← get_descriptor v.file_descriptors desct
      let (code, size, world) = systems.get_file_size mounted.fs trimmed_path v.world
      written ← put_descriptor v.file_descriptors desct (record d {
        file_path = path;
        position = 0;
        read = has_flag oflag o_rdonly || has_flag oflag o_rdwr;
        write = has_flag oflag o_wronly || has_flag oflag o_rdwr;
        append = has_flag oflag o_append;
        size = size;
      })
      ok (
        if code == 0 then pos 0 else desct,
        record v { file_descriptors = written; world = world },
      )

    -- What `open` does once it knows the file system and whether the file exists. The source tests the
    -- constant O_CREAT before it creates the file, and returns 0 where that fails.
    unfoldable pub open_existing :
        ℤ → List ℕ → ℕ → FilePath → FilePath → MountedFs → Bool → Vfs W → Result (ℤ × Vfs W)
    unfolding exit_err_cleanup fill_descriptor has_flag
    open_existing desct path_str oflag path trimmed_path mounted exists v = do
      first ← or_fault (get_elem? path_str 0)
      let creat = has_flag oflag o_creat
      if creat && has_flag oflag o_excl && exists
          then exit_err_cleanup desct eexist v
          else if (not creat && not exists) || first == 0
          then exit_err_cleanup desct enoent v
          else if exists
          then fill_descriptor desct oflag path trimmed_path mounted v
          else (let (code, world) = systems.create_file mounted.fs trimmed_path v.world in
              if code == 0
              then ok (pos 0, record v { world = world })
              else fill_descriptor desct oflag path trimmed_path mounted
                  (record v { world = world }))

    -- What `open` does with the file system that it found, or without one.
    unfoldable pub open_found :
        ℤ → List ℕ → ℕ → FilePath → Vfs W → Option MountedFs → Result (ℤ × Vfs W)
    unfolding exit_err_cleanup trim open_existing
    open_found desct path_str oflag path v none = exit_err_cleanup desct enoent v
    open_found desct path_str oflag path v (some mounted) = do
      trimmed_path ← trim mounted path
      let (code, world) = systems.file_exist mounted.fs trimmed_path v.world
      open_existing desct path_str oflag path trimmed_path mounted (not (code == 0))
          (record v { world = world })

    unfoldable pub open_allocated :
        (ℕ → Option (List ℕ)) → ℤ → List ℕ → ℕ → FilePath → Vfs W → Result (ℤ × Vfs W)
    unfolding get_mounted_fs open_found
    open_allocated new_chars desct path_str oflag path v =
        get_mounted_fs new_chars v.mounted_fss path >>= open_found desct path_str oflag path v

    unfoldable pub open_file : (ℕ → Option (List ℕ)) → List ℕ → ℕ → Vfs W → Result (ℤ × Vfs W)
    unfolding path_of_c_string is_folder set_errno allocate_descriptor open_allocated
    open_file new_chars path_str oflag v = do
      path ← path_of_c_string new_chars path_str
      if is_folder path
          then ok (negsuc 0, set_errno eisdir v)
          else (allocate_descriptor v.file_descriptors >>= λ r.
              let w = record v { file_descriptors = r.1 } in
              if leb_ℤ r.0 (negsuc 0)
              then ok (negsuc 0, set_errno emfile w)
              else open_allocated new_chars r.0 path_str oflag path w)
