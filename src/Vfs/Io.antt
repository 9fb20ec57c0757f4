-- ===== src/Vfs/Io.antt =====
-- `VFS::io`, and the four operations that call it.
use avi_kernel.Base.{
  ℕ, ◌+◌, Bool, false, not, List, ◌==◌, ltb, if◌then◌else◌, Option, Result, ok, ◌>>=◌, or_fault,
  u64, ℤ,
}
use avi_kernel.FilePath.{FilePath}
use avi_kernel.Vfs.{
  Vfs, FileSystems, FileDesc, VfsOperation, vfs_opr_read, vfs_opr_write, get_descriptor,
  put_descriptor, is_legal_descriptor, set_errno, ebadf, eoverflow,
}
use avi_kernel.Vfs.Mounts.{get_mounted_fs, trim}

-- What `io` gives: the number it returns, the buffer behind it, and the state.
pub record Transfer (W : Type 0) : Type 0 where
  pub count : ℕ
  pub buf : List ℕ
  pub vfs : Vfs W

-- Whether the file is not open for the operation.
unfoldable pub is_refused : VfsOperation → FileDesc → Bool
is_refused vfs_opr_read d = not d.read
is_refused vfs_opr_write d = not d.write

-- Whether a read would go beyond the end of the file.
unfoldable pub is_beyond : VfsOperation → ℕ → FileDesc → Bool
is_beyond vfs_opr_read end d = ltb d.size end
is_beyond vfs_opr_write end d = false

module _ {W : Type 0} (systems : FileSystems W) (new_chars : ℕ → Option (List ℕ)) where
  -- The call of the file system, which returns a code, the buffer and its state.
  unfoldable pub transfer : VfsOperation → ℕ → FilePath → ℕ → ℕ → List ℕ → W → ℕ × List ℕ × W
  transfer vfs_opr_read fs path nbyte at buf world = systems.read fs path nbyte at buf world
  transfer vfs_opr_write fs path nbyte at buf world =
      let (code, after) = systems.write fs path nbyte at buf world in (code, buf, after)

  -- Behind the transfer: the position moves, and after a write the size is read again.
  unfoldable pub finish :
      VfsOperation → ℤ → ℕ → ℕ → ℕ → FilePath → List ℕ → Vfs W → Result (Transfer W)
  unfolding get_descriptor put_descriptor
  finish vfs_opr_read desct nbyte actual_offset fs path buf v = do
    d ← get_descriptor v.file_descriptors desct
    written ←
        put_descriptor v.file_descriptors desct
          (record d { position = u64 (actual_offset + nbyte) })
    ok (record { count = nbyte; buf = buf; vfs = record v { file_descriptors = written } })
  finish vfs_opr_write desct nbyte actual_offset fs path buf v = do
    d ← get_descriptor v.file_descriptors desct
    let (code, size, world) = systems.get_file_size fs path v.world
    written ←
        put_descriptor v.file_descriptors desct
          (record d { position = u64 (actual_offset + nbyte); size = size })
    ok (record {
      count = if code == 0 then 0 else nbyte;
      buf = buf;
      vfs = record v { file_descriptors = written; world = world };
    })

  -- The file system is not checked to have been found: without one, its pointer is not initialized.
  unfoldable pub move_bytes :
      VfsOperation → ℤ → ℕ → ℕ → FileDesc → List ℕ → Vfs W → Result (Transfer W)
  unfolding get_mounted_fs trim transfer finish
  move_bytes operation desct nbyte actual_offset d buf v = do
    found ← get_mounted_fs new_chars v.mounted_fss d.file_path
    mounted ← or_fault found
    path ← trim mounted d.file_path
    let (code, read_buf, world) = transfer operation mounted.fs path nbyte actual_offset buf v.world
    let w : Vfs W = record v { world = world }
    if code == 0
        then ok (record { count = 0; buf = read_buf; vfs = w })
        else finish operation desct nbyte actual_offset mounted.fs path read_buf w

  unfoldable pub io : VfsOperation → ℤ → List ℕ → ℕ → ℕ → Vfs W → Result (Transfer W)
  unfolding is_legal_descriptor get_descriptor set_errno is_refused is_beyond move_bytes
  io operation desct buf nbyte offset v =
      if nbyte == 0 then ok (record { count = 0; buf = buf; vfs = v }) else (do
        legal ← is_legal_descriptor v.file_descriptors desct
        if not legal then ok (record { count = 0; buf = buf; vfs = set_errno ebadf v }) else (do
          d ← get_descriptor v.file_descriptors desct
          let actual_offset = if offset == 0 then d.position else offset
          if is_refused operation d
              then ok (record { count = 0; buf = buf; vfs = set_errno ebadf v })
              else if is_beyond operation (u64 (actual_offset + nbyte)) d
              then ok (record { count = 0; buf = buf; vfs = set_errno eoverflow v })
              else move_bytes operation desct nbyte actual_offset d buf v))

  unfoldable pub read : ℤ → List ℕ → ℕ → Vfs W → Result (Transfer W)
  unfolding io
  read desct buf nbyte v = io vfs_opr_read desct buf nbyte 0 v

  unfoldable pub pread : ℤ → List ℕ → ℕ → ℕ → Vfs W → Result (Transfer W)
  unfolding io
  pread desct buf nbyte offset v = io vfs_opr_read desct buf nbyte offset v

  unfoldable pub write : ℤ → List ℕ → ℕ → Vfs W → Result (Transfer W)
  unfolding io
  write desct buf nbyte v = io vfs_opr_write desct buf nbyte 0 v

  unfoldable pub pwrite : ℤ → List ℕ → ℕ → ℕ → Vfs W → Result (Transfer W)
  unfolding io
  pwrite desct buf nbyte offset v = io vfs_opr_write desct buf nbyte offset v
