-- ===== src/Vfs/Transfers.antt =====
-- What a read that returns has done.
use avi_kernel.Base.{ℕ, ◌+◌, ◌≤◌, ◌<◌, true, false, List, ◌≡◌, ◌⊎◌, ◌==◌, if◌then◌else◌, ok, ℤ, u64}
use avi_kernel.FilePath.{FilePath}
use avi_kernel.Vfs.{Vfs, FileSystems, FileDesc, get_descriptor, is_legal_descriptor}
use avi_kernel.Vfs.Io.{Transfer}

-- Where a transfer starts.
abbrev pub start_of : ℕ → FileDesc → ℕ
start_of offset d = if offset == 0 then d.position else offset

module _ {W : Type 0} (systems : FileSystems W) (desct : ℤ) (nbyte offset : ℕ) (v : Vfs W)
    (buf : List ℕ) where
  -- Why a read reports nothing: it asks for nothing, the descriptor is not a legal one, its file is not open
  -- for reading or ends before the read does, or the file system reports a failure.
  abbrev pub ReadsNothing : Type 0
  ReadsNothing =
      (nbyte ≡ 0)
      ⊎ ((is_legal_descriptor v.file_descriptors desct ≡ ok false)
          ⊎ ((d : FileDesc) × (get_descriptor v.file_descriptors desct ≡ ok d)
              × ((d.read ≡ false)
                  ⊎ ((d.size < u64 (start_of offset d + nbyte))
                      ⊎ ((fs : ℕ) × (path : FilePath) × ((systems.read fs path nbyte
                              (start_of offset d) buf v.world).0
                            ≡ 0))))))

  -- Nothing is reported, for a reason, and no descriptor changes; or all the bytes are, of a file that is open
  -- for reading, up to an end that lies within its size, and the position is this end then.
  abbrev pub HasRead : Transfer W → Type 0
  HasRead t =
      ((t.count ≡ 0) × (t.vfs.file_descriptors ≡ v.file_descriptors) × ReadsNothing)
      ⊎ ((d : FileDesc) × (t.count ≡ nbyte)
          × (get_descriptor v.file_descriptors desct ≡ ok d)
          × (d.in_use ≡ true)
          × (d.read ≡ true)
          × (u64 (start_of offset d + nbyte) ≤ d.size)
          × (get_descriptor t.vfs.file_descriptors desct
              ≡ ok (record d { position = u64 (start_of offset d + nbyte) })))
