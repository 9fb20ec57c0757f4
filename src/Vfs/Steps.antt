-- ===== src/Vfs/Steps.antt =====
-- The table of descriptors under any sequence of operations.
use avi_kernel.Base.{
  ℕ, zero, suc, ◌<◌, ◌≤◌, true, not, ◌&&◌, List, [], ◌∷◌, ◌≡◌, ◌≢◌, refl, ap, ◌∙◌, ◌==◌, Option,
  some, ok, get_elem?, length, ℤ, pos, arith, Bool-cases, inl, inr, >>=-eq-ok, ok-injective,
  Returns-ok, length-map, panic_if,
}
use mathlib.Core.Path.{subst}
use avi_kernel.FilePath.{FilePath, is_root, is_folder}
use avi_kernel.Vfs.{
  Vfs, FileSystems, FileDesc, VfsOperation, get_descriptor, put_descriptor, is_legal_descriptor,
  free_descriptor, set_errno, vfs_open_files_max, mount_fs, construct, reserve, close,
}
use avi_kernel.Vfs.Opening.{open_file}
use avi_kernel.Vfs.Io.{Transfer, io}
use avi_kernel.Vfs.Table.{OnlyAt, OnlyAt-refl, free_descriptor-OnlyAt}
use avi_kernel.Vfs.Frame.{open_file-OnlyAt, open_file_lem}
use avi_kernel.Vfs.Uses.{uses, io-KeepsUses}

-- The descriptor is in the table and in use.
abbrev pub IsUsed : List FileDesc → ℕ → Type 0
IsUsed table i = get_elem? (uses table) i ≡ some true

-- The table has its 200 entries, and the first three are in use.
abbrev pub IsReserved : List FileDesc → Type 0
IsReserved table =
    (length table ≡ vfs_open_files_max) × IsUsed table 0 × IsUsed table 1 × IsUsed table 2

module _ {W : Type 0} (systems : FileSystems W) (new_chars : ℕ → Option (List ℕ)) where
  -- What a caller can do with the file system that returns; it closes no reserved descriptor.
  pub data Step : Vfs W → Vfs W → Type 0 where
    mounts :
        {v w : Vfs W} {r : ℕ} (at_path device : FilePath) (what : ℕ)
        → mount_fs systems at_path device what v ≡ ok (r, w)
        → Step v w
    opens :
        {v w : Vfs W} {r : ℤ} (path_str : List ℕ) (oflag : ℕ)
        → open_file systems new_chars path_str oflag v ≡ ok (r, w)
        → Step v w
    closes : {v w : Vfs W} {r : ℤ} (i : ℕ) → 3 ≤ i → close (pos i) v ≡ ok (r, w) → Step v w
    moves :
        {v : Vfs W} {t : Transfer W} (operation : VfsOperation) (desct : ℤ) (buf : List ℕ)
        (nbyte offset : ℕ)
        → io systems new_chars operation desct buf nbyte offset v ≡ ok t
        → Step v t.vfs

  -- The states that such steps lead to from the constructor's.
  pub data Reached (fresh : FileDesc) (world : W) : Vfs W → Type 0 where
    constructed : {v : Vfs W} → construct fresh world ≡ ok v → Reached fresh world v
    then_step : {v w : Vfs W} → Reached fresh world v → Step v w → Reached fresh world w

length-uses : (table : List FileDesc) → length (uses table) ≡ length table
length-uses table = length-map table (λ d. d.in_use)

IsUsed-elem :
    (table : List FileDesc) (i : ℕ)
    → IsUsed table i
    → (d : FileDesc) × (get_elem? table i ≡ some d) × (d.in_use ≡ true)
IsUsed-elem [] i u = cc
IsUsed-elem (d ∷ table) zero u = (d, refl, cc)
IsUsed-elem (d ∷ table) (suc i) u = IsUsed-elem table i u

elem-IsUsed :
    (table : List FileDesc) (i : ℕ) (d : FileDesc)
    → get_elem? table i ≡ some d
    → d.in_use ≡ true
    → IsUsed table i
elem-IsUsed [] i d e u = cc
elem-IsUsed (f ∷ table) zero d e u = let same : f ≡ d = cc in ap some (ap (λ x. x.in_use) same ∙ u)
elem-IsUsed (f ∷ table) (suc i) d e u = elem-IsUsed table i d e u

module _ {W : Type 0} (systems : FileSystems W) (new_chars : ℕ → Option (List ℕ)) where
  open_file-IsUsed :
      (path_str : List ℕ) (oflag : ℕ) (v w : Vfs W) (r : ℤ) (i : ℕ)
      → open_file systems new_chars path_str oflag v ≡ ok (r, w)
      → IsUsed v.file_descriptors i
      → IsUsed w.file_descriptors i
  open_file-IsUsed path_str oflag v w r i done u =
      let (d, there, used) = IsUsed-elem v.file_descriptors i u in
      elem-IsUsed w.file_descriptors i d
        (open_file_lem systems new_chars path_str oflag v r w i d done there used) used

  open_file-length :
      (path_str : List ℕ) (oflag : ℕ) (v w : Vfs W) (r : ℤ)
      → open_file systems new_chars path_str oflag v ≡ ok (r, w)
      → length w.file_descriptors ≡ length v.file_descriptors
  open_file-length path_str oflag v w r done =
      elim (open_file-OnlyAt systems new_chars path_str oflag v r w done) [
        | inl same ↦ ap (λ xs. length xs) same
        | inr (j, f, at_j, free, only) ↦ only.0
      ]

  io-IsReserved :
      (operation : VfsOperation) (desct : ℤ) (buf : List ℕ) (nbyte offset : ℕ) (v : Vfs W)
      (t : Transfer W)
      → io systems new_chars operation desct buf nbyte offset v ≡ ok t
      → IsReserved v.file_descriptors
      → IsReserved t.vfs.file_descriptors
  io-IsReserved operation desct buf nbyte offset v t done h =
      let same : uses t.vfs.file_descriptors ≡ uses v.file_descriptors =
        Returns-ok _ (io-KeepsUses systems new_chars operation desct buf nbyte offset v) done in
      let size = length-uses v.file_descriptors in
      let size' = length-uses t.vfs.file_descriptors in
      let size_same = ap (λ xs. length xs) same in
      (omega (arith, h.0), rw same h.1, rw same h.2, rw same h.3)

  close-OnlyAt :
      (i : ℕ) (v w : Vfs W) (r : ℤ)
      → close (pos i) v ≡ ok (r, w)
      → OnlyAt (pos i) v.file_descriptors w.file_descriptors
  unfolding close set_errno
  close-OnlyAt i v w r done =
      let table = v.file_descriptors in
      let (legal, asked, rest) = >>=-eq-ok (is_legal_descriptor table (pos i)) _ done in
      elim (Bool-cases legal) [
        | inr n ↦
            subst (λ x. OnlyAt (pos i) table x.1.file_descriptors) (ok-injective (rw n at rest))
              (OnlyAt-refl (pos i) table)
        | inl y ↦
            let (after, freed, ends) = >>=-eq-ok (free_descriptor table (pos i)) _ (rw y at rest) in
            subst (λ x. OnlyAt (pos i) table x.1.file_descriptors) (ok-injective ends)
              (free_descriptor-OnlyAt table after (pos i) freed)
      ]

  OnlyAt-IsUsed :
      (i j : ℕ) (table after : List FileDesc)
      → OnlyAt (pos i) table after
      → j < i
      → IsUsed table j
      → IsUsed after j
  OnlyAt-IsUsed i j table after only lt u =
      let (d, there, used) = IsUsed-elem table j u in
      let apart : pos j ≢ pos i = λ e. (let same : j ≡ i = cc in omega arith) in
      elem-IsUsed after j d (only.1 j apart ∙ there) used

  close-IsReserved :
      (i : ℕ) (v w : Vfs W) (r : ℤ)
      → 3 ≤ i
      → close (pos i) v ≡ ok (r, w)
      → IsReserved v.file_descriptors
      → IsReserved w.file_descriptors
  close-IsReserved i v w r lo done h =
      let only = close-OnlyAt i v w r done in
      let before = v.file_descriptors in
      let after = w.file_descriptors in
      (
        only.0 ∙ h.0,
        OnlyAt-IsUsed i 0 before after only (omega arith) h.1,
        OnlyAt-IsUsed i 1 before after only (omega arith) h.2,
        OnlyAt-IsUsed i 2 before after only (omega arith) h.3,
      )

  mount_fs-IsReserved :
      (at_path device : FilePath) (what : ℕ) (v w : Vfs W) (r : ℕ)
      → mount_fs systems at_path device what v ≡ ok (r, w)
      → IsReserved v.file_descriptors
      → IsReserved w.file_descriptors
  unfolding mount_fs
  mount_fs-IsReserved at_path device what v w r done h =
      let (one, a, rest) = >>=-eq-ok (panic_if (is_folder device && not (is_root device))) _ done in
      let (two, b, rest') = >>=-eq-ok (panic_if (not (is_folder at_path))) _ rest in
      let (code, world) = systems.mount what device v.world in
      elim (Bool-cases (code == 0)) [
        | inl z ↦ subst (λ x. IsReserved x.1.file_descriptors) (ok-injective (rw z at rest')) h
        | inr z ↦ subst (λ x. IsReserved x.1.file_descriptors) (ok-injective (rw z at rest')) h
      ]

  Step-IsReserved :
      {v w : Vfs W}
      → Step systems new_chars v w
      → IsReserved v.file_descriptors
      → IsReserved w.file_descriptors
  Step-IsReserved (mounts {v} {w} {r} at_path device what e) h =
      mount_fs-IsReserved at_path device what v w r e h
  Step-IsReserved (opens {v} {w} {r} path_str oflag e) h = (
    open_file-length path_str oflag v w r e ∙ h.0,
    open_file-IsUsed path_str oflag v w r 0 e h.1,
    open_file-IsUsed path_str oflag v w r 1 e h.2,
    open_file-IsUsed path_str oflag v w r 2 e h.3,
  )
  Step-IsReserved (closes {v} {w} {r} i lo e) h = close-IsReserved i v w r lo e h
  Step-IsReserved (moves {v} {t} operation desct buf nbyte offset e) h =
      io-IsReserved operation desct buf nbyte offset v t e h

  construct-IsReserved :
      (fresh : FileDesc) (world : W) (v : Vfs W)
      → construct fresh world ≡ ok v
      → IsReserved v.file_descriptors
  unfolding construct reserve get_descriptor put_descriptor
  construct-IsReserved fresh world v e =
      subst (λ x. IsReserved x.file_descriptors) (ok-injective e) (refl, refl, refl, refl)

  -- In every state that operations lead to from the constructor's, the table has 200 descriptors and the
  -- three reserved ones are in use, where none of these three is closed.
  pub Reached-IsReserved :
      (fresh : FileDesc) (world : W) (v : Vfs W)
      → Reached systems new_chars fresh world v
      → IsReserved v.file_descriptors
  Reached-IsReserved fresh world v (constructed e) = construct-IsReserved fresh world v e
  Reached-IsReserved fresh world v (then_step {v = u} r s) =
      Step-IsReserved s (Reached-IsReserved fresh world u r)
