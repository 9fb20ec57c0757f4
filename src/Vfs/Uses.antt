-- ===== src/Vfs/Uses.antt =====
-- Which descriptors are in use, and that reading and writing do not change it.
use avi_kernel.Base.{
  ℕ, zero, suc, ◌+◌, Bool, List, [], ◌∷◌, ◌≡◌, refl, sym, ap, ◌∙◌, ◌==◌, if◌then◌else◌, Option,
  some, Result, ok, or_fault, set, get_elem?, ℤ, pos, negsuc, Bool-cases, Option-cases, inl, inr,
  >>=-eq-ok, ok-injective, u64, Returns, Returns-bind, map,
}
use avi_kernel.FilePath.{FilePath}
use avi_kernel.Vfs.{
  Vfs, FileSystems, FileDesc, VfsOperation, vfs_opr_read, vfs_opr_write, get_descriptor,
  put_descriptor, is_legal_descriptor, set_errno,
}
use avi_kernel.Vfs.Mounts.{get_mounted_fs, trim}
use avi_kernel.Vfs.Io.{Transfer, io, move_bytes, finish, transfer, is_refused, is_beyond}

-- Which descriptors are in use.
abbrev pub uses : List FileDesc → List Bool
uses table = map (λ d. d.in_use) table

uses-set :
    (table : List FileDesc) (i : ℕ) (d f : FileDesc)
    → get_elem? table i ≡ some d
    → f.in_use ≡ d.in_use
    → uses (set table i f) ≡ uses table
uses-set [] i d f there e = refl
uses-set (x ∷ table) zero d f there e =
    let same : x ≡ d = cc in λ j. (e ∙ ap (λ y. y.in_use) (sym same)) j ∷ uses table
uses-set (x ∷ table) (suc i) d f there e = ap (λ xs. x.in_use ∷ xs) (uses-set table i d f there e)

pub found_by :
    (table : List FileDesc) (i : ℕ) (d : FileDesc)
    → or_fault (get_elem? table i) ≡ ok d
    → get_elem? table i ≡ some d
found_by table i d e = elim (Option-cases (get_elem? table i)) [
  | inl none_there ↦ cc (rw none_there at e)
  | inr (f, there) ↦ let same : f ≡ d = ok-injective (rw there at e) in rw (← same) there
]

-- A descriptor that is written back with its use unchanged.
put_descriptor-uses :
    (table after : List FileDesc) (desct : ℤ) (d f : FileDesc)
    → get_descriptor table desct ≡ ok d
    → f.in_use ≡ d.in_use
    → put_descriptor table desct f ≡ ok after
    → uses after ≡ uses table
unfolding get_descriptor put_descriptor
put_descriptor-uses table after (negsuc i) d f there e done = cc
put_descriptor-uses table after (pos i) d f there e done =
    let found = found_by table i d there in
    let (old, read, ends) = >>=-eq-ok (or_fault (get_elem? table i)) _ done in
    ap uses (sym (ok-injective ends)) ∙ uses-set table i d f found e

module _ {W : Type 0} (systems : FileSystems W) (new_chars : ℕ → Option (List ℕ)) where
  abbrev KeepsUses : Vfs W → Result (Transfer W) → Type 0
  KeepsUses v run = Returns (λ t. uses t.vfs.file_descriptors ≡ uses v.file_descriptors) run

  finish-KeepsUses :
      (operation : VfsOperation) (desct : ℤ) (nbyte actual_offset fs : ℕ) (path : FilePath)
      (buf : List ℕ) (v : Vfs W)
      → KeepsUses v (finish systems new_chars operation desct nbyte actual_offset fs path buf v)
  unfolding finish
  finish-KeepsUses vfs_opr_read desct nbyte actual_offset fs path buf v =
      Returns-bind _ (get_descriptor v.file_descriptors desct) _ (λ d there.
        let f : FileDesc = record d { position = u64 (actual_offset + nbyte) } in
        Returns-bind _ (put_descriptor v.file_descriptors desct f) _ (λ table written.
          put_descriptor-uses v.file_descriptors table desct d f there refl written))
  finish-KeepsUses vfs_opr_write desct nbyte actual_offset fs path buf v =
      let (code, size, world) = systems.get_file_size fs path v.world in
      Returns-bind _ (get_descriptor v.file_descriptors desct) _ (λ d there.
        let f : FileDesc = record d { position = u64 (actual_offset + nbyte); size = size } in
        Returns-bind _ (put_descriptor v.file_descriptors desct f) _ (λ table written.
          put_descriptor-uses v.file_descriptors table desct d f there refl written))

  move_bytes-KeepsUses :
      (operation : VfsOperation) (desct : ℤ) (nbyte actual_offset : ℕ) (d : FileDesc) (buf : List ℕ)
      (v : Vfs W)
      → KeepsUses v (move_bytes systems new_chars operation desct nbyte actual_offset d buf v)
  unfolding move_bytes
  move_bytes-KeepsUses operation desct nbyte actual_offset d buf v =
      Returns-bind _ (get_mounted_fs new_chars v.mounted_fss d.file_path) _ (λ found at_path.
        Returns-bind _ (or_fault found) _ (λ mounted there.
          Returns-bind _ (trim mounted d.file_path) _ (λ path done.
            let (code, read_buf, world) =
              transfer systems new_chars operation mounted.fs path nbyte actual_offset buf
                v.world in
            elim (Bool-cases (code == 0)) [
              | inl z ↦ rw z refl
              | inr z ↦ rw z (
                  finish-KeepsUses operation desct nbyte actual_offset mounted.fs path read_buf
                    (record v { world = world }))
            ])))

  -- Reading and writing leave every descriptor in use that was, and no other.
  pub io-KeepsUses :
      (operation : VfsOperation) (desct : ℤ) (buf : List ℕ) (nbyte offset : ℕ) (v : Vfs W)
      → KeepsUses v (io systems new_chars operation desct buf nbyte offset v)
  unfolding io set_errno
  io-KeepsUses operation desct buf nbyte offset v = elim (Bool-cases (nbyte == 0)) [
    | inl z ↦ rw z refl
    | inr z ↦ rw z (
        Returns-bind _ (is_legal_descriptor v.file_descriptors desct) _ (λ legal e.
          elim (Bool-cases legal) [
            | inr illegal ↦ rw illegal refl
            | inl in_use ↦ rw in_use (
                Returns-bind _ (get_descriptor v.file_descriptors desct) _ (λ d there.
                  let actual_offset = if offset == 0 then d.position else offset in
                  elim (Bool-cases (is_refused operation d)) [
                    | inl f ↦ rw f refl
                    | inr f ↦
                        elim (Bool-cases (is_beyond operation (u64 (actual_offset + nbyte)) d)) [
                          | inl g ↦ rw (f, g) refl
                          | inr g ↦
                              rw (f, g)
                                (move_bytes-KeepsUses operation desct nbyte actual_offset d buf v)
                        ]
                  ]))
          ]))
  ]
