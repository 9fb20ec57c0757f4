-- ===== src/Vfs/Frame.antt =====
-- `VFS::open` and `VFS::io` change no descriptor but their own.
use avi_kernel.Base.{
  ℕ, Bool, true, false, not, ◌&&◌, ◌||◌, List, ◌≡◌, ◌≢◌, ◌⊎◌, refl, sym, ap, ◌∙◌, ◌==◌,
  if◌then◌else◌, Option, none, some, Result, panicked, faulted, ok, ◌>>=◌, or_fault, set, get_elem?,
  ℤ, pos, Bool-cases, inl, inr, >>=-eq-ok, ok-injective,
}
use mathlib.Core.Path.{subst}
use avi_kernel.FilePath.{FilePath, is_folder, path_of_c_string}
use avi_kernel.Vfs.{
  Vfs, FileSystems, FileDesc, MountedFs, get_descriptor, put_descriptor, free_descriptor, set_errno,
  has_flag, o_creat, o_excl, eexist, enoent,
}
use avi_kernel.Vfs.Mounts.{get_mounted_fs, trim}
use avi_kernel.Vfs.Opening.{
  exit_err_cleanup, fill_descriptor, open_existing, open_found, open_allocated, open_file,
}
use avi_kernel.Vfs.Io.{Transfer}
use avi_kernel.Vfs.Table.{
  OnlyAt, OnlyAt-refl, OnlyAt-trans, set-OnlyAt, put_descriptor-OnlyAt, free_descriptor-OnlyAt,
  allocate_descriptor_lem,
}

-- The states that come out of a run, where it returns.
abbrev pub Leaves : {A : Type 0} → (A → List FileDesc) → ℤ → List FileDesc → Result A → Type 0
Leaves table_of desct table panicked = Unit {0}
Leaves table_of desct table faulted = Unit {0}
Leaves table_of desct table (ok a) = OnlyAt desct table (table_of a)

module _ {A B : Type 0} (table_of : B → List FileDesc) (desct : ℤ) (table : List FileDesc) where
  Leaves-bind :
      (first : Result A) (next : A → Result B)
      → ((a : A) → first ≡ ok a → Leaves table_of desct table (next a))
      → Leaves table_of desct table (first >>= next)
  Leaves-bind panicked next h = tt
  Leaves-bind faulted next h = tt
  Leaves-bind (ok a) next h = h a refl

module _ {A : Type 0} (table_of : A → List FileDesc) (desct : ℤ) (table : List FileDesc) where
  Leaves-if :
      (b : Bool) (x y : Result A)
      → Leaves table_of desct table x
      → Leaves table_of desct table y
      → Leaves table_of desct table (if b then x else y)
  Leaves-if true x y h g = h
  Leaves-if false x y h g = g

  Leaves-from :
      (table' : List FileDesc) (run : Result A)
      → OnlyAt desct table table'
      → Leaves table_of desct table' run
      → Leaves table_of desct table run
  Leaves-from table' panicked o h = tt
  Leaves-from table' faulted o h = tt
  Leaves-from table' (ok a) o h = OnlyAt-trans desct table table' (table_of a) o h

  -- A store to the descriptor, with which the run ends.
  Leaves-put :
      (d : FileDesc) (next : List FileDesc → A)
      → ((written : List FileDesc) → table_of (next written) ≡ written)
      → Leaves table_of desct table (put_descriptor table desct d >>= λ written. ok (next written))
  Leaves-put d next same =
      Leaves-bind table_of desct table (put_descriptor table desct d) _
        (λ written e. rw (same written) (put_descriptor-OnlyAt table written desct d e))

  Leaves-ok :
      (run : Result A) (a : A)
      → Leaves table_of desct table run
      → run ≡ ok a
      → OnlyAt desct table (table_of a)
  Leaves-ok panicked a h e = cc
  Leaves-ok faulted a h e = cc
  Leaves-ok (ok b) a h e = subst (λ x. OnlyAt desct table (table_of x)) (ok-injective e) h

module _ {W : Type 0} where
  abbrev pub opened_table : ℤ × Vfs W → List FileDesc
  opened_table r = r.1.file_descriptors

  abbrev pub moved_table : Transfer W → List FileDesc
  moved_table t = t.vfs.file_descriptors

  module _ (systems : FileSystems W) (desct : ℤ) where
    abbrev Opens : List FileDesc → Result (ℤ × Vfs W) → Type 0
    Opens table run = Leaves opened_table desct table run

    exit_err_cleanup-Opens :
        (e : ℕ) (v : Vfs W) → Opens v.file_descriptors (exit_err_cleanup systems desct e v)
    unfolding exit_err_cleanup set_errno
    exit_err_cleanup-Opens e v =
        Leaves-bind opened_table desct v.file_descriptors (free_descriptor v.file_descriptors desct)
          _ (λ table freed. free_descriptor-OnlyAt v.file_descriptors table desct freed)

    fill_descriptor-Opens :
        (oflag : ℕ) (path trimmed_path : FilePath) (mounted : MountedFs) (v : Vfs W)
        → Opens v.file_descriptors (fill_descriptor systems desct oflag path trimmed_path mounted v)
    unfolding fill_descriptor
    fill_descriptor-Opens oflag path trimmed_path mounted v =
        Leaves-bind opened_table desct v.file_descriptors (get_descriptor v.file_descriptors desct)
          _ (λ d there. Leaves-put opened_table desct v.file_descriptors _ _ (λ table. refl))

    -- The end of `open`, where the file is created if it does not exist.
    create_or_fill :
        (oflag : ℕ) (path trimmed_path : FilePath) (mounted : MountedFs) (exists : Bool) (v : Vfs W)
        → Opens v.file_descriptors (
            if exists
            then fill_descriptor systems desct oflag path trimmed_path mounted v
            else (let (code, world) = systems.create_file mounted.fs trimmed_path v.world in
                if code == 0
                then ok (pos 0, record v { world = world })
                else fill_descriptor systems desct oflag path trimmed_path mounted
                    (record v { world = world })))
    create_or_fill oflag path trimmed_path mounted true v =
        fill_descriptor-Opens oflag path trimmed_path mounted v
    create_or_fill oflag path trimmed_path mounted false v =
        let (code, world) = systems.create_file mounted.fs trimmed_path v.world in
        let w : Vfs W = record v { world = world } in
        Leaves-if opened_table desct v.file_descriptors (code == 0) (ok (pos 0, w))
          (fill_descriptor systems desct oflag path trimmed_path mounted w)
          (OnlyAt-refl desct v.file_descriptors)
          (fill_descriptor-Opens oflag path trimmed_path mounted w)

    open_existing-Opens :
        (path_str : List ℕ) (oflag : ℕ) (path trimmed_path : FilePath) (mounted : MountedFs)
        (exists : Bool) (v : Vfs W)
        → Opens v.file_descriptors
            (open_existing systems desct path_str oflag path trimmed_path mounted exists v)
    unfolding open_existing
    open_existing-Opens path_str oflag path trimmed_path mounted exists v =
        let creat = has_flag oflag o_creat in
        Leaves-bind opened_table desct v.file_descriptors (or_fault (get_elem? path_str 0)) _
          (λ first there. elim (Bool-cases (creat && has_flag oflag o_excl && exists)) [
            | inl c ↦ rw c (exit_err_cleanup-Opens eexist v)
            | inr c ↦ elim (Bool-cases ((not creat && not exists) || first == 0)) [
              | inl n ↦ rw (c, n) (exit_err_cleanup-Opens enoent v)
              | inr n ↦ rw (c, n) (create_or_fill oflag path trimmed_path mounted exists v)
            ]
          ])

    open_found-Opens :
        (path_str : List ℕ) (oflag : ℕ) (path : FilePath) (v : Vfs W) (found : Option MountedFs)
        → Opens v.file_descriptors (open_found systems desct path_str oflag path v found)
    unfolding open_found
    open_found-Opens path_str oflag path v none = exit_err_cleanup-Opens enoent v
    open_found-Opens path_str oflag path v (some mounted) =
        Leaves-bind opened_table desct v.file_descriptors (trim mounted path) _
          (λ trimmed_path done.
            let (code, world) = systems.file_exist mounted.fs trimmed_path v.world in
            let w : Vfs W = record v { world = world } in
            open_existing-Opens path_str oflag path trimmed_path mounted (not (code == 0)) w)

    open_allocated-Opens :
        (new_chars : ℕ → Option (List ℕ)) (path_str : List ℕ) (oflag : ℕ) (path : FilePath)
        (v : Vfs W)
        → Opens v.file_descriptors (open_allocated systems new_chars desct path_str oflag path v)
    unfolding open_allocated
    open_allocated-Opens new_chars path_str oflag path v =
        Leaves-bind opened_table desct v.file_descriptors
          (get_mounted_fs new_chars v.mounted_fss path) _
          (λ found there. open_found-Opens path_str oflag path v found)

  module _ (systems : FileSystems W) (new_chars : ℕ → Option (List ℕ)) where
    -- Opening a file changes no descriptor, or only one that was free.
    pub open_file-OnlyAt :
        (path_str : List ℕ) (oflag : ℕ) (v : Vfs W) (r : ℤ) (after : Vfs W)
        → open_file systems new_chars path_str oflag v ≡ ok (r, after)
        → (after.file_descriptors ≡ v.file_descriptors)
          ⊎ ((i : ℕ) × (d : FileDesc) × (get_elem? v.file_descriptors i ≡ some d)
              × (d.in_use ≡ false)
              × OnlyAt (pos i) v.file_descriptors after.file_descriptors)
    unfolding open_file set_errno
    open_file-OnlyAt path_str oflag v r after done =
        let (path, read, rest) = >>=-eq-ok (path_of_c_string new_chars path_str) _ done in
        elim (Bool-cases (is_folder path)) [
          | inl f ↦ inl (ap (λ x. x.1.file_descriptors) (sym (ok-injective (rw f at rest))))
          | inr f ↦ elim (allocate_descriptor_lem v.file_descriptors) [
            | inr (used, given) ↦ cc (rw (f, given) at rest)
            | inl (i, d, there, free, below, given) ↦
                let table = set v.file_descriptors i (record d { in_use = true }) in
                let w : Vfs W = record v { file_descriptors = table } in
                let opened = rw (f, given) at rest in
                inr (
                  i,
                  d,
                  there,
                  free,
                  OnlyAt-trans (pos i) v.file_descriptors table after.file_descriptors
                      (set-OnlyAt v.file_descriptors i (record d { in_use = true }))
                      (Leaves-ok opened_table (pos i) table _ (r, after)
                        (open_allocated-Opens systems (pos i) new_chars path_str oflag path w)
                        opened),
                )
          ]
        ]

    -- Whatever comes of opening a file, a descriptor that was in use stays as it was.
    pub open_file_lem :
        (path_str : List ℕ) (oflag : ℕ) (v : Vfs W) (r : ℤ) (after : Vfs W) (i : ℕ) (d : FileDesc)
        → open_file systems new_chars path_str oflag v ≡ ok (r, after)
        → get_elem? v.file_descriptors i ≡ some d
        → d.in_use ≡ true
        → get_elem? after.file_descriptors i ≡ some d
    open_file_lem path_str oflag v r after i d done there used =
        elim (open_file-OnlyAt path_str oflag v r after done) [
          | inl same ↦ rw same there
          | inr (j, f, at_j, free, only) ↦
              let apart : pos i ≢ pos j = λ e.
                let same : i ≡ j = cc in
                let same' : f ≡ d = cc (at_j, there, same) in cc (same', free, used) in
              only.1 i apart ∙ there
        ]
