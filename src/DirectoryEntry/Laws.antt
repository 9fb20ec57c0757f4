-- ===== src/DirectoryEntry/Laws.antt =====
-- What the getters of a directory entry read.
use avi_kernel.Base.{
  ℕ, zero, suc, ◌+◌, ◌*◌, ◌^◌, ◌<◌, List, ◌==◌, if◌then◌else◌, Option, ok, ◌>>=◌, ◌≡◌, refl, ap,
  fun_ext, arith,
}
use avi_kernel.String
use avi_kernel.String.{String, append_char}
use avi_kernel.DirectoryEntry.{
  DirectoryEntry, byte, load16, le_name_from, le_get_name, se_get_first_cluster,
}

-- The number of the first cluster, from the bytes 26, 27, 20 and 21, the lowest first.
pub se_get_first_cluster_lem :
    (entry : DirectoryEntry)
    → ((i : ℕ) → byte entry i < 256)
    → se_get_first_cluster entry
      ≡ byte entry 26 + 2 ^ 8 * byte entry 27 + 2 ^ 16 * byte entry 20 + 2 ^ 24 * byte entry 21
unfolding se_get_first_cluster load16
se_get_first_cluster_lem entry bytes = omega (arith, bytes 20, bytes 21, bytes 26, bytes 27)

le_name_from_lem :
    (entry entry' : DirectoryEntry) (new_chars : ℕ → Option (List ℕ)) (rounds i : ℕ) (s : String)
    → i + rounds ≡ 13
    → ((j : ℕ) → j < 13 → byte entry j ≡ byte entry' j)
    → le_name_from entry new_chars rounds i s ≡ le_name_from entry' new_chars rounds i s
unfolding le_name_from
le_name_from_lem entry entry' new_chars zero i s e same = refl
le_name_from_lem entry entry' new_chars (suc rounds) i s e same =
    let here = same i (omega arith) in
    let later =
      λ (s : String). le_name_from_lem entry entry' new_chars rounds (i + 1) s (omega arith) same in
    λ k. if here k == 0 then ok s else (append_char new_chars s (here k) >>= λ s'. later s' k)

-- The name of a long entry depends on the first 13 bytes of the entry alone: on its order, five characters
-- with both of their bytes, its attributes and its type, and on none of the other characters.
pub le_get_name_lem :
    (entry entry' : DirectoryEntry) (new_chars : ℕ → Option (List ℕ))
    → ((j : ℕ) → j < 13 → byte entry j ≡ byte entry' j)
    → le_get_name entry new_chars ≡ le_get_name entry' new_chars
unfolding le_get_name
le_get_name_lem entry entry' new_chars same =
    ap (λ next. String.clear new_chars >>= next)
      (fun_ext λ s. le_name_from_lem entry entry' new_chars 13 0 s refl same)
