-- ===== src/Ide/Detecting.antt =====
-- What the places for drives answer, and the drive that the words of an identification describe.
use mathlib.Core.List.{append_assoc}
use native.Mathlib.Nat.{div-div-eq-div-mul, pow-suc, one-le-pow}
use avi_kernel.Base.{
  ℕ, zero, suc, ◌+◌, ◌*◌, ◌/◌, ◌%◌, ◌^◌, ◌<◌, Bool, true, false, not, ◌&&◌, List, [], ◌∷◌, ◌++◌, u8,
  u16, ◌≡◌, refl, sym, ap, ◌∙◌, arith, length, length-append, map, get_or, ◌==◌, if◌then◌else◌,
}
use avi_kernel.Bits.{bit_at, bit_and-pow}
use avi_kernel.Vector
use avi_kernel.Vector.Laws.{link_last-append}
use avi_kernel.Ide.{
  IdeDriver, PhysicalIdeDrive, icd_status_bsy, icd_status_drq, icd_status_err, any_bit,
}
use avi_kernel.Ide.Answers.{AllWait}
use avi_kernel.Ide.Detection.{is_set, load32, load64, drive_from, add_drive}

abbrev pub is_busy : ℕ → Bool
is_busy status = any_bit status icd_status_bsy

abbrev pub is_silent : ℕ → Bool
is_silent status = not (any_bit status icd_status_err) && not (any_bit status icd_status_drq)

-- What a place for a drive answers: nothing is there; or a device is busy, then silent, and then reports an
-- error; or it reports data, the 256 words that identify a disk.
pub data Place : Type 0 where
  absent : Place
  other : ℕ → List ℕ → ℕ → List ℕ → ℕ → Place
  disk : ℕ → List ℕ → ℕ → List ℕ → ℕ → List ℕ → Place

abbrev pub answers_of : Place → List ℕ → List ℕ
answers_of absent rest = 0 ∷ rest
answers_of (other status busy cleared silent last) rest =
    status ∷ (busy ++ (cleared ∷ (silent ++ (last ∷ rest))))
answers_of (disk status busy cleared silent last words) rest =
    status ∷ (busy ++ (cleared ∷ (silent ++ (last ∷ (words ++ rest)))))

abbrev pub IsPlace : Place → Type 0
IsPlace absent = Unit
IsPlace (other status busy cleared silent last) =
    ((u8 status == 0) ≡ false)
    × AllWait is_busy busy
    × (is_busy (u8 cleared) ≡ false)
    × AllWait is_silent silent
    × (any_bit (u8 last) icd_status_err ≡ true)
IsPlace (disk status busy cleared silent last words) =
    ((u8 status == 0) ≡ false)
    × AllWait is_busy busy
    × (is_busy (u8 cleared) ≡ false)
    × AllWait is_silent silent
    × (any_bit (u8 last) icd_status_err ≡ false)
    × (any_bit (u8 last) icd_status_drq ≡ true)
    × (length words ≡ 256)

-- A word of the identification, and one of its bits.
abbrev pub word : List ℕ → ℕ → ℕ
word words i = u16 (get_or words i 0)

abbrev pub word_bit : List ℕ → ℕ → ℕ → Bool
word_bit words i k = word words i / 2 ^ k % 2 == 1

-- The drive that the words identify: bit 9 of word 49 is LBA, bit 10 of word 83 the mode of 48 bits; the
-- number of sectors is in the words from 100 on in this mode, and otherwise from 60 on.
abbrev pub identified : ℕ → ℕ → List ℕ → PhysicalIdeDrive
identified channel drive words =
    let wide = word_bit words 49 9 && word_bit words 83 10 in
    record {
      channel = channel;
      drive_in_channel = drive;
      supports_lba = word_bit words 49 9;
      uses_48_bits_mode = wide;
      sector_size = 512;
      number_of_sectors =
          if wide
          then word words 100
            + 2 ^ 16 * word words 101
            + 2 ^ 32 * (word words 102 + 2 ^ 16 * word words 103)
          else word words 60 + 2 ^ 16 * word words 61;
    }

abbrev pub found_at : ℕ → ℕ → Place → List PhysicalIdeDrive
found_at channel drive absent = []
found_at channel drive (other status busy cleared silent last) = []
found_at channel drive (disk status busy cleared silent last words) =
    identified channel drive words ∷ []

-- The driver with these drives behind its own.
abbrev pub with_drives : IdeDriver → List PhysicalIdeDrive → IdeDriver
with_drives driver found = record {
  number_of_drives = driver.number_of_drives + length found;
  drives = record {
    nodes = driver.drives.nodes ++ found;
    vector_size = driver.drives.vector_size + length found;
  };
}

pub with_drives-append :
    (driver : IdeDriver) (xs ys : List PhysicalIdeDrive)
    → with_drives (with_drives driver xs) ys ≡ with_drives driver (xs ++ ys)
with_drives-append driver xs ys =
    let sum : (n : ℕ) → n + length xs + length ys ≡ n + length (xs ++ ys) =
      λ n. omega (arith, length-append xs ys) in
    λ i. record {
      number_of_drives = sum driver.number_of_drives i;
      drives = record {
        nodes = append_assoc driver.drives.nodes xs ys i;
        vector_size = sum driver.drives.vector_size i;
      };
    }

pub bit_at_lem : (k x : ℕ) → bit_at x k ≡ x / 2 ^ k % 2
bit_at_lem zero x = omega arith
bit_at_lem (suc k) x =
    bit_at_lem k (x / 2)
    ∙ ap (λ (t : ℕ). t % 2)
        (div-div-eq-div-mul x 2 (2 ^ k) ∙ ap (λ (t : ℕ). x / t) (omega (arith, pow-suc 2 k)))

pub bit_test : (t p : ℕ) → t < 2 → 0 < p → not (t * p == 0) ≡ (t == 1)
bit_test zero p lt some = ground arith
bit_test (suc zero) p lt some = ground arith
bit_test (suc (suc t)) p lt some = absurd (omega arith)

is_set_lem : (x k : ℕ) → is_set x k ≡ (x / 2 ^ k % 2 == 1)
unfolding is_set
is_set_lem x k =
    let one : 1 * 2 ^ k ≡ 2 ^ k = omega arith in
    rw (one, bit_and-pow x k, bit_at_lem k x)
      (bit_test (x / 2 ^ k % 2) (2 ^ k) (omega arith) (one-le-pow k 2 (omega arith)))

get_or-map : (f : ℕ → ℕ) (xs : List ℕ) (i : ℕ) → f 0 ≡ 0 → get_or (map f xs) i 0 ≡ f (get_or xs i 0)
get_or-map f [] i e = sym e
get_or-map f (x ∷ xs) zero e = refl
get_or-map f (x ∷ xs) (suc i) e = get_or-map f xs i e

-- The loads from the buffer, by its words.
load32_lem :
    (words : List ℕ) (i : ℕ) → load32 (map u16 words) i ≡ word words i + 2 ^ 16 * word words (i + 1)
unfolding load32
load32_lem words i = omega (arith, get_or-map u16 words i refl, get_or-map u16 words (i + 1) refl)

load64_lem :
    (words : List ℕ) (i : ℕ)
    → load64 (map u16 words) i
      ≡ word words i
        + 2 ^ 16 * word words (i + 1)
        + 2 ^ 32 * (word words (i + 2) + 2 ^ 16 * word words (i + 2 + 1))
unfolding load64
load64_lem words i = omega (arith, load32_lem words i, load32_lem words (i + 2))

if-and : (a b : Bool) → (if a then b else false) ≡ (a && b)
if-and true b = refl
if-and false b = refl

drive_from_lem :
    (channel drive : ℕ) (words : List ℕ)
    → drive_from channel drive (map u16 words) ≡ identified channel drive words
unfolding drive_from
drive_from_lem channel drive words =
    let buf = map u16 words in
    let lba : is_set (load32 buf 49) 9 ≡ word_bit words 49 9 =
      is_set_lem (load32 buf 49) 9 ∙ ap (λ (t : ℕ). t == 1) (omega (arith, load32_lem words 49)) in
    let wide : is_set (load64 buf 82) 26 ≡ word_bit words 83 10 =
      is_set_lem (load64 buf 82) 26 ∙ ap (λ (t : ℕ). t == 1) (omega (arith, load64_lem words 82)) in
    let mode : (if is_set (load32 buf 49) 9 then is_set (load64 buf 82) 26 else false)
        ≡ (word_bit words 49 9 && word_bit words 83 10) =
      (λ i. if lba i then wide i else false)
      ∙ if-and (word_bit words 49 9) (word_bit words 83 10) in
    λ i. record {
      channel = channel;
      drive_in_channel = drive;
      supports_lba = lba i;
      uses_48_bits_mode = mode i;
      sector_size = 512;
      number_of_sectors = if mode i then load64_lem words 100 i else load32_lem words 60 i;
    }

pub add_drive_lem :
    (driver : IdeDriver) (channel drive : ℕ) (words : List ℕ)
    → add_drive driver channel drive (map u16 words)
      ≡ with_drives driver (identified channel drive words ∷ [])
unfolding add_drive Vector.append
add_drive_lem driver channel drive words = λ i. record {
  number_of_drives = driver.number_of_drives + 1;
  drives = record {
    nodes =
        (ap (λ d. Vector.link_last driver.drives.nodes d) (drive_from_lem channel drive words)
            ∙ link_last-append driver.drives.nodes (identified channel drive words))
          i;
    vector_size = driver.drives.vector_size + 1;
  };
}
