-- ===== src/Tests/Disks.antt =====
-- The theorems on the IDE driver, at a disk of each addressing mode, and for one disk beside an absent one.
use avi_kernel.Base.{
  ℕ, ◌+◌, true, false, List, [], ◌∷◌, ◌++◌, ◌≡◌, refl, arith, map, replicate, ◌^◌, u16, ok, pos,
  set,
}
use avi_kernel.Vector
use avi_kernel.Ports.{Bus, ran, PortEvent}
use avi_kernel.Pci.{PciDevice}
use avi_kernel.Ide.{
  PhysicalIdeDrive, IdeDriver, bytes_of, read_sectors, write_sectors, get_ide_controller,
  still_waits,
}
use avi_kernel.Ide.Registers.{commands, words_sent, Named}
use avi_kernel.Ide.Answers.{SectorAnswer, IsReady, words_in, at_port}
use avi_kernel.Ide.Reading.{answers_for, read_sectors_lem}
use avi_kernel.Ide.Writing.{states_for, bytes_in, write_sectors_lem}
use avi_kernel.Ide.Detection.{detect_drives}
use avi_kernel.Ide.Detecting.{
  Place, absent, other, disk, answers_of, with_drives, found_at, identified,
}
use avi_kernel.Ide.Found.{detect_drives_lem}

abbrev wide_drive : PhysicalIdeDrive
wide_drive = record {
  channel = 1;
  drive_in_channel = 1;
  supports_lba = true;
  uses_48_bits_mode = true;
  sector_size = 512;
  number_of_sectors = 2 ^ 30;
}

abbrev narrow_drive : PhysicalIdeDrive
narrow_drive = record wide_drive { channel = 0; drive_in_channel = 0; uses_48_bits_mode = false }

abbrev two_drives : IdeDriver
two_drives = record {
  number_of_drives = 2;
  drives = record { nodes = narrow_drive ∷ wide_drive ∷ []; vector_size = 2 };
}

abbrev one_sector : SectorAnswer
one_sector = record { busy = 0x80 ∷ 0xD0 ∷ []; ready = 0x58; words = replicate 256 0x4241 }

one_sector-IsReady : IsReady one_sector
unfolding still_waits
one_sector-IsReady = record { waiting = (refl, (refl, tt)); ends = refl; whole = refl }

narrow_drive_found : Vector.get two_drives.drives (pos 0) ≡ ok narrow_drive
unfolding Vector.get
narrow_drive_found = refl

wide_drive_found : Vector.get two_drives.drives (pos 1) ≡ ok wide_drive
unfolding Vector.get
wide_drive_found = refl

read_sectors_lem_example :
    (b : Bus) × (cs : List (ℕ × ℕ)) × (read_sectors two_drives
        (pos 0)
        0x1234567
        1
        (record { answers = 0xE0 ∷ answers_for (one_sector ∷ []) (7 ∷ []); log = [] })
      ≡ ran (bytes_of (map u16 (words_in (one_sector ∷ [])))) b)
    × (b.answers ≡ 7 ∷ [])
    × (commands b.log ≡ ((get_ide_controller 0).ports1_base + 7, 0x20) ∷ cs)
    × Named false (get_ide_controller 0).ports1_base 0 0x1234567 1 cs
read_sectors_lem_example =
    read_sectors_lem two_drives (pos 0) narrow_drive 0x1234567 1 0xE0 (one_sector ∷ []) (7 ∷ []) []
      narrow_drive_found refl (omega arith) (λ e. refl) refl (omega arith) (one_sector-IsReady, tt)

write_sectors_lem_example :
    (b : Bus) × (cs : List (ℕ × ℕ)) × (write_sectors two_drives
        (pos 1)
        0x123456789AB
        1
        (bytes_in (one_sector ∷ []) [])
        (record { answers = states_for (one_sector ∷ []) (0x80 ∷ 0x50 ∷ []); log = [] })
      ≡ ran tt b)
    × (b.answers ≡ [])
    × (commands b.log
        ≡ ((get_ide_controller 1).ports1_base + 7, 0xEA)
          ∷ ((get_ide_controller 1).ports1_base + 7, 0x34)
          ∷ cs)
    × Named true (get_ide_controller 1).ports1_base 1 0x123456789AB 1 cs
    × (words_sent b.log ≡ at_port (get_ide_controller 1).ports1_base (words_in (one_sector ∷ [])))
write_sectors_lem_example =
    write_sectors_lem two_drives (pos 1) wide_drive 0x123456789AB 1 0 (one_sector ∷ []) []
      (0x80 ∷ []) 0x50 [] [] wide_drive_found refl (omega arith) (λ e. cc) refl (omega arith)
      (one_sector-IsReady, tt) (refl, tt) refl

abbrev no_drives : IdeDriver
no_drives = record { number_of_drives = 0; drives = record { nodes = []; vector_size = 0 } }

-- A disk of 0x20000 sectors with LBA, without the mode of 48 bits.
abbrev identity : List ℕ
identity = set (set (replicate 256 0) 49 0x200) 61 2

abbrev master_disk : Place
master_disk = disk 0x50 (0x80 ∷ []) 0 (0x50 ∷ []) 0x58 identity

-- A device that is no ATA disk.
abbrev no_disk : Place
no_disk = other 0x50 [] 0 [] 1

detect_drives_lem_example :
    (after : List PortEvent) × (detect_drives no_drives (record {
      answers =
          answers_of master_disk (answers_of absent (answers_of no_disk (answers_of absent [])));
      log = [];
    })
      ≡ ran
          (with_drives no_drives (
            found_at 0 0 master_disk
            ++ (found_at 0 1 absent ++ (found_at 1 0 no_disk ++ found_at 1 1 absent))))
          (record { answers = []; log = after }))
    × (commands after
        ≡ (0x177, 0xEC)
          ∷ (0x176, 0xB0)
          ∷ (0x177, 0xEC)
          ∷ (0x176, 0xA0)
          ∷ (0x1F7, 0xEC)
          ∷ (0x1F6, 0xB0)
          ∷ (0x1F7, 0xEC)
          ∷ (0x1F6, 0xA0)
          ∷ [])
detect_drives_lem_example =
    detect_drives_lem master_disk absent no_disk absent no_drives [] []
      (refl, (refl, tt), refl, (refl, tt), refl, refl, refl) tt (refl, tt, refl, tt, refl) tt

master_is_identified : identified 0 0 identity ≡ record {
  channel = 0;
  drive_in_channel = 0;
  supports_lba = true;
  uses_48_bits_mode = false;
  sector_size = 512;
  number_of_sectors = 0x20000;
}
master_is_identified = refl

-- A configuration space with an IDE controller, in compatibility mode, at every address.
abbrev ide_everywhere : ℕ → ℕ
ide_everywhere address = 0x01018000

abbrev pci_device : PciDevice
pci_device = record { bus_number = 0; device_number = 1; function_number = 1 }
