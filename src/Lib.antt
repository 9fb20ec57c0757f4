-- ===== src/Lib.antt =====
-- AviKernel: the memory management of the kernel, its descriptor tables and interrupts, its drivers, and
-- the virtual file system with the containers that it uses.
--
-- The parts, from the bottom up, and where they are modelled:
--   * src/utils/bitmap.cpp: an array of 32-bit cells as bits. Bitmap.antt; `Cells` is the array.
--   * src/kernel/mm/physical_mgr/physical_mgr.cpp: the allocator of physical blocks of 4096 bytes.
--     PhysicalMgr.antt; the record `PhysicalMgr` holds the static members, `allocate_block`,
--     `free_block`, `mark_memory_as`, `find_memory_for_bitmap`, `fill_bitmap` and `initialize` carry the
--     methods' names. A bit of the bitmap is a block.
--   * src/kernel/mm/virtual_mgr/paging_entry.cpp, page_table_entry.cpp, page_directory_entry.cpp: the
--     entries of page tables. PagingEntry.antt; an entry is its 32-bit word.
--   * src/kernel/mm/virtual_mgr/virtual_mgr.cpp: the page tables. VirtualMgr.antt; `Machine` is physical
--     memory, cr3 and the physical memory manager, from which `map` takes the frames of new tables.
--   * src/kernel/mm/heap/heap.cpp: malloc, free and realloc over a doubly linked list of holes. Heap.antt;
--     `Store` is the memory of bytes in which the headers stand, and the heap takes frames from the
--     physical memory manager and maps them with `map`. The list's operations are in Heap/Holes.antt.
--   * src/drivers_manager/drivers/keyboard/extended_char.cpp, keyboard_ps2_driver.cpp: keys and the
--     decoder of scan codes. Keyboard.antt, with the tables in Keyboard/ScanCodes.antt and the names in
--     Keyboard/Names.antt; `Ps2Driver` holds the members, and a handler returns the calls of listeners.
--   * src/drivers_manager/drivers/pci/pci_driver.cpp, pci_device.cpp: the enumeration of the PCI buses
--     and the descriptions of devices. Pci.antt; the nested switch statements are tables.
--   * src/kernel/gdt/gdt.cpp, src/kernel/interrupts/idt.cpp: the descriptor tables. Descriptors.antt;
--     `Gdt` is the array with its count, `Idt` the array.
--   * src/kernel/interrupts/isr_manager.cpp, src/drivers_manager/drivers/pic/pic_driver.cpp: the table of
--     interrupt handlers and the interrupt controllers. Interrupts.antt; `Isrs` is the array `isrs`, and
--     what an operation does outside is a list of actions.
--   * src/libc/cstring.cpp: the C functions on strings. CString.antt; a pointer is the list of the bytes
--     from it to the end of its allocation. `memcpy` is in Heap.antt, over the memory of the heap.
--   * include/utils/vector.h: the linked list `Vector`. Vector.antt; `nodes` is the chain of nodes.
--   * src/libc++/string.cpp: the class `String`. String.antt; a record of the buffer and the size.
--   * src/fs/path.cpp: paths. FilePath.antt; a vector of strings and the kind, read from a string by the
--     constructors `path_of_string` and `path_of_c_string`.
--   * src/fs/vfs/vfs.cpp, include/fs/fs.h: the virtual file system. Vfs.antt holds the state `Vfs`, the
--     table of descriptors, `close` and `mount_fs`; Vfs/Mounts.antt finds the mounted file system of a
--     path, Vfs/Opening.antt is `open` (`open_file`), Vfs/Io.antt `io` with read and write. It uses paths,
--     and calls the file systems through the record `FileSystems` of their virtual methods.
--   * src/fs/devfs/devfs.cpp, src/drivers_manager/drivers/storage/physical_drive.cpp, storage_driver.cpp:
--     the files of the storage drives. DevFs.antt holds the state `DevFs`, the drives, `mount` and the
--     questions about files; DevFs/Sectors.antt is `io`, with reading and writing by sectors.
--   * include/utils/queue.h, src/kernel/input_manager.cpp, src/utils/time.cpp: the queue of typed
--     characters, and the clock. Input.antt; a busy loop is given what arrives while it waits, so that the
--     end of the loop is a matter of these events.
--   * src/utils/io.cpp: the ports. Ports.antt; code that talks to a device takes the device's answers from
--     a list, and leaves a log of what went over the ports.
--   * src/drivers_manager/drivers/storage/ide: the driver of IDE drives. Ide/Controller.antt are the registers
--     of ide_controller.cpp; Ide.antt is the reading and writing of sectors of
--     storage_ide_compatibility_driver.cpp, Ide/Detection.antt the search for drives, Ide/Modes.antt the PCI
--     side, Ide/Setup.antt the set-up. It uses the vectors and the PCI driver.
--   * src/drivers/screen/vga_text.cpp: the text screen. VgaText.antt; `VgaText` is the cursor, the video memory
--     and the writes to ports.
--   * src/drivers_manager/drivers/clock: the clock and its timer. Clock.antt.
--   * src/drivers_manager/drivers/video/video_driver.cpp: the frame buffer. Video.antt; `put_pixel` changes the
--     words of the memory, and the set-up maps pages with the virtual memory manager.
--   * src/fs/fat32/fat32_directory_entry.cpp: directory entries. DirectoryEntry.antt; an entry is its bytes.
--   * src/drivers_manager/drivers/drivers_holder.cpp, keyboard/keyboard_generic_driver.cpp, keyborad_driver.cpp:
--     the drivers that exist, and the listeners of keyboards. DriversHolder.antt; a driver is its address.
-- Base.antt and its children hold the shared types and tests, Bits.antt the lemmas on bits of numbers.
-- Tests.antt and its children apply the theorems to concrete states.
--
-- Numbers are native, and each wrap-around of a machine word is written out (`u8` to `u64`, `sub32`).
-- `panic`, a page fault and a read beyond a table are values of the result types (`Result` in
-- Base/Results.antt, and `Run` for the heap).
--
-- Fuel: `find_place`, `find_hole` and the operations of the heap that call them take one unit for each
-- hole and one more, since a step of these loops passes one hole of the list. `malloc` takes a bound
-- on how often it calls itself. `scroll` takes a bound on how often it is called within itself, and
-- needs one level. A loop that polls a device ends at the latest with the device's answers, where it
-- still waits. All other loops count down a number that the source gives.
--
-- Parameters: `Mmu`, the processor's translation of addresses, with the law that where both entries are
-- present and the page is a small one, the address is translated to the frame of the second entry;
-- `config`, the PCI configuration space; the addresses that the linker gives, and
-- `isr`, the addresses of the interrupt routines written in assembly; `new_chars`, what an allocation of
-- characters gives, with the law `Serves` that it gives as many bytes as it is asked for; `systems`, the
-- mounted file systems, without any law; `driver`, the storage driver, with the laws `ReadsSectors` and
-- `WritesSectors` that reading and writing up to 255 sectors of the drive, none behind its last one, reads and
-- writes its bytes; the answers of a device at the ports, and
-- `config_after`, the PCI configuration space behind what went over the ports; `exist`, what a driver
-- says of itself; `uninitialised`, what an object without a value on the stack holds.
--
-- Not modelled: caches of address translations, so that `invalidate_cache` has no effect; the aliasing of
-- a string that is assigned to itself; the registration of interrupt handlers by the drivers; the
-- construction of the drivers and their manager; what the drivers print; printf, which is a copy of a
-- public library; the C++ runtime; the entry of the kernel, which calls the other parts in order.
mod Base
pub mod Bits
pub mod Bitmap
pub mod PhysicalMgr
pub mod PagingEntry
pub mod VirtualMgr
pub mod Heap
pub mod Keyboard
pub mod Pci
pub mod Descriptors
pub mod Interrupts
pub mod Vector
pub mod CString
pub mod String
pub mod FilePath
pub mod Vfs
pub mod DevFs
pub mod Input
pub mod Ports
pub mod Ide
pub mod VgaText
pub mod Clock
pub mod Video
pub mod DirectoryEntry
pub mod DriversHolder
pub mod Tests
