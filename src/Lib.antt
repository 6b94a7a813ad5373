-- ===== src/Lib.antt =====
-- A verification library for TEXT_OS, a small 32-bit kernel in C++ with a text terminal.
--
-- The kernel has no C library of its own. stdlib_hooks.cpp supplies one: the memory and string
-- operations, the formatted printing and the heap. terminal_hooks.cpp owns the VGA text memory, the
-- cursor and the blinking; iostream_wrapper.cpp puts `cout` with a scrollback on top of it, and prints
-- numbers through `sprintf`. The drivers, the file system and the prompt are written over these parts.
--
-- The modules follow the sources:
--   Common       tests on native numbers, lists, bit operations as arithmetic, and integers.
--   Memory       stdlib_hooks.cpp, `memcpy`, `memmove`, `memset` and `memcmp`: memory maps an address
--                to a byte, and every loop is a function on its counter. Memory/Laws has the contracts.
--   CString      stdlib_hooks.cpp, `string_compare` to `strrchr`, over the same memory. A loop that
--                runs to the terminating zero takes fuel, and any fuel above the length of the string
--                is enough.
--   Format       stdlib_hooks.cpp, `printf`, `sprintf` and `snprintf`. The first two share one loop over
--                a sink; variable arguments are a list. Format/Text has the text that the loop sends,
--                Format/Meaning says what text a format stands for,
--                Format/Digits and Format/Numbers what the digits are. The digit loop has the 12 bytes
--                of the local buffer as its room.
--   KernelHeap   stdlib_hooks.cpp, `KernelHeap` and its hooks: the chain of headers is a list of
--                blocks. The bytes of memory are kept beside the list.
--   Terminal     terminal_hooks.cpp: the global variables are a record, and the writes to ports a
--                log. Terminal/Cursor replays the log as the CRT controller would. What a port answers
--                is a parameter.
--   Scrollback   iostream_wrapper.cpp, `TerminalOutput`, over the terminal.
--   Input        iostream_wrapper.cpp, `TerminalInput`: the entered command and the history. A character
--                array is the string it holds.
--   Interrupts   interrupts.cpp: the keyboard and timer handlers over all of these globals, the entries
--                of the descriptor tables, and the programming of the PIC and the PIT.
--   Dma          dma_memory.cpp, `DMAManager`: channels, buffers and copies through memory, with a log of
--                what is printed. The loops over chunks take the length as fuel, since a round moves at
--                least one byte.
--   Printed      what the disk code gives to `cout <<`.
--   Ahci         identify.h, the AHCI driver: registers, slots and completion in Ahci, the preparation of a
--                port in Ahci/Ports, the commands in memory and the transfer of sectors in Ahci/Commands,
--                strings in sectors in Ahci/Strings, IDENTIFY in Ahci/Identify. The controller is an
--                interface. Ahci/Decode reads a command by the layouts of AHCI and ATA, and
--                Ahci/Controller says what a port without faults does with it. The wait loop recurs
--                on the rounds that its timeout allows; the loops over strings take fuel.
--   Drive        what the file system uses of a disk: `read_sectors` and `write_sectors` of identify.h for
--                one controller and port, as an interface, and the laws of a disk without faults.
--   Fat32        kernel.cpp, the FAT32 file system over a drive. Fat32 has the table, Fat32/Chains the
--                allocation and release of clusters, Fat32/Data the contents of files, Fat32/Directory and
--                Fat32/Removal the creation and removal of files in the directory, Fat32/Stats the
--                count of the clusters, Fat32/Showing the display of a file; Fat32/Listed
--                says what entries a directory has, Fat32/Made what an entry is; Fat32/Geometry
--                says which volumes are laid out, Fat32/Links what a chain of clusters is. The loops
--                along a chain take fuel, and any fuel above its length is enough.
--   Pci          pci.cpp, the configuration space over the 32-bit ports, which are an interface. Pci/Config
--                states what a host bridge does with the ports.
--
-- Sizes are those of the 32-bit target: `size_t`, `int` and pointers have 32 bits and wrap where the
-- code can make them wrap; an `int` is its bit pattern. Memory addresses are not wrapped inside one
-- object. An operation is `none` where C leaves its behaviour undefined or its fuel has run out.
--
-- Not modelled: the wait of `operator>>` for an interrupt, the loops that fill the descriptor tables,
-- the listing of files, the boot sector and the prompt of kernel.cpp, the menus of disk.h, the probe of
-- sata.h, the scan of pci.cpp, the reports of dma_memory.cpp, terminal_io.cpp and the hardware reports.
-- boot.S and linker.ld have no C++ logic.
pub mod Common
pub mod Memory
pub mod CString
pub mod KernelHeap
pub mod Format
pub mod Terminal
pub mod Scrollback
pub mod Input
pub mod Interrupts
pub mod Dma
pub mod Drive
pub mod Fat32
pub mod Pci
pub mod Printed
pub mod Ahci
