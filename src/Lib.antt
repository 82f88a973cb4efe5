-- ===== src/Lib.antt =====
-- Verification of the kernel of BleskOS, a 32-bit operating system written in C.
--
-- The parts and how they interact. `Memory` has the memory routines on which everything rests.
-- `Allocator` hands out pages of physical memory; it clears and copies them by the routines of
-- `Memory`. `Scheduler` keeps the table of kernel tasks that the timer interrupt serves. `Qoi` has
-- the codec of an image format, `Utf8`, `Strings` and `Numbers` handle texts, `Calendar` has the
-- dates, `Crc` the checksum, `ByteStream` and `BitStream` collect output, `Lz77` repeats it,
-- `Sectors` reads and writes files, `Partitions` keeps the list of what can be mounted, and
-- `PhysicalMemory` makes the allocator of the memory map at the start.
--
-- Memory.antt, Memory/: source/libraries/basic/c_library.c, and the functions
--   `add_space_to_memory_area` and `remove_space_from_memory_area` of
--   source/libraries/basic/strings.c. The memory is a function from a 32-bit address to a byte.
--   Pointers count on without bound and are reduced by 2 ^ 32 where they are read or written. Each C
--   loop is a function of its own, recursive on the rounds left. `Clear`, `Copy` and `Area` relate
--   them to what the area holds afterwards, byte by byte. `Holds` has bytes that stand in memory.
-- Allocator.antt, Allocator/: source/drivers/system/memory/allocator.c and allocator.h. The state is
--   the structure `memory_allocator_t` with its array of entries; `Table`, `Take`, `Give` and `Calls`
--   hold the functions in the order in which they call one another, and the other modules prove. A
--   read of `entries[0xFFFFFFFF]` is the header field that it reaches in C; an allocation there is
--   `none`. The entries stand in a list and not in the byte memory, so that the memory functions are
--   used on the allocated pages alone, and `remove_entry` is the list form of
--   `remove_space_from_memory_area`.
-- Scheduler.antt, Scheduler/: source/drivers/system/scheduler.c and scheduler.h. A function pointer
--   is a number. What a called task does is a parameter, since any task may change the table. The
--   interrupt's loop reads the number of tasks again on each round, hence its fuel: one round more
--   than the 20 slots is enough.
-- Qoi.antt, Qoi/: source/libraries/graphic_formats/qoi.c, the loops over the pixels. A pixel is the
--   record of the four bytes of its `dword_t` in the order of memory. The decoder reads the byte
--   memory (`Decode`), and the encoder gives the list of the bytes that it writes one behind the
--   other (`Encode`). `Bytes` has the chunk bytes, `Index` the two index arrays, `Chunks` and
--   `Choice` one round of the loops, `Relation` how their states belong together, and `Size` the
--   length of the file. The bytes of the header and of the ending, and the reading of the header, are
--   not modelled.
-- Strings.antt, Strings/: source/libraries/basic/strings.c. A string is what stands at each index
--   from its first character on. The comparisons read on until a 0, hence their fuel.
-- Numbers.antt, Numbers/: source/libraries/basic/math.c: byte order, digits, numbers in strings.
-- Calendar.antt, Calendar/: `convert_unix_time` of math.c; 137 rounds are enough for its loop, since
--   a time of 32 bits is less than 137 times 365 days.
-- PhysicalMemory.antt, PhysicalMemory/: source/drivers/system/memory/physical_memory.c and ram.c. The
--   memory map of the BIOS is the list of its entries, and what the memory of the allocator held
--   before is an argument.
-- Crc.antt, Crc/: source/libraries/checksums/crc.c.
-- Lz77.antt, Lz77/: source/libraries/decoders/lz77.c.
-- Partitions.antt, Partitions/: source/drivers/filesystems/list_of_connected_partitions.c. Each round
--   of a loop over the entries touches its own entry and the state beside the list, hence the
--   recursion on the list. What the file systems read is a parameter. `Removed`, `Added` and `Selected` prove.
-- PartitionTable.antt, PartitionTable/: source/drivers/filesystems/partitions.c. The sectors that are
--   read are bytes by their offset, and the loop over the entries of a GPT table has as much fuel as it
--   has entries. Adding a partition to the list of those connected is a parameter, for which
--   Partitions.antt has the function.
-- ByteStream.antt, ByteStream/: source/libraries/decoders/byte_stream.c. The calls of the allocator
--   are parameters, with their laws in the records `IsRealloc` and `IsCalloc`: both may fail, and the
--   laws are about the calls that succeed, and about a reallocation of the null pointer, which fails.
-- BitStream.antt, BitStream/: source/libraries/decoders/bit_stream.c and huffman.c. The position is
--   the pair of the two global variables; a Huffman table is the list of its entries beside its two
--   counters. A mask of more than 24 bits, which is past the end of its array, is 0; the theorems ask
--   for fewer.
-- Sectors.antt, Sectors/: source/drivers/filesystems/descriptor_of_file_sectors.c. The device, the
--   test of the key, the memory calls and the machine that they change are parameters; the number of
--   sectors of a request to read_storage_medium and write_storage_medium is cut to a byte, as in their
--   signature. The descriptor is a value, whose counters stay where its stream moves to a larger block;
--   that block is taken to be had. A loop over one run has as much fuel as the run has sectors.
--   `Sequence`, `Cases` and `Runs` are about the descriptor, `Each` and `Whole` about the loops that read and
--   write.
-- Fat.antt, Fat/: source/drivers/filesystems/filesystem_fat.c. A volume is what the code keeps of the
--   file system beside the sectors of the medium; which of them fail, and what a failed read leaves
--   behind, are fields. The loops over a chain have as much fuel as there are clusters, which is their
--   bound in the code. Reading and writing the data of a file are parameters, for which Sectors.antt has
--   the functions. `Table`, `Cache`, `Read` and `Write` are about the sector in memory, `View` and `Put`
--   about the entries, and the others about files.
-- Utf8.antt, Utf8/: source/libraries/text_formats/utf-8.c. A text of 16-bit characters is the list of
--   them, and where the list ends stands a 0; UTF-8 is read from the byte memory and written as the
--   list of its bytes. `Tables` checks every character by evaluation.
--
-- Base.antt, Base/: shared names, tests on numbers, lists with native indices, casts, sums, and the
--   laws of the operations on binary digits.
--
-- Not modelled: drivers that only talk to devices, drawing, the programs with their windows, the
-- assembly sources, and the copies of other projects' libraries (minimp3, nanojpeg, the GIF and JPEG
-- writers), which are other projects' code or have no state of their own beside a device; and the
-- folders of the FAT file system, the other file systems, the other decoders and image formats, XML
-- and the network protocols. Arithmetic on floating point numbers has no model here.
pub mod Base
pub mod Memory
pub mod Allocator
pub mod Scheduler
pub mod Qoi
pub mod Utf8
pub mod Strings
pub mod Numbers
pub mod Calendar
pub mod PhysicalMemory
pub mod Crc
pub mod Sectors
pub mod ByteStream
pub mod BitStream
pub mod Partitions
pub mod Lz77
pub mod Fat
pub mod PartitionTable
