-- ===== src/Lib.antt =====
-- Linux95 kernel: a verification of the parts of the kernel that own its memory, its processes, its
-- files, its network packets and its input events.
--
-- The parts and the files that model them:
--   Prelude: shared tests, lists, bounded searches and bit masks. A loop that looks for the first index
--     that passes a test is `find_from`, on the number of indices that it may visit.
--   Memory.Address: kernel/memory/address.hpp (align_down, align_up, the higher-half direct map) and
--     saturating_end of kernel/memory/physical.cpp.
--   Memory.PageBitmap: the class PageBitmap of kernel/memory/page_bitmap.hpp. View has the bits of the
--     bytes, Invariant what a valid bitmap is, Operations and Allocate what each operation does to it.
--   Memory.Physical: kernel/memory/physical.cpp, with valid_boot_info of kernel/boot_info.hpp and
--     maximum_usable_physical_address of kernel/memory/memory.cpp. Its two bitmaps are of
--     Memory.PageBitmap. Storage is about find_bitmap_storage, Setup about initialize, Pages about
--     allocate_page and free_page, History about any sequence of their calls and the pages that the
--     callers hold.
--   Memory.Heap: the bump heap of kernel/memory/heap.cpp.
--   Memory.Paging: kernel/memory/paging.cpp and paging.hpp, the four-level page tables in a store with the
--     allocator of Memory.Physical. Walks has the walk level by level, Trees the invariant that the tables
--     form a tree, Stepping the creation of missing tables, Mapping map_page, Queries query_page.
--   Memory.UserSpace: kernel/memory/user_space.cpp and user_space.hpp over those tables. Ranges is about
--     the check of a user's range, Copying about copy_from_user.
--   Process: kernel/process/process.cpp, process.hpp and context.hpp, the table of 16 processes and the
--     reaper. A pointer to a process is its slot. The reaper's callbacks are the record ReapOperations;
--     what they are called with is collected as a list of effects.
--   Scheduler: kernel/process/scheduler.cpp, the system calls of kernel/syscall/syscall.cpp and
--     interrupt_dispatch of kernel/arch/interrupts.cpp for the timer and the exceptions. The state is one
--     record Machine: the process table, the scheduler's variables, the processor-local state and the
--     registers CR3 and RFLAGS. run_once takes the traps that the user process will make as a list, and
--     runs them until one of them returns to the host.
--   Vfs: kernel/filesystem/vfs.cpp and vfs.hpp over any filesystem with the operations of
--     kernel/filesystem/filesystem.hpp, a record of functions on a volume.
--   Net.Bytes: the byte order functions of kernel/net/net_types.hpp and the 16-bit fields of
--     kernel/net/arp.cpp. Net.Arp: the ARP cache of kernel/net/arp.cpp and the packets that fill it.
--     Net.Ethernet: kernel/net/ethernet.cpp. Net.Bindings: kernel/net/udp_bindings.cpp. Net.Checksum: the
--     checksum of kernel/net/ipv4.cpp, icmp.cpp and udp.cpp, on which Net.Ipv4, Net.Icmp and Net.Udp
--     stand, which are those files.
--   Input.Keyboard: the classes Set1Decoder and EventQueue of kernel/arch/keyboard_helpers.hpp.
--     Input.Mouse: the class PacketDecoder of kernel/arch/mouse_helpers.hpp, and the queue and on_irq of
--     kernel/arch/mouse.cpp. Input.Fifo is what both queues promise.
--   User.Elf: inspect_elf64 and build_load_plan of kernel/user/elf.cpp.
--   Fat32: kernel/filesystem/fat32_helpers.hpp, of which the geometry (parse_bpb), the entries of the
--     allocation table and the 32-bit arithmetic; Fat32.Volume is about where clusters lie. Fat32.Files:
--     the cluster chain and read_file of kernel/filesystem/fat32.cpp from the point where it has the
--     directory entry; the disk is a function from sector numbers. Sectors, Chains and Reading are about
--     the sectors of a cluster, the clusters of a chain, and a file read from any offset.
--
-- Numbers are natural numbers with the wrap-around of the C++ type written out where it can occur. A
-- character is its code, and a path is the list of its characters before the closing zero.
--
-- Bounds and fuel: the loop of allocate_page runs on one more round than there are free pages; every
-- round that repeats takes a page, and the lemma about allocate_page shows that the fuel is enough. The
-- check of a user's range runs on the number of its pages, copy_from_user on the number of its bytes, and
-- the folding of a checksum's carries on two passes; each has a lemma that the fuel is enough. All other
-- loops run over a range that the source bounds, and their number of rounds is that bound.
--
-- Not modelled: the boot code and the direct map at start-up, load_process_image of kernel/user/elf.cpp,
-- the directories and the writing of FAT32 (the VFS has its filesystem as a parameter), device drivers and
-- port I/O, the building of ARP packets, DNS, the terminal and the desktop, and debug messages with the
-- flags that only they read. The scheduler and the reaper take the page tables as parameters. The
-- processor's cache of translations is taken to follow the tables.
pub mod Prelude
pub mod Memory
pub mod Process
pub mod Scheduler
pub mod Vfs
pub mod Net
pub mod Input
pub mod User
pub mod Fat32
