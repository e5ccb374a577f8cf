-- ===== src/Lib.antt =====
-- A verification library for the CNOS kernel: its data structures and operations as functions on
-- explicit states, and what makes them correct.
--
-- The physical page allocator hands pages to the page tables and to the task table. The scheduler
-- walks the task table; the IPC calls move messages between its tasks and put them to sleep and
-- awake. System calls on files check user pointers against the page tables, normalise paths, and
-- go through the virtual file system to the ext2 volume or the device files. The loaders put the
-- segments of programs into memory, out of packages whose sections and manifests they read.
--
-- - Prelude.antt: tests on numbers, indexed lists and bits of bytes, for all other files.
-- - Pmm.antt (kernel/pmm.c): the bitmap allocator, and Pmm/Boot.antt its set-up, `pmm_init`.
--   Pointers are numbers, 64-bit wraps are written out. The functions keep the names of the code
--   without `pmm_`; a loop is a function of its own.
-- - Vmm.antt (kernel/vmm.c): the page walk and the range checks on user pointers; Vmm/Map.antt:
--   the operations that change page tables. Memory is a function from addresses to 64-bit words,
--   and CR3 an argument.
-- - Process.antt, Process/Exit.antt (kernel/process.c, kernel/process.h): the table of 16 slots.
--   A pointer into the table is a slot's index, NULL is `none`; the functions keep their names
--   without `process_` where that is no clash.
-- - Sched.antt (kernel/sched.c and `schedule` of kernel/process.c): round robin.
-- - Ipc.antt (kernel/ipc.c): messages. A call that waits is split at its wait: `ipc_send` ends in
--   `queued`, `ipc_send_poll` is a test of its loop; `ipc_receive_round` is a round of the loop of
--   `ipc_receive`.
-- - Kernel.antt: the operations on the task table as the steps of one transition system, with the
--   writes to it in Process/Exec.antt (kernel/loader/user_exec.c, kernel/shell.c, kernel/user.c).
-- - Path.antt (kernel/fs/chaseros/chaseros_ext2_vol.c, kernel/fs/vfs.c): paths as lists of
--   characters; a path that fits no buffer is `none`.
-- - Vfs.antt (kernel/fs/vfs.c, kernel/fs/vfs_devfs.c): the mounted root and /dev, over an interface
--   `Ext2` to the volume, which `volume_ops` of Ext2Vol/Format.antt fills.
-- - Ext2Vol.antt (kernel/fs/chaseros/chaseros_ext2_vol.c): the volume. Memory, blocks and structs
--   are functions from byte indices, a field is read at its offset. Ext2Vol/Bytes.antt: fields,
--   copies, bitmaps; Volume.antt: attaching, reading and writing a block, over an interface `Driver`
--   to the IDE and AHCI drivers; Dirent.antt: a directory's block; Inode.antt: the metadata and the
--   lookup of a path; Files.antt: the operations that read, in `Option`; Write.antt and Format.antt:
--   those that write, in a monad `Io` whose failures keep what was written. The operations keep
--   their names without `chaseros_`. The other files there prove.
-- - Loader.antt (kernel/elf_load.c, kernel/fs/cnaf): Package.antt: headers and sections;
--   Manifest.antt: the value of a key; Memory.antt: copies within memory and from a stream;
--   Elf.antt and Cnim.antt: the two formats, in memory and behind a stream.
-- - UserFd.antt (kernel/user_fd.c): descriptors of the user program. The range checks of Vmm.antt
--   and the way a build opens a path are arguments.
-- - HybridIpc.antt (kernel/hybrid_ipc.c): the file service behind a message, and its client.
--
-- Bounds: the loops over the task table run 16 rounds, which is its size; the walk of a sender
-- queue has 17, since a queue holds a slot once; the allocator's loops run once for each page, and
-- that for a run of pages once for each start, the last of which ends the loop. The scan of a path
-- has a round for each character, and takes one at least in each; a read has a round for each byte
-- asked for, and every round but the last stores one. The range checks take their number of rounds
-- as an argument and answer `none` if it is too small. An entry of a directory takes eight bytes at
-- least, so a block of 1024 has 128 rounds; the lookup of a path has one for each character. A line
-- of a manifest takes a byte at least; the loaders' loops have a round for each value of the counter.
--
-- Not modelled: the copy of e2fsprogs, device drivers, assembly, console and shell, which are I/O
-- or third-party code; kernel/loader but for its writes to the task table; the dispatch of system calls;
-- saving and restoring registers at a switch; flushing the TLB. The boot memory map is taken to lie
-- apart from the bitmap. A copy that leaves a buffer of 1024 bytes reads on in the model, where the
-- code reads what the stack holds there. A stream is a function of offset and length.

pub mod Ext2Vol
pub mod HybridIpc
pub mod Ipc
pub mod Kernel
pub mod Loader
pub mod Path
pub mod Pmm
pub mod Prelude
pub mod Process
pub mod Sched
pub mod UserFd
pub mod Vfs
pub mod Vmm
