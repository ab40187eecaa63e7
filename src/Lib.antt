-- ===== src/Lib.antt =====
-- OX is a small Unix kernel for the i386. This library models parts of it and proves what they do.
--
-- fs/: the file system reads and writes sectors through the buffer cache of fs/block.c, which calls
-- the device interface of fs/dev.c. Fs/Dev.antt has the interface; the disk driver behind it is a
-- parameter, a record of the calls with the law of a disk as a hypothesis. Fs/Block.antt has the
-- state of the cache (the static variables of fs/block.c as a record, its arrays as functions of the
-- slot) with block_read and block_write; Fs/Block/Flush.antt has block_open, block_free, block_sync,
-- the direct writes, block_close and block_reinit. The modules below them have the proofs: what a
-- block holds (Contents) is what its slot has if it is cached, and what the disk has if not, and each
-- operation is described by what it does to that. Fs/Bitmap.antt has the bits of fs/bitmap.c.
--
-- Fs/Inode.antt has the types of include/ox/fs/inode.h, and the modules below it fs/inode.c: Permission
-- has the modes and permissions, Master the table of mounted volumes, Volume the making, opening and
-- closing of one, and Map the maps of free blocks, inode_get_data_block and the three functions like
-- it. The functions for inodes and for data differ in the map alone, so each pair is one function of
-- the kind of map. These modules use the buffer cache through the interface of Fs/Inode/Device.antt,
-- which Device/Cache fills with Fs/Block.antt and Device/Ram with an array for tests. How the compiler
-- lays out a master inode in a block is a parameter. cache_close of Device/Cache is block_close as
-- inode_dev_close calls it.
--
-- Fs/Descriptor.antt has the descriptors of fs/file.c: kclose, klseek, kdup and kdup2.
-- Fs/File.antt has file_read_write of fs/file.c, its loop in Fs/File/Loop.antt, and Fs/File/Call.antt
-- kread and kwrite. A transfer is a state that each step changes, with FILE_FAIL as the other outcome;
-- block_read, block_write and inode_get_data_block are the interface FileStore, and how the compiler
-- lays out a block map and an inode is part of it. Fs/File/Layout.antt says where a file's blocks lie.
-- The modules below Fs/File take a layer of blocks where no transfer fails, which is more than
-- fs/block.c promises, so that what they prove stays a lemma there.
-- Fs/Path.antt has get_next_path of fs/paths.c over buffers, and krealpath of fs/krealpath.c. C leaves
-- undefined what an access outside of an array does: for the paths of 254 to 256 characters, where the
-- code leaves its buffers, the model gives none, as it does for an entry of kreaddir that d_name does
-- not fit and for a time in kmktime that overflows.
-- Fs/Lookup.antt has the walk of inode_get of fs/inode.c, and Fs/Lookup/Call.antt inode_get itself and
-- kreadlink of fs/link.c, which call each other: the walk takes kreadlink as an argument. The static
-- nr_recursion is part of each result. Lookup/Scan takes a directory as a list, Lookup/Walk a path as
-- steps from directory to directory, and Lookup/Link a row of links. What inode_get_inode_block gives
-- for a new root is a field of the tree, as its code is modelled in Fs/Inode/Map.antt.
-- Fs/Attribute.antt has the calls of fs/file.c on attributes: kstat, kchmod, kchown and those like them.
-- Attribute/Keep says which paths stay when an inode changes.
-- Fs/Directory.antt has kreaddir of fs/dir.c; Directory/Chain takes the block maps of a directory as a
-- list. Its loop runs on fuel of two rounds for each number passed, as in the theorem about it.
--
-- mm/: Mm/Page.antt has the page map and the allocators of mm/page.c for user and kernel pages. Their
-- static variables are the record Memory and the map is a function from the byte to its value.
-- Mm/Heap.antt has the heap of mm/kmalloc.c, which is that of mm/malloc.c with other constants: the
-- constants and the layer of pages are parameters. Headers are a function of their address, and a
-- table is known by how many tables were made before it.
--
-- kernel/: Kernel/Process.antt has the processes and the traversals of their table;
-- Kernel/Scheduler.antt has kernel/scheduler.c, Kernel/Exit.antt kernel/exit.c and Kernel/Signal.antt
-- kernel/signal.c. The store of processes is a function of the address, so that the process that runs
-- and its entry in the table are the same. A call that ends in a task switch gives the switch as its
-- result. kexit calls the scheduler, signal_exec calls kexit, and kkill sets the signals that the
-- scheduler wakes a process for. Kernel/Queue.antt has the rings of kernel/process_queue.c over
-- pointers, and the modules below it what sequence they hold; the other modules take a ring as that
-- sequence. Kernel/Mktime.antt has the calendar of kernel/mktime.c.
--
-- libk/: Libk/Ultostr.antt and Libk/Strtoul.antt have the conversions between numbers and text of
-- libk/ultostr.c and libk/strtoul.c; Libk/Ctype.antt has the character tests of include/ox/lib/ctype.h.
-- Libk/Strings.antt has comparisons and searches of libk/string.c.
--
-- Drivers/Chs.antt has the sector addresses of the disk driver in
-- platform/i386/drivers/src/block/pio/pioutil.c.
--
-- Base.antt and Bits.antt have what these share: tests on numbers, words, updates of functions, bits.
--
-- Bounds and fuel. Numbers are natural numbers; a word is one below 2 ^ 32 and the wrap-around is
-- written out. A signed word is the word that represents it. A loop over an array counts down the
-- slots that are left. The scan for a run in mm/page.c runs on fuel of the distance to its end, which
-- is enough as each round moves on by a page or more; the loop of ultostr runs on the value, which is
-- enough as each round divides it by two or more. The loop of inode_get_data_block runs on fuel of
-- twice the bits of its map and one, which is proved to be enough. The loop over the components of a
-- path runs on fuel of its longest buffer and three, which the theorem about it proves to be enough.
-- The walk of inode_get has fuel for the block maps of a directory, and kreadlink for the links that it
-- follows; the theorems about them take as much as the directories and the rows of links are long.
--
-- Not modelled: console messages, the disabling of interrupts around the allocators (one caller at a
-- time is assumed), page tables and processor state, and the parts of the kernel that Fs, Mm,
-- Kernel, Libk and Drivers do not name.
pub mod Base
pub mod Bits
pub mod Fs
pub mod Mm
pub mod Kernel
pub mod Libk
pub mod Drivers
