-- ===== src/Lib.antt =====
-- Verification of the core of the AMQ-OS kernel: processes, threads and their scheduler, jobs, the file
-- system tinyfs; of the network the address cache and the sockets; the assembler and the text editor.
--
-- The program. process.c keeps a table of 64 processes. scheduler.c keeps a table of 256 threads, each
-- with a parent process, and a ready queue that is a linked list through the `next` fields of the
-- threads. `schedule` puts the running thread at the end of the queue and switches to the first one;
-- it is called by a thread that yields, blocks or exits, and by the timer through `scheduler_tick`.
-- tinyfs.c keeps a superblock, an allocation table of 1024 words and 256 directory entries in memory,
-- and writes them to the drive through ata.c; VFS.c resolves paths and keeps the open files on top of
-- the operations that a file system gives it. fg.c keeps a table of 32 jobs, each for a thread;
-- `sleep_ticks` blocks a thread and notes in its job when it is to wake, and `update_jobs` unblocks it.
-- memory.c keeps the list of free pages and a heap of blocks with headers on top of them.
-- arp.c keeps a cache of 32 hardware addresses, tcp.c a table of 16 sockets; both are filled and moved
-- by the packets that the driver hands to net.c. asm.c is called by the shell with the text of a
-- program, and text_editor.c by the desktop with the scancodes of the keys.
--
-- The files, and the code that they model (paths from the root of the repository):
--   Process            src/kernel/Processes/process.c and includes/process.h
--   Scheduler          src/kernel/Processes/scheduler.c: tables, ready queue, `schedule`
--   Scheduler/...      the queue as a list, its two operations, and the choice of the next thread
--   Threads            src/kernel/Processes/scheduler.c: creation, blocking, waking and exit
--   Threads/...        stacks and `switch_to_thread`, the invariant of each call, reachable states
--   Jobs               src/kernel/Processes/fg.c and sleep.c, includes/fg.h and includes/sleep.h
--   Jobs/...           the table of jobs, its update over the scheduler, timeouts
--   Memory             src/kernel/memory/memory.c: the free pages
--   Memory/Heap        src/kernel/memory/memory.c: `kmalloc` and `kfree`
--   Memory/...         what the pages are and who has them, cutting, finding and merging blocks
--   Vfs                src/kernel/VFS/VFS.c, includes/vfs.h: paths, open files, directories
--   Vfs/...            paths as names, the table of files and its histories, creation, `vfs_chdir`
--   Tinyfs             src/kernel/VFS/tinyfs.c, includes/tinyfs.h, includes/vfs.h: data and lookups
--   Tinyfs/Disk        src/kernel/VFS/tinyfs.c: what touches the drive
--   Tinyfs/Content     src/kernel/VFS/tinyfs.c: `tinyfs_read`
--   Tinyfs/Writing     src/kernel/VFS/tinyfs.c: `tinyfs_write`
--   Tinyfs/Mounted     src/kernel/VFS/tinyfs.c: the table of operations that VFS.c calls
--   Tinyfs/...         blocks, chains of blocks, mounting again, formatting, names, writing and reading
--   Arp, Arp/...       src/kernel/Network/Protocols/arp.c, and `net_htons` of Network/Drivers/net.c
--   Checksum/...       the checksums of Network/Drivers/net.c and Network/Protocols/tcp.c
--   Icmp, Icmp/...     src/kernel/Network/Protocols/icmp.c: the messages of a ping and its reply
--   Tcp, Tcp/...       src/kernel/Network/Protocols/tcp.c and includes/tcp.h
--   Asm, Asm/...       src/kernel/assembler/asm.c and includes/asm.h: encoders, words, lines, programs
--   Asm/Decode         what the bytes mean to the processor, for the theorem on programs
--   Editor             src/kernel/GUI/text_editor.c and includes/text_editor.h: the buffer and the keys
--   Editor/Cursor      src/kernel/GUI/text_editor.c: the moves of the cursor
--   Editor/Scancodes   src/kernel/GUI/text_editor.c: what a key does
--   Editor/Page        what the keys are for, on a text with a cursor
--   Editor/...         strings in arrays, the loops of the code, the buffer as such a text
--   Prelude            words, tests, lists and tables that the parts share
--   Tests              runs of the theorems at concrete states
--
-- State. A function keeps its name. A C table is a function from the index, and a pointer into it is
-- the index, `none` for NULL. Global variables are the fields of `Processes`, `Sched` and
-- `TinyfsData`, and a call takes the state and returns it. Words keep their wrap-around: u32, u64 and
-- the subtractions sub32 and sub64. An error code is `none` or `false`.
--
-- `schedule` is modelled up to the point at which it leaves its stack: the `Outcome` tells whether it
-- returned, started a thread, switched stacks or waits in `hlt`. What follows the `hlt` is
-- `schedule_after_hlt`, a step of its own, since interrupts change the state before it. The switch of
-- stacks is the pair `save_context` and `restore_context`, on memory as 64-bit words by their address.
-- The result of `kmalloc` is an argument, `kfree` adds to the list `freed`, and the address of
-- `thread_wrapper` is an argument.
--
-- Loops that poll the network card until something has happened take as an argument what each poll does
-- to the state. The code of `net_send_ipv4` is not followed: what tcp.c sends is kept in a list, and
-- whether it could be sent is an argument where the code looks at it.
--
-- The lines of the editor are arrays of characters, functions from the index. The assembler's code and
-- its text are lists of bytes.
--
-- The drive is a record of sectors and of the sectors at which an access fails. A buffer that the code
-- casts to a structure is an abstract sector with the operations of the record `Layout`, whose laws say
-- that what was put into a buffer is read from it.
--
-- VFS.c is modelled over the record `Operations`, which tinyfs fills with its own functions; what
-- creating a name must do is the law `CreateLaw`, which tinyfs keeps. Paths are lists of characters, and
-- the arrays that hold them are taken to be long enough.
--
-- Bounds and fuel. `remove_loop` runs on 256 rounds, one for each thread of the table: a queue of
-- distinct threads is not longer. `free_chain` runs on 1025: each round frees an entry of a table of
-- 1024. `kmalloc` and `kfree` follow links in memory and take a number of rounds; `kmalloc_first_fit`
-- and `kfree_ends` say how many are enough. `tinyfs_read` and `tinyfs_write` run on
-- one round for each byte that is asked for, and every round moves one at least. A 32-bit sum is folded
-- in two rounds. A line of the editor is read for 256 characters at most, and ends before. The other
-- loops of the code have fixed bounds and are recursions on the rounds.
--
-- Numbers of type int, such as pids that are returned, the next number of a job and the counts that a
-- read returns, are unsigned words or natural numbers. The table fat[1024] is a function, of which the
-- code uses the entries below 1024 on the disks that it formats. `kmalloc` of a node does not fail below
-- VFS.c. The laws of `Layout` are for numbers of any size, which 512 bytes hold only below 2^32.
--
-- Not modelled: messages on the screen, the pattern 0xCC that fills a fresh stack, the tests for NULL
-- of a file system that is not mounted, the bytes that callers keep in the heap, the field `fs` of a
-- node and its copy of the size, the bytes of a TCP segment, the waiting for a ping, the other
-- protocols of the network, what the editor draws, saves and loads, and the parts of the kernel that
-- drive hardware or draw: the drivers, the interrupt tables, the shell, the graphical interface, audio,
-- the ELF loader.
pub mod Prelude
pub mod Process
pub mod Scheduler
pub mod Threads
pub mod Jobs
pub mod Memory
pub mod Vfs
pub mod Tinyfs
pub mod Arp
pub mod Checksum
pub mod Icmp
pub mod Tcp
pub mod Asm
pub mod Editor
pub mod Tests
