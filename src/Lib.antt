-- ===== src/Lib.antt =====
-- A model of this repository's kernel, a Unix-like system for x86, and of some user programs, with
-- theorems on its core: the write-ahead log, the buffer cache, the blocks of files, inodes, pipes,
-- processes and their schedulers, page tables, spin locks, open files and descriptors, the arguments
-- of system calls, the page allocator, the console, the memory and string routines, the parser of
-- the shell, the matcher of grep, formatted output, and string routines of user programs.
--
-- The parts, and where they are:
-- * Log models log.c, with what it uses of bio.c. Log/Disk has the machine: the disk, the buffer
--   cache and the number of block writes before the power fails; a block write is atomic. Log/Ops has
--   the operations under their C names: initlog, recover_from_log, read_head, write_head, write_log,
--   install_trans, commit, begin_op, end_op, log_write. Loops over the header's n blocks recurse on
--   the rounds left. A power failure at any point is a run with little power. The modules beside
--   these are about copying headers (Copy), scanning them (Find), what a disk means to the next boot
--   (Logical), installing (Install), recovery (Recover), commit (Commit, Crash), log_write (Write),
--   and many calls at once (Calls, Reserve).
-- * Bcache models bio.c, sleeplock.c and, for the transfer of a buffer, iderw of memide.c. Buf has the
--   list of buffers, in the order of use, that stands for prev and next; a pointer is an index in
--   bcache.buf. Get and Release have the operations, cut where another process can run: bget up to
--   acquiresleep, one round of acquiresleep, bread after it, brelse in two parts. View says what is
--   seen of a block through the cache; Change, Find, Recycle, Front and Sync are about one operation,
--   Steps and Runs about any number of processes, on disk 1, the only one that iderw serves. What the
--   holder of a buffer writes is one step with the flag that log_write sets.
-- * Fs models parts of fs.c: Disk has balloc, bfree and bzero with the bitmap, Bmap has bmap for
--   files without extents, and itrunc. A block is a function from offsets to bytes; the blocks are
--   those that the buffer cache shows, and log_write is a change of them. The source does not
--   release the last buffer of a doubly indirect block; bmap_double names it, but whether it is
--   locked is not in the state, so a lookup of such a block is one that no earlier lookup keeps
--   waiting. Rw has readi and writei for files that are no devices, writei with the iupdate of a
--   file that grows; their loops have fuel for one round for each byte. Bits and Bitmap are about
--   the bitmap, Grow, Lookup and Found about bmap, Reads and Writes about readi and writei. Path has
--   skipelem, and Elements is about it. Namex has namex over an interface, InodeOps, for its calls
--   on inodes and directories; its loop has a round for each byte of the path and one more. In the
--   program these calls are those of Icache and Dir.
-- * Icache models the inodes of fs.c: iget, idup, ilock, iunlock, iput, iunlockput, iupdate and
--   ialloc. Layout has `struct dinode` as bytes of a block. The table is a list of entries, and a
--   pointer to one is its place in it; ilock goes on from where acquiresleep returns. Words and Update
--   are about dinodes on disk, Scan and Table about iget, Alloc about ialloc, Release about iput.
-- * Dir models dirlookup of fs.c, and dirlink after its test for the name, over readi and writei of Fs
--   and the table of Icache; their loops have a round for each entry and one more. Lookup is about the
--   search of dirlookup.
-- * Vm models the page tables of vm.c, with mmu.h and memlayout.h, as words of the memory that Kalloc
--   has: Walk has walkpgdir, mappages, deallocuvm, freevm and setupkvm, User has allocuvm, clearpteu,
--   copyuvm, uva2ka and copyout. The end of the kernel and the address of its data are arguments. The
--   loops have as many rounds as there are pages in their range, or bytes to copy, which is enough.
--   Space says what a directory and its tables are, Find is about walkpgdir, Map and Pages about
--   mappages, Grow about allocuvm; Memory, Tables and Fresh have what these share. loaduvm, inituvm,
--   segments and CR3 are not in the model.
-- * Console models the input ring of console.c: consoleintr, consoleread and consolewrite. What getc
--   returns is a list of codes, and what consputc is given is recorded. The loop of control-U has fuel
--   for the distance of its two counters. Buffer and Ring are about the ring, Editor has a line editor on
--   lists, Interrupt, Reader and Typing are about the operations.
-- * Print models printf.c, and printint and cprintf of console.c, as the characters they put out. The
--   loop of printint has 16 rounds, as many as its buffer has characters. Rounds is about this loop,
--   Digits about what it prints, Agree about the two printfs.
-- * Sh models the lexer and the parser of sh.c, on a line as the list of its bytes up to the first
--   zero. Token has gettoken and peek, Parse the parsers, Result their outcomes; their recursion has
--   fuel of four rounds for each byte and four more, which is enough. Lexer and Shape are about tokens
--   and commands, Accepts about whole lines.
-- * Pipe models pipe.c: pipewrite, piperead and pipeclose, from the head of their loops to a return
--   or a sleep. The counters are 32-bit words that wrap. Pipe/Queue shows the ring as a queue,
--   Pipe/Stream is about one run of an operation, Pipe/Tasks, Pipe/Awake and Pipe/Wakeup about a
--   writer and a reader that sleep and wake each other.
-- * Proc models proc.c. Proc/Table has the process table, wakeup, kill and the calls that look a
--   process up; Proc/Life has allocproc, fork, exit, wait and clone; Proc/Sched has the three
--   schedulers. A process is named by its slot. The file table and the inode cache are an interface,
--   FileOps, that fork, exit and clone take; what kalloc and copyuvm return are arguments. The loops
--   recurse on the table. Proc/Scan and Proc/Select are about these loops, Proc/Round about one
--   round of a scheduler, Proc/Turn about the default one, Proc/ExitWait about exit and wait together.
-- * Kalloc models kalloc.c: the list of free pages is given by their addresses. The loop of
--   freerange has fuel for one round for each page below its end, which is enough. Kalloc/Range is
--   about freerange, Kalloc/Pages about clients that share the pages.
-- * Strings models string.c and the string instructions of x86.h on a memory of bytes; Move, Fill
--   and Compare are about memmove, memset, and the string routines. strlen has fuel for the bytes it
--   may look at.
-- * Spinlock models spinlock.c for one lock and any number of CPUs: Nesting is about pushcli and popcli
--   and about acquire and release on one CPU, Exclusion about many CPUs, step by step.
-- * Files models the table of open files in file.c. What fileclose closes at the end, a pipe or an
--   inode, is an interface, Closers. Count is about one operation, Shared about clients that hold
--   references.
-- * Syscall models the fetching of arguments in syscall.c (Args), and argfd, fdalloc, dup and close of
--   sysfile.c over the table of Files (Fd). The bytes below the size of a process are taken as mapped;
--   the loop of fetchstr has fuel for them. Fetch is about arguments, Dup and Close
--   are about dup and close.
-- * Extents models the extent files in bmap of fs.c; what balloc returns is an argument. Lookup has
--   the list of blocks that the extents stand for.
-- * Grep models the matcher of grep.c on strings as lists of bytes; Match has the meaning of patterns.
-- * Ulib models string routines of ulib.c, on strings as lists of bytes; Text is about them.
-- * Common has what all share: numbers, lists as C arrays, updates of functions, and the outcomes of
--   kernel code: it returns or panics (Outcome), returns or sleeps (Turn).
--
-- They meet where the source's do: Kalloc fills pages with memset of Strings; the sleep and wakeup
-- of Pipe are those of Proc, seen from one object, and Log counts its calls of wakeup, while a call of
-- begin_op that sleeps may try again at any time. Except in Spinlock, and for the sleep
-- locks of Bcache, locks are not modelled: each operation runs as a whole where the source holds
-- the lock, and interleavings are sequences of such steps (Step and Reach in Log/Calls, Pipe/Tasks,
-- Spinlock/Exclusion, Files/Shared and Kalloc/Pages, Step and Runs in Bcache).
--
-- Not modelled: the loading of programs, traps, the other system calls, devices, and the other user
-- programs.
pub mod Bcache
pub mod Common
pub mod Extents
pub mod Files
pub mod Fs
pub mod Grep
pub mod Kalloc
pub mod Log
pub mod Pipe
pub mod Proc
pub mod Sh
pub mod Spinlock
pub mod Strings
pub mod Syscall
pub mod Ulib
pub mod Icache
pub mod Dir
pub mod Vm
pub mod Console
pub mod Print
