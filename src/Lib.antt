-- ===== src/Lib.antt =====
-- Verification of the xv6-riscv kernel in G14_Project1_xv6CustomizeSystemCalls/xv6-riscv/kernel, with
-- the system calls that the project adds: process queries, a limit on children, waitpid and
-- getchildren, threads as processes, signals and message passing. Paths below are from that folder.
--
-- The parts, and the file that models each:
-- - Process.antt and the files under Process/: proc.h and proc.c. The state is `Kernel W`, the table
--   `proc[NPROC]` as a function from the index to an entry (`Proc`), with `nextpid`, `initproc` and
--   the state `W` of the components that proc.c calls. Those (kalloc.c, vm.c, file.c, fs.c) enter as
--   the operations of the record `Services W`, an interface that the functions take as a parameter.
--   Process/Alloc: procinit, allocpid, allocproc, freeproc, proc_pagetable, proc_freepagetable;
--   Process/Fork: kfork, thread_fork, userinit; Process/Sleep: sleep, wakeup, yield, the scheduler's
--   choice, kkill, setkilled, killed; Process/Exit: reparent, kexit; Process/Wait: kwait, kwaitpid;
--   Process/Query: kgetproccount, kgetprocinfo, kgetchildren and the handlers of sysproc.c over them;
--   Process/Ipc: kipc_send, kipc_recv; Process/Signal: sys_signal, sys_sigsend, ksigsend,
--   sys_sigreturn and the delivery in usertrap of trap.c; Process/Memory: growproc, sys_sbrk.
--   Process/Inv has the table's invariant, a file for each group of calls that keep it, and in
--   Process/Inv/Steps the step relation over all the calls, in which an exit is three steps and
--   fork_count, which no lock guards, may change at any time. Forking, Exiting, Reaping, Children,
--   Mailbox, Handlers, Heap and FreeSlots under Process/ have the theorems on single calls.
-- - Pipe.antt: pipe.c, a ring of bytes between two free-running 32-bit counters.
-- - Cstring.antt: string.c, over memory as a function from addresses where pointers may overlap,
--   and over lists of bytes for strings. kfork and kgetprocinfo call its `safestrcpy`.
-- - Kalloc.antt: kalloc.c, the free list through the first words of the free pages; Kalloc/Free
--   relates it to the list of the free pages.
-- - Spinlock.antt: spinlock.c as one CPU runs it, with the nesting of `push_off`.
-- - Log.antt: log.c. The disk is the log's header, its blocks and the home blocks; `commit` and
--   `recover_from_log` are the lists of the disk writes that they make, so that a crash is a stop
--   after any of them (`Crashed`). The buffer cache is a function, what `bread` returns for a home
--   block. Log/Writes has what some or all of the writes do, Log/Crash crashes and recovery.
-- - Sleeplock.antt: sleeplock.c. An acquiresleep is the rounds between its sleeps.
-- - Bcache.antt: bio.c and buf.h, the list of recently used buffers as the order of their indices.
--   Bcache/Inv has what makes a cache valid, Bcache/Read what a block's latest content is, Bcache/Calls
--   the calls, Bcache/Locked bread with its acquiresleep.
-- - Bitmap.antt: the free map of fs.c, balloc, bfree and bzero, over blocks as functions from offsets to
--   bytes and the list of logged blocks. Bitmap/Bits has a change of one bit, Bitmap/Alloc the scan,
--   Bitmap/Outcome the calls.
-- - Inode.antt: bmap, itrunc, iupdate, stati, readi and writei of fs.c. Inode/Blocks has the content as a
--   sequence of bytes, Inode/Reading readi, Inode/Writing writei, Inode/Bytes and Inode/Update iupdate; Inode/Directory has
--   dirlookup, dirlink and ialloc, Inode/Lookup the search. The copies to and from memory are the record
--   `Copies W`.
-- - Itable.antt: the table of inodes in memory, of fs.c. Itable/Get has the scan of iget, Itable/Unique
--   the invariant, Itable/Calls iget and iput. What the calls do on the disk is the record `InodeDisk W`.
-- - PathName.antt: skipelem, namex, namei and nameiparent of fs.c. PathName/Elements relates skipelem to
--   the pieces of a path between slashes, PathName/Walk the loop of namex to them. Inodes, their locks
--   and look-ups are the record `Tree S`.
-- - Vm.antt: walk, walkaddr, mappages and ismapped of vm.c, over the 64-bit entries of each page, the
--   bytes and the list of free pages. Vm/Entries reads a page table as a map from addresses to entries
--   and says when its pages are a tree; Vm/Store and Vm/Grow have the two changes of a tree, Vm/Walk
--   walk, Vm/Map mappages, Vm/Lookup the reads, Vm/Translate a read after a mappages. Vm/Space has uvmcreate, uvmunmap, uvmalloc, uvmdealloc,
--   uvmcopy, uvmclear, kvmmap and vmfault, Vm/Unmap uvmunmap's effect; Vm/Copy has copyout, copyin and
--   copyinstr, Vm/CopyIn what copyin reads.
-- - Shell.antt: the parser of ../user/sh.c. Shell/Print writes a command as a line; Shell/Words, Simple,
--   Core and Levels follow the parser over that line, for Shell/RoundTrip.
-- - Files.antt: file.c but filestat, and argfd, fdalloc, sys_dup and sys_close of sysfile.c. The
--   state is `Process W`, the table of files and the descriptors of one process; pipes, devices and
--   inodes are the record `Targets W`. Files/Counts and Files/Descriptors have the reference counts,
--   Files/Transfer the transactions of filewrite.
-- - UserLib.antt: printint of ../user/printf.c and atoi of ../user/ulib.c; `buf` is its 20 bytes.
--   UserLib/Numbers relates the two.
-- - Commands.antt and the files under Commands/ are from G14_Project2_1_Linux_Commands/src: Wc is
--   custom_wc.c, Echo is custom_echo.c, Grep is custom_grep.c. Streams, arguments and output are lists
--   of bytes; what `printf` prints is data. Grep/Lines has `read_line` with its allocation, Grep/Select
--   the lines selected, Grep/Main the options and files, Echo/Escapes and Echo/Quoted `-e`,
--   Wc/Counting the counts.
-- - Prelude.antt: tests, lists as C arrays, words, signed ints, bits, and tables with their searches.
--
-- How the code is read. A function is modelled as the sections that run under its locks: `wait_lock`
-- and the per-entry locks for the table, `pi->lock` for a pipe. A section ends where the call returns
-- or sleeps (`Round` and `Stop` say which), and the section after a wakeup is the same function again,
-- from the index that the pipe's write had reached. `kexit` ends at its call of `sched`; it, a fork and
-- `iput`, which take their locks several times, are run whole in the theorems on a single call, and an
-- exit is three of the steps in Process/Inv/Steps. Interleavings
-- are sequences of sections: `Section` and `run` for a pipe, `Step` and `Reach` for the table. A panic
-- or a write through a null pointer is `none`; a null pointer result is 0 or `none`.
--
-- Bounds. Loops over the table recur on the number of entries left, 64 at the start, loops over a
-- buffer on the bytes left, and loops over pages on the pages left: every function is total. The loops
-- of Commands that read several bytes a round have fuel, a round for each byte of their input and one
-- more, and so have namex (the bytes of the path), filewrite, readi and writei (the bytes to move),
-- dirlookup (the entries and one), balloc (the blocks of the map), printint (the room in its buffer)
-- and the parser of sh.c (8, and 4 for each byte of the line), each with a theorem that it is enough.
-- `int` flags are Booleans, a pid is a 32-bit pattern, `fork_count` an integer (the limit keeps it far
-- from overflow for all processes but init, whose counter is not bounded by the code), `sz` a 64-bit
-- word with its wrap-around written out. The invariant needs that pids have not run out: a fork step
-- asks for nextpid + 1 < 2 ^ 31.
--
-- Not modelled: the memory order; freewalk, uvmfree and kvmmake of vm.c; ireclaim and fsinit of fs.c;
-- traps but for the signal delivery; devices; user programs but for UserLib and Shell, and of sh.c
-- what runs a command. In Process `uvmalloc`, `uvmdealloc`, `copyin` and `copyout` are operations of
-- `Services`, and in Itable and PathName what the disk does is an interface too; a theorem that relies
-- on what they return says so.
pub mod Prelude
pub mod Pipe
pub mod Cstring
pub mod Process
pub mod Log
pub mod Kalloc
pub mod Spinlock
pub mod Shell
pub mod Sleeplock
pub mod Bitmap
pub mod Inode
pub mod Itable
pub mod PathName
pub mod Vm
pub mod Files
pub mod UserLib
pub mod Bcache
pub mod Commands
