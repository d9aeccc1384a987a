-- ===== src/Lib.antt =====
-- An xv6-like teaching kernel for RISC-V: a model of its core and what it guarantees.
--
-- The kernel's parts call each other downwards. Spin locks (kernel/spinlock.c) protect every
-- shared structure; the page allocator (kernel/kalloc.c) keeps the free pages of memory in a list
-- that runs through the pages themselves; pipes (kernel/pipe.c) move bytes between two processes
-- through a ring in one page; the log (kernel/log.c) makes the disk writes of a file system call
-- atomic over the buffer cache (kernel/bio.c); processes (kernel/proc.c) wait for each other by
-- `sleep` and `wakeup`, on which the sleep locks (kernel/sleeplock.c) stand, in address spaces of
-- their own (kernel/vm.c); open files (kernel/file.c) are pipes, devices or inodes, which
-- kernel/fs.c keeps in blocks of the disk and finds by their paths. kernel/string.c has the memory
-- and string functions that all of them use. System calls (kernel/syscall.c, kernel/sysfile.c,
-- kernel/sysproc.c) are the way in for user programs, which have user/ulib.c and the allocator
-- user/umalloc.c; kernel/virtio_disk.c is the disk's driver, below the buffer cache.
--
-- Which file models what:
--   Prelude        shared names, Boolean tests on numbers, lists over native numbers, `Outcome`
--                  (a result, a panic, or a wait), maps as functions
--   Spinlock       kernel/spinlock.c with `struct cpu` of kernel/proc.h: `initlock`, `push_off`,
--                  `pop_off`, `holding`, `acquire`, `release`. Nesting is about interrupt
--                  disabling, Sections about a lock's sections on one CPU, and Race has any number
--                  of CPUs and one step for each shared access of `acquire` and `release`.
--   StringOps      kernel/string.c over byte-addressed memory: Move, Compare and Copy
--   Kalloc         kernel/kalloc.c: `kinit`, `freerange`, `kfree`, `kalloc`, each with its lock.
--                  Frames and FreeList say which pages the list has; Boot is about `kinit`.
--   Pipe           kernel/pipe.c: the pipe of `pipealloc` (`pipe_init`), `pipeclose`, `pipewrite`,
--                  `piperead`. Ring is the queue in the ring, Write and Read are the two calls,
--                  Fifo is any sequence of calls.
--   Log            kernel/log.c: every function. Disk is what it uses of kernel/bio.c, Head the
--                  header block, Budget and Space the room that `begin_op` reserves, Commit the
--                  writes of a commit, Replay and Crash what recovery makes of a part of them,
--                  Atomic and Again the crashes during a commit and during recovery.
--   Proc           kernel/proc.c: `procinit`, `allocpid`, `allocproc`, `freeproc`, `kfork`,
--                  `reparent`, `kexit` (as `exited` after its test), `kwait`, `sleep`, `wakeup`,
--                  `yield`, `scheduler` (as `dispatch`), `kkill`, `setkilled` on the table. Slots
--                  is about loops over it, Life has `kfork`, `reparent`, `kexit` and `kwait`;
--                  Pids, Alike, Preserve and Reach are about process ids, Wake, Orphans, Exit and
--                  Wait about the operations one by one. SleepWake has `sleep` and `wakeup` of two
--                  processes an access at a time, NoLostWakeup their interleavings.
--   Sleeplock      kernel/sleeplock.c: every function, over Proc; Handover follows one waiter
--                  across a release.
--   Console        kernel/console.c with `uartputc` of kernel/uart.c: `consoleputc`,
--                  `consoleputs`, `consoleputuint`, `consolewrite`, `clear_screen`, `goto_xy`,
--                  `clear_line`. Digits is the decimal notation, Output what is printed.
--   File           kernel/file.c: `filealloc`, `filedup`, `fileclose`, `fileread`, `filewrite`. Refs
--                  has the references that are held, Chunks the pieces that a write is cut into.
--   Bio            kernel/bio.c: `binit`, `bget`, `brelse` on the ring of buffers with its pointers.
--                  Ring says which buffers it has, in order; Release is about `brelse` and `binit`,
--                  Lookup about `bget`.
--   Vm             kernel/vm.c: `walk`, `walkaddr`, `ismapped`, `mappages`, `kvmmap`, `uvmcreate`;
--                  Space has `uvmunmap`, `uvmalloc`, `uvmdealloc`, `freewalk`, `uvmfree`, `uvmcopy`
--                  and `uvmclear`, Copy has `vmfault`, `copyin`, `copyout` and `copyinstr`. Tree,
--                  Grow and Walk are about the pages of page tables, Pages about ranges of
--                  addresses, MapPage and Map about `mappages`, Unmap about `uvmunmap`, Fresh,
--                  Round, Undo and Alloc about `uvmalloc`, Fault about `vmfault`, UserBytes about
--                  `copyin`. Processes has `proc_pagetable`, `proc_freepagetable` and `growproc`
--                  of kernel/proc.c.
--   Fs             kernel/fs.c: `bzero`, `balloc`, `bfree`, `bmap`, `itrunc`, `iupdate`; Inodes has
--                  `iget`, `idup`, `ialloc`, `ilock`, `iunlock`, `iput`, `iunlockput` and `ireclaim`,
--                  Content has `stati`, `readi` and `writei`, Names has `namecmp`, `dirlookup`,
--                  `dirlink`, `skipelem` and `namex`. Bits, Blocks and Balloc are about the free
--                  map, Bmap and Indirect about `bmap`, Readi about `readi`, Slots about `iget`,
--                  Paths about `skipelem`.
--   Sysfile        kernel/sysfile.c on descriptors: `argfd`, `fdalloc`, `sys_dup`, `sys_close`,
--                  `sys_pipe`, with `pipealloc` of kernel/pipe.c and the loops of `kfork` and `kexit`
--                  over open files. Tables, Calls, Pipes and Loops are about one call, Family about
--                  all processes. Links has `sys_link`, `isdirempty` and `sys_unlink`, Creation has
--                  `create`, `sys_open`, `sys_mkdir`, `sys_mknod` and `sys_chdir`, over Fs.
--   Syscall        kernel/syscall.c: `fetchaddr`, `fetchstr`, `argraw`, `argint`, `argaddr`,
--                  `argstr`, `syscall`; and `sys_sbrk` of kernel/sysproc.c, which Sbrk is about.
--   VirtioDisk     kernel/virtio_disk.c: `alloc_desc`, `free_desc`, `free_chain`, `alloc3_desc`,
--                  `virtio_disk_rw` (as `submit` and `finish`), `virtio_disk_intr`. Owned and Chains
--                  are about descriptors, Requests and InFlight about requests.
--   Umalloc        user/umalloc.c: `free`, `morecore`, `malloc`. Ring is the list of free blocks,
--                  Place, Behind and Free are about `free`, Carve, Search and Malloc about `malloc`.
--   Ulib           user/ulib.c: `strcpy`, `strcmp`, `strchr`, `gets`, `atoi`, `memmove`, `memcpy`.
--                  Agree compares with kernel/string.c; Strings and Lines are the others.
--   Tests          runs on concrete inputs
--
-- How the state corresponds: a record has the fields of the struct, a pointer is its address with
-- 0 for null, or a slot of an array. A `uint` that wraps keeps its `% 2 ^ 32`. Where the code
-- panics the result is `panic` with its message, where it spins or sleeps it is `blocked` or, in a
-- pipe, the channel and the round reached. A section under a lock is one step; Spinlock/Race has
-- the lock itself, and Proc/SleepWake the locks around `sleep`, in smaller ones.
--
-- Page tables and blocks: a pointer to a page-table entry is a page and an index. Pages that hold
-- page tables and pages that hold bytes are told apart by their use, as are blocks that hold
-- bytes, words or inodes. In the proofs each page of a page table has an owner (Vm/Tree): its
-- table and the addresses that it serves.
--
-- Bounds and fuel: a loop over a counted range is a recursion on the rounds left. `freerange` and
-- the string functions that stop at a NUL loop on fuel: the number of pages is enough for the
-- first, and for the others one more than the length of the string. `filewrite`, `copyin`,
-- `copyout`, `copyinstr`, `readi` and `writei` move at least one byte a round, so that as many
-- rounds as bytes are enough (one more for `filewrite`), and `bget` needs one round more than
-- there are buffers. `freewalk` goes three levels down, the depth of a page table; `dirlookup`
-- needs no more rounds than the directory has bytes, and `namex` one more than the path has
-- characters. The digits of a `uint` need 10 rounds. A crash of the log may come after any number
-- of disk writes; a single block is written whole or not at all. Physical addresses stay below 2 ^
-- 56, and no sum of two addresses wraps around.
--
-- A chain of descriptors has no more links than there are descriptors, and `virtio_disk_intr` no
-- more rounds than a 16-bit counter has values. `free` of user/umalloc.c goes round its list at
-- most twice; `malloc` looks at each block once, then at the memory that it gets.
--
-- Not modelled: programs (kernel/exec.c), kernel/printf.c, user/printf.c and mkfs/mkfs.c, which are
-- parts of their own; of kernel/sysfile.c the calls that only pass on to kernel/file.c, of
-- kernel/sysproc.c those that only pass on to kernel/proc.c or read the clock; of kernel/fs.c the
-- super block's reading, of kernel/vm.c the kernel's own page table; devices, traps, start-up and
-- assembly, which are hardware state. Memory is sequentially consistent: `__sync_synchronize` is no
-- step.
pub mod Prelude
pub mod Spinlock
pub mod StringOps
pub mod Kalloc
pub mod Pipe
pub mod Log
pub mod Proc
pub mod Console
pub mod File
pub mod Bio
pub mod Ulib
pub mod Umalloc
pub mod VirtioDisk
pub mod Syscall
pub mod Sysfile
pub mod Vm
pub mod Tests
pub mod Fs
pub mod Sleeplock
