-- ===== src/Lib.antt =====
-- The kernel of Liberal_OS, an xv6 for RISC-V that runs language-model agents, and the agents: the
-- parts of xv6-src/kernel and xv6-src/user that carry their logic, translated function by function,
-- and what they guarantee.
--
-- The program. An agent is a process with a role, a priority and a quota of pages (proc.h). The
-- scheduler picks by priority; growproc() and sbrk() apply the quota. An agent asks a model on the
-- host through the console, one at a time under the proxy lock; cache.c keeps the answers, in RAM
-- and in the file /cache.bin, and finds them by a hash of role and prompt or by a MinHash signature
-- of the words. A fix that an agent proposes is checked by verifier.c against the process table,
-- and an agent's state can be saved and rolled back. The agents frame their requests with
-- proxy_client.h, run as stages of a pipeline, and the evaluator resubmits a rejected fix as the
-- verdict tells. Below are the services of xv6: pages, pipes, the console, files, locks, the buffer
-- cache, the log and the blocks, paths and inode table of the file system.
--
-- The files, with the code they model (paths under xv6-src/kernel, or xv6-src/user where it says):
--   CString, Memory      string.c; a C string is the list of its bytes up to a NUL, memory is a
--                        function of the address
--   Verifier             verifier.h, verifier.c: verify_fix() and all that it calls
--   Cache/Hash, Sig      cache_fnv1a(), cache_sig(), sig_match() and sig_over_threshold() on uint64
--   Cache/Slots, Disk    the RAM table and the overlay on disk, a list of records
--   Cache/Api            cache_get(), cache_set() and cache_clear()
--   Proc, Proc/Sched     proc.h, scheduler() and yield() of proc.c
--   Proc/Memory          growproc(), sys_sbrk(), sys_setquota(), sys_setprio()
--   Proc/Life            allocproc(), freeproc(), kfork(), reparent(), kexit(), kwait(), sleep(),
--                        wakeup(), kkill(), setkilled() and killed() of proc.c
--   Syscall              checkpoints, setrole, fill_snapshot() and verifyfix of sysproc.c
--   Syscall/Responses    sys_cacheget(), sys_cacheset() and sys_cacheclear() of sysproc.c
--   Agent/Proxy, Call    user: proxy_client.h, the frames and proxy_call()
--   Agent/Stage          user: the loop of parser.c, classifier.c, rootcause.c and fixsuggest.c;
--                        Replies says what it prints of the lines of its input
--   Agent/Evaluator      user: evaluator.c, over the verifier as an argument
--   Ulib                 user: strcpy(), strcmp(), strchr(), atoi() and gets() of ulib.c
--   Grep                 user: the matcher of grep.c
--   Pipe                 pipe.c; Pipe/Queue is its ring as a queue
--   Console              console.c; Console/Ring is its ring, Edit and Line its editing, Read and
--                        Lines its reading, Write its output
--   Bio                  bio.c
--   Fs/Bitmap            balloc(), bfree() and bzero() of fs.c
--   Fs/Names             skipelem() of fs.c and the elements of a path
--   Fs/Itable            iget(), idup() and iput() of fs.c
--   Fs/Bytes, Dinode     ialloc(), iupdate() and ilock() of fs.c on the bytes of the inode blocks
--   Fs/Content           bmap() and itrunc() of fs.c over the bitmap; Refs is what a file holds, Fill
--                        and Entry what bmap() fills, Freed to Emptied what itrunc() frees
--   Fs/Reading           readi() of fs.c
--   Virtio               the descriptors of virtio_disk.c
--   File                 the table of open files of file.c
--   Log                  log.c; Log/Crash is about a loss of power within commit()
--   Kalloc               kalloc.c
--   PageTable            the Sv39 tables of vm.c, over the constants of riscv.h; Find is what a table
--                        maps, Grow to Leaf what an update of a table does to that; Map has
--                        mappages(), uvmunmap(), uvmalloc(), walkaddr() and their kin, Mapped to
--                        Round what these come to
--   Lock                 spinlock.c, sleeplock.c and sys_proxyunlock()
--   Vm                   the interface of vm.c to the process code, a record of operations
--   Prelude, Tests       shared names and lemmas; runs, and the theorems at concrete inputs
--
-- How code is modelled. A function returns the new state; a panic, a null pointer or a fault is
-- `none` or a value of the function's own. Code that may sleep is cut there: one function is the
-- stretch from one sleep to the next, and to sleep is one of its outcomes, so interleavings are
-- sequences of such stretches. The calls on files that kexit() makes may sleep too: they give the
-- whole system as it is when the process runs again, whatever the others did. The stretches run under the locks that the code takes; a spinlock is
-- modelled on its own and does not appear in the others. A uint64 or uint32 wraps as written
-- (`% 2 ^ 64`); a C int is an integer, its bound a hypothesis where a sum could leave it. A pointer
-- into a table is an index. What the code finds in memory that it has not written, such as a buffer
-- on the stack, is an argument.
--
-- Bounds. Loops over a table, a buffer or a path are recursion on it. Five loops have fuel. In
-- freerange() it is pa_end / 4096 rounds; a round frees one of the pages below pa_end, so the loop
-- ends before them. A stage and the walk over a path take at least a byte of their input in a round,
-- so one round more than its bytes is enough. consolewrite() writes a byte at least in a round.
-- The loop of C('U') in consoleintr() runs for the characters of the edited line at most, and that
-- of free_chain() for the descriptors of a chain, whose bound its caller names.
--
-- Not modelled. Of vm.c, freewalk(), uvmcopy(), the copies between kernel and user and the kernel's
-- own table; to the process code vm.c is the interface Vm. The contents of files and directories
-- (the rest of fs.c) and the file system calls (sysfile.c, exec.c) are left, or behind the interfaces
-- UserMem and Inodes. The log and the block bitmap see a block as one value, what the buffer cache
-- shows of it. Traps, devices, boot code and the context switch are machine code and device
-- registers. The host programs, the shell and the small programs of xv6, and the tests use the
-- kernel through its calls.
pub mod Prelude
pub mod CString
pub mod Memory
pub mod Verifier
pub mod Proc
pub mod Vm
pub mod Cache
pub mod Pipe
pub mod Bio
pub mod PageTable
pub mod Fs
pub mod Virtio
pub mod Console
pub mod Grep
pub mod Ulib
pub mod Agent
pub mod Lock
pub mod Log
pub mod Syscall
pub mod File
pub mod Kalloc
mod Tests
