-- ===== src/Lib.antt =====
-- The core of the kernel of hyeonseungOS, an xv6 with stride scheduling, a multi-level feedback queue
-- and larger files.
--
-- The parts and how they meet. A system call runs as a process of the process table. It sleeps on an
-- address and is woken by `wakeup` on it. The scheduler picks a process by the stride table and, when
-- entry 0 has the least path, by the feedback queue. A pipe is a ring of bytes that processes write and
-- read, and which puts them to sleep. A call of the file system runs between `begin_op` and `end_op`, and
-- the last one to end commits the blocks that the calls have written to the log.
--
-- Base: words of 32 bits (`add32`, `sub32`, `lt_int`), partial functions, lists, the maps that stand for
--   arrays, and `for_range` for the loops over an index.
-- Pipe: xv6-public/pipe.c. The operations stand in Pipe, the abstract queue in Pipe/Queue. The counters
--   `nread` and `nwrite` go round at 2^32, which PIPESIZE divides. The processes that sleep on the two
--   channels are counted.
-- Log: xv6-public/log.c. `Machine` holds the disk, the blocks as the buffer cache has them, and the number
--   of disk writes until the power fails; `restart` and `recover_from_log` are `initlog`. A write of a
--   block is whole or does not happen, as the disk of xv6 is taken to behave. Log/Disk says which disks can
--   be recovered; Log/Space has `begin_op`, `log_write` and `end_op`, and Log/Room and Log/Ending the room that they keep.
-- Locks: xv6-public/spinlock.c. Each instruction of `acquire` and `release` on shared memory is a step of
--   one CPU, and the order of the steps a list of CPUs; `pushcli` and `popcli` act on the CPU alone, and the
--   test of `holding` goes with `pushcli`.
-- Sleeplocks: xv6-public/sleeplock.c on the process table. A look of `acquiresleep` at the lock is a step of
--   its own. Inodes and Buffers keep only whether a sleep lock is held, and take a call that waits for one to
--   run when it is free.
-- Memory: xv6-public/string.c. The ranges of a call lie within the address space.
-- Pages: xv6-public/kalloc.c. The free pages are the chain of their first words.
-- Process: the process table of xv6-public/proc.c: `allocproc`, `fork`, `exit`, `wait`, `sleep`, `wakeup`,
--   `kill`, `yield`. A scan goes over all 64 slots. What `kalloc` and `copyuvm` return is an argument.
--   `fork` and `exit` are a step each: the slot of a new process is EMBRYO in between, and only its maker
--   touches it. `sleep` is two steps, before and after `sched`.
-- Scheduler/Stride: `path_cal`, `stride` and `set_table` of xv6-public/proc.c, xv6-public/set_cpu_share.c,
--   and what `scheduler` and `thread_exit_os` do to the entry of a process that ends. A share and a path
--   are the words that hold the `int`.
-- Scheduler/Mlfq: `MLFQ_in`, `MLFQ_out` and `MLFQ` of xv6-public/proc.c. The loops over a level have the
--   size of the level at the start as fuel, which is enough, since no round makes the level larger. A
--   null pointer that is followed gives no result.
-- Scheduler/Turn: the body of the loop of `scheduler` in xv6-public/proc.c for one slot of the process table.
--   What happens while a process runs is a function on the state.
-- Volume: the blocks and inodes of xv6-public/fs.c: `balloc`, `bfree`, `bmap`, and in Volume/Transfer and
--   Volume/Truncate `readi`, `writei` and `itrunc`. Volume/Pointers has the tree of block pointers that the
--   proofs speak of. A loop of `readi` or `writei` has the number of bytes left as fuel, which is enough,
--   since each round takes one at least; the loops over a block of pointers have its 128 entries. What the
--   function of a device returns is left open. A panic gives no result. The calls of `log_write` in fs.c are
--   left out, with their panics: the log has a model of its own. Volume/Count has the number of free blocks.
-- Threads: `mapper`, `thread_create_os`, `thread_join_os` and `thread_exit_os` of xv6-public/proc.c, on the
--   process table, the stride table and the fields of `struct proc` that the threads add. Whether `allocuvm`
--   of xv6-public/vm.c finds its pages and whether `copyout` succeeds are arguments. Threads/Stacks says
--   where the stacks lie, Threads/Disjoint what a history of calls keeps.
-- Files: the file table of xv6-public/file.c, the descriptors of one process in xv6-public/sysfile.c and
--   `pipealloc`, in Files/Pipes `sys_pipe`. Files/Transfer has `fileread`, `filewrite`, `pread_os` and `pwrite_os` on the inodes of
--   Volume. Their loops have the bytes left as fuel, which is enough, since each round writes one at least.
-- Inodes: the inode cache of xv6-public/fs.c. The fields that are on the disk too stand in Volume, by the
--   number of the inode, and their copies on the disk in `disk`; two entries in use are never for one inode.
--   `iget` looks at all 50 entries. Inodes/Last has the last `iput` of a file. A call for an entry that its
--   caller holds locked, which waits for ever, is not modelled.
-- Directory: `dirlookup` and `dirlink` of xv6-public/fs.c, and `isdirempty` of xv6-public/sysfile.c. A scan
--   takes as many rounds as the size has entries of 16 bytes.
-- Paths: `skipelem`, `namex`, `namei` and `nameiparent` of xv6-public/fs.c. The loop of `namex` has the length
--   of the path as fuel, which is enough, since each element takes a byte of it at least.
-- Buffers: the buffer cache of xv6-public/bio.c, the ring of buffers and their tags. A scan of the ring
--   has a round for each of the 30 buffers and one for the head.
-- Calls: the calls on paths of xv6-public/sysfile.c, which put Paths, Directory, Inodes and Files together:
--   `sys_link` and `sys_unlink` in Calls, `create` and its callers in Calls/Create, `sys_open` and `sys_chdir`
--   in Calls/Open. The files Held say what each function does to the references and the locks of the inode
--   cache, from `iget` up to the calls; Calls/Balance puts them together.
--
-- Not modelled: the endless loops round the body of `scheduler`, the start of the file system (readsb,
-- iinit), virtual memory (vm.c, exec.c), the user library, traps, devices, boot, mkfs and
-- the user programs. Outside Locks each critical section is taken as one step.
pub mod Base
pub mod Pipe
pub mod Locks
pub mod Sleeplocks
pub mod Log
pub mod Memory
pub mod Pages
pub mod Process
pub mod Scheduler
pub mod Volume
pub mod Threads
pub mod Files
pub mod Inodes
pub mod Directory
pub mod Paths
pub mod Buffers
pub mod Calls
