-- ===== src/Lib.antt =====
-- A verification library for the Sinux kernel, a small x86-64 kernel in C.
--
-- The parts, and the files that model them:
-- * Klib.Str is lib/string.c. A pointer is the list of the bytes from it to the end of its object;
--   an access outside is `none`.
-- * Klib.Printk is lib/printk.c: the text that reaches the screen. The loop over the digits takes fuel,
--   64, as many bits as a word has.
-- * Klib.Sha256 is lib/sha256.c: the round function, the buffered hash, HMAC, and the hash of a
--   password. Klib.Sha256.Padding states the standard's padding, which the code never builds whole.
-- * Mm.Phys is physical memory, identity-mapped: a function from addresses to bytes. Mm.Pmm is
--   mm/pmm.c: its bitmap lives in that memory, as in the code. Mm.Pmm.Boot is the walk over the
--   Multiboot2 tags that the code does twice before it writes to memory. Mm.Pmm.Init is `pmm_init`, with
--   the third walk, which writes as it reads.
-- * Mm.Vmm is the page tables of mm/vmm.c, over an interface to the page allocator with laws. A tree is
--   given by the level of each table; Mm.Vmm.Step is one level of a walk, Mm.Vmm.Map the whole, and
--   Mm.Vmm.Destroy the end of an address space.
-- * Mm.Pages is what the rest of the kernel asks of the page allocator, with laws, and Mm.Pmm.Instance
--   fills it with Mm.Pmm. Mm.Slab is mm/slab.c over it: a header is read and written at its page, with
--   its bitmap bit by bit, and Mm.Slab.Heap is the caches of kmalloc and those that are created. A walk
--   along a cache's lists takes fuel, of which the number of its slabs is enough.
-- * Ipc.Pipe is the ring buffer of kernel/ipc/pipe.c. A call that spins on the other end returns
--   what it has reached by then; Ipc.Pipe.Session runs reads and writes in any order.
-- * Proc.Types and Proc.Table are kernel/proc/process.h and kernel/proc/process.c. A process is
--   named by its slot in the table. Proc.Memory is the interface to the page allocator and the
--   page tables, a parameter of what uses it.
-- * Proc.Sched is the round-robin scheduler of kernel/proc/scheduler.c. It changes the process
--   table and calls the context switch, which is assembly: what it is given is kept in the state.
-- * Proc.Signal is kernel/ipc/signal.c: it finds processes in the table, wakes them through the
--   scheduler, and ends them by `proc_exit` and `sched_yield`. What a handler does is a parameter.
-- * Proc.Elf is kernel/proc/elf.c, which takes pages from the same interface and maps them; what it
--   maps and copies is kept in order.
-- * Proc.UserStack is `build_user_stack` of kernel/proc/usermode.c.
-- * Smp.Lock is arch/x86_64/smp/lock.c: each lock has a step function for one processor, and a
--   relation of the states that processors reach from the start by steps in any order. Smp.Lock.Trace
--   is the lock trace of the same file.
-- * Smp.Sched is kernel/scheduler/sched.c, with a run queue for each processor and a ring of tasks for
--   each priority; its children are the switch, load balancing, and what is proved of them. The walk
--   along a ring takes 256 rounds as fuel, as many as the process table has slots.
-- * Drivers.Keyboard is drivers/keyboard.c: the tables, the ring of characters, and the line editor
--   over the characters that come.
-- * Fs.FileSystem is the table of functions that kernel/fs/vfs.h asks of a file system, a parameter of
--   Fs.Vfs, which is kernel/fs/vfs.c; its laws are what a client relies on. Fs.Ramfs is
--   kernel/fs/ramfs.c, and Fs.Ramfs.Instance puts it behind that interface. A node is named by its
--   slot. The loop over a path takes the path's length as fuel, since every round passes a byte.
-- * Core.Auth is the accounts of kernel/core/auth.c in memory, over Klib.Sha256.Password; what they ask of
--   the file layer is kept in order. Core.Auth.File is the file of accounts: the text that is written
--   over the old one, how it is read again, and the first start. The loop over the lines takes the length of the text and one more as
--   fuel, and a user id is printed with at most 10 digits, as many as 32 bits can have.
-- * Syscall is kernel/syscall/syscall.c, over Proc.Table, Proc.Sched and Proc.Signal. The files are
--   the interface Proc.OpenFiles, and the copy of an address space is a parameter. What the
--   other processes do between the rounds of `sys_wait4` is an argument of it.
-- * Tests applies the theorems to concrete data.
--
-- Functions keep the names of the C code; a loop is a function with `_from` or a plural, with the
-- rounds left as its first argument. Those counts are the loops' own bounds. The walks over
-- the Multiboot2 information have none in the code, which runs for ever on a tag or an entry of
-- size 0: they take fuel, and `none` means that it ran out. For entries of a size that is not 0 the
-- length of the tag and one more is enough.
--
-- Numbers are natural; a machine word has its wrap-around written out where the code can reach it.
-- Not modelled: ext2, procfs, the other drivers, the rest of the SMP code, SYS_EXECVE and SYS_PIPE
-- of the system calls, the copy of an address space, the shell and the start of the kernel,
-- programs, assembly, and the messages that the modelled functions print.
pub mod Core
pub mod Drivers
pub mod Fs
pub mod Ipc
pub mod Klib
pub mod Mm
pub mod Prelude
pub mod Proc
pub mod Smp
pub mod Syscall
pub mod Tests
