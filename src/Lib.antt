-- ===== src/Lib.antt =====
-- Models of the kernel of a toy 32-bit x86 operating system.
--
-- The kernel gives out physical memory, runs tasks, and passes messages between them. At boot the
-- page allocator (kernel/pmm.c) makes a bitmap (kernel/bitset.c) of the pages of each memory region.
-- The scheduler (kernel/scheduler.c) keeps the tasks in three linked lists (common/list.h): ready,
-- sleeping, exited. The message calls (kernel/ipc.c) keep a queue for each port, name tasks by their
-- pids, put them to sleep and wake them through the scheduler, and check a hash (common/util.c,
-- common/port.c) of every message. The heap of the kernel (kernel/heap.c) grows by frames of the page
-- allocator, which it has the page tables (kernel/vmm.c) map behind its end.
--
-- Files:
--   Base     lists, 32-bit words with the macros of common/util.h, digits of numbers, and `Outcome`:
--            a result, or the fault that stops the machine. `fail assertion_failed` is a failed
--            `assert` of common/debug.h, `aborted` a `panic` or `abort`, `out_of_range` an access
--            outside an array, `undefined` an operation that C leaves undefined.
--   Bitset   kernel/bitset.c: `struct bitset` as a record over a list of words, a function for each
--            function of the file (`insert` and `clear` are bitset_set and bitset_clear).
--   Pmm      kernel/pmm.c: the list of regions, and pmm_init, pmm_alloc, pmm_reserve, pmm_free,
--            pmm_reserved and pmm_exists over it. Pmm/Spec has the abstract view, the set of free
--            pages.
--   Heap     kernel/heap.c: the list of blocks, their release (Heap), allocation and growth
--            (Heap/Allocate), and the heap of the kernel in kernel/kmalloc.c (Heap/Kmalloc).
--            Heap/Chain has the abstract view, segments that are in use or free and lie one behind the
--            other.
--   Vmm      kernel/vmm.c: the directory and the tables of pages in physical memory; vmm_map, vmm_remap,
--            vmm_unmap, vmm_get_physical and vmm_get_flags, which reach them through the last entry of
--            the directory. Vmm/Tables has the abstract view, the entry of each page.
--   Scheduler  kernel/scheduler.c: the queues as lists of pids, with the current and the idle task;
--            the choice of the next task, the timer handler, the calls yield, exit, block, sleep and
--            fork, waking, and the I/O bitmap of a task.
--   Links    common/list.h: the links as functions of the addresses of elements, and the macros that
--            append, remove and visit. Links/Chain has the abstract view, the list of the elements.
--   Initrd   kernel/initrd.c: getsize, the loop of initrd_init over the archive, initrd_get_file,
--            initrd_read and the copy handler. Initrd/Archive has what a tar archive is.
--   Hash     hash2 of common/util.c.
--   Serializer  common/serializer.c: the values that programs put into the bodies of messages.
--   Strings  common/string.c: copying, comparing, measuring and reversing strings and blocks, and
--            reading a hexadecimal number.
--   Format   common/string.c: numbers as text, formatv, vsnprintf and vsncatf.
--   Timer    kernel/timer.c: the table of timers, timer_schedule, timer_unschedule and irq_handler.
--   Ipc      kernel/ipc.c: portopen, msgsend, msgrecv, msgwait and msgpeek over the list of ports and
--            the scheduler's state.
--
-- State is passed explicitly: a call takes the state of its file's static variables and returns the
-- new one. A handler that blocks in the middle is cut there: the part behind the block is what the
-- task runs when it is resumed. Loops are recursion over the list, or over the number of rounds that
-- are left. Three loops go by a number of rounds that the code does not name: the digits of a number,
-- of which one of 64 bits has at most 64, with 65 rounds; the loop that moves the data of a heap block
-- on to leave room for a header, which takes 31 rounds at most; and the loop that grows the heap until
-- a block fits, whose rounds are an argument: one more than the pages by which the heap may still grow
-- are enough. The visit of a linked list is given a round for each element and one more, and the walk
-- over an archive one for each of its bytes and one more. Numbers are natural numbers, reduced modulo
-- 2 ^ 32 or 2 ^ 64 where the C code computes in an unsigned type that can wrap. The headers of the
-- heap's blocks are in the state of the heap, and not in the frames that `Vmm` has: the two meet where
-- the heap grows and has a page mapped. They lie apart from the words that hold the canaries, so a
-- block that is too short for its header and a canary has no result. A write through the page tables
-- needs the writable bit of the directory's and of the table's entry. The callback of a timer is a
-- parameter that says whether it returns.
--
-- Not modelled: making, cloning, resetting and switching page directories, the program loader,
-- descriptor tables, and the programs outside the kernel. Where the other parts call kmalloc it is
-- taken to return fresh memory. Locks other than that of the heap are taken and released with
-- interrupts off within the parts modelled, so they are not in the state. FatFs
-- (userland/vfs/fat/ff.c) and dlmalloc (userland/runtime/malloc.c) are copies of other projects, and
-- common/crc32.c is generated.
pub mod Base
pub mod Bitset
pub mod Format
pub mod Hash
pub mod Heap
pub mod Initrd
pub mod Ipc
pub mod Links
pub mod Pmm
pub mod Scheduler
pub mod Serializer
pub mod Strings
pub mod Timer
pub mod Vmm
