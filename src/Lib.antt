-- ===== src/Lib.antt =====
-- micro-os: the kernel's memory, file systems, scheduler, locks, network stack and input drivers.
--
-- The parts, and the files that model them (paths from the repository's root):
--
--   Base       helpers: Boolean tests, lists, options, the bits of a word, and while loops.
--   Pmm        kernel/mm/pmm.c, the allocator of 4 KiB pages. Its state (`Pmm`) is the bitmap, a
--              list of 64-bit words in which a set bit is a free page, with `total_pages` and
--              `free_count`. Pmm/Defs has the single-bit operations, `pmm_alloc_page` and
--              `pmm_free_page`; Pmm/Range the two bulk operations, one definition for both, with
--              the three loops (up to a word, whole words, the rest); Pmm/Boot the passes of
--              `pmm_init` over the memory map of boot/bootinfo.h, and Pmm/BootSpec what they are
--              to leave free, said of addresses; Pmm/Popcount `popcount64`.
--              Pmm/Spec states what the allocator promises: a set of free pages.
--   Vfs        kernel/fs/vfs.c, the file tree in memory. Its state (`Vfs`) is the table of vnodes
--              and the table of descriptors. Vfs/Defs has path resolution and slot allocation,
--              Vfs/Ops the public operations. What `kmalloc` returns for a new file is an argument.
--   Sched      kernel/sched/task.c, the task table and the scheduler. Its state (`Sched`) is the
--              table with `task_count`, `current_task`, `next_id` and the registers that a switch
--              loads. `timer_ticks()`, what `kmalloc` returns, and the kernel's page table are
--              arguments. A switch is the change of `current`: what the task does once it is
--              switched back in is a later step of its caller.
--   Heap       kernel/mm/heap.c, the kernel heap: the list of blocks with split and coalescing.
--   Sync       kernel/sync.c and kernel/sync.h: spinlock, mutex and semaphore as steps of a task.
--   Timer      kernel/drivers/timer.c: the tick counter and the guard of preemption; the interrupt
--              handler is two steps, before and after the switch.
--   Vmm        kernel/mm/vmm.c, the page tables. Its state (`Vmm`) is memory as a function from the
--              address of a word, the page allocator, the kernel's root table and CR3. Vmm/Defs has
--              all the code; the other files show that the tables form a tree (Vmm/Tree), how a
--              walk goes through it (Vmm/Walk, Vmm/Extends, Vmm/Route), and mapping and new roots on
--              top of it.
--   Net        kernel/net/net.c and net.h: ARP, IPv4 and ICMP echo on lists of bytes. Its state
--              (`Net`) has the ARP cache, the ping in progress and the frames sent. What a poll of
--              the driver does to the state, and how many polls fit before a deadline, are
--              arguments. Net/State, Net/Sums and Net/Defs have the code.
--   Fat        kernel/fs/fat32.c, the FAT32 reader over a disk that is an argument. Its state is
--              `Mount`; the names of a directory walk are collected in `Lfn`. Fat/Volume has the clusters,
--              Fat/Entries the directories, and Fat/Defs the paths and the public operations.
--   Keyboard   kernel/drivers/keyboard.c: scan codes, modifiers and the ring buffer of keys.
--   Mouse      kernel/drivers/mouse.c: packets, the pointer and the cursor on the framebuffer.
--   Console    kernel/console.c and kernel/font8x16.h: the text console on the framebuffer that the
--              mouse draws on, and `kprintf`. Console/Defs and Console/Printf have the code,
--              Console/Font the glyphs. Console/Screen states what it promises, a terminal of
--              characters (`Terminal`); Console/Session lets interrupts of the mouse come between
--              the calls.
--   Syscall    kernel/syscall.c: the dispatcher and every system call, on the state of the file
--              system, the scheduler and the keyboard (`System`). The user's memory is in `Env`.
--   Str        kernel/string.c: the memory and string functions on bytes.
--
-- How they interact: the page allocator gives pages to the page tables and to the heap; the heap
-- gives file buffers to the file system and stacks to the scheduler; the mutex and the semaphore
-- call the scheduler; the console and the mouse share the framebuffer, with guards around what the
-- console draws; the system calls join the file system, the scheduler and the keyboard.
--
-- Numbers are natural numbers; where the code's unsigned arithmetic can wrap, the definitions write
-- the remainder out, but for the index of a pixel that the mouse cursor covers, as a framebuffer
-- has fewer pixels. A failed call returns `none` where the code returns a negative number or NULL.
-- Where a signed sum overflows or a call reads past a text or its arguments, which is undefined,
-- `sem_signal`, `int_to_buf` and `kprintf` return `none`; a write past the buffer of a long name is
-- recorded in its state. Loops over a table are structural recursion. The loops of the bulk
-- operations run on fuel one more than the range, which their theorems show to be enough, as the
-- theorems state the result itself; the loops over a path run on fuel of at least the path's
-- length, and each round consumes a character. The walks of a cluster chain run on the code's own
-- limit on their steps.
--
-- Not modelled: the ELF loader and the entry to user mode, which mostly join the other parts; the
-- serial port, PCI, the disk, USB and network drivers, and the interrupt tables, which move data
-- between devices and memory; the shell, the self-tests and the boot loader; interrupts during an
-- operation, which the code excludes by `cli` or a lock where it holds one.
pub mod Base
pub mod Pmm
pub mod Vfs
pub mod Sched
pub mod Vmm
pub mod Heap
pub mod Sync
pub mod Str
pub mod Timer
pub mod Console
pub mod Keyboard
pub mod Net
pub mod Fat
pub mod Mouse
pub mod Syscall
