-- ===== src/Lib.antt =====
-- os_store: a model in cubical type theory of a small 32-bit x86 kernel, and theorems about it.
--
-- The kernel boots on one processor. The parts modelled here are the byte queue (lib/fifo.c) through which
-- the keyboard (kernel/keyboard.c) hands characters to readers, the bitmap (kernel/bitmap.c) that the page
-- allocator scans, the C library functions (lib/string.c, lib/stdlib.c), the clock (kernel/time.c,
-- kernel/rtc.c, sys_time of kernel/clock.c), the text console (kernel/console.c), the page allocator
-- (kernel/memory.c), which scans a bitmap for the kernel's own pages, and the scheduler (kernel/task.c), which
-- the timer (clock_handler of kernel/clock.c) and every task that blocks call. Two parts serve many others: the
-- linked list of nodes (lib/list.c) and the lock (kernel/mutex.c), whose waiting tasks such a list holds. The
-- requests for a block device (kernel/device.c) stand in such a list as well, sorted by sector.
--
-- Files:
--   Base      shared names: lists with native indices, tests, memory, the outcome of a call
--   Fifo      lib/fifo.c; Order says what bytes a queue holds, Run compares whole runs
--   Bitmap    kernel/bitmap.c; Byte and Bits are about single bits, Scan about bitmap_scan
--   Stdlib    lib/stdlib.c
--   Cstring   lib/string.c; Length, Copy, Bounded, Compare and Search by what is proved
--   Time      kernel/time.c, set_alarm of kernel/rtc.c, sys_time of kernel/clock.c
--   Console   kernel/console.c; Invariant is the place of window and cursor, Rows the text
--   Keyboard  kernel/keyboard.c; Table is the key map, Handler the interrupt, Read the reader
--   Pages     kernel/memory.c up to free_kpage; Count counts free pages, Physical is get_one_page and
--             put_page, Kernel alloc_kpage and free_kpage, Startup memory_init and memory_map_init
--   Paging    the page tables of kernel/memory.c: link_page, unlink_page, page_fault, sys_brk and free_pde;
--             Refs and Share are about slots that map pages, Counts about references, Links about link_page,
--             Unlink about unlink_page, Fault and Write about page_fault, Brk about sys_brk, Free about free_pde
--   Task      kernel/task.c and clock_handler; Search is task_search, Schedule schedule, Sleep the sleep list,
--             Tick the timer, Files the file descriptors
--   Process   creation, fork, exit and waitpid of kernel/task.c; Table is what they do to entries, System the
--             calls of tasks in any order, Keep, Reap, Exit and Death what each call keeps, Reached the states that
--             they lead to, Family what a call does in these states. In System an exit is one step, exit_begin and
--             exit_end; free_pde, iput and close, which task_exit calls between them, have no part in it
--   NodeList  lib/list.c over a heap of nodes; Chain says which sequence a list holds, Splice and Edit are about
--             insertion and removal, Walk search and size, Order list_insert_sort, Calls single calls, Run whole runs
--   Mutex     kernel/mutex.c; Queue is about the waiting tasks, System the steps that tasks take with one lock,
--             Invariant what each step keeps, Reached the states they reach
--   Device    kernel/device.c; Elevator is the order in which requests are served, Moves what joining and leaving
--             the queue does, Turns the steps of tasks that share a device, Served the states they reach,
--             Request the second half of device_request, Install the table
--   Namei     fs/namei.c without the disk; Names is about parts of paths, Parent about the working directory
--   Bmap      balloc and bmap of fs/bmap.c, bmap over any allocator, of which nothing is assumed; Slots is where a
--             block has its place in the index tables, Lookup what bmap returns, Alloc what balloc does
--   Vsprintf  lib/vsprintf.c: number and skip_atoi, and vsprintf in Format; Digits is about the digits and the
--             width of a number, Spec says what a format prints, Scan how its parts are read, Print that
--             vsprintf prints it, Halts that it ends
--   File      the file table of fs/file.c; Offset is sys_lseek
-- The file Tests below a part holds runs of its code at concrete inputs.
--
-- How the code corresponds: a C function is the definition of its name. A structure is a record, passed in
-- and returned where the function changes it. Global variables of a driver are one record. A `u32` is a
-- natural number with `% 2 ^ 32` where the code can wrap. `char` is a byte, signed in comparisons. A call
-- that can stop the machine gives an Outcome: `panic` for a failed assertion or a call of panic, `fault`
-- for an access outside an array, `hung` for a loop that has used up its fuel.
--
-- Fuel: a loop that runs to a NUL or on a condition takes fuel, and its theorem says how much is enough and
-- that the loop returns. vsprintf has a round for each character of its format. In fifo_put and
-- keyboard_read two rounds are always enough, and in number 33, since a 32-bit number has at most 32 digits.
--
-- Not modelled: port input and output (a register that is read is an argument, one that is written a result
-- or a field), assembly, boot, interrupts as such, the disk driver (kernel/ide.c), mapping_init, copy_pde, the
-- TLB (but for its entry of address 0, which copy_page writes through), the stacks of tasks and what fork and
-- exit do to memory and files, the kernel heap (kernel/arena.c), the buffer cache (kernel/buffer.c), inodes,
-- directories and the rest of fs/, and the shell (builtin/osh.c).
pub mod Base
pub mod Bitmap
pub mod Bmap
pub mod Console
pub mod Cstring
pub mod Device
pub mod Fifo
pub mod File
pub mod Keyboard
pub mod Mutex
pub mod Namei
pub mod NodeList
pub mod Pages
pub mod Paging
pub mod Process
pub mod Stdlib
pub mod Task
pub mod Time
pub mod Vsprintf
