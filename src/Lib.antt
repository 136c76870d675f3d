-- ===== src/Lib.antt =====
-- ring3k is a user-level kernel for Windows NT programs: it runs client processes under its
-- control and serves their system calls. This library models parts of that kernel.
--
-- Parts and files:
--   * Memory: the address space of a client process, from kernel/mem.cpp and kernel/block.cpp.
--     Memory/Block.antt has the blocks of pages (`mblock`) with their states; Memory/Space.antt the
--     list of blocks and the page translation table (`insert_block`, `split_area`, `free_shared`,
--     `verify`); Memory/Search.antt the search for free areas (`find_free_area`) and the checks of
--     areas and parameters; Memory/Virtual.antt the operations that the system calls use
--     (`allocate_virtual_memory`, `free_virtual_memory`, `unmap_view`, `query`,
--     `get_kernel_address`). The other files of the folder are proofs.
--   * AllocBitmap: the allocator for shared graphics memory, from kernel/alloc_bitmap.cpp.
--   * HandleTable: reference counts and the handle table of a process, from kernel/object.cpp.
--   * Sync: semaphores, mutants and events with the tests of a wait, from kernel/semaphore.cpp,
--     kernel/mutant.cpp, kernel/event.cpp, kernel/object.cpp and kernel/thread.cpp. A handle names
--     an object of this kind too, but the two models do not share a heap.
--   * Timers: the queue of timeouts, from kernel/timer.cpp. The clock and `signal_timeout` are
--     arguments.
--   * Region: regions of the graphics interface, from kernel/region.cpp. Region.antt has rectangles,
--     regions, and the system calls on them by handle; a region lies in a heap, as one call may name
--     it twice. The files of the folder read regions as sets of points.
--   * Completion: the I/O completion ports, from kernel/completion.cpp. The number of active
--     threads is an argument; that no thread is active is a step of its own (`check_completions`).
--   * Unicode: the conversions between UTF-8 and wide characters, from kernel/unicode.cpp, as
--     functions on lists without the terminating zero.
--   * Names: directories of named objects and symbolic links, from kernel/objdir.cpp,
--     kernel/symlink.cpp and kernel/object.cpp. Names.antt has the tree of objects with `lookup`,
--     `append` and each `on_open`; Names/Open.antt `open_root` and the virtual `open`;
--     Names/Create.antt `name_object` and `object_factory::create`. They use the handle table and
--     the reference counts of HandleTable. Names/Open/Resolve.antt says what a path means.
--   * Pipes: named pipes, from kernel/namedpipe.cpp. Pipes.antt has the container, its servers and
--     clients and how they connect and part; Pipes/Messages.antt reads and writes. A call that
--     waits is split at `current->wait()`. Pipes/Reach.antt has the steps of all threads in any
--     order.
--   * MessageQueue: the message queue of a thread with its window timers, from kernel/queue.cpp.
--     It sets its time-out in the queue of Timers. A search in the list of timers gives the timer
--     with the rest of the list.
--   * Minitris: the game in programs/minitris/minitris.c, its variables as the record `Game`. The
--     folder has a file for rows (`row_full`, `move_row`), the area of a piece (`block_at_cursor`,
--     `block_fits_at`), moves, `drop_down`, `erase_rows` (Shift, Erase) and sequences of events.
--   * Status: the status codes. Prelude: shared names and lemmas.
--
-- Conventions: pointers, sizes and objects are natural numbers; what the source computes on 32 bits
-- is reduced modulo 2^32 where it can overflow. Objects live in a heap, a function from numbers,
-- and 0 is the null pointer. Coordinates of type int have 2^31 added (Prelude/Signed.antt). A
-- failed assertion, a call of `die` and a null pointer that is followed give `aborts` in the monad
-- `Checked`. A record holds the state that an operation may change, and the operation returns the
-- new one.
--
-- Bounds: `alloc_loop` has max_bits + 1 rounds, enough as each moves the index up; `info_loop` has
-- 2 * max_bits + 2, enough as only its first run may be empty; `search_up` has a round for each
-- page below the highest address and two more, enough as each moves the end of the searched part up
-- by a page; `check_timers` has one round for each timeout and one more, enough if no signal adds a
-- timeout that has expired already; `erase_loop` has a round for each row and one more, as each
-- lowers the row or raises the count that ends it; `drop_down` has 25, enough as a piece that fits
-- has a row on the board; `utf8_to_wchar` takes the number as an argument.
-- `open_object` has the depth of nested calls as fuel, and statements on it hold from some depth
-- on; a path without cycles of links needs a call for each name and link. `search_down` has a
-- round for each address; whether these are enough is open, as its start may move up again.
--
-- Not modelled: the host (`mmap`, `ptrace`, signals), whose mapping of a block and whose file
-- for new pages are the fields `host` and `file` of a space, and references to backing stores;
-- tracing of memory; the waiting loop itself with its time-outs and asynchronous calls; the
-- allocation of regions and what is copied to the client for them; the buffers of strings;
-- files, mail slots, and the device that finds a pipe by its name; drawing and window messages
-- of the game; all other kinds of objects and the system calls on them. The libraries libmspack,
-- libntreg and libudis86 are copies of other projects.
pub mod Prelude
pub mod Status
pub mod AllocBitmap
pub mod HandleTable
pub mod Sync
pub mod Memory
pub mod Timers
pub mod Region
pub mod Minitris
pub mod Completion
pub mod Unicode
pub mod Names
pub mod Pipes
pub mod MessageQueue
