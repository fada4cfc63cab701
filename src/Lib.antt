-- ===== src/Lib.antt =====
-- CapsuleOS: a capability microkernel for AArch64 (kernel/), its user-space services and programs
-- (userspace/), and its libraries and tools (libraries/, tools/). This library models the parts
-- of the kernel that decide what a capability names, which thread runs, where bytes go, which
-- memory is given out and what an address means, the file service, and the format of executables.
--
-- The parts and their files:
-- Shared: kernel/shared/src, the codes that kernel and user space share. Shared/Status is
--   `Status` with `to_raw` and `from_raw`, Shared/Types `HandleValue` and `ObjectType`.
--   Shared/Result is the type of fallible results, with `Status` as its error.
-- Object: kernel/src/object/handle_table.rs, the handle table of a process. Object holds every
--   operation; Object/Lookup what each does to the entries that handles name; Object/Invariant
--   the invariant, and handles over sequences of calls.
-- Task: kernel/src/task. Task/Thread is the thread control block, Task/Scheduler the ready
--   queues, `add`, `schedule`, `wake_thread` and `get_thread_ptr` of scheduler.rs.
--   Task/Scheduler/Queues is about the queues, Choice about the thread chosen, Decay about time
--   slices and priorities, Fallback about the scan of the threads when all queues are empty,
--   Waking about `wake_thread`, Woken about the threads that no longer wait after it.
--   Task/Signals is signals.rs, Signals/Delivery about the signals
--   that end a process.
-- Ipc: kernel/src/ipc. Ipc/Registry is registry.rs, Ipc/Port port.rs, Ipc/Channel channel.rs,
--   with its two calls in Channel/Read and Channel/Write. Channel/Waiters is about the arrays of
--   waiting threads, Channel/Taking and Channel/Rendezvous about messages, Channel/Closing about
--   `close`. Ports and channels block and wake the threads of Task/Scheduler; channels move
--   objects between handle tables by the operations of Object.
-- Vfs: kernel/src/vfs. Vfs/Pipe is pipe.rs; Vfs/Vnode and Vfs/Descriptor are the two tables of
--   mod.rs, with the offsets' system calls.
-- Sync: kernel/src/sync. Sync/Futex is futex.rs; Futex/Links says when an entry holds a queue of
--   threads, Futex/Join and Futex/Wake what waiting and waking do to it, Futex/Arrival what waiting
--   does to any entry.
-- Memory: physical and virtual memory. Memory/Pages is the page allocator of
--   kernel/src/arch/aarch64/phys.rs, with its boot in Pages/Boot, its cache in Memory/Cache and
--   its tracker of page-table pages in Memory/Tracker; Pages/Cursor is about one allocation,
--   Pages/Runs about sequences, Cache/Laws about eviction, Cache/Count about the number of pages
--   in the cache. Memory/Slab is slab.rs, Memory/Asid asid.rs, Memory/Region
--   kernel/src/memory/vmar.rs, Region/Placement its search for a free range and Region/Allocation
--   what its two calls leave.
-- Paging: the page tables, kernel/src/arch/aarch64/page_table.rs and the walks of mmu.rs. Paging
--   holds the entries, `track`, `map_va` and `translate_va`; Paging/Roots makes and gives up
--   roots, Paging/Release is `unmap_page`, `free_page_table_tree` and `validate`. Paging/Entry is
--   about the bits of entries, Allocation about the pages given to tables, Shape says when the
--   tables make a tree, Growth and Steps how it grows, Walks and Kept which translations are
--   kept, Reach, Mapping and Unmapping what `map_va` and `unmap_page` do, Supply about the pages
--   that `map_va` needs. The tables' pages come from Memory/Pages; Paging/Buffers puts the checks
--   of Syscall on the walk.
-- Syscall: kernel/src/syscall. Syscall/Validation is validation.rs, the checks of user pointers,
--   and Validation/Coverage says which pages a check has looked up.
-- Format: tools/ohlink-toolchain/crates/ohlink-format/src, the executable format, a module for
--   each file: Format/Crc (crc32.rs), Header, Entry, Symbol, Reloc, Parser, Builder, and Words
--   for the little-endian words and the errors of lib.rs. Format/Layout is about the offsets of
--   segments, Checksum about the two computations of the checksum, Written about the file that
--   the builder writes, RoundTrip and Segments about what the parser reads from it.
-- FileAgent: userspace/services/fileagent/src. FileAgent is the nodes of ramfs.rs,
--   FileAgent/Paths its paths, FileAgent/Sessions vfs.rs. FileAgent/Siblings is about the list of
--   a directory's children, Names about what a name finds in it, Creation about new nodes,
--   Contents about reads and writes.
-- Base: bit masks (Bits, Masks), slices (Slices), lists over native numbers, fixed arrays of
--   optional slots (Slots), ring buffers (Ring), arrays filled from the front (Padded), signed
--   integers (Int). Examples: runs on concrete data.
--
-- State and steps. A table or a queue is a record; an operation takes the state and returns its
-- result beside the new state. An operation that the code runs under a lock, or with interrupts
-- masked, is one step. A call that blocks is two functions, up to the call of the scheduler and
-- from its return on; what happens in between is a sequence of other steps, which the caller
-- writes out. A panic is a result of its own (`none`, `panicked`). A store of objects stands for
-- pointers: a thread is the index of its slot or its id, a channel's peer is the other end of its
-- pair, a handle table is an index in a list.
--
-- Numbers. Unsigned integers are ℕ with the wrap-around written out where the code's arithmetic
-- reaches it: the handle counter at 2 ^ 32, vnode ids and the pipe counter at 2 ^ 64, tick
-- deadlines at 2 ^ 64; an `i32` is a ℤ. The pipe's ring has 4096 bytes, the port's 16 slots; one
-- slot of each stays free. `max_threads` rounds of the search for a thread are the code's own
-- bound: a queue that holds fewer dead threads before a live one is searched far enough.
--
-- The loops over a futex's linked waiters have fuel for eight steps, the number of slots: the
-- loop of `wake_from_entry` frees a slot in each step, and a list without a cycle is no longer
-- than that.
--
-- The loop of `alloc_page` has fuel for each page from the cursor to the end and one round more,
-- the search of a region for each address of it and one more, the check of a user range for each
-- byte, and the scan at boot for each page and one more. On one core a compare-and-exchange right
-- after its load succeeds. The loops over a directory's children have fuel for sixteen, the
-- number of nodes; a list of siblings without an end is `none`, as is a panic of the file
-- service. Physical memory is a function from addresses to bytes; the linker's end of the kernel,
-- the device tree's place, and the page that a region takes for its metadata are arguments. The
-- words of pages that are page tables are a function of their own, from addresses to 64-bit
-- words.
--
-- Not modelled: registers, page tables, barriers and log lines around a context switch; locks,
-- and interleavings within an operation; the destructors of objects that a failed transfer drops;
-- the atomic reference counts of channels, which nothing in their file changes; log lines and
-- cache maintenance; memory objects; the tables that the kernel boots with, and the calls of
-- mmu.rs that map as `map_va` does. The handlers of system calls, processes but for their
-- signals, drivers and the loader; user space but for the file service, of which the loop over
-- requests is left out; the other tools.
pub mod Base
pub mod Shared
pub mod Object
pub mod Vfs
pub mod Ipc
pub mod Task
pub mod Sync
pub mod Memory
pub mod Paging
pub mod Syscall
pub mod Format
pub mod FileAgent
pub mod Examples
