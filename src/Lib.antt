-- ===== src/Lib.antt =====
-- Dthreads runs the threads of a pthread program as processes whose writes stay private until they
-- synchronise, and makes the order of all synchronisation the same in every run. Its core is in
-- src/include. This library models that core as it is built (-DNDEBUG, so an `assert` is nothing;
-- -DLAZY_COMMIT, -DLOCK_OWNERSHIP, -DDETERM_MEMORY_ALLOC).
--
-- The parts, from the bottom up:
-- Base: shared names, Boolean tests on numbers, lists and maps.
-- Links (src/include/list.h): circular lists through the entries. An address is a number, 0 is NULL,
--   the `prev` and `next` fields are two maps, and an access through NULL is `none`.
-- Fence (src/include/determ.h: `startFence`, `incrFence`, `decrFence`, `waitFence`): the counters.
--   `waitFence` is cut where the mutex is taken and given back into `arrive` and `leave`, and
--   Fence/System lets any number of threads move in any order, and `startFence` come at any time; what
--   holds only if it does not come while threads leave the fence is stated of `Reach n 0`.
-- Determ (src/include/determ.h): the entries of threads and of pthread objects. Determ/Token has
--   registration, the token, `join`, exit and `sigwait`; Determ/Locks the mutexes with an owner and a
--   budget; Determ/Conds and Determ/Barriers the queues; Determ/Cancel `cancel`; Determ/Spawn
--   the handshake of a parent with new children, in any interleaving, where a wait may also end without
--   a signal; Determ/Start how the first threads of a program come into the ring; Determ/Sync the words
--   that lead from a pthread object to its entry. A function that blocks is cut where it gives the
--   mutex back. The ring is read from the token holder on (`IsWell`), with the threads that the fence
--   does not count yet.
-- Persist (src/include/xpersist.h, xbitmap.h, xpageinfo.h): pages. Persist/Diff has `writePageDiffs` in
--   both builds, Persist/Bitmap the memory of the twin pages byte by byte, Persist/Pages the state of a
--   process and the shared state with the page fault handler, Persist/Commit `checkandcommit` and
--   `updateAll`, Persist/Owned the pages that a process owns.
-- Heap (src/include/xheap.h): the bump allocator of whole pages; it makes the pages owned.
--   Heap/Objects (objectheader.h, warpheap.h): the header before each object, over any such heap.
-- Run (src/include/xrun.h): what each pthread operation calls of the two parts above, in order, and the
--   flags of a process. What `determ` answers is an argument: how often a lock is refused, whether it is
--   owned. Run/Discipline checks the order of the calls, where the program writes to its pages between
--   them.
-- Memory (src/include/xmemory.h, xglobals.h and the constructor of xpersist.h): the heap and the globals,
--   each a region of pages, and what goes to which of them. Memory/Globals has the place of the globals,
--   Memory/Alloc what `malloc`, `calloc`, `realloc` and `free` of src/source/libdthread.cpp do with the
--   blocks of a heap, over a record of the operations of such a heap and what it keeps to.
-- Threads (src/include/xthread.h, src/source/xthread.cpp): the page that a thread shares with its parent.
-- Run also has, in Run/Process, how a process begins, when the memory is protected, and `kill`; in Run/Api
--   the pthread functions of src/source/libdthread.cpp, in any order that a thread calls them; in Run/Touch
--   the loops of its `read` and `write`.
-- System: all of it together. Any number of processes run a program, which is a parameter, on their pages
--   (Persist/Pages, with an entry of Persist/Entries for each page written to); between two fences the
--   scheduler moves them in any order, where a page fault is a step of its own, and then the holders of
--   the token commit in turn and put the token (Persist/Commit, Determ/Token). System/Local and Schedule
--   are about the steps of a thread, System/Gather and Tracking about what the users of a page are,
--   System/Turns, Publication and Fence about the commits, System/Round about both together. There is one
--   region, no page has an owner, and the indices of twin pages are not reclaimed at a fence in it.
--
-- Machine integers: `size_t` and `unsigned long` wrap at 2 ^ 64, `unsigned short` at 2 ^ 16, the budget of a
-- lock at 2 ^ 32; the version of an entry is an `int` (`int_version`), as is the used part of the heap in
-- `openProtection`; an index of a thread is a number below 2048. The loops run over
-- lists or over counts, and `getLockAgain` over the number of refusals. Only the loops of `read` and `write`
-- run on fuel, one unit for each round and one for the last byte: count / 4096 + 2 is enough, since a
-- round goes on by a page.
--
-- Not modelled: the internal heap and Heap Layers (the memory of a new entry is an argument), the heaps of
-- each thread, which are templates over Heap Layers, pthread mutexes and condition variables, signals and
-- mappings of the operating system, and so whether a broadcast wakes whom it should, `fork` itself, the
-- dlsym lookups of src/source/real.cpp, and the statistics and timers. A spin or a wait is where a function is cut. Memory is sequentially consistent.
--
-- The modules named Tests run the theorems on concrete states.
pub mod Base
pub mod Persist
pub mod Links
pub mod Fence
pub mod Determ
pub mod Run
pub mod Heap
pub mod Memory
pub mod Threads
pub mod System
