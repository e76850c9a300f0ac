-- ===== src/Lib.antt =====
-- A verification library for Pintos, the teaching kernel under pintos/src: the scheduler with priority
-- donation and with the multi-level feedback queue, semaphores and locks, the file system from directories
-- down to the buffer cache and the free map, the moves of pages between frames and the swap device, the
-- interrupt queue, and the lists, hash tables, strings, bitmaps and fixed point numbers below them.
--
-- Shared helpers:
--   Prelude     numbers, lists, options with ASSERT as `assert`, and signed integers (Prelude.Int)
--   Bits        the digits of a number, for words used as masks
--
-- The parts, and the code that each models:
--   Bitmap      lib/kernel/bitmap.c: words of 32 bits and masks, against an array of bits.
--   FreeMap     filesys/free-map.c over Bitmap. The file that the map is written to is a parameter.
--   Cache       filesys/cache.c: cache_insert with the clock, eviction and loading, cache_flush and
--               cache_init, over a disk that is a function from sectors to bytes.
--   KernelList  lib/kernel/list.c: the loops over elements, on the sequence of elements.
--               KernelList.Links has the links of elements in memory, and the operations that write them.
--   Hash        lib/kernel/hash.c: buckets as sequences of elements, with rehashing and iteration.
--   Strings     lib/string.c on memory as bytes.
--   Arrays      lib/stdlib.c: binary_search.
--   Thread      threads/thread.c: the ready list, schedule, block, unblock, yield and exit,
--               thread_donate_priority, thread_recalculate_donation and thread_set_priority.
--   Synch       threads/synch.c over Thread: semaphores, locks and cond_signal. Synch.Steps has the
--               functions on locks a step at a time, and Synch.Interleaving the threads that use one lock.
--   FixedPoint  threads/fixed_point.c.
--   Mlfqs       the functions of threads/thread.c that keep the load average, the use of the processor
--               and the priorities that follow from them, over FixedPoint.
--   Palloc      threads/palloc.c over Bitmap: pages of two pools.
--   Swap        vm/swap.c over Bitmap: slots, and pages written and read back.
--   Paging      vm/frame.c and vm/page.c over Swap: what eviction and page_in do to the bytes of a page.
--   Inode       filesys/inode.c: byte_to_sector, which sector holds a byte of a file.
--   FileData    filesys/inode.c over Inode: the loops of inode_read_at and inode_write_at.
--   File        filesys/file.c, and the counts of openers and denials of filesys/inode.c.
--   Directory   filesys/directory.c: the entries of a directory, on a file that is a list of entries.
--   InterruptQueue  devices/intq.c: the circular buffer with its waiters, cut where a thread sleeps or may yield.
--   Timer       devices/timer.c over KernelList: alarms of sleeping threads and the interrupt that wakes
--               them.
-- Paths are below pintos/src. A definition has the name of its C function, mostly less a prefix that
-- names the module. A failed ASSERT, the use of a null pointer and the reading of an element behind the
-- tail of a list are `none`.
--
-- How the parts interact: a lock is a semaphore with a holder; taking a lock that is held donates the
-- priority of the running thread to the holder, and along the locks that holders wait on; putting a
-- semaphore up wakes a waiter, recalculates the running thread's priority and may yield. The free map
-- finds sectors with a scan of its bitmap, which it undoes if the map cannot be written. A page that
-- leaves its frame goes to a slot of Swap or back to its file, from which page_in reads it. FileData takes
-- sectors from Inode; the loops of Hash are those of a list, on sequences.
--
-- Bounds and fuel: cache_insert takes the number of its rounds, of which a quiet cache needs one, and its
-- clock a bound of 66, above the 64 blocks that it can pass over. A donation takes a bound on the chain
-- of locks, to be more than the number of threads of lower priority. Loops over strings take fuel above
-- the length of the string, the loops of FileData fuel above the number of bytes, and a walk along links
-- fuel above the number of elements, as does binary_search; the loop of Hash that rounds the number of
-- buckets down takes that number as fuel, since a round makes it smaller. Bitmap words, the semaphores'
-- values and sector numbers wrap at 32 bits where the code lets them. The `int` of FixedPoint and of
-- priorities, and the addresses of Palloc, are unbounded. A block of a file behind the 16524 that an
-- inode has room for makes the source read behind a buffer, and Inode at that place of a function.
--
-- Not modelled: the threads that share the cache at one time, its reading ahead and writing behind; the
-- sorting of lists and arrays; the growth of files, the list of open inodes, paths, the choice of the
-- frame to evict, processes, page tables, devices, and the code in assembly. KernelList and Hash work on
-- sequences of elements and not on the links, whose operations KernelList.Links relates to sequences.
-- A stretch with interrupts off is one step. sema_up and cond_signal, but for lock_release in
-- Synch.Steps, and thread_set_priority are calls that no interrupt cuts in two.
pub mod Prelude
pub mod Bits
pub mod Bitmap
pub mod FreeMap
pub mod Cache
pub mod KernelList
pub mod Thread
pub mod Synch
pub mod FixedPoint
pub mod Mlfqs
pub mod Swap
pub mod Palloc
pub mod Inode
pub mod InterruptQueue
pub mod Hash
pub mod Strings
pub mod Directory
pub mod FileData
pub mod File
pub mod Timer
pub mod Arrays
pub mod Paging
