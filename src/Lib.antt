-- ===== src/Lib.antt =====
-- Cute-ndk is a C++ library for network servers: a reactor that waits for events and timers and
-- calls event handlers, a timer queue, message queues between threads, a token that serialises
-- threads, an object cache and a memory pool, over wrappers of sockets and threads.
--
-- This development models the data structures and the algorithms that these parts rest on. Memory
-- is explicit: a pointer is a number, 0 the null pointer, an array is a function with a capacity,
-- and a store is part of the state. Code that faults (a null pointer, an index out of bounds, a
-- failed assertion) is a run that ends in `fault`, so a theorem that a run returns a result says
-- also that it faults nowhere.
--
-- Files, and the code that they model:
--
--   Base: tests on numbers, runs that may fault (Base/Runs), arrays (Base/Array), comparisons
--   (Base/Order) and signed integers (Base/Int); no code of the repository.
--   Heap: ndk/heap.h, the array heaps `min_heap` and `max_heap`, over the comparison of
--   ndk/cache_heap.h by priority. `push`, `pop`, `pop_at` (pop(int)), `erase`, `adjust` and `check`
--   are the methods. Heap/Order and Heap/Places hold what is true of any array heap, and serve the
--   timers too.
--   Links: the pointers `prev_` and `next_` of ndk/message_block.h. Links/Chain says what a doubly
--   linked chain is, Links/Cut how it is cut.
--   MessageQueue: ndk/message_queue.h and ndk/message_queue.cpp. The functions that end in `_i` work
--   on the list, and MessageQueue/Wait holds the public ones, which wait on a condition first. What
--   other threads do during a wait is the list of queues that are found at the wake-ups.
--   TimeValue: ndk/time_value.h and ndk/time_value.cpp.
--   TimerQueue: ndk/timer_queue.h and ndk/timer_queue.cpp without the crontab entries: the heap and
--   the arrays in TimerQueue itself, ids and free lists in TimerQueue/Nodes, the calls in
--   TimerQueue/Calls and TimerQueue/Upcalls. TimerQueue/Arrays and TimerQueue/Memory state the invariant.
--   Token: ndk/token.h and ndk/token.cpp, the lock that the reactors hold while they dispatch. Its
--   acquire is cut at the wait: start_acquire, wait_acquire, finish_acquire.
--   MemPool: ndk/mem_pool.h and ndk/mem_pool.cpp. MemPool itself holds the chunks of a slab, MemPool/Slabs the list of the slabs and MemPool/Calls the calls. MemPool/Chunks and MemPool/Pool state the invariant. A header is a record at its address, and the memory that is not a header of a chunk may hold anything.
--   CacheDeque: ndk/cache_deque.h, the order in which the object cache drops its objects.
--   CacheManager: ndk/cache_manager.h, ndk/cache_manager.cpp and ndk/cache_object.h, over a queue with
--   the laws of CacheManager/Queue, which the deque keeps. CacheManager/Valid states the invariant.
--   MessageBlock: the buffer of ndk/message_block.h with its read and write positions.
--
-- Loops run on fuel where they are not structural. The climb in a heap gets its starting index
-- plus one, and the way down the size plus one, since the index falls or grows in each round; the
-- walks over chains get a bound that the theorems ask to be above the number of blocks; normalize
-- gets the number of millions in the microseconds, the walks over the slabs of a pool their number
-- plus one, the loop that reschedules a periodic timer the microseconds that it is late, and the
-- loops that flush the object cache the number of its objects plus one. The theorems show that
-- this is enough: the runs return.
--
-- Not modelled: the reactors and their handler tables, sockets, threads and locks other than
-- through what a wait leaves, crontab entries, the calls of ndk/cache_heap.h, remove(item) of
-- ndk/cache_deque.h, which does not compile, dates and strings, logging, the ini parser, and the
-- programs under apps, examples and test. Most of them are input and output over the operating
-- system, or other projects' code. Numbers are unbounded, but for the differences of `size_t` in
-- MessageBlock, the sizes in MemPool and the water mark of CacheManager: sizes and counters of
-- these structures stay far below the machine's limits.

pub mod Base
pub mod Heap
pub mod Links
pub mod MessageQueue
pub mod TimeValue
pub mod TimerQueue
pub mod Token
pub mod MemPool
pub mod MessageBlock
pub mod CacheDeque
pub mod CacheManager
