-- ===== src/Lib.antt =====
-- Verification of godby, a library of lock-free containers and utilities for C++20.
--
-- The parts that are modelled stand in headers of their own and do not call each other, but for
-- StealingExecutor, which has a StealingQueue, and for the arithmetic that the containers share;
-- each is a module here, over a Prelude of tests, lists, bits and remainders:
-- * StealingQueue (godby/include/godby/StealingQueue.h): the work-stealing queue. The file of that
--   name has the calls run alone (`push`, `pop`, `steal`, `size`, `empty`), StealingQueue/Slots
--   the ring of slots. StealingQueue/Refine, Create and Deque are about these calls;
--   StealingQueue/Threads cuts them into the accesses of one owner and any number of thieves,
--   which interleave.
-- * TimerWheel (godby/include/godby/TimerWheel.h): the hierarchical timer wheel. TimerWheel has
--   the state and the linked lists of events (`relink`, `cancel`, `pop`), TimerWheel/Run has
--   `schedule`, `schedule_in_range`, `process_current_slot` and `advance`. Events and slots are
--   numbers, a null pointer is `none`, and the memory of events is a function. TimerWheel/Links
--   and Move are about the lists, Level and Place about where `schedule` files an event, Range
--   about `schedule_in_range`; Okay, Quiet, Carry, Time and Formed are about what `advance` keeps,
--   Reached about the wheels that calls lead to; TimerWheel/Wakeup has `ticks_to_wakeup`, and
--   Minimum, Search, Turns and Nearest are about it.
-- * Seqlock (godby/include/godby/Seqlock.h): `load` and `store` as steps that copy a value word by
--   word.
-- * Spinlock (godby/include/godby/Spinlock.h): `lock` and `unlock` as steps of any number of
--   threads.
-- * Barrier (godby/include/godby/Barrier.h): `wait` and `release` as steps, in one round of
--   waiting.
-- * AtomicOptional (godby/include/godby/AtomicOptional.h): `load` and `store` as steps of any
--   number of threads; AtomicOptional/Loads is about what `load` returns. The value is of an
--   arithmetic type.
-- * AtomicQueue (godby/include/godby/AtomicQueue.h): an element of `AtomicQueue2`, with the steps
--   of `do_push_any` and `do_pop_any`; AtomicQueue/Handover is about their interleavings.
--   AtomicQueue/Atomic has an element of `AtomicQueue`, whose value NIL says that there is none,
--   and AtomicHandover is about it. AtomicQueue/Indices has the head and the tail that all
--   variants share, and the tests on them; AtomicQueue/Remap has `remap_index`, and Position the
--   element that a head or a tail takes.
-- * AtomicHashmap (godby/include/godby/AtomicHashmap.h): the map on several levels of buckets, its
--   calls run alone. AtomicHashmap/Keyed is what a key type offers, Path the buckets of a key,
--   Levels the sizes of the levels and the constructor, Laws and Walk are about `Set` and
--   `Delete`, Refine about sequences of calls, Iterate about the iterator.
--   AtomicHashmap/Referenced has the reference counts of the objects in the map, whose threads
--   interleave; none tries to acquire a reference to an object that has been deleted.
-- * SharedStorage (godby/include/godby/SharedStorage.h): the objects that threads share, with the
--   cache of each thread; a call is one step, since it works on its own thread's cache and under
--   the mutex. SharedStorage/Text has the names of types and the keys, Reload the objects with two
--   halves. Coherent, Moves, Calls and Removal are about the caches, Threads has the sequences of
--   calls; Stored and Shared are about values that stay, Deleting, Stale and Early about Delete
--   and Deletable, Keys about the keys, and Scan, Trim and TypeName about the names of types.
-- * MemoryPool (samples/contrib/MemoryPool.h): the pool of slots, its calls run alone.
--   MemoryPool/Layout is about the slots of a block, FreeList about the list of free slots, Slots
--   and Blocks about what the calls keep, Apart about the addresses of the slots, Safety and
--   Allocate about any sequence of calls.
-- * ExpiringLruCache (samples/contrib/expiring_lru_cache.h): the cache of bounded size, over a
--   hash map of another project that is an argument. ExpiringLruCache/Recency is about the list of
--   keys, Bounded and Calls about what the calls keep, Lru about any sequence of calls.
-- * HazardPointers (godby/include/godby/HazardPointers.h): `get_slot`, `protect`, `release` and
--   `retire` as steps of any number of threads. HazardPointers/Slot has what a slot holds for its
--   owner, and both ways of reclaiming; Held, Guards, Valid, Moves, Slots, Steps, Tasks, Retire
--   and Safety are about the objects that are protected. HazardPointers/RetiredList has the linked
--   lists of retired objects, which Lists and the steps take as lists; its children Cleanup, Moves
--   and Append are about them.
-- * StealingExecutor (godby/include/godby/StealingExecutor.h): the owner of an executor and its
--   consumer threads, whose accesses interleave; the queue is the list of its items, and the
--   capacity that it is made with is a power of two (StealingExecutor/Create, with StealingQueue
--   and Math). StealingExecutor/Consumer has the places of a thread; Totals, Valid, Effects,
--   Workers, Takes, Owners and Waits are about the waits, Batch about the number of items that a
--   thread takes at a time.
-- * Math (godby/include/godby/Math.h and godby/mathematics/Prime.cc): `MSB`, `NextPowerOfTwo`,
--   `IsPrime` and `NextPrime`. Math/Trial and Primality are about numbers below 1373653, which are
--   tried by division, and Math/Truncated about those for which the witness test is given too few
--   bits.
--
-- Words wrap around where the source has machine integers: 64 bits for `size_t`, `uint64_t` and
-- the ticks, 32 for `unsigned`. Threads interleave one access at a time, under sequential
-- consistency; the memory orders and fences of the source are not modelled. A load and a store of
-- a godby::Atomic are one access each, as they are for arithmetic types; so it is with the slots
-- of StealingQueue. An item that is moved out of an element is copied.
--
-- Fuel and bounds: the loop of `schedule` has a turn for each of the 8 levels, and a run that
-- would read past them is `none`; `schedule_in_range` shifts a 64-bit mask by 8 bits, which 8 of
-- its 10 turns clear; `IsPrime` divides at most 195 times below 1373653, and has 200 turns; the
-- loops of `IsPrime_power` and `IsPrime_witness` halve a 32-bit number, and `NextPrime` takes its
-- number of turns as an argument. The iterator of AtomicHashmap is given as many turns as the map
-- has buckets. The loop that links the slots of a MemoryPool's block has a turn for each slot that
-- the block could have, and ends before, since a slot is lost to the pointer in front of them. The
-- loops of RetiredList's `cleanup` are given a number that the length of the list does not reach.
-- `advance` takes the number of events that a slot may run, since an event may schedule itself
-- again, and `ticks_to_wakeup` takes the length that no list of events exceeds.
--
-- Not modelled: destruction and the release of memory, the fallback of `NextPowerOfTwo` that
-- smears bits, the exchange and the moving of whole AtomicQueues, the interleaving of the calls of
-- AtomicHashmap (its sizes are computed in doubles, which are arguments here) and of MemoryPool,
-- the worker thread of ReloadableManager, rounds of Barrier that overlap, the condition variables
-- and the signal handler of StealingExecutor, a godby::Atomic of a type that is not arithmetic,
-- and the headers Atomic and AtomicSharedPointer. Portability, Signal and the thread fences are
-- glue to the system; the samples are test drivers and other projects' libraries.
pub mod Prelude
pub mod StealingQueue
pub mod TimerWheel
pub mod Math
pub mod Seqlock
pub mod HazardPointers
pub mod StealingExecutor
pub mod Spinlock
pub mod Barrier
pub mod AtomicOptional
pub mod AtomicQueue
pub mod AtomicHashmap
pub mod SharedStorage
pub mod MemoryPool
pub mod ExpiringLruCache
