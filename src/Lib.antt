-- ===== src/Lib.antt =====
-- A verification library for the linux-cpp collection of small C++ programs.
--
-- The collection has no common program: each directory is a demo of its own, which builds alone. The
-- library takes the demos that carry an algorithm or a data structure, one module for each, and the
-- modules share nothing but Prelude (tests, lists, blocks of memory). Machine integers are natural
-- numbers with their wrap-around written out, a pointer into a block is an offset, a heap node that
-- the code frees carries its address, and what the code prints is left out.
--
-- Ringbuf: ringbuf/ringbuf.h. `Ringbuf` is the class, `init` the constructor, `write` and `read` the
--   methods; `write_bytes` is the part of `write` that copies, `read_locked` the part of `read` under
--   the lock. Ringbuf/Queue is the abstract queue, Ringbuf/Inv the invariant, Ringbuf/Refine the
--   refinement. A call holds the lock from its start to its end, so that a history is a list of calls;
--   only the first test of `read` stands outside, and so `read_locked` is stated for every request.
-- Vma: vma-map/kernel-vma-map.cpp (`place` is the loop of `alloc_vma`), Vma/Early:
--   kernel-vma-map/test.cpp, Vma/User: vma-map/user-vma-map.cpp with its tree and its chain. Vma/Layout
--   has the layout that they keep, Vma/FirstFit and Vma/Alloc are about the first program,
--   Vma/User/Thread, Vma/User/Search and Vma/User/Refine about the third. The mutex is a flag: a call
--   that finds it held waits for ever.
-- Tree: list/tree.h. Tree/Order is about `comp`, Tree/Lookup about `insert_tree` and `find_tree`,
--   Tree/Remove about the names in the tree that `remove_tree` leaves, Tree/Memory about what is
--   allocated, freed, copied, and read after it was freed: `find_live` is the walk of `find_tree` that
--   ends in `none` at a freed node.
-- BitOps: kernel-basic-api/bit-ops-api.h. `fls_step` and `ffs_step` are one `if` of `fls` and `ffs`;
--   `ilog2_macro` is `__ilog2`. BitOps/Bounds is about `fls` and `ffs`, BitOps/Log about the powers of
--   two.
-- Blocks: filesystem-block-manager/test.cpp. `Blocks` has the pages and the bit operations with
--   `find_next_bit` (`word_loop` and `bit_loop` are its loops), Blocks/Disk the device: `sb_bread`,
--   `get_block` and `get_blocks` keep their names, `get_block_from` is `__get_block`, `format` the loop
--   of `main` over the groups. Blocks/Bits, Blocks/Pages, Blocks/Scan and Blocks/Find are about the
--   former, Blocks/Disk/Format about formatting, Blocks/Disk/Alloc and Blocks/Disk/Room about
--   `get_block`, Blocks/Disk/Slots says which entry stands for which block of a file,
--   Blocks/Disk/Keep, Blocks/Disk/Assign, Blocks/Disk/Puts, Blocks/Disk/Fill and Blocks/Disk/Mapping
--   are about `get_blocks`, Blocks/Disk/Files about a file.
-- StlAlgo: stl_algo/stl_algo.h, one function for each template, with the leading underscores off.
--   StlAlgo/Find is about `__find` and `__find_n_aux`, StlAlgo/Search about `__search`,
--   StlAlgo/Compare about `equal`, StlAlgo/Remove about `__remove`, StlAlgo/Unique about `__unique`,
--   StlAlgo/Shuffle about `__shuffle`. `Removal` tells a return of `__remove` from its end with none.
-- Pool: thread_pool/thread_pool.h. `worker_step`, `producer_step` and `stop_step` are one step of
--   `_M_work` with `_M_get_task`, of `_M_produce` with `_M_add_task`, and of `_M_stop`; `step` lets one
--   thread run, `Reach` has the states that any schedule can come to, wake-ups with no notification
--   included. Pool/Inv is the invariant, Pool/Weigh has sums over the workers, Pool/ByWorker and
--   Pool/ByOthers are about the steps, Pool/Safety about all schedules, Pool/Stop about `stop`.
-- BlockQueue: block_queue/block_queue.h. `put` and `get` are what a thread does from the lock of its
--   call to the end, or to the wait that gives the mutex up; `run_events` runs a schedule.
--   BlockQueue/Sleepers counts the threads that sleep, BlockQueue/Inv is the invariant,
--   BlockQueue/Schedule is about all schedules.
-- Timer: timer-wheel/test.cpp. `cascades` and `round` are what one round of the loop of `main` does,
--   `run` the loop, `add_all` the loop that adds the timers. Timer/Slots, Timer/Place, Timer/Move and
--   Timer/Settle are about the slot that a timer is in, Timer/Fire about the time of a call,
--   Timer/Count about the number of calls.
-- PageTable: page-table-map/test.cpp. `remap_ptes`, `remap_pmds` and `remap_pgds` are the loops of
--   `remap_pte_range`, `remap_pmd_range` and `remap_range`; `fill` is the first loop of `main`.
--   PageTable/Entry says what stands for a page; PageTable/Ptes, PageTable/Pmds with
--   PageTable/PmdTable, and PageTable/Pgds are about the three loops, PageTable/Range about the whole
--   walk, PageTable/Empty about a range of no bytes, PageTable/Fill about `main`.
-- Vector: mvector/mvector.h. `append`, `remove`, `insert` and `resize` keep their names, `insert_at` is
--   the part of `insert` behind its test of the room. Vector/Contents has the elements and the
--   invariant, Vector/Bounds is about `resize` and `append`, Vector/Moves about `remove`, Vector/Gap
--   about the gap of `insert`, Vector/Refine and Vector/History about one call, Vector/Calls about
--   histories of calls.
-- DNode: list/dnode.h. The functions keep their names; `remove_loop`, `insert_loop` and `reverse_loop`
--   are their loops. DNode/Remove is about `remove_node`, DNode/Reverse about `reverse_node`.
-- Dentry: dentry-travel/test.cpp. `stats_loop` and `remove_loop` are the loops of `stats_dentry` and
--   `remove_dentry`, `free_leaves` the inner loop of the latter. Dentry/Walk is about the walk,
--   Dentry/Removal about the removal.
-- Cache: cache/cache.h with cache/__list.h. `setup` is `__setupcache`, `grow` is `__grow` with its parts
--   `pick`, `refill` and `file_slab`. Cache/Free has what gives objects back: `shrink` is `__shrink` with
--   its parts `put_all` and `put_back`, `destroy` the destructor. Cache/Bounds is about sizes and
--   addresses, Cache/Slabs about one slab, Cache/Accounts and Cache/Changes about all slabs with the
--   objects that are out, Cache/Counts has the counting, Cache/Moves, Cache/Growth, Cache/Shrinking and
--   Cache/Calls are about the operations, Cache/Run has the states that calls lead to, Cache/Safety is
--   about them, Cache/Destroy about the destructor, Cache/Hangs about sizes that the code does not
--   serve. `kmem_alloc` and `kmem_free` take a bound on their rounds, and two are enough where the
--   theorems say so.
-- FwList: list/fwlist.hpp. `insert_range` is the `insert_after` of a range, `filled` the constructor with
--   a number and a value, `assign_copies` the second `assign`; `overwrite` is the loop of both.
--   FwList/Edits is about the values that calls leave, FwList/Sizes about the size.
--   `erase_after_until_end` takes a bound on its rounds, and the number of nodes is enough.
-- AsyncRing: async-ring-buffer. `producer_step` is a step of `RingBuffer::emplace_back` with `overflow`,
--   `flusher_step` one of `__do_flush`; `emplace_back` is that of `RingBufferHeader` with `request`,
--   `payloads` and `reset` are its `flush`, `write` and `overflow_file` are those of `FileBuffer`.
--   AsyncRing/Inv has the invariant, AsyncRing/ByProducer and AsyncRing/ByFlusher are about the steps,
--   AsyncRing/Run is about all schedules, AsyncRing/Sleep about a lost notification.
-- NodeList: list/node.h. `remove_node`, `find_node`, `insert_node` and the others keep their names,
--   `insert_by` is `insert_node` with a comparison, `copy_of` the second `create_node`. Values are
--   32-bit patterns, and an overflow of a comparison, undefined in C++, wraps. NodeList/Find is
--   about the functions that search by value, NodeList/Sorted about `insert_by`, NodeList/Reverse
--   about `reverse_node` and `copy_node`.
--
-- `find_n_loop` and `search_loop` of StlAlgo take fuel, one more than the length of the range: each
-- round leaves a shorter rest. `stats_loop` and `remove_loop` of Dentry take one more than two for each
-- entry, and their theorems show that this is enough. Every other loop recurs on the list or the tree
-- that it walks, or on the number of elements, bits, groups, rounds or steps left.
--
-- Not modelled: the vendored libraries (jsoncpp, nlohmann in jsontest, cxxopts and generated SWIG
-- wrappers), the kernel modules of linux_kernel_api (calls of kernel functions that are not here), and
-- the demos of the language's own features, which only print. Nor are the remaining data structures
-- and thread demos (the other lists, the work pool and the barrier), the end of the asynchronous ring
-- with its manager, `clear_range` of the page tables, which prints and writes no entry, `write_inode`
-- of the block manager, and `emplace` of the vector, which ends without a return.
pub mod Prelude
pub mod Ringbuf
pub mod Vma
pub mod Tree
pub mod BitOps
pub mod Blocks
pub mod StlAlgo
pub mod PageTable
pub mod NodeList
pub mod Timer
pub mod Pool
pub mod Vector
pub mod BlockQueue
pub mod DNode
pub mod Dentry
pub mod Cache
pub mod FwList
pub mod AsyncRing
