-- ===== src/Lib.antt =====
-- The allocator of mimalloc-custom: a formal model of its size arithmetic, its pages, the queues they
-- are in, the segments that hold them, and the freeing of blocks between threads.
--
-- How the program works. A heap belongs to a thread and has queues of pages, one queue for each size
-- class. A page is an area of blocks of one size. Its blocks are on one of three lists, linked
-- through their first words, or in use: `free`, from which the fast path of allocation takes;
-- `local_free`, to which its own thread frees; and the list in `xthread_free`, to which other threads
-- free with compare-and-swap. The owner moves the last two into the first when that is empty, and
-- extends the page by untouched blocks. The two low bits of `xthread_free` are a flag. With
-- `MI_USE_DELAYED_FREE` another thread puts its block on the heap's delayed list instead, after it has
-- set `MI_DELAYED_FREEING` to keep the heap alive, and then sets `MI_NO_DELAYED_FREE`.
--
-- The files.
--   Prelude       Boolean tests, `update` of functions, lists, binary digits, chains of blocks.
--   Size          the constants of mimalloc-custom/mimalloc-types.h; Size/Align and Size/Count the
--                 arithmetic of mimalloc-custom/mimalloc-internal.h (_mi_align_up, _mi_divide_up,
--                 _mi_wsize_from_size, _mi_is_power_of_two, mi_mul_overflow, mi_count_size_overflow);
--                 Size/Bin the size classes of mimalloc-custom/page-queue.c (mi_bsr32, _mi_bsr, _mi_bin,
--                 _mi_bin_size, mi_good_size) with the table of mimalloc-custom/init.c.
--   ThreadFree    the word `mi_thread_free_t` and the helpers `mi_tf_*`.
--   Links         doubly linked lists with a first and a last node, as the queues of pages and of
--                 segments are: Links/Remove, Links/Insert and
--                 Links/Join.
--   Queue         mimalloc-custom/page-queue.c: the queues of a heap and its table
--                 `pages_free_direct` (mi_page_queue_push, mi_page_queue_remove,
--                 mi_page_queue_enqueue_from, mi_heap_queue_first_update, mi_page_queue_of).
--                 Queue/Direct is about the table, Queue/Invariant says what a valid heap is,
--                 Queue/Change and Queue/Operations what the operations do to its lists;
--                 Queue/Append and Pages/Append are about _mi_page_queue_append.
--   Segment       `mi_segment_t` and where its pages are (_mi_segment_page_start, mi_segment_size,
--                 _mi_ptr_segment, _mi_segment_page_idx_of); Segment/Store has a thread's segments with
--                 the queues of mimalloc-custom/segment.c, Segment/Reset the reset of pages,
--                 Segment/Claim mi_segment_page_claim, mi_segment_find_free and mi_segment_page_clear,
--                 Segment/Cache the cache of segments and mi_segment_free, with Segment/Released and
--                 Segment/Cached about it,
--                 Segment/Abandon mi_reset_delayed, _mi_segment_page_abandon and _mi_segment_page_free,
--                 with Segment/Expired, Segment/Disowned and Segment/Abandoning about them.
--                 Segment/Layout is about addresses; Segment/Invariant says what valid queues are,
--                 Segment/Kept and Segment/Queues are about the parts of a claim, Segment/Pages,
--                 Segment/Claimed and Segment/Find about the whole, with Segment/Untouched for what a failed
--                 claim leaves as it is; Segment/Given and Segment/PageFree are about the way back.
--   Abandoned     the shared lists of abandoned segments (mi_abandoned_push, mi_abandoned_pop,
--                 mi_abandoned_visited_push, mi_abandoned_visited_revisit) and the tag of their word.
--   Front         mimalloc-custom/alloc.c over an interface of the core: mi_heap_malloc,
--                 _mi_heap_malloc_zero, mi_heap_calloc, _mi_heap_realloc_zero and their relatives.
--                 Front/Counted is about the functions with a count, Front/Aligned about the aligned
--                 allocation of mimalloc-custom/alloc-aligned.c. The contents of blocks are not modelled.
--   Random        mimalloc-custom/random.c: the ChaCha rounds and blocks, the counter
--                 (Random/Counter) and the words handed out (Random/Words).
--   Page          `mi_page_t` and the queries on it; Page/Blocks has _mi_page_malloc, the pushes of
--                 _mi_free_block and _mi_free_block_mt, _mi_page_thread_free_collect and
--                 _mi_page_free_collect; Page/Grow has mi_page_extend_free, mi_page_free_list_extend
--                 and mi_page_init; Page/Invariant says what a valid page is, Page/Life what happens
--                 to a page in any sequence of operations.
--   Pages         a heap with its pages: Pages/Move has _mi_page_unfull, mi_page_to_full,
--                 _mi_page_free, _mi_page_retire, _mi_page_reclaim and mi_page_fresh, Pages/Retired
--                 _mi_heap_collect_retired, Pages/Search mi_page_queue_find_free_ex and
--                 mi_find_free_page, Pages/Free mi_free and what it calls in mimalloc-custom/alloc.c,
--                 Pages/Generic _mi_malloc_generic. What these call of the segments is the interface
--                 `Segments`, without laws: where they free a page, the theorems say with which
--                 store the segments are called, and not what comes of it. Pages/Invariant says what a valid store is; Pages/Bins, Pages/Moved,
--                 Pages/Kept and Pages/Quiet are about its parts, Pages/Picked and Pages/Searched about
--                 the search, Pages/Leave and Pages/Shrink about pages that leave a queue, Pages/Routes
--                 and Pages/Freed about a free, Pages/Ready and Pages/Allocated about an allocation.
--   System        what is below the segments: System/Sizes the sizes of mimalloc-custom/os.c,
--                 System/Ids the identifiers of memory of mimalloc-custom/region.c and
--                 mimalloc-custom/arena.c, System/Arena the search of an arena for free blocks.
--   Delayed       _mi_free_block_mt step by step for any number of threads, against the owner's
--                 _mi_page_use_delayed_free, _mi_page_thread_free_collect, _mi_heap_delayed_free and
--                 _mi_free_delayed_block.
--   Bitmap        mimalloc-custom/bitmap.inc.c: claiming, finding and releasing sequences of bits.
--                 Bitmap/Mask has the digits of a mask, Bitmap/Search the search in one field.
--
-- State. A word is a natural number below 2^64, and arithmetic wraps where the source's does: a
-- 16-bit `capacity`, a 32-bit `used`. An address is a word, null is 0. A memory gives the `next` field of
-- each address. A page is a record with the fields of `mi_page_t`, and an operation takes a state to a
-- state, or to `none` where it hands over to another routine or its fuel runs out.
--
-- Fuel. The walk of a forced collection and the loop that links new blocks have no bound in the
-- source. Here they have fuel, one round more than the page's capacity, or than the number of new
-- blocks; on a valid page that is enough, so the theorems say that the operations return. The
-- walk of the thread list is bounded by the capacity in the source too. The search for the highest
-- digit has 32 rounds for 32 digits and 64 for 64, and the
-- scan of a field 65, one more than the places there are. The walk to the last visited segment has fuel
-- for the whole visited list. The search of a queue for a page has one round more than the
-- heap has pages, which is enough on a valid store; the walk of the delayed list of Pages has
-- its fuel as an argument.
--
-- Configuration. 64 bits in the default build: MI_DEBUG 2, MI_PADDING 1, MI_SECURE 0, MI_STAT 0, free lists
-- not encoded, MI_MAX_ALIGN_SIZE 16. The assertions are not part of the definitions; where a theorem
-- relies on one, it is among its hypotheses.
--
-- The memory below. What a segment asks of it, to commit, to reset and to unreset a range and the time, is
-- a parameter, `Memory`, with any state and any replies; one theorem has the hypothesis that a commit
-- always succeeds. The options that are asked for are arguments too.
--
-- Threads. Every atomic access takes effect at once for all threads. Weaker memory orders, as a
-- model checker explores them for this program, are not modelled. A weak compare-and-swap may fail at
-- any time in Delayed; in Page, Bitmap and Abandoned an operation runs without an access of another thread in
-- between. The delayed list of the model has blocks of one page.
--
-- Not modelled: the start and the reclaim of segments, regions, the use of arenas,
-- heaps, statistics, options, messages, and the
-- calls of the operating system. Of a page queue the block size is the one of its bin, and the pages'
-- fields `next` and `prev` are kept apart from the rest of the page. Each page of Pages has a memory of its
-- own, so that the blocks of different pages are apart by construction; that the areas of pages do not
-- overlap is not derived. The compiler's builtin for the overflow of a product is not modelled, but the
-- portable test.
pub mod Prelude
pub mod Size
pub mod ThreadFree
pub mod Links
pub mod Queue
pub mod Segment
pub mod Abandoned
pub mod Front
pub mod Random
pub mod Page
pub mod Pages
pub mod System
pub mod Delayed
pub mod Bitmap
