-- ===== src/Pages/Tests.antt =====
-- A heap with one page of four blocks of 2048 bytes at 139264, in the segment at 131072. Two of the
-- blocks are enabled: one is free and a program holds the other.
use mimalloc_mc.Prelude.{
  ℕ, ◌+◌, ◌*◌, ◌<◌, ◌≡◌, ◌≢◌, refl, ap, inl, inr, Bool-cases, true, false, [], ◌∷◌, none, some,
  arith, ◌==◌, ==_iff, eq→==, subst, update,
}
use mimalloc_mc.Prelude.Chain.{count}
use mimalloc_mc.Size.Bin.{bin}
use mimalloc_mc.ThreadFree.{delayed_freeing, tf_delayed, tf_block}
use mimalloc_mc.Links.{Ends, IsQueue}
use mimalloc_mc.Delayed.{same_delayed}
use mimalloc_mc.Page.{Page, State}
use mimalloc_mc.Page.Invariant.{IsPage}
use mimalloc_mc.Queue.{Heap, queue_push}
use mimalloc_mc.Queue.Change.{xblock_size_kept}
use mimalloc_mc.Queue.Direct.{IsUsed}
use mimalloc_mc.Queue.Invariant.{Lists, IsQueues, IsHeap}
use mimalloc_mc.Queue.Operations.{queue_push-IsHeap}
use mimalloc_mc.Segment.{ptr_segment}
use mimalloc_mc.Pages.{Store, Found, Segments}
use mimalloc_mc.Pages.Invariant.{Contents, IsStore}
use mimalloc_mc.Pages.Retired.{Sweep}
use mimalloc_mc.Pages.Search.{search_queue}
use mimalloc_mc.Pages.Free.{free, free_generic, ptr_unalign}
use mimalloc_mc.Pages.Generic.{Calls, Given, malloc_generic}
use mimalloc_mc.Pages.Bins.{bin-IsUsed, full-IsUsed}
use mimalloc_mc.Pages.Searched.{IsPicked, search_queue-IsPicked}
use mimalloc_mc.Pages.Routes.{IsAccepted, free-free_generic, free_rejected}
use mimalloc_mc.Pages.Freed.{given_back, IsFreed, ptr_unalign_lem, free-IsFreed}
use mimalloc_mc.Pages.Append.{Adopted, queue_append, queue_append-IsQueues}
use mimalloc_mc.Pages.Allocated.{IsAllocated, malloc_generic-IsAllocated}

abbrev the_page : ℕ
the_page = 131136

abbrev first_block : ℕ
first_block = 139264

abbrev second_block : ℕ
second_block = 141312

-- Segments without anything of their own, which have no page to give and keep what is freed.
abbrev no_segments : Segments ℕ
no_segments = record {
  area = λ rest page. first_block;
  page_size = λ rest page. 8192;
  page_of = λ rest p. the_page;
  is_huge = λ rest page. false;
  cookie = λ rest segment. 5;
  thread_id = λ rest segment. 7;
  page_alloc = λ size st. record { page = 0; store = st };
  page_free = λ page force st. st;
  huge_page_free = λ page block st. st;
  empty_page = 64;
  heap_address = 4096;
  this_thread = 7;
  ptr_cookie = λ segment. 5;
}

abbrev page_fields : Page
page_fields = record {
  segment_idx = 0;
  segment_in_use = true;
  is_reset = false;
  is_committed = true;
  is_zero_init = false;
  capacity = 2;
  reserved = 4;
  in_full = false;
  has_aligned = false;
  is_zero = false;
  retire_expire = 0;
  free = second_block;
  used = 1;
  xblock_size = 2048;
  local_free = 0;
  xthread_free = 0;
  xheap = 4096;
  next = 0;
  prev = 0;
}

abbrev page_state : State
page_state = record { mem = λ a. 0; page = page_fields }

abbrev blocks_of : Contents
blocks_of = record { free = second_block ∷ []; local = []; thread = []; live = first_block ∷ [] }

page_state-IsPage : IsPage first_block 2048 page_state (second_block ∷ []) [] [] (first_block ∷ [])
unfolding tf_block
page_state-IsPage = record {
  free_chain = (refl, omega arith, refl);
  local_chain = refl;
  thread_chain = refl;
  tag_word = omega arith;
  parts = λ a. ground arith;
  in_use = refl;
  total = refl;
  within = omega arith;
  small = omega arith;
  area_ok = record {
    some_size = omega arith;
    area_aligned = refl;
    size_aligned = refl;
    not_null = omega arith;
    in_space = omega arith;
  };
}

abbrev empty_heap : Heap
empty_heap = record {
  links = record { next = λ _. 0; prev = λ _. 0 };
  queues = λ _. record { first = 0; last = 0 };
  direct = λ _. 64;
  page_count = 0;
  in_full = λ _. false;
  xblock_size = λ _. 2048;
}

abbrev no_pages : Lists
no_pages _ = []

abbrev the_bin : ℕ
the_bin = bin 2048

abbrev one_page : Lists
one_page = update no_pages the_bin (the_page ∷ [])

abbrev the_heap : Heap
the_heap = queue_push 64 the_bin the_page empty_heap

the_heap-IsHeap : IsHeap 64 the_heap one_page
the_heap-IsHeap =
    queue_push-IsHeap {lists = no_pages} the_bin the_page
      (record {
        queues = record {
          queue = λ b. record { linked = refl; ends = refl; once = λ a. omega arith };
          apart = λ b c a ne m. refl;
          direct = λ w h. refl;
        };
        place = λ b a m. absurd (omega (arith, m));
        counted = refl;
        fits = omega arith;
      })
      (bin-IsUsed 2048).0 (omega arith) (λ c. refl) (λ _. refl) (omega arith)

the_heap-size : the_heap.xblock_size ≡ (λ _. 2048)
unfolding queue_push
the_heap-size = xblock_size_kept true 64 the_bin _

abbrev the_store : Store ℕ
the_store = record {
  heap = the_heap;
  pages = λ _. page_state;
  page_retired_min = 74;
  page_retired_max = 0;
  thread_delayed_free = λ _. 0;
  heartbeat = 0;
  recurse = false;
  rest = 0;
}

only_bin : (b a : ℕ) → 0 < count a (one_page b) → the_bin ≡ b
only_bin b a m = elim (Bool-cases (the_bin == b)) [
  | inl here ↦ (==_iff the_bin b).0 here
  | inr off ↦ absurd (let m' = rw off at m in omega (arith, m'))
]

the_store-IsStore : IsStore no_segments the_store one_page (λ _. blocks_of)
the_store-IsStore = record {
  heap = the_heap-IsHeap;
  used = λ b a m. subst IsUsed (only_bin b a m) (bin-IsUsed 2048).0;
  contents = λ b a m. page_state-IsPage;
  sized = λ b a m. ap (λ f. f a) the_heap-size;
}

in_the_bin : 0 < count the_page (one_page the_bin)
in_the_bin = rw (eq→== the_bin the_bin refl) (omega arith)

search_queue-IsPicked_example :
    (found : Found ℕ) × (search_queue no_segments the_bin the_store ≡ some found)
    × IsPicked no_segments the_bin the_store one_page (λ _. blocks_of) found
search_queue-IsPicked_example =
    search_queue-IsPicked no_segments the_bin (bin-IsUsed 2048).0 (bin-IsUsed 2048).1 full-IsUsed
      the_store one_page (λ _. blocks_of) the_store-IsStore

abbrev sweep : Sweep ℕ
sweep = record { min = 73; max = 0; store = the_store }

in_the_segment : ptr_segment first_block ≢ 0
unfolding ptr_segment
in_the_segment = omega arith

abbrev first_accepted : IsAccepted no_segments first_block the_store
first_accepted = record { aligned = refl; in_segment = in_the_segment; cookie = refl }

free-free_generic_example :
    free no_segments first_block the_store ≡ free_generic no_segments true first_block the_store
free-free_generic_example = free-free_generic no_segments first_block the_store first_accepted

free_rejected_example : free no_segments 139265 the_store ≡ the_store
free_rejected_example = free_rejected no_segments 139265 the_store (inl (omega arith))

ptr_unalign_lem_example :
    ptr_unalign no_segments the_page (first_block + (1 * 2048 + 64)) the_store
    ≡ first_block + 1 * 2048
ptr_unalign_lem_example =
    ptr_unalign_lem no_segments the_store the_page 1 64 (omega arith) (omega arith)

free-IsFreed_example :
    IsFreed no_segments the_bin
      (bin (the_heap.xblock_size the_page))
      the_page
      one_page
      (update (λ _. blocks_of) the_page (given_back first_block blocks_of))
      (free no_segments first_block the_store)
free-IsFreed_example =
    free-IsFreed no_segments the_store one_page (λ _. blocks_of) the_store-IsStore the_bin
      first_block first_accepted refl in_the_bin (omega arith)

abbrev calls : Calls ℕ
calls = record {
  is_initialized = λ st. true;
  thread_init = λ st. st;
  heap_collect = λ force st. some st;
  deferred = none;
  os_page_size = 4096;
}

malloc_generic-IsAllocated_example :
    (given : Given ℕ) × (malloc_generic no_segments calls 1 2048 the_store ≡ some given)
    × IsAllocated no_segments the_bin (λ _. blocks_of) given
malloc_generic-IsAllocated_example =
    malloc_generic-IsAllocated no_segments calls 1 2048 the_page the_store one_page (λ _. blocks_of)
      (omega arith) the_store-IsStore refl refl refl (omega arith) (omega arith) in_the_bin
      (omega arith)

-- A page at 8192 of another heap comes to a heap without pages.
abbrev other_page : ℕ
other_page = 8192

abbrev other_ends : Ends
other_ends = record { first = other_page; last = other_page }

abbrev bare_store : Store ℕ
bare_store = record the_store { heap = empty_heap }

empty_heap-IsQueues : IsQueues 64 empty_heap no_pages
empty_heap-IsQueues = record {
  queue = λ b. record { linked = refl; ends = refl; once = λ a. omega arith };
  apart = λ b c a ne m. refl;
  direct = λ w h. refl;
}

other_page-IsQueue : IsQueue empty_heap.links other_ends (other_page ∷ [])
other_page-IsQueue = record {
  linked = (refl, omega arith, refl, refl);
  ends = refl;
  once = λ a. ground arith;
}

settled_page : same_delayed (tf_delayed 0) delayed_freeing ≡ false
unfolding tf_delayed
settled_page = refl

queue_append-IsQueues_example :
    (r : Adopted ℕ) × (queue_append no_segments 2 the_bin other_ends bare_store ≡ some r)
    × (r.number ≡ 1)
    × IsQueues 64 r.store.heap (update no_pages the_bin (other_page ∷ []))
    × ((a : ℕ) → 0 < count a (other_page ∷ []) → (r.store.pages a).page.xheap ≡ 4096)
queue_append-IsQueues_example =
    queue_append-IsQueues no_segments 2 the_bin other_ends other_page [] bare_store no_pages
      empty_heap-IsQueues (bin-IsUsed 2048).0 other_page-IsQueue (λ c a m. refl)
      (λ a m. settled_page) (omega arith)
