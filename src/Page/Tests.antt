-- ===== src/Page/Tests.antt =====
-- A page of four blocks of 2048 bytes at the address 65536, two of them enabled.
use mimalloc_mc.Prelude.{
  ℕ, ◌+◌, ◌≤◌, ◌<◌, ◌≡◌, ◌≢◌, refl, [], ◌∷◌, List, true, false, some, arith, ◌==◌, if◌then◌else◌,
}
use mimalloc_mc.Prelude.Chain.{count}
use mimalloc_mc.ThreadFree.{tf_block}
use mimalloc_mc.ThreadFree.Tags.{IsBlockPointer}
use mimalloc_mc.Page.{Page, State}
use mimalloc_mc.Page.Blocks.{page_malloc, free_mt, free_collect}
use mimalloc_mc.Page.Grow.{extend_free, extend_count, page_init}
use mimalloc_mc.Page.Invariant.{IsArea, IsPage}
use mimalloc_mc.Page.Link.{run}
use mimalloc_mc.Page.Collect.{free_collect-IsPage}
use mimalloc_mc.Page.Extend.{extend_free-IsPage, page_init-IsPage}
use mimalloc_mc.Page.Life.{World, frees_mt, Reach, here, then_step, IsWorld, malloc_is_new}

abbrev no_blocks : List ℕ
no_blocks = []

abbrev one_block : List ℕ
one_block = 65536 ∷ []

abbrev two_blocks : List ℕ
two_blocks = 67584 ∷ 65536 ∷ []

abbrev taken_block : ℕ
taken_block = 67584

abbrev page_with : (capacity reserved free used xblock_size xthread_free : ℕ) → Page
page_with capacity reserved free used xblock_size xthread_free = record {
  segment_idx = 0;
  segment_in_use = true;
  is_reset = false;
  is_committed = true;
  is_zero_init = false;
  capacity = capacity;
  reserved = reserved;
  in_full = false;
  has_aligned = false;
  is_zero = false;
  retire_expire = 0;
  free = free;
  used = used;
  xblock_size = xblock_size;
  local_free = 0;
  xthread_free = xthread_free;
  xheap = 4096;
  next = 0;
  prev = 0;
}

abbrev state_with : (free used next_of_first xthread_free : ℕ) → State
state_with free used next_of_first xthread_free = record {
  mem = λ a. if a == 65536 then next_of_first else 0;
  page = page_with 2 4 free used 2048 xthread_free;
}

abbrev area_ok : IsArea 65536 2048 4
area_ok = record {
  some_size = omega arith;
  area_aligned = refl;
  size_aligned = refl;
  not_null = omega arith;
  in_space = omega arith;
}

abbrev fresh : State
fresh = record { mem = λ a. 0; page = page_with 0 0 0 0 0 0 }

page_init-IsPage_example :
    (t : State) × (page_init 4096 65536 8192 2048 fresh ≡ some t)
    × (k : ℕ) × (0 < k)
    × (t.page.capacity ≡ k)
    × IsPage 65536 2048 t (run 65536 2048 0 k) [] [] []
page_init-IsPage_example =
    page_init-IsPage 4096 65536 8192 2048 fresh
      (record {
        no_capacity = refl;
        no_free = refl;
        no_local = refl;
        none_used = refl;
        no_thread = refl;
      })
      (omega arith) (omega arith) (omega arith) area_ok

-- Both blocks free; the first one taken; the first one freed by another thread; both taken.
abbrev all_there : State
all_there = state_with 65536 0 67584 0

abbrev one_taken : State
one_taken = state_with 67584 1 0 0

abbrev one_returned : State
one_returned = state_with 67584 1 0 65536

abbrev none_there : State
none_there = state_with 0 2 0 0

all_there-IsPage : IsPage 65536 2048 all_there (65536 ∷ 67584 ∷ []) [] [] []
unfolding tf_block
all_there-IsPage = record {
  free_chain = (refl, λ e. omega (arith, e), (refl, λ e. omega (arith, e), refl));
  local_chain = refl;
  thread_chain = refl;
  tag_word = omega arith;
  parts = λ a. ground arith;
  in_use = refl;
  total = refl;
  within = omega arith;
  small = omega arith;
  area_ok = area_ok;
}

one_taken-IsPage : IsPage 65536 2048 one_taken (67584 ∷ []) [] [] (65536 ∷ [])
unfolding tf_block
one_taken-IsPage = record {
  free_chain = (refl, λ e. omega (arith, e), refl);
  local_chain = refl;
  thread_chain = refl;
  tag_word = omega arith;
  parts = λ a. ground arith;
  in_use = refl;
  total = refl;
  within = omega arith;
  small = omega arith;
  area_ok = area_ok;
}

one_returned-IsPage : IsPage 65536 2048 one_returned (67584 ∷ []) [] (65536 ∷ []) []
unfolding tf_block
one_returned-IsPage = record {
  free_chain = (refl, λ e. omega (arith, e), refl);
  local_chain = refl;
  thread_chain = (refl, λ e. omega (arith, e), refl);
  tag_word = omega arith;
  parts = λ a. ground arith;
  in_use = refl;
  total = refl;
  within = omega arith;
  small = omega arith;
  area_ok = area_ok;
}

none_there-IsPage : IsPage 65536 2048 none_there [] [] [] (67584 ∷ 65536 ∷ [])
unfolding tf_block
none_there-IsPage = record {
  free_chain = refl;
  local_chain = refl;
  thread_chain = refl;
  tag_word = omega arith;
  parts = λ a. ground arith;
  in_use = refl;
  total = refl;
  within = omega arith;
  small = omega arith;
  area_ok = area_ok;
}

free_collect-IsPage_example :
    (t : State) × (free_collect true one_returned ≡ some t)
    × IsPage 65536 2048 t (65536 ∷ 67584 ∷ []) [] [] []
free_collect-IsPage_example = free_collect-IsPage true one_returned-IsPage

extend_free-IsPage_example :
    (t : State) × (extend_free 65536 8192 none_there ≡ some t)
    × (0 < extend_count 2048 2)
    × (t.page.capacity ≡ 2 + extend_count 2048 2)
    × IsPage 65536 2048 t (run 65536 2048 2 (extend_count 2048 2)) [] [] (67584 ∷ 65536 ∷ [])
extend_free-IsPage_example = extend_free-IsPage 8192 none_there-IsPage refl (omega arith)

abbrev world_0 : World
world_0 = record { state = one_taken; live = 65536 ∷ [] }

world_0-IsWorld : IsWorld 65536 2048 8192 world_0
world_0-IsWorld = record {
  free = 67584 ∷ [];
  local = [];
  thread = [];
  valid = one_taken-IsPage;
  size = refl;
}

abbrev world_1 : World
world_1 = record { state = free_mt 65536 one_taken; live = [] }

abbrev taken_next : State
taken_next = record world_1.state {
  page = record (world_1.state.page) { free = world_1.state.mem 67584; used = 2 };
}

world_1-Reach : Reach 65536 8192 world_0 world_1
world_1-Reach = then_step here (frees_mt 65536 (omega arith))

takes_next : page_malloc world_1.state ≡ some (67584, taken_next)
unfolding page_malloc free_mt
takes_next = refl

malloc_is_new_example :
    (count 67584 [] ≡ 0)
    × IsBlockPointer 67584
    × (taken_block ≢ 0)
    × ((a : ℕ) → count a (67584 ∷ []) ≤ 1)
malloc_is_new_example = malloc_is_new 67584 taken_next world_0-IsWorld world_1-Reach takes_next
