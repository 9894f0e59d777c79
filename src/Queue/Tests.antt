-- ===== src/Queue/Tests.antt =====
-- A heap with pages at 4096 and 8192 for blocks of 48 bytes.
use mimalloc_mc.Prelude.{ℕ, ◌≡◌, refl, [], ◌∷◌, ◌++◌, false, arith, update}
use mimalloc_mc.Prelude.Chain.{erase}
use mimalloc_mc.Size.{bin_full}
use mimalloc_mc.Size.Bin.{bin, bin_size, bsr32, bsr_rounds}
use mimalloc_mc.Size.Align.{wsize_from_size}
use mimalloc_mc.Queue.{
  Heap, queue_is_full, queue_remove, queue_push, queue_enqueue_from, queue_first_update, start_slot,
  skip_back, fill,
}
use mimalloc_mc.Queue.Direct.{IsUsed}
use mimalloc_mc.Queue.Invariant.{Lists, IsHeap}
use mimalloc_mc.Queue.Operations.{queue_remove-IsHeap, queue_push-IsHeap, queue_enqueue_from-IsHeap}

abbrev page_a : ℕ
page_a = 4096

abbrev page_b : ℕ
page_b = 8192

abbrev empty_page : ℕ
empty_page = 64

abbrev no_pages : Lists
no_pages _ = []

abbrev fresh_heap : Heap
fresh_heap = record {
  links = record { next = λ _. 0; prev = λ _. 0 };
  queues = λ _. record { first = 0; last = 0 };
  direct = λ _. empty_page;
  page_count = 0;
  in_full = λ _. false;
  xblock_size = λ _. 48;
}

fresh_heap-IsHeap : IsHeap empty_page fresh_heap no_pages
fresh_heap-IsHeap = record {
  queues = record {
    queue = λ b. record { linked = refl; ends = refl; once = λ a. omega arith };
    apart = λ b c a ne m. refl;
    direct = λ w h. refl;
  };
  place = λ b a m. absurd (omega (arith, m));
  counted = refl;
  fits = omega arith;
}

bin_of_48 : bin 48 ≡ 6
unfolding bin wsize_from_size bsr32 bsr_rounds
bin_of_48 = refl

size_of_6 : bin (bin_size 6) ≡ 6
unfolding bin bin_size wsize_from_size bsr32 bsr_rounds
size_of_6 = refl

six-IsUsed : IsUsed 6
six-IsUsed = record { some_bin = omega arith; in_heap = omega arith; own = λ _. size_of_6 }

full-IsUsed : IsUsed bin_full
full-IsUsed = record { some_bin = omega arith; in_heap = omega arith; own = λ h. omega (arith, h) }

abbrev one_page : Heap
one_page = queue_push empty_page 6 page_a fresh_heap

abbrev page_a_list : Lists
page_a_list = update no_pages 6 (page_a ∷ [])

queue_push_example : IsHeap empty_page one_page page_a_list
queue_push_example =
    queue_push-IsHeap 6 page_a fresh_heap-IsHeap six-IsUsed (omega arith) (λ c. refl)
      (λ _. bin_of_48) (omega arith)

first_page-IsHeap : IsHeap empty_page one_page page_a_list
first_page-IsHeap =
    queue_push-IsHeap 6 page_a fresh_heap-IsHeap six-IsUsed (omega arith) (λ c. refl)
      (λ _. bin_of_48) (omega arith)

queue_remove_example :
    IsHeap empty_page
      (queue_remove empty_page 6 page_a one_page)
      (update page_a_list 6 (erase page_a (page_a ∷ [])))
queue_remove_example = queue_remove-IsHeap 6 page_a first_page-IsHeap six-IsUsed (omega arith)

queue_enqueue_from_example :
    IsHeap empty_page
      (queue_enqueue_from empty_page bin_full 6 page_a one_page)
      (update (update page_a_list 6 (erase page_a (page_a ∷ []))) bin_full ([] ++ page_a ∷ []))
queue_enqueue_from_example =
    queue_enqueue_from-IsHeap 6 page_a first_page-IsHeap six-IsUsed bin_full full-IsUsed
      (omega arith) (omega arith) (omega arith) (λ ne. absurd (ne refl))

two_pages : (queue_push empty_page 6 page_b one_page).page_count ≡ 2
unfolding queue_push queue_first_update queue_is_full start_slot skip_back fill bin bin_size
    wsize_from_size bsr32 bsr_rounds
two_pages = refl

direct_slot : (queue_push empty_page 6 page_b one_page).direct 5 ≡ page_b
unfolding queue_push queue_first_update queue_is_full start_slot skip_back fill bin bin_size
    wsize_from_size bsr32 bsr_rounds
direct_slot = refl
