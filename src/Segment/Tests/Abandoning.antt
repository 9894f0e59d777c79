-- ===== src/Segment/Tests/Abandoning.antt =====
-- A page of a segment with one page in use is abandoned, and the segment with it.
use mimalloc_mc.Prelude.{ℕ, ◌≡◌, refl, [], true, ◌==◌, some, arith, if◌then◌else◌}
use mimalloc_mc.Segment.{small_page, is_at_most_medium}
use mimalloc_mc.Segment.Abandon.{Shared, page_abandon}
use mimalloc_mc.Segment.Abandoning.{IsCounted, IsGivenUp, page_abandon-IsGivenUp}
use mimalloc_mc.Page.{Page}
use mimalloc_mc.Abandoned.{tagged_segment_ptr}
use mimalloc_mc.Abandoned.Lists.{IsAbandoned}
use mimalloc_mc.Segment.Tests.{
  store_with, segment_with, third_in_use, home, one_segment, owned_segments, counting, options,
  release, busy_store, busy_store-IsStore,
}

abbrev busy : Shared ℕ
busy = record { store = busy_store; lists = record { abandoned = 0; visited = 0; next = λ _. 0 } }

busy-IsAbandoned : IsAbandoned busy.lists [] []
unfolding tagged_segment_ptr
busy-IsAbandoned = record {
  waiting = refl;
  visited = refl;
  once = λ s. omega arith;
  bases = λ s m. absurd (omega (arith, m));
}

page_abandon-IsGivenUp_example :
    (sh : Shared ℕ) × (page_abandon counting options release 1 home busy ≡ some sh)
    × (if (busy_store.segments home).used == 1
        then IsGivenUp home one_segment owned_segments [] [] 1 busy_store sh
        else IsCounted home busy sh)
unfolding is_at_most_medium
page_abandon-IsGivenUp_example =
    page_abandon-IsGivenUp counting options release 1 home small_page one_segment owned_segments []
      [] [] (λ a. ground arith) refl (λ a. omega arith) (omega arith)
      (record { aligned = refl; address = omega arith }) (omega arith) (omega arith) busy
      busy_store-IsStore (omega arith) refl (omega arith) (λ n. absurd (omega (arith, n))) refl
      busy-IsAbandoned

abbrev two_in_use : ℕ → Page
two_in_use i = if i == 3 then record (third_in_use 3) { segment_in_use = true } else third_in_use i

abbrev busier : Shared ℕ
busier = record busy { store = store_with (segment_with 2 two_in_use) }
