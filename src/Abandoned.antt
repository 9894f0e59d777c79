-- ===== src/Abandoned.antt =====
-- The lists of abandoned segments of mimalloc-custom/segment.c, which all threads share: `abandoned`,
-- whose word has a tag in the low digits of the first segment's address, and `abandoned_visited`.
-- An operation runs here without an access of another thread in between, so its compare-and-swap
-- succeeds at once; Abandoned/Tags has what the tag is good for otherwise.
pub mod Tags
pub mod Lists
mod Tests
use mimalloc_mc.Prelude.{
  ℕ, zero, suc, ◌+◌, ◌-◌, ◌%◌, ◌^◌, Bool, true, false, ◌==◌, if◌then◌else◌, update, bit_and, bit_or,
}
use mimalloc_mc.Prelude.Chain.{Memory}
use mimalloc_mc.Size.{word_not, segment_size}

abbrev pub tagged_mask : ℕ
tagged_mask = segment_size - 1

-- `next` is the field `abandoned_next` of the segments.
pub record Abandoned : Type 0 where
  pub abandoned : ℕ
  pub visited : ℕ
  pub next : Memory

unfoldable pub tagged_segment_ptr : ℕ → ℕ
tagged_segment_ptr ts = bit_and ts (word_not tagged_mask)

unfoldable pub tagged_segment : (segment ts : ℕ) → ℕ
tagged_segment segment ts =
    let tag = bit_and (bit_and ts tagged_mask + 1) tagged_mask in bit_or segment tag

unfoldable pub visited_push : (segment : ℕ) → Abandoned → Abandoned
visited_push segment a = record a { next = update a.next segment a.visited; visited = segment }

unfoldable pub abandoned_push : (segment : ℕ) → Abandoned → Abandoned
abandoned_push segment a = record a {
  next = update a.next segment (tagged_segment_ptr a.abandoned);
  abandoned = tagged_segment segment a.abandoned;
}

-- The last segment of a list, in at most as many steps as the fuel.
unfoldable pub last_of : (fuel : ℕ) → Memory → ℕ → ℕ
last_of zero next p = p
last_of (suc fuel) next p =
    let further = last_of fuel next (next p) in if next p == 0 then p else further

pub record Revisit : Type 0 where
  pub moved : Bool
  pub lists : Abandoned

unfoldable pub visited_revisit : (fuel : ℕ) → Abandoned → Revisit
visited_revisit fuel a =
    let first = a.visited in
    let ts = a.abandoned in
    let last = last_of fuel a.next first in
    if first == 0
    then record { moved = false; lists = a }
    else if tagged_segment_ptr ts == 0
    then record {
      moved = true;
      lists = record a { visited = 0; abandoned = tagged_segment first ts };
    }
    else record {
      moved = true;
      lists = record {
        visited = 0;
        next = update a.next last (tagged_segment_ptr ts);
        abandoned = tagged_segment first ts;
      };
    }

pub record Popped : Type 0 where
  pub segment : ℕ
  pub lists : Abandoned

unfoldable pub take_first : Abandoned → Popped
take_first a =
    let ts = a.abandoned in
    let segment = tagged_segment_ptr ts in
    if segment == 0 then record { segment = 0; lists = a } else record {
      segment = segment;
      lists = record a {
        abandoned = tagged_segment (a.next segment) ts;
        next = update a.next segment 0;
      };
    }

unfoldable pub abandoned_pop : (fuel : ℕ) → Abandoned → Popped
abandoned_pop fuel a =
    let revisit = visited_revisit fuel a in
    if tagged_segment_ptr a.abandoned == 0
    then (if revisit.moved then take_first revisit.lists else record { segment = 0; lists = a })
    else take_first a
