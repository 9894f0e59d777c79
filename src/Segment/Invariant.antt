-- ===== src/Segment/Invariant.antt =====
-- A thread's segments, and the queues of those with free pages as lists.
use mimalloc_mc.Prelude.{
  ℕ, ◌<◌, ◌≡◌, ◌≢◌, ◌⊎◌, refl, sym, ap, ◌∙◌, inl, inr, List, [], ◌∷◌, ◌++◌, Bool, true, false, ltb,
  ◌==◌, if◌then◌else◌, some, ==→ne,
}
use mimalloc_mc.Prelude.Chain.{count}
use mimalloc_mc.Size.{word_mod}
use mathlib.Core.Path.{fun_ext}
use mimalloc_mc.Delayed.Family.{total}
use mimalloc_mc.Links.{Ends, IsQueue}
use mimalloc_mc.Segment.{
  PageKind, small_page, medium_page, large_page, huge_page, Segment, is_at_most_medium,
}
use mimalloc_mc.Segment.Store.{Tld, Store, free_queue_of_kind, set_free_queue}
use mimalloc_mc.Segment.Kept.{IsSame, IsKept, in_use}

abbrev pub one_if : Bool → ℕ
one_if true = 1
one_if false = 0

-- The count of used pages is right.
pub record IsSegment (s : Segment) : Type 0 where
  pub counted : total one_if s.capacity (in_use s) ≡ s.used
  pub small : s.capacity < word_mod

-- The list of each kind of page.
abbrev pub Lists : Type 0
Lists = PageKind → List ℕ

abbrev pub ends_of : PageKind → Tld → Ends
ends_of small_page tld = tld.small_free
ends_of medium_page tld = tld.medium_free
ends_of large_page tld = record { first = 0; last = 0 }
ends_of huge_page tld = record { first = 0; last = 0 }

-- Which segments the list of a kind has.
abbrev pub BelongsTo : {W : Type 0} → Store W → List ℕ → (ℕ → Bool) → PageKind → ℕ → Type 0
BelongsTo st owned is_open k a =
    (0 < count a owned)
    × ((st.segments a).page_kind ≡ k)
    × (is_at_most_medium k ≡ true)
    × (is_open a ≡ true)

-- The queues have the segments that are open.
pub record IsTracked {W : Type 0} (st : Store W) (lists : Lists) (owned : List ℕ)
    (is_open : ℕ → Bool) : Type 0 where
  pub queue :
      (k : PageKind) → is_at_most_medium k ≡ true → IsQueue st.links (ends_of k st.tld) (lists k)
  pub listed : (k : PageKind) (a : ℕ) → BelongsTo st owned is_open k a → 0 < count a (lists k)
  pub only : (k : PageKind) (a : ℕ) → 0 < count a (lists k) → BelongsTo st owned is_open k a
  pub segments : (a : ℕ) → 0 < count a owned → IsSegment (st.segments a)
  pub not_null : count 0 owned ≡ 0

abbrev pub has_room : {W : Type 0} → Store W → ℕ → Bool
has_room st a = ltb (st.segments a).used (st.segments a).capacity

-- The queues have the segments with free pages.
abbrev pub IsStore : {W : Type 0} → Store W → Lists → List ℕ → Type 0
IsStore st lists owned = IsTracked st lists owned (has_room st)

pub IsSame-IsSegment : {s s' : Segment} → IsSame s s' → IsSegment s → IsSegment s'
IsSame-IsSegment {s} {s'} same v =
    let pages : in_use s' ≡ in_use s = fun_ext same.pages in
    record {
      counted = rw (same.capacity, same.used, pages) v.counted;
      small = rw same.capacity v.small;
    }

pub ends_kept :
    {W : Type 0} {st st' : Store W}
    → IsKept st st'
    → (k : PageKind) → ends_of k st'.tld ≡ ends_of k st.tld
ends_kept kept small_page = kept.small
ends_kept kept medium_page = kept.medium
ends_kept kept large_page = refl
ends_kept kept huge_page = refl

pub IsKept-IsTracked :
    {W : Type 0} {st st' : Store W} {lists : Lists} {owned : List ℕ} {is_open : ℕ → Bool}
    → IsKept st st'
    → IsTracked st lists owned is_open
    → IsTracked st' lists owned is_open
IsKept-IsTracked kept v = record {
  queue = λ k small. rw (kept.links, ends_kept kept k) (v.queue k small);
  listed = λ k a b. v.listed k a (b.0, sym (kept.segments a).kind ∙ b.1, b.2, b.3);
  only = λ k a m. let b = v.only k a m in (b.0, (kept.segments a).kind ∙ b.1, b.2, b.3);
  segments = λ a o. IsSame-IsSegment (kept.segments a) (v.segments a o);
  not_null = v.not_null;
}

pub has_room_kept :
    {W : Type 0} {st st' : Store W} → IsKept st st' → (a : ℕ) → has_room st' a ≡ has_room st a
has_room_kept kept a = rw ((kept.segments a).used, (kept.segments a).capacity) refl

-- The queue of a kind is found and changed.
pub find_queue :
    (k : PageKind) (tld : Tld)
    → is_at_most_medium k ≡ true
    → free_queue_of_kind k tld ≡ some (ends_of k tld)
unfolding is_at_most_medium
find_queue small_page tld e = refl
find_queue medium_page tld e = refl
find_queue large_page tld e = cc e
find_queue huge_page tld e = cc e

pub change_queue :
    (k : PageKind) (e : Ends) (tld : Tld)
    → is_at_most_medium k ≡ true
    → ends_of k (set_free_queue k e tld) ≡ e
unfolding is_at_most_medium
change_queue small_page e tld h = refl
change_queue medium_page e tld h = refl
change_queue large_page e tld h = cc h
change_queue huge_page e tld h = cc h

abbrev pub kind_code : PageKind → ℕ
kind_code small_page = 0
kind_code medium_page = 1
kind_code large_page = 2
kind_code huge_page = 3

-- The lists with one more segment at the end of the list of a kind.
abbrev pub joined : PageKind → (base : ℕ) → Lists → Lists
joined k base lists j = if kind_code k == kind_code j then lists j ++ base ∷ [] else lists j

-- Two kinds are the same, or a change of the queue of the one is none of the other's.
pub kind_cases :
    (k j : PageKind)
    → (k ≡ j)
      ⊎ (((kind_code k == kind_code j) ≡ false)
          × ((e : Ends) (tld : Tld) → ends_of j (set_free_queue k e tld) ≡ ends_of j tld))
kind_cases small_page small_page = inl refl
kind_cases small_page medium_page = inr (refl, λ e tld. refl)
kind_cases small_page large_page = inr (refl, λ e tld. refl)
kind_cases small_page huge_page = inr (refl, λ e tld. refl)
kind_cases medium_page small_page = inr (refl, λ e tld. refl)
kind_cases medium_page medium_page = inl refl
kind_cases medium_page large_page = inr (refl, λ e tld. refl)
kind_cases medium_page huge_page = inr (refl, λ e tld. refl)
kind_cases large_page small_page = inr (refl, λ e tld. refl)
kind_cases large_page medium_page = inr (refl, λ e tld. refl)
kind_cases large_page large_page = inl refl
kind_cases large_page huge_page = inr (refl, λ e tld. refl)
kind_cases huge_page small_page = inr (refl, λ e tld. refl)
kind_cases huge_page medium_page = inr (refl, λ e tld. refl)
kind_cases huge_page large_page = inr (refl, λ e tld. refl)
kind_cases huge_page huge_page = inl refl

pub kinds_differ : (k j : PageKind) → (kind_code k == kind_code j) ≡ false → k ≢ j
kinds_differ k j h z = ==→ne _ _ h (ap kind_code z)
