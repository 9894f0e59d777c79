-- ===== src/System/Arena.antt =====
-- `mi_arena_alloc` of mimalloc-custom/arena.c: the search of the fields of an arena's bitmap, from
-- the place of the last success on and around its end.
use mimalloc_mc.Prelude.{
  ℕ, zero, suc, ◌+◌, ◌-◌, ◌≤◌, ◌<◌, ◌≢◌, sym, subst, inl, inr, Bool-cases, Option, none, some,
  arith, leb, ◌==◌, ==_iff, ==→ne, if◌then◌else◌,
}
use mimalloc_mc.Size.{word_mod}
use mimalloc_mc.Bitmap.{Bitmap, try_find_claim_field}
use mimalloc_mc.Bitmap.Search.{FirstFit, claimed_at, try_find_claim_field-FirstFit}

-- The bitmap of the blocks in use, its number of fields, and where the next search starts.
pub record Arena : Type 0 where
  pub blocks_inuse : Bitmap
  pub field_count : ℕ
  pub search_idx : ℕ

-- The index that was claimed, if any, with the arena after it.
pub record ArenaResult : Type 0 where
  pub claimed : Option ℕ
  pub arena : Arena

unfoldable pub wrap_around : (field_count idx : ℕ) → ℕ
wrap_around field_count idx = if leb field_count idx then 0 else idx

-- After the attempt on a field: success, or on to the next.
abbrev pub visited : (i : ℕ) → Arena → (on : Bitmap → ArenaResult) → Option ℕ × Bitmap → ArenaResult
visited i arena on (none, bitmap) = on bitmap
visited i arena on (some p, bitmap) = record {
  claimed = some p;
  arena = record arena { blocks_inuse = bitmap; search_idx = i };
}

-- `n` fields are left to visit.
unfoldable pub arena_search : (n idx blocks : ℕ) → Arena → ArenaResult
arena_search zero idx blocks arena = record { claimed = none; arena = arena }
arena_search (suc n) idx blocks arena =
    let i = wrap_around arena.field_count idx in
    visited i arena
      (λ bitmap. arena_search n (i + 1) blocks (record arena { blocks_inuse = bitmap }))
      (try_find_claim_field i blocks arena.blocks_inuse)

unfoldable pub arena_alloc : (blocks : ℕ) → Arena → ArenaResult
arena_alloc blocks arena = arena_search arena.field_count arena.search_idx blocks arena

-- How many fields after `i`, around the end, the field `j` comes.
abbrev pub ahead : (field_count i j : ℕ) → ℕ
ahead field_count i j = if leb i j then j - i else j + field_count - i

-- What a search of `n` fields from `i` on comes to: a claim of the first free place of a field, in
-- the bitmap as it was, or no field with room and no change.
pub data IsVisit (a : Arena) (blocks n i : ℕ) : ArenaResult → Type 0 where
  claims :
      {field p : ℕ}
      → field < a.field_count
      → FirstFit (a.blocks_inuse field) blocks (some p)
      → IsVisit a blocks n i (record {
        claimed = (claimed_at field blocks a.blocks_inuse (some p)).0;
        arena = record a {
          blocks_inuse = (claimed_at field blocks a.blocks_inuse (some p)).1;
          search_idx = field;
        };
      })
  fails :
      ((j : ℕ)
        → j < a.field_count
        → ahead a.field_count i j < n
        → FirstFit (a.blocks_inuse j) blocks none)
      → IsVisit a blocks n i (record { claimed = none; arena = a })

module _ (blocks : ℕ) (a : Arena) (some_blocks : 0 < blocks) (most : blocks ≤ 64)
    (words : (i : ℕ) → a.blocks_inuse i < word_mod) where
  wrap-lt : (idx : ℕ) → 0 < a.field_count → wrap_around a.field_count idx < a.field_count
  unfolding wrap_around
  wrap-lt idx h = ground arith

  one_ahead :
      (i j n : ℕ)
      → i < a.field_count
      → j < a.field_count
      → i ≢ j
      → ahead a.field_count i j < suc n
      → ahead a.field_count (wrap_around a.field_count (i + 1)) j < n
  unfolding wrap_around
  one_ahead i j n hi hj ne h = ground (arith, h, ne)

  failed_one :
      (n idx : ℕ) (r : ArenaResult)
      → 0 < a.field_count
      → FirstFit (a.blocks_inuse (wrap_around a.field_count idx)) blocks none
      → IsVisit a blocks n (wrap_around a.field_count (wrap_around a.field_count idx + 1)) r
      → IsVisit a blocks (suc n) (wrap_around a.field_count idx) r
  failed_one n idx _ pos here (claims inside first) = claims inside first
  failed_one n idx _ pos here (fails others) = fails (λ j hj near.
      elim (Bool-cases (wrap_around a.field_count idx == j)) [
        | inl at ↦ rw (← (==_iff _ j).0 at) here
        | inr off ↦ others j hj (
            one_ahead (wrap_around a.field_count idx) j n (wrap-lt idx pos) hj (==→ne _ j off) near)
      ])

  arena_search-IsVisit :
      (n idx : ℕ)
      → 0 < a.field_count
      → IsVisit a blocks n (wrap_around a.field_count idx) (arena_search n idx blocks a)
  unfolding arena_search
  arena_search-IsVisit zero idx pos = fails (λ j hj near. absurd (omega arith))
  arena_search-IsVisit (suc n) idx pos =
      let i = wrap_around a.field_count idx in
      let (r, fit, result) =
        try_find_claim_field-FirstFit i blocks a.blocks_inuse (words i) some_blocks most in
      subst
        (λ q. IsVisit a blocks (suc n) i (
          visited i a (λ bitmap. arena_search n (i + 1) blocks (record a { blocks_inuse = bitmap }))
            q))
        (sym result) (step r fit (arena_search-IsVisit n (i + 1) pos))
    where
      step :
          (r : Option ℕ)
          → FirstFit (a.blocks_inuse (wrap_around a.field_count idx)) blocks r
          → let i = wrap_around a.field_count idx in
            IsVisit a blocks n (wrap_around a.field_count (i + 1)) (arena_search n (i + 1) blocks a)
            → IsVisit a blocks (suc n) i (
                visited i a
                  (λ bitmap. arena_search n (i + 1) blocks (record a { blocks_inuse = bitmap }))
                  (claimed_at i blocks a.blocks_inuse r))
      step none fit rest = failed_one n idx _ pos fit rest
      step (some p) fit rest = claims (wrap-lt idx pos) fit

-- An arena as the search leaves it.
pub data IsSearched (a : Arena) (blocks : ℕ) : ArenaResult → Type 0 where
  claims_first :
      {field p : ℕ}
      → field < a.field_count
      → FirstFit (a.blocks_inuse field) blocks (some p)
      → IsSearched a blocks (record {
        claimed = (claimed_at field blocks a.blocks_inuse (some p)).0;
        arena = record a {
          blocks_inuse = (claimed_at field blocks a.blocks_inuse (some p)).1;
          search_idx = field;
        };
      })
  has_no_room :
      ((j : ℕ) → j < a.field_count → FirstFit (a.blocks_inuse j) blocks none)
      → IsSearched a blocks (record { claimed = none; arena = a })

-- For an arena with fields that are words, and 1 to 64 blocks, `mi_arena_alloc` claims the first
-- place with so many free blocks in one of the fields, and starts the next search there; it fails,
-- and changes nothing, only if no field has such a place, wherever the search has started.
pub arena_alloc-IsSearched :
    (blocks : ℕ) (a : Arena)
    → 0 < blocks
    → blocks ≤ 64
    → 0 < a.field_count
    → ((i : ℕ) → a.blocks_inuse i < word_mod)
    → IsSearched a blocks (arena_alloc blocks a)
unfolding arena_alloc
arena_alloc-IsSearched blocks a some_blocks most pos words =
    all_fields _
      (arena_search-IsVisit blocks a some_blocks most words a.field_count a.search_idx pos)
  where
    start-lt : wrap_around a.field_count a.search_idx < a.field_count
    start-lt = wrap-lt blocks a some_blocks most words a.search_idx pos

    all_fields :
        (r : ArenaResult)
        → IsVisit a blocks a.field_count (wrap_around a.field_count a.search_idx) r
        → IsSearched a blocks r
    all_fields _ (claims inside first) = claims_first inside first
    all_fields _ (fails none') = has_no_room (λ j hj. none' j hj (ground (arith, start-lt)))
