-- ===== src/System/Tests.antt =====
-- Identifiers, and an arena of two fields of which the first is full.
use mimalloc_mc.Prelude.{◌≡◌, ◌≢◌, arith, ◌==◌, if◌then◌else◌}
use mimalloc_mc.Size.{size_max}
use mimalloc_mc.System.Ids.{
  from_arena, from_region, memid_create, memid_create_from_arena, memid_is_arena, arena_id_create,
  arena_id_indices, memid_roundtrip, arena_id_roundtrip,
}
use mimalloc_mc.System.Arena.{Arena, arena_alloc, IsSearched, arena_alloc-IsSearched}

memid_roundtrip_example :
    (memid_is_arena (memid_create 3 17) ≡ from_region 3 17)
    × (memid_is_arena (memid_create_from_arena 1281) ≡ from_arena 1281)
memid_roundtrip_example = memid_roundtrip 3 17 1281 (omega arith) (omega arith) (omega arith)

arena_id_roundtrip_example :
    (arena_id_indices (arena_id_create 0 5) ≡ (0, 5)) × (arena_id_create 0 5 ≢ 0)
arena_id_roundtrip_example = arena_id_roundtrip 0 5 (omega arith) (omega arith)

abbrev half_full : Arena
half_full = record {
  blocks_inuse = λ i. if i == 0 then size_max else 3;
  field_count = 2;
  search_idx = 7;
}

arena_alloc-IsSearched_example : IsSearched half_full 2 (arena_alloc 2 half_full)
arena_alloc-IsSearched_example =
    arena_alloc-IsSearched 2 half_full (omega arith) (omega arith) (omega arith) (λ i. ground arith)
