-- ===== src/Page/Grow.antt =====
-- `mi_page_block_at`, `mi_page_free_list_extend`, `mi_page_extend_free` and `mi_page_init` of
-- mimalloc-custom/page.c for `MI_SECURE` 0. The start of the page's area and its size are
-- arguments: they are what `_mi_segment_page_start` computes. Statistics are left out.
use mimalloc_mc.Prelude.{
  ℕ, zero, suc, ◌+◌, ◌-◌, ◌*◌, ◌/◌, ◌%◌, ◌^◌, false, not, Option, none, some, ltb, leb, ◌==◌,
  if◌then◌else◌, update,
}
use mathlib.Core.Option
use mimalloc_mc.Prelude.Chain.{Memory}
use mimalloc_mc.Size.{huge_block_size}
use mimalloc_mc.Page.{Page, State}

abbrev pub block_at : (area bsize i : ℕ) → ℕ
block_at area bsize i = area + i * bsize

-- `while (block <= last)`; `none` when the fuel runs out.
unfoldable pub link_blocks : (fuel : ℕ) → Memory → (bsize last block : ℕ) → Option Memory
link_blocks zero m bsize last block = none
link_blocks (suc fuel) m bsize last block =
    let rest = link_blocks fuel (update m block (block + bsize)) bsize last (block + bsize) in
    if leb block last then rest else some m

unfoldable pub free_list_extend : (area bsize extend : ℕ) → State → Option State
free_list_extend area bsize extend s =
    let p = s.page in
    let start = block_at area bsize p.capacity in
    let last = block_at area bsize (p.capacity + extend - 1) in
    Option.map (λ m. record { mem = update m last p.free; page = record p { free = start } })
      (link_blocks (extend + 1) s.mem bsize last start)

abbrev pub max_extend_size : ℕ
max_extend_size = 4 * 1024

abbrev pub min_extend : ℕ
min_extend = 1

-- How many blocks to add.
unfoldable pub extend_count : (bsize left : ℕ) → ℕ
extend_count bsize left =
    let wish =
      if leb max_extend_size bsize then min_extend else max_extend_size / (bsize % 2 ^ 32) in
    let max_extend = if ltb wish min_extend then min_extend else wish in
    if ltb max_extend left then (if max_extend == 0 then 1 else max_extend) else left

abbrev pub block_size_of : Page → (page_size : ℕ) → ℕ
block_size_of p page_size = if ltb p.xblock_size huge_block_size then p.xblock_size else page_size

-- The new blocks count, and only zeroed memory keeps the page zeroed.
abbrev pub enable : (extend : ℕ) → State → State
enable extend s = record s {
  page = record (s.page) {
    capacity = (s.page.capacity + extend % 2 ^ 16) % 2 ^ 16;
    is_zero = if not s.page.is_zero_init then false else s.page.is_zero;
  };
}

unfoldable pub extend_free : (area page_size : ℕ) → State → Option State
extend_free area page_size s =
    let p = s.page in
    if not (p.free == 0)
    then some s
    else if leb p.reserved p.capacity
    then some s
    else let bsize = block_size_of p page_size in
      let extend = extend_count bsize (p.reserved - p.capacity) in
      Option.map (enable extend) (free_list_extend area bsize extend s)

unfoldable pub page_init : (heap area page_size block_size : ℕ) → State → Option State
page_init heap area page_size block_size s =
    let p = s.page in
    extend_free area page_size (record s {
      page = record p {
        xheap = heap;
        xblock_size =
            if ltb block_size huge_block_size then block_size % 2 ^ 32 else huge_block_size;
        reserved = page_size / block_size % 2 ^ 16;
        is_zero = p.is_zero_init;
      };
    })
