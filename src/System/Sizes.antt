-- ===== src/System/Sizes.antt =====
-- The sizes that mimalloc-custom/os.c rounds to. The size of a page of the operating system is an
-- argument.
use mimalloc_mc.Prelude.{ℕ, ◌-◌, ◌*◌, ltb, leb, if◌then◌else◌}
use mimalloc_mc.Size.{size_max}
use mimalloc_mc.Size.Align.{align_up}

abbrev pub kib : ℕ
kib = 1024

abbrev pub mib : ℕ
mib = 1024 * kib

unfoldable pub good_align : (os_page_size size : ℕ) → ℕ
good_align os_page_size size =
    if ltb size (512 * kib)
    then os_page_size
    else if ltb size (2 * mib)
    then 64 * kib
    else if ltb size (8 * mib)
    then 256 * kib
    else if ltb size (32 * mib)
    then 1 * mib
    else 4 * mib

unfoldable pub good_alloc_size : (os_page_size size : ℕ) → ℕ
good_alloc_size os_page_size size =
    let align_size = good_align os_page_size size in
    if leb (size_max - align_size) size then size else align_up size align_size
