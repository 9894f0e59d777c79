-- ===== src/System.antt =====
-- Below the segments: the arithmetic of mimalloc-custom/os.c, and the identifiers and block counts of
-- mimalloc-custom/arena.c and mimalloc-custom/region.c. The calls of the operating system are not
-- modelled.
pub mod Sizes
pub mod Ids
pub mod Arena
mod Tests
