-- ===== src/ThreadFree.antt =====
-- `mi_thread_free_t` of mimalloc-custom/mimalloc-types.h: the address of a block and, in the two
-- lowest bits, the delayed-free flag; with the helpers `mi_tf_*` of
-- mimalloc-custom/mimalloc-internal.h.
pub mod Tags
mod Tests
use mimalloc_mc.Prelude.{ℕ, bit_and, bit_or, ◌==◌, if◌then◌else◌}
use mimalloc_mc.Size.{word_not}

pub data Delayed : Type 0 where
  use_delayed_free : Delayed
  delayed_freeing : Delayed
  no_delayed_free : Delayed
  never_delayed_free : Delayed

-- The enumeration's values.
abbrev pub delayed_code : Delayed → ℕ
delayed_code use_delayed_free = 0
delayed_code delayed_freeing = 1
delayed_code no_delayed_free = 2
delayed_code never_delayed_free = 3

-- The cast to `mi_delayed_t`, of a value below 4.
abbrev pub delayed_of : ℕ → Delayed
delayed_of n =
    if n == 0
    then use_delayed_free
    else if n == 1
    then delayed_freeing
    else if n == 2
    then no_delayed_free
    else never_delayed_free

unfoldable pub tf_block : ℕ → ℕ
tf_block tf = bit_and tf (word_not 3)

unfoldable pub tf_delayed : ℕ → Delayed
tf_delayed tf = delayed_of (bit_and tf 3)

unfoldable pub tf_make : ℕ → Delayed → ℕ
tf_make block delayed = bit_or block (delayed_code delayed)

unfoldable pub tf_set_delayed : ℕ → Delayed → ℕ
unfolding tf_make tf_block
tf_set_delayed tf delayed = tf_make (tf_block tf) delayed

unfoldable pub tf_set_block : ℕ → ℕ → ℕ
unfolding tf_make tf_delayed
tf_set_block tf block = tf_make block (tf_delayed tf)
