-- ===== src/Pages/Retired.antt =====
-- `_mi_heap_collect_retired` of mimalloc-custom/page.c.
use mimalloc_mc.Prelude.{ℕ, zero, suc, ◌+◌, ◌-◌, Bool, not, ◌||◌, ltb, ◌==◌, if◌then◌else◌}
use mimalloc_mc.Size.{bin_full}
use mimalloc_mc.Page.{all_free}
use mimalloc_mc.Pages.{Store, Segments, page_field, set_field}
use mimalloc_mc.Pages.Move.{page_free}

-- The bins seen so far that keep a retired page, with the store.
pub record Sweep (S : Type 0) : Type 0 where
  pub min : ℕ
  pub max : ℕ
  pub store : Store S

module _ {S : Type 0} (seg : Segments S) where
  abbrev pub set_expire : (page expire : ℕ) → Store S → Store S
  set_expire page expire st =
      set_field page (record (page_field page st) { retire_expire = expire }) st

  -- The body of the loop, for one bin.
  unfoldable pub sweep_bin : (force : Bool) → (b : ℕ) → Sweep S → Sweep S
  sweep_bin force b w =
      let st = w.store in
      let page = (st.heap.queues b).first in
      let expire = (page_field page st).retire_expire in
      let st' = set_expire page (expire - 1) st in
      if (page == 0) || (expire == 0)
      then w
      else if not (all_free (page_field page st))
      then record w { store = set_expire page 0 st }
      else if force || (expire - 1 == 0)
      then record w { store = page_free seg page b force st' }
      else record {
        min = if ltb b w.min then b else w.min;
        max = if ltb w.max b then b else w.max;
        store = st';
      }

  -- `n` bins from `b` on.
  unfoldable pub sweep_bins : (force : Bool) → (n b : ℕ) → Sweep S → Sweep S
  sweep_bins force zero b w = w
  sweep_bins force (suc n) b w = sweep_bins force n (b + 1) (sweep_bin force b w)

  unfoldable pub collect_retired : (force : Bool) → Store S → Store S
  collect_retired force st =
      let w =
        sweep_bins force (st.page_retired_max + 1 - st.page_retired_min) st.page_retired_min
          (record { min = bin_full; max = 0; store = st }) in
      record (w.store) { page_retired_min = w.min; page_retired_max = w.max }
