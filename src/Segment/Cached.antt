-- ===== src/Segment/Cached.antt =====
-- The cache of segments as a list.
use mimalloc_mc.Prelude.{
  ℕ, zero, suc, ◌/◌, ◌≤◌, ◌<◌, ◌≡◌, ◌≢◌, ◌⊎◌, refl, sym, ap, ◌∙◌, true, false, List, [], ◌∷◌, ◌++◌,
  some, arith, if◌then◌else◌, eq→==, ne→==,
}
use mimalloc_mc.Prelude.Lists.{length}
use mimalloc_mc.Prelude.Chain.{Chain, Chain-update, count}
use mimalloc_mc.Size.{word_mod, segment_size}
use mimalloc_mc.Segment.Store.{Store}
use mimalloc_mc.Segment.Cache.{
  Release, Answer, track_size, os_free, cache_pop, free_popped, thread_collect, cache_fraction,
}
use mimalloc_mc.Segment.Released.{
  IsReleased, IsReleased-none, IsReleased-more, in_one, uncommitted-thread, reset-thread,
}

-- The segments of the cache, the last one put there first.
pub record IsCache {W : Type 0} (st : Store W) (xs : List ℕ) : Type 0 where
  pub chain : Chain st.links.next st.tld.cache xs
  pub counted : st.tld.cache_count ≡ length xs
  pub fits : length xs < word_mod
  pub once : (a : ℕ) → count a xs ≤ 1

module _ {W : Type 0} (rel : Release W) where
  freed_first :
      (st : Store W) (x : ℕ) (xs : List ℕ)
      → IsCache st (x ∷ xs)
      → ((cache_pop rel 0 st).segment ≡ x)
        × IsCache (free_popped rel (cache_pop rel 0 st)) xs
        × IsReleased rel st (free_popped rel (cache_pop rel 0 st)) (x ∷ [])
  unfolding cache_pop os_free track_size
  freed_first st x xs v =
      let nz : st.tld.cache ≢ 0 = λ e. v.chain.1 (sym v.chain.0 ∙ e) in
      let off = ne→== st.tld.cache 0 nz in
      rw (off, off)
        (
          v.chain.0,
          record {
            chain = rw v.chain.0 (
                Chain-update st.links.next x 0 (st.links.next x) xs (ground (arith, v.once x))
                  v.chain.2);
            counted = omega (arith, v.counted, v.fits);
            fits = omega (arith, v.fits);
            once = λ a. ground (arith, v.once a);
          },
          record {
            memory =
                rw
                  (
                    uncommitted-thread (st.segments st.tld.cache).capacity
                        (st.segments st.tld.cache),
                    reset-thread (st.segments st.tld.cache).capacity (st.segments st.tld.cache),
                    v.chain.0,
                  )
                  refl;
            gone = λ a m. rw (eq→== st.tld.cache a (v.chain.0 ∙ in_one x a m)) refl;
            others = λ a out.
                rw (ne→== st.tld.cache a (λ e. ground (arith, out, sym v.chain.0 ∙ e))) refl;
          },
        )

  popped_none :
      (st : Store W) → IsCache st [] → cache_pop rel 0 st ≡ record { segment = 0; store = st }
  unfolding cache_pop
  popped_none st v = rw (eq→== st.tld.cache 0 v.chain) refl

  thread_collect_step :
      (fuel : ℕ) (st : Store W)
      → (cache_pop rel 0 st).segment ≢ 0
      → thread_collect rel (suc fuel) st
        ≡ thread_collect rel fuel (free_popped rel (cache_pop rel 0 st))
  unfolding thread_collect
  thread_collect_step fuel st nz =
      let r = cache_pop rel 0 st in
      ap (λ c. if c then some r.store else thread_collect rel fuel (free_popped rel r))
        (ne→== r.segment 0 nz)

  -- On a valid cache, with more fuel than it has segments, `_mi_segment_thread_collect` returns, with
  -- an empty cache: for each segment of the cache, in its order, `_mi_mem_free` has been called once, with
  -- the segment's size and memid and what is known of its pages, these segments have no thread, and no
  -- other segment has changed.
  pub thread_collect-IsReleased :
      (fuel : ℕ) (st : Store W) (xs : List ℕ)
      → IsCache st xs
      → length xs < fuel
      → (st' : Store W) × (thread_collect rel fuel st ≡ some st')
        × IsCache st' []
        × IsReleased rel st st' xs
  unfolding thread_collect
  thread_collect-IsReleased zero st xs v few = absurd (omega arith)
  thread_collect-IsReleased (suc fuel) st [] v few =
      (st, rw (popped_none st v) refl, v, IsReleased-none rel st)
  thread_collect-IsReleased (suc fuel) st (x ∷ xs) v few =
      let (popped, valid, first) = freed_first st x xs v in
      let (st', result, empty, rest) =
        thread_collect-IsReleased fuel (free_popped rel (cache_pop rel 0 st)) xs valid
          (omega (arith, few)) in
      let nz : (cache_pop rel 0 st).segment ≢ 0 = λ e. v.chain.1 (sym popped ∙ e) in
      (
        st',
        thread_collect_step fuel st nz ∙ result,
        empty,
        IsReleased-more rel x xs (ground (arith, v.once x)) first rest,
      )

-- The cache after `mi_segment_cache_push`: with the segment in front, within both limits; or without
-- it, cut down to the limit of the option.
pub data IsPushed {W : Type 0} (rel : Release W) (st : Store W) (base : ℕ) (xs : List ℕ)
    : Answer W → Type 0 where
  kept :
      {st' : Store W}
      → IsCache st' (base ∷ xs)
      → suc (length xs) ≤ rel.segment_cache
      → length xs ≤ st.tld.peak_count / cache_fraction
      → st'.segments ≡ st.segments
      → IsPushed rel st base xs (record { value = true; store = st' })
  wrong_size :
      (st.segments base).segment_size ≢ segment_size
      → IsPushed rel st base xs (record { value = false; store = st })
  at_limit :
      {st' : Store W} (freed left : List ℕ)
      → (rel.segment_cache ≤ length xs) ⊎ (st.tld.peak_count / cache_fraction < length xs)
      → xs ≡ freed ++ left
      → length left ≤ rel.segment_cache
      → IsCache st' left
      → IsReleased rel st st' freed
      → IsPushed rel st base xs (record { value = false; store = st' })
