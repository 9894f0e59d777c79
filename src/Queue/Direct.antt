-- ===== src/Queue/Direct.antt =====
-- The direct table of a heap: for each small word size the first page of its queue.
use mimalloc_mc.Prelude.{
  ℕ, zero, suc, ◌+◌, ◌-◌, ◌*◌, ◌≤◌, ◌<◌, ◌≡◌, ◌≢◌, ◌↔◌, refl, sym, ap, ◌∙◌, inl, inr, Bool, true,
  false, not, leb→le, ◌&&◌, ◌||◌, ltb, leb, ◌==◌, if◌then◌else◌, arith, update, all_below,
  all_below_sound, Bool-cases, ==_iff, ==→ne,
}
use mimalloc_mc.Size.{bin_full}
use mimalloc_mc.Size.Align.{wsize_from_size}
use mimalloc_mc.Size.Bin.{bin, bin_size, bsr32, bsr_rounds}
use mimalloc_mc.Queue.{
  Heap, small_size_max, skip_back, start_slot, fill, first_page, queue_first_update,
}

-- A bin in use: a regular small one is the bin of its own block size.
pub record IsUsed (b : ℕ) : Type 0 where
  pub some_bin : 0 < b
  pub in_heap : b ≤ bin_full
  pub own : b ≤ 24 → bin (bin_size b) ≡ b

range_entry : ℕ → ℕ → Bool
range_entry b w =
    let idx = wsize_from_size (bin_size b) in
    b == 0
    || not (bin (bin_size b) == b)
    || (if leb (start_slot b idx) w && leb w idx then bin (w * 8) == b else not (bin (w * 8) == b))

range_table : all_below 25 (λ b. all_below 129 (range_entry b)) ≡ true
unfolding range_entry all_below bin bin_size wsize_from_size bsr32 bsr_rounds start_slot skip_back
range_table = refl

size_entry : ℕ → Bool
size_entry b =
    if leb b 24
    then leb (bin_size b) small_size_max && (wsize_from_size (bin_size b) * 8 == bin_size b)
    else ltb small_size_max (bin_size b)

size_table : all_below 75 size_entry ≡ true
unfolding size_entry all_below bin_size wsize_from_size
size_table = refl

small_table : all_below 129 (λ w. leb (bin (w * 8)) 24) ≡ true
unfolding all_below bin wsize_from_size bsr32 bsr_rounds
small_table = refl

small_bin : (w : ℕ) → w ≤ 128 → bin (w * 8) ≤ 24
small_bin w h =
    leb→le _ 24 (all_below_sound 129 (λ w. leb (bin (w * 8)) 24) w small_table (omega arith))

-- The slots of a small bin are those whose size has this bin.
range_lem :
    (b w : ℕ)
    → IsUsed b
    → b ≤ 24
    → w ≤ 128
    → let idx = wsize_from_size (bin_size b) in
      ((leb (start_slot b idx) w && leb w idx) ≡ true) ↔ (bin (w * 8) ≡ b)
unfolding range_entry
range_lem b w used small h =
    let row = all_below_sound 25 (λ b. all_below 129 (range_entry b)) b range_table (omega arith) in
    let entry = all_below_sound 129 (range_entry b) w row (omega arith) in
    ground (arith, entry, used.own small, used.some_bin)

fill-eq :
    (n start page : ℕ) (d : ℕ → ℕ) (w : ℕ)
    → fill n start page d w ≡ (if leb start w && ltb w (start + n) then page else d w)
unfolding fill
fill-eq zero start page d w = ground arith
fill-eq (suc n) start page d w = fill-eq n (start + 1) page (update d start page) w ∙ ground arith

same_range :
    (start w idx : ℕ)
    → (leb start w && ltb w (start + (idx + 1 - start))) ≡ (leb start w && leb w idx)
same_range start w idx = ground arith

not_true : (b : Bool) → b ≢ true → b ≡ false
not_true false h = refl
not_true true h = absurd (h refl)

-- If the slots of a bin agree with one another and all others are right, then
-- `mi_heap_queue_first_update` on that bin makes every slot of a small size right.
pub queue_first_update-direct :
    (empty b old : ℕ) (h : Heap)
    → IsUsed b
    → ((w : ℕ) → w ≤ 128 → bin (w * 8) ≡ b → h.direct w ≡ old)
    → ((w : ℕ) → w ≤ 128 → bin (w * 8) ≢ b → h.direct w ≡ first_page empty (h.queues (bin (w * 8))))
    → (w : ℕ) → w ≤ 128
    → (queue_first_update empty b h).direct w ≡ first_page empty (h.queues (bin (w * 8)))
unfolding queue_first_update size_entry
queue_first_update-direct empty b old h used same others w fits =
    let entry = all_below_sound 75 size_entry b size_table (omega (arith, used.in_heap)) in
    elim (Bool-cases (ltb small_size_max (bin_size b))) [
      | inl large ↦ rw large (others w fits (λ e. ground (arith, entry, small_bin w fits)))
      | inr small ↦
          let few : b ≤ 24 = ground (arith, entry) in
          let idx = wsize_from_size (bin_size b) in
          let whole : idx * 8 ≡ bin_size b = ground (arith, entry) in
          let idx_bin : bin (idx * 8) ≡ b = ap bin whole ∙ used.own few in
          let at_idx = same idx (ground (arith, entry)) idx_bin in
          elim (Bool-cases (h.direct idx == first_page empty (h.queues b))) [
            | inl set ↦
                rw (small, set)
                  (elim (Bool-cases (bin (w * 8) == b)) [
                    | inl mine ↦
                        let e : bin (w * 8) ≡ b = (==_iff _ _).0 mine in
                        rw e (same w fits e ∙ sym at_idx ∙ (==_iff _ _).0 set)
                    | inr theirs ↦ others w fits (==→ne _ _ theirs)
                  ])
            | inr unset ↦
                rw (small, unset)
                  (fill-eq _ _ _ h.direct w ∙ elim (Bool-cases (bin (w * 8) == b)) [
                    | inl mine ↦
                        let e : bin (w * 8) ≡ b = (==_iff _ _).0 mine in
                        rw
                          (
                            same_range (start_slot b idx) w idx,
                            (range_lem b w used few fits).1 e,
                            e,
                          )
                          refl
                    | inr theirs ↦
                        let ne = ==→ne _ _ theirs in
                        rw
                          (
                            same_range (start_slot b idx) w idx,
                            not_true _ (λ t. ne ((range_lem b w used few fits).0 t)),
                          )
                          (others w fits ne)
                  ])
          ]
    ]
