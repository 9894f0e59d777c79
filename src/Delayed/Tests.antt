-- ===== src/Delayed/Tests.antt =====
-- Two threads on a page of two blocks.
use mimalloc_mc.Delayed.Progress.{Alone, stays, steps, CanStep, run_ends}
use mimalloc_mc.Prelude.{ℕ, ◌+◌, ◌≤◌, ◌≡◌, ◌≢◌, ◌⊎◌, refl, [], ◌∷◌, arith, update}
use mimalloc_mc.Prelude.Chain.{count}
use mimalloc_mc.ThreadFree.{
  no_delayed_free, never_delayed_free, tf_block, tf_delayed, tf_set_delayed, tf_make,
}
use mimalloc_mc.Delayed.{
  Pc, idle, entered, loaded, prepared, delaying, delayed_loaded, delayed_linked, leaving,
  leaving_loaded, use_delayed_round, prepare_mem, prepare_word, at_rest, Shared, enter, load,
  prepare, cas_won, delayed_load, delayed_link, delayed_won, leave_load, leave_won, forbids, System,
  thread_moves, owner_moves, Reach, start, later,
}
use mimalloc_mc.Delayed.Invariant.{IsBlocks, critical}
use mimalloc_mc.Delayed.Runs.{IsStart}
use mimalloc_mc.Delayed.Safety.{
  heap_is_set, one_in_heap, Places, block_conserved, no_delayed_free-served,
  never_delayed_free-stays,
}

abbrev all_blocks : ℕ → ℕ
all_blocks a = count a (64 ∷ 128 ∷ [])

abbrev shared_0 : Shared
shared_0 = record {
  mem = λ a. 0;
  xthread_free = 0;
  thread_delayed_free = 0;
  xheap = 4096;
  walk = 0;
  owner = at_rest;
  own = 64 ∷ [];
  live = 128 ∷ [];
}

abbrev system_0 : System
system_0 = record { shared = shared_0; pc = λ i. idle }

all_blocks-IsBlocks : IsBlocks all_blocks
all_blocks-IsBlocks = record { once = λ a. ground arith; pointer = λ a h. ground arith }

system_0-IsStart : IsStart 2 all_blocks system_0
system_0-IsStart = record {
  no_thread_free = refl;
  no_delayed = refl;
  no_walk = refl;
  resting = refl;
  has_heap = λ e. omega (arith, e);
  all_idle = λ j. refl;
  blocks = all_blocks-IsBlocks;
  parts = λ a. ground arith;
}

-- The first thread moves.
abbrev advance : System → Shared → Pc → System
advance s t p = record { shared = t; pc = update s.pc 0 p }

abbrev system_1 : System
system_1 = advance system_0 (record shared_0 { live = [] }) (entered 128)

abbrev system_2 : System
system_2 = advance system_1 system_1.shared (loaded 128 0)

abbrev system_3 : System
system_3 =
    advance system_2 (record (system_2.shared) { mem = prepare_mem 128 0 system_2.shared.mem })
      (prepared 128 0)

abbrev system_4 : System
system_4 =
    advance system_3 (record (system_3.shared) { xthread_free = prepare_word 128 0 }) (delaying 128)

abbrev system_5 : System
system_5 = advance system_4 system_4.shared (delayed_loaded 128 0)

abbrev system_6 : System
system_6 =
    advance system_5 (record (system_5.shared) { mem = update system_5.shared.mem 128 0 })
      (delayed_linked 128 0)

abbrev system_7 : System
system_7 = advance system_6 (record (system_6.shared) { thread_delayed_free = 128 }) leaving

abbrev system_8 : System
system_8 = advance system_7 system_7.shared (leaving_loaded system_7.shared.xthread_free)

abbrev system_9 : System
system_9 =
    advance system_8
      (record (system_8.shared) {
        xthread_free = tf_set_delayed system_8.shared.xthread_free no_delayed_free;
      })
      idle

system_4-Reach : Reach 2 system_0 system_4
unfolding tf_delayed
system_4-Reach =
    later
      (later
        (later (later start (thread_moves 0 (omega arith) (enter 128 (omega arith))))
          (thread_moves 0 (omega arith) load))
        (thread_moves 0 (omega arith) prepare))
      (thread_moves 0 (omega arith) (cas_won refl))

system_7-Reach : Reach 2 system_0 system_7
system_7-Reach =
    later
      (later
        (later system_4-Reach (thread_moves 0 (omega arith) (delayed_load (λ e. omega (arith, e)))))
        (thread_moves 0 (omega arith) delayed_link))
      (thread_moves 0 (omega arith) (delayed_won refl))

system_9-Reach : Reach 2 system_0 system_9
system_9-Reach =
    later (later system_7-Reach (thread_moves 0 (omega arith) leave_load))
      (thread_moves 0 (omega arith) (leave_won refl))

heap_is_set_example : system_4.shared.xheap ≢ 0
heap_is_set_example = heap_is_set system_0-IsStart system_4-Reach 0 128 (omega arith) refl

one_in_heap_example : critical (system_7.pc 0) + critical (system_7.pc 1) ≤ 1
one_in_heap_example =
    one_in_heap system_0-IsStart system_7-Reach 0 1 (omega arith) (omega arith)
      (λ e. omega (arith, e))

block_conserved_example : Places 2 all_blocks system_7
block_conserved_example = block_conserved system_0-IsStart system_7-Reach

no_delayed_free-served_example :
    (system_9.shared.thread_delayed_free ≢ 0) ⊎ (system_9.shared.walk ≢ 0)
unfolding tf_delayed tf_block tf_set_delayed tf_make prepare_word
no_delayed_free-served_example = no_delayed_free-served system_0-IsStart system_9-Reach refl

abbrev forbidden : System
forbidden = record { shared = record shared_0 { xthread_free = 3 }; pc = system_0.pc }

forbidden-Reach : Reach 2 system_0 forbidden
unfolding use_delayed_round tf_set_delayed tf_delayed tf_block tf_make
forbidden-Reach = later start (owner_moves (forbids refl))

never_delayed_free-stays_example :
    (forbidden.shared.thread_delayed_free ≡ forbidden.shared.thread_delayed_free)
    × (forbidden.shared.xheap ≡ forbidden.shared.xheap)
    × (tf_delayed forbidden.shared.xthread_free ≡ never_delayed_free)
unfolding tf_delayed
never_delayed_free-stays_example =
    never_delayed_free-stays {s = system_0} {t = forbidden} system_0-IsStart forbidden-Reach refl 0
      (omega arith) (enter 128 (omega arith))

-- A thread reads the word that it is to reset the flag in.
one_step :
    Alone 1 system_4.shared leaving system_4.shared (leaving_loaded (system_4.shared).xthread_free)
one_step =
    steps (record { move = leave_load; inside = λ z. cc z; no_spurious = λ z. absurd (cc z) }) stays

run_ends_example :
    (1 ≤ 10)
    × ((leaving_loaded (system_4.shared).xthread_free ≡ idle)
        ⊎ CanStep system_4.shared (leaving_loaded (system_4.shared).xthread_free))
run_ends_example = run_ends system_4.shared leaving 1 system_4.shared _ one_step
