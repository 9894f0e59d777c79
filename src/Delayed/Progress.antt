-- ===== src/Delayed/Progress.antt =====
-- `_mi_free_block_mt` comes to an end when no other thread is in the way.
use mimalloc_mc.Prelude.{
  ℕ, zero, suc, ◌≤◌, ◌<◌, ◌≡◌, ◌≢◌, ◌⊎◌, refl, inl, inr, Bool, true, false, not, ◌==◌, arith,
  Bool-cases, ==→ne, ==_iff, eq→==, if◌then◌else◌,
}
use mimalloc_mc.Delayed.{
  Pc, idle, entered, loaded, prepared, delaying, delayed_loaded, delayed_linked, leaving,
  leaving_loaded, Shared, Move, enter, load, prepare, cas_lost, cas_won, no_heap, delayed_load,
  delayed_link, delayed_lost, delayed_won, leave_load, leave_lost, leave_won, use_delayed,
}

-- The move from the one point to the other is a compare-and-swap that has failed.
abbrev pub is_retry : Pc → Pc → Bool
is_retry (prepared b tfree) (entered c) = true
is_retry (delayed_linked b dfree) (delaying c) = true
is_retry (leaving_loaded tfree) leaving = true
is_retry p q = false

-- The word that a compare-and-swap is about to replace is not the one that was read.
abbrev pub has_changed : Shared → Pc → Bool
has_changed s (prepared b tfree) = not (s.xthread_free == tfree)
has_changed s (delayed_linked b dfree) = not (s.thread_delayed_free == dfree)
has_changed s (leaving_loaded tfree) = not (s.xthread_free == tfree)
has_changed s p = false

-- A move of a thread inside of the function, where a compare-and-swap fails only when the word has
-- changed.
pub record Step (s : Shared) (p : Pc) (t : Shared) (q : Pc) : Type 0 where
  pub move : Move s p t q
  pub inside : p ≢ idle
  pub no_spurious : is_retry p q ≡ true → has_changed s p ≡ true

-- `k` steps of one thread, with no other in between.
pub data Alone : (k : ℕ) → Shared → Pc → Shared → Pc → Type 0 where
  stays : {s : Shared} {p : Pc} → Alone 0 s p s p
  steps :
      {k : ℕ} {s t u : Shared} {p q r : Pc} → Step s p t q → Alone k t q u r → Alone (suc k) s p u r

-- How many steps are left.
abbrev steps_left : Shared → Pc → ℕ
steps_left s idle = 0
steps_left s (entered b) = 8
steps_left s (loaded b tfree) = if s.xthread_free == tfree then 7 else 10
steps_left s (prepared b tfree) = if s.xthread_free == tfree then 6 else 9
steps_left s (delaying b) = 5
steps_left s (delayed_loaded b dfree) = if s.thread_delayed_free == dfree then 4 else 7
steps_left s (delayed_linked b dfree) = if s.thread_delayed_free == dfree then 3 else 6
steps_left s leaving = 2
steps_left s (leaving_loaded tfree) = if s.xthread_free == tfree then 1 else 3

after_first_cas :
    (s : Shared) (b : ℕ) (delay : Bool) → steps_left s (if delay then delaying b else idle) ≤ 5
after_first_cas s b true = omega arith
after_first_cas s b false = omega arith

fewer_left :
    (s : Shared) (p : Pc) (t : Shared) (q : Pc) → Step s p t q → steps_left t q < steps_left s p
fewer_left s p t q step = go step.move step.inside step.no_spurious
  where
    go :
        {p : Pc} {t : Shared} {q : Pc}
        → Move s p t q
        → p ≢ idle
        → (is_retry p q ≡ true → has_changed s p ≡ true)
        → steps_left t q < steps_left s p
    go (enter b m) inside real = absurd (inside refl)
    go load inside real = rw (eq→== s.xthread_free s.xthread_free refl) (omega arith)
    go (prepare {tfree = tfree}) inside real = elim (Bool-cases (s.xthread_free == tfree)) [
      | inl fresh ↦ rw fresh (omega arith)
      | inr stale ↦ rw stale (omega arith)
    ]
    go cas_lost inside real = ground (arith, real refl)
    go (cas_won {b} {tfree} e) inside real =
        rw (eq→== _ _ e) (omega (arith, after_first_cas _ b (use_delayed tfree)))
    go (no_heap e) inside real = omega arith
    go (delayed_load e) inside real =
        rw (eq→== s.thread_delayed_free s.thread_delayed_free refl) (omega arith)
    go (delayed_link {dfree = dfree}) inside real =
        elim (Bool-cases (s.thread_delayed_free == dfree)) [
          | inl fresh ↦ rw fresh (omega arith)
          | inr stale ↦ rw stale (omega arith)
        ]
    go delayed_lost inside real = ground (arith, real refl)
    go (delayed_won e) inside real = rw (eq→== _ _ e) (omega arith)
    go leave_load inside real = rw (eq→== s.xthread_free s.xthread_free refl) (omega arith)
    go leave_lost inside real = ground (arith, real refl)
    go (leave_won e) inside real = rw (eq→== _ _ e) (omega arith)

at_most_left :
    (k : ℕ) (s : Shared) (p : Pc) (u : Shared) (r : Pc) → Alone k s p u r → k ≤ steps_left s p
at_most_left zero s p u r run = omega arith
at_most_left (suc k) s p u r (steps {t = t} {q = q} step run) =
    omega (arith, fewer_left s p t q step, at_most_left k t q u r run)

at_most_ten : (s : Shared) (p : Pc) → steps_left s p ≤ 10
at_most_ten s idle = omega arith
at_most_ten s (entered b) = omega arith
at_most_ten s (loaded b tfree) = ground arith
at_most_ten s (prepared b tfree) = ground arith
at_most_ten s (delaying b) = omega arith
at_most_ten s (delayed_loaded b dfree) = ground arith
at_most_ten s (delayed_linked b dfree) = ground arith
at_most_ten s leaving = omega arith
at_most_ten s (leaving_loaded tfree) = ground arith

-- A step from a point to some other.
abbrev pub CanStep : Shared → Pc → Type 0
CanStep s p = (t : Shared) × (q : Pc) × Step s p t q

can_step : (s : Shared) (p : Pc) → p ≢ idle → CanStep s p
can_step s idle inside = absurd (inside refl)
can_step s (entered b) inside = (
  s,
  loaded b s.xthread_free,
  record { move = load; inside = inside; no_spurious = λ z. absurd (cc z) },
)
can_step s (loaded b tfree) inside =
    (_, _, record { move = prepare; inside = inside; no_spurious = λ z. absurd (cc z) })
can_step s (prepared b tfree) inside = elim (Bool-cases (s.xthread_free == tfree)) [
  | inl fresh ↦ (
    _,
    _,
    record {
      move = cas_won ((==_iff _ _).0 fresh);
      inside = inside;
      no_spurious = not_back (use_delayed tfree);
    },
  )
  | inr stale ↦
      (s, entered b, record { move = cas_lost; inside = inside; no_spurious = λ z. rw stale refl })
]
  where
    not_back :
        (delay : Bool)
        → is_retry (prepared b tfree) (if delay then delaying b else idle) ≡ true
        → has_changed s (prepared b tfree) ≡ true
    not_back true z = absurd (cc z)
    not_back false z = absurd (cc z)
can_step s (delaying b) inside = elim (Bool-cases (s.xheap == 0)) [
  | inl null ↦ (
    s,
    leaving,
    record {
      move = no_heap ((==_iff _ _).0 null);
      inside = inside;
      no_spurious = λ z. absurd (cc z);
    },
  )
  | inr heap ↦ (
    _,
    _,
    record {
      move = delayed_load (==→ne _ _ heap);
      inside = inside;
      no_spurious = λ z. absurd (cc z);
    },
  )
]
can_step s (delayed_loaded b dfree) inside =
    (_, _, record { move = delayed_link; inside = inside; no_spurious = λ z. absurd (cc z) })
can_step s (delayed_linked b dfree) inside = elim (Bool-cases (s.thread_delayed_free == dfree)) [
  | inl fresh ↦ (
    _,
    _,
    record {
      move = delayed_won ((==_iff _ _).0 fresh);
      inside = inside;
      no_spurious = λ z. absurd (cc z);
    },
  )
  | inr stale ↦ (
    s,
    delaying b,
    record { move = delayed_lost; inside = inside; no_spurious = λ z. rw stale refl },
  )
]
can_step s leaving inside =
    (_, _, record { move = leave_load; inside = inside; no_spurious = λ z. absurd (cc z) })
can_step s (leaving_loaded tfree) inside = elim (Bool-cases (s.xthread_free == tfree)) [
  | inl fresh ↦ (
    _,
    _,
    record {
      move = leave_won ((==_iff _ _).0 fresh);
      inside = inside;
      no_spurious = λ z. absurd (cc z);
    },
  )
  | inr stale ↦
      (s, leaving, record { move = leave_lost; inside = inside; no_spurious = λ z. rw stale refl })
]

goes_on : (s : Shared) (p : Pc) → (p ≡ idle) ⊎ CanStep s p
goes_on s idle = inl refl
goes_on s (entered b) = inr (can_step s (entered b) (λ z. cc z))
goes_on s (loaded b tfree) = inr (can_step s (loaded b tfree) (λ z. cc z))
goes_on s (prepared b tfree) = inr (can_step s (prepared b tfree) (λ z. cc z))
goes_on s (delaying b) = inr (can_step s (delaying b) (λ z. cc z))
goes_on s (delayed_loaded b dfree) = inr (can_step s (delayed_loaded b dfree) (λ z. cc z))
goes_on s (delayed_linked b dfree) = inr (can_step s (delayed_linked b dfree) (λ z. cc z))
goes_on s leaving = inr (can_step s leaving (λ z. cc z))
goes_on s (leaving_loaded tfree) = inr (can_step s (leaving_loaded tfree) (λ z. cc z))

-- From every state of the shared variables and every point of `_mi_free_block_mt`, also with a stale
-- copy of a shared word in hand, every run of a thread alone, in which a compare-and-swap fails only
-- when the word has changed, has at most 10 atomic accesses and stores, and as long as it is inside of
-- the function it can go on: so it leaves the function.
pub run_ends :
    (s : Shared) (p : Pc) (k : ℕ) (t : Shared) (q : Pc)
    → Alone k s p t q
    → (k ≤ 10) × ((q ≡ idle) ⊎ CanStep t q)
run_ends s p k t q run = (omega (arith, at_most_left k s p t q run, at_most_ten s p), goes_on t q)
