-- ===== src/Segment/Abandoning.antt =====
-- The abandonment of a segment: `mi_segment_abandon` and `_mi_segment_page_abandon` of
-- mimalloc-custom/segment.c.
use mimalloc_mc.Prelude.{
  ℕ, ◌+◌, ◌%◌, ◌≤◌, ◌<◌, ◌≡◌, ◌≢◌, refl, sym, ap, ◌∙◌, subst, inl, inr, Bool, Bool-cases, true,
  false, List, ◌∷◌, some, arith, ltb, ◌==◌, ==_iff, eq→==, ne→==, if◌then◌else◌,
}
use mimalloc_mc.Prelude.Lists.{length}
use mimalloc_mc.Prelude.Chain.{Chain, count, erase}
use mimalloc_mc.Prelude.Partial.{◌>>=◌}
use mathlib.Core.Path.{fun_ext}
use mimalloc_mc.Abandoned.Tags.{IsBase}
use mimalloc_mc.Abandoned.Lists.{IsAbandoned, abandoned_push-IsAbandoned}
use mimalloc_mc.Abandoned.{Abandoned}
use mimalloc_mc.Segment.{PageKind, is_at_most_medium}
use mimalloc_mc.Segment.Store.{Store, Options, Memory, remove_from_free_queue, is_in_queue}
use mimalloc_mc.Segment.Reset.{pages_reset_remove_all_in_segment}
use mimalloc_mc.Segment.Kept.{in_use, IsSame, same, IsSame-then, IsKept, IsKept-then}
use mimalloc_mc.Segment.Invariant.{
  Lists, IsTracked, IsStore, has_room, IsKept-IsTracked, ends_of, ends_kept,
}
use mimalloc_mc.Size.{word_mod}
use mimalloc_mc.Segment.Pages.{used-le}
use mimalloc_mc.Segment.Expired.{reset_delayed-IsKept, remove_all-IsKept}
use mimalloc_mc.Segment.Disowned.{removed-segments, disown-IsTracked, leave_if-IsTracked}
use mimalloc_mc.Segment.Cache.{Release, track_size}
use mimalloc_mc.Segment.Abandon.{
  Shared, give_up, segment_abandon, count_abandoned, all_abandoned, page_abandon,
}

-- A segment that is given up has no thread, has left the queues and the segments of the one it had, and
-- is the first of the abandoned segments, to be visited anew. It has `n` abandoned pages, and the pages in
-- use are the same.
pub record IsGivenUp {W : Type 0} (base : ℕ) (lists : Lists) (owned xs vs : List ℕ) (n : ℕ)
    (st : Store W) (sh : Shared W) : Type 0 where
  pub queues : IsStore sh.store (λ j. erase base (lists j)) (erase base owned)
  pub no_thread : (sh.store.segments base).thread_id ≡ 0
  pub no_visits : (sh.store.segments base).abandoned_visits ≡ 0
  pub waiting : IsAbandoned sh.lists (base ∷ xs) vs
  pub counted : (sh.store.segments base).abandoned ≡ n
  pub used : (a : ℕ) → (sh.store.segments a).used ≡ (st.segments a).used
  pub pages : (a i : ℕ) → in_use (sh.store.segments a) i ≡ in_use (st.segments a) i

-- One more page of a segment is abandoned, and nothing else has changed.
pub record IsCounted {W : Type 0} (base : ℕ) (sh sh' : Shared W) : Type 0 where
  pub counted :
      sh'.store.segments base
      ≡ record (sh.store.segments base) { abandoned = (sh.store.segments base).abandoned + 1 }
  pub others : (a : ℕ) → a ≢ base → sh'.store.segments a ≡ sh.store.segments a
  pub store : sh'.store ≡ record (sh.store) { segments = sh'.store.segments }
  pub lists : sh'.lists ≡ sh.lists

module _ {W : Type 0} (mem : Memory W) (options : Options) (rel : Release W) where
  -- The fields that a segment without a thread has anew are in no invariant.
  give_up-IsKept :
      (base : ℕ) (ab : Abandoned) (st : Store W)
      → IsKept st (give_up mem options rel base ab st).store
  unfolding track_size
  give_up-IsKept base ab st = record {
    links = refl;
    small = refl;
    medium = refl;
    segments = λ b. elim (Bool-cases (base == b)) [
      | inl here ↦
          let z : base ≡ b = (==_iff base b).0 here in
          rw here (
            rw (← z) (record {
              used = refl;
              capacity = refl;
              abandoned = refl;
              kind = refl;
              pages = λ i. refl;
            }))
      | inr there ↦ rw there (same (st.segments b))
    ];
  }

  count_abandoned-IsTracked :
      {lists : Lists} {owned : List ℕ} {is_open : ℕ → Bool} (base : ℕ) (sh : Shared W)
      → IsTracked sh.store lists owned is_open
      → IsTracked (count_abandoned mem options rel base sh).store lists owned is_open
  count_abandoned-IsTracked base sh v = record {
    queue = λ k small. v.queue k small;
    listed = λ k a b. v.listed k a (b.0, sym (kind a) ∙ b.1, b.2, b.3);
    only = λ k a m. let b = v.only k a m in (b.0, kind a ∙ b.1, b.2, b.3);
    segments = λ a own. elim (Bool-cases (base == a)) [
      | inl here ↦
          let z : base ≡ a = (==_iff base a).0 here in
          let old = v.segments a own in
          rw here (rw z (record { counted = old.counted; small = old.small }))
      | inr there ↦ rw there (v.segments a own)
    ];
    not_null = v.not_null;
  }
    where
      kind :
          (a : ℕ)
          → ((count_abandoned mem options rel base sh).store.segments a).page_kind
            ≡ (sh.store.segments a).page_kind
      kind a = elim (Bool-cases (base == a)) [
        | inl here ↦
            let z : base ≡ a = (==_iff base a).0 here in
            rw here (ap (λ c. (sh.store.segments c).page_kind) z)
        | inr there ↦ rw there refl
      ]

  count_abandoned-used :
      (base a : ℕ) (sh : Shared W)
      → ((count_abandoned mem options rel base sh).store.segments a).used
        ≡ (sh.store.segments a).used
  count_abandoned-used base a sh = elim (Bool-cases (base == a)) [
    | inl here ↦ rw here (ap (λ c. (sh.store.segments c).used) ((==_iff base a).0 here))
    | inr there ↦ rw there refl
  ]

  count_abandoned-pages :
      (base a i : ℕ) (sh : Shared W)
      → in_use ((count_abandoned mem options rel base sh).store.segments a) i
        ≡ in_use (sh.store.segments a) i
  count_abandoned-pages base a i sh = elim (Bool-cases (base == a)) [
    | inl here ↦ rw here (ap (λ c. in_use (sh.store.segments c) i) ((==_iff base a).0 here))
    | inr there ↦ rw there refl
  ]

  count_abandoned-room :
      (base : ℕ) (sh : Shared W)
      → has_room (count_abandoned mem options rel base sh).store ≡ has_room sh.store
  count_abandoned-room base sh = fun_ext (λ a. elim (Bool-cases (base == a)) [
    | inl here ↦
        let z : base ≡ a = (==_iff base a).0 here in
        rw here (ap (λ c. ltb (sh.store.segments c).used (sh.store.segments c).capacity) z)
    | inr there ↦ rw there refl
  ])

  module _ (fuel base : ℕ) (k : PageKind) (lists : Lists) (owned xs vs ps : List ℕ)
      (once_owned : (a : ℕ) → count a owned ≤ 1) (small : is_at_most_medium k ≡ true)
      (once : (a : ℕ) → count a ps ≤ 1) (few : length ps < fuel) (is_base : IsBase base)
      (nz : base ≢ 0) (new : count base xs + count base vs ≡ 0) where
    segment_abandon-IsGivenUp :
        (sh : Shared W)
        → IsStore sh.store lists owned
        → (sh.store.segments base).page_kind ≡ k
        → (count base (lists k) ≡ 0 → is_in_queue base (ends_of k sh.store.tld) sh.store ≡ false)
        → Chain sh.store.page_links.prev sh.store.tld.pages_reset.last ps
        → IsAbandoned sh.lists xs vs
        → (sh' : Shared W) × (segment_abandon mem options rel fuel base sh ≡ some sh')
          × IsGivenUp base lists owned xs vs (sh.store.segments base).abandoned sh.store sh'
    unfolding segment_abandon
    segment_abandon-IsGivenUp sh v kind out chain abandoned =
        let (st, result, k1) = reset_delayed-IsKept mem options fuel ps sh.store chain once few in
        let st' = pages_reset_remove_all_in_segment mem options rel.abandoned_page_reset base st in
        let waiting =
          IsKept-then k1 (remove_all-IsKept mem options rel.abandoned_page_reset base st) in
        let st'' = remove_from_free_queue base st' in
        let last = give_up mem options rel base sh.lists st'' in
        let left = give_up-IsKept base sh.lists st'' in
        let same_pages : (a : ℕ) → IsSame (sh.store.segments a) (last.store.segments a) = λ a.
          IsSame-then (waiting.segments a) (
            subst (λ f. IsSame (f a) (last.store.segments a)) (removed-segments base st')
              (left.segments a)) in
        let tracked =
          leave_if-IsTracked base k (IsKept-IsTracked waiting v)
            ((waiting.segments base).kind ∙ kind) small
            (λ n. rw (waiting.links, ends_kept waiting k) (out n)) in
        let queues = IsKept-IsTracked left (disown-IsTracked base once_owned tracked) in
        let open_same : has_room last.store ≡ has_room sh.store =
          fun_ext (λ a. rw ((same_pages a).used, (same_pages a).capacity) refl) in
        (
          last,
          ap
              (λ r. r >>= (λ st. some (
                give_up mem options rel base sh.lists (
                  remove_from_free_queue base (
                    pages_reset_remove_all_in_segment mem options rel.abandoned_page_reset base
                      st)))))
              result,
          record {
            queues =
                subst (IsTracked last.store (λ j. erase base (lists j)) (erase base owned))
                  (sym open_same) queues;
            no_thread = rw (eq→== base base refl) refl;
            no_visits = rw (eq→== base base refl) refl;
            waiting = abandoned_push-IsAbandoned abandoned base is_base nz new;
            counted = (same_pages base).abandoned;
            used = λ a. (same_pages a).used;
            pages = λ a i. (same_pages a).pages i;
          },
        )

    -- A thread's queues are valid and its segments, the one at the aligned address `base` among them,
    -- distinct; the segment has small or
    -- medium pages, is in its queue or has null links, and has fewer abandoned pages than used ones; the
    -- pages that wait for a reset are a list without repetition, and the fuel is more than their number;
    -- the lists of abandoned segments are valid and do not have the segment. Then
    -- `_mi_segment_page_abandon` of a page of the segment returns. When not all used pages of the
    -- segment are abandoned with this one, only the count of such pages is one more. When they are, the
    -- segment has no thread and is the first of the abandoned segments, the thread's queues are valid
    -- without it, and the same pages are in use.
    pub page_abandon-IsGivenUp :
        (sh : Shared W)
        → IsStore sh.store lists owned
        → 0 < count base owned
        → (sh.store.segments base).page_kind ≡ k
        → (sh.store.segments base).abandoned < (sh.store.segments base).used
        → (count base (lists k) ≡ 0 → is_in_queue base (ends_of k sh.store.tld) sh.store ≡ false)
        → Chain sh.store.page_links.prev sh.store.tld.pages_reset.last ps
        → IsAbandoned sh.lists xs vs
        → (sh' : Shared W) × (page_abandon mem options rel fuel base sh ≡ some sh')
          × (if (sh.store.segments base).used == (sh.store.segments base).abandoned + 1
              then IsGivenUp base lists owned xs vs
                  ((sh.store.segments base).abandoned + 1)
                  sh.store
                  sh'
              else IsCounted base sh sh')
    unfolding page_abandon
    page_abandon-IsGivenUp sh v own kind fewer out chain abandoned =
        let counted = count_abandoned mem options rel base sh in
        let s = sh.store.segments base in
        let valid = v.segments base own in
        let no_wrap : (s.abandoned + 1) % word_mod ≡ s.abandoned + 1 =
          omega (arith, fewer, used-le s valid, valid.small) in
        let here : counted.store.segments base ≡ record s { abandoned = s.abandoned + 1 } =
          rw (eq→== base base refl, no_wrap) refl in
        let away : (a : ℕ) → a ≢ base → counted.store.segments a ≡ sh.store.segments a =
          λ a ne. rw (ne→== base a (λ z. ne (sym z))) refl in
        let v' : IsStore counted.store lists owned =
          subst (IsTracked counted.store lists owned) (sym (count_abandoned-room base sh))
            (count_abandoned-IsTracked base sh v) in
        let (sh', result, given) =
          segment_abandon-IsGivenUp counted v' (ap (λ x. x.page_kind) here ∙ kind) (λ n. out n)
            chain abandoned in
        let test : all_abandoned mem options rel base counted ≡ (s.used == s.abandoned + 1) =
          ap (λ x. x.used == x.abandoned) here in
        elim (Bool-cases (s.used == s.abandoned + 1)) [
          | inr some_used ↦ (
            counted,
            rw (test ∙ some_used) refl,
            rw some_used (record { counted = here; others = away; store = refl; lists = refl }),
          )
          | inl all ↦ (
            sh',
            rw (test ∙ all) result,
            rw all (record {
              queues = given.queues;
              no_thread = given.no_thread;
              no_visits = given.no_visits;
              waiting = given.waiting;
              counted = given.counted ∙ ap (λ x. x.abandoned) here;
              used = λ a. given.used a ∙ count_abandoned-used base a sh;
              pages = λ a i. given.pages a i ∙ count_abandoned-pages base a i sh;
            }),
          )
        ]
