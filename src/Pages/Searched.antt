-- ===== src/Pages/Searched.antt =====
-- The whole search of `mi_page_queue_find_free_ex`.
use mimalloc_mc.Prelude.{
  ℕ, zero, suc, ◌+◌, ◌≤◌, ◌<◌, ◌≡◌, ◌≢◌, ◌⊎◌, refl, sym, ap, ◌∙◌, subst, inl, inr, Bool-cases, true,
  false, List, [], ◌∷◌, ◌++◌, some, arith, ◌==◌, ==_iff, ne→==, eq→==, update,
}
use mathlib.Core.Path.{fun_ext}
use mimalloc_mc.Prelude.Lists.{length}
use mimalloc_mc.Prelude.Chain.{count, erase}
use mimalloc_mc.Size.{bin_full}
use mimalloc_mc.Delayed.Family.{total, total-update}
use mimalloc_mc.Links.{Links, Linked}
use mimalloc_mc.Page.{immediate_available}
use mimalloc_mc.Queue.Direct.{IsUsed}
use mimalloc_mc.Queue.Invariant.{Lists}
use mimalloc_mc.Pages.{Store, Found, Segments, page_field}
use mimalloc_mc.Pages.Search.{search, search_queue}
use mimalloc_mc.Pages.Invariant.{Contents, IsStore}
use mimalloc_mc.Pages.Moved.{moved_lists}
use mimalloc_mc.Pages.Quiet.{IsQuiet, IsQuiet-trans}
use mimalloc_mc.Pages.Picked.{visit-IsStore}

-- The lists once the pages in front of a queue have moved to the end of the queue of full pages.
abbrev pub searched_lists : (b : ℕ) → (skipped left : List ℕ) → Lists → Lists
searched_lists b skipped left lists =
    update (update lists b left) bin_full (lists bin_full ++ skipped)

abbrev pub head_or : ℕ → List ℕ → ℕ
head_or d [] = d
head_or d (x ∷ xs) = x

-- What a search of the queue of a bin has found: a number of full pages first, then a page with a
-- free block or the end of the queue.
pub record IsPicked {S : Type 0} (seg : Segments S) (b : ℕ) (st : Store S) (lists : Lists)
    (k : ℕ → Contents) (found : Found S) : Type 0 where
  pub skipped : List ℕ
  pub left : List ℕ
  pub after : ℕ → Contents
  pub order : lists b ≡ skipped ++ left
  pub full : (a : ℕ) → 0 < count a skipped → length (k a).live ≡ (page_field a st).reserved
  pub page : found.page ≡ head_or 0 left
  pub ready : (left ≡ []) ⊎ (immediate_available (page_field found.page found.store) ≡ true)
  pub valid : IsStore seg found.store (searched_lists b skipped left lists) after
  pub quiet : IsQuiet st found.store k after

append-nil : (xs : List ℕ) → xs ++ [] ≡ xs
append-nil [] = refl
append-nil (x ∷ xs) = ap (◌∷◌ x) (append-nil xs)

append-snoc : (xs : List ℕ) (y : ℕ) (zs : List ℕ) → (xs ++ y ∷ []) ++ zs ≡ xs ++ y ∷ zs
append-snoc [] y zs = refl
append-snoc (x ∷ xs) y zs = ap (x ∷◌) (append-snoc xs y zs)

count_rest :
    (page a : ℕ) (xs : List ℕ) → (page == a) ≡ false → 0 < count a (page ∷ xs) → 0 < count a xs
count_rest page a xs other m = ground (arith, m)

IsQuiet-refl : {S : Type 0} (st : Store S) (k : ℕ → Contents) → IsQuiet st st k k
IsQuiet-refl st k = record { live = λ a. refl; reserved = λ a. refl }

module _ (b : ℕ) (lists : Lists) (regular : b ≢ bin_full) where
  searched_none : (left : List ℕ) → lists b ≡ left → searched_lists b [] left lists ≡ lists
  searched_none left e = fun_ext (λ c. elim (Bool-cases (bin_full == c)) [
    | inl here ↦ rw here (append-nil (lists bin_full) ∙ ap lists ((==_iff bin_full c).0 here))
    | inr there ↦ rw there (elim (Bool-cases (b == c)) [
      | inl at ↦ rw at (sym e ∙ ap lists ((==_iff b c).0 at))
      | inr off ↦ rw off refl
    ])
  ])

  searched_more :
      (page : ℕ) (skipped left : List ℕ)
      → searched_lists b skipped left (moved_lists b bin_full page lists)
        ≡ searched_lists b (page ∷ skipped) left lists
  searched_more page skipped left = fun_ext (λ c. elim (Bool-cases (bin_full == c)) [
    | inl here ↦ rw here (append-snoc (lists bin_full) page skipped)
    | inr there ↦
        rw there (elim (Bool-cases (b == c)) [ inl at ↦ rw at refl | inr off ↦ rw off refl ])
  ])

module _ {S : Type 0} (seg : Segments S) (b : ℕ) (used_b : IsUsed b) (regular : b ≢ bin_full)
    (used_full : IsUsed bin_full) where
  -- A search that ends where it starts.
  stopped :
      {st st' : Store S} {lists : Lists} {k k' : ℕ → Contents} (p : ℕ) (left : List ℕ)
      → IsStore seg st' lists k'
      → IsQuiet st st' k k'
      → lists b ≡ left
      → p ≡ head_or 0 left
      → (left ≡ []) ⊎ (immediate_available (page_field p st') ≡ true)
      → IsPicked seg b st lists k (record { page = p; store = st' })
  stopped {st'} {lists} {k'} p left v quiet e at ready = record {
    skipped = [];
    left = left;
    after = k';
    order = e;
    full = λ a m. absurd (omega (arith, m));
    page = at;
    ready = ready;
    valid = subst (λ l. IsStore seg st' l k') (sym (searched_none b lists regular left e)) v;
    quiet = quiet;
  }

  -- A search after its first page has moved away.
  went_on :
      {st st' : Store S} {lists : Lists} {k k' : ℕ → Contents} {found : Found S} (page : ℕ)
      (rest : List ℕ)
      → lists b ≡ page ∷ rest
      → moved_lists b bin_full page lists b ≡ rest
      → length (k page).live ≡ (page_field page st).reserved
      → IsQuiet st st' k k'
      → IsPicked seg b st' (moved_lists b bin_full page lists) k' found
      → IsPicked seg b st lists k found
  went_on {st} {lists} {k} {found} page rest e e' first quiet r = record {
    skipped = page ∷ r.skipped;
    left = r.left;
    after = r.after;
    order = e ∙ ap (page ∷◌) (sym e' ∙ r.order);
    full = λ a m. elim (Bool-cases (page == a)) [
      | inl here ↦
          subst (λ x. length (k x).live ≡ (page_field x st).reserved) ((==_iff page a).0 here) first
      | inr there ↦
          ap length (sym (quiet.live a))
          ∙ r.full a (count_rest page a r.skipped there m)
          ∙ quiet.reserved a
    ];
    page = r.page;
    ready = r.ready;
    valid =
        subst (λ l. IsStore seg found.store l r.after)
          (searched_more b lists regular page r.skipped r.left) r.valid;
    quiet = IsQuiet-trans quiet r.quiet;
  }

  Linked-next : (l : Links) (before p : ℕ) (xs : List ℕ) → Linked l before p xs → p ≡ head_or 0 xs
  Linked-next l before p [] c = c
  Linked-next l before p (x ∷ xs) c = c.0

  moved_rest :
      (page : ℕ) (rest : List ℕ) (lists : Lists)
      → lists b ≡ page ∷ rest
      → moved_lists b bin_full page lists b ≡ rest
  moved_rest page rest lists e =
      rw (ne→== bin_full b (λ z. regular (sym z)), eq→== b b refl)
        (ap (erase page) e ∙ rw (eq→== page page refl) refl)

  pub search-IsPicked :
      (fuel p : ℕ) (xs : List ℕ) (st : Store S) (lists : Lists) (k : ℕ → Contents)
      → IsStore seg st lists k
      → lists b ≡ xs
      → p ≡ head_or 0 xs
      → length xs < fuel
      → (found : Found S) × (search seg fuel b p st ≡ some found) × IsPicked seg b st lists k found
  unfolding search
  search-IsPicked zero p xs st lists k v e at few = absurd (omega arith)
  search-IsPicked (suc fuel) p [] st lists k v e at few =
      (_, rw (eq→== p 0 at) refl, stopped 0 [] v (IsQuiet-refl st k) e refl (inl refl))
  search-IsPicked (suc fuel) p (x ∷ xs) st lists k v e at few =
      let inside : 0 < count x (lists b) = rw e (ground arith) in
      let linked =
        subst (Linked st.heap.links 0 (st.heap.queues b).first) e (v.heap.queues.queue b).linked in
      let next = Linked-next st.heap.links x (st.heap.links.next x) xs linked.3 in
      let off = ne→== x 0 linked.1 in
      let (st', k', quiet, step) =
        visit-IsStore seg st lists k v b x used_b regular inside used_full linked.1 in
      subst
        (λ q.
          (found : Found S) × (search seg (suc fuel) b q st ≡ some found)
          × IsPicked seg b st lists k found)
        (sym at)
        (elim step [
          | inl found ↦ (
            record { page = x; store = st' },
            rw (off, found.0) refl,
            stopped x (x ∷ xs) found.1 quiet e refl (inr found.2),
          )
          | inr on ↦
              let rest = moved_rest x xs lists e in
              let (found, result, r) =
                search-IsPicked fuel (st.heap.links.next x) xs st' (moved_lists b bin_full x lists)
                  k' on.1 rest next (omega (arith, few)) in
              (found, rw (off, on.0) result, went_on x xs e rest on.2 quiet r)
        ])

  few_pages : (lists : Lists) → length (lists b) ≤ total length 75 lists
  few_pages lists = omega (arith, total-update length 75 lists b [] (omega (arith, used_b.in_heap)))

  -- On a valid store, for a bin in use that is not that of the full pages, the search of
  -- `mi_page_queue_find_free_ex` returns. The pages that it has moved, in their order, to the end of
  -- the queue of full pages are the first ones of the queue, and programs hold all the blocks of each.
  -- What it returns is the first page that is left, which has a free block, or null when none is
  -- left. The store is valid with these lists, and programs hold what they held.
  pub search_queue-IsPicked :
      (st : Store S) (lists : Lists) (k : ℕ → Contents)
      → IsStore seg st lists k
      → (found : Found S) × (search_queue seg b st ≡ some found) × IsPicked seg b st lists k found
  search_queue-IsPicked st lists k v =
      search-IsPicked (st.heap.page_count + 1) (st.heap.queues b).first (lists b) st lists k v refl
        (Linked-next st.heap.links 0 (st.heap.queues b).first (lists b)
          (v.heap.queues.queue b).linked)
        (omega (arith, few_pages lists, v.heap.counted))
