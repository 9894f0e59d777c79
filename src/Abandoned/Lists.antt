-- ===== src/Abandoned/Lists.antt =====
-- The abandoned segments as lists: what a push, a pop and the move of the visited list do.
use mimalloc_mc.Prelude.{
  ℕ, zero, suc, ◌+◌, ◌≤◌, ◌<◌, ◌≡◌, ◌≢◌, refl, sym, ap, subst, ◌∙◌, inl, inr, List, [], ◌∷◌, ◌++◌,
  not, ◌==◌, update, arith, Bool-cases, ==_iff, ==→ne, ne→==, eq→==,
}
use mathlib.Core.List.{append-nil}
use mimalloc_mc.Prelude.Lists.{length}
use mimalloc_mc.Prelude.Chain.{
  Memory, Chain, Chain-update, Chain-append, Chain-start, count, count-append, last_or,
}
use mimalloc_mc.Abandoned.{
  Abandoned, tagged_segment_ptr, tagged_segment, visited_push, abandoned_push, last_of,
  visited_revisit, Popped, take_first, abandoned_pop,
}
use mimalloc_mc.Abandoned.Tags.{IsBase, ptr-tagged_segment}

-- The two lists, without a common segment.
pub record IsAbandoned (a : Abandoned) (xs vs : List ℕ) : Type 0 where
  pub waiting : Chain a.next (tagged_segment_ptr a.abandoned) xs
  pub visited : Chain a.next a.visited vs
  pub once : (s : ℕ) → count s xs + count s vs ≤ 1
  pub bases : (s : ℕ) → 0 < count s xs + count s vs → IsBase s

null-IsBase : IsBase 0
null-IsBase = record { aligned = refl; address = omega arith }

-- The first of a list, or null.
first-IsBase :
    (m : Memory) (p : ℕ) (xs : List ℕ)
    → Chain m p xs
    → ((s : ℕ) → 0 < count s xs → IsBase s)
    → IsBase p
first-IsBase m p [] c bases = rw c null-IsBase
first-IsBase m p (x ∷ xs) c bases = rw c.0 (bases x (ground arith))

-- Enough fuel finds the last.
last_of-Chain :
    (fuel : ℕ) (m : Memory) (p x : ℕ) (xs : List ℕ)
    → Chain m p (x ∷ xs)
    → length xs ≤ fuel
    → last_of fuel m p ≡ last_or x xs
unfolding last_of
last_of-Chain zero m p x [] c h = c.0
last_of-Chain zero m p x (y ∷ xs) c h = absurd (omega arith)
last_of-Chain (suc fuel) m p x [] c h = let e : m p ≡ 0 = ap m c.0 ∙ c.2 in rw (eq→== (m p) 0 e) c.0
last_of-Chain (suc fuel) m p x (y ∷ xs) c h =
    let d : Chain m (m p) (y ∷ xs) = Chain-start m (m p) (m x) (y ∷ xs) (ap m c.0) c.2 in
    rw (ne→== (m p) 0 (λ z. d.1 (sym d.0 ∙ z))) (last_of-Chain fuel m (m p) y xs d (omega arith))

module _ {a : Abandoned} {xs vs : List ℕ} (v : IsAbandoned a xs vs) where
  head-IsBase : IsBase (tagged_segment_ptr a.abandoned)
  head-IsBase = first-IsBase a.next _ xs v.waiting (λ s m. v.bases s (omega arith))

  module _ (segment : ℕ) (base : IsBase segment) (nz : segment ≢ 0)
      (new : count segment xs + count segment vs ≡ 0) where
    new-IsBase : (s : ℕ) → (s ≢ segment → 0 < count s xs + count s vs) → IsBase s
    new-IsBase s old = elim (Bool-cases (s == segment)) [
      | inl here ↦ let z : s ≡ segment = (==_iff s segment).0 here in rw z base
      | inr other ↦ v.bases s (old (==→ne s segment other))
    ]

    -- `mi_abandoned_push` puts a segment that is on neither list in front of the abandoned ones.
    pub abandoned_push-IsAbandoned : IsAbandoned (abandoned_push segment a) (segment ∷ xs) vs
    unfolding abandoned_push
    abandoned_push-IsAbandoned = record {
      waiting = (
        (ptr-tagged_segment segment a.abandoned base).0,
        nz,
        Chain-start _ _ (tagged_segment_ptr a.abandoned) xs (ground arith)
            (Chain-update a.next segment _ _ xs (omega (arith, new)) v.waiting),
      );
      visited = Chain-update a.next segment _ _ vs (omega (arith, new)) v.visited;
      once = λ s. ground (arith, v.once s, new);
      bases = λ s m. new-IsBase s (λ ne. ground arith);
    }

    -- `mi_abandoned_visited_push` puts a segment that is on neither list in front of the visited ones.
    pub visited_push-IsAbandoned : IsAbandoned (visited_push segment a) xs (segment ∷ vs)
    unfolding visited_push
    visited_push-IsAbandoned = record {
      waiting = Chain-update a.next segment _ _ xs (omega (arith, new)) v.waiting;
      visited = (
        refl,
        nz,
        Chain-start _ _ a.visited vs (ground arith)
            (Chain-update a.next segment _ _ vs (omega (arith, new)) v.visited),
      );
      once = λ s. ground (arith, v.once s, new);
      bases = λ s m. new-IsBase s (λ ne. ground arith);
    }

  -- Taking the first abandoned segment.
  take_first-IsAbandoned :
      (x : ℕ) (rest : List ℕ)
      → xs ≡ x ∷ rest
      → ((take_first a).segment ≡ x) × IsAbandoned (take_first a).lists rest vs
  unfolding take_first
  take_first-IsAbandoned x rest e =
      let w = subst (λ ys. IsAbandoned a ys vs) e v in
      let first : tagged_segment_ptr a.abandoned ≡ x = w.waiting.0 in
      let next_base =
        first-IsBase a.next (a.next x) rest w.waiting.2 (λ s m. w.bases s (ground arith)) in
      let out : (count x rest ≡ 0) × (count x vs ≡ 0) =
        (ground (arith, w.once x), ground (arith, w.once x)) in
      rw (first, ne→== x 0 w.waiting.1)
        (
          refl,
          record {
            waiting =
                Chain-start _ _ (a.next x) rest
                  (ptr-tagged_segment (a.next x) a.abandoned next_base).0
                  (Chain-update a.next x 0 _ rest out.0 w.waiting.2);
            visited = Chain-update a.next x 0 _ vs out.1 w.visited;
            once = λ s. ground (arith, w.once s);
            bases = λ s m. w.bases s (ground arith);
          },
        )

-- A list that starts at null is empty.
null_list : (m : Memory) (p : ℕ) (xs : List ℕ) → Chain m p xs → p ≡ 0 → xs ≡ []
null_list m p [] c z = refl
null_list m p (x ∷ xs) c z = absurd (c.1 (sym c.0 ∙ z))

-- `mi_abandoned_visited_revisit` moves the visited segments in front of the abandoned ones, and says
-- whether there were any.
pub visited_revisit-IsAbandoned :
    {a : Abandoned} {xs : List ℕ} (vs : List ℕ) (fuel : ℕ)
    → IsAbandoned a xs vs
    → length vs ≤ fuel
    → ((visited_revisit fuel a).moved ≡ not (a.visited == 0))
      × IsAbandoned (visited_revisit fuel a).lists (vs ++ xs) []
unfolding visited_revisit
visited_revisit-IsAbandoned {a} {xs} [] fuel v h = rw (eq→== a.visited 0 v.visited) (refl, v)
visited_revisit-IsAbandoned {a} {xs} (y ∷ ys) fuel v h =
    let c = v.visited in
    let start : a.visited ≢ 0 = λ z. c.1 (sym c.0 ∙ z) in
    let first_base : IsBase a.visited =
      first-IsBase a.next _ (y ∷ ys) c (λ s m. v.bases s (omega arith)) in
    let head = (ptr-tagged_segment a.visited a.abandoned first_base).0 in
    elim (Bool-cases (tagged_segment_ptr a.abandoned == 0)) [
      | inl empty ↦
          let e : xs ≡ [] = null_list a.next _ xs v.waiting ((==_iff _ 0).0 empty) in
          rw (ne→== a.visited 0 start, empty)
            (
              refl,
              subst
                  (λ zs.
                    IsAbandoned
                      (record a { visited = 0; abandoned = tagged_segment a.visited a.abandoned })
                      zs [])
                  (sym (ap (λ zs. (y ∷ ys) ++ zs) e ∙ append-nil (y ∷ ys)))
                  (record {
                    waiting = Chain-start a.next _ a.visited (y ∷ ys) head c;
                    visited = refl;
                    once = λ s. omega (arith, v.once s);
                    bases = λ s m. v.bases s (omega (arith, m));
                  }),
            )
      | inr more ↦
          rw
            (
              ne→== a.visited 0 start,
              more,
              last_of-Chain fuel a.next a.visited y ys c (omega arith),
            )
            (
              refl,
              record {
                waiting =
                    Chain-start (update a.next (last_or y ys) (tagged_segment_ptr a.abandoned)) _
                      a.visited ((y ∷ ys) ++ xs) head
                      (Chain-append a.next a.visited (tagged_segment_ptr a.abandoned) y ys xs c
                        v.waiting (λ s. omega (arith, v.once s)));
                visited = refl;
                once = λ s. omega (arith, count-append s (y ∷ ys) xs, v.once s);
                bases = λ s m. v.bases s (omega (arith, count-append s (y ∷ ys) xs));
              },
            )
    ]

-- What a pop returns: the first abandoned segment, or when there is none the first visited one, after
-- which the others are abandoned, or null.
abbrev pub PopsTo : (xs vs : List ℕ) → Popped → Type 0
PopsTo (x ∷ xs) vs r = (r.segment ≡ x) × IsAbandoned r.lists xs vs
PopsTo [] (x ∷ vs) r = (r.segment ≡ x) × IsAbandoned r.lists vs []
PopsTo [] [] r = (r.segment ≡ 0) × IsAbandoned r.lists [] []

-- With fuel for the visited list, `mi_abandoned_pop` takes the first abandoned segment from the list;
-- when there is none, it takes the first of the visited ones, and the others become abandoned; when
-- there are no visited ones either, it returns null and changes nothing about the lists.
pub abandoned_pop-PopsTo :
    {a : Abandoned} (xs vs : List ℕ) (fuel : ℕ)
    → IsAbandoned a xs vs
    → length vs ≤ fuel
    → PopsTo xs vs (abandoned_pop fuel a)
unfolding abandoned_pop
abandoned_pop-PopsTo {a} (x ∷ xs) vs fuel v h =
    let some_first : tagged_segment_ptr a.abandoned ≢ 0 = λ z. v.waiting.1 (sym v.waiting.0 ∙ z) in
    rw (ne→== _ 0 some_first) (take_first-IsAbandoned v x xs refl)
abandoned_pop-PopsTo {a} [] (x ∷ vs) fuel v h =
    let (moved, w) = visited_revisit-IsAbandoned (x ∷ vs) fuel v h in
    let start : a.visited ≢ 0 = λ z. v.visited.1 (sym v.visited.0 ∙ z) in
    rw (eq→== _ 0 v.waiting, moved, ne→== a.visited 0 start)
      (take_first-IsAbandoned w x vs (append-nil (x ∷ vs)))
abandoned_pop-PopsTo {a} [] [] fuel v h =
    let (moved, w) = visited_revisit-IsAbandoned [] fuel v h in
    rw (eq→== _ 0 v.waiting, moved, eq→== a.visited 0 v.visited) (refl, v)
