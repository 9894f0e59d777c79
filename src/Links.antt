-- ===== src/Links.antt =====
-- Doubly linked lists with a first and a last element, as mimalloc-custom/page-queue.c keeps the
-- pages of a size class and mimalloc-custom/segment.c the segments with free pages and the pages to
-- be reset. Addresses are numbers, null is 0.
pub mod Remove
pub mod Insert
pub mod Join
use mimalloc_mc.Prelude.{
  ℕ, ◌+◌, ◌≤◌, ◌<◌, ◌≡◌, ◌≢◌, refl, inl, inr, List, [], ◌∷◌, arith, ◌==◌, if◌then◌else◌, update,
  Bool-cases,
}
use mimalloc_mc.Prelude.Chain.{Memory, count, last_or}

-- The `next` and `prev` fields of all nodes.
pub record Links : Type 0 where
  pub next : Memory
  pub prev : Memory

pub record Ends : Type 0 where
  pub first : ℕ
  pub last : ℕ

-- From `p` the fields lead forward through the list to null, and backward to `before`.
abbrev pub Linked : Links → (before p : ℕ) → List ℕ → Type 0
Linked l before p [] = p ≡ 0
Linked l before p (x ∷ xs) = (p ≡ x) × (x ≢ 0) × (l.prev x ≡ before) × Linked l x (l.next x) xs

-- The list of a queue, each element once.
pub record IsQueue (l : Links) (e : Ends) (xs : List ℕ) : Type 0 where
  pub linked : Linked l 0 e.first xs
  pub ends : e.last ≡ last_or 0 xs
  pub once : (a : ℕ) → count a xs ≤ 1

-- The two links have the same fields outside of a list.
pub record IsOutside (l l' : Links) (xs : List ℕ) : Type 0 where
  pub next : (a : ℕ) → count a xs ≡ 0 → l'.next a ≡ l.next a
  pub prev : (a : ℕ) → count a xs ≡ 0 → l'.prev a ≡ l.prev a

-- Null the fields of a node that has left its list.
abbrev pub clear : ℕ → Links → Links
clear x l = record { next = update l.next x 0; prev = update l.prev x 0 }

-- The neighbours of a node are linked to one another.
abbrev pub unlink : ℕ → Links → Links
unlink x l = record {
  next = if l.prev x == 0 then l.next else update l.next (l.prev x) (l.next x);
  prev = if l.next x == 0 then l.prev else update l.prev (l.next x) (l.prev x);
}

abbrev pub unlink_ends : ℕ → Links → Ends → Ends
unlink_ends x l e = record {
  first = if x == e.first then l.next x else e.first;
  last = if x == e.last then l.prev x else e.last;
}

abbrev pub push_front : ℕ → Links → Ends → Links
push_front x l e = record {
  next = update l.next x e.first;
  prev = if e.first == 0 then update l.prev x 0 else update (update l.prev x 0) e.first x;
}

abbrev pub push_front_ends : ℕ → Ends → Ends
push_front_ends x e = record { first = x; last = if e.first == 0 then x else e.last }

abbrev pub push_back : ℕ → Links → Ends → Links
push_back x l e = record {
  next = if e.last == 0 then update l.next x 0 else update (update l.next x 0) e.last x;
  prev = update l.prev x e.last;
}

abbrev pub push_back_ends : ℕ → Ends → Ends
push_back_ends x e = record { first = if e.last == 0 then x else e.first; last = x }

-- Only the fields of the list's own elements matter.
pub Linked-agree :
    (l l' : Links) (before p : ℕ) (xs : List ℕ)
    → ((a : ℕ) → 0 < count a xs → (l'.next a ≡ l.next a) × (l'.prev a ≡ l.prev a))
    → Linked l before p xs
    → Linked l' before p xs
Linked-agree l l' before p [] same c = c
Linked-agree l l' before p (x ∷ xs) same c =
    let here = same x (ground arith) in
    (
      c.0,
      c.1,
      omega (arith, here.1, c.2),
      rw here.0 (Linked-agree l l' x (l.next x) xs (λ a h. same a (ground arith)) c.3),
    )

-- Another queue does not notice.
pub IsQueue-outside :
    {l l' : Links} {e : Ends} {xs ys : List ℕ}
    → IsOutside l l' xs
    → ((a : ℕ) → 0 < count a ys → count a xs ≡ 0)
    → IsQueue l e ys
    → IsQueue l' e ys
IsQueue-outside {l} {l'} {e} {xs} {ys} o apart q = record {
  linked =
      Linked-agree l l' 0 e.first ys (λ a h. (o.next a (apart a h), o.prev a (apart a h))) q.linked;
  ends = q.ends;
  once = q.once;
}
