-- ===== src/Abandoned/Tests.antt =====
-- Segments at the multiples of 131072.
use mimalloc_mc.Prelude.{ℕ, ◌≡◌, refl, List, [], ◌∷◌, arith}
use mimalloc_mc.Abandoned.{
  Abandoned, tagged_segment_ptr, tagged_segment, visited_push, last_of, visited_revisit, take_first,
  abandoned_pop,
}
use mimalloc_mc.Abandoned.Tags.{IsBase, Updates, no_update, same_word-no_update}
use mimalloc_mc.Abandoned.Lists.{
  IsAbandoned, visited_push-IsAbandoned, PopsTo, abandoned_pop-PopsTo,
}

abbrev one : ℕ
one = 131072

abbrev two : ℕ
two = 262144

abbrev nothing : List ℕ
nothing = []

abbrev none_abandoned : Abandoned
none_abandoned = record { abandoned = 0; visited = 0; next = λ _. 0 }

none_abandoned-IsAbandoned : IsAbandoned none_abandoned nothing nothing
unfolding tagged_segment_ptr
none_abandoned-IsAbandoned = record {
  waiting = refl;
  visited = refl;
  once = λ s. omega arith;
  bases = λ s m. absurd (omega (arith, m));
}

one-IsBase : IsBase one
one-IsBase = record { aligned = refl; address = omega arith }

two-IsBase : IsBase two
two-IsBase = record { aligned = refl; address = omega arith }

one_visited : IsAbandoned (visited_push one none_abandoned) nothing (one ∷ [])
one_visited = visited_push-IsAbandoned none_abandoned-IsAbandoned one one-IsBase (omega arith) refl

two_visited :
    IsAbandoned (visited_push two (visited_push one none_abandoned)) nothing (two ∷ one ∷ [])
two_visited = visited_push-IsAbandoned one_visited two two-IsBase (omega arith) refl

abandoned_pop_example :
    PopsTo nothing
      (two ∷ one ∷ [])
      (abandoned_pop 2 (visited_push two (visited_push one none_abandoned)))
abandoned_pop_example = abandoned_pop-PopsTo nothing (two ∷ one ∷ []) 2 two_visited (omega arith)

abbrev no_changes : ℕ
no_changes = 0

abbrev no_change : Updates 131075 no_changes 131075
no_change = no_update

same_word_example : no_changes ≡ 0
same_word_example = same_word-no_update no_change (omega arith) refl

popped : (abandoned_pop 2 (visited_push two (visited_push one none_abandoned))).segment ≡ two
unfolding abandoned_pop visited_push visited_revisit last_of take_first tagged_segment_ptr
    tagged_segment
popped = refl
