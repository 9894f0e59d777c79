-- ===== src/Random/Tests.antt =====
-- The first test vector in the comment of mimalloc-custom/random.c, and a block with a carry.
use mimalloc_mc.Prelude.{ℕ, ◌≡◌, refl, [], ◌∷◌, ◌==◌, if◌then◌else◌}
use mimalloc_mc.Random.{Array, Context, rotl, mix, qround}
use mimalloc_mc.Random.Words.{slice}

abbrev vector : Array
vector i =
    if i == 0
    then 286331153
    else if i == 1
    then 16909060
    else if i == 2
    then 2609737539
    else 19088743

rounded : slice 4 (qround 0 1 2 3 vector) 0 ≡ 3928658676 ∷ 3407673550 ∷ 1166100270 ∷ 1484899515 ∷ []
unfolding qround mix rotl
rounded = refl

abbrev before_carry : Context
before_carry = record { input = λ i. 4294967295; output = λ i. 0; output_available = 0 }

abbrev two : ℕ
two = 2
