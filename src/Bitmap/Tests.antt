-- ===== src/Bitmap/Tests.antt =====
-- A field with the bits 0, 1 and 3 set, and two bits at index 4.
use mimalloc_mc.Prelude.{ℕ, ◌≡◌, Option, arith, ◌==◌, if◌then◌else◌}
use mimalloc_mc.Bitmap.{Bitmap, try_find_claim_field}
use mimalloc_mc.Bitmap.Claim.{IsSequence}
use mimalloc_mc.Bitmap.Search.{FirstFit, claimed_at, try_find_claim_field-FirstFit}

abbrev three_set : Bitmap
three_set j = if j == 0 then 11 else 0

two_bits : IsSequence 2 4 three_set
two_bits = record { within = omega arith; field_word = omega arith }

try_find_claim_field_example :
    (r : Option ℕ) × FirstFit (three_set 0) 2 r
    × (try_find_claim_field 0 2 three_set ≡ claimed_at 0 2 three_set r)
try_find_claim_field_example =
    try_find_claim_field-FirstFit 0 2 three_set (omega arith) (omega arith) (omega arith)
