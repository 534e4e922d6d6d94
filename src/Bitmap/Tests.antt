-- ===== src/Bitmap/Tests.antt =====
-- Runs of record/bitmap.h on a bitmap of two bytes.
use database.Prelude.{ℕ, List, [], ◌∷◌, true, arith}
use database.Bitmap.{next_bit}
use database.Bitmap.Bits.{IsBitmap}
use database.Bitmap.Search.{IsFirst, next_bit-IsFirst}

-- Slots 1 and 9 are in use, of twelve.
abbrev two_used : List ℕ
two_used = 64 ∷ 64 ∷ []

two_used-IsBitmap : IsBitmap 12 two_used
two_used-IsBitmap = record { bytes = (omega arith, (omega arith, tt)); room = omega arith }

next_bit_example : IsFirst true two_used 12 2 (next_bit true two_used 12 2)
next_bit_example = next_bit-IsFirst true two_used 12 2
