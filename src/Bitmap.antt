-- ===== src/Bitmap.antt =====
-- record/bitmap.h: the slot bitmap of a record page. A bitmap is the list of its bytes; a byte is a
-- number below 256, with the bit pattern of the source's `char`. A read or write past the end, which
-- the source does not check, reads 0 and writes nothing.
pub mod Byte
pub mod Bits
pub mod Search
pub mod Tests
use Prim.Native.Nat.{bit_and, bit_or}
use database.Prelude.{
  ℕ, zero, suc, ◌+◌, ◌-◌, ◌/◌, ◌%◌, List, map, get_or, set, Bool, not, if◌then◌else◌, nat_eqb, ltb,
  replicate, bool_eqb,
}
use Byte.{bitmap_width, get_bit}

unfoldable pub get_bucket : ℕ → ℕ
get_bucket pos = pos / bitmap_width

-- `memset(bm, 0, size)`
unfoldable pub init : ℕ → List ℕ
init size = replicate size 0

unfoldable pub mark : List ℕ → ℕ → List ℕ
unfolding get_bucket get_bit
mark bm pos = set bm (get_bucket pos) (bit_or (get_or bm (get_bucket pos) 0) (get_bit pos))

-- `~get_bit(pos)` as a byte is 255 less the bit.
unfoldable pub reset : List ℕ → ℕ → List ℕ
unfolding get_bucket get_bit
reset bm pos = set bm (get_bucket pos) (bit_and (get_or bm (get_bucket pos) 0) (255 - get_bit pos))

unfoldable pub is_set : List ℕ → ℕ → Bool
unfolding get_bucket get_bit
is_set bm pos = not (nat_eqb (bit_and (get_or bm (get_bucket pos) 0) (get_bit pos)) 0)

-- The loop of `next_bit`, over the slots from `i` on that lie below `max_n`.
unfoldable pub search_bit : ℕ → Bool → List ℕ → ℕ → ℕ
search_bit zero bit bm i = i
search_bit (suc rounds) bit bm i =
    let later = search_bit rounds bit bm (i + 1) in if bool_eqb (is_set bm i) bit then i else later

-- `start` is the source's `curr + 1`, since `curr` is -1 in a first search.
unfoldable pub next_bit : Bool → List ℕ → ℕ → ℕ → ℕ
unfolding search_bit
next_bit bit bm max_n start =
    if ltb start max_n then search_bit (max_n - start) bit bm start else max_n

unfoldable pub first_bit : Bool → List ℕ → ℕ → ℕ
unfolding next_bit
first_bit bit bm max_n = next_bit bit bm max_n 0
