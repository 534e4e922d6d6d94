-- ===== src/Bitmap/Bits.antt =====
-- Reading back a slot bit of record/bitmap.h after a write.
use database.Prelude.{
  ℕ, zero, suc, ◌*◌, ◌/◌, ◌%◌, ◌≤◌, ◌<◌, ◌≡◌, ◌∙◌, replicate, length-replicate, get_or-replicate,
  List, [], ◌∷◌, get_or, set, Bool, true, false, arith, nat_eqb, if◌then◌else◌, length, length-set,
  get_or-set_self, get_or-set_ne, All, inl, inr, Bool-cases,
}
use database.Bitmap.Byte.{test_bit, test_bit_zero, byte_laws}
use database.Bitmap.{init, mark, reset, is_set}

-- A bitmap holds bytes, and has room for `n` slots.
pub record IsBitmap (n : ℕ) (bm : List ℕ) : Type 0 where
  pub bytes : All (λ b. b < 256) bm
  pub room : n ≤ length bm * 8

get_or-byte : (bm : List ℕ) (i : ℕ) → All (λ b. b < 256) bm → get_or bm i 0 < 256
get_or-byte [] i a = omega arith
get_or-byte (b ∷ bm) zero a = a.0
get_or-byte (b ∷ bm) (suc i) a = get_or-byte bm i a.1

All-set :
    (bm : List ℕ) (i v : ℕ) → v < 256 → All (λ b. b < 256) bm → All (λ b. b < 256) (set bm i v)
All-set [] i v h a = tt
All-set (b ∷ bm) zero v h a = (h, a.1)
All-set (b ∷ bm) (suc i) v h a = (a.0, All-set bm i v h a.1)

-- A byte with one bit changed to `value`.
abbrev Changed : ℕ → ℕ → ℕ → Bool → Type 0
Changed b b' p value =
    (b' < 256) × ((q : ℕ) → q < 8 → test_bit b' q ≡ (if nat_eqb p q then value else test_bit b q))

is_set-set :
    (bm : List ℕ) (pos j b' : ℕ) (value : Bool)
    → pos < length bm * 8
    → Changed (get_or bm (pos / 8) 0) b' (pos % 8) value
    → is_set (set bm (pos / 8) b') j ≡ (if nat_eqb pos j then value else is_set bm j)
unfolding is_set
is_set-set bm pos j b' value h c = elim (Bool-cases (nat_eqb (pos / 8) (j / 8))) [
  | inl e ↦
      let same : pos / 8 ≡ j / 8 = ground arith in
      rw (← same, get_or-set_self bm (pos / 8) b' 0 (omega arith))
        (c.1 (j % 8) (omega arith) ∙ ground arith)
  | inr e ↦ rw (get_or-set_ne bm (pos / 8) (j / 8) b' 0 (λ same. ground arith)) (ground arith)
]

-- What the two writes share: the bitmap stays one, and the bit read back is the one written.
abbrev pub Writes : ℕ → List ℕ → List ℕ → ℕ → Bool → Type 0
Writes n bm bm' pos value =
    IsBitmap n bm' × ((j : ℕ) → is_set bm' j ≡ (if nat_eqb pos j then value else is_set bm j))

set-Writes :
    (n : ℕ) (bm : List ℕ) (pos b' : ℕ) (value : Bool)
    → IsBitmap n bm
    → pos < n
    → Changed (get_or bm (pos / 8) 0) b' (pos % 8) value
    → Writes n bm (set bm (pos / 8) b') pos value
set-Writes n bm pos b' value v h c = (
  record {
    bytes = All-set bm (pos / 8) b' c.0 v.bytes;
    room = omega (arith, length-set bm (pos / 8) b', v.room);
  },
  λ j. is_set-set bm pos j b' value (omega (arith, v.room)) c,
)

-- On a bitmap with room for the slot, `set` makes that bit 1 and leaves every other as it was.
pub mark-Writes :
    (n : ℕ) (bm : List ℕ) (pos : ℕ) → IsBitmap n bm → pos < n → Writes n bm (mark bm pos) pos true
unfolding mark
mark-Writes n bm pos v h =
    let (low, _, each) = byte_laws _ (pos % 8) (get_or-byte bm (pos / 8) v.bytes) (omega arith) in
    set-Writes n bm pos _ true v h (low, λ q hq. (each q hq).0)

-- On a bitmap with room for the slot, `reset` makes that bit 0 and leaves every other as it was.
pub reset-Writes :
    (n : ℕ) (bm : List ℕ) (pos : ℕ) → IsBitmap n bm → pos < n → Writes n bm (reset bm pos) pos false
unfolding reset
reset-Writes n bm pos v h =
    let (_, low, each) = byte_laws _ (pos % 8) (get_or-byte bm (pos / 8) v.bytes) (omega arith) in
    set-Writes n bm pos _ false v h (low, λ q hq. (each q hq).1)

-- After `init` no bit is set.
pub is_set-init : (size pos : ℕ) → is_set (init size) pos ≡ false
unfolding init is_set
is_set-init size pos =
    rw (get_or-replicate {A = ℕ} size (pos / 8) 0) (test_bit_zero (pos % 8) (omega arith))

All-replicate : (size : ℕ) → All (λ b. b < 256) (replicate size 0)
All-replicate zero = tt
All-replicate (suc size) = (omega arith, All-replicate size)

pub init-IsBitmap : (n size : ℕ) → n ≤ size * 8 → IsBitmap n (init size)
unfolding init
init-IsBitmap n size h = record {
  bytes = All-replicate size;
  room = omega (arith, length-replicate {A = ℕ} size 0);
}
