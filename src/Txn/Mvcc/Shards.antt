-- ===== src/Txn/Mvcc/Shards.antt =====
-- How transaction/transaction_manager.cpp spreads tuple keys over its shards.
use Prim.Native.Nat.{bit_xor}
use database.Prelude.{ℕ, ◌*◌, ◌/◌, ◌%◌, ◌^◌}
use database.Txn.Defs.{TupleKey}

abbrev pub tuple_state_shard_count : ℕ
tuple_state_shard_count = 64

-- `value ^= value >> 33`
abbrev fold : ℕ → ℕ
fold value = bit_xor value (value / 2 ^ 33)

-- `value *= factor` on 64 bits
abbrev scale : ℕ → ℕ → ℕ
scale value factor = (value * factor) % 2 ^ 64

-- The hash of a key, on 64-bit words.
unfoldable pub tuple_state_shard_hash : TupleKey → ℕ
tuple_state_shard_hash key = fold (
    scale
      (fold (
        scale
          (fold (
            bit_xor
              (bit_xor ((key.fd % 2 ^ 32 * 2 ^ 32) % 2 ^ 64) (key.rid.page_no % 2 ^ 32 * 2 ^ 16))
              (key.rid.slot_no % 2 ^ 16)))
          0xff51afd7ed558ccd))
      0xc4ceb9fe1a85ec53)

-- The mask of a power of two keeps the low bits.
unfoldable pub shard_index : TupleKey → ℕ
shard_index key = tuple_state_shard_hash key % tuple_state_shard_count
