-- ===== src/Txn/Unique/Keys.antt =====
-- `UniqueKeyId` of transaction/txn_defs.h, and its shard in transaction/transaction_manager.cpp.
use Prim.Native.Nat.{bit_xor}
use database.Prelude.{
  ℕ, ◌*◌, ◌/◌, ◌%◌, ◌^◌, ◌≡◌, ◌↔◌, List, [], ◌∷◌, Bool, true, false, ◌&&◌, arith, nat_eqb, Eq,
}

pub record UniqueKeyId : Type 0 where
  pub fd : ℕ
  pub index_no : ℕ
  pub encoded_key : List ℕ

abbrev pub bytes_eqb : List ℕ → List ℕ → Bool
bytes_eqb [] [] = true
bytes_eqb [] (b ∷ bs) = false
bytes_eqb (a ∷ as') [] = false
bytes_eqb (a ∷ as') (b ∷ bs) = nat_eqb a b && bytes_eqb as' bs

pub bytes_eqb_iff : (as' bs : List ℕ) → (bytes_eqb as' bs ≡ true) ↔ (as' ≡ bs)
bytes_eqb_iff [] [] = ground arith
bytes_eqb_iff [] (b ∷ bs) = ground arith
bytes_eqb_iff (a ∷ as') [] = ground arith
bytes_eqb_iff (a ∷ as') (b ∷ bs) = ground (arith, bytes_eqb_iff as' bs)

abbrev pub unique_key_eqb : UniqueKeyId → UniqueKeyId → Bool
unique_key_eqb a b =
    nat_eqb a.fd b.fd && (nat_eqb a.index_no b.index_no && bytes_eqb a.encoded_key b.encoded_key)

pub unique_key_eqb_iff : (a b : UniqueKeyId) → (unique_key_eqb a b ≡ true) ↔ (a ≡ b)
unique_key_eqb_iff a b = ground (arith, bytes_eqb_iff a.encoded_key b.encoded_key)

instance abbrev pub unique_key_eq : Eq UniqueKeyId
unique_key_eq = record { test = unique_key_eqb; test_iff = unique_key_eqb_iff }

-- FNV-1a over 64-bit words.
unfoldable pub mix_bytes : ℕ → List ℕ → ℕ
mix_bytes hash [] = hash
mix_bytes hash (b ∷ bs) = mix_bytes ((bit_xor hash b * 1099511628211) % 2 ^ 64) bs

-- The four bytes of a 32-bit word, low byte first.
abbrev word_bytes : ℕ → List ℕ
word_bytes v = v % 256 ∷ v / 2 ^ 8 % 256 ∷ v / 2 ^ 16 % 256 ∷ v / 2 ^ 24 % 256 ∷ []

abbrev pub unique_key_shard_count : ℕ
unique_key_shard_count = 64

unfoldable pub unique_shard_index : UniqueKeyId → ℕ
unfolding mix_bytes
unique_shard_index key =
    mix_bytes
      (mix_bytes (mix_bytes 1469598103934665603 (word_bytes key.fd)) (word_bytes key.index_no))
      key.encoded_key
    % unique_key_shard_count
