-- ===== src/Txn/Unique/Ownership/Shards.antt =====
-- Interleavings of the registry in transaction/transaction_manager.cpp in which a commit publishes its
-- unique keys shard by shard, as `CommitUniqueKeyEntries` locks them, and clears its write states last.
-- The restoration of a failed statement is no step: it can bring an entry back, as Revival.antt shows.
use database.Prelude.{
  ℕ, ◌+◌, ◌<◌, ◌≡◌, ap, refl, sym, ◌∙◌, subst, List, [], ◌∷◌, Option, none, true, if◌then◌else◌,
  arith, nat_eqb, leb, lookup,
}
use database.Txn.Defs.{Rid, done}
use database.Txn.Unique.Keys.{UniqueKeyId, unique_key_eq, unique_key_eqb_iff, unique_shard_index}
use database.Txn.Unique.{Registry, UniqueTxn, UniqueKeyChange, get_entry, get_state}
use database.Txn.Unique.Reserve.{reserve_unique_key, mark_unique_key_deleted}
use database.Txn.Unique.Finish.{Write, of_shard, commit_shard, cleanup_unique_key_abort}
use database.Txn.Unique.Ownership.Commit.{unique_shard_index-lt}
use database.Txn.Unique.Ownership.Worlds.{KeysOnce, World, IsValid, IsValidKey-cong}

-- `published i` is how many shards the commit of transaction `i` has published; before it, 0.
pub record Shards : Type 0 where
  pub registry : Registry
  pub txns : ℕ → UniqueTxn
  pub published : ℕ → ℕ

-- The write states in the shards from `n` on.
unfoldable pub from_shard : ℕ → List Write → List Write
from_shard n [] = []
from_shard n (x ∷ ws) =
    if leb n (unique_shard_index x.0) then x ∷ from_shard n ws else from_shard n ws

-- The state of transaction `i` after a call, with its progress.
abbrev pub moved : Shards → ℕ → Registry × UniqueTxn → ℕ → Shards
moved s i both n = record {
  registry = both.0;
  txns = λ j. if nat_eqb i j then both.1 else s.txns j;
  published = λ j. if nat_eqb i j then n else s.published j;
}

-- A granted reservation, a granted deletion or an abort.
pub data RegistryCall (s : Shards) (i : ℕ) : Registry × UniqueTxn → Type 0 where
  call_reserve :
      (key : UniqueKeyId) (rid : Rid) (seen : Option Rid) (generation : ℕ)
      (changes : Option (List UniqueKeyChange)) (both : Registry × UniqueTxn)
      → (reserve_unique_key s.registry (s.txns i) key rid seen generation changes).1
        ≡ done (true, both)
      → RegistryCall s i both
  call_delete :
      (key : UniqueKeyId) (rid : Rid) (changes : Option (List UniqueKeyChange))
      (both : Registry × UniqueTxn)
      → (mark_unique_key_deleted s.registry (s.txns i) key rid changes).1 ≡ done both
      → RegistryCall s i both
  call_abort : RegistryCall s i (cleanup_unique_key_abort s.registry (s.txns i))

-- A call that is not a commit, of a transaction that is not committing; the publication of the next
-- shard of a commit; or its end, when all shards are published.
pub data Interleaved (s : Shards) : Shards → Type 0 where
  calls :
      (i : ℕ) (both : Registry × UniqueTxn)
      → s.published i ≡ 0
      → RegistryCall s i both
      → Interleaved s (moved s i both 0)
  publishes :
      (i : ℕ) (r : Registry)
      → s.published i < 64
      → commit_shard
          (s.txns i).txn_id
          s.registry
          (s.published i)
          (of_shard (s.published i) (s.txns i).unique_key_write_states)
        ≡ done r
      → Interleaved s (moved s i (r, s.txns i) (s.published i + 1))
  ends :
      (i : ℕ)
      → s.published i ≡ 64
      → Interleaved s (moved s i (s.registry, record (s.txns i) { unique_key_write_states = [] }) 0)

pub data InterleavedReach (s : Shards) : Shards → Type 0 where
  started : InterleavedReach s s
  stepped : {t u : Shards} → InterleavedReach s t → Interleaved t u → InterleavedReach s u

-- What is not published yet.
abbrev pub remaining : Shards → ℕ → UniqueTxn
remaining s i = record (s.txns i) {
  unique_key_write_states = from_shard (s.published i) (s.txns i).unique_key_write_states;
}

abbrev pub view : Shards → World
view s = record { registry = s.registry; txns = remaining s }

pub record IsGood (s : Shards) : Type 0 where
  pub valid : IsValid (view s)
  pub once : (i : ℕ) → KeysOnce (s.txns i).unique_key_write_states

pub lookup-from_shard :
    (n : ℕ) (k : UniqueKeyId) (ws : List Write)
    → lookup k (from_shard n ws) ≡ (if leb n (unique_shard_index k) then lookup k ws else none)
unfolding lookup from_shard
lookup-from_shard n k [] = ground arith
lookup-from_shard n k ((j, s) ∷ ws) =
    ground (
      arith,
      lookup-from_shard n k ws,
      unique_key_eqb_iff j k,
      ap unique_shard_index {x = j} {y = k},
    )

pub from_shard-KeysOnce : (n : ℕ) (ws : List Write) → KeysOnce ws → KeysOnce (from_shard n ws)
unfolding from_shard
from_shard-KeysOnce n [] once = tt
from_shard-KeysOnce n ((k, s) ∷ ws) once =
    ground (arith, once, lookup-from_shard n k ws, from_shard-KeysOnce n ws)

pub from_shard_zero : (ws : List Write) → from_shard 0 ws ≡ ws
unfolding from_shard
from_shard_zero [] = refl
from_shard_zero (x ∷ ws) = ground (arith, from_shard_zero ws)

pub from_shard_last : (ws : List Write) → from_shard 64 ws ≡ []
unfolding from_shard
from_shard_last [] = refl
from_shard_last (x ∷ ws) = ground (arith, unique_shard_index-lt x.0, from_shard_last ws)

-- The same registry and transactions.
pub IsValid-cong :
    (w w' : World)
    → w.registry ≡ w'.registry
    → ((j : ℕ) → w.txns j ≡ w'.txns j)
    → IsValid w
    → IsValid w'
IsValid-cong w w' e h v = record {
  ids = λ j. ap (λ (t : UniqueTxn). t.txn_id) (sym (h j)) ∙ v.ids j;
  keys = λ key.
      IsValidKey-cong _ _ _ _ (ap (λ r. get_entry r key) e) (λ j. ap (λ t. get_state t key) (h j))
        (v.keys key);
  once = λ j. subst (λ (t : UniqueTxn). KeysOnce t.unique_key_write_states) (h j) (v.once j);
}
