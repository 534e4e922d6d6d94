-- ===== src/Txn/Mvcc/Endings/Loops.antt =====
-- The loops over keys grouped by shard in transaction/transaction_manager.cpp visit every key.
use database.Prelude.{
  ℕ, zero, suc, ◌+◌, ◌<◌, ◌≡◌, refl, ap, ◌∙◌, List, [], ◌∷◌, ◌++◌, Option, Bool, true, false, ◌&&◌,
  if◌then◌else◌, arith, nat_eqb, leb, ltb, All, Bool-cases, inl, inr,
}
use database.Txn.Defs.{TupleKey, TupleState, key_eqb, key_eqb_iff}
use database.Txn.Mvcc.{Manager, get_tuple_state}
use database.Txn.Mvcc.Shards.{shard_index}
use database.Txn.Mvcc.Endings.{of_shard, groups_from, by_shard, for_each}

pub shard_index-lt : (k : TupleKey) → shard_index k < 64
unfolding shard_index
shard_index-lt k = omega arith

module _ {A : Type 0} (key_of : A → TupleKey) (k : TupleKey) where
  -- Whether some entry has the key.
  abbrev pub visits : List A → Bool
  visits [] = false
  visits (a ∷ as') = if key_eqb (key_of a) k then true else visits as'

  visits-append : (xs ys : List A) → visits (xs ++ ys) ≡ (if visits xs then true else visits ys)
  visits-append [] ys = refl
  visits-append (x ∷ xs) ys = ground (arith, visits-append xs ys)

  visits-of_shard :
      (i : ℕ) (as' : List A)
      → visits (of_shard key_of i as') ≡ (if nat_eqb (shard_index k) i then visits as' else false)
  unfolding of_shard
  visits-of_shard i [] = ground arith
  visits-of_shard i (a ∷ as') = ground (
    arith,
    visits-of_shard i as',
    key_eqb_iff (key_of a) k,
    ap shard_index {x = key_of a} {y = k},
  )

  visits-groups_from :
      (n i : ℕ) (as' : List A)
      → visits (groups_from key_of n i as')
        ≡ (if leb i (shard_index k) && ltb (shard_index k) (i + n) then visits as' else false)
  unfolding groups_from
  visits-groups_from zero i as' = ground arith
  visits-groups_from (suc n) i as' = ground (
    arith,
    visits-append (of_shard key_of i as') (groups_from key_of n (i + 1) as'),
    visits-of_shard i as',
    visits-groups_from n (i + 1) as',
  )

  -- Grouping by shard loses no key and adds none.
  pub visits-by_shard : (as' : List A) → visits (by_shard key_of as') ≡ visits as'
  unfolding by_shard
  visits-by_shard as' = ground (arith, visits-groups_from 64 0 as', shard_index-lt k)

module _ {A : Type 0} (key_of : A → TupleKey) (P : A → Type 0) where
  All-append : (xs ys : List A) → All P xs → All P ys → All P (xs ++ ys)
  All-append [] ys a b = b
  All-append (x ∷ xs) ys a b = (a.0, All-append xs ys a.1 b)

  All-of_shard : (i : ℕ) (as' : List A) → All P as' → All P (of_shard key_of i as')
  unfolding of_shard
  All-of_shard i [] h = tt
  All-of_shard i (a ∷ as') h = elim (Bool-cases (nat_eqb (shard_index (key_of a)) i)) [
    | inl e ↦ rw e (h.0, All-of_shard i as' h.1)
    | inr e ↦ rw e (All-of_shard i as' h.1)
  ]

  All-groups_from : (n i : ℕ) (as' : List A) → All P as' → All P (groups_from key_of n i as')
  unfolding groups_from
  All-groups_from zero i as' h = tt
  All-groups_from (suc n) i as' h =
      All-append _ _ (All-of_shard i as' h) (All-groups_from n (i + 1) as' h)

  pub All-by_shard : (as' : List A) → All P as' → All P (by_shard key_of as')
  unfolding by_shard
  All-by_shard as' h = All-groups_from 64 0 as' h

module _ {A : Type 0} (key_of : A → TupleKey) (body : Manager → A → Manager)
    (f : Option TupleState → Option TupleState) (k : TupleKey) where
  -- The round of an entry changes the state at its key by `f`.
  abbrev pub Round : A → Type 0
  Round a =
      (m : Manager)
      → get_tuple_state (body m a) k
        ≡ (if key_eqb (key_of a) k then f (get_tuple_state m k) else get_tuple_state m k)

  -- So does the loop, where `f` done twice is `f` done once.
  pub get-for_each :
      (m : Manager) (as' : List A)
      → ((o : Option TupleState) → f (f o) ≡ f o)
      → All Round as'
      → get_tuple_state (for_each body m as') k
        ≡ (if visits key_of k as' then f (get_tuple_state m k) else get_tuple_state m k)
  unfolding for_each
  get-for_each m [] idem h = refl
  get-for_each m (a ∷ as') idem h =
      ground (arith, get-for_each (body m a) as' idem h.1, h.0 m, idem (get_tuple_state m k))

-- A loop whose rounds leave the transactions alone leaves them alone.
pub txn_map-for_each :
    {A : Type 0} (body : Manager → A → Manager) (m : Manager) (as' : List A)
    → ((m : Manager) (a : A) → (body m a).txn_map ≡ m.txn_map)
    → (for_each body m as').txn_map ≡ m.txn_map
unfolding for_each
txn_map-for_each body m [] h = refl
txn_map-for_each body m (a ∷ as') h = txn_map-for_each body (body m a) as' h ∙ h m a
