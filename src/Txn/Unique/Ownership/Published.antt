-- ===== src/Txn/Unique/Ownership/Published.antt =====
-- Each step of the shard-by-shard interleavings of transaction/transaction_manager.cpp leaves the keys that
-- are not published yet with one owner.
use database.Prelude.{
  ℕ, ◌+◌, ◌≡◌, ◌⊎◌, ap, refl, sym, ◌∙◌, subst, inl, inr, List, [], none, some, true, if◌then◌else◌,
  arith, has_value, nat_eqb, nat_eqb_iff, Bool-cases, Option-cases, lookup,
}
use database.Txn.Defs.{done}
use database.Txn.Unique.Keys.{UniqueKeyId, unique_key_eq, unique_shard_index}
use database.Txn.Unique.{Registry, UniqueTxn, get_entry, get_state}
use database.Txn.Unique.Reserve.{reserve_unique_key, mark_unique_key_deleted}
use database.Txn.Unique.Finish.{Write, of_shard, commit_shard, cleanup_unique_key_abort}
use database.Txn.Unique.Ownership.Commit.{
  Freed, ReadyFrom, commit_shard-Freed, lookup-of_shard, of_shard-KeysOnce, shard-Ready,
}
use database.Txn.Unique.Ownership.Worlds.{
  KeysOnce, World, update, IsValid, IsValidKey-cong, valid-Owns,
}
use database.Txn.Unique.Ownership.Steps.{reserves, deletes, aborts, registry_step-IsValid}
use database.Txn.Unique.Ownership.Shards.{
  Shards, RegistryCall, call_reserve, call_delete, call_abort, moved, from_shard, remaining, view,
  IsGood, lookup-from_shard, from_shard-KeysOnce, from_shard_zero, from_shard_last, IsValid-cong,
}

whole : (s : Shards) (i : ℕ) → s.published i ≡ 0 → remaining s i ≡ s.txns i
whole s i e =
    let ws = (s.txns i).unique_key_write_states in
    ap (λ n. record (s.txns i) { unique_key_write_states = from_shard n ws }) e
    ∙ ap (λ (xs : List Write). record (s.txns i) { unique_key_write_states = xs })
        (from_shard_zero ws)

call-IsValid :
    (s : Shards) (i : ℕ) (both : Registry × UniqueTxn)
    → IsValid (view s)
    → s.published i ≡ 0
    → RegistryCall s i both
    → IsValid (update (view s) i both)
call-IsValid s i both v e (call_reserve key rid seen generation changes both' h) =
    registry_step-IsValid (view s) _ v (
      reserves i key rid seen generation changes both (
        subst
          (λ t.
            (reserve_unique_key s.registry t key rid seen generation changes).1 ≡ done (true, both))
          (sym (whole s i e)) h))
call-IsValid s i both v e (call_delete key rid changes both' h) =
    registry_step-IsValid (view s) _ v (
      deletes i key rid changes both (
        subst (λ t. (mark_unique_key_deleted s.registry t key rid changes).1 ≡ done both)
          (sym (whole s i e)) h))
call-IsValid s i both v e call_abort =
    subst (λ t. IsValid (update (view s) i (cleanup_unique_key_abort s.registry t))) (whole s i e)
      (registry_step-IsValid (view s) _ v (aborts i))

-- What a step leaves unpublished, against a change of one transaction in the view.
moved-IsGood :
    (s : Shards) (i : ℕ) (both : Registry × UniqueTxn) (n : ℕ)
    → IsGood s
    → KeysOnce both.1.unique_key_write_states
    → IsValid (
        update (view s) i (
          both.0,
          record both.1 { unique_key_write_states = from_shard n both.1.unique_key_write_states },
        ))
    → IsGood (moved s i both n)
moved-IsGood s i both n g once v = record {
  valid =
      IsValid-cong _ _ refl
        (λ j. elim (Bool-cases (nat_eqb i j)) [ inl e ↦ rw e refl | inr e ↦ rw e refl ]) v;
  once = λ j. elim (Bool-cases (nat_eqb i j)) [ inl e ↦ rw e once | inr e ↦ rw e (g.once j) ];
}

pub calls-IsGood :
    (s : Shards) (i : ℕ) (both : Registry × UniqueTxn)
    → IsGood s
    → s.published i ≡ 0
    → RegistryCall s i both
    → IsGood (moved s i both 0)
calls-IsGood s i both g e call =
    let v = call-IsValid s i both g.valid e call in
    let itself : nat_eqb i i ≡ true = (nat_eqb_iff i i).1 refl in
    moved-IsGood s i both 0 g
      (subst (λ b. KeysOnce (if b then both.1 else remaining s i).unique_key_write_states) itself
        (v.once i))
      (subst
        (λ ws. IsValid (update (view s) i (both.0, record both.1 { unique_key_write_states = ws })))
        (sym (from_shard_zero both.1.unique_key_write_states)) v)

-- A transaction gives up some of its keys, whose entries are erased, and keeps the others.
shrink-IsValid :
    (w : World) (i : ℕ) (r : Registry) (ws : List Write)
    → IsValid w
    → KeysOnce ws
    → ((key : UniqueKeyId)
        → ((get_entry r key ≡ get_entry w.registry key)
            × (lookup key ws ≡ get_state (w.txns i) key))
          ⊎ ((has_value (get_state (w.txns i) key) ≡ true)
              × (get_entry r key ≡ none)
              × (lookup key ws ≡ none)))
    → IsValid (update w i (r, record (w.txns i) { unique_key_write_states = ws }))
unfolding get_state
shrink-IsValid w i r ws v once each = record {
  ids = λ j. ground (arith, v.ids i, v.ids j);
  keys = λ key. elim (each key) [
    | inl (entry, state) ↦
        IsValidKey-cong _ _ _ _ (sym entry)
          (λ j.
            ground
              (arith, state, nat_eqb_iff i j, ap (λ x. get_state (w.txns x) key) {x = i} {y = j}))
          (v.keys key)
    | inr (had, entry, state) ↦ elim (Option-cases (get_state (w.txns i) key)) [
      | inl absent ↦ absurd (ground (arith, had, absent))
      | inr (st, mine) ↦ inl (record {
        entry_eq = entry;
        state_eq = λ j. ground (arith, state, nat_eqb_iff i j, (valid-Owns w i key st v mine).3 j);
      })
    ]
  ];
  once = λ j. ground (arith, once, v.once j);
}

done_same : {A : Type 0} (a b : A) → done a ≡ done b → a ≡ b
done_same a b h = ground (arith, h)

-- The publication of a commit's next shard succeeds, and erases the entries of its keys there.
module _ (s : Shards) (i : ℕ) (g : IsGood s) where
  unpublished-ReadyFrom : ReadyFrom s.registry i (s.txns i).unique_key_write_states (s.published i)
  unfolding get_state
  unpublished-ReadyFrom x later e =
      let mine : lookup x.0 (from_shard (s.published i) (s.txns i).unique_key_write_states)
          ≡ some x.1 =
        ground (
          arith,
          later,
          e,
          lookup-from_shard (s.published i) x.0 (s.txns i).unique_key_write_states,
        ) in
      let owned = valid-Owns (view s) i x.0 x.1 g.valid mine in (owned.0, owned.1, owned.2)

  pub shard_published :
      (r : Registry) × (commit_shard
          (s.txns i).txn_id
          s.registry
          (s.published i)
          (of_shard (s.published i) (s.txns i).unique_key_write_states)
        ≡ done r)
      × Freed (of_shard (s.published i) (s.txns i).unique_key_write_states) s.registry r
  shard_published =
      let ws = (s.txns i).unique_key_write_states in
      let id : (s.txns i).txn_id ≡ i = g.valid.ids i in
      rw id (
        commit_shard-Freed s.registry i (s.published i) (of_shard (s.published i) ws)
          (of_shard-KeysOnce (s.published i) ws (g.once i))
          (shard-Ready s.registry i (s.published i) ws (g.once i) unpublished-ReadyFrom))

  published_key :
      (r : Registry) (key : UniqueKeyId)
      → Freed (of_shard (s.published i) (s.txns i).unique_key_write_states) s.registry r
      → let left = from_shard (s.published i + 1) (s.txns i).unique_key_write_states in
        ((get_entry r key ≡ get_entry s.registry key)
          × (lookup key left ≡ get_state (remaining s i) key))
        ⊎ ((has_value (get_state (remaining s i) key) ≡ true)
            × (get_entry r key ≡ none)
            × (lookup key left ≡ none))
  unfolding get_state
  published_key r key freed =
      let ws = (s.txns i).unique_key_write_states in
      let n = s.published i in
      let entry = freed key in
      let there = lookup-of_shard n key ws in
      let now = lookup-from_shard n key ws in
      let after = lookup-from_shard (n + 1) key ws in
      elim (Bool-cases (nat_eqb (unique_shard_index key) n)) [
        | inr elsewhere ↦ inl (ground (arith, entry, there), ground (arith, now, after))
        | inl at_shard ↦ elim (Option-cases (lookup key ws)) [
          | inl absent ↦
              inl (ground (arith, entry, there, absent), ground (arith, now, after, absent))
          | inr (st, held) ↦
              inr (
                ground (arith, now, held),
                ground (arith, entry, there, held),
                ground (arith, after),
              )
        ]
      ]

  pub publishes-IsGood :
      (r : Registry)
      → commit_shard
          (s.txns i).txn_id
          s.registry
          (s.published i)
          (of_shard (s.published i) (s.txns i).unique_key_write_states)
        ≡ done r
      → IsGood (moved s i (r, s.txns i) (s.published i + 1))
  publishes-IsGood r h =
      let ws = (s.txns i).unique_key_write_states in
      let (r', ran, freed) = shard_published in
      let same : r' ≡ r = done_same r' r (sym ran ∙ h) in
      moved-IsGood s i (r, s.txns i) (s.published i + 1) g (g.once i)
        (shrink-IsValid (view s) i r (from_shard (s.published i + 1) ws) g.valid
          (from_shard-KeysOnce (s.published i + 1) ws (g.once i))
          (λ key.
            published_key r key
              (subst (Freed (of_shard (s.published i) ws) s.registry) same freed)))

  pub ends-IsGood :
      s.published i ≡ 64
      → IsGood (moved s i (s.registry, record (s.txns i) { unique_key_write_states = [] }) 0)
  unfolding from_shard lookup get_state
  ends-IsGood all =
      let ws = (s.txns i).unique_key_write_states in
      let none_left : from_shard (s.published i) ws ≡ [] =
        ap (λ n. from_shard n ws) all ∙ from_shard_last ws in
      moved-IsGood s i (s.registry, record (s.txns i) { unique_key_write_states = [] }) 0 g tt
        (shrink-IsValid (view s) i s.registry [] g.valid tt
          (λ key. inl (refl, sym (ap (λ xs. lookup key xs) none_left))))
