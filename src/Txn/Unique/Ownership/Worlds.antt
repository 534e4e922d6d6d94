-- ===== src/Txn/Unique/Ownership/Worlds.antt =====
-- The registry of transaction/transaction_manager.cpp beside the write states of all transactions:
-- a write by a key's owner, and the end of an aborted transaction, keep every key with one owner.
use database.Prelude.{
  ℕ, ◌≡◌, ◌≢◌, ap, refl, sym, subst, ◌∙◌, inl, inr, List, [], ◌∷◌, Option, none, some, false,
  if◌then◌else◌, arith, has_value, nat_eqb, nat_eqb_iff, Bool-cases, Option-cases, lookup, insert,
  All, lookup-insert,
}
use database.Txn.Unique.Keys.{UniqueKeyId, unique_key_eq, unique_key_eqb, unique_key_eqb_iff}
use database.Txn.Unique.{
  UniqueKeyEntry, TxnUniqueKeyWriteState, Registry, UniqueTxn, get_entry, get_state, store_entry,
  set_state,
}
use database.Txn.Unique.Finish.{
  Write, put_back, put_entry, bump, needed, before, cleanup_unique_key_abort,
}
use database.Txn.Unique.Entries.{
  get_entry-store_entry, get_entry-put_entry, get_entry-bump, get_state-set_state,
}
use database.Txn.Unique.Ownership.{Owns, IsValidKey}

-- A map in which no key stands twice.
abbrev pub KeysOnce : List Write → Type 0
KeysOnce [] = Unit
KeysOnce ((k, s) ∷ ws) = (lookup k ws ≡ none) × KeysOnce ws

insert-KeysOnce :
    (k : UniqueKeyId) (s : TxnUniqueKeyWriteState) (ws : List Write)
    → KeysOnce ws
    → KeysOnce (insert k s ws)
unfolding insert lookup
insert-KeysOnce k s [] h = (refl, tt)
insert-KeysOnce k s ((j, w) ∷ ws) h = ground (
  arith,
  h,
  unique_key_eqb_iff j k,
  lookup-insert k j s ws,
  insert-KeysOnce k s ws,
  unique_key_eqb_iff k j,
)

pub lookup-All :
    (ws : List Write) (P : Write → Type 0)
    → KeysOnce ws
    → ((w : Write) → lookup w.0 ws ≡ some w.1 → P w)
    → All P ws
unfolding lookup
lookup-All [] P once h = tt
lookup-All ((k, s) ∷ ws) P once h = (
  h (k, s) (ground (arith, unique_key_eqb_iff k k)),
  lookup-All ws P once.1 (λ w e.
      h w (
        ground
          (arith, e, once, unique_key_eqb_iff k w.0, ap (λ x. lookup x ws) {x = k} {y = w.0}))),
)

-- The registry and all transactions, under their ids.
pub record World : Type 0 where
  pub registry : Registry
  pub txns : ℕ → UniqueTxn

abbrev pub update : World → ℕ → Registry × UniqueTxn → World
update w i both = record { registry = both.0; txns = λ j. if nat_eqb i j then both.1 else w.txns j }

pub record IsValid (w : World) : Type 0 where
  pub ids : (i : ℕ) → (w.txns i).txn_id ≡ i
  pub keys :
      (key : UniqueKeyId) → IsValidKey (get_entry w.registry key) (λ i. get_state (w.txns i) key)
  pub once : (i : ℕ) → KeysOnce (w.txns i).unique_key_write_states

pub IsValidKey-cong :
    (o o' : Option UniqueKeyEntry) (st st' : ℕ → Option TxnUniqueKeyWriteState)
    → o ≡ o'
    → ((j : ℕ) → st j ≡ st' j)
    → IsValidKey o st
    → IsValidKey o' st'
IsValidKey-cong o o' st st' e h (inl free) =
    inl (record { entry_eq = sym e ∙ free.entry_eq; state_eq = λ j. sym (h j) ∙ free.state_eq j })
IsValidKey-cong o o' st st' e h (inr held) = inr (record {
  id = held.id;
  entry = held.entry;
  state = held.state;
  entry_eq = sym e ∙ held.entry_eq;
  state_eq = sym (h held.id) ∙ held.state_eq;
  owns = held.owns;
  alone = λ j ne. sym (h j) ∙ held.alone j ne;
})

-- A write of an entry and a state that belong to one transaction, at a key of no other.
pub write-IsValid :
    (w : World) (i : ℕ) (k : UniqueKeyId) (e : UniqueKeyEntry) (s : TxnUniqueKeyWriteState)
    → IsValid w
    → Owns i e s
    → ((j : ℕ) → j ≢ i → get_state (w.txns j) k ≡ none)
    → IsValid (update w i (store_entry w.registry k e, set_state (w.txns i) k s))
unfolding set_state
write-IsValid w i k e s v owns alone = record {
  ids = λ j. ground (arith, v.ids i, v.ids j);
  keys = λ key. elim (Bool-cases (unique_key_eqb k key)) [
    | inl same ↦ inr (record {
      id = i;
      entry = e;
      state = s;
      entry_eq = ground (arith, get_entry-store_entry w.registry k key e);
      state_eq = ground (arith, get_state-set_state (w.txns i) k key s);
      owns = owns;
      alone = λ j ne. ground (
        arith,
        alone j ne,
        unique_key_eqb_iff k key,
        ap (get_state (w.txns j)) {x = k} {y = key},
      );
    })
    | inr other ↦
        IsValidKey-cong _ _ _ _ (ground (arith, get_entry-store_entry w.registry k key e))
          (λ j. ground (
            arith,
            get_state-set_state (w.txns i) k key s,
            nat_eqb_iff i j,
            ap (λ x. get_state (w.txns x) key) {x = i} {y = j},
          ))
          (v.keys key)
  ];
  once = λ j.
      ground (arith, insert-KeysOnce k s (w.txns i).unique_key_write_states (v.once i), v.once j);
}

get_entry-put_back :
    (r : Registry) (ws : List Write) (k : UniqueKeyId)
    → All (λ w. w.1.had_before_entry ≡ false) ws
    → get_entry (put_back r ws) k ≡ (if has_value (lookup k ws) then none else get_entry r k)
unfolding put_back lookup
get_entry-put_back r [] k h = refl
get_entry-put_back r ((j, s) ∷ ws) k h = ground (
  arith,
  h,
  get_entry-put_back (put_entry r j (before s)) ws k h.1,
  get_entry-put_entry r j k (before s),
)

some-injective : {A : Type 0} (a b : A) → some a ≡ some b → a ≡ b
some-injective a b h = ground arith

none≢some : {A : Type 0} (a : A) → none ≢ some a
none≢some a h = ground arith

-- The write state that a transaction has for a key is the state of the key's owner.
pub valid-Owns :
    (w : World) (i : ℕ) (k : UniqueKeyId) (s : TxnUniqueKeyWriteState)
    → IsValid w
    → get_state (w.txns i) k ≡ some s
    → (e : UniqueKeyEntry) × (get_entry w.registry k ≡ some e)
      × Owns i e s
      × ((j : ℕ) → j ≢ i → get_state (w.txns j) k ≡ none)
valid-Owns w i k s v h = elim (v.keys k) [
  | inl free ↦ absurd (none≢some s (sym (free.state_eq i) ∙ h))
  | inr held ↦ elim (Bool-cases (nat_eqb i held.id)) [
    | inl same ↦
        let mine : i ≡ held.id = ground (arith, nat_eqb_iff i held.id) in
        let state : held.state ≡ s =
          some-injective held.state s
            (sym held.state_eq ∙ ap (λ x. get_state (w.txns x) k) (sym mine) ∙ h) in
        (
          held.entry,
          held.entry_eq,
          subst (λ x. Owns x held.entry s) (sym mine)
              (subst (λ x. Owns held.id held.entry x) state held.owns),
          λ j ne. held.alone j (λ e. ne (e ∙ sym mine)),
        )
    | inr other ↦
        absurd (none≢some s (sym (held.alone i (ground (arith, nat_eqb_iff i held.id))) ∙ h))
  ]
]

-- A transaction that ends and takes exactly its keys out of the registry leaves them free.
pub ended-IsValid :
    (w : World) (i : ℕ) (r : Registry)
    → IsValid w
    → ((key : UniqueKeyId)
        → get_entry r key
          ≡ (if has_value (get_state (w.txns i) key) then none else get_entry w.registry key))
    → IsValid (update w i (r, record (w.txns i) { unique_key_write_states = [] }))
unfolding get_state lookup
ended-IsValid w i r v freed = record {
  ids = λ j. ground (arith, v.ids i, v.ids j);
  keys = λ key. elim (Option-cases (get_state (w.txns i) key)) [
    | inl absent ↦
        IsValidKey-cong _ _ _ _ (ground (arith, freed key))
          (λ j. ground (arith, nat_eqb_iff i j, ap (λ x. get_state (w.txns x) key) {x = i} {y = j}))
          (v.keys key)
    | inr (s, mine) ↦ inl (record {
      entry_eq = ground (arith, freed key);
      state_eq = λ j. ground (arith, nat_eqb_iff i j, (valid-Owns w i key s v mine).3 j);
    })
  ];
  once = λ j. ground (arith, v.once j);
}

pub cleanup-IsValid :
    (w : World) (i : ℕ)
    → IsValid w
    → IsValid (update w i (cleanup_unique_key_abort w.registry (w.txns i)))
unfolding cleanup_unique_key_abort get_state
cleanup-IsValid w i v =
    let ws = (w.txns i).unique_key_write_states in
    let new =
      lookup-All ws (λ x. x.1.had_before_entry ≡ false) (v.once i)
        (λ x e. (valid-Owns w i x.0 x.1 v e).2.new_key) in
    let bumped = bump (needed (λ x. x.0) ws) w.registry in
    ended-IsValid w i _ v (λ key.
      get_entry-put_back bumped ws key new
      ∙ ap (λ o. if has_value (lookup key ws) then none else o)
          (get_entry-bump (needed (λ x. x.0) ws) w.registry key))
