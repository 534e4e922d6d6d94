-- ===== src/Txn/Unique/Views.antt =====
-- The calls of a statement on unique keys in transaction/transaction_manager.cpp, and what a restore
-- of the changes recorded so far would leave at a key.
use database.Prelude.{
  ℕ, ◌≡◌, refl, List, [], ◌∷◌, ◌++◌, Option, none, some, Bool, false, if◌then◌else◌, arith,
}
use database.Txn.Defs.{Rid, Result, done, throw}
use database.Txn.Unique.Keys.{UniqueKeyId, unique_key_eqb}
use database.Txn.Unique.{
  UniqueKeyEntry, TxnUniqueKeyWriteState, UniqueKeyChange, Registry, UniqueTxn, get_entry,
  get_state, holds_change,
}
use database.Txn.Unique.Reserve.{Both, reserve_unique_key, mark_unique_key_deleted}
use database.Txn.Unique.Finish.{undo}
use database.Txn.Unique.Entries.{get_entry-put_entry, get_state-put_state}

-- A call of a statement: a reservation of a key for a new tuple, with what was seen in the tree, or
-- a deletion of a key.
pub data Call : Type 0 where
  reserve : UniqueKeyId → Rid → Option Rid → ℕ → Call
  delete : UniqueKeyId → Rid → Call

abbrev pub after_reserve : Both → Result (Bool × Both) → Both
after_reserve both (done (granted, both')) = both'
after_reserve both (throw e) = both

abbrev pub after_delete : Both → Result Both → Both
after_delete both (done both') = both'
after_delete both (throw e) = both

-- The statement's changes and what the call leaves, also where it throws.
unfoldable pub call : List UniqueKeyChange × Both → Call → Option (List UniqueKeyChange) × Both
call (changes, (r, t)) (reserve key rid owner generation) =
    let out = reserve_unique_key r t key rid owner generation (some changes) in
    (out.0, after_reserve (r, t) out.1)
call (changes, (r, t)) (delete key rid) =
    let out = mark_unique_key_deleted r t key rid (some changes) in
    (out.0, after_delete (r, t) out.1)

abbrev pub changes_or : Option (List UniqueKeyChange) → List UniqueKeyChange
changes_or none = []
changes_or (some changes) = changes

-- The calls of a statement, in their order.
unfoldable pub statement : List UniqueKeyChange × Both → List Call → List UniqueKeyChange × Both
unfolding call
statement s [] = s
statement s (c ∷ cs) = let out = call s c in statement (changes_or out.0, out.1) cs

-- What a restore would leave at a key.
abbrev pub entry_view : UniqueKeyId → List UniqueKeyChange → Registry → Option UniqueKeyEntry
entry_view key [] r = get_entry r key
entry_view key (c ∷ cs) r = if unique_key_eqb c.key key then c.before_entry else entry_view key cs r

abbrev pub state_view :
    UniqueKeyId → List UniqueKeyChange → UniqueTxn → Option TxnUniqueKeyWriteState
state_view key [] t = get_state t key
state_view key (c ∷ cs) t =
    if unique_key_eqb c.key key then c.before_txn_state else state_view key cs t

pub get_entry-undo :
    (key : UniqueKeyId) (cs : List UniqueKeyChange) (both : Both)
    → get_entry (undo cs both).0 key ≡ entry_view key cs both.0
unfolding undo
get_entry-undo key [] both = refl
get_entry-undo key (c ∷ cs) both = ground (
  arith,
  get_entry-put_entry (undo cs both).0 c.key key c.before_entry,
  get_entry-undo key cs both,
)

pub get_state-undo :
    (key : UniqueKeyId) (cs : List UniqueKeyChange) (both : Both)
    → get_state (undo cs both).1 key ≡ state_view key cs both.1
unfolding undo
get_state-undo key [] both = refl
get_state-undo key (c ∷ cs) both = ground (
  arith,
  get_state-put_state (undo cs both).1 c.key key c.before_txn_state,
  get_state-undo key cs both,
)

pub entry_view-append :
    (key : UniqueKeyId) (cs : List UniqueKeyChange) (c : UniqueKeyChange) (r r' : Registry)
    → (holds_change key cs ≡ false
        → (if unique_key_eqb c.key key then c.before_entry else get_entry r' key) ≡ get_entry r key)
    → entry_view key (cs ++ c ∷ []) r' ≡ entry_view key cs r
entry_view-append key [] c r r' h = h refl
entry_view-append key (d ∷ cs) c r r' h = ground (arith, h, entry_view-append key cs c r r')

pub state_view-append :
    (key : UniqueKeyId) (cs : List UniqueKeyChange) (c : UniqueKeyChange) (t t' : UniqueTxn)
    → (holds_change key cs ≡ false
        → (if unique_key_eqb c.key key then c.before_txn_state else get_state t' key)
          ≡ get_state t key)
    → state_view key (cs ++ c ∷ []) t' ≡ state_view key cs t
state_view-append key [] c t t' h = h refl
state_view-append key (d ∷ cs) c t t' h = ground (arith, h, state_view-append key cs c t t')

pub entry_view-held :
    (key : UniqueKeyId) (cs : List UniqueKeyChange) (r r' : Registry)
    → (holds_change key cs ≡ false → get_entry r' key ≡ get_entry r key)
    → entry_view key cs r' ≡ entry_view key cs r
entry_view-held key [] r r' h = h refl
entry_view-held key (d ∷ cs) r r' h = ground (arith, h, entry_view-held key cs r r')

pub state_view-held :
    (key : UniqueKeyId) (cs : List UniqueKeyChange) (t t' : UniqueTxn)
    → (holds_change key cs ≡ false → get_state t' key ≡ get_state t key)
    → state_view key cs t' ≡ state_view key cs t
state_view-held key [] t t' h = h refl
state_view-held key (d ∷ cs) t t' h = ground (arith, h, state_view-held key cs t t')
