-- ===== src/Snode/State/Reads.antt =====
-- snode/state.go and registry.go: the reads over a table's partitions, the purge gate and
-- ForgetTable. A map is read in the order of its list; Go's order is random, and only the choice
-- between two refusals of one call depends on it.
use arbiter_core.Base.{
  Bool, true, false, ◌&&◌, ◌||◌, Option, none, some, List, [], ◌∷◌, ◌++◌, Bytes, ◌≟◌, list_eq,
  nat_eq, list_ord, nat_ord, ltb, if◌then◌else◌, Map, lookup, keys, sort, length, Result, ok, err,
  WriteOutcome, after_prefix, is_some, not,
}
use arbiter_core.Types.{CleanupAck}
use arbiter_core.Snode.LtHash.{LtHash, parse_accumulator_hex}
use arbiter_core.Snode.State.{
  LocalState, Store, Answer, StateError, bad_accumulator, persist_state, PromotionIntent,
}

-- The partition that a key of the table names, `none` for a key of another table.
unfoldable pub partition_in : Bytes → Bytes → Option Bytes
partition_in table ks = after_prefix (table ++ 0 ∷ []) ks

abbrev pub put_some {ℓ} : {A : Type ℓ} → Option A → List A → List A
put_some none xs = xs
put_some (some x) xs = x ∷ xs

-- The partitions of the table among a map's keys.
unfoldable pub partitions_in {ℓ} : {V : Type ℓ} → Bytes → Map Bytes V → List Bytes
partitions_in table [] = []
partitions_in table ((ks, v) ∷ m) = put_some (partition_in table ks) (partitions_in table m)

unfoldable pub names_in : Bytes → Map Bytes (List Bytes) → List Bytes
names_in table [] = []
names_in table ((ks, parts) ∷ m) =
    if is_some (partition_in table ks) then parts ++ names_in table m else names_in table m

-- PromotedUnsafeParts: the names, or the partitions whose promotion is unresolved.
unfoldable pub promoted_unsafe_parts : Bytes → LocalState → Result (List Bytes) (List Bytes)
promoted_unsafe_parts table m =
    let pending = partitions_in table m.promotion_intents in
    if ltb 0 (length pending)
    then err (sort pending)
    else ok (sort (names_in table m.promoted_unsafe_parts))

-- The owed acknowledgements in key order.
unfoldable pub in_key_order : List Bytes → Map Bytes CleanupAck → List CleanupAck
in_key_order [] m = []
in_key_order (k ∷ ks) m = put_some (lookup k m) (in_key_order ks m)

unfoldable pub owed_cleanup_acks : LocalState → List CleanupAck
owed_cleanup_acks m = in_key_order (sort (keys m.owed_cleanup_acks)) m.owed_cleanup_acks

unfoldable pub first_of_table : Bytes → List CleanupAck → Option CleanupAck
first_of_table table [] = none
first_of_table table (a ∷ as') = if a.table_id ≟ table then some a else first_of_table table as'

unfoldable pub owed_cleanup_ack_of : Bytes → LocalState → Option CleanupAck
owed_cleanup_ack_of table m = first_of_table table (owed_cleanup_acks m)

unfoldable pub parts_awaiting : Bytes → Map Bytes (List Bytes) → Bool
parts_awaiting table [] = false
parts_awaiting table ((ks, parts) ∷ m) =
    is_some (partition_in table ks) && ltb 0 (length parts) || parts_awaiting table m

-- The entries of other tables.
unfoldable pub of_other_tables {ℓ} : {V : Type ℓ} → Bytes → Map Bytes V → Map Bytes V
of_other_tables table [] = []
of_other_tables table ((ks, v) ∷ m) =
    let rest = of_other_tables table m in
    if is_some (partition_in table ks) then rest else (ks, v) ∷ rest

-- What still holds a table: the refusals of ForgetTable.
pub data Holder : Type 0 where
  intent_unresolved parts_await_cleanup rows_unpromoted ack_owed : Holder

module _ (l : LtHash) where
  open l use {Hash, new, bytes}

  -- Whether every sum of the table is zero; `none` when one does not parse.
  unfoldable pub sums_zero : Bytes → Map Bytes Bytes → Option Bool
  sums_zero table [] = some true
  sums_zero table ((ks, sum) ∷ m) =
      let rest = sums_zero table m in
      if is_some (partition_in table ks)
      then elim (parse_accumulator_hex l sum) [
        | none ↦ none
        | some acc ↦ if bytes acc ≟ bytes new then rest else some false
      ]
      else rest

  -- The first thing that holds the table, or that a sum does not parse.
  unfoldable pub held_by : Bytes → LocalState → Result StateError (Option Holder)
  held_by table m =
      if ltb 0 (length (partitions_in table m.promotion_intents))
      then ok (some intent_unresolved)
      else if parts_awaiting table m.promoted_unsafe_parts
      then ok (some parts_await_cleanup)
      else elim (sums_zero table m.unpromoted_sums) [
        | none ↦ err bad_accumulator
        | some false ↦ ok (some rows_unpromoted)
        | some true ↦ if is_some (owed_cleanup_ack_of table m) then ok (some ack_owed) else ok none
      ]

  -- The last test of the purge gate.
  unfoldable pub ack_quiet : Bytes → LocalState → Result StateError Bool
  ack_quiet table m = ok (not (is_some (owed_cleanup_ack_of table m)))

  -- The loop of the purge gate over the unpromoted sums, and what follows it.
  unfoldable pub sums_quiet :
      Bytes → Map Bytes Bytes → Result StateError Bool → Result StateError Bool
  sums_quiet table [] next = next
  sums_quiet table ((ks, sum) ∷ sums) next =
      let rest = sums_quiet table sums next in
      if not (is_some (partition_in table ks)) then rest else elim (parse_accumulator_hex l sum) [
        | none ↦ err bad_accumulator
        | some acc ↦ if not (bytes acc ≟ bytes new) then ok false else rest
      ]

  -- The loop over the promoted parts, and what follows it.
  unfoldable pub parts_quiet :
      Bytes → Map Bytes (List Bytes) → Result StateError Bool → Result StateError Bool
  parts_quiet table [] next = next
  parts_quiet table ((ks, parts) ∷ promoted) next =
      let rest = parts_quiet table promoted next in
      if is_some (partition_in table ks) && ltb 0 (length parts) then ok false else rest

  -- The loop over the intents, and what follows it.
  unfoldable pub intents_quiet :
      Bytes → Map Bytes PromotionIntent → Result StateError Bool → Result StateError Bool
  intents_quiet table [] next = next
  intents_quiet table ((ks, intent) ∷ intents) next =
      let rest = intents_quiet table intents next in
      if is_some (partition_in table ks) then ok false else rest

  -- The purge gate.
  unfoldable pub quiescent : Bytes → LocalState → Result StateError Bool
  quiescent table m = intents_quiet table m.promotion_intents (
      parts_quiet table m.promoted_unsafe_parts
        (sums_quiet table m.unpromoted_sums (ack_quiet table m)))

abbrev has_entries {ℓ} : {V : Type ℓ} → Bytes → Map Bytes V → Bool
has_entries table m = ltb 0 (length (partitions_in table m))

unfoldable pub forgotten : Bytes → LocalState → LocalState
forgotten table m = record m {
  base_roots = of_other_tables table m.base_roots;
  base_snapshot_ids = of_other_tables table m.base_snapshot_ids;
  unpromoted_sums = of_other_tables table m.unpromoted_sums;
  last_acks = of_other_tables table m.last_acks;
  intake_parts = of_other_tables table m.intake_parts;
  promoted_unsafe_parts = of_other_tables table m.promoted_unsafe_parts;
  acked_safe_inventories = of_other_tables table m.acked_safe_inventories;
}

unfoldable pub has_ledger : Bytes → LocalState → Bool
has_ledger table m =
    has_entries table m.base_roots
    || has_entries table m.base_snapshot_ids
    || has_entries table m.unpromoted_sums
    || has_entries table m.last_acks
    || has_entries table m.intake_parts
    || has_entries table m.promoted_unsafe_parts
    || has_entries table m.acked_safe_inventories

pub data ForgetError : Type 0 where
  held : Holder → ForgetError
  state_error : StateError → ForgetError

abbrev forget_answer : Answer → Store × Option ForgetError
forget_answer (s, none) = (s, none)
forget_answer (s, some e) = (s, some (state_error e))

unfoldable pub forget_table :
    (l : LtHash) → WriteOutcome → Bytes → Store → Store × Option ForgetError
forget_table l w table s = elim (held_by l table s.memory) [
  | err e ↦ (s, some (state_error e))
  | ok (some h) ↦ (s, some (held h))
  | ok none ↦
      if has_ledger table s.memory
      then forget_answer (persist_state w (forgotten table s.memory) s)
      else (s, none)
]
