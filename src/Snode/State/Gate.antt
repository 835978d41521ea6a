-- ===== src/Snode/State/Gate.antt =====
-- The purge gate of snode/registry.go and the acknowledgements that hold it.
use arbiter_core.Snode.State.FailClosed.{partition_in-key}
use arbiter_core.Snode.LtHash.{LtHash, parse_accumulator_hex}
use arbiter_core.Types.{CleanupAck, UnsafeCleanup, PartRef}
use arbiter_core.Snode.State.{
  persist_state, CleanupAck, LocalState, Store, PartitionKey, key, StateError, PromotionIntent,
  bad_accumulator,
}
use arbiter_core.Snode.State.Cleanups.{
  cleaned, record_executed_cleanup, owe, is_ack_of, cleanup_ack_key, account_cleanup,
  forget_promoted_parts, partition_of, names_of, remove_rejected_part, remove_rejected_parts,
}
use arbiter_core.Snode.State.Reads.{
  first_of_table, owed_cleanup_ack_of, in_key_order, owed_cleanup_acks, quiescent, forget_table,
  held_by, of_other_tables, partition_in, ack_quiet, intents_quiet, parts_quiet, sums_quiet,
  ForgetError, partitions_in, parts_awaiting, sums_zero, Holder, held, state_error,
}
use arbiter_core.Types.{cleanup_ack_eq}
use arbiter_core.Base.{
  ◌≡◌, ◌≢◌, refl, Bool, true, false, none, some, List, [], ◌∷◌, Bytes, ◌≟◌, ≟_iff, list_eq, nat_eq,
  list_ord, nat_ord, arith, Map, lookup, contains, keys, Bool-cases, WriteOutcome, inl, is_some, ap,
  inr, ok, sort, contains-sort, ◌∙◌, Option-cases, Result-cases, lookup-insert_self, Option, Result,
  err, if◌then◌else◌, ◌⊎◌, ltb, length,
}

contains-keys {ℓ} :
    {V : Type ℓ} (k : Bytes) (v : V) (m : Map Bytes V)
    → lookup k m ≡ some v
    → contains k (keys m) ≡ true
unfolding lookup contains
contains-keys k v [] h = cc
contains-keys k v ((j, w) ∷ m) h = elim (Bool-cases (j ≟ k)) [
  | inl e ↦ ground (arith, e)
  | inr e ↦ let rest = contains-keys k v m (ground arith) in ground (arith, rest)
]

first_of_table-some :
    (table k : Bytes) (a : CleanupAck) (ks : List Bytes) (m : Map Bytes CleanupAck)
    → lookup k m ≡ some a
    → a.table_id ≡ table
    → contains k ks ≡ true
    → is_some (first_of_table table (in_key_order ks m)) ≡ true
unfolding first_of_table in_key_order contains
first_of_table-some table k a [] m h t c = cc
first_of_table-some table k a (j ∷ ks) m h t c = elim (Bool-cases (j ≟ k)) [
  | inl e ↦
      let p : lookup j m ≡ some a = ap (λ x. lookup x m) ((≟_iff j k).0 e) ∙ h in
      ground (arith, p, ≟_iff a.table_id table)
  | inr e ↦
      let rest = first_of_table-some table k a ks m h t (ground arith) in
      elim (Option-cases (lookup j m)) [
        | inl f ↦ ground (arith, rest, f)
        | inr (x, f) ↦ ground (arith, rest, f)
      ]
]

-- An owed acknowledgement of the table is found.
pub owed_cleanup_ack_of-owed :
    (table : Bytes) (k : Bytes) (a : CleanupAck) (m : LocalState)
    → lookup k m.owed_cleanup_acks ≡ some a
    → a.table_id ≡ table
    → is_some (owed_cleanup_ack_of table m) ≡ true
unfolding owed_cleanup_ack_of owed_cleanup_acks
owed_cleanup_ack_of-owed table k a m h t =
    first_of_table-some table k a (sort (keys m.owed_cleanup_acks)) m.owed_cleanup_acks h t
      (contains-sort k (keys m.owed_cleanup_acks) ∙ contains-keys k a m.owed_cleanup_acks h)

cleaned-owed :
    (l : LtHash) (cmd : UnsafeCleanup) (a : CleanupAck) (m next : LocalState) (changed : Bool)
    → cleaned l cmd a m ≡ ok (next, changed)
    → lookup (cleanup_ack_key a) next.owed_cleanup_acks ≡ some a
unfolding cleaned owe
cleaned-owed l cmd a m next changed h = elim (Result-cases (account_cleanup l cmd m)) [
  | inr (x, e) ↦ absurd (ground (arith, e))
  | inl (accounted, e) ↦
      let n = (forget_promoted_parts (partition_of cmd) (names_of cmd.parts) accounted.0).0 in
      elim (Option-cases (lookup (cleanup_ack_key a) n.owed_cleanup_acks)) [
        | inl f ↦ ground (arith, e, f, lookup-insert_self (cleanup_ack_key a) a n.owed_cleanup_acks)
        | inr (x, f) ↦
            ground
              (arith, e, f, ≟_iff x a, lookup-insert_self (cleanup_ack_key a) a n.owed_cleanup_acks)
      ]
]

remove_rejected_parts-sticky :
    (l : LtHash) (k : PartitionKey) (ps : List PartRef) (m next : LocalState) (changed : Bool)
    → remove_rejected_parts l k ps m true ≡ ok (next, changed)
    → changed ≡ true
unfolding remove_rejected_parts
remove_rejected_parts-sticky l k [] m next changed h = ground arith
remove_rejected_parts-sticky l k (p ∷ ps) m next changed h =
    elim (Result-cases (remove_rejected_part l k p m)) [
      | inl ((n, c), e) ↦ remove_rejected_parts-sticky l k ps n next changed (ground (arith, e))
      | inr (x, e) ↦ absurd (ground (arith, e))
    ]

remove_rejected_part-unchanged :
    (l : LtHash) (k : PartitionKey) (p : PartRef) (m next : LocalState)
    → remove_rejected_part l k p m ≡ ok (next, false)
    → next ≡ m
unfolding remove_rejected_part
remove_rejected_part-unchanged l k p m next h = ground arith

remove_rejected_parts-unchanged :
    (l : LtHash) (k : PartitionKey) (ps : List PartRef) (m next : LocalState)
    → remove_rejected_parts l k ps m false ≡ ok (next, false)
    → next ≡ m
unfolding remove_rejected_parts
remove_rejected_parts-unchanged l k [] m next h = ground arith
remove_rejected_parts-unchanged l k (p ∷ ps) m next h =
    elim (Result-cases (remove_rejected_part l k p m)) [
      | inl ((n, true), e) ↦
          absurd
            (ground (arith, remove_rejected_parts-sticky l k ps n next false (ground (arith, e))))
      | inl ((n, false), e) ↦
          remove_rejected_parts-unchanged l k ps n next (ground (arith, e))
          ∙ remove_rejected_part-unchanged l k p m n e
      | inr (x, e) ↦ absurd (ground (arith, e))
    ]

account_cleanup-unchanged :
    (l : LtHash) (cmd : UnsafeCleanup) (m next : LocalState)
    → account_cleanup l cmd m ≡ ok (next, false)
    → next ≡ m
unfolding account_cleanup
account_cleanup-unchanged l cmd m next h =
    ground (arith, remove_rejected_parts-unchanged l (partition_of cmd) cmd.parts m next)

-- A cleanup that reports no change leaves the state as it was.
pub cleaned-unchanged :
    (l : LtHash) (cmd : UnsafeCleanup) (a : CleanupAck) (m next : LocalState) (changed : Bool)
    → cleaned l cmd a m ≡ ok (next, changed)
    → changed ≡ false
    → next ≡ m
unfolding cleaned owe forget_promoted_parts
cleaned-unchanged l cmd a m next changed h no_change =
    elim (Result-cases (account_cleanup l cmd m)) [
      | inr (x, e) ↦ absurd (ground (arith, e))
      | inl ((accounted, c), e) ↦ ground (arith, e, account_cleanup-unchanged l cmd m accounted)
    ]

executed-owed :
    (l : LtHash) (w : WriteOutcome) (cmd : UnsafeCleanup) (a : CleanupAck) (s t : Store)
    → record_executed_cleanup l w cmd a s ≡ (t, none)
    → (lookup (cleanup_ack_key a) t.memory.owed_cleanup_acks ≡ some a) × (a.table_id ≡ cmd.table_id)
unfolding record_executed_cleanup persist_state is_ack_of
executed-owed l w cmd a s t h = elim (Result-cases (cleaned l cmd a s.memory)) [
  | inl ((next, changed), e) ↦
      let owed = cleaned-owed l cmd a s.memory next changed e in
      let same = cleaned-unchanged l cmd a s.memory next changed e in
      ground (arith, e, owed, same, ≟_iff a.table_id cmd.table_id)
  | inr (x, e) ↦ absurd (ground (arith, e))
]

-- A loop of the purge gate goes through to what follows it, or answers for an entry of the table.
intents_quiet-cases :
    (l : LtHash) (table : Bytes) (m : Map Bytes PromotionIntent) (next : Result StateError Bool)
    → ((partitions_in table m ≡ []) × (intents_quiet l table m next ≡ next))
      ⊎ ((ltb 0 (length (partitions_in table m)) ≡ true)
          × (intents_quiet l table m next ≡ ok false))
unfolding intents_quiet partitions_in
intents_quiet-cases l table [] next = inl (refl, refl)
intents_quiet-cases l table ((ks, i) ∷ m) next = elim (Option-cases (partition_in table ks)) [
  | inr (x, e) ↦ inr (ground (arith, e), ground (arith, e))
  | inl e ↦ elim (intents_quiet-cases l table m next) [
    | inl (a, b) ↦ inl (ground (arith, e, a), ground (arith, e, b))
    | inr (a, b) ↦ inr (ground (arith, e, a), ground (arith, e, b))
  ]
]

parts_quiet-cases :
    (l : LtHash) (table : Bytes) (m : Map Bytes (List Bytes)) (next : Result StateError Bool)
    → parts_quiet l table m next ≡ (if parts_awaiting table m then ok false else next)
unfolding parts_quiet parts_awaiting
parts_quiet-cases l table [] next = refl
parts_quiet-cases l table ((ks, parts) ∷ m) next = ground (arith, parts_quiet-cases l table m next)

-- What the loop of ForgetTable over the sums found, as the purge gate answers it.
unfoldable answer_of : Option Bool → Result StateError Bool → Result StateError Bool
answer_of none next = err bad_accumulator
answer_of (some false) next = ok false
answer_of (some true) next = next

sums_quiet-cases :
    (l : LtHash) (table : Bytes) (m : Map Bytes Bytes) (next : Result StateError Bool)
    → sums_quiet l table m next ≡ answer_of (sums_zero l table m) next
unfolding sums_quiet sums_zero answer_of
sums_quiet-cases l table [] next = refl
sums_quiet-cases l table ((ks, sum) ∷ m) next =
    let rest = sums_quiet-cases l table m next in
    elim (Option-cases (partition_in table ks)) [
      | inl e ↦ ground (arith, e, rest)
      | inr (x, e) ↦ elim (Option-cases (parse_accumulator_hex l sum)) [
        | inl f ↦ ground (arith, e, f)
        | inr (acc, f) ↦ ground (arith, e, f, rest)
      ]
    ]

-- The purge gate's answer, of what ForgetTable finds.
unfoldable gate_of : Result StateError (Option Holder) → Result StateError Bool
gate_of (err e) = err e
gate_of (ok none) = ok true
gate_of (ok (some h)) = ok false

quiescent-held_by :
    (l : LtHash) (table : Bytes) (m : LocalState)
    → quiescent l table m ≡ gate_of (held_by l table m)
unfolding quiescent held_by gate_of answer_of ack_quiet
quiescent-held_by l table m =
    let ack = ack_quiet l table m in
    let sums = sums_quiet l table m.unpromoted_sums ack in
    let parts = parts_quiet l table m.promoted_unsafe_parts sums in
    let p = parts_quiet-cases l table m.promoted_unsafe_parts sums in
    let q = sums_quiet-cases l table m.unpromoted_sums ack in
    elim (intents_quiet-cases l table m.promotion_intents parts) [
      | inr (a, b) ↦ ground (arith, a, b)
      | inl (a, b) ↦ ground (arith, a, b, p, q)
    ]

-- An owed acknowledgement of a table's cleanup holds the purge gate and ForgetTable: after
-- RecordExecutedCleanup returned nil the gate does not answer true for the cleanup's table, and
-- ForgetTable refuses with the store as it is, whatever the file system would answer.
pub record_executed_cleanup-holds :
    (l : LtHash) (w v : WriteOutcome) (cmd : UnsafeCleanup) (a : CleanupAck) (s t : Store)
    → record_executed_cleanup l w cmd a s ≡ (t, none)
    → (quiescent l cmd.table_id t.memory ≢ ok true)
      × ((forget_table l v cmd.table_id t).0 ≡ t)
      × ((forget_table l v cmd.table_id t).1 ≢ none)
unfolding held_by forget_table gate_of
record_executed_cleanup-holds l w v cmd a s t h =
    let (owed, table) = executed-owed l w cmd a s t h in
    let found = owed_cleanup_ack_of-owed cmd.table_id (cleanup_ack_key a) a t.memory owed table in
    let gate = quiescent-held_by l cmd.table_id t.memory in
    (ground (arith, found, gate), ground (arith, found), ground (arith, found))

-- ForgetTable refused a table for what still holds it.
pub data IsHeld : Option ForgetError → Type 0 where
  refused : (h : Holder) → IsHeld (some (held h))

-- What ForgetTable answers of a store where the purge gate gave an answer: on a written file
-- (`done`), and on any.
abbrev pub IsGated :
    Store
    → Result StateError Bool
    → Store × Option ForgetError
    → Store × Option ForgetError
    → Type 0
IsGated s (ok true) done any = done.1 ≡ none
IsGated s (ok false) done any = IsHeld (any.1) × (any.0 ≡ s)
IsGated s (err e) done any = any ≡ (s, some (state_error e))

other_key : (k : PartitionKey) (j : Bytes) → partition_in k.table j ≡ none → (j ≟ key k) ≡ false
other_key k j f = elim (Bool-cases (j ≟ key k)) [
  | inr e ↦ e
  | inl e ↦
      let named = ap (partition_in k.table) ((≟_iff j (key k)).0 e) ∙ partition_in-key k in
      absurd (ground (arith, named, f))
]

lookup-of_other_tables {ℓ} :
    {V : Type ℓ} (k : PartitionKey) (m : Map Bytes V)
    → lookup (key k) (of_other_tables k.table m) ≡ none
unfolding lookup of_other_tables
lookup-of_other_tables k [] = refl
lookup-of_other_tables k ((j, w) ∷ m) =
    let rest = lookup-of_other_tables k m in
    elim (Option-cases (partition_in k.table j)) [
      | inr (x, f) ↦ ground (arith, rest, f)
      | inl f ↦ let other : (j ≟ key k) ≡ false = other_key k j f in ground (arith, rest, f, other)
    ]
