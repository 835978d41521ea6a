-- ===== src/Snode/State/Cleanups.antt =====
-- snode/state.go: rejected-part cleanups, the parts a cleanup forgets, and the acknowledgements
-- that are owed.
use arbiter_core.Base.{
  ℕ, Bool, true, false, ◌&&◌, ◌||◌, not, Option, none, some, List, [], ◌∷◌, ◌++◌, Bytes, ◌≟◌,
  list_eq, nat_eq, list_ord, nat_ord, ◌==◌, if◌then◌else◌, lookup, insert, delete, get_or, contains,
  length, keep_if, WriteOutcome, Result, ok, err, ◌>>=◌, decimal,
}
use arbiter_core.Types.{PartRef, UnsafeCleanup, CleanupAck, cleanup_ack_eq}
use arbiter_core.Snode.LtHash.{LtHash}
use arbiter_core.Snode.State.{
  PartitionKey, LocalState, Store, Answer, StateError, bad_accumulator, cleanup_has_promotion,
  part_of_other_table, part_without_name, part_hash_differs, ack_of_other_cleanup, key,
  intake_part_key, persist_state,
}
use arbiter_core.Snode.State.Intake.{removed_sum}

-- Whether intake recorded the part with a hash other than the one the cleanup names.
unfoldable pub recorded_differently : Option Bytes → Bytes → Bool
recorded_differently none hash = false
recorded_differently (some recorded) hash = not (recorded ≟ []) && not (recorded ≟ hash)

unfoldable pub check_part : PartitionKey → LocalState → PartRef → Option StateError
check_part k m p =
    if not (p.table_id ≟ k.table) || not (p.partition_id ≟ k.partition)
    then some part_of_other_table
    else if p.part_name ≟ []
    then some part_without_name
    else if recorded_differently (lookup (intake_part_key k p.part_name) m.intake_parts)
        p.part_row_lt_hash
    then some part_hash_differs
    else none

unfoldable pub check_parts : PartitionKey → LocalState → List PartRef → Option StateError
check_parts k m [] = none
check_parts k m (p ∷ ps) =
    let rest = check_parts k m ps in elim (check_part k m p) [ none ↦ rest | some e ↦ some e ]

unfoldable pub check_rejected_parts :
    PartitionKey → ℕ → List PartRef → LocalState → Option StateError
check_rejected_parts k promotion_seq parts m =
    if promotion_seq == 0 then check_parts k m parts else some cleanup_has_promotion

-- forgetPromotedParts: the state and whether any name was there.
unfoldable pub forget_promoted_parts : PartitionKey → List Bytes → LocalState → LocalState × Bool
forget_promoted_parts k part_names m =
    let existing = get_or [] (key k) m.promoted_unsafe_parts in
    let kept_names = keep_if (λ p. not (contains p part_names)) existing in
    if length kept_names == length existing
    then (m, false)
    else if length kept_names == 0
    then (record m { promoted_unsafe_parts = delete (key k) m.promoted_unsafe_parts }, true)
    else (
      record m { promoted_unsafe_parts = insert (key k) kept_names m.promoted_unsafe_parts },
      true,
    )

-- cleanupAckKey, "%s\x00%d\x00%d".
unfoldable pub cleanup_ack_key : CleanupAck → Bytes
cleanup_ack_key a =
    key (record { table = a.table_id; partition = a.partition_id })
    ++ 0 ∷ decimal a.promotion_seq
    ++ 0 ∷ decimal a.rejected_block_seq

abbrev is_owed : Option CleanupAck → CleanupAck → Bool
is_owed none ack = false
is_owed (some owed) ack = owed ≟ ack

-- The owed entry of an acknowledgement, and whether it was missing.
unfoldable pub owe : CleanupAck → LocalState → LocalState × Bool
owe ack m = if is_owed (lookup (cleanup_ack_key ack) m.owed_cleanup_acks) ack then (m, false) else (
  record m { owed_cleanup_acks = insert (cleanup_ack_key ack) ack m.owed_cleanup_acks },
  true,
)

abbrev pub names_of : List PartRef → List Bytes
names_of [] = []
names_of (p ∷ ps) = p.part_name ∷ names_of ps

unfoldable pub is_ack_of : CleanupAck → UnsafeCleanup → Bool
is_ack_of ack cmd =
    (ack.table_id ≟ cmd.table_id)
    && (ack.partition_id ≟ cmd.partition_id)
    && ack.promotion_seq == cmd.promotion_seq
    && ack.rejected_block_seq == cmd.rejected_block_seq

abbrev pub partition_of : UnsafeCleanup → PartitionKey
partition_of cmd = record { table = cmd.table_id; partition = cmd.partition_id }

unfoldable pub clear_owed_cleanup_ack : WriteOutcome → CleanupAck → Store → Answer
clear_owed_cleanup_ack w ack s =
    if is_owed (lookup (cleanup_ack_key ack) s.memory.owed_cleanup_acks) ack
    then persist_state w
        (record (s.memory) {
          owed_cleanup_acks = delete (cleanup_ack_key ack) s.memory.owed_cleanup_acks;
        })
        s
    else (s, none)

module _ (l : LtHash) where
  -- One rejected part: the state, and whether it changed; an unrecorded or removed part is skipped.
  unfoldable pub remove_rejected_part :
      PartitionKey → PartRef → LocalState → Result StateError (LocalState × Bool)
  remove_rejected_part k p m = elim (lookup (intake_part_key k p.part_name) m.intake_parts) [
    | none ↦ ok (m, false)
    | some recorded ↦
        if recorded ≟ []
        then ok (m, false)
        else elim (removed_sum l (get_or [] (key k) m.unpromoted_sums) p.part_row_lt_hash) [
          | none ↦ err bad_accumulator
          | some sum ↦ ok (
            record m {
              unpromoted_sums = insert (key k) sum m.unpromoted_sums;
              intake_parts = insert (intake_part_key k p.part_name) [] m.intake_parts;
            },
            true,
          )
        ]
  ]

  unfoldable pub remove_rejected_parts :
      PartitionKey → List PartRef → LocalState → Bool → Result StateError (LocalState × Bool)
  remove_rejected_parts k [] m changed = ok (m, changed)
  remove_rejected_parts k (p ∷ ps) m changed =
      remove_rejected_part k p m >>= λ r. remove_rejected_parts k ps r.0 (r.1 || changed)

  -- The accounting of a rejected-part cleanup; a promotion cleanup has none.
  unfoldable pub account_cleanup :
      UnsafeCleanup → LocalState → Result StateError (LocalState × Bool)
  account_cleanup cmd m =
      if cmd.rejected_block_seq == 0
      then ok (m, false)
      else elim (check_rejected_parts (partition_of cmd) cmd.promotion_seq cmd.parts m) [
        | some e ↦ err e
        | none ↦ remove_rejected_parts (partition_of cmd) cmd.parts m false
      ]

  -- The state after an executed cleanup, and whether it differs from the one before.
  unfoldable pub cleaned :
      UnsafeCleanup → CleanupAck → LocalState → Result StateError (LocalState × Bool)
  cleaned cmd ack m = account_cleanup cmd m >>= λ accounted.
      let forgotten = forget_promoted_parts (partition_of cmd) (names_of cmd.parts) accounted.0 in
      let owing = owe ack forgotten.0 in ok (owing.0, accounted.1 || forgotten.1 || owing.1)

  unfoldable pub record_executed_cleanup :
      WriteOutcome → UnsafeCleanup → CleanupAck → Store → Answer
  record_executed_cleanup w cmd ack s =
      if is_ack_of ack cmd
      then elim (cleaned cmd ack s.memory) [
        | err e ↦ (s, some e)
        | ok (next, changed) ↦ if changed then persist_state w next s else (s, none)
      ]
      else (s, some ack_of_other_cleanup)
