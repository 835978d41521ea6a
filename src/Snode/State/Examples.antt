-- ===== src/Snode/State/Examples.antt =====
-- The theorems of the state at concrete stores.
use arbiter_core.Snode.State.Gate.{record_executed_cleanup-holds}
use arbiter_core.Snode.State.Durable.{
  IsDurable, copying-IsDurable, add_unpromoted_part-retry_not_durable,
}
use arbiter_core.Snode.State.Redelivery.{record_executed_cleanup-again}
use arbiter_core.Snode.State.FailClosed.{FailsClosed, begin_promotion-FailsClosed}
use arbiter_core.Snode.State.Registration.{
  Event, returned, next_registration_seq-Above, reserve, restart,
}
use arbiter_core.Snode.State.Reads.{quiescent, forget_table}
use arbiter_core.Snode.State.Cleanups.{
  record_executed_cleanup, cleaned, account_cleanup, check_rejected_parts, check_parts, check_part,
  recorded_differently, remove_rejected_parts, remove_rejected_part, forget_promoted_parts, owe,
  is_ack_of,
}
use arbiter_core.Snode.State.Intake.{
  add_unpromoted_part, added_sum, remove_unpromoted_part, persist_in_place, removed_sum,
}
use arbiter_core.Snode.State.Ops.{copying, begins}
use arbiter_core.Snode.State.Promotions.{
  begin_promotion, pending_promotion, record_applied_promotion, drained_sum, sub_all,
  record_refreshed_ack, refreshed, completes, same_ack, applied_state, acked, add_promoted,
  add_names, record_acked_safe_inventory,
}
use arbiter_core.Snode.State.{
  PartitionKey, PromotionIntent, Store, new_local_state, next_registration_seq, persist_state,
  reopen, write_failed, intake_part_key, key,
}
use arbiter_core.Snode.Parity.{parity}
use arbiter_core.Snode.LtHash.{parse_accumulator_hex, accumulator_hex}
use arbiter_core.Base.{
  ℕ, ◌≡◌, ◌≢◌, refl, Bool, true, none, some, List, [], ◌∷◌, Bytes, list_eq, nat_eq, list_ord,
  nat_ord, ok, arith, WriteOutcome, lookup, insert, get_or, Above, list_beq, decode_string,
  encode_to_string,
}
use arbiter_core.Types.{PromotionAck, CleanupAck, UnsafeCleanup, cleanup_ack_eq}

abbrev here : PartitionKey
here = record { table = b't' ∷ []; partition = b'p' ∷ [] }

abbrev odd_hash : Bytes
odd_hash = b'0' ∷ b'x' ∷ b'0' ∷ b'1' ∷ []

abbrev empty_store : Store
empty_store = record { memory = new_local_state; file = new_local_state }

abbrev intent : ℕ → PromotionIntent
intent n = record {
  promotion_seq = n;
  base_partition_root = [];
  post_partition_root = odd_hash;
  base_safe_snapshot_id = [];
  candidate_part_hashes = odd_hash ∷ [];
  unsafe_part_names = (b'a' ∷ []) ∷ [];
  safe_parts_before = [];
}

abbrev ack : ℕ → Bool → PromotionAck
ack n applied = record {
  node_id = b'n' ∷ [];
  promotion_seq = n;
  table_id = b't' ∷ [];
  partition_id = b'p' ∷ [];
  post_partition_commitment = odd_hash;
  parts = [];
  safe_partition_parts = [];
  applied = applied;
  detail = [];
}

abbrev begun : Store
begun = (begin_promotion WriteOutcome.written here (intent 4) empty_store).0

begun_lem : begin_promotion WriteOutcome.written here (intent 4) empty_store ≡ (begun, none)
unfolding begin_promotion persist_state new_local_state lookup
begun_lem = refl

begin_promotion-FailsClosed_example :
    (pending_promotion begun here ≡ some (intent 4)) × FailsClosed (b't' ∷ []) begun.memory
begin_promotion-FailsClosed_example =
    begin_promotion-FailsClosed WriteOutcome.written here (intent 4) empty_store begun begun_lem

copying-IsDurable_example :
    let r = copying parity WriteOutcome.unsynced (begins here (intent 4)) empty_store in
    IsDurable empty_store r.0 r.1
copying-IsDurable_example =
    copying-IsDurable WriteOutcome.unsynced parity (begins here (intent 4)) empty_store

abbrev applied : Store
applied =
    (record_applied_promotion parity WriteOutcome.written here 4 (ack 4 true) odd_hash []
      (odd_hash ∷ []) ((b'a' ∷ []) ∷ [] ∷ []) begun).0

abbrev added : Store
added = (add_unpromoted_part parity WriteOutcome.written here (b'a' ∷ []) odd_hash empty_store).0

abbrev removed : Store
removed = (remove_unpromoted_part parity WriteOutcome.written here (b'a' ∷ []) odd_hash added).0

add_unpromoted_part-retry_not_durable_example :
    let t =
      (add_unpromoted_part parity WriteOutcome.unwritten here (b'a' ∷ []) odd_hash empty_store).0 in
    ((add_unpromoted_part parity WriteOutcome.unwritten here (b'a' ∷ []) odd_hash empty_store).1
      ≡ some write_failed)
    × (add_unpromoted_part parity WriteOutcome.written here (b'a' ∷ []) odd_hash t ≡ (t, none))
    × (lookup (intake_part_key here (b'a' ∷ [])) (reopen t).memory.intake_parts ≡ none)
unfolding new_local_state added_sum parse_accumulator_hex decode_string lookup get_or
add_unpromoted_part-retry_not_durable_example =
    add_unpromoted_part-retry_not_durable WriteOutcome.written parity here (b'a' ∷ []) odd_hash
      (accumulator_hex parity true) empty_store refl refl refl

abbrev cleanup : UnsafeCleanup
cleanup = record {
  table_id = b't' ∷ [];
  partition_id = b'p' ∷ [];
  promotion_seq = 0;
  parts =
      record {
        table_id = b't' ∷ [];
        partition_id = b'p' ∷ [];
        part_row_lt_hash = odd_hash;
        part_name = b'a' ∷ [];
      }
      ∷ [];
  rejected_block_seq = 9;
}

abbrev cleanup_ack : CleanupAck
cleanup_ack = record {
  node_id = b'n' ∷ [];
  promotion_seq = 0;
  table_id = b't' ∷ [];
  partition_id = b'p' ∷ [];
  rejected_block_seq = 9;
}

abbrev executed : Store
executed = (record_executed_cleanup parity WriteOutcome.written cleanup cleanup_ack added).0

executed_lem :
    record_executed_cleanup parity WriteOutcome.written cleanup cleanup_ack added ≡ (executed, none)
unfolding record_executed_cleanup cleaned account_cleanup check_rejected_parts check_parts
    check_part recorded_differently remove_rejected_parts remove_rejected_part forget_promoted_parts
    owe is_ack_of add_unpromoted_part persist_in_place persist_state new_local_state added_sum
    removed_sum parse_accumulator_hex accumulator_hex decode_string encode_to_string lookup insert
    get_or list_beq intake_part_key key
executed_lem = refl

record_executed_cleanup-again_example :
    record_executed_cleanup parity WriteOutcome.unwritten cleanup cleanup_ack executed
    ≡ (executed, none)
record_executed_cleanup-again_example =
    record_executed_cleanup-again parity WriteOutcome.written WriteOutcome.unwritten cleanup
      cleanup_ack added executed executed_lem

record_executed_cleanup-holds_example :
    (quiescent parity (b't' ∷ []) executed.memory ≢ ok true)
    × ((forget_table parity WriteOutcome.written (b't' ∷ []) executed).0 ≡ executed)
    × ((forget_table parity WriteOutcome.written (b't' ∷ []) executed).1 ≢ none)
record_executed_cleanup-holds_example =
    record_executed_cleanup-holds parity WriteOutcome.written WriteOutcome.written cleanup
      cleanup_ack added executed executed_lem

abbrev history : List Event
history =
    reserve WriteOutcome.written 7
    ∷ reserve WriteOutcome.unsynced 8
    ∷ restart
    ∷ reserve WriteOutcome.written 5
    ∷ []

history_numbers : returned history empty_store ≡ 7 ∷ 9 ∷ []
unfolding returned next_registration_seq persist_state reopen new_local_state
history_numbers = refl

next_registration_seq-Above_example : Above 0 (returned history empty_store)
unfolding new_local_state
next_registration_seq-Above_example =
    next_registration_seq-Above history 8 empty_store refl (omega arith) (omega arith) (omega arith)

abbrev refreshed_store : Store
refreshed_store = (record_refreshed_ack WriteOutcome.written here (ack 4 true) applied).0

refreshed_lem :
    record_refreshed_ack WriteOutcome.written here (ack 4 true) applied ≡ (refreshed_store, none)
unfolding record_refreshed_ack refreshed completes same_ack record_applied_promotion applied_state
    acked add_promoted add_names record_acked_safe_inventory drained_sum begin_promotion
    persist_state new_local_state parse_accumulator_hex accumulator_hex sub_all decode_string get_or
    lookup insert list_beq key
refreshed_lem = refl
