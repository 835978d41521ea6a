-- ===== src/Snode/State.antt =====
-- snode/state.go: the durable state of a storage node, its keys, its copies and its persistence.
-- The memory and state.json are two values of one record; the operations are in the children. A
-- JSON document that was written reads back as the value that was marshalled.
pub mod Promotions
pub mod Intake
pub mod Cleanups
pub mod Reads
pub mod Ops
pub mod Durable
pub mod FailClosed
pub mod Applied
pub mod Inventories
pub mod Accounting
pub mod Gate
pub mod Redelivery
pub mod Registration
mod Examples
use arbiter_core.Base.{
  ℕ, suc, ◌+◌, ◌%◌, max, ◌≡◌, ◌↔◌, Bool, true, false, ◌&&◌, Option, none, some, List, [], ◌∷◌, ◌++◌,
  Bytes, Eq, ◌≟◌, ≟_iff, list_eq, nat_eq, ◌==◌, Map, WriteOutcome, Result, ok, err, arith,
}
use arbiter_core.Types.{SafePartMapping, PromotionAck, CleanupAck}

pub record PartitionKey : Type 0 where
  pub table : Bytes
  pub partition : Bytes

pub record PromotionSafePart : Type 0 where
  pub name : Bytes
  pub partition_id : Bytes
  pub partition_value : Bytes
  pub phys_hash : Bytes

pub record PromotionIntent : Type 0 where
  pub promotion_seq : ℕ  -- uint64
  pub base_partition_root : Bytes
  pub post_partition_root : Bytes
  pub base_safe_snapshot_id : Bytes
  pub candidate_part_hashes : List Bytes
  pub unsafe_part_names : List Bytes
  pub safe_parts_before : List PromotionSafePart

pub record AckedSafeInventory : Type 0 where
  pub promotion_seq : ℕ  -- uint64
  pub parts : List SafePartMapping
  pub rebuilt : Bool

pub record LocalState : Type 0 where
  pub watermarks : Map Bytes ℕ
  pub last_acks : Map Bytes PromotionAck
  pub base_roots : Map Bytes Bytes
  pub base_snapshot_ids : Map Bytes Bytes
  pub unpromoted_sums : Map Bytes Bytes
  pub intake_parts : Map Bytes Bytes
  pub promoted_unsafe_parts : Map Bytes (List Bytes)
  pub promotion_intents : Map Bytes PromotionIntent
  pub registration_seq : ℕ  -- uint64
  pub owed_cleanup_acks : Map Bytes CleanupAck
  pub acked_safe_inventories : Map Bytes AckedSafeInventory

unfoldable pub new_local_state : LocalState
new_local_state = record {
  watermarks = [];
  last_acks = [];
  base_roots = [];
  base_snapshot_ids = [];
  unpromoted_sums = [];
  intake_parts = [];
  promoted_unsafe_parts = [];
  promotion_intents = [];
  registration_seq = 0;
  owed_cleanup_acks = [];
  acked_safe_inventories = [];
}

-- What an operation refuses, one constructor for each message of the source.
pub data StateError : Type 0 where
  write_failed bad_accumulator intent_exists different_ack : StateError
  intake_conflict removal_mismatch : StateError
  cleanup_has_promotion part_of_other_table part_without_name part_hash_differs : StateError
  ack_of_other_cleanup : StateError

-- stateStore: the memory, and the content of state.json (absent is the new state).
pub record Store : Type 0 where
  pub memory : LocalState
  pub file : LocalState

-- What a method leaves and returns; `none` is the nil error.
abbrev pub Answer : Type 0
Answer = Store × Option StateError

-- openStateStore after a stop of the process: the memory is what the file holds.
unfoldable pub reopen : Store → Store
reopen s = record { memory = s.file; file = s.file }

-- persistStateLocked: the memory follows only a replacement that succeeded.
unfoldable pub persist_state : WriteOutcome → LocalState → Store → Answer
persist_state WriteOutcome.written next s = (record { memory = next; file = next }, none)
persist_state WriteOutcome.unwritten next s = (s, some write_failed)
persist_state WriteOutcome.unsynced next s = (record s { file = next }, some write_failed)

-- key, table + "\x00" + partition.
unfoldable pub key : PartitionKey → Bytes
key k = k.table ++ 0 ∷ k.partition

unfoldable pub intake_part_key : PartitionKey → Bytes → Bytes
unfolding key
intake_part_key k part_name = key k ++ 0 ∷ part_name

unfoldable pub safe_part_beq : PromotionSafePart → PromotionSafePart → Bool
safe_part_beq a b =
    (a.name ≟ b.name)
    && (a.partition_id ≟ b.partition_id)
    && (a.partition_value ≟ b.partition_value)
    && (a.phys_hash ≟ b.phys_hash)

pub safe_part_beq_iff : (a b : PromotionSafePart) → (safe_part_beq a b ≡ true) ↔ (a ≡ b)
unfolding safe_part_beq
safe_part_beq_iff a b = ground (
  arith,
  ≟_iff a.name b.name,
  ≟_iff a.partition_id b.partition_id,
  ≟_iff a.partition_value b.partition_value,
  ≟_iff a.phys_hash b.phys_hash,
)

instance abbrev pub safe_part_eq : Eq PromotionSafePart
safe_part_eq = record { beq = safe_part_beq; beq_iff = safe_part_beq_iff }

unfoldable pub promotion_intent_command_equal : PromotionIntent → PromotionIntent → Bool
promotion_intent_command_equal a b =
    a.promotion_seq == b.promotion_seq
    && (a.base_partition_root ≟ b.base_partition_root)
    && (a.post_partition_root ≟ b.post_partition_root)
    && (a.base_safe_snapshot_id ≟ b.base_safe_snapshot_id)
    && (a.candidate_part_hashes ≟ b.candidate_part_hashes)
    && (a.unsafe_part_names ≟ b.unsafe_part_names)

unfoldable pub promotion_intents_equal : PromotionIntent → PromotionIntent → Bool
unfolding promotion_intent_command_equal
promotion_intents_equal a b =
    promotion_intent_command_equal a b && (a.safe_parts_before ≟ b.safe_parts_before)

pub promotion_intents_equal_iff :
    (a b : PromotionIntent) → (promotion_intents_equal a b ≡ true) ↔ (a ≡ b)
unfolding promotion_intents_equal
promotion_intents_equal_iff a b = ground (
  arith,
  ≟_iff a.base_partition_root b.base_partition_root,
  ≟_iff a.post_partition_root b.post_partition_root,
  ≟_iff a.base_safe_snapshot_id b.base_safe_snapshot_id,
  ≟_iff a.candidate_part_hashes b.candidate_part_hashes,
  ≟_iff a.unsafe_part_names b.unsafe_part_names,
  ≟_iff a.safe_parts_before b.safe_parts_before,
)

abbrev pub u64 : ℕ → ℕ
u64 n = n % 18446744073709551616

abbrev reserved : ℕ → Answer → Store × Result StateError ℕ
reserved n (s, none) = (s, ok n)
reserved n (s, some e) = (s, err e)

-- NextRegistrationSeq: the reserved number is returned only when it is durable.
unfoldable pub next_registration_seq : WriteOutcome → ℕ → Store → Store × Result StateError ℕ
next_registration_seq w now_millis s =
    let next = max (u64 (s.memory.registration_seq + 1)) now_millis in
    reserved next (persist_state w (record (s.memory) { registration_seq = next }) s)
