-- ===== src/Types.antt =====
-- types.go: the messages of promotion and cleanup that the state of the storage node keeps.
use arbiter_core.Base.{
  ℕ, ◌≡◌, ◌↔◌, Bool, true, ◌&&◌, List, Bytes, Eq, ◌≟◌, ≟_iff, list_eq, nat_eq, ◌==◌, arith,
}

pub record SafePartMapping : Type 0 where
  pub part_row_lt_hash : Bytes
  pub safe_part_name : Bytes
  pub part_phys_hash : Bytes

pub record PromotionAck : Type 0 where
  pub node_id : Bytes
  pub promotion_seq : ℕ  -- uint64
  pub table_id : Bytes
  pub partition_id : Bytes
  pub post_partition_commitment : Bytes
  pub parts : List SafePartMapping
  pub safe_partition_parts : List SafePartMapping
  pub applied : Bool
  pub detail : Bytes

pub record CleanupAck : Type 0 where
  pub node_id : Bytes
  pub promotion_seq : ℕ  -- uint64
  pub table_id : Bytes
  pub partition_id : Bytes
  pub rejected_block_seq : ℕ  -- uint64

pub record PartRef : Type 0 where
  pub table_id : Bytes
  pub partition_id : Bytes
  pub part_row_lt_hash : Bytes
  pub part_name : Bytes

pub record UnsafeCleanup : Type 0 where
  pub table_id : Bytes
  pub partition_id : Bytes
  pub promotion_seq : ℕ  -- uint64
  pub parts : List PartRef
  pub rejected_block_seq : ℕ  -- uint64

-- Go's `==` on two acknowledgements of a cleanup.
unfoldable pub cleanup_ack_beq : CleanupAck → CleanupAck → Bool
cleanup_ack_beq a b =
    (a.node_id ≟ b.node_id)
    && a.promotion_seq == b.promotion_seq
    && (a.table_id ≟ b.table_id)
    && (a.partition_id ≟ b.partition_id)
    && a.rejected_block_seq == b.rejected_block_seq

pub cleanup_ack_beq_iff : (a b : CleanupAck) → (cleanup_ack_beq a b ≡ true) ↔ (a ≡ b)
unfolding cleanup_ack_beq
cleanup_ack_beq_iff a b = ground (
  arith,
  ≟_iff a.node_id b.node_id,
  ≟_iff a.table_id b.table_id,
  ≟_iff a.partition_id b.partition_id,
)

instance abbrev pub cleanup_ack_eq : Eq CleanupAck
cleanup_ack_eq = record { beq = cleanup_ack_beq; beq_iff = cleanup_ack_beq_iff }

pub record SafeWatermark : Type 0 where
  pub snapshot_id : Bytes
  pub safe_block_seq : ℕ
  pub manifest_root : Bytes

pub record PromoteSafePartition : Type 0 where
  pub table_id : Bytes
  pub partition_id : Bytes
  pub promotion_seq : ℕ  -- uint64
  pub base_safe_snapshot_id : Bytes
  pub base_partition_root : Bytes
  pub candidate_parts : List PartRef
