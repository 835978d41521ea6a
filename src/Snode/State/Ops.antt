-- ===== src/Snode/State/Ops.antt =====
-- The methods of stateStore that change it, as one type of calls, so that a history of the store is
-- a list of calls with what the file system answered to each.
use arbiter_core.Base.{
  ℕ, Bool, true, false, Option, none, some, List, Bytes, Result, ok, err, WriteOutcome,
}
use arbiter_core.Types.{PromotionAck, CleanupAck, UnsafeCleanup}
use arbiter_core.Snode.LtHash.{LtHash}
use arbiter_core.Snode.State.{PartitionKey, PromotionIntent, Store, next_registration_seq}
use arbiter_core.Snode.State.Promotions.{
  begin_promotion, record_ack, record_settled_not_applied, record_refreshed_ack,
  record_applied_promotion,
}
use arbiter_core.Snode.State.Intake.{
  add_unpromoted, add_unpromoted_part, remove_unpromoted_part, drain_unpromoted,
}
use arbiter_core.Snode.State.Cleanups.{record_executed_cleanup, clear_owed_cleanup_ack}
use arbiter_core.Snode.State.Reads.{forget_table}

-- The calls that build a next state and persist it.
pub data CopyingCall : Type 0 where
  begins : PartitionKey → PromotionIntent → CopyingCall
  acks : PartitionKey → ℕ → PromotionAck → Bytes → Bytes → CopyingCall
  settles : PartitionKey → ℕ → PromotionAck → Bytes → Bytes → CopyingCall
  refreshes : PartitionKey → PromotionAck → CopyingCall
  applies : PartitionKey → ℕ → PromotionAck → Bytes → Bytes → List Bytes → List Bytes → CopyingCall
  cleans : UnsafeCleanup → CleanupAck → CopyingCall
  clears : CleanupAck → CopyingCall
  registers : ℕ → CopyingCall
  forgets : Bytes → CopyingCall

-- The calls that change the memory in place and persist it.
pub data InPlaceCall : Type 0 where
  adds : PartitionKey → Bytes → InPlaceCall
  adds_part removes_part : PartitionKey → Bytes → Bytes → InPlaceCall
  drains : PartitionKey → List Bytes → InPlaceCall

abbrev pub failed {ℓ} : {E : Type ℓ} → Option E → Bool
failed none = false
failed (some e) = true

abbrev pub refused {ℓ κ} : {E : Type ℓ} {A : Type κ} → Result E A → Bool
refused (ok a) = false
refused (err e) = true

-- A call: the store it leaves, and whether it returned an error.
module _ (l : LtHash) (w : WriteOutcome) where
  unfoldable pub copying : CopyingCall → Store → Store × Bool
  copying (begins k i) s = let r = begin_promotion w k i s in (r.0, failed r.1)
  copying (acks k n a b c) s = let r = record_ack w k n a b c s in (r.0, failed r.1)
  copying (settles k n a b c) s =
      let r = record_settled_not_applied w k n a b c s in (r.0, failed r.1)
  copying (refreshes k a) s = let r = record_refreshed_ack w k a s in (r.0, failed r.1)
  copying (applies k n a b c hs ns) s =
      let r = record_applied_promotion l w k n a b c hs ns s in (r.0, failed r.1)
  copying (cleans cmd a) s = let r = record_executed_cleanup l w cmd a s in (r.0, failed r.1)
  copying (clears a) s = let r = clear_owed_cleanup_ack w a s in (r.0, failed r.1)
  copying (registers now) s = let r = next_registration_seq w now s in (r.0, refused r.1)
  copying (forgets t) s = let r = forget_table l w t s in (r.0, failed r.1)

  unfoldable pub in_place : InPlaceCall → Store → Store × Bool
  in_place (adds k h) s = let r = add_unpromoted l w k h s in (r.0, failed r.1)
  in_place (adds_part k n h) s = let r = add_unpromoted_part l w k n h s in (r.0, failed r.1)
  in_place (removes_part k n h) s = let r = remove_unpromoted_part l w k n h s in (r.0, failed r.1)
  in_place (drains k hs) s = let r = drain_unpromoted l w k hs s in (r.0, failed r.1)
