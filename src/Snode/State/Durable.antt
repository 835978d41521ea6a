-- ===== src/Snode/State/Durable.antt =====
-- What every method of stateStore keeps of the memory and of state.json.
use arbiter_core.Base.{
  ◌≡◌, Option-cases, inl, inr, Bool, true, false, none, some, List, [], Bytes, list_eq, nat_eq,
  WriteOutcome, arith, delete, Result-cases, lookup, ℕ, get_or, lookup-insert_self, ≟_refl,
}
use arbiter_core.Types.{PromotionAck, CleanupAck, UnsafeCleanup}
use arbiter_core.Snode.LtHash.{LtHash}
use arbiter_core.Snode.State.{
  PartitionKey, PromotionIntent, Store, LocalState, persist_state, reopen, next_registration_seq,
  key, intake_part_key, write_failed,
}
use arbiter_core.Snode.State.Promotions.{
  begin_promotion, record_ack, record_settled_not_applied, record_refreshed_ack,
  record_applied_promotion, drained_sum, with_intent, refreshed, applied_state,
}
use arbiter_core.Snode.State.Intake.{add_unpromoted_part, persist_in_place, added_sum}
use arbiter_core.Snode.State.Cleanups.{
  record_executed_cleanup, clear_owed_cleanup_ack, cleanup_ack_key, cleaned,
}
use arbiter_core.Snode.State.Reads.{forget_table, forgotten}
use arbiter_core.Snode.State.Ops.{
  CopyingCall, begins, acks, settles, refreshes, applies, cleans, clears, registers, forgets,
  copying, failed, refused,
}

-- A call that failed left the memory as it was; one that succeeded on a store whose file holds the
-- memory left a file that holds the memory.
abbrev pub IsDurable : Store → Store → Bool → Type 0
IsDurable s t e =
    (e ≡ true → t.memory ≡ s.memory) × (e ≡ false → s.file ≡ s.memory → t.file ≡ t.memory)

module _ (w : WriteOutcome) where
  persist-IsDurable :
      (next : LocalState) (s : Store)
      → let r = persist_state w next s in IsDurable s r.0 (failed r.1)
  unfolding persist_state
  persist-IsDurable next s = ground arith

  begin_promotion-IsDurable :
      (k : PartitionKey) (i : PromotionIntent) (s : Store)
      → let r = begin_promotion w k i s in IsDurable s r.0 (failed r.1)
  unfolding begin_promotion
  begin_promotion-IsDurable k i s =
      ground (arith, persist-IsDurable (with_intent (key k) i s.memory) s)

  record_refreshed_ack-IsDurable :
      (k : PartitionKey) (a : PromotionAck) (s : Store)
      → let r = record_refreshed_ack w k a s in IsDurable s r.0 (failed r.1)
  unfolding record_refreshed_ack
  record_refreshed_ack-IsDurable k a s =
      ground (arith, persist-IsDurable (refreshed (key k) a s.memory) s)

  clear_owed_cleanup_ack-IsDurable :
      (a : CleanupAck) (s : Store)
      → let r = clear_owed_cleanup_ack w a s in IsDurable s r.0 (failed r.1)
  unfolding clear_owed_cleanup_ack
  clear_owed_cleanup_ack-IsDurable a s = ground (
    arith,
    persist-IsDurable
        (record (s.memory) {
          owed_cleanup_acks = delete (cleanup_ack_key a) s.memory.owed_cleanup_acks;
        })
        s,
  )

  next_registration_seq-IsDurable :
      (now : ℕ) (s : Store) → let r = next_registration_seq w now s in IsDurable s r.0 (refused r.1)
  unfolding next_registration_seq persist_state
  next_registration_seq-IsDurable now s = ground arith

  module _ (l : LtHash) where
    record_applied_promotion-IsDurable :
        (k : PartitionKey) (n : ℕ) (a : PromotionAck) (b c : Bytes) (hs ns : List Bytes) (s : Store)
        → let r = record_applied_promotion l w k n a b c hs ns s in IsDurable s r.0 (failed r.1)
    record_applied_promotion-IsDurable k n a b c hs ns s =
        elim (Option-cases (drained_sum l hs (get_or [] (key k) s.memory.unpromoted_sums))) [
          | inl e ↦
              unfold record_applied_promotion in rw (e, record_applied_promotion) (ground arith)
          | inr (sum, e) ↦
              unfold record_applied_promotion in
              rw (e, record_applied_promotion)
                (persist-IsDurable (applied_state l (key k) n a b c sum ns s.memory) s)
        ]

    record_executed_cleanup-IsDurable :
        (cmd : UnsafeCleanup) (a : CleanupAck) (s : Store)
        → let r = record_executed_cleanup l w cmd a s in IsDurable s r.0 (failed r.1)
    unfolding record_executed_cleanup
    record_executed_cleanup-IsDurable cmd a s = elim (Result-cases (cleaned l cmd a s.memory)) [
      | inl ((next, changed), e) ↦ ground (arith, e, persist-IsDurable next s)
      | inr (x, e) ↦ ground (arith, e)
    ]

    forget_table-IsDurable :
        (t : Bytes) (s : Store) → let r = forget_table l w t s in IsDurable s r.0 (failed r.1)
    unfolding forget_table
    forget_table-IsDurable t s = ground (arith, persist-IsDurable (forgotten t s.memory) s)

    -- A call that builds a next state and persists it changes the memory only with the file: when
    -- it fails the memory is as it was, whatever the file system answered, and when it succeeds on
    -- a store whose file holds the memory, the file again holds the memory.
    pub copying-IsDurable :
        (c : CopyingCall) (s : Store) → let r = copying l w c s in IsDurable s r.0 r.1
    unfolding copying
    copying-IsDurable (begins k i) s = begin_promotion-IsDurable k i s
    copying-IsDurable (acks k n a b c) s = unfold record_ack in persist-IsDurable _ s
    copying-IsDurable (settles k n a b c) s =
        unfold record_settled_not_applied in persist-IsDurable _ s
    copying-IsDurable (refreshes k a) s = record_refreshed_ack-IsDurable k a s
    copying-IsDurable (applies k n a b c hs ns) s =
        record_applied_promotion-IsDurable k n a b c hs ns s
    copying-IsDurable (cleans cmd a) s = record_executed_cleanup-IsDurable cmd a s
    copying-IsDurable (clears a) s = clear_owed_cleanup_ack-IsDurable a s
    copying-IsDurable (registers now) s = next_registration_seq-IsDurable now s
    copying-IsDurable (forgets t) s = forget_table-IsDurable t s

    -- The calls that change the memory first do not keep it on a failed write. A part recorded by
    -- AddUnpromotedPart whose write was refused before the rename stands in the memory and not in
    -- the file, and the retry of the same part succeeds without writing: the store then reports
    -- success for a part that a restart forgets.
    pub add_unpromoted_part-retry_not_durable :
        (k : PartitionKey) (name hash : Bytes) (sum : Bytes) (s : Store)
        → lookup (intake_part_key k name) s.memory.intake_parts ≡ none
        → lookup (intake_part_key k name) s.file.intake_parts ≡ none
        → added_sum l (get_or [] (key k) s.memory.unpromoted_sums) hash ≡ some sum
        → let t = (add_unpromoted_part l WriteOutcome.unwritten k name hash s).0 in
          ((add_unpromoted_part l WriteOutcome.unwritten k name hash s).1 ≡ some write_failed)
          × (add_unpromoted_part l w k name hash t ≡ (t, none))
          × (lookup (intake_part_key k name) (reopen t).memory.intake_parts ≡ none)
    unfolding add_unpromoted_part persist_in_place persist_state reopen
    add_unpromoted_part-retry_not_durable k name hash sum s fresh absent parsed =
        ground (
          arith,
          lookup-insert_self (intake_part_key k name) hash s.memory.intake_parts,
          ≟_refl hash,
        )
