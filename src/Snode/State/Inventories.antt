-- ===== src/Snode/State/Inventories.antt =====
-- The acknowledged inventory of snode/state.go, which the owner audit compares hg_safe with.
use arbiter_core.Types.{PromotionAck}
use arbiter_core.Snode.State.{
  persist_state, LocalState, PartitionKey, PromotionAck, Store, PromotionIntent, key,
}
use arbiter_core.Snode.State.Promotions.{
  acked, record_ack, record_refreshed_ack, record_settled_not_applied, keep_inventory,
  acked_safe_inventory, drop_intent_at, refreshed, inventory_of_ack, pending_promotion,
  record_acked_safe_inventory, last_ack, watermark,
}
use arbiter_core.Base.{
  ℕ, ◌≡◌, ◌≢◌, false, none, some, Bytes, ≟_refl, list_eq, nat_eq, arith, lookup, WriteOutcome,
  Option-cases, inr, lookup-insert_self, ◌⊎◌, get_or-insert, inl, lookup-delete_self,
}

kept_inventory :
    (ks : Bytes) (m : LocalState) (n : ℕ) (a : PromotionAck) (b c : Bytes)
    → a.applied ≡ false
    → acked_safe_inventory ks (acked ks n a b c (keep_inventory ks m)) ≡ acked_safe_inventory ks m
unfolding acked keep_inventory acked_safe_inventory inventory_of_ack
kept_inventory ks m n a b c refused_ack = elim (Option-cases (lookup ks m.acked_safe_inventories)) [
  | inr (inv, e) ↦ ground (arith, e, lookup-insert_self ks inv m.acked_safe_inventories)
  | inl e ↦ elim (Option-cases (inventory_of_ack (lookup ks m.last_acks))) [
    | inl f ↦ ground (arith, e, f, lookup-insert_self ks a m.last_acks)
    | inr (inv, f) ↦ ground (arith, e, f, lookup-insert_self ks inv m.acked_safe_inventories)
  ]
]

inventory-drop_intent_at :
    (ks : Bytes) (n : ℕ) (m : LocalState)
    → acked_safe_inventory ks (drop_intent_at ks n m) ≡ acked_safe_inventory ks m
unfolding acked_safe_inventory drop_intent_at
inventory-drop_intent_at ks n m = ground arith

-- A not-applied acknowledgement keeps the partition's acknowledged inventory, recorded or derived
-- from an applied acknowledgement that it replaces: after a successful RecordAck or
-- RecordSettledNotApplied of such an acknowledgement the partition's inventory is what it was.
pub record_ack-inventory :
    (w : WriteOutcome) (k : PartitionKey) (n : ℕ) (a : PromotionAck) (b c : Bytes) (s t : Store)
    → a.applied ≡ false
    → (record_ack w k n a b c s ≡ (t, none))
      ⊎ (record_settled_not_applied w k n a b c s ≡ (t, none))
    → acked_safe_inventory (key k) t.memory ≡ acked_safe_inventory (key k) s.memory
unfolding record_ack record_settled_not_applied persist_state
record_ack-inventory w k n a b c s t refused_ack (inl h) =
    ground (arith, kept_inventory (key k) s.memory n a b c refused_ack)
record_ack-inventory w k n a b c s t refused_ack (inr h) = ground (
  arith,
  kept_inventory (key k) s.memory n a b c refused_ack,
  inventory-drop_intent_at (key k) n (acked (key k) n a b c (keep_inventory (key k) s.memory)),
)

-- A successful settle of a promotion that was not applied leaves no intent at the settled number,
-- moves the watermark to it, and keeps an intent of the partition at another number.
pub record_settled-intent :
    (w : WriteOutcome) (k : PartitionKey) (n : ℕ) (a : PromotionAck) (b c : Bytes) (s t : Store)
    → record_settled_not_applied w k n a b c s ≡ (t, none)
    → (watermark t k ≡ n)
      × ((i : PromotionIntent)
          → pending_promotion t k ≡ some i
          → (i.promotion_seq ≢ n) × (pending_promotion s k ≡ some i))
unfolding record_settled_not_applied persist_state drop_intent_at pending_promotion watermark acked
    keep_inventory
record_settled-intent w k n a b c s t h = (
  ground (arith, get_or-insert 0 (key k) (key k) n s.memory.watermarks, ≟_refl (key k)),
  λ i p. ground (arith, lookup-delete_self (key k) s.memory.promotion_intents),
)

-- A successful refresh of the last acknowledgement is of the same promotion: it replaces the
-- acknowledgement and moves no watermark, base, unpromoted sum, exclusion or intent.
pub record_refreshed_ack-same_promotion :
    (w : WriteOutcome) (k : PartitionKey) (a : PromotionAck) (s t : Store)
    → record_refreshed_ack w k a s ≡ (t, none)
    → (last_ack t k ≡ some a)
      × (watermark s k ≡ a.promotion_seq)
      × (t.memory.watermarks ≡ s.memory.watermarks)
      × (t.memory.base_roots ≡ s.memory.base_roots)
      × (t.memory.base_snapshot_ids ≡ s.memory.base_snapshot_ids)
      × (t.memory.unpromoted_sums ≡ s.memory.unpromoted_sums)
      × (t.memory.promoted_unsafe_parts ≡ s.memory.promoted_unsafe_parts)
      × (t.memory.promotion_intents ≡ s.memory.promotion_intents)
unfolding record_refreshed_ack persist_state refreshed record_acked_safe_inventory last_ack
    watermark
record_refreshed_ack-same_promotion w k a s t h =
    ground (arith, lookup-insert_self (key k) a s.memory.last_acks)
