-- ===== src/Snode/State/Applied.antt =====
-- What an applied promotion, a refused one and a refreshed acknowledgement leave in the state of
-- snode/state.go.
use arbiter_core.Snode.State.{LocalState, PartitionKey, Store, key}
use arbiter_core.Types.{PromotionAck}
use arbiter_core.Snode.LtHash.{LtHash}
use arbiter_core.Snode.State.Promotions.{
  acked, pending_promotion, watermark, last_ack, base_root, drained_sum, unpromoted_sum,
  acked_safe_inventory, inventory_of_ack,
}
use arbiter_core.Base.{
  ℕ, ◌≡◌, ◌≢◌, ◌&&◌, ◌||◌, not, none, some, List, [], Bytes, ◌≟◌, list_eq, nat_eq, insert, get_or,
  contains, true, lookup,
}

-- What an applied promotion of partition `k` leaves: the intent is resolved, the watermark, the
-- acknowledgement and the base are the promotion's, the candidates' hashes are subtracted from the
-- unpromoted sum, the partition's unsafe exclusion gains exactly the names that are not empty, and
-- the acknowledged inventory is that of an applied acknowledgement; no other partition's intent,
-- watermark, acknowledgement, base, sum, exclusion or acknowledged inventory moves, and no
-- partition's intake and no owed acknowledgement.
pub record IsApplied (l : LtHash) (k : PartitionKey) (n : ℕ) (a : PromotionAck) (b c : Bytes)
    (hs ns : List Bytes) (s t : Store) : Type 0 where
  pub resolved : pending_promotion t k ≡ none
  pub at_seq : watermark t k ≡ n
  pub acked_by : last_ack t k ≡ some a
  pub based : base_root t k ≡ (b, c)
  pub drained : drained_sum l hs (unpromoted_sum s k) ≡ some (unpromoted_sum t k)
  pub excluded :
      (p : Bytes)
      → contains p (get_or [] (key k) t.memory.promoted_unsafe_parts) ≡ (
          contains p (get_or [] (key k) s.memory.promoted_unsafe_parts)
          || (contains p ns && not (p ≟ [])))
  pub inventoried :
      a.applied ≡ true → acked_safe_inventory (key k) t.memory ≡ inventory_of_ack (some a)
  pub intake : t.memory.intake_parts ≡ s.memory.intake_parts
  pub owed : t.memory.owed_cleanup_acks ≡ s.memory.owed_cleanup_acks
  pub others :
      (j : PartitionKey)
      → key k ≢ key j
      → (pending_promotion t j ≡ pending_promotion s j)
        × (watermark t j ≡ watermark s j)
        × (last_ack t j ≡ last_ack s j)
        × (base_root t j ≡ base_root s j)
        × (unpromoted_sum t j ≡ unpromoted_sum s j)
        × (get_or [] (key j) t.memory.promoted_unsafe_parts
            ≡ get_or [] (key j) s.memory.promoted_unsafe_parts)
        × (lookup (key j) t.memory.acked_safe_inventories
            ≡ lookup (key j) s.memory.acked_safe_inventories)

module _ (l : LtHash) (ks : Bytes) (n : ℕ) (a : PromotionAck) (b c sum : Bytes) (ns : List Bytes)
    (m : LocalState) where
  abbrev base_state : LocalState
  base_state = acked ks n a b c (record m { unpromoted_sums = insert ks sum m.unpromoted_sums })
