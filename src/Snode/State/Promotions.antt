-- ===== src/Snode/State/Promotions.antt =====
-- snode/state.go: promotion intents, acknowledgements and the acknowledged inventories.
use arbiter_core.Base.{
  ℕ, Bool, true, false, ◌&&◌, ◌||◌, Option, none, some, List, [], ◌∷◌, ◌++◌, Bytes, ◌≟◌, list_eq,
  nat_eq, list_ord, nat_ord, ltb, ◌==◌, if◌then◌else◌, lookup, insert, delete, get_or, contains,
  length, WriteOutcome,
}
use arbiter_core.Types.{PromotionAck}
use arbiter_core.Snode.LtHash.{LtHash, parse_accumulator_hex, accumulator_hex}
use arbiter_core.Snode.State.{
  PartitionKey, PromotionIntent, AckedSafeInventory, LocalState, Store, Answer, bad_accumulator,
  intent_exists, different_ack, key, persist_state, promotion_intents_equal,
  promotion_intent_command_equal,
}

unfoldable pub watermark : Store → PartitionKey → ℕ
watermark s k = get_or 0 (key k) s.memory.watermarks

unfoldable pub last_ack : Store → PartitionKey → Option PromotionAck
last_ack s k = lookup (key k) s.memory.last_acks

unfoldable pub base_root : Store → PartitionKey → Bytes × Bytes
base_root s k =
    (get_or [] (key k) s.memory.base_roots, get_or [] (key k) s.memory.base_snapshot_ids)

unfoldable pub unpromoted_sum : Store → PartitionKey → Bytes
unpromoted_sum s k = get_or [] (key k) s.memory.unpromoted_sums

unfoldable pub pending_promotion : Store → PartitionKey → Option PromotionIntent
pending_promotion s k = lookup (key k) s.memory.promotion_intents

abbrev pub with_intent : Bytes → PromotionIntent → LocalState → LocalState
with_intent ks intent m = record m { promotion_intents = insert ks intent m.promotion_intents }

unfoldable pub begin_promotion : WriteOutcome → PartitionKey → PromotionIntent → Store → Answer
begin_promotion w k intent s = elim (lookup (key k) s.memory.promotion_intents) [
  | none ↦ persist_state w (with_intent (key k) intent s.memory) s
  | some existing ↦
      if promotion_intents_equal existing intent
      then (s, none)
      else if promotion_intent_command_equal existing intent
      then persist_state w (with_intent (key k) intent s.memory) s
      else (s, some intent_exists)
]

-- The inventory that an applied acknowledgement with a complete list of parts carries.
unfoldable pub inventory_of_ack : Option PromotionAck → Option AckedSafeInventory
inventory_of_ack none = none
inventory_of_ack (some ack) =
    if ack.applied && ltb 0 (length ack.safe_partition_parts)
    then some (record {
      promotion_seq = ack.promotion_seq;
      parts = ack.safe_partition_parts;
      rebuilt = false;
    })
    else none

-- The method ackedSafeInventory of localState: the recorded inventory, else the derived one.
unfoldable pub acked_safe_inventory : Bytes → LocalState → Option AckedSafeInventory
acked_safe_inventory ks m = elim (lookup ks m.acked_safe_inventories) [
  | some inv ↦ some inv
  | none ↦ inventory_of_ack (lookup ks m.last_acks)
]

unfoldable pub record_acked_safe_inventory : Bytes → PromotionAck → LocalState → LocalState
record_acked_safe_inventory ks ack m =
    if ack.applied
    then if ltb 0 (length ack.safe_partition_parts)
      then record m {
        acked_safe_inventories =
            insert ks
              (record {
                promotion_seq = ack.promotion_seq;
                parts = ack.safe_partition_parts;
                rebuilt = false;
              })
              m.acked_safe_inventories;
      }
      else record m { acked_safe_inventories = delete ks m.acked_safe_inventories }
    else m

-- `next.AckedSafeInventories[ks] = inv` when there is one.
unfoldable pub keep_inventory : Bytes → LocalState → LocalState
keep_inventory ks m = elim (acked_safe_inventory ks m) [
  | none ↦ m
  | some inv ↦ record m { acked_safe_inventories = insert ks inv m.acked_safe_inventories }
]

unfoldable pub acked : Bytes → ℕ → PromotionAck → Bytes → Bytes → LocalState → LocalState
acked ks seq ack root snapshot m = record m {
  watermarks = insert ks seq m.watermarks;
  last_acks = insert ks ack m.last_acks;
  base_roots = insert ks root m.base_roots;
  base_snapshot_ids = insert ks snapshot m.base_snapshot_ids;
}

unfoldable pub record_ack :
    WriteOutcome → PartitionKey → ℕ → PromotionAck → Bytes → Bytes → Store → Answer
record_ack w k seq ack root snapshot s =
    persist_state w (acked (key k) seq ack root snapshot (keep_inventory (key k) s.memory)) s

-- The removal of an intent at the settled number.
unfoldable pub drop_intent_at : Bytes → ℕ → LocalState → LocalState
drop_intent_at ks seq m = elim (lookup ks m.promotion_intents) [
  | none ↦ m
  | some intent ↦
      if intent.promotion_seq == seq
      then record m { promotion_intents = delete ks m.promotion_intents }
      else m
]

unfoldable pub record_settled_not_applied :
    WriteOutcome → PartitionKey → ℕ → PromotionAck → Bytes → Bytes → Store → Answer
record_settled_not_applied w k seq ack root snapshot s =
    persist_state w
      (drop_intent_at (key k) seq
        (acked (key k) seq ack root snapshot (keep_inventory (key k) s.memory)))
      s

unfoldable pub same_ack : PromotionAck → PromotionAck → Bool
same_ack p a =
    p.promotion_seq == a.promotion_seq
    && (p.node_id ≟ a.node_id)
    && (p.table_id ≟ a.table_id)
    && (p.partition_id ≟ a.partition_id)
    && (p.post_partition_commitment ≟ a.post_partition_commitment)
    && (if p.applied then a.applied else if a.applied then false else true)

-- Whether the refresh completes the inventory: none is there, or one of an earlier promotion.
unfoldable pub completes : Option AckedSafeInventory → PromotionAck → Bool
completes none ack = true
completes (some inv) ack = ltb inv.promotion_seq ack.promotion_seq

unfoldable pub refreshed : Bytes → PromotionAck → LocalState → LocalState
refreshed ks ack m =
    let next = record m { last_acks = insert ks ack m.last_acks } in
    if completes (acked_safe_inventory ks m) ack
    then record_acked_safe_inventory ks ack next
    else next

unfoldable pub record_refreshed_ack : WriteOutcome → PartitionKey → PromotionAck → Store → Answer
record_refreshed_ack w k ack s = elim (lookup (key k) s.memory.last_acks) [
  | none ↦ (s, some different_ack)
  | some previous ↦
      if same_ack previous ack && get_or 0 (key k) s.memory.watermarks == ack.promotion_seq
      then persist_state w (refreshed (key k) ack s.memory) s
      else (s, some different_ack)
]

-- The names added to a partition's promoted parts: not empty, and each once.
unfoldable pub add_names : List Bytes → List Bytes → List Bytes
add_names existing [] = existing
add_names existing (p ∷ ps) =
    add_names (if (p ≟ []) || contains p existing then existing else existing ++ p ∷ []) ps

unfoldable pub add_promoted : Bytes → List Bytes → LocalState → LocalState
add_promoted ks [] m = m
add_promoted ks (n ∷ ns) m = record m {
  promoted_unsafe_parts =
      insert ks (add_names (get_or [] ks m.promoted_unsafe_parts) (n ∷ ns)) m.promoted_unsafe_parts;
}

module _ (l : LtHash) where
  open l use {Hash, sub_hash}

  abbrev sub_then : (Hash → Option Hash) → Hash → Option Hash → Option Hash
  sub_then k acc none = none
  sub_then k acc (some part) = k (sub_hash acc part)

  -- The loop that subtracts each part; `none` is the error of parseAccumulatorHex.
  unfoldable pub sub_all : List Bytes → Hash → Option Hash
  sub_all [] acc = some acc
  sub_all (h ∷ hs) acc = sub_then (sub_all hs) acc (parse_accumulator_hex l h)

  abbrev sub_all_of : List Bytes → Option Hash → Option Hash
  sub_all_of hs none = none
  sub_all_of hs (some acc) = sub_all hs acc

  unfoldable pub drained_sum : List Bytes → Bytes → Option Bytes
  drained_sum hs stored = elim (sub_all_of hs (parse_accumulator_hex l stored)) [
    | none ↦ none
    | some acc ↦ some (accumulator_hex l acc)
  ]

  unfoldable pub applied_state :
      Bytes → ℕ → PromotionAck → Bytes → Bytes → Bytes → List Bytes → LocalState → LocalState
  applied_state ks seq ack root snapshot sum names m =
      let summed = record m { unpromoted_sums = insert ks sum m.unpromoted_sums } in
      let next =
        add_promoted ks names
          (record_acked_safe_inventory ks ack (acked ks seq ack root snapshot summed)) in
      record next { promotion_intents = delete ks next.promotion_intents }

  unfoldable pub record_applied_promotion :
      WriteOutcome
      → PartitionKey
      → ℕ
      → PromotionAck
      → Bytes
      → Bytes
      → List Bytes
      → List Bytes
      → Store
      → Answer
  record_applied_promotion w k seq ack root snapshot part_hashes names s =
      elim (drained_sum part_hashes (get_or [] (key k) s.memory.unpromoted_sums)) [
        | none ↦ (s, some bad_accumulator)
        | some sum ↦
            persist_state w (applied_state (key k) seq ack root snapshot sum names s.memory) s
      ]
