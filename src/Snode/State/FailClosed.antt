-- ===== src/Snode/State/FailClosed.antt =====
-- Promotions of snode/state.go: the write-ahead intent, the reads that fail closed on it, and what
-- an applied promotion leaves.
use arbiter_core.Types.{PromotionAck}
use arbiter_core.Snode.LtHash.{LtHash}
use arbiter_core.Snode.State.Promotions.{
  begin_promotion, pending_promotion, add_names, record_applied_promotion, unpromoted_sum,
  drained_sum, applied_state,
}
use arbiter_core.Snode.State.{
  PartitionKey, key, LocalState, PromotionIntent, persist_state, Store,
  promotion_intent_command_equal, intent_exists, promotion_intents_equal_iff,
  promotion_intents_equal, PromotionAck,
}
use arbiter_core.Snode.State.Reads.{partition_in, partitions_in, promoted_unsafe_parts}
use arbiter_core.Base.{
  list_ord, nat_ord, ℕ, ◌≡◌, refl, inl, inr, true, false, ◌&&◌, ◌||◌, not, none, some, List, [],
  ◌∷◌, ◌++◌, Bytes, ◌≟◌, ≟_iff, list_eq, nat_eq, err, arith, Map, lookup, contains, contains-append,
  ap, ◌<◌, after_prefix, length, sym, append_assoc, ◌∙◌, after_prefix-append, Bool-cases,
  WriteOutcome, Option-cases, sort, lookup-insert_self,
}

pub partition_in-key : (k : PartitionKey) → partition_in k.table (key k) ≡ some k.partition
unfolding partition_in key
partition_in-key k =
    ap (after_prefix (k.table ++ 0 ∷ [])) (sym (append_assoc k.table (0 ∷ []) k.partition))
    ∙ after_prefix-append (k.table ++ 0 ∷ []) k.partition

-- A map with an entry at a key of the table has a partition of the table.
pub partitions_in-entry {ℓ} :
    {V : Type ℓ} (k : PartitionKey) (v : V) (m : Map Bytes V)
    → lookup (key k) m ≡ some v
    → 0 < length (partitions_in k.table m)
unfolding partitions_in lookup
partitions_in-entry k v [] h = cc
partitions_in-entry k v ((j, w) ∷ m) h = elim (Bool-cases (j ≟ key k)) [
  | inl e ↦
      let named : partition_in k.table j ≡ some k.partition =
        ap (partition_in k.table) ((≟_iff j (key k)).0 e) ∙ partition_in-key k in
      ground (arith, named)
  | inr e ↦
      let rest = partitions_in-entry k v m (ground arith) in
      elim (Option-cases (partition_in k.table j)) [
        | inl f ↦ ground (arith, rest, f)
        | inr (x, f) ↦ ground (arith, rest, f)
      ]
]

-- Some partition of the table has an unresolved promotion, and they are what the read reports.
abbrev pub FailsClosed : Bytes → LocalState → Type 0
FailsClosed table m =
    (promoted_unsafe_parts table m ≡ err (sort (partitions_in table m.promotion_intents)))
    × (0 < length (partitions_in table m.promotion_intents))

FailsClosed-of_intent :
    (k : PartitionKey) (i : PromotionIntent) (m : LocalState)
    → lookup (key k) m.promotion_intents ≡ some i
    → FailsClosed k.table m
unfolding promoted_unsafe_parts
FailsClosed-of_intent k i m h =
    let some_pending = partitions_in-entry k i m.promotion_intents h in (ground arith, some_pending)

begin_promotion-intent :
    (w : WriteOutcome) (k : PartitionKey) (i : PromotionIntent) (s t : Store)
    → begin_promotion w k i s ≡ (t, none)
    → lookup (key k) t.memory.promotion_intents ≡ some i
unfolding begin_promotion persist_state
begin_promotion-intent w k i s t h = elim (Option-cases (pending_promotion s k)) [
  | inl e ↦
      unfold pending_promotion in
      ground (arith, lookup-insert_self (key k) i s.memory.promotion_intents)
  | inr (x, e) ↦
      unfold pending_promotion in
      ground (
        arith,
        promotion_intents_equal_iff x i,
        lookup-insert_self (key k) i s.memory.promotion_intents,
      )
]

-- Once BeginPromotion returned nil, the intent is pending for its partition and every read of the
-- table's promoted parts fails closed, with the table's unresolved partitions.
pub begin_promotion-FailsClosed :
    (w : WriteOutcome) (k : PartitionKey) (i : PromotionIntent) (s t : Store)
    → begin_promotion w k i s ≡ (t, none)
    → (pending_promotion t k ≡ some i) × FailsClosed k.table t.memory
unfolding pending_promotion
begin_promotion-FailsClosed w k i s t h =
    let pending = begin_promotion-intent w k i s t h in
    (pending, FailsClosed-of_intent k i t.memory pending)

-- After BeginPromotion returned nil, repeating the same intent writes nothing and returns nil,
-- whatever the file system would answer, and an intent of another command is refused with the
-- store as it is.
pub begin_promotion-again :
    (w v : WriteOutcome) (k : PartitionKey) (i j : PromotionIntent) (s t : Store)
    → begin_promotion w k i s ≡ (t, none)
    → (begin_promotion v k i t ≡ (t, none))
      × (promotion_intent_command_equal i j ≡ false
          → begin_promotion v k j t ≡ (t, some intent_exists))
unfolding begin_promotion promotion_intents_equal
begin_promotion-again w v k i j s t h =
    let pending = begin_promotion-intent w k i s t h in
    let same : promotion_intents_equal i i ≡ true = (promotion_intents_equal_iff i i).1 refl in
    (ground (arith, same, pending), λ other. ground (arith, other, pending))

-- contains after the names are added.
pub contains-add_names :
    (p : Bytes) (existing names : List Bytes)
    → contains p (add_names existing names)
      ≡ (contains p existing || (contains p names && not (p ≟ [])))
unfolding add_names contains
contains-add_names p existing [] = ground arith
contains-add_names p existing (n ∷ ns) = ground (
  arith,
  ≟_iff n [],
  ≟_iff p [],
  ≟_iff n p,
  contains-append p existing (n ∷ []),
  contains-add_names p existing ns,
  contains-add_names p (existing ++ n ∷ []) ns,
)

pub record_applied_promotion-state :
    (l : LtHash) (w : WriteOutcome) (k : PartitionKey) (n : ℕ) (a : PromotionAck) (b c : Bytes)
    → (hs ns : List Bytes) (s t : Store)
    → record_applied_promotion l w k n a b c hs ns s ≡ (t, none)
    → (sum : Bytes) × (drained_sum l hs (unpromoted_sum s k) ≡ some sum)
      × (t.memory ≡ applied_state l (key k) n a b c sum ns s.memory)
unfolding record_applied_promotion persist_state unpromoted_sum
record_applied_promotion-state l w k n a b c hs ns s t h =
    elim (Option-cases (drained_sum l hs (unpromoted_sum s k))) [
      | inl e ↦ absurd (ground arith)
      | inr (sum, e) ↦ (sum, e, ground arith)
    ]
