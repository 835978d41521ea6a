-- ===== src/Snode/State/Redelivery.antt =====
-- A cleanup of snode/state.go that is delivered again.
use arbiter_core.Snode.State.Gate.{cleaned-unchanged}
use arbiter_core.Snode.LtHash.{LtHash}
use arbiter_core.Types.{PartRef, CleanupAck, UnsafeCleanup}
use arbiter_core.Snode.State.{
  PartitionKey, LocalState, key, intake_part_key, CleanupAck, persist_state, Store,
}
use arbiter_core.Snode.State.Cleanups.{
  forget_promoted_parts, remove_rejected_part, remove_rejected_parts, check_parts, check_part,
  recorded_differently, owe, cleanup_ack_key, account_cleanup, cleaned, record_executed_cleanup,
  check_rejected_parts, partition_of, names_of, is_ack_of,
}
use arbiter_core.Types.{cleanup_ack_eq}
use arbiter_core.Base.{
  ◌≡◌, refl, Bool, true, false, ◌||◌, not, none, some, List, [], ◌∷◌, Bytes, ◌≟◌, ≟_iff, ≟_refl,
  list_eq, nat_eq, list_ord, nat_ord, arith, lookup, get_or, keep_if, contains, get_or-insert,
  get_or-delete_self, All, ok, ◌⊎◌, inl, lookup-insert, Result-cases, inr, lookup-insert_self,
  Option-cases, Bool-cases, WriteOutcome, ◌==◌,
}

keep_if_twice {ℓ} :
    {A : Type ℓ} (p : A → Bool) (xs : List A) → keep_if p (keep_if p xs) ≡ keep_if p xs
keep_if_twice p [] = refl
keep_if_twice p (x ∷ xs) = ground (arith, keep_if_twice p xs)

-- The names are gone once they were forgotten: forgetting them again changes nothing.
forget_again :
    (k : PartitionKey) (ns : List Bytes) (m n : LocalState)
    → n.promoted_unsafe_parts ≡ (forget_promoted_parts k ns m).0.promoted_unsafe_parts
    → forget_promoted_parts k ns n ≡ (n, false)
unfolding forget_promoted_parts
forget_again k ns m n h =
    let existing = get_or [] (key k) m.promoted_unsafe_parts in
    let kept_names = keep_if (λ p. not (contains p ns)) existing in
    ground (
      arith,
      ≟_refl (key k),
      keep_if_twice (λ p. not (contains p ns)) existing,
      get_or-insert [] (key k) (key k) kept_names m.promoted_unsafe_parts,
      get_or-delete_self [] (key k) m.promoted_unsafe_parts,
    )

-- Every part that the cleanup names has no intake record, or the removed marker.
abbrev AllRemoved : PartitionKey → LocalState → List PartRef → Type 0
AllRemoved k m ps =
    All
      (λ p.
        (lookup (intake_part_key k p.part_name) m.intake_parts ≡ none)
        ⊎ (lookup (intake_part_key k p.part_name) m.intake_parts ≡ some []))
      ps

no_marker : (◌≟◌ {A = Bytes} [] []) ≡ true
no_marker = ≟_refl {A = Bytes} []

marks_one :
    (l : LtHash) (k : PartitionKey) (p : PartRef) (m next : LocalState) (d : Bool) (j : Bytes)
    → remove_rejected_part l k p m ≡ ok (next, d)
    → (lookup j next.intake_parts ≡ lookup j m.intake_parts)
      ⊎ (lookup j next.intake_parts ≡ some [])
unfolding remove_rejected_part
marks_one l k p m next d j h =
    ground (arith, lookup-insert (intake_part_key k p.part_name) j [] m.intake_parts)

removed_one :
    (l : LtHash) (k : PartitionKey) (p : PartRef) (m next : LocalState) (d : Bool)
    → remove_rejected_part l k p m ≡ ok (next, d)
    → (lookup (intake_part_key k p.part_name) next.intake_parts ≡ none)
      ⊎ (lookup (intake_part_key k p.part_name) next.intake_parts ≡ some [])
unfolding remove_rejected_part
removed_one l k p m next d h =
    elim (Option-cases (lookup (intake_part_key k p.part_name) m.intake_parts)) [
      | inl e ↦ ground (arith, e)
      | inr (x, e) ↦ ground (
        arith,
        e,
        ≟_iff x [],
        lookup-insert_self (intake_part_key k p.part_name) [] m.intake_parts,
      )
    ]

-- Removing parts puts the removed marker at some keys and leaves the others.
marks_only :
    (l : LtHash) (k : PartitionKey) (ps : List PartRef) (m next : LocalState) (c changed : Bool)
    → (j : Bytes) → remove_rejected_parts l k ps m c ≡ ok (next, changed)
    → (lookup j next.intake_parts ≡ lookup j m.intake_parts)
      ⊎ (lookup j next.intake_parts ≡ some [])
unfolding remove_rejected_parts
marks_only l k [] m next c changed j h = inl (ground arith)
marks_only l k (p ∷ ps) m next c changed j h = elim (Result-cases (remove_rejected_part l k p m)) [
  | inr (x, e) ↦ absurd (ground (arith, e))
  | inl ((n, d), e) ↦ ground (
    arith,
    marks_only l k ps n next (d || c) changed j (ground (arith, e)),
    marks_one l k p m n d j e,
  )
]

AllRemoved-of_removed :
    (l : LtHash) (k : PartitionKey) (ps : List PartRef) (m next : LocalState) (c changed : Bool)
    → remove_rejected_parts l k ps m c ≡ ok (next, changed)
    → AllRemoved k next ps
unfolding remove_rejected_parts
AllRemoved-of_removed l k [] m next c changed h = tt
AllRemoved-of_removed l k (p ∷ ps) m next c changed h =
    elim (Result-cases (remove_rejected_part l k p m)) [
      | inr (x, e) ↦ absurd (ground (arith, e))
      | inl ((n, d), e) ↦
          let rest : remove_rejected_parts l k ps n (d || c) ≡ ok (next, changed) =
            ground (arith, e) in
          (
            ground (
              arith,
              removed_one l k p m n d e,
              marks_only l k ps n next (d || c) changed (intake_part_key k p.part_name) rest,
            ),
            AllRemoved-of_removed l k ps n next (d || c) changed rest,
          )
    ]

remove_again :
    (l : LtHash) (k : PartitionKey) (ps : List PartRef) (m : LocalState) (c : Bool)
    → AllRemoved k m ps
    → remove_rejected_parts l k ps m c ≡ ok (m, c)
unfolding remove_rejected_parts remove_rejected_part
remove_again l k [] m c a = refl
remove_again l k (p ∷ ps) m c a = ground (arith, a.0, no_marker, remove_again l k ps m c a.1)

check_again :
    (k : PartitionKey) (ps : List PartRef) (m next : LocalState)
    → AllRemoved k next ps
    → check_parts k m ps ≡ none
    → check_parts k next ps ≡ none
unfolding check_parts check_part recorded_differently
check_again k [] m next a h = refl
check_again k (p ∷ ps) m next a h = ground (arith, a.0, no_marker, check_again k ps m next a.1)

forget-intake :
    (k : PartitionKey) (ns : List Bytes) (m : LocalState)
    → (forget_promoted_parts k ns m).0.intake_parts ≡ m.intake_parts
unfolding forget_promoted_parts
forget-intake k ns m = ground arith

owe-fields :
    (a : CleanupAck) (m : LocalState)
    → ((owe a m).0.intake_parts ≡ m.intake_parts)
      × ((owe a m).0.promoted_unsafe_parts ≡ m.promoted_unsafe_parts)
unfolding owe
owe-fields a m = ground arith

owe-twice : (a : CleanupAck) (m : LocalState) → owe a (owe a m).0 ≡ ((owe a m).0, false)
unfolding owe
owe-twice a m =
    ground (arith, ≟_refl a, lookup-insert_self (cleanup_ack_key a) a m.owed_cleanup_acks)

AllRemoved-same :
    (k : PartitionKey) (m n : LocalState) (ps : List PartRef)
    → n.intake_parts ≡ m.intake_parts
    → AllRemoved k m ps
    → AllRemoved k n ps
AllRemoved-same k m n [] e a = tt
AllRemoved-same k m n (p ∷ ps) e a = (ground (arith, e, a.0), AllRemoved-same k m n ps e a.1)

account_again :
    (l : LtHash) (cmd : UnsafeCleanup) (m x n : LocalState) (c : Bool)
    → account_cleanup l cmd m ≡ ok (x, c)
    → n.intake_parts ≡ x.intake_parts
    → account_cleanup l cmd n ≡ ok (n, false)
unfolding account_cleanup check_rejected_parts
account_again l cmd m x n c h same = elim (Bool-cases (cmd.rejected_block_seq == 0)) [
  | inl e ↦ ground (arith, e)
  | inr e ↦
      let k = partition_of cmd in
      let checked : check_parts k m cmd.parts ≡ none = ground (arith, e) in
      let unpromoted : (cmd.promotion_seq == 0) ≡ true = ground (arith, e) in
      let removed : remove_rejected_parts l k cmd.parts m false ≡ ok (x, c) = ground (arith, e) in
      let gone_x = AllRemoved-of_removed l k cmd.parts m x false c removed in
      let gone : AllRemoved k n cmd.parts = AllRemoved-same k x n cmd.parts same gone_x in
      ground (
        arith,
        e,
        unpromoted,
        check_again k cmd.parts m n gone checked,
        remove_again l k cmd.parts n false gone,
      )
]

cleaned_again :
    (l : LtHash) (cmd : UnsafeCleanup) (a : CleanupAck) (m next : LocalState) (changed : Bool)
    → cleaned l cmd a m ≡ ok (next, changed)
    → cleaned l cmd a next ≡ ok (next, false)
unfolding cleaned
cleaned_again l cmd a m next changed h = elim (Result-cases (account_cleanup l cmd m)) [
  | inr (x, e) ↦ absurd (ground (arith, e))
  | inl ((x, c), e) ↦
      let k = partition_of cmd in
      let ns = names_of cmd.parts in
      let f = (forget_promoted_parts k ns x).0 in
      let made : next ≡ (owe a f).0 = ground (arith, e) in
      let (intake, promoted) = owe-fields a f in
      let intake' : next.intake_parts ≡ x.intake_parts =
        ground (arith, made, intake, forget-intake k ns x) in
      let promoted' : next.promoted_unsafe_parts ≡ f.promoted_unsafe_parts =
        ground (arith, made, promoted) in
      let owed : owe a next ≡ (next, false) = rw made (owe-twice a f) in
      ground
        (arith, account_again l cmd m x next c e intake', forget_again k ns x next promoted', owed)
]

persisted_memory :
    (w : WriteOutcome) (next : LocalState) (s t : Store)
    → persist_state w next s ≡ (t, none)
    → t.memory ≡ next
unfolding persist_state
persisted_memory w next s t h = ground arith

executed_state :
    (l : LtHash) (w : WriteOutcome) (cmd : UnsafeCleanup) (a : CleanupAck) (s t : Store)
    → record_executed_cleanup l w cmd a s ≡ (t, none)
    → (is_ack_of a cmd ≡ true)
      × ((next : LocalState) × ((changed : Bool) × (cleaned l cmd a s.memory ≡ ok (next, changed))
            × (t.memory ≡ next)))
unfolding record_executed_cleanup
executed_state l w cmd a s t h = elim (Result-cases (cleaned l cmd a s.memory)) [
  | inr (x, e) ↦ absurd (ground (arith, e))
  | inl ((next, true), e) ↦
      (ground (arith, e), (next, (true, e, persisted_memory w next s t (ground (arith, e)))))
  | inl ((next, false), e) ↦ (
    ground (arith, e),
    (next, (false, e, ground (arith, e, cleaned-unchanged l cmd a s.memory next false e refl))),
  )
]

-- A cleanup delivered again after RecordExecutedCleanup returned nil writes nothing: it returns nil
-- on the same store, whatever the file system would answer.
pub record_executed_cleanup-again :
    (l : LtHash) (w v : WriteOutcome) (cmd : UnsafeCleanup) (a : CleanupAck) (s t : Store)
    → record_executed_cleanup l w cmd a s ≡ (t, none)
    → record_executed_cleanup l v cmd a t ≡ (t, none)
unfolding record_executed_cleanup
record_executed_cleanup-again l w v cmd a s t h =
    let (matches, (next, (changed, e, memory))) = executed_state l w cmd a s t h in
    let again : cleaned l cmd a t.memory ≡ ok (t.memory, false) =
      rw memory (cleaned_again l cmd a s.memory next changed e) in
    rw (matches, again) refl
