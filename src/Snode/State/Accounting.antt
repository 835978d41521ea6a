-- ===== src/Snode/State/Accounting.antt =====
-- The unpromoted sums of snode/state.go, for a hash that adds and subtracts as a group.
use arbiter_core.Snode.State.{PartitionKey, Store, intake_part_key, key, persist_state}
use arbiter_core.Snode.State.Promotions.{unpromoted_sum}
use arbiter_core.Snode.State.Intake.{
  added_sum, removed_sum, add_unpromoted_part, remove_unpromoted_part, persist_in_place,
  take_out_part, with_intake, with_sum,
}
use arbiter_core.Snode.LtHash.{
  LtHash, IsLtHash, parse_accumulator_hex, accumulator_hex, parse-accumulator_hex,
}
use arbiter_core.Base.{
  ◌≡◌, ◌≢◌, none, some, [], Bytes, ≟_iff, ≟_refl, list_eq, nat_eq, arith, lookup, WriteOutcome,
  Option-cases, inl, inr, lookup-insert_self, get_or-insert,
}

module _ (l : LtHash) (laws : IsLtHash l) where
  open l use {Hash, add_hash, sub_hash}

  -- Taking a part out of the sum that it was added to gives back the accumulator before.
  removed-added_sum :
      (stored part sum : Bytes)
      → added_sum l stored part ≡ some sum
      → (acc : Hash) × (parse_accumulator_hex l stored ≡ some acc)
        × (removed_sum l sum part ≡ some (accumulator_hex l acc))
  unfolding added_sum removed_sum
  removed-added_sum stored part sum h = elim (Option-cases (parse_accumulator_hex l stored)) [
    | inl e ↦ absurd (ground arith)
    | inr (acc, e) ↦ elim (Option-cases (parse_accumulator_hex l part)) [
      | inl f ↦ absurd (ground arith)
      | inr (x, f) ↦ (
        acc,
        e,
        ground (arith, parse-accumulator_hex l laws (add_hash acc x), laws.sub_add acc x),
      )
    ]
  ]

  added_state :
      (w : WriteOutcome) (k : PartitionKey) (name hash : Bytes) (s t : Store)
      → lookup (intake_part_key k name) s.memory.intake_parts ≡ none
      → add_unpromoted_part l w k name hash s ≡ (t, none)
      → (sum : Bytes) × (added_sum l (unpromoted_sum s k) hash ≡ some sum)
        × (t.memory ≡ with_intake (intake_part_key k name) hash (with_sum (key k) sum s.memory))
  unfolding add_unpromoted_part persist_in_place persist_state unpromoted_sum
  added_state w k name hash s t fresh h =
      elim (Option-cases (added_sum l (unpromoted_sum s k) hash)) [
        | inl e ↦ absurd (ground arith)
        | inr (sum, e) ↦ (sum, e, ground arith)
      ]

  removed_state :
      (w : WriteOutcome) (k : PartitionKey) (name hash : Bytes) (s t : Store)
      → hash ≢ []
      → lookup (intake_part_key k name) s.memory.intake_parts ≡ some hash
      → remove_unpromoted_part l w k name hash s ≡ (t, none)
      → (sum : Bytes) × (removed_sum l (unpromoted_sum s k) hash ≡ some sum)
        × (t.memory ≡ with_intake (intake_part_key k name) [] (with_sum (key k) sum s.memory))
  unfolding remove_unpromoted_part take_out_part persist_in_place persist_state unpromoted_sum
  removed_state w k name hash s t ne recorded h =
      elim (Option-cases (removed_sum l (unpromoted_sum s k) hash)) [
        | inl e ↦ absurd (ground (arith, ≟_iff hash []))
        | inr (sum, e) ↦ (sum, e, ground (arith, ≟_iff hash []))
      ]

  -- A part that intake records and then removes leaves the partition's sum at the accumulator it
  -- had, printed, and the removed marker at the part; recording it again under the same hash in
  -- between changes nothing, whatever the file system answers.
  pub add-remove_unpromoted_part :
      (u v w : WriteOutcome) (k : PartitionKey) (name hash : Bytes) (s t r : Store)
      → hash ≢ []
      → lookup (intake_part_key k name) s.memory.intake_parts ≡ none
      → add_unpromoted_part l u k name hash s ≡ (t, none)
      → remove_unpromoted_part l v k name hash t ≡ (r, none)
      → (add_unpromoted_part l w k name hash t ≡ (t, none))
        × ((acc : Hash) × (parse_accumulator_hex l (unpromoted_sum s k) ≡ some acc)
            × (unpromoted_sum r k ≡ accumulator_hex l acc)
            × (lookup (intake_part_key k name) r.memory.intake_parts ≡ some []))
  unfolding unpromoted_sum add_unpromoted_part
  add-remove_unpromoted_part u v w k name hash s t r ne fresh added removed =
      let (sum, es, et) = added_state u k name hash s t fresh added in
      let recorded : lookup (intake_part_key k name) t.memory.intake_parts ≡ some hash =
        ground
          (arith, et, lookup-insert_self (intake_part_key k name) hash s.memory.intake_parts) in
      let stored : unpromoted_sum t k ≡ sum = ground (
        arith,
        et,
        ≟_refl (key k),
        get_or-insert [] (key k) (key k) sum s.memory.unpromoted_sums,
      ) in
      let (rest, er, em) = removed_state v k name hash t r ne recorded removed in
      let (acc, ea, back) = removed-added_sum (unpromoted_sum s k) hash sum es in
      (
        ground (arith, recorded, ≟_refl hash),
        (
          acc,
          ea,
          ground (
            arith,
            em,
            er,
            back,
            stored,
            ≟_refl (key k),
            get_or-insert [] (key k) (key k) rest t.memory.unpromoted_sums,
          ),
          ground (arith, em, lookup-insert_self (intake_part_key k name) [] t.memory.intake_parts),
        ),
      )
