-- ===== src/Snode/State/Intake.antt =====
-- snode/state.go: the unpromoted sums and the intake records. These methods change the memory
-- before they persist it, so a write that fails leaves the memory changed.
use arbiter_core.Base.{
  Option, none, some, List, [], Bytes, ◌≟◌, list_eq, nat_eq, if◌then◌else◌, lookup, insert, get_or,
  WriteOutcome,
}
use arbiter_core.Snode.LtHash.{LtHash, parse_accumulator_hex, accumulator_hex}
use arbiter_core.Snode.State.{
  PartitionKey, LocalState, Store, Answer, bad_accumulator, intake_conflict, removal_mismatch, key,
  intake_part_key, persist_state,
}
use arbiter_core.Snode.State.Promotions.{drained_sum}

-- persistLocked, after the memory has been changed in place.
unfoldable pub persist_in_place : WriteOutcome → LocalState → Store → Answer
persist_in_place w m s = persist_state w m (record s { memory = m })

abbrev pub with_sum : Bytes → Bytes → LocalState → LocalState
with_sum ks sum m = record m { unpromoted_sums = insert ks sum m.unpromoted_sums }

abbrev pub with_intake : Bytes → Bytes → LocalState → LocalState
with_intake part_key hash m = record m { intake_parts = insert part_key hash m.intake_parts }

module _ (l : LtHash) where
  open l use {Hash, add_hash, sub_hash}

  abbrev combine : (Hash → Hash → Hash) → Option Hash → Option Hash → Option Bytes
  combine op none part = none
  combine op (some acc) none = none
  combine op (some acc) (some part) = some (accumulator_hex l (op acc part))

  -- The stored sum with one part more, and with one part fewer; `none` when either does not parse.
  unfoldable pub added_sum : Bytes → Bytes → Option Bytes
  added_sum stored part =
      combine add_hash (parse_accumulator_hex l stored) (parse_accumulator_hex l part)

  unfoldable pub removed_sum : Bytes → Bytes → Option Bytes
  removed_sum stored part =
      combine sub_hash (parse_accumulator_hex l stored) (parse_accumulator_hex l part)

  unfoldable pub add_unpromoted : WriteOutcome → PartitionKey → Bytes → Store → Answer
  add_unpromoted w k hash s = elim (added_sum (get_or [] (key k) s.memory.unpromoted_sums) hash) [
    | none ↦ (s, some bad_accumulator)
    | some sum ↦ persist_in_place w (with_sum (key k) sum s.memory) s
  ]

  unfoldable pub add_unpromoted_part : WriteOutcome → PartitionKey → Bytes → Bytes → Store → Answer
  add_unpromoted_part w k part_name hash s =
      elim (lookup (intake_part_key k part_name) s.memory.intake_parts) [
        | some previous ↦ if previous ≟ hash then (s, none) else (s, some intake_conflict)
        | none ↦ elim (added_sum (get_or [] (key k) s.memory.unpromoted_sums) hash) [
          | none ↦ (s, some bad_accumulator)
          | some sum ↦
              persist_in_place w
                (with_intake (intake_part_key k part_name) hash (with_sum (key k) sum s.memory)) s
        ]
      ]

  unfoldable pub take_out_part : WriteOutcome → PartitionKey → Bytes → Bytes → Store → Answer
  take_out_part w k part_name hash s =
      elim (removed_sum (get_or [] (key k) s.memory.unpromoted_sums) hash) [
        | none ↦ (s, some bad_accumulator)
        | some sum ↦
            persist_in_place w
              (with_intake (intake_part_key k part_name) [] (with_sum (key k) sum s.memory)) s
      ]

  unfoldable pub remove_unpromoted_part :
      WriteOutcome → PartitionKey → Bytes → Bytes → Store → Answer
  remove_unpromoted_part w k part_name hash s =
      elim (lookup (intake_part_key k part_name) s.memory.intake_parts) [
        | none ↦ take_out_part w k part_name hash s
        | some previous ↦
            if previous ≟ []
            then (s, none)
            else if previous ≟ hash
            then take_out_part w k part_name hash s
            else (s, some removal_mismatch)
      ]

  unfoldable pub drain_unpromoted : WriteOutcome → PartitionKey → List Bytes → Store → Answer
  drain_unpromoted w k hashes s =
      elim (drained_sum l hashes (get_or [] (key k) s.memory.unpromoted_sums)) [
        | none ↦ (s, some bad_accumulator)
        | some sum ↦ persist_in_place w (with_sum (key k) sum s.memory) s
      ]
