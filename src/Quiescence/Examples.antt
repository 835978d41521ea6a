-- ===== src/Quiescence/Examples.antt =====
-- Runs of member/consensus/quiescence.go, and the theorems at concrete inputs.
use arbiter_core.Quiescence.{
  QuiescentTable, QuiescenceBlock, QuiescenceFile, QuiescenceError, Quiescence, tables_of, observe,
}
use arbiter_core.Quiescence.Resolve.{
  Pending, finish_resolve, begin_resolve, resolved_blocks, BlockVerification,
}
use arbiter_core.Quiescence.Reading.{quiet, is_table, check_blocks, read_quiescence}
use arbiter_core.Quiescence.Ledger.{InStep, IsObserved, observe-IsObserved}
use arbiter_core.Quiescence.Resolving.{IsResolved, finish_resolve-IsResolved}
use arbiter_core.Quiescence.Reobserved.{ObserveCall, after_observes, finish_resolve-observed}
use arbiter_core.Base.{
  insert, contains, list_cmp, sort, compact, list_beq, ℕ, refl, true, Option, none, some, List, [],
  ◌∷◌, WriteOutcome, arith, nat_eq, All, lookup, ◌≡◌, ◌<◌,
}

abbrev orders : QuiescentTable
orders = record { table_id = b'o' ∷ []; incarnation_seq = 1 }

abbrev users : QuiescentTable
users = record { table_id = b'u' ∷ []; incarnation_seq = 2 }

abbrev one_block : List QuiescenceBlock
one_block = record { block_seq = 5; tables = orders ∷ [] } ∷ []

abbrev ledger : Quiescence
ledger = record {
  blocks = one_block;
  observations = (5, 0) ∷ [];
  allocated = 1;
  file = some (record { version = 1; blocks = some one_block });
}

ledger-InStep : InStep ledger
unfolding check_blocks arbiter_core.Quiescence.Reading.check_tables is_table
    arbiter_core.Quiescence.Reading.is_blank_from arbiter_core.Quiescence.Reading.blank_step
    read_quiescence
ledger-InStep = record { accepted = refl; read = refl }

two_tables : All (λ t. is_table t ≡ true) (users ∷ orders ∷ [])
unfolding is_table arbiter_core.Quiescence.Reading.is_blank_from
    arbiter_core.Quiescence.Reading.blank_step
two_tables = (refl, (refl, tt))

observe-IsObserved_example :
    IsObserved 5
      (users ∷ orders ∷ [])
      ledger
      (observe WriteOutcome.written 5 (users ∷ orders ∷ []) ledger)
observe-IsObserved_example =
    observe-IsObserved WriteOutcome.written 5 (users ∷ orders ∷ []) ledger ledger-InStep two_tables

-- Observing sorts and merges the tables.
observed_tables :
    tables_of 5 (observe WriteOutcome.written 5 (users ∷ orders ∷ []) ledger).0.blocks
    ≡ some (orders ∷ users ∷ [])
unfolding observe tables_of arbiter_core.Quiescence.observe_found list_beq
    arbiter_core.Quiescence.merge_tables compact sort list_cmp arbiter_core.Quiescence.table_beq
    arbiter_core.Quiescence.write_quiescence arbiter_core.Quiescence.note_observation
    arbiter_core.Quiescence.put_tables
observed_tables = refl

-- The arbiter latched the verdict of every block.
abbrev latched : ℕ → Option BlockVerification
latched seq = some (record { verdict_evaluated = true; verifier_set = [] })

resolves_block : resolved_blocks latched [] (5 ∷ []) ≡ 5 ∷ []
unfolding resolved_blocks
resolves_block = refl

resolve_drops :
    (finish_resolve WriteOutcome.written (begin_resolve ledger) (5 ∷ []) ledger).0.blocks ≡ []
unfolding finish_resolve arbiter_core.Quiescence.write_quiescence
    arbiter_core.Quiescence.Resolve.is_dropped contains lookup begin_resolve
    arbiter_core.Quiescence.Resolve.observed_of insert
resolve_drops = refl

finish_resolve-IsResolved_example :
    IsResolved
      (begin_resolve ledger)
      (5 ∷ [])
      ledger
      (finish_resolve WriteOutcome.written (begin_resolve ledger) (5 ∷ []) ledger)
finish_resolve-IsResolved_example =
    finish_resolve-IsResolved WriteOutcome.written (begin_resolve ledger) (5 ∷ []) ledger

allocated_observations : (n token : ℕ) → lookup n ledger.observations ≡ some token → token < 1
unfolding lookup
allocated_observations n token h = ground (arith, h)

abbrev other_call : List ObserveCall
other_call = record { outcome = WriteOutcome.written; block_seq = 6; tables = users ∷ [] } ∷ []

-- The identical redelivery during Resolve.
redelivered :
    (observe WriteOutcome.written 5 (orders ∷ []) (after_observes other_call ledger)).1 ≡ none
unfolding observe arbiter_core.Quiescence.observe_found tables_of after_observes
    arbiter_core.Quiescence.write_quiescence arbiter_core.Quiescence.note_observation
    arbiter_core.Quiescence.put_tables list_beq arbiter_core.Quiescence.merge_tables compact sort
    list_cmp arbiter_core.Quiescence.table_beq
redelivered = refl

abbrev redelivered_ledger : Quiescence
redelivered_ledger =
    after_observes []
      (observe WriteOutcome.written 5 (orders ∷ []) (after_observes other_call ledger)).0

finished :
    (finish_resolve WriteOutcome.written (begin_resolve ledger) (5 ∷ []) redelivered_ledger).1
    ≡ none
unfolding observe finish_resolve arbiter_core.Quiescence.write_quiescence
finished = refl

finish_resolve-observed_example :
    tables_of 5
      (finish_resolve WriteOutcome.written
        (begin_resolve ledger)
        (5 ∷ [])
        redelivered_ledger).0.blocks
    ≡ tables_of 5 redelivered_ledger.blocks
finish_resolve-observed_example =
    finish_resolve-observed WriteOutcome.written WriteOutcome.written 5 (orders ∷ []) (5 ∷ [])
      other_call [] ledger allocated_observations (omega arith) redelivered finished
