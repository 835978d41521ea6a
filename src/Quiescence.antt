-- ===== src/Quiescence.antt =====
-- The quiescence ledger of member/consensus/quiescence.go: the blocks that the member may still be
-- asked about, with the tables they name. The mutex, the JSON text and the context are left out.
use arbiter_core.Base.{
  ℕ, zero, suc, Bool, true, false, Option, none, some, List, [], ◌∷◌, ◌++◌, Bytes, ◌≟◌, list_eq,
  nat_eq, list_ord, nat_ord, Eq, Ord, two_keys, ltb, leb, ◌==◌, if◌then◌else◌, Result, ok, err, Map,
  lookup, insert, delete, map, length, keep_if, contains, sort, compact, ◌+◌, ◌&&◌, ◌||◌, not,
  WriteOutcome, ≟_iff, arith, ◌≡◌, ◌↔◌, is_less,
}
pub mod Resolve
pub mod Reading
pub mod Ledger
pub mod Resolving
pub mod Reobserved
pub mod Examples

pub record QuiescentTable : Type 0 where
  pub table_id : Bytes
  pub incarnation_seq : ℕ

unfoldable pub table_beq : QuiescentTable → QuiescentTable → Bool
table_beq a b = (a.table_id ≟ b.table_id) && a.incarnation_seq == b.incarnation_seq

pub table_beq_iff : (a b : QuiescentTable) → (table_beq a b ≡ true) ↔ (a ≡ b)
unfolding table_beq
table_beq_iff a b = ground (arith, ≟_iff a.table_id b.table_id)

instance abbrev pub table_eq : Eq QuiescentTable
table_eq = record { beq = table_beq; beq_iff = table_beq_iff }

pub tables_apart :
    (a b : QuiescentTable) → a.table_id ≡ b.table_id → a.incarnation_seq ≡ b.incarnation_seq → a ≡ b
tables_apart a b p q = ground (arith, p, q)

-- By table id, then by incarnation.
instance abbrev pub table_ord : Ord QuiescentTable
table_ord = two_keys list_ord nat_ord (λ t. t.table_id) (λ t. t.incarnation_seq) tables_apart

pub record QuiescenceBlock : Type 0 where
  pub block_seq : ℕ
  pub tables : List QuiescentTable

-- quiescence.json; `none` is a document without blocks.
pub record QuiescenceFile : Type 0 where
  pub version : ℕ
  pub blocks : Option (List QuiescenceBlock)

abbrev pub quiescence_version : ℕ
quiescence_version = 1

pub data QuiescenceError : Type 0 where
  no_block_seq quiescence_write_failed bad_version missing_blocks : QuiescenceError
  bad_block bad_table unordered_tables : QuiescenceError

-- Quiescence with the file, `none` when it is missing. An observation's address is a number, and
-- `allocated` the numbers given out.
pub record Quiescence : Type 0 where
  pub blocks : List QuiescenceBlock
  pub observations : Map ℕ ℕ
  pub allocated : ℕ
  pub file : Option QuiescenceFile

unfoldable pub merge_tables : List QuiescentTable → List QuiescentTable → List QuiescentTable
merge_tables a b = compact (sort (a ++ b))

-- What the binary search finds in blocks that ascend: the block of the number.
unfoldable pub tables_of : ℕ → List QuiescenceBlock → Option (List QuiescentTable)
tables_of seq [] = none
tables_of seq (b ∷ blocks) = if b.block_seq == seq then some b.tables else tables_of seq blocks

-- The tables of the block set, the block inserted at its place when it is new.
unfoldable pub put_tables : ℕ → List QuiescentTable → List QuiescenceBlock → List QuiescenceBlock
put_tables seq tables [] = record { block_seq = seq; tables = tables } ∷ []
put_tables seq tables (b ∷ blocks) =
    let new : QuiescenceBlock = record { block_seq = seq; tables = tables } in
    let rest = put_tables seq tables blocks in
    if ltb b.block_seq seq
    then b ∷ rest
    else if b.block_seq == seq
    then new ∷ blocks
    else new ∷ b ∷ blocks

-- writeQuiescence, with the assignment of the memory that follows a success.
unfoldable pub write_quiescence :
    WriteOutcome → List QuiescenceBlock → Quiescence → Quiescence × Option QuiescenceError
write_quiescence WriteOutcome.written next q = (
  record q {
    blocks = next;
    file = some (record { version = quiescence_version; blocks = some next });
  },
  none,
)
write_quiescence WriteOutcome.unwritten next q = (q, some quiescence_write_failed)
write_quiescence WriteOutcome.unsynced next q = (
  record q { file = some (record { version = quiescence_version; blocks = some next }) },
  some quiescence_write_failed,
)

-- `q.observations[blockSeq] = &quiescenceObservation{}`.
unfoldable pub note_observation : ℕ → Quiescence → Quiescence
note_observation seq q = record q {
  observations = insert seq q.allocated q.observations;
  allocated = q.allocated + 1;
}

abbrev pub noted : ℕ → Quiescence × Option QuiescenceError → Quiescence × Option QuiescenceError
noted seq (q, none) = (note_observation seq q, none)
noted seq (q, some e) = (q, some e)

-- Observe, from the found tables on.
unfoldable pub observe_found :
    WriteOutcome
    → ℕ
    → List QuiescentTable
    → Option (List QuiescentTable)
    → Quiescence
    → Quiescence × Option QuiescenceError
observe_found w seq tables none q =
    noted seq (write_quiescence w (put_tables seq (merge_tables [] tables) q.blocks) q)
observe_found w seq tables (some old) q =
    if merge_tables old tables ≟ old
    then (note_observation seq q, none)
    else noted seq (write_quiescence w (put_tables seq (merge_tables old tables) q.blocks) q)

unfoldable pub observe :
    WriteOutcome → ℕ → List QuiescentTable → Quiescence → Quiescence × Option QuiescenceError
observe w seq tables q =
    if seq == 0
    then (q, some no_block_seq)
    else if length tables == 0
    then (q, none)
    else observe_found w seq tables (tables_of seq q.blocks) q
