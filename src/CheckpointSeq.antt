-- ===== src/CheckpointSeq.antt =====
-- The checkpoint_seq journal of member/consensus/checkpoint_seq.go: CheckpointSeqStore with its
-- file, which is the list of its entries. The mutex and the JSON text are left out; a missing file
-- is the empty list.
use arbiter_core.Base.{
  ℕ, zero, suc, Bool, true, false, Option, none, some, List, [], ◌∷◌, Bytes, ◌≟◌, list_eq, nat_eq,
  ltb, leb, ◌==◌, if◌then◌else◌, Result, ok, err, Map, lookup, insert, values, length, all, max,
  ◌+◌, ◌&&◌, ◌||◌, not, is_some, WriteOutcome,
}
pub mod Document
pub mod Ascends
pub mod Written
pub mod Examples

pub record CheckpointSeqEntry : Type 0 where
  pub owner_indexer_id : ℕ
  pub replica_signer : Bytes
  pub checkpoint_seq : ℕ

pub data SeqError : Type 0 where
  bad_entry bad_signer seq_exhausted seq_write_failed : SeqError

-- `[0-9a-f]`.
abbrev is_lower_hex : ℕ → Bool
is_lower_hex c = (leb b'0' c && leb c b'9') || (leb b'a' c && leb c b'f')

-- replicaSignerAddress, `^0x[0-9a-f]{40}$`.
unfoldable pub is_signer_address : Bytes → Bool
is_signer_address [] = false
is_signer_address (c ∷ []) = false
is_signer_address (c ∷ d ∷ digits) =
    c == b'0' && d == b'x' && length digits == 40 && all is_lower_hex digits

pub record CheckpointSeqStore : Type 0 where
  pub seqs : Map ℕ CheckpointSeqEntry
  pub file : List CheckpointSeqEntry

-- The loop of OpenCheckpointSeqStore over the owners of the file.
unfoldable pub load_entries :
    List CheckpointSeqEntry → Map ℕ CheckpointSeqEntry → Result SeqError (Map ℕ CheckpointSeqEntry)
load_entries [] seqs = ok seqs
load_entries (e ∷ entries) seqs =
    let rest = load_entries entries (insert e.owner_indexer_id e seqs) in
    if is_some (lookup e.owner_indexer_id seqs)
      || not (is_signer_address e.replica_signer)
      || e.checkpoint_seq == 0
    then err bad_entry
    else rest

unfoldable pub open_checkpoint_seq_store :
    List CheckpointSeqEntry → Result SeqError CheckpointSeqStore
open_checkpoint_seq_store file = elim (load_entries file []) [
  | err e ↦ err e
  | ok seqs ↦ ok (record { seqs = seqs; file = file })
]

-- slices.SortFunc by owner.
unfoldable pub insert_by_owner :
    CheckpointSeqEntry → List CheckpointSeqEntry → List CheckpointSeqEntry
insert_by_owner e [] = e ∷ []
insert_by_owner e (d ∷ entries) =
    if leb e.owner_indexer_id d.owner_indexer_id
    then e ∷ d ∷ entries
    else d ∷ insert_by_owner e entries

unfoldable pub sort_by_owner : List CheckpointSeqEntry → List CheckpointSeqEntry
sort_by_owner [] = []
sort_by_owner (e ∷ entries) = insert_by_owner e (sort_by_owner entries)

-- writeCheckpointSeqs, with the assignment of the memory that follows it.
unfoldable pub write_checkpoint_seqs :
    WriteOutcome
    → Map ℕ CheckpointSeqEntry
    → CheckpointSeqStore
    → CheckpointSeqStore × Option SeqError
write_checkpoint_seqs WriteOutcome.written seqs s =
    (record { seqs = seqs; file = sort_by_owner (values seqs) }, none)
write_checkpoint_seqs WriteOutcome.unwritten seqs s = (s, some seq_write_failed)
write_checkpoint_seqs WriteOutcome.unsynced seqs s =
    (record s { file = sort_by_owner (values seqs) }, some seq_write_failed)

-- The journal's value of the owner under the signer, 0 under another one or without an entry.
unfoldable pub journal_seq : Map ℕ CheckpointSeqEntry → ℕ → Bytes → ℕ
journal_seq seqs owner signer = elim (lookup owner seqs) [
  | none ↦ 0
  | some e ↦ if e.replica_signer ≟ signer then e.checkpoint_seq else 0
]

abbrev pub max_u64 : ℕ
max_u64 = 18446744073709551615

abbrev pub seq_answer :
    ℕ → CheckpointSeqStore × Option SeqError → CheckpointSeqStore × Result SeqError ℕ
seq_answer n (s, none) = (s, ok n)
seq_answer n (s, some e) = (s, err e)

unfoldable pub next_checkpoint_seq :
    WriteOutcome → ℕ → Bytes → ℕ → CheckpointSeqStore → CheckpointSeqStore × Result SeqError ℕ
next_checkpoint_seq w owner signer published s =
    let last = max published (journal_seq s.seqs owner signer) in
    let next : CheckpointSeqEntry = record {
      owner_indexer_id = owner;
      replica_signer = signer;
      checkpoint_seq = last + 1;
    } in
    if not (is_signer_address signer)
    then (s, err bad_signer)
    else if last == max_u64
    then (s, err seq_exhausted)
    else seq_answer (last + 1) (write_checkpoint_seqs w (insert owner next s.seqs) s)
