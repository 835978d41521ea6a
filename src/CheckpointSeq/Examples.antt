-- ===== src/CheckpointSeq/Examples.antt =====
-- Runs of member/consensus/checkpoint_seq.go, and the theorems at concrete inputs.
use arbiter_core.CheckpointSeq.{
  CheckpointSeqEntry, CheckpointSeqStore, open_checkpoint_seq_store, next_checkpoint_seq,
  journal_seq, write_checkpoint_seqs, load_entries, is_signer_address, sort_by_owner,
  insert_by_owner,
}
use arbiter_core.CheckpointSeq.Ascends.{
  SeqEvent, call, restart, signed_seqs, signed_seqs-Above, reopened,
}
use arbiter_core.Base.{
  nat_eq, list_beq, insert, refl, List, [], ◌∷◌, Bytes, ok, Above, WriteOutcome, lookup, ◌≡◌,
}

-- `0x` and 40 digits.
abbrev signer : Bytes
signer =
    b'0' ∷ b'x' ∷ b'1' ∷ b'1' ∷ b'1' ∷ b'1' ∷ b'1' ∷ b'1' ∷ b'1' ∷ b'1' ∷ b'1' ∷ b'1' ∷ b'1' ∷ b'1'
    ∷ b'1' ∷ b'1' ∷ b'1' ∷ b'1' ∷ b'1' ∷ b'1' ∷ b'1' ∷ b'1' ∷ b'1' ∷ b'1' ∷ b'1' ∷ b'1' ∷ b'1'
    ∷ b'1' ∷ b'1' ∷ b'1' ∷ b'1' ∷ b'1' ∷ b'a' ∷ b'a' ∷ b'a' ∷ b'a' ∷ b'a' ∷ b'a' ∷ b'a' ∷ b'a'
    ∷ b'a' ∷ b'f' ∷ []

abbrev kept_file : List CheckpointSeqEntry
kept_file = record { owner_indexer_id = 4; replica_signer = signer; checkpoint_seq = 7 } ∷ []

abbrev opened : CheckpointSeqStore
opened = record {
  seqs = (4, record { owner_indexer_id = 4; replica_signer = signer; checkpoint_seq = 7 }) ∷ [];
  file = kept_file;
}

opened_lem : open_checkpoint_seq_store kept_file ≡ ok opened
unfolding open_checkpoint_seq_store load_entries lookup is_signer_address insert
opened_lem = refl

-- A failed fsync of the directory, a restart, and a success; another owner in between.
abbrev history : List SeqEvent
history =
    call WriteOutcome.unsynced 4 signer 3
    ∷ restart
    ∷ call WriteOutcome.written 2 signer 0
    ∷ call WriteOutcome.written 4 signer 3
    ∷ call WriteOutcome.written 4 signer 20
    ∷ []

history_seqs : signed_seqs 4 history opened ≡ 9 ∷ 21 ∷ []
unfolding signed_seqs next_checkpoint_seq is_signer_address journal_seq lookup list_beq
    write_checkpoint_seqs reopened open_checkpoint_seq_store load_entries sort_by_owner insert
    insert_by_owner
history_seqs = refl

signed_seqs-Above_example : Above (journal_seq opened.seqs 4 signer) (signed_seqs 4 history opened)
signed_seqs-Above_example =
    signed_seqs-Above 4 signer history kept_file opened opened_lem
      (λ p. refl, (λ p. refl, (λ p. refl, (λ p. refl, tt))))

abbrev fresh : CheckpointSeqStore
fresh = record { seqs = []; file = [] }

abbrev after_first : CheckpointSeqStore
after_first = record {
  seqs = (4, record { owner_indexer_id = 4; replica_signer = signer; checkpoint_seq = 6 }) ∷ [];
  file = record { owner_indexer_id = 4; replica_signer = signer; checkpoint_seq = 6 } ∷ [];
}

first_next : next_checkpoint_seq WriteOutcome.written 4 signer 5 fresh ≡ (after_first, ok 6)
unfolding next_checkpoint_seq is_signer_address journal_seq lookup write_checkpoint_seqs insert
    sort_by_owner insert_by_owner
first_next = refl
