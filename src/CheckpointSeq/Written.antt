-- ===== src/CheckpointSeq/Written.antt =====
-- What a successful Next of member/consensus/checkpoint_seq.go leaves in the file.
use arbiter_core.CheckpointSeq.{
  CheckpointSeqEntry, CheckpointSeqStore, load_entries, open_checkpoint_seq_store, sort_by_owner,
  write_checkpoint_seqs, journal_seq, next_checkpoint_seq, is_signer_address, seq_answer,
}
use arbiter_core.CheckpointSeq.Document.{IsJournal, insert-IsJournal, load_entries-sort_by_owner}
use arbiter_core.CheckpointSeq.Ascends.{journal_seq-insert}
use arbiter_core.Base.{
  ℕ, true, List, [], arith, list_eq, nat_eq, ≟_refl, Map, WriteOutcome, Bytes, ◌≡◌, ok, values, ◌<◌,
  lookup, max, ◌+◌, insert,
}

write_checkpoint_seqs-ok :
    (w : WriteOutcome) (k n : ℕ) (m : Map ℕ CheckpointSeqEntry) (s t : CheckpointSeqStore)
    → seq_answer k (write_checkpoint_seqs w m s) ≡ (t, ok n)
    → (n ≡ k) × (t.seqs ≡ m) × (t.file ≡ sort_by_owner (values m))
unfolding write_checkpoint_seqs
write_checkpoint_seqs-ok WriteOutcome.written k n m s t h = ground (arith, h)
write_checkpoint_seqs-ok WriteOutcome.unwritten k n m s t h = absurd (ground (arith, h))
write_checkpoint_seqs-ok WriteOutcome.unsynced k n m s t h = absurd (ground (arith, h))

opens :
    (file : List CheckpointSeqEntry) (m : Map ℕ CheckpointSeqEntry)
    → load_entries file [] ≡ ok m
    → open_checkpoint_seq_store file ≡ ok (record { seqs = m; file = file })
unfolding open_checkpoint_seq_store
opens file m e = ground (arith, e)

-- What a successful Next wrote, OpenCheckpointSeqStore reads: the file opens, and to a journal
-- with the same entry of every owner as the memory, which holds the returned number, above the
-- published one, for the owner under the signer.
pub next_checkpoint_seq-open :
    (w : WriteOutcome) (owner : ℕ) (signer : Bytes) (published n : ℕ) (s t : CheckpointSeqStore)
    → IsJournal s.seqs
    → next_checkpoint_seq w owner signer published s ≡ (t, ok n)
    → (published < n)
      × (journal_seq t.seqs owner signer ≡ n)
      × ((u : CheckpointSeqStore) × (open_checkpoint_seq_store t.file ≡ ok u)
          × ((o : ℕ) → lookup o u.seqs ≡ lookup o t.seqs))
unfolding next_checkpoint_seq
next_checkpoint_seq-open w owner signer published n s t j h =
    let last = max published (journal_seq s.seqs owner signer) in
    let next : CheckpointSeqEntry = record {
      owner_indexer_id = owner;
      replica_signer = signer;
      checkpoint_seq = last + 1;
    } in
    let signed : is_signer_address signer ≡ true = ground (arith, h) in
    let wrote =
      write_checkpoint_seqs-ok w (last + 1) n (insert owner next s.seqs) s t (ground (arith, h)) in
    let (m, p, q) =
      load_entries-sort_by_owner (insert owner next s.seqs)
        (insert-IsJournal next s.seqs (signed, omega arith) j) in
    (
      omega (arith, wrote.0),
      ground
          (arith, wrote, journal_seq-insert next s.seqs owner signer, ≟_refl owner, ≟_refl signer),
      (
        record { seqs = m; file = t.file },
        opens t.file m (rw (wrote.2) p),
        λ o. rw (wrote.1) (q o),
      ),
    )
