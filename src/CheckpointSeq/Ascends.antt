-- ===== src/CheckpointSeq/Ascends.antt =====
-- Next of member/consensus/checkpoint_seq.go over histories with failed writes and restarts.
use arbiter_core.CheckpointSeq.{
  CheckpointSeqEntry, CheckpointSeqStore, SeqError, load_entries, open_checkpoint_seq_store,
  sort_by_owner, write_checkpoint_seqs, journal_seq, next_checkpoint_seq, is_signer_address,
  max_u64, seq_answer,
}
use arbiter_core.CheckpointSeq.Document.{
  IsJournal, insert-IsJournal, load_entries-sort_by_owner, load_entries-IsJournal, nil-IsJournal,
}
use arbiter_core.Base.{
  ℕ, Bool, true, false, List, [], ◌∷◌, arith, list_eq, nat_eq, ◌≟◌, ≟_iff, Map, Above, Bytes,
  Result, WriteOutcome, err, insert, ok, ◌≡◌, ◌≤◌, if◌then◌else◌, values, lookup-insert, max, ◌<◌,
  ◌+◌, Bool-cases, inr, inl, ◌==◌, Result-cases,
}

-- The file of the store opens, and its journal agrees with a map at an owner and signer.
record IsFile (file : List CheckpointSeqEntry) (owner : ℕ) (signer : Bytes) (lo : ℕ) : Type 0 where
  loaded : Map ℕ CheckpointSeqEntry
  opens : load_entries file [] ≡ ok loaded
  is_journal : IsJournal loaded
  at_least : lo ≤ journal_seq loaded owner signer

-- Memory and file are journals that have reached `lo` for the owner under the signer.
record IsAbove (owner : ℕ) (signer : Bytes) (lo : ℕ) (s : CheckpointSeqStore) : Type 0 where
  memory : IsJournal s.seqs
  reached : lo ≤ journal_seq s.seqs owner signer
  file : IsFile s.file owner signer lo

IsFile-sort_by_owner :
    (m : Map ℕ CheckpointSeqEntry) (owner : ℕ) (signer : Bytes) (lo : ℕ)
    → IsJournal m
    → lo ≤ journal_seq m owner signer
    → IsFile (sort_by_owner (values m)) owner signer lo
unfolding journal_seq
IsFile-sort_by_owner m owner signer lo j h =
    let (n, p, q) = load_entries-sort_by_owner m j in
    record {
      loaded = n;
      opens = p;
      is_journal = load_entries-IsJournal (sort_by_owner (values m)) [] n nil-IsJournal p;
      at_least = rw (q owner, journal_seq) h;
    }

-- What Next writes for any owner keeps what was reached; for the owner itself it reaches the new
-- number.
pub journal_seq-insert :
    (e : CheckpointSeqEntry) (m : Map ℕ CheckpointSeqEntry) (owner : ℕ) (signer : Bytes)
    → journal_seq (insert e.owner_indexer_id e m) owner signer ≡ (
        if e.owner_indexer_id ≟ owner
        then (if e.replica_signer ≟ signer then e.checkpoint_seq else 0)
        else journal_seq m owner signer)
unfolding journal_seq
journal_seq-insert e m owner signer = ground (arith, lookup-insert e.owner_indexer_id owner e m)

lower :
    (owner : ℕ) (signer : Bytes) (lo hi : ℕ) (s : CheckpointSeqStore)
    → lo ≤ hi
    → IsAbove owner signer hi s
    → IsAbove owner signer lo s
lower owner signer lo hi s h a = record {
  memory = a.memory;
  reached = omega (arith, a.reached, h);
  file = record {
    loaded = a.file.loaded;
    opens = a.file.opens;
    is_journal = a.file.is_journal;
    at_least = omega (arith, a.file.at_least, h);
  };
}

written-IsAbove :
    (w : WriteOutcome) (m : Map ℕ CheckpointSeqEntry) (owner : ℕ) (signer : Bytes) (lo : ℕ)
    → (s : CheckpointSeqStore) → IsJournal m
    → lo ≤ journal_seq m owner signer
    → IsAbove owner signer lo s
    → IsAbove owner signer lo (write_checkpoint_seqs w m s).0
unfolding write_checkpoint_seqs
written-IsAbove WriteOutcome.written m owner signer lo s j h a = record {
  memory = j;
  reached = h;
  file = IsFile-sort_by_owner m owner signer lo j h;
}
written-IsAbove WriteOutcome.unwritten m owner signer lo s j h a = a
written-IsAbove WriteOutcome.unsynced m owner signer lo s j h a = record {
  memory = a.memory;
  reached = a.reached;
  file = IsFile-sort_by_owner m owner signer lo j h;
}

-- A call of Next with what the file system answers, or a restart, which opens the file again.
pub data SeqEvent : Type 0 where
  call : WriteOutcome → ℕ → Bytes → ℕ → SeqEvent
  restart : SeqEvent

unfoldable pub reopened : CheckpointSeqStore → CheckpointSeqStore
reopened s = elim (open_checkpoint_seq_store s.file) [ err e ↦ s | ok t ↦ t ]

abbrev listed : Bool → Result SeqError ℕ → List ℕ → List ℕ
listed true (ok n) ns = n ∷ ns
listed true (err e) ns = ns
listed false a ns = ns

-- The numbers that a history returned for the owner, in order.
unfoldable pub signed_seqs : ℕ → List SeqEvent → CheckpointSeqStore → List ℕ
signed_seqs owner [] s = []
signed_seqs owner (call w o signer published ∷ es) s =
    let a = next_checkpoint_seq w o signer published s in
    listed (o ≟ owner) a.1 (signed_seqs owner es a.0)
signed_seqs owner (restart ∷ es) s = signed_seqs owner es (reopened s)

-- Every call for the owner is under the signer.
abbrev pub Signs : ℕ → Bytes → List SeqEvent → Type 0
Signs owner signer [] = Unit
Signs owner signer (call w o sg published ∷ es) = (o ≡ owner → sg ≡ signer) × Signs owner signer es
Signs owner signer (restart ∷ es) = Signs owner signer es

-- What a call of Next keeps, and what it returns.
record IsNext (owner : ℕ) (signer : Bytes) (lo o : ℕ) (a : CheckpointSeqStore × Result SeqError ℕ)
    : Type 0 where
  keeps : IsAbove owner signer lo a.0
  ascends : (n : ℕ) → (o ≟ owner) ≡ true → a.1 ≡ ok n → (lo < n) × IsAbove owner signer n a.0

IsNext-err :
    (owner : ℕ) (signer : Bytes) (lo o : ℕ) (s : CheckpointSeqStore) (e : SeqError)
    → IsAbove owner signer lo s
    → IsNext owner signer lo o (s, err e)
IsNext-err owner signer lo o s e a = record { keeps = a; ascends = λ n h k. absurd cc }

written-IsNext :
    (w : WriteOutcome) (owner : ℕ) (signer : Bytes) (lo o : ℕ) (n : ℕ)
    → (m : Map ℕ CheckpointSeqEntry) (s : CheckpointSeqStore) → IsJournal m
    → lo ≤ journal_seq m owner signer
    → ((o ≟ owner) ≡ true → (lo < n) × (journal_seq m owner signer ≡ n))
    → IsAbove owner signer lo s
    → IsNext owner signer lo o (seq_answer n (write_checkpoint_seqs w m s))
unfolding write_checkpoint_seqs
written-IsNext WriteOutcome.written owner signer lo o n m s j h k a = record {
  keeps = record { memory = j; reached = h; file = IsFile-sort_by_owner m owner signer lo j h };
  ascends = λ q p e.
      let same : n ≡ q = ground (arith, e) in
      let now : q ≤ journal_seq m owner signer = omega (arith, (k p).1, same) in
      (
        omega (arith, (k p).0, same),
        record { memory = j; reached = now; file = IsFile-sort_by_owner m owner signer q j now },
      );
}
written-IsNext WriteOutcome.unwritten owner signer lo o n m s j h k a =
    IsNext-err owner signer lo o s _ a
written-IsNext WriteOutcome.unsynced owner signer lo o n m s j h k a =
    IsNext-err owner signer lo o _ _
      (written-IsAbove WriteOutcome.unsynced m owner signer lo s j h a)

above_last :
    (owner : ℕ) (signer : Bytes) (lo o : ℕ) (sg : Bytes) (published : ℕ)
    → (m : Map ℕ CheckpointSeqEntry) → (o ≡ owner → sg ≡ signer)
    → (o ≟ owner) ≡ true
    → lo ≤ journal_seq m owner signer
    → (lo ≤ max published (journal_seq m o sg)) × ((sg ≟ signer) ≡ true)
above_last owner signer lo o sg published m same e h =
    let p = (≟_iff o owner).0 e in
    let q = same p in (rw (p, q) (omega (arith, h)), (≟_iff sg signer).1 q)

next_checkpoint_seq-IsNext :
    (w : WriteOutcome) (owner : ℕ) (signer : Bytes) (lo o : ℕ) (sg : Bytes) (published : ℕ)
    → (s : CheckpointSeqStore) → (o ≡ owner → sg ≡ signer)
    → IsAbove owner signer lo s
    → IsNext owner signer lo o (next_checkpoint_seq w o sg published s)
unfolding next_checkpoint_seq
next_checkpoint_seq-IsNext w owner signer lo o sg published s same a =
    let last = max published (journal_seq s.seqs o sg) in
    let next : CheckpointSeqEntry = record {
      owner_indexer_id = o;
      replica_signer = sg;
      checkpoint_seq = last + 1;
    } in
    elim (Bool-cases (is_signer_address sg)) [
      | inr e ↦ rw (e, next_checkpoint_seq) (IsNext-err owner signer lo o s _ a)
      | inl e ↦ elim (Bool-cases (last == max_u64)) [
        | inl f ↦ rw (e, f, next_checkpoint_seq) (IsNext-err owner signer lo o s _ a)
        | inr f ↦
            let read = journal_seq-insert next s.seqs owner signer in
            rw (e, f, next_checkpoint_seq)
              (written-IsNext w owner signer lo o (last + 1) (insert o next s.seqs) s
                (insert-IsJournal next s.seqs (e, omega arith) a.memory)
                (elim (Bool-cases (o ≟ owner)) [
                  | inl p ↦
                      let up = above_last owner signer lo o sg published s.seqs same p a.reached in
                      ground (arith, read, p, up)
                  | inr p ↦ ground (arith, read, p, a.reached)
                ])
                (λ p.
                  let up = above_last owner signer lo o sg published s.seqs same p a.reached in
                  (omega (arith, up.0), ground (arith, read, p, up)))
                a)
      ]
    ]

reopened-IsAbove :
    (owner : ℕ) (signer : Bytes) (lo : ℕ) (s : CheckpointSeqStore)
    → IsAbove owner signer lo s
    → IsAbove owner signer lo (reopened s)
unfolding reopened open_checkpoint_seq_store
reopened-IsAbove owner signer lo s a =
    rw (a.file.opens, reopened, open_checkpoint_seq_store)
      record { memory = a.file.is_journal; reached = a.file.at_least; file = a.file }

signed_seqs-Above_from :
    (owner : ℕ) (signer : Bytes) (lo : ℕ) (es : List SeqEvent) (s : CheckpointSeqStore)
    → Signs owner signer es
    → IsAbove owner signer lo s
    → Above lo (signed_seqs owner es s)
unfolding signed_seqs
signed_seqs-Above_from owner signer lo [] s g a = tt
signed_seqs-Above_from owner signer lo (restart ∷ es) s g a =
    signed_seqs-Above_from owner signer lo es (reopened s) g (reopened-IsAbove owner signer lo s a)
signed_seqs-Above_from owner signer lo (call w o sg published ∷ es) s g a =
    let i = next_checkpoint_seq-IsNext w owner signer lo o sg published s g.0 a in
    let t = next_checkpoint_seq w o sg published s in
    elim (Bool-cases (o ≟ owner)) [
      | inr p ↦ rw (p, signed_seqs) (signed_seqs-Above_from owner signer lo es t.0 g.1 i.keeps)
      | inl p ↦ elim (Result-cases t.1) [
        | inr (x, e) ↦
            rw (p, e, signed_seqs) (signed_seqs-Above_from owner signer lo es t.0 g.1 i.keeps)
        | inl (n, e) ↦
            let up = i.ascends n p e in
            rw (p, e, signed_seqs) (up.0, signed_seqs-Above_from owner signer n es t.0 g.1 up.1)
      ]
    ]

-- No checkpoint number is signed twice: from the journal that any file opens to, over any history
-- of calls for all owners, whose writes may fail before or after the rename, and of restarts, the
-- numbers returned for an owner whose calls are all under one signer strictly ascend, above the
-- number that the file holds under that signer.
pub signed_seqs-Above :
    (owner : ℕ) (signer : Bytes) (es : List SeqEvent) (file : List CheckpointSeqEntry)
    → (s : CheckpointSeqStore) → open_checkpoint_seq_store file ≡ ok s
    → Signs owner signer es
    → Above (journal_seq s.seqs owner signer) (signed_seqs owner es s)
unfolding open_checkpoint_seq_store
signed_seqs-Above owner signer es file s h g = elim (Result-cases (load_entries file [])) [
  | inr (x, e) ↦ absurd (ground (arith, h, e))
  | inl (m, e) ↦
      let same : (s.seqs ≡ m) × (s.file ≡ file) = ground (arith, h, e) in
      let j = load_entries-IsJournal file [] m nil-IsJournal e in
      signed_seqs-Above_from owner signer (journal_seq s.seqs owner signer) es s g record {
        memory = rw (same.0) j;
        reached = omega arith;
        file =
            rw (same.1) record {
              loaded = m;
              opens = e;
              is_journal = j;
              at_least = rw (same.0) (omega arith);
            };
      }
]
