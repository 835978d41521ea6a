-- ===== src/CheckpointSeq/Document.antt =====
-- The file of member/consensus/checkpoint_seq.go: what Next writes, OpenCheckpointSeqStore reads.
use arbiter_core.CheckpointSeq.{
  CheckpointSeqEntry, is_signer_address, load_entries, insert_by_owner, sort_by_owner,
}
use arbiter_core.Base.{
  ℕ, refl, true, false, Option, none, some, List, [], ◌∷◌, arith, list_eq, nat_eq, ◌≟◌, ≟_iff,
  ≟_refl, Map, All, count, if◌then◌else◌, ◌≡◌, Bool-cases, ◌<◌, ◌≤◌, leb, lookup, inl, ok, inr,
  is_some, insert, lookup-insert, keys, values,
}

abbrev pub owners : List CheckpointSeqEntry → List ℕ
owners [] = []
owners (e ∷ es) = e.owner_indexer_id ∷ owners es

unfoldable pub find_owner : ℕ → List CheckpointSeqEntry → Option CheckpointSeqEntry
find_owner o [] = none
find_owner o (e ∷ es) = if e.owner_indexer_id ≟ o then some e else find_owner o es

-- An entry that the journal accepts.
abbrev pub IsEntry : CheckpointSeqEntry → Type 0
IsEntry e = (is_signer_address e.replica_signer ≡ true) × (0 < e.checkpoint_seq)

count-insert_by_owner :
    (o : ℕ) (e : CheckpointSeqEntry) (es : List CheckpointSeqEntry)
    → count o (owners (insert_by_owner e es)) ≡ count o (e.owner_indexer_id ∷ owners es)
unfolding insert_by_owner count
count-insert_by_owner o e [] = refl
count-insert_by_owner o e (d ∷ es) = ground (arith, count-insert_by_owner o e es)

count-sort_by_owner :
    (o : ℕ) (es : List CheckpointSeqEntry)
    → count o (owners (sort_by_owner es)) ≡ count o (owners es)
unfolding sort_by_owner count
count-sort_by_owner o [] = refl
count-sort_by_owner o (e ∷ es) =
    ground (arith, count-sort_by_owner o es, count-insert_by_owner o e (sort_by_owner es))

All-insert_by_owner :
    (e : CheckpointSeqEntry) (es : List CheckpointSeqEntry)
    → IsEntry e
    → All IsEntry es
    → All IsEntry (insert_by_owner e es)
unfolding insert_by_owner
All-insert_by_owner e [] v a = (v, tt)
All-insert_by_owner e (d ∷ es) v a = elim (Bool-cases (leb e.owner_indexer_id d.owner_indexer_id)) [
  | inl p ↦ rw (p, insert_by_owner) (v, a)
  | inr p ↦ rw (p, insert_by_owner) (a.0, All-insert_by_owner e es v a.1)
]

All-sort_by_owner : (es : List CheckpointSeqEntry) → All IsEntry es → All IsEntry (sort_by_owner es)
unfolding sort_by_owner
All-sort_by_owner [] a = tt
All-sort_by_owner (e ∷ es) a =
    All-insert_by_owner e (sort_by_owner es) a.0 (All-sort_by_owner es a.1)

find_owner-insert_by_owner :
    (o : ℕ) (e : CheckpointSeqEntry) (es : List CheckpointSeqEntry)
    → count e.owner_indexer_id (owners es) ≡ 0
    → find_owner o (insert_by_owner e es)
      ≡ (if e.owner_indexer_id ≟ o then some e else find_owner o es)
unfolding insert_by_owner find_owner count
find_owner-insert_by_owner o e [] h = refl
find_owner-insert_by_owner o e (d ∷ es) h = ground (
  arith,
  ≟_iff e.owner_indexer_id o,
  ≟_iff d.owner_indexer_id o,
  find_owner-insert_by_owner o e es,
)

find_owner-sort_by_owner :
    (o : ℕ) (es : List CheckpointSeqEntry)
    → ((a : ℕ) → count a (owners es) ≤ 1)
    → find_owner o (sort_by_owner es) ≡ find_owner o es
unfolding sort_by_owner find_owner count
find_owner-sort_by_owner o [] u = refl
find_owner-sort_by_owner o (e ∷ es) u =
    let here : count e.owner_indexer_id (owners es) ≡ 0 =
      ground (arith, u e.owner_indexer_id, ≟_refl e.owner_indexer_id) in
    ground (
      arith,
      here,
      find_owner-sort_by_owner o es (λ a. ground (arith, u a)),
      count-sort_by_owner e.owner_indexer_id es,
      find_owner-insert_by_owner o e (sort_by_owner es),
    )

find_owner-none :
    (o : ℕ) (es : List CheckpointSeqEntry) → count o (owners es) ≡ 0 → find_owner o es ≡ none
unfolding find_owner count
find_owner-none o [] h = refl
find_owner-none o (e ∷ es) h = ground (arith, find_owner-none o es)

load_entries-find_owner :
    (es : List CheckpointSeqEntry) (m : Map ℕ CheckpointSeqEntry)
    → All IsEntry es
    → ((a : ℕ) → count a (owners es) ≤ 1)
    → ((a : ℕ) → 0 < count a (owners es) → lookup a m ≡ none)
    → (n : Map ℕ CheckpointSeqEntry) × (load_entries es m ≡ ok n)
      × ((o : ℕ) → lookup o n ≡ (if is_some (find_owner o es) then find_owner o es else lookup o m))
unfolding load_entries find_owner count
load_entries-find_owner [] m a u f = (m, refl, λ o. refl)
load_entries-find_owner (e ∷ es) m a u f =
    let here : count e.owner_indexer_id (owners es) ≡ 0 =
      ground (arith, u e.owner_indexer_id, ≟_refl e.owner_indexer_id) in
    let fresh : lookup e.owner_indexer_id m ≡ none =
      f e.owner_indexer_id (ground (arith, ≟_refl e.owner_indexer_id)) in
    let (n, p, q) =
      load_entries-find_owner es (insert e.owner_indexer_id e m) a.1 (λ b. ground (arith, u b))
        (λ b h. ground (
          arith,
          f b,
          h,
          here,
          ≟_iff e.owner_indexer_id b,
          lookup-insert e.owner_indexer_id b e m,
        )) in
    (
      n,
      ground (arith, p, fresh, a.0),
      λ o. ground (
        arith,
        q o,
        here,
        fresh,
        ≟_iff e.owner_indexer_id o,
        find_owner-none o es,
        lookup-insert e.owner_indexer_id o e m,
      ),
    )

-- The journal in memory: one acceptable entry for each owner, under the owner.
pub record IsJournal (m : Map ℕ CheckpointSeqEntry) : Type 0 where
  pub keyed : All (λ p. (p.1.owner_indexer_id ≡ p.0) × IsEntry p.1) m
  pub unique : (o : ℕ) → count o (keys m) ≤ 1

pub nil-IsJournal : IsJournal []
unfolding count
nil-IsJournal = record { keyed = tt; unique = λ o. omega arith }

All-insert :
    (o : ℕ) (e : CheckpointSeqEntry) (m : Map ℕ CheckpointSeqEntry)
    → (e.owner_indexer_id ≡ o) × IsEntry e
    → All (λ p. (p.1.owner_indexer_id ≡ p.0) × IsEntry p.1) m
    → All (λ p. (p.1.owner_indexer_id ≡ p.0) × IsEntry p.1) (insert o e m)
unfolding insert
All-insert o e [] v a = (v, tt)
All-insert o e ((k, d) ∷ m) v a = elim (Bool-cases (k ≟ o)) [
  | inl p ↦ rw (p, insert) (v, a.1)
  | inr p ↦ rw (p, insert) (a.0, All-insert o e m v a.1)
]

count-keys-insert_other :
    (a o : ℕ) (e : CheckpointSeqEntry) (m : Map ℕ CheckpointSeqEntry)
    → (o ≟ a) ≡ false
    → count a (keys (insert o e m)) ≡ count a (keys m)
unfolding insert count
count-keys-insert_other a o e [] h = ground (arith, h)
count-keys-insert_other a o e ((k, d) ∷ m) h =
    ground (arith, h, ≟_iff k o, ≟_iff k a, ≟_iff o a, count-keys-insert_other a o e m h)

count-keys-insert_self :
    (o : ℕ) (e : CheckpointSeqEntry) (m : Map ℕ CheckpointSeqEntry)
    → count o (keys m) ≤ 1
    → count o (keys (insert o e m)) ≡ 1
unfolding insert count
count-keys-insert_self o e [] h = ground (arith, ≟_refl o)
count-keys-insert_self o e ((k, d) ∷ m) h =
    ground (arith, h, ≟_refl o, ≟_iff k o, count-keys-insert_self o e m)

pub insert-IsJournal :
    (e : CheckpointSeqEntry) (m : Map ℕ CheckpointSeqEntry)
    → IsEntry e
    → IsJournal m
    → IsJournal (insert e.owner_indexer_id e m)
unfolding count
insert-IsJournal e m v j = record {
  keyed = All-insert e.owner_indexer_id e m (refl, v) j.keyed;
  unique = λ o. elim (Bool-cases (e.owner_indexer_id ≟ o)) [
    | inl p ↦
        let same = (≟_iff e.owner_indexer_id o).0 p in
        let one = count-keys-insert_self e.owner_indexer_id e m (j.unique e.owner_indexer_id) in
        rw (← same) (omega (arith, one))
    | inr p ↦ rw (count-keys-insert_other o e.owner_indexer_id e m p) (j.unique o)
  ];
}

owners-values :
    (m : Map ℕ CheckpointSeqEntry)
    → All (λ p. (p.1.owner_indexer_id ≡ p.0) × IsEntry p.1) m
    → owners (values m) ≡ keys m
owners-values [] a = refl
owners-values ((k, d) ∷ m) a = let rest = owners-values m a.1 in let here = a.0.0 in cc

All-values :
    (m : Map ℕ CheckpointSeqEntry)
    → All (λ p. (p.1.owner_indexer_id ≡ p.0) × IsEntry p.1) m
    → All IsEntry (values m)
All-values [] a = tt
All-values ((k, d) ∷ m) a = (a.0.1, All-values m a.1)

find_owner-values :
    (o : ℕ) (m : Map ℕ CheckpointSeqEntry)
    → All (λ p. (p.1.owner_indexer_id ≡ p.0) × IsEntry p.1) m
    → find_owner o (values m) ≡ lookup o m
unfolding find_owner lookup
find_owner-values o [] a = refl
find_owner-values o ((k, d) ∷ m) a = ground (arith, a.0, find_owner-values o m a.1)

-- A journal's file opens, with the journal's entries.
pub load_entries-sort_by_owner :
    (m : Map ℕ CheckpointSeqEntry)
    → IsJournal m
    → (n : Map ℕ CheckpointSeqEntry) × (load_entries (sort_by_owner (values m)) [] ≡ ok n)
      × ((o : ℕ) → lookup o n ≡ lookup o m)
unfolding lookup
load_entries-sort_by_owner m j =
    let names = owners-values m j.keyed in
    let once : ((o : ℕ) → count o (owners (values m)) ≤ 1) = λ o. rw names (j.unique o) in
    let (n, p, q) =
      load_entries-find_owner (sort_by_owner (values m)) []
        (All-sort_by_owner (values m) (All-values m j.keyed))
        (λ o. rw (count-sort_by_owner o (values m)) (once o)) (λ o h. refl) in
    (
      n,
      p,
      λ o.
          ground
            (arith, q o, find_owner-sort_by_owner o (values m) once, find_owner-values o m j.keyed),
    )

-- What opens is a journal.
pub load_entries-IsJournal :
    (es : List CheckpointSeqEntry) (m n : Map ℕ CheckpointSeqEntry)
    → IsJournal m
    → load_entries es m ≡ ok n
    → IsJournal n
unfolding load_entries
load_entries-IsJournal [] m n j h = let same : m ≡ n = ground (arith, h) in rw (← same) j
load_entries-IsJournal (e ∷ es) m n j h =
    let v : IsEntry e = ground (arith, h) in
    load_entries-IsJournal es (insert e.owner_indexer_id e m) n (insert-IsJournal e m v j)
      (ground (arith, h))
