-- ===== src/Quiescence/Ledger.antt =====
-- What Observe of member/consensus/quiescence.go writes, and what ReadQuiescence reads of it.
use arbiter_core.Quiescence.{
  QuiescentTable, QuiescenceBlock, QuiescenceError, Quiescence, merge_tables, tables_of, put_tables,
  write_quiescence, note_observation, noted, observe_found, observe, table_ord, table_eq,
}
use arbiter_core.Quiescence.Reading.{is_table, check_tables, check_blocks, read_quiescence, quiet}
use arbiter_core.Base.{
  ℕ, refl, true, false, Option, none, some, List, [], ◌∷◌, arith, list_eq, nat_eq, ◌≟◌, ≟_iff,
  ≟_refl, All, IsStrict, contains, ◌++◌, ◌≡◌, compact, if◌then◌else◌, ◌<◌, ◌||◌, contains-compact,
  length, sort, ◌==◌, ◌∙◌, contains-sort, contains-append, All-compact, Bool-cases, WriteOutcome,
  ok, All-sort, inl, compact-sort-IsStrict, inr, Option-cases, ap,
}

abbrev AllTables : List QuiescentTable → Type 0
AllTables = All (λ t. is_table t ≡ true)

AllTables-append : (a b : List QuiescentTable) → AllTables a → AllTables b → AllTables (a ++ b)
AllTables-append [] b p q = q
AllTables-append (t ∷ a) b p q = (p.0, AllTables-append a b p.1 q)

check_tables-AllTables : (ts : List QuiescentTable) → check_tables ts ≡ none → AllTables ts
unfolding check_tables
check_tables-AllTables [] h = tt
check_tables-AllTables (t ∷ []) h = (ground (arith, h), tt)
check_tables-AllTables (t ∷ u ∷ ts) h =
    (ground (arith, h), check_tables-AllTables (u ∷ ts) (ground (arith, h)))

check_tables-strict :
    (ts : List QuiescentTable) → AllTables ts → IsStrict ts → check_tables ts ≡ none
unfolding check_tables
check_tables-strict [] a s = refl
check_tables-strict (t ∷ []) a s = ground (arith, a)
check_tables-strict (t ∷ u ∷ ts) a s =
    let rest = check_tables-strict (u ∷ ts) a.1 s.1 in
    let here = a.0 in let first = s.0.0 in ground (arith, here, rest, first)

merge_tables-check :
    (a b : List QuiescentTable) → AllTables a → AllTables b → check_tables (merge_tables a b) ≡ none
unfolding merge_tables
merge_tables-check a b p q =
    check_tables-strict (compact (sort (a ++ b)))
      (All-compact (λ t. is_table t ≡ true) (sort (a ++ b))
        (All-sort (λ t. is_table t ≡ true) (a ++ b) (AllTables-append a b p q)))
      (compact-sort-IsStrict (a ++ b))

contains-merge_tables :
    (t : QuiescentTable) (a b : List QuiescentTable)
    → contains t (merge_tables a b) ≡ (contains t a || contains t b)
unfolding merge_tables
contains-merge_tables t a b =
    contains-compact t (sort (a ++ b)) ∙ contains-sort t (a ++ b) ∙ contains-append t a b

tables_of-put_tables :
    (n seq : ℕ) (ts : List QuiescentTable) (bs : List QuiescenceBlock)
    → tables_of n (put_tables seq ts bs) ≡ (if seq == n then some ts else tables_of n bs)
unfolding tables_of put_tables
tables_of-put_tables n seq ts [] = refl
tables_of-put_tables n seq ts (b ∷ bs) = ground (arith, tables_of-put_tables n seq ts bs)

check_blocks-put_tables :
    (prior seq : ℕ) (ts : List QuiescentTable) (bs : List QuiescenceBlock)
    → check_blocks prior bs ≡ none
    → prior < seq
    → check_tables ts ≡ none
    → 0 < length ts
    → check_blocks prior (put_tables seq ts bs) ≡ none
unfolding check_blocks put_tables
check_blocks-put_tables prior seq ts [] h p c n = ground (arith, c)
check_blocks-put_tables prior seq ts (b ∷ bs) h p c n =
    ground (arith, h, c, n, p, check_blocks-put_tables b.block_seq seq ts bs)

check_blocks-tables_of :
    (prior seq : ℕ) (ts : List QuiescentTable) (bs : List QuiescenceBlock)
    → check_blocks prior bs ≡ none
    → tables_of seq bs ≡ some ts
    → check_tables ts ≡ none
unfolding check_blocks tables_of
check_blocks-tables_of prior seq ts [] h e = absurd cc
check_blocks-tables_of prior seq ts (b ∷ bs) h e =
    ground (arith, h, e, check_blocks-tables_of b.block_seq seq ts bs)

-- Memory and file agree on a ledger that ReadQuiescence accepts.
pub record InStep (q : Quiescence) : Type 0 where
  pub accepted : check_blocks 0 q.blocks ≡ none
  pub read : read_quiescence q.file ≡ ok q.blocks

-- The tables that the blocks name are those that `quiet` answers false for.
quiet-tables_of :
    (t : QuiescentTable) (seq : ℕ) (ts : List QuiescentTable) (bs : List QuiescenceBlock)
    → tables_of seq bs ≡ some ts
    → contains t ts ≡ true
    → quiet bs t.table_id t.incarnation_seq ≡ false
unfolding tables_of quiet
quiet-tables_of t seq ts [] e c = absurd cc
quiet-tables_of t seq ts (b ∷ bs) e c = elim (Bool-cases (b.block_seq == seq)) [
  | inl p ↦
      let same : b.tables ≡ ts = ground (arith, e, p) in
      let here : contains t b.tables ≡ true = rw same c in rw (here, quiet) refl
  | inr p ↦ let rest = quiet-tables_of t seq ts bs (ground (arith, e, p)) c in ground (arith, rest)
]

contains-nonempty :
    (t : QuiescentTable) (ts : List QuiescentTable) → contains t ts ≡ true → 0 < length ts
unfolding contains
contains-nonempty t [] h = absurd cc
contains-nonempty t (u ∷ ts) h = omega arith

merge_tables-nonempty : (a b : List QuiescentTable) → 0 < length b → 0 < length (merge_tables a b)
unfolding contains
merge_tables-nonempty a [] h = absurd (omega arith)
merge_tables-nonempty a (t ∷ b) h =
    contains-nonempty t (merge_tables a (t ∷ b))
      (ground (arith, contains-merge_tables t a (t ∷ b), ≟_refl t))

-- What Observe leaves: the blocks' tables merged and in step when it returned nil, the memory as it
-- was when not.
pub record IsObserved (seq : ℕ) (tables : List QuiescentTable) (q : Quiescence)
    (a : Quiescence × Option QuiescenceError) : Type 0 where
  pub recorded :
      a.1 ≡ none
      → InStep a.0
        × ((t : QuiescentTable)
            → contains t tables ≡ true
            → quiet a.0.blocks t.table_id t.incarnation_seq ≡ false)
        × ((n : ℕ) → (seq == n) ≡ false → tables_of n a.0.blocks ≡ tables_of n q.blocks)
  pub failed :
      (x : QuiescenceError)
      → a.1 ≡ some x
      → (a.0.blocks ≡ q.blocks) × (a.0.observations ≡ q.observations)

written-IsObserved :
    (w : WriteOutcome) (seq : ℕ) (tables old : List QuiescentTable) (q : Quiescence)
    → InStep q
    → 0 < seq
    → 0 < length tables
    → AllTables tables
    → AllTables old
    → IsObserved seq tables q
        (noted seq (write_quiescence w (put_tables seq (merge_tables old tables) q.blocks) q))
unfolding write_quiescence note_observation read_quiescence
written-IsObserved WriteOutcome.written seq tables old q i p n a b =
    let merged = merge_tables old tables in
    let check =
      check_blocks-put_tables 0 seq merged q.blocks i.accepted p (merge_tables-check old tables b a)
        (merge_tables-nonempty old tables n) in
    record {
      recorded = λ h. (
        record { accepted = check; read = rw (check, read_quiescence) refl },
        λ t c.
            quiet-tables_of t seq merged (put_tables seq merged q.blocks)
              (ground (arith, tables_of-put_tables seq seq merged q.blocks))
              (ground (arith, contains-merge_tables t old tables, c)),
        λ m d. ground (arith, tables_of-put_tables m seq merged q.blocks, d),
      );
      failed = λ x h. absurd cc;
    }
written-IsObserved WriteOutcome.unwritten seq tables old q i p n a b = record {
  recorded = λ h. absurd cc;
  failed = λ x h. (refl, refl);
}
written-IsObserved WriteOutcome.unsynced seq tables old q i p n a b = record {
  recorded = λ h. absurd cc;
  failed = λ x h. (refl, refl);
}

merged-contains :
    (t : QuiescentTable) (old tables : List QuiescentTable)
    → merge_tables old tables ≡ old
    → contains t tables ≡ true
    → contains t old ≡ true
merged-contains t old tables e c =
    let merged = contains-merge_tables t old tables in
    let same = ap (contains t) e in ground (arith, merged, same, c)

observe_found-IsObserved :
    (w : WriteOutcome) (seq : ℕ) (tables : List QuiescentTable) (q : Quiescence)
    → InStep q
    → 0 < seq
    → 0 < length tables
    → AllTables tables
    → IsObserved seq tables q (observe_found w seq tables (tables_of seq q.blocks) q)
unfolding observe_found note_observation
observe_found-IsObserved w seq tables q i p n a = elim (Option-cases (tables_of seq q.blocks)) [
  | inl e ↦ rw (e, observe_found) (written-IsObserved w seq tables [] q i p n a tt)
  | inr (old, e) ↦
      let kept =
        check_tables-AllTables old (check_blocks-tables_of 0 seq old q.blocks i.accepted e) in
      elim (Bool-cases (merge_tables old tables ≟ old)) [
        | inr f ↦ rw (e, f, observe_found) (written-IsObserved w seq tables old q i p n a kept)
        | inl f ↦
            rw (e, f, observe_found)
              record {
                recorded = λ h. (
                  record { accepted = i.accepted; read = i.read },
                  λ t c.
                      quiet-tables_of t seq old q.blocks e (
                        merged-contains t old tables ((≟_iff (merge_tables old tables) old).0 f) c),
                  λ m d. refl,
                );
                failed = λ x h. absurd cc;
              }
      ]
]

-- Observe of tables that each have a name and an incarnation, on a ledger whose file holds what it
-- has in memory: when it returned nil, the file again reads back as the memory, no named table is
-- quiet, and the tables of every other block are what they were; when it returned an error, the
-- blocks and observations in memory are what they were.
pub observe-IsObserved :
    (w : WriteOutcome) (seq : ℕ) (tables : List QuiescentTable) (q : Quiescence)
    → InStep q
    → All (λ t. is_table t ≡ true) tables
    → IsObserved seq tables q (observe w seq tables q)
unfolding observe contains
observe-IsObserved w seq [] q i a = elim (Bool-cases (seq == 0)) [
  | inl e ↦ rw (e, observe) record { recorded = λ h. absurd cc; failed = λ x h. (refl, refl) }
  | inr e ↦
      rw (e, observe)
        record { recorded = λ h. (i, (λ t c. absurd cc), λ m d. refl); failed = λ x h. absurd cc }
]
observe-IsObserved w seq (t ∷ tables) q i a = elim (Bool-cases (seq == 0)) [
  | inl e ↦ rw (e, observe) record { recorded = λ h. absurd cc; failed = λ x h. (refl, refl) }
  | inr e ↦
      let named : (length (t ∷ tables) == 0) ≡ false = ground arith in
      rw (e, named, observe)
        (observe_found-IsObserved w seq (t ∷ tables) q i (ground (arith, e)) (omega arith) a)
]
