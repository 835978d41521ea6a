-- ===== src/Quiescence/Reobserved.antt =====
-- A block observed while Resolve of member/consensus/quiescence.go asks the arbiter.
use arbiter_core.Quiescence.{
  table_eq, QuiescentTable, QuiescenceBlock, QuiescenceError, Quiescence, tables_of, merge_tables,
  write_quiescence, note_observation, noted, observe_found, observe,
}
use arbiter_core.Quiescence.Resolve.{begin_resolve, observed_of, finish_resolve, same_observation}
use arbiter_core.Quiescence.Resolving.{finish_resolve-IsResolved}
use arbiter_core.Base.{
  ℕ, refl, false, Option, none, some, List, [], ◌∷◌, arith, list_eq, nat_eq, ◌≟◌, Map, WriteOutcome,
  ◌≡◌, ◌≤◌, Bool-cases, Option-cases, insert, lookup, inl, ◌+◌, ◌<◌, ◌==◌, delete, inr, length,
  lookup-delete, ap, lookup-insert, ◌∙◌, lookup-insert_self,
}

-- Every observation's address was given out.
abbrev pub IsAllocated : ℕ → Map ℕ ℕ → Type 0
IsAllocated hi m = (n token : ℕ) → lookup n m ≡ some token → token < hi

observed_of-IsAllocated :
    (hi : ℕ) (observations observed : Map ℕ ℕ) (bs : List QuiescenceBlock)
    → IsAllocated hi observations
    → IsAllocated hi observed
    → IsAllocated hi (observed_of observations bs observed)
unfolding observed_of
observed_of-IsAllocated hi observations observed [] a b = b
observed_of-IsAllocated hi observations observed (c ∷ bs) a b =
    elim (Option-cases (lookup c.block_seq observations)) [
      | inl e ↦
          rw (e, observed_of)
            (observed_of-IsAllocated hi observations (delete c.block_seq observed) bs a
              (λ n t h. b n t (ground (arith, h, lookup-delete c.block_seq n observed))))
      | inr (k, e) ↦
          rw (e, observed_of)
            (observed_of-IsAllocated hi observations (insert c.block_seq k observed) bs a (λ n t h.
              ground (arith, h, b n t, a c.block_seq k e, lookup-insert c.block_seq n k observed)))
    ]

-- What a call of Observe does to the observations: nothing, or a new one of the block.
record IsNoting (seq : ℕ) (q : Quiescence) (a : Quiescence × Option QuiescenceError) : Type 0 where
  noted_when_ok :
      a.1 ≡ none
      → (a.0.observations ≡ insert seq q.allocated q.observations)
        × (a.0.allocated ≡ q.allocated + 1)
  same_when_not :
      (x : QuiescenceError)
      → a.1 ≡ some x
      → (a.0.observations ≡ q.observations) × (a.0.allocated ≡ q.allocated)

written-IsNoting :
    (w : WriteOutcome) (seq : ℕ) (next : List QuiescenceBlock) (q : Quiescence)
    → IsNoting seq q (noted seq (write_quiescence w next q))
unfolding write_quiescence note_observation
written-IsNoting WriteOutcome.written seq next q = record {
  noted_when_ok = λ h. (refl, refl);
  same_when_not = λ x h. absurd cc;
}
written-IsNoting WriteOutcome.unwritten seq next q = record {
  noted_when_ok = λ h. absurd cc;
  same_when_not = λ x h. (refl, refl);
}
written-IsNoting WriteOutcome.unsynced seq next q = record {
  noted_when_ok = λ h. absurd cc;
  same_when_not = λ x h. (refl, refl);
}

observe_found-IsNoting :
    (w : WriteOutcome) (seq : ℕ) (tables : List QuiescentTable) (old : Option (List QuiescentTable))
    → (q : Quiescence) → IsNoting seq q (observe_found w seq tables old q)
unfolding observe_found note_observation
observe_found-IsNoting w seq tables none q = written-IsNoting w seq _ q
observe_found-IsNoting w seq tables (some old) q =
    elim (Bool-cases (merge_tables old tables ≟ old)) [
      | inl e ↦
          rw (e, observe_found)
            record { noted_when_ok = λ h. (refl, refl); same_when_not = λ x h. absurd cc }
      | inr e ↦ rw (e, observe_found) (written-IsNoting w seq _ q)
    ]

-- Observations from `lo` on stay: an Observe gives out higher addresses only.
abbrev IsNotedFrom : ℕ → ℕ → Quiescence → Type 0
IsNotedFrom lo seq q =
    (lo ≤ q.allocated) × ((token : ℕ) × (lookup seq q.observations ≡ some token) × (lo ≤ token))

observe-allocated :
    (w : WriteOutcome) (seq : ℕ) (tables : List QuiescentTable) (q : Quiescence)
    → q.allocated ≤ (observe w seq tables q).0.allocated
unfolding observe
observe-allocated w seq tables q =
    let i = observe_found-IsNoting w seq tables (tables_of seq q.blocks) q in
    elim (Option-cases (observe_found w seq tables (tables_of seq q.blocks) q).1) [
      | inl e ↦ ground (arith, i.noted_when_ok e)
      | inr (x, e) ↦ ground (arith, i.same_when_not x e)
    ]

observe-IsNotedFrom :
    (w : WriteOutcome) (n seq lo : ℕ) (tables : List QuiescentTable) (q : Quiescence)
    → IsNotedFrom lo seq q
    → IsNotedFrom lo seq (observe w n tables q).0
unfolding observe
observe-IsNotedFrom w n seq lo tables q (h, (token, e, k)) =
    let i = observe_found-IsNoting w n tables (tables_of n q.blocks) q in
    let a = observe_found w n tables (tables_of n q.blocks) q in
    elim (Bool-cases (n == 0)) [
      | inl z ↦ rw (z, observe) (h, (token, e, k))
      | inr z ↦ elim (Bool-cases (length tables == 0)) [
        | inl y ↦ rw (z, y, observe) (h, (token, e, k))
        | inr y ↦
            rw (z, y, observe)
              (elim (Option-cases a.1) [
                | inr (x, f) ↦
                    let same = i.same_when_not x f in
                    (omega (arith, same.1, h), (token, ap (lookup seq) (same.0) ∙ e, k))
                | inl f ↦
                    let new = i.noted_when_ok f in
                    let read = lookup-insert n seq q.allocated q.observations in
                    let at = ap (lookup seq) new.0 in
                    elim (Bool-cases (n ≟ seq)) [
                      | inl m ↦
                          (omega (arith, new.1, h), (q.allocated, ground (arith, at, read, m), h))
                      | inr m ↦
                          (omega (arith, new.1, h), (token, ground (arith, at, read, m, e), k))
                    ]
              ])
      ]
    ]

-- A successful Observe of some table notes the block at the next address.
observe-noted :
    (w : WriteOutcome) (seq : ℕ) (tables : List QuiescentTable) (q : Quiescence)
    → 0 < length tables
    → (observe w seq tables q).1 ≡ none
    → IsNotedFrom q.allocated seq (observe w seq tables q).0
unfolding observe
observe-noted w seq tables q n h =
    let i = observe_found-IsNoting w seq tables (tables_of seq q.blocks) q in
    elim (Bool-cases (seq == 0)) [
      | inl z ↦ absurd (ground (arith, h, z))
      | inr z ↦
          let y : (length tables == 0) ≡ false = ground (arith, n) in
          let new = i.noted_when_ok (ground (arith, h, z, y)) in
          rw (z, y, observe)
            (
              omega (arith, new.1),
              (
                q.allocated,
                ap (lookup seq) new.0 ∙ lookup-insert_self seq q.allocated q.observations,
                omega arith,
              ),
            )
    ]

-- A call of Observe with what the file system answers.
pub record ObserveCall : Type 0 where
  pub outcome : WriteOutcome
  pub block_seq : ℕ
  pub tables : List QuiescentTable

unfoldable pub after_observes : List ObserveCall → Quiescence → Quiescence
after_observes [] q = q
after_observes (c ∷ calls) q = after_observes calls (observe c.outcome c.block_seq c.tables q).0

after_observes-allocated :
    (calls : List ObserveCall) (q : Quiescence) → q.allocated ≤ (after_observes calls q).allocated
unfolding after_observes
after_observes-allocated [] q = omega arith
after_observes-allocated (c ∷ calls) q = omega (
  arith,
  observe-allocated c.outcome c.block_seq c.tables q,
  after_observes-allocated calls (observe c.outcome c.block_seq c.tables q).0,
)

after_observes-IsNotedFrom :
    (calls : List ObserveCall) (seq lo : ℕ) (q : Quiescence)
    → IsNotedFrom lo seq q
    → IsNotedFrom lo seq (after_observes calls q)
unfolding after_observes
after_observes-IsNotedFrom [] seq lo q n = n
after_observes-IsNotedFrom (c ∷ calls) seq lo q n =
    after_observes-IsNotedFrom calls seq lo (observe c.outcome c.block_seq c.tables q).0
      (observe-IsNotedFrom c.outcome c.block_seq seq lo c.tables q n)

-- A block that is observed again while Resolve asks the arbiter is not dropped: between the start
-- of Resolve and its end, with any other calls of Observe before and after, a successful Observe
-- that names a table keeps the block with the tables that it then has, even when the arbiter
-- answered that the block needs no evidence any more.
pub finish_resolve-observed :
    (v w : WriteOutcome) (seq : ℕ) (tables : List QuiescentTable) (resolved : List ℕ)
    → (before after : List ObserveCall) (q : Quiescence) → IsAllocated q.allocated q.observations
    → 0 < length tables
    → (observe w seq tables (after_observes before q)).1 ≡ none
    → let last = after_observes after (observe w seq tables (after_observes before q)).0 in
      (finish_resolve v (begin_resolve q) resolved last).1 ≡ none
      → tables_of seq (finish_resolve v (begin_resolve q) resolved last).0.blocks
        ≡ tables_of seq last.blocks
unfolding begin_resolve lookup
finish_resolve-observed v w seq tables resolved before after q a n h f =
    let start = after_observes before q in
    let next = (observe w seq tables start).0 in
    let last = after_observes after next in
    let p = begin_resolve q in
    let old =
      observed_of-IsAllocated q.allocated q.observations [] q.blocks a (λ m t e. absurd cc) in
    let (up, (token, e, k)) =
      after_observes-IsNotedFrom after seq start.allocated next
        (observe-noted w seq tables start n h) in
    let grown = after_observes-allocated before q in
    let other : same_observation (lookup seq p.observed) (lookup seq last.observations) ≡ false =
      elim (Option-cases (lookup seq p.observed)) [
        | inl z ↦ ground (arith, z, e)
        | inr (t, z) ↦ ground (arith, z, e, old seq t z, grown, k)
      ] in
    ground (arith, other, (finish_resolve-IsResolved v p resolved last).dropped f seq)
