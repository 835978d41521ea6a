-- ===== src/Gate/Pull.antt =====
-- The pull branch of Classify in member/gate/classify.go.
use arbiter_core.Base.{
  ◌<◌, ◌≡◌, ◌≢◌, ◌⊎◌, refl, true, List, [], ◌∷◌, Option, Bytes, ≟_iff, list_eq, nat_eq, count,
  arith,
}
use arbiter_core.Gate.{classify_pull, is_single, row_total, names, Expected, ScratchPart, Outcome}
use arbiter_core.Gate.Plan.{counts-count}

-- Exactly one part, equal to the expected one in row hash and rows.
abbrev pub IsExactly : Expected → List ScratchPart → Type 0
IsExactly x ps =
    (p : ScratchPart) × (ps ≡ p ∷ []) × (p.row_lt_hash ≡ x.row_lt_hash) × (p.rows ≡ x.rows)

is_single-IsExactly :
    (x : Expected) (ps : List ScratchPart) → is_single x ps ≡ true → IsExactly x ps
unfolding is_single
is_single-IsExactly x [] h = cc
is_single-IsExactly x (p ∷ []) h =
    (p, refl, ground (arith, ≟_iff p.row_lt_hash x.row_lt_hash), ground arith)
is_single-IsExactly x (p ∷ q ∷ ps) h = cc

is_single_of_IsExactly :
    (x : Expected) (p : ScratchPart)
    → p.row_lt_hash ≡ x.row_lt_hash
    → p.rows ≡ x.rows
    → is_single x (p ∷ []) ≡ true
unfolding is_single
is_single_of_IsExactly x p h r = ground (arith, ≟_iff p.row_lt_hash x.row_lt_hash)

module _ (sum : List Bytes → Option Bytes) where
  pull_kept_single :
      (need : List Bytes) (x : Expected) (ps : List ScratchPart)
      → (classify_pull sum need x ps).outcome ≡ Outcome.kept
      → (is_single x ps ≡ true)
        × (0 < count x.row_lt_hash need)
        × (row_total 0 ps ≢ 0)
        × ((classify_pull sum need x ps).keep ≡ names ps)
        × ((classify_pull sum need x ps).drop ≡ [])
        × ((classify_pull sum need x ps).kept_hashes ≡ x.row_lt_hash ∷ [])
  unfolding classify_pull
  pull_kept_single need x ps h = ground (arith, counts-count x.row_lt_hash need)

  -- A pull is kept only when its scratch is exactly the one expected part, in row hash and rows,
  -- and the need still lists that hash; it keeps that part's name and hash, and drops nothing.
  pub classify_pull-kept :
      (need : List Bytes) (x : Expected) (ps : List ScratchPart)
      → (classify_pull sum need x ps).outcome ≡ Outcome.kept
      → IsExactly x ps
        × (0 < count x.row_lt_hash need)
        × ((classify_pull sum need x ps).keep ≡ names ps)
        × ((classify_pull sum need x ps).drop ≡ [])
        × ((classify_pull sum need x ps).kept_hashes ≡ x.row_lt_hash ∷ [])
  classify_pull-kept need x ps h =
      let (single, needed, _, keep, drop, kept_hash) = pull_kept_single need x ps h in
      (is_single-IsExactly x ps single, needed, keep, drop, kept_hash)

  -- The expected part with rows, pulled as it is while it is needed, is kept.
  pub classify_pull-expected :
      (need : List Bytes) (x : Expected) (p : ScratchPart)
      → p.row_lt_hash ≡ x.row_lt_hash
      → p.rows ≡ x.rows
      → 0 < x.rows
      → x.rows < 18446744073709551616
      → 0 < count x.row_lt_hash need
      → (classify_pull sum need x (p ∷ [])).outcome ≡ Outcome.kept
  unfolding classify_pull row_total
  classify_pull-expected need x p eh er pos small needed =
      ground (arith, is_single_of_IsExactly x p eh er, counts-count x.row_lt_hash need)

  -- Whatever the scratch, nothing is both kept and dropped: a kept pull drops nothing, a foreign
  -- one keeps and drops nothing, and every other outcome keeps nothing and drops the whole scratch.
  pub classify_pull_cases :
      (need : List Bytes) (x : Expected) (ps : List ScratchPart)
      → let c = classify_pull sum need x ps in
        ((c.outcome ≡ Outcome.kept) × (c.keep ≡ names ps) × (c.drop ≡ []))
        ⊎ ((c.outcome ≡ Outcome.foreign) × (c.keep ≡ []) × (c.drop ≡ []) × (c.kept_hashes ≡ []))
        ⊎ ((c.outcome ≢ Outcome.kept)
            × (c.outcome ≢ Outcome.foreign)
            × (c.keep ≡ [])
            × (c.drop ≡ names ps)
            × (c.kept_hashes ≡ []))
  unfolding classify_pull
  classify_pull_cases need x ps = ground arith
