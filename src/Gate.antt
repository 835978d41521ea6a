-- ===== src/Gate.antt =====
-- member/gate: the install gate. gate.go (plan, closure, partition set) and classify.go (the
-- scratch classifier). A row hash is a Go string, its bytes. The sum of row hashes is the
-- executor's (housegate payloadexec.SumPartRowLtHashes), a parameter: `none` is its error. An error
-- of this package is a constructor that names the refusal; the text of its message is left out.
pub mod Laws
pub mod Plan
pub mod Restore
pub mod Pull
pub mod Sets
mod Examples
use arbiter_core.Base.{
  ℕ, ◌+◌, ◌*◌, ◌%◌, Bool, true, false, ◌&&◌, Option, none, some, List, [], ◌∷◌, ◌++◌, map, Bytes,
  Eq, ◌≟◌, list_eq, nat_eq, list_ord, nat_ord, ltb, leb, ◌==◌, if◌then◌else◌, Result, ok, err,
  ◌>>=◌, ◌>>◌, guard, length, count, bump, take_one, sort, compact,
}

pub data ListName : Type 0 where
  manifest_list root_list local_list kept_list need_list scratch_list single_list : ListName

pub data GateError : Type 0 where
  bad_hash : ListName → GateError
  root_mismatch closure_mismatch set_mismatch : GateError

pub record InstallPlan : Type 0 where
  pub diverged : Bool
  pub need : List Bytes
  pub root : Bytes

pub data Outcome : Type 0 where
  kept rename_race split doubled foreign : Outcome

pub record Expected : Type 0 where
  pub row_lt_hash : Bytes
  pub rows : ℕ  -- uint64

pub record Fetch : Type 0 where
  pub need : List Bytes
  pub single : Option Expected

pub record ScratchPart : Type 0 where
  pub name : Bytes
  pub row_lt_hash : Bytes
  pub rows : ℕ  -- uint64

pub record Classification : Type 0 where
  pub outcome : Outcome
  pub keep : List Bytes
  pub drop : List Bytes
  pub kept_hashes : List Bytes

abbrev pub u64 : ℕ → ℕ
u64 n = n % 18446744073709551616

-- A missing key of a Go counter reads 0.
unfoldable pub counts : List Bytes → Bytes → ℕ
counts [] = λ _. 0
counts (h ∷ hs) = bump h (counts hs)

-- The loop over the local parts: `none` at the first one that the manifest has no copy left of.
unfoldable pub match_local : (Bytes → ℕ) → List Bytes → Option (Bytes → ℕ)
match_local left [] = some left
match_local left (h ∷ l) =
    let rest = match_local (take_one h left) l in if left h == 0 then none else rest

-- The loop over the manifest's parts, which collects what is still missing.
unfoldable pub still_needed : (Bytes → ℕ) → List Bytes → List Bytes
still_needed left [] = []
still_needed left (h ∷ m) =
    let taken = h ∷ still_needed (take_one h left) m in
    let passed = still_needed left m in if ltb 0 (left h) then taken else passed

unfoldable pub plan_parts : List Bytes → Bytes → List Bytes → InstallPlan
unfolding match_local still_needed counts
plan_parts m r l = elim (match_local (counts m) l) [
  | none ↦ record { diverged = true; need = []; root = r }
  | some left ↦ record { diverged = false; need = sort (still_needed left m); root = r }
]

-- The set of the ids, ascending.
unfoldable pub id_set : List Bytes → List Bytes
id_set ids = compact (sort ids)

unfoldable pub partition_set : List Bytes → List Bytes → Result GateError (Unit {0})
unfolding id_set
partition_set manifest local = guard (id_set manifest ≟ id_set local) set_mismatch

-- `parts = append(parts, ScratchPart{p.Name, hashes[i], p.Rows})` over the scratch.
unfoldable pub with_hashes : List ScratchPart → List Bytes → List ScratchPart
with_hashes [] hs = []
with_hashes (p ∷ ps) [] = []
with_hashes (p ∷ ps) (h ∷ hs) = record p { row_lt_hash = h } ∷ with_hashes ps hs

abbrev pub names : List ScratchPart → List Bytes
names [] = []
names (p ∷ ps) = p.name ∷ names ps

abbrev pub hashes : List ScratchPart → List Bytes
hashes [] = []
hashes (p ∷ ps) = p.row_lt_hash ∷ hashes ps

abbrev keep_part : ScratchPart → Classification → Classification
keep_part p c = record c { keep = p.name ∷ c.keep; kept_hashes = p.row_lt_hash ∷ c.kept_hashes }

abbrev drop_part : ScratchPart → Classification → Classification
drop_part p c = record c { drop = p.name ∷ c.drop }

-- The loop of classifyRestore over the parts, with the counter of what is still needed.
unfoldable pub restore_loop : (Bytes → ℕ) → List ScratchPart → Classification
restore_loop left [] = record { outcome = Outcome.kept; keep = []; drop = []; kept_hashes = [] }
restore_loop left (p ∷ ps) =
    let kept_rest = keep_part p (restore_loop (take_one p.row_lt_hash left) ps) in
    let dropped_rest = drop_part p (restore_loop left ps) in
    if ltb 0 (left p.row_lt_hash) then kept_rest else dropped_rest

unfoldable pub classify_restore : List Bytes → List ScratchPart → Classification
unfolding restore_loop counts
classify_restore need parts = restore_loop (counts need) parts

-- `rows += p.Rows` over uint64.
unfoldable pub row_total : ℕ → List ScratchPart → ℕ
row_total rows [] = rows
row_total rows (p ∷ ps) = row_total (u64 (rows + p.rows)) ps

abbrev outcome_only : Outcome → List Bytes → Classification
outcome_only o dropped = record { outcome = o; keep = []; drop = dropped; kept_hashes = [] }

-- `len(parts) == 1 && parts[0]` equals the expected part.
unfoldable pub is_single : Expected → List ScratchPart → Bool
is_single x [] = false
is_single x (p ∷ []) = (p.row_lt_hash ≟ x.row_lt_hash) && p.rows == x.rows
is_single x (p ∷ q ∷ ps) = false

module _ (sum_part_row_lt_hashes : List Bytes → Option Bytes) where
  unfoldable pub sum_of : List Bytes → Bytes
  sum_of hs = elim (sum_part_row_lt_hashes hs) [ none ↦ [] | some s ↦ s ]

  unfoldable pub canonical_list : ListName → List Bytes → Result GateError (List Bytes)
  canonical_list what hs = elim (sum_part_row_lt_hashes hs) [
    | none ↦ err (bad_hash what)
    | some s ↦ ok (map (λ h. sum_of (h ∷ [])) hs)
  ]

  -- `out[0]` of a list of one.
  abbrev first_of_list : List Bytes → Bytes
  first_of_list [] = []
  first_of_list (h ∷ hs) = h

  unfoldable pub canonical_one : ListName → Bytes → Result GateError Bytes
  canonical_one what h = do out ← canonical_list what (h ∷ []); ok (first_of_list out)

  unfoldable pub plan_partition : List Bytes → Bytes → List Bytes → Result GateError InstallPlan
  plan_partition manifest root local = do
    m ← canonical_list manifest_list manifest
    r ← canonical_one root_list root
    guard (sum_of m ≟ r) root_mismatch
    l ← canonical_list local_list local
    ok (plan_parts m r l)

  unfoldable pub closure : Bytes → List Bytes → List Bytes → Result GateError (Unit {0})
  closure root local kept_parts = do
    r ← canonical_one root_list root
    l ← canonical_list local_list local
    k ← canonical_list kept_list kept_parts
    guard (sum_of (l ++ k) ≟ r) closure_mismatch

  unfoldable pub classify_pull : List Bytes → Expected → List ScratchPart → Classification
  unfolding row_total is_single counts
  classify_pull need single parts =
      let rows = row_total 0 parts in
      let total = sum_of (hashes parts) in
      if rows == 0
      then outcome_only rename_race (names parts)
      else if is_single single parts && ltb 0 (counts need single.row_lt_hash)
      then record {
        outcome = Outcome.kept;
        keep = names parts;
        drop = [];
        kept_hashes = single.row_lt_hash ∷ [];
      }
      else if leb 2 (length parts) && (total ≟ single.row_lt_hash) && rows == single.rows
      then outcome_only split (names parts)
      else if (total ≟ sum_of (single.row_lt_hash ∷ single.row_lt_hash ∷ []))
          && rows == u64 (2 * single.rows)
      then outcome_only doubled (names parts)
      else outcome_only foreign []

  unfoldable pub classify : Fetch → List ScratchPart → Result GateError Classification
  classify f scratch = do
    need ← canonical_list need_list f.need
    hs ← canonical_list scratch_list (hashes scratch)
    let parts = with_hashes scratch hs
    elim f.single [
      | none ↦ ok (classify_restore need parts)
      | some x ↦ do
        single ← canonical_one single_list x.row_lt_hash
        ok (classify_pull need (record x { row_lt_hash = single }) parts)
    ]
