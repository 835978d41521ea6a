-- ===== src/Gate/Examples.antt =====
-- A row sum that keeps the laws, tests of the gate, and its theorems at concrete inputs. A hash of
-- the toy sum is one byte, which any larger number also spells; the sum is taken modulo 256.
use arbiter_core.Base.{
  ◌&&◌, if◌then◌else◌, ℕ, ◌+◌, ◌%◌, ◌≤◌, ◌≡◌, refl, Bool, true, false, Option, none, some, List, [],
  ◌∷◌, ◌++◌, map, Bytes, list_eq, nat_eq, list_beq, list_ord, nat_ord, list_cmp, ok, count, sort,
  compact, bump, take_one, SameItems, SameItems-eq, IsSorted, arith,
}
use arbiter_core.Gate.{
  plan_partition, plan_parts, closure, classify, classify_pull, partition_set, sum_of,
  canonical_list, canonical_one, counts, names, hashes, with_hashes, classify_restore, ScratchPart,
  Expected, Classification, InstallPlan, Outcome,
}
use arbiter_core.Gate.Laws.{IsRowSum, canonical_form}
use arbiter_core.Gate.Plan.{plan_partition-need, closure-plan_need}
use arbiter_core.Gate.Restore.{
  IsRestored, restore_of, classify-IsRestored, closure-classify_restore,
}

one_byte : Bytes → Bool
one_byte [] = false
one_byte (n ∷ []) = true
one_byte (n ∷ m ∷ ns) = false

byte_of : Bytes → ℕ
byte_of [] = 0
byte_of (n ∷ ns) = n

total : List Bytes → ℕ
unfolding byte_of
total [] = 0
total (h ∷ hs) = byte_of h + total hs

accepted : List Bytes → Bool
unfolding one_byte
accepted [] = true
accepted (h ∷ hs) = one_byte h && accepted hs

toy_sum : List Bytes → Option Bytes
unfolding total accepted
toy_sum hs = if accepted hs then some ((total hs % 256) ∷ []) else none

total-same : (xs ys : List Bytes) → SameItems xs ys → total xs ≡ total ys
unfolding total
total-same = SameItems-eq total (λ x y zs. omega arith) (λ x ys zs h. omega arith)

accepted-same : (xs ys : List Bytes) → SameItems xs ys → accepted xs ≡ accepted ys
unfolding accepted
accepted-same = SameItems-eq accepted (λ x y zs. ground arith) (λ x ys zs h. ground arith)

toy_sum-IsRowSum : IsRowSum toy_sum
unfolding toy_sum
toy_sum-IsRowSum = record {
  canonical = λ h c e. ground arith;
  accept_cons = λ h hs s e.
      ((((byte_of h + 0) % 256) ∷ [], ground arith), ((total hs % 256) ∷ [], ground arith));
  accept_all = λ h hs c t p q. (((byte_of h + total hs) % 256) ∷ [], ground arith);
  accept_none = (0 ∷ [], refl);
  same_items = λ xs ys h. ground (arith, total-same xs ys h, accepted-same xs ys h);
}

abbrev part : ℕ → ℕ → ℕ → ScratchPart
part n h r = record { name = n ∷ []; row_lt_hash = h ∷ []; rows = r }

abbrev listed : List Bytes
listed = (1 ∷ []) ∷ (2 ∷ []) ∷ (2 ∷ []) ∷ (5 ∷ []) ∷ []

abbrev held : List Bytes
held = (258 ∷ []) ∷ []

abbrev open_plan : InstallPlan
open_plan = record { diverged = false; need = (1 ∷ []) ∷ (2 ∷ []) ∷ (5 ∷ []) ∷ []; root = 10 ∷ [] }

open_plan_lem : plan_partition toy_sum listed (266 ∷ []) held ≡ ok open_plan
unfolding plan_partition plan_parts canonical_list canonical_one sum_of toy_sum list_beq list_cmp
    sort bump take_one counts
open_plan_lem = refl

plan_partition-need_example :
    SameItems
      (map (canonical_form toy_sum) listed)
      (map (canonical_form toy_sum) held ++ open_plan.need)
    × IsSorted open_plan.need
    × (open_plan.root ≡ canonical_form toy_sum (266 ∷ []))
plan_partition-need_example =
    plan_partition-need toy_sum listed (266 ∷ []) held open_plan open_plan_lem refl

abbrev fetched : List Bytes
fetched = (5 ∷ []) ∷ (257 ∷ []) ∷ (2 ∷ []) ∷ []

fetched-same : SameItems (map (canonical_form toy_sum) fetched) open_plan.need
unfolding toy_sum sum_of count
fetched-same a = ground arith

closure-plan_need_example : closure toy_sum (266 ∷ []) held fetched ≡ ok tt
unfolding toy_sum
closure-plan_need_example =
    closure-plan_need toy_sum toy_sum-IsRowSum listed (266 ∷ []) held open_plan fetched
      open_plan_lem refl (8 ∷ []) refl fetched-same

abbrev backup : List ScratchPart
backup = part 10 5 3 ∷ part 11 9 4 ∷ part 12 257 1 ∷ part 13 2 7 ∷ []

abbrev backup_kept : Classification
backup_kept = record {
  outcome = Outcome.kept;
  keep = (10 ∷ []) ∷ (12 ∷ []) ∷ (13 ∷ []) ∷ [];
  drop = (11 ∷ []) ∷ [];
  kept_hashes = (5 ∷ []) ∷ (1 ∷ []) ∷ (2 ∷ []) ∷ [];
}

backup_kept_lem : classify toy_sum (restore_of toy_sum open_plan.need) backup ≡ ok backup_kept
unfolding classify classify_restore with_hashes canonical_list sum_of toy_sum list_beq bump take_one
backup_kept_lem = refl

classify-IsRestored_example :
    IsRestored
      (map (canonical_form toy_sum) open_plan.need)
      (names backup)
      (map (canonical_form toy_sum) (hashes backup))
      backup_kept
classify-IsRestored_example =
    classify-IsRestored toy_sum open_plan.need backup backup_kept backup_kept_lem

backup-covers :
    (h : Bytes) → count h open_plan.need ≤ count h (map (canonical_form toy_sum) (hashes backup))
unfolding toy_sum sum_of count
backup-covers h = ground arith

closure-classify_restore_example :
    SameItems backup_kept.kept_hashes open_plan.need
    × (closure toy_sum (266 ∷ []) held backup_kept.kept_hashes ≡ ok tt)
closure-classify_restore_example =
    closure-classify_restore toy_sum toy_sum-IsRowSum listed (266 ∷ []) held open_plan open_plan_lem
      refl backup backup_kept backup_kept_lem backup-covers

abbrev wanted : Expected
wanted = record { row_lt_hash = 5 ∷ []; rows = 3 }

pulled_kept : (classify_pull toy_sum listed wanted (part 10 5 3 ∷ [])).outcome ≡ Outcome.kept
unfolding classify_pull list_beq bump
pulled_kept = refl

pulled_doubled :
    (classify_pull toy_sum listed wanted (part 10 5 3 ∷ part 11 5 3 ∷ [])).outcome ≡ Outcome.doubled
unfolding classify_pull list_beq bump toy_sum sum_of
pulled_doubled = refl

pulled_split :
    (classify_pull toy_sum listed wanted (part 10 4 1 ∷ part 11 1 2 ∷ [])).outcome ≡ Outcome.split
unfolding classify_pull list_beq bump toy_sum sum_of
pulled_split = refl

same_sets : partition_set ((1 ∷ []) ∷ (2 ∷ []) ∷ (1 ∷ []) ∷ []) ((2 ∷ []) ∷ (1 ∷ []) ∷ []) ≡ ok tt
unfolding partition_set list_beq list_cmp sort compact
same_sets = refl
