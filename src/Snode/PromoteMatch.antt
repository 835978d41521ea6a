-- ===== src/Snode/PromoteMatch.antt =====
-- safeMappings of snode/promote_match.go, with Part, LogicalPartitionID and PartsInLogicalPartition
-- of dataplane/chparts/chparts.go. What ClickHouse lists as active parts is an argument; the scan of
-- parts is housegate's chexec.ScanParts and the equality of accumulators lthash's, parameters.
use arbiter_core.Types.{SafePartMapping, PromoteSafePartition, PartRef}
use arbiter_core.Snode.LtHash.{LtHash, parse_accumulator_hex, accumulator_hex}
use arbiter_core.Base.{
  ℕ, Bool, true, false, Option, none, some, List, [], ◌∷◌, ◌++◌, Bytes, ◌≟◌, list_eq, nat_eq, ◌==◌,
  if◌then◌else◌, Result, ok, err, ◌>>=◌, Map, lookup, insert, delete, length, keep_if, contains,
}
pub mod Inventory
pub mod Examples

-- chparts.Part.
pub record Part : Type 0 where
  pub name : Bytes
  pub partition_id : Bytes
  pub partition_value : Bytes
  pub phys_hash : Bytes
  pub path : Bytes
  pub rows : ℕ
  pub bytes : ℕ

-- chexec.PartScan, the two fields that are read.
pub record PartScan : Type 0 where
  pub part_name : Bytes
  pub row_lt_hash : Bytes

pub data MatchError : Type 0 where
  query_failed scan_failed unknown_part invalid_row_hash duplicate_row_hash : MatchError
  scan_omitted closure_differs invalid_candidate duplicate_candidate absent_candidate : MatchError

-- "all" for a table without PARTITION BY, else "p_" and the partition's value.
unfoldable pub logical_partition_id : Bytes → Part → Bytes
logical_partition_id partition_by p =
    if partition_by ≟ [] then b'a' ∷ b'l' ∷ b'l' ∷ [] else b'p' ∷ b'_' ∷ p.partition_value

unfoldable pub parts_in_logical_partition : List Part → Bytes → Bytes → List Part
parts_in_logical_partition parts partition_by partition_id =
    keep_if (λ p. logical_partition_id partition_by p ≟ partition_id) parts

abbrev pub part_names : List Part → List Bytes
part_names [] = []
part_names (p ∷ ps) = p.name ∷ part_names ps

unfoldable pub info_by_name : List Part → Map Bytes Part → Map Bytes Part
info_by_name [] info = info
info_by_name (p ∷ ps) info = info_by_name ps (insert p.name p info)

pub record SafePartMappings : Type 0 where
  pub candidates : List SafePartMapping
  pub partition : List SafePartMapping

module _ (l : LtHash) (equal : l.Hash → l.Hash → Bool)
    (scan_parts : List Bytes → Option (List PartScan)) where
  open l use {Hash, new, add_hash}

  -- What the loop over the scans ends with: the mappings in order, the parts not scanned, the
  -- mappings by hash and the sum.
  pub record Scanned : Type 0 where
    pub mappings : List SafePartMapping
    pub left : Map Bytes Part
    pub by_hash : Map Bytes SafePartMapping
    pub sum : Hash

  abbrev with_mapping : SafePartMapping → Scanned → Scanned
  with_mapping m s = record s { mappings = m ∷ s.mappings }

  -- The hash of a part, refused when it is empty or does not parse.
  unfoldable pub row_hash : Bytes → Option Hash
  row_hash text = if text ≟ [] then none else parse_accumulator_hex l text

  unfoldable pub scan_loop :
      List PartScan → Map Bytes Part → Map Bytes SafePartMapping → Hash → Result MatchError Scanned
  scan_loop [] info by_hash sum =
      ok (record { mappings = []; left = info; by_hash = by_hash; sum = sum })
  scan_loop (scan ∷ scans) info by_hash sum = elim (lookup scan.part_name info) [
    | none ↦ err unknown_part
    | some p ↦ elim (row_hash scan.row_lt_hash) [
      | none ↦ if p.phys_hash ≟ [] then err unknown_part else err invalid_row_hash
      | some h ↦
          let key = accumulator_hex l h in
          let mapping : SafePartMapping = record {
            part_row_lt_hash = key;
            safe_part_name = scan.part_name;
            part_phys_hash = p.phys_hash;
          } in
          let rest =
            scan_loop scans (delete scan.part_name info) (insert key mapping by_hash)
              (add_hash sum h) in
          if p.phys_hash ≟ [] then err unknown_part else elim (lookup key by_hash) [
            | some m ↦ err duplicate_row_hash
            | none ↦ rest >>= λ s. ok (with_mapping mapping s)
          ]
    ]
  ]

  -- The loop over the command's candidates, with the keys seen.
  unfoldable pub match_loop :
      List PartRef
      → List Bytes
      → Map Bytes SafePartMapping
      → Result MatchError (List SafePartMapping)
  match_loop [] seen by_hash = ok []
  match_loop (cp ∷ cps) seen by_hash = elim (row_hash cp.part_row_lt_hash) [
    | none ↦ err invalid_candidate
    | some h ↦
        let key = accumulator_hex l h in
        let rest = match_loop cps (key ∷ seen) by_hash in
        if contains key seen then err duplicate_candidate else elim (lookup key by_hash) [
          | none ↦ err absent_candidate
          | some m ↦ rest >>= λ ms. ok (record m { part_row_lt_hash = cp.part_row_lt_hash } ∷ ms)
        ]
  ]

  -- `err != nil || !sum.Equal(expected)`.
  unfoldable pub closes : Bytes → Hash → Bool
  closes post sum = elim (parse_accumulator_hex l post) [ none ↦ false | some h ↦ equal sum h ]

  unfoldable pub matched : List PartRef → Bytes → Scanned → Result MatchError SafePartMappings
  matched candidates post s =
      if length s.left == 0
      then (if closes post s.sum
          then (match_loop candidates [] s.by_hash >>= λ ms.
              ok (record { candidates = ms; partition = s.mappings }))
          else err closure_differs)
      else err scan_omitted

  -- safeMappings, with the active parts that ClickHouse lists, `none` for an error.
  unfoldable pub safe_mappings :
      Option (List Part) → Bytes → PromoteSafePartition → Bytes → Result MatchError SafePartMappings
  safe_mappings none partition_by cmd post = err query_failed
  safe_mappings (some active) partition_by cmd post =
      let after = parts_in_logical_partition active partition_by cmd.partition_id in
      elim (scan_parts (part_names after)) [
        | none ↦ err scan_failed
        | some scans ↦
            scan_loop scans (info_by_name after []) [] new >>= matched cmd.candidate_parts post
      ]
