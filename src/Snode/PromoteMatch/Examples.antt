-- ===== src/Snode/PromoteMatch/Examples.antt =====
-- A run of snode/promote_match.go, and the theorem at a concrete input.
use arbiter_core.Snode.LtHash.{accumulator_hex, parse_accumulator_hex}
use arbiter_core.Types.{PromoteSafePartition}
use arbiter_core.Snode.LtHash.{parse_accumulator_hex, accumulator_hex}
use arbiter_core.Snode.Parity.{parity, parity-IsLtHash}
use arbiter_core.Snode.PromoteMatch.{
  Part, PartScan, SafePartMappings, safe_mappings, parts_in_logical_partition, scan_loop,
  info_by_name, logical_partition_id, row_hash, matched, match_loop, closes, accumulator_hex,
}
use arbiter_core.Snode.PromoteMatch.Inventory.{IsInventory, safe_mappings-IsInventory}
use arbiter_core.Base.{
  refl, Bool, true, false, Option, some, List, [], ◌∷◌, Bytes, ok, arith, ◌≡◌, ◌↔◌, lookup, insert,
  delete, contains, list_beq, digit_of, digit_char, decode_string, encode_to_string, trim_0x,
  decimal_on, decimal, after_prefix,
}

abbrev same_parity : Bool → Bool → Bool
same_parity true b = b
same_parity false true = false
same_parity false false = true

same_parity_iff : (a b : Bool) → (same_parity a b ≡ true) ↔ (a ≡ b)
same_parity_iff a b = ground arith

-- 0x00 and 0x01.
abbrev even_hash : Bytes
even_hash = b'0' ∷ b'x' ∷ b'0' ∷ b'0' ∷ []

abbrev odd_hash : Bytes
odd_hash = b'0' ∷ b'x' ∷ b'0' ∷ b'1' ∷ []

abbrev part : Bytes → Bytes → Part
part name value = record {
  name = name;
  partition_id = [];
  partition_value = value;
  phys_hash = b'h' ∷ [];
  path = [];
  rows = 1;
  bytes = 1;
}

abbrev active : List Part
active =
    part (b'a' ∷ []) (b'1' ∷ []) ∷ part (b'b' ∷ []) (b'1' ∷ []) ∷ part (b'c' ∷ []) (b'2' ∷ []) ∷ []

abbrev scans : List Bytes → Option (List PartScan)
scans names = some (
    record { part_name = b'b' ∷ []; row_lt_hash = odd_hash }
    ∷ record { part_name = b'a' ∷ []; row_lt_hash = even_hash }
    ∷ [])

-- The candidate's hash is spelled without the prefix.
abbrev command : PromoteSafePartition
command = record {
  table_id = b't' ∷ [];
  partition_id = b'p' ∷ b'_' ∷ b'1' ∷ [];
  promotion_seq = 1;
  base_safe_snapshot_id = [];
  base_partition_root = [];
  candidate_parts =
      record {
        table_id = b't' ∷ [];
        partition_id = [];
        part_row_lt_hash = b'0' ∷ b'1' ∷ [];
        part_name = [];
      }
      ∷ [];
}

abbrev answer : SafePartMappings
answer = record {
  candidates =
      record {
        part_row_lt_hash = b'0' ∷ b'1' ∷ [];
        safe_part_name = b'b' ∷ [];
        part_phys_hash = b'h' ∷ [];
      }
      ∷ [];
  partition =
      record { part_row_lt_hash = odd_hash; safe_part_name = b'b' ∷ []; part_phys_hash = b'h' ∷ [] }
      ∷ record {
        part_row_lt_hash = even_hash;
        safe_part_name = b'a' ∷ [];
        part_phys_hash = b'h' ∷ [];
      }
      ∷ [];
}

answer_lem :
    safe_mappings parity same_parity scans (some active) (b'x' ∷ []) command odd_hash ≡ ok answer
unfolding safe_mappings scan_loop info_by_name parts_in_logical_partition logical_partition_id
    row_hash matched match_loop closes lookup insert delete contains list_beq accumulator_hex
    parse_accumulator_hex digit_of digit_char decode_string encode_to_string trim_0x decimal_on
    decimal after_prefix
answer_lem = refl

safe_mappings-IsInventory_example :
    IsInventory parity same_parity scans
      (parts_in_logical_partition active (b'x' ∷ []) command.partition_id)
      command
      odd_hash
      answer
safe_mappings-IsInventory_example =
    safe_mappings-IsInventory parity same_parity scans parity-IsLtHash same_parity_iff active
      (b'x' ∷ []) command odd_hash answer answer_lem
