-- ===== src/Snode/OwnerAudit/Examples.antt =====
-- Runs of the owner audit of snode/owner_audit.go, and its theorems at concrete inputs.
use arbiter_core.Snode.OwnerAudit.{
  AuditPart, audit_part_eq, audit_part_ord, OwnerAuditPlan, acknowledged_part_missing,
  OwnerAuditInputs, PartitionState, ManifestEntry, OwnerAuditReference, local_source, chosen,
  audit_partition, owner_audit_reference_for, both_references, newer_reference, fsm_reference,
  audited, plan_owner_audit, is_unacknowledged, is_acked, local_parts, audit_part_beq, has_kept,
  is_missing, is_twin, audit_parts_apart, drop_parts, fsm_parts, same_part_set,
}
use arbiter_core.Snode.OwnerAudit.Repairs.{audit_partition-exact, audit_partition-keeps}
use arbiter_core.Snode.OwnerAudit.Plans.{audit_parts}
use arbiter_core.Snode.OwnerAudit.References.{IsNewest, owner_audit_reference_for-IsNewest}
use arbiter_core.Snode.OwnerAudit.Held.{restarted-held, found-held}
use arbiter_core.Snode.OwnerAudit.Tables.{
  after_audit_events, restarted, record_owner_audit, owner_audit_clean, new_owner_audit_state,
  begins, done, startup,
}
use arbiter_core.Snode.State.{PartitionKey, AckedSafeInventory}
use arbiter_core.Snode.PromoteMatch.{Part, part_names}
use arbiter_core.Base.{
  list_beq, refl, true, false, none, some, List, [], ◌∷◌, Bytes, arith, ap, sym, ◌∙◌, ◌≡◌, ◌≤◌,
  list_eq, nat_eq, list_ord, nat_ord, contains, count, ◌≟◌, ≟_iff, sort, bump, take_one, list_cmp,
  insert_sorted,
}

abbrev part_of : Bytes → Bytes → Part
part_of name hash = record {
  name = name;
  partition_id = [];
  partition_value = [];
  phys_hash = hash;
  path = [];
  rows = 1;
  bytes = 1;
}

-- The part `b` came back after the promotion that kept its twin `a`.
abbrev with_twin : List Part
with_twin = part_of (b'a' ∷ []) (b'h' ∷ []) ∷ part_of (b'b' ∷ []) (b'h' ∷ []) ∷ []

abbrev acknowledged : AckedSafeInventory
acknowledged = record {
  promotion_seq = 3;
  parts =
      record {
        part_row_lt_hash = b'r' ∷ [];
        safe_part_name = b'a' ∷ [];
        part_phys_hash = b'h' ∷ [];
      }
      ∷ [];
  rebuilt = false;
}

-- The arbiter still has the promotion before.
abbrev inputs : OwnerAuditInputs
inputs = record {
  watermark = 3;
  acked = some acknowledged;
  fsm_available = true;
  fsm = some (record { publish_seq = 2; safe_parts = [] });
}

abbrev kept : AuditPart
kept = record { name = b'a' ∷ []; phys_hash = b'h' ∷ [] }

repaired :
    audit_partition true (λ n. false) true inputs with_twin
    ≡ (part_of (b'a' ∷ []) (b'h' ∷ []) ∷ [], record { reason = none; parts = []; drop = [] })
unfolding audit_partition owner_audit_reference_for both_references newer_reference fsm_reference
    audited plan_owner_audit sort is_unacknowledged is_acked contains local_parts audit_part_beq
    list_beq has_kept is_missing is_twin bump take_one list_cmp insert_sorted audit_part_ord
    audit_parts_apart drop_parts fsm_parts same_part_set
repaired = refl

audit_partition-exact_example :
    contains kept (audit_parts (audit_partition true (λ n. false) true inputs with_twin).0)
    ≡ contains kept (kept ∷ [])
unfolding audit_partition owner_audit_reference_for both_references newer_reference fsm_reference
    audited plan_owner_audit sort is_unacknowledged is_acked contains local_parts audit_part_beq
    list_beq has_kept is_missing is_twin bump take_one list_cmp insert_sorted audit_part_ord
    audit_parts_apart drop_parts fsm_parts same_part_set
audit_partition-exact_example =
    audit_partition-exact true (λ n. false) true inputs with_twin (kept ∷ []) refl refl kept

one_name : (n : Bytes) → (b'a' ∷ []) ≡ n → (b'b' ∷ []) ≡ n → false ≡ true
unfolding list_beq
one_name n p q = ap (λ m. (b'a' ∷ []) ≟ m) (q ∙ sym p)

names_apart : (n : Bytes) → count n (part_names with_twin) ≤ 1
unfolding count
names_apart n = ground (arith, ≟_iff (b'a' ∷ []) n, ≟_iff (b'b' ∷ []) n, one_name n)

audit_partition-keeps_example :
    contains kept (audit_parts (audit_partition true (λ n. true) true inputs with_twin).0) ≡ true
unfolding audit_partition owner_audit_reference_for both_references newer_reference fsm_reference
    audited plan_owner_audit sort is_unacknowledged is_acked contains local_parts audit_part_beq
    list_beq has_kept is_missing is_twin bump take_one list_cmp insert_sorted audit_part_ord
    audit_parts_apart drop_parts fsm_parts same_part_set
audit_partition-keeps_example =
    audit_partition-keeps true (λ n. true) true inputs with_twin (kept ∷ []) kept refl names_apart
      refl refl

owner_audit_reference_for-IsNewest_example :
    IsNewest inputs (record { source = local_source; seq = 3; parts = kept ∷ [] })
unfolding owner_audit_reference_for arbiter_core.Snode.OwnerAudit.both_references
    arbiter_core.Snode.OwnerAudit.newer_reference arbiter_core.Snode.OwnerAudit.fsm_reference
    arbiter_core.Snode.OwnerAudit.local_parts
owner_audit_reference_for-IsNewest_example =
    owner_audit_reference_for-IsNewest inputs
      (record { source = local_source; seq = 3; parts = kept ∷ [] }) refl

abbrev table : Bytes
table = b't' ∷ []

restarted-held_example :
    owner_audit_clean true table (
      after_audit_events
        (begins (table ∷ []) ∷ done [] ∷ [])
        (restarted (new_owner_audit_state false)))
    ≡ false
unfolding contains list_beq
restarted-held_example =
    restarted-held table (begins (table ∷ []) ∷ done [] ∷ []) (new_owner_audit_state false) refl

abbrev at : PartitionKey
at = record { table = b't' ∷ []; partition = b'p' ∷ [] }

abbrev missing_part : OwnerAuditPlan
missing_part = record { reason = some acknowledged_part_missing; parts = []; drop = [] }

found-held_example :
    owner_audit_clean true table (
      after_audit_events
        (begins (table ∷ []) ∷ done table ∷ [])
        (record_owner_audit startup at missing_part (new_owner_audit_state true)))
    ≡ false
found-held_example =
    found-held startup at missing_part (begins (table ∷ []) ∷ done table ∷ [])
      (new_owner_audit_state true)
      (λ q. let r : some acknowledged_part_missing ≡ none = q in absurd cc) refl
