-- ===== src/Snode/OwnerAudit.antt =====
-- The owner audit of snode/owner_audit_plan.go, and the audit of one partition of
-- snode/owner_audit.go: the reference inventory, the plan, the drops. Texts of findings, times and
-- the log are left out; what ClickHouse lists and answers are arguments.
use arbiter_core.Types.{SafePartMapping}
use arbiter_core.Snode.State.{AckedSafeInventory}
use arbiter_core.Snode.PromoteMatch.{Part, part_names}
use arbiter_core.Base.{
  ℕ, Bool, true, false, Option, none, some, List, [], ◌∷◌, Bytes, ◌≟◌, list_eq, nat_eq, list_ord,
  nat_ord, Eq, Ord, two_keys, ltb, if◌then◌else◌, Map, length, keep_if, any, all, contains, sort,
  map, ◌+◌, ◌&&◌, ◌||◌, not, take_one, bump, ≟_iff, arith, ◌≡◌, ◌↔◌,
}
pub mod Plans
pub mod Repairs
pub mod References
pub mod Tables
pub mod Held
pub mod Examples

-- ownerAuditPart.
pub record AuditPart : Type 0 where
  pub name : Bytes
  pub phys_hash : Bytes

unfoldable pub audit_part_beq : AuditPart → AuditPart → Bool
audit_part_beq a b = (a.name ≟ b.name) && (a.phys_hash ≟ b.phys_hash)

pub audit_part_beq_iff : (a b : AuditPart) → (audit_part_beq a b ≡ true) ↔ (a ≡ b)
unfolding audit_part_beq
audit_part_beq_iff a b = ground (arith, ≟_iff a.name b.name, ≟_iff a.phys_hash b.phys_hash)

instance abbrev pub audit_part_eq : Eq AuditPart
audit_part_eq = record { beq = audit_part_beq; beq_iff = audit_part_beq_iff }

audit_parts_apart : (a b : AuditPart) → a.name ≡ b.name → a.phys_hash ≡ b.phys_hash → a ≡ b
audit_parts_apart a b p q = ground (arith, p, q)

-- byNameHash.
instance abbrev pub audit_part_ord : Ord AuditPart
unfolding audit_parts_apart
audit_part_ord = two_keys list_ord list_ord (λ p. p.name) (λ p. p.phys_hash) audit_parts_apart

pub data ReferenceSource : Type 0 where
  local_source rebuilt_source fsm_source : ReferenceSource

pub record OwnerAuditReference : Type 0 where
  pub source : ReferenceSource
  pub seq : ℕ
  pub parts : List AuditPart

-- replay.PartManifestEntry, what the audit reads of it.
pub record ManifestEntry : Type 0 where
  pub part_name : Bytes
  pub part_row_lt_hash : Bytes
  pub part_phys_hash : Bytes

-- wire.PartitionState, what the audit reads of it.
pub record PartitionState : Type 0 where
  pub publish_seq : ℕ
  pub safe_parts : List ManifestEntry

pub record OwnerAuditInputs : Type 0 where
  pub watermark : ℕ
  pub acked : Option AckedSafeInventory
  pub fsm_available : Bool
  pub fsm : Option PartitionState

pub data OwnerAuditReason : Type 0 where
  unacknowledged_part acknowledged_part_missing fsm_ahead fsm_disagrees : OwnerAuditReason
  no_acknowledged_inventory unresolved_intent : OwnerAuditReason

unfoldable pub local_parts : List SafePartMapping → List AuditPart
local_parts [] = []
local_parts (m ∷ ms) =
    record { name = m.safe_part_name; phys_hash = m.part_phys_hash } ∷ local_parts ms

unfoldable pub fsm_parts : List ManifestEntry → List AuditPart
fsm_parts [] = []
fsm_parts (e ∷ es) = record { name = e.part_name; phys_hash = e.part_phys_hash } ∷ fsm_parts es

abbrev pub local_contents : List SafePartMapping → List (List Bytes)
local_contents [] = []
local_contents (m ∷ ms) = (m.part_row_lt_hash ∷ m.part_phys_hash ∷ []) ∷ local_contents ms

abbrev pub fsm_contents : List ManifestEntry → List (List Bytes)
fsm_contents [] = []
fsm_contents (e ∷ es) = (e.part_row_lt_hash ∷ e.part_phys_hash ∷ []) ∷ fsm_contents es

-- The counter of the local contents.
unfoldable pub tally : List (List Bytes) → List Bytes → ℕ
tally [] = λ c. 0
tally (c ∷ cs) = bump c (tally cs)

-- The loop of sameContent over the arbiter's parts.
unfoldable pub takes_all : List (List Bytes) → (List Bytes → ℕ) → Bool
takes_all [] left = true
takes_all (c ∷ cs) left =
    let rest = takes_all cs (take_one c left) in if ltb 0 (left c) then rest else false

unfoldable pub same_content : List SafePartMapping → List ManifestEntry → Bool
same_content own fsm =
    (length own ≟ length fsm) && takes_all (fsm_contents fsm) (tally (local_contents own))

unfoldable pub same_part_set : List AuditPart → List AuditPart → Bool
same_part_set a b = (length a ≟ length b) && (sort a ≟ sort b)

-- A reference, none at all, or a refusal.
pub data Chosen : Type 0 where
  chosen : OwnerAuditReference → Chosen
  no_reference : Chosen
  refused : OwnerAuditReason → Chosen

abbrev pub local_reference : AckedSafeInventory → OwnerAuditReference
local_reference inv = record {
  source = local_source;
  seq = inv.promotion_seq;
  parts = local_parts inv.parts;
}

-- The arbiter's answer; its zero value is that it never promoted the partition.
unfoldable pub fsm_reference : Option PartitionState → OwnerAuditReference
fsm_reference none = record { source = fsm_source; seq = 0; parts = [] }
fsm_reference (some s) = record {
  source = fsm_source;
  seq = s.publish_seq;
  parts = fsm_parts s.safe_parts;
}

-- The newer of the two; equal numbers must name the same parts.
unfoldable pub newer_reference : OwnerAuditReference → OwnerAuditReference → Chosen
newer_reference own fsm =
    if ltb own.seq fsm.seq
    then chosen fsm
    else if ltb fsm.seq own.seq
    then chosen own
    else if same_part_set own.parts fsm.parts
    then chosen own
    else refused fsm_disagrees

abbrev pub is_rebuilt_at : AckedSafeInventory → Option PartitionState → Bool
is_rebuilt_at inv none = false
is_rebuilt_at inv (some s) = inv.rebuilt && (s.publish_seq ≟ inv.promotion_seq)

abbrev pub entries_of : Option PartitionState → List ManifestEntry
entries_of none = []
entries_of (some s) = s.safe_parts

unfoldable pub both_references : AckedSafeInventory → Option PartitionState → Chosen
both_references inv fsm =
    if is_rebuilt_at inv fsm
    then (if same_content inv.parts (entries_of fsm)
        then chosen (record (local_reference inv) { source = rebuilt_source })
        else refused fsm_disagrees)
    else newer_reference (local_reference inv) (fsm_reference fsm)

abbrev pub is_ahead : ℕ → Option PartitionState → Bool
is_ahead watermark none = false
is_ahead watermark (some s) = ltb watermark s.publish_seq

-- ownerAuditReferenceFor.
unfoldable pub owner_audit_reference_for : OwnerAuditInputs → Chosen
owner_audit_reference_for i =
    if i.fsm_available && is_ahead i.watermark i.fsm then refused fsm_ahead else elim i.acked [
      | none ↦ if i.fsm_available then chosen (fsm_reference i.fsm) else no_reference
      | some inv ↦
          if i.fsm_available then both_references inv i.fsm else chosen (local_reference inv)
    ]

pub record OwnerAuditPlan : Type 0 where
  pub reason : Option OwnerAuditReason
  pub parts : List Bytes
  pub drop : List Bytes

abbrev pub clean_plan : OwnerAuditPlan
clean_plan = record { reason = none; parts = []; drop = [] }

abbrev pub audit_part : Part → AuditPart
audit_part p = record { name = p.name; phys_hash = p.phys_hash }

unfoldable pub is_acked : List AuditPart → Part → Bool
is_acked ref p = contains (audit_part p) ref

-- The group of a part's hash_of_all_files has a member that the reference carries.
unfoldable pub has_kept : List AuditPart → List Part → Part → Bool
has_kept ref active p = any (λ q. (q.phys_hash ≟ p.phys_hash) && is_acked ref q) active

unfoldable pub is_twin : List AuditPart → List Part → Part → Bool
is_twin ref active p = not (is_acked ref p) && has_kept ref active p

unfoldable pub is_unacknowledged : List AuditPart → List Part → Part → Bool
is_unacknowledged ref active p = not (is_acked ref p) && not (has_kept ref active p)

unfoldable pub is_missing : List Part → AuditPart → Bool
is_missing active r = not (any (λ q. audit_part q ≟ r) active)

abbrev pub audit_names : List AuditPart → List Bytes
audit_names [] = []
audit_names (r ∷ rs) = r.name ∷ audit_names rs

-- planOwnerAudit: each active part is visited once, with the group of its hash.
unfoldable pub plan_owner_audit : Option (List AuditPart) → List Part → OwnerAuditPlan
plan_owner_audit none [] = clean_plan
plan_owner_audit none (p ∷ ps) = record {
  reason = some no_acknowledged_inventory;
  parts = sort (part_names (p ∷ ps));
  drop = [];
}
plan_owner_audit (some ref) active =
    let unacknowledged = sort (part_names (keep_if (is_unacknowledged ref active) active)) in
    let drop = sort (part_names (keep_if (is_twin ref active) active)) in
    let missing = sort (audit_names (keep_if (is_missing active) ref)) in
    if ltb 0 (length unacknowledged)
    then record { reason = some unacknowledged_part; parts = unacknowledged; drop = [] }
    else if ltb 0 (length missing)
    then record { reason = some acknowledged_part_missing; parts = missing; drop = [] }
    else if ltb 0 (length drop)
    then record { reason = some unacknowledged_part; parts = drop; drop = drop }
    else clean_plan

-- ALTER TABLE ... DROP PART for each name in turn, until one fails: the parts that are left and
-- whether one failed. `fails` is what ClickHouse answers.
unfoldable pub drop_parts : (Bytes → Bool) → List Bytes → List Part → List Part × Bool
drop_parts fails [] active = (active, false)
drop_parts fails (n ∷ ns) active =
    let rest = drop_parts fails ns (keep_if (λ p. not (p.name ≟ n)) active) in
    if fails n then (active, true) else rest

-- dropResurrectedTwins after its drops: `none` when the parts could not be listed again.
abbrev pub after_repair : List AuditPart → Bool → List Part → Option OwnerAuditPlan
after_repair ref listed active =
    if listed
    then (let after = plan_owner_audit (some ref) active in some (record after { drop = [] }))
    else none

abbrev pub reference_of : Chosen → Option (List AuditPart)
reference_of (chosen r) = some r.parts
reference_of no_reference = none
reference_of (refused reason) = none

abbrev pub plan_of : Chosen → List Part → OwnerAuditPlan
plan_of (refused reason) active = record {
  reason = some reason;
  parts = sort (part_names active);
  drop = [];
}
plan_of (chosen r) active = plan_owner_audit (some r.parts) active
plan_of no_reference active = plan_owner_audit none active

abbrev pub failed_repair : OwnerAuditPlan → OwnerAuditPlan
failed_repair plan = record plan { drop = [] }

abbrev pub or_plan : OwnerAuditPlan → Option OwnerAuditPlan → OwnerAuditPlan
or_plan plan none = failed_repair plan
or_plan plan (some after) = after

-- auditPartitionLocked once the plan is made: the parts that it leaves active, and the plan that
-- it records. `repair` is the mode; a repair that fails records the plan without its drops.
unfoldable pub audited :
    Bool
    → (Bytes → Bool)
    → Bool
    → List AuditPart
    → OwnerAuditPlan
    → List Part
    → List Part × OwnerAuditPlan
audited repair fails listed ref plan active =
    let dropped = drop_parts fails plan.drop active in
    if not repair || not (ltb 0 (length plan.drop))
    then (active, plan)
    else if dropped.1
    then (dropped.0, failed_repair plan)
    else (dropped.0, or_plan plan (after_repair ref listed dropped.0))

abbrev pub audited_choice :
    Bool → (Bytes → Bool) → Bool → List Part → Chosen → List Part × OwnerAuditPlan
audited_choice repair fails listed active (chosen r) =
    audited repair fails listed r.parts (plan_of (chosen r) active) active
audited_choice repair fails listed active no_reference = (active, plan_of no_reference active)
audited_choice repair fails listed active (refused reason) =
    (active, plan_of (refused reason) active)

-- auditPartitionLocked, where the table was loaded and its parts were listed; else it records nothing.
unfoldable pub audit_partition :
    Bool → (Bytes → Bool) → Bool → OwnerAuditInputs → List Part → List Part × OwnerAuditPlan
audit_partition repair fails listed inputs active =
    audited_choice repair fails listed active (owner_audit_reference_for inputs)
