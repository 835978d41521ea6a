-- ===== src/Snode/OwnerAudit/Tables.antt =====
-- ownerAuditState of snode/owner_audit_plan.go: which tables the owner audit holds. The mutex, the
-- wake channel, the counters of drops and of failed reads, and the times are left out.
use arbiter_core.Snode.State.{PartitionKey}
use arbiter_core.Snode.OwnerAudit.{OwnerAuditReason, OwnerAuditPlan}
use arbiter_core.Base.{
  ℕ, Bool, true, false, none, some, List, [], ◌∷◌, arith, list_eq, nat_eq, ◌≟◌, ≟_iff, Bytes, ◌≡◌,
  if◌then◌else◌, Map, insert, delete, contains, keep_if, Eq, ◌+◌, ◌&&◌, ◌||◌, not, ltb, length, ◌↔◌,
  ◌%◌,
}

unfoldable pub partition_key_beq : PartitionKey → PartitionKey → Bool
partition_key_beq a b = (a.table ≟ b.table) && (a.partition ≟ b.partition)

pub partition_key_beq_iff : (a b : PartitionKey) → (partition_key_beq a b ≡ true) ↔ (a ≡ b)
unfolding partition_key_beq
partition_key_beq_iff a b = ground (arith, ≟_iff a.table b.table, ≟_iff a.partition b.partition)

instance abbrev pub partition_key_eq : Eq PartitionKey
partition_key_eq = record { beq = partition_key_beq; beq_iff = partition_key_beq_iff }

pub data AuditTrigger : Type 0 where
  startup promotion clickhouse_restart : AuditTrigger

pub record OwnerAuditFinding : Type 0 where
  pub reason : OwnerAuditReason
  pub parts : List Bytes
  pub trigger : AuditTrigger

pub record OwnerAuditState : Type 0 where
  pub pending_all : Bool
  pub trigger : AuditTrigger
  pub pending : List Bytes
  pub findings : Map PartitionKey OwnerAuditFinding
  pub restarts : ℕ

unfoldable pub new_owner_audit_state : Bool → OwnerAuditState
new_owner_audit_state due = record {
  pending_all = due;
  trigger = startup;
  pending = [];
  findings = [];
  restarts = 0;
}

unfoldable pub has_finding : Bytes → Map PartitionKey OwnerAuditFinding → Bool
has_finding table [] = false
has_finding table ((k, f) ∷ m) = (k.table ≟ table) || has_finding table m

unfoldable pub blocks : Bytes → OwnerAuditState → Bool
blocks table a = (a.pending_all || contains table a.pending) || has_finding table a.findings

-- The method require.
unfoldable pub require_pass : AuditTrigger → OwnerAuditState → OwnerAuditState
require_pass t a = record a { pending_all = true; trigger = t }

unfoldable pub restarted : OwnerAuditState → OwnerAuditState
restarted a =
    require_pass clickhouse_restart
      (record a { restarts = (a.restarts + 1) % 18446744073709551616 })

-- The method begin.
unfoldable pub begin_pass : List Bytes → OwnerAuditState → OwnerAuditState × AuditTrigger
begin_pass tables a = (record a { pending_all = false; pending = tables }, a.trigger)

unfoldable pub table_done : Bytes → OwnerAuditState → OwnerAuditState
table_done table a = record a { pending = keep_if (λ t. not (t ≟ table)) a.pending }

unfoldable pub is_due : OwnerAuditState → Bool
is_due a = a.pending_all || ltb 0 (length a.pending)

-- The method set, without its report of a change.
unfoldable pub set_finding : PartitionKey → OwnerAuditFinding → OwnerAuditState → OwnerAuditState
set_finding k f a = record a { findings = insert k f a.findings }

-- The method clear.
unfoldable pub clear_finding : PartitionKey → OwnerAuditState → OwnerAuditState
clear_finding k a = record a { findings = delete k a.findings }

unfoldable pub without_table :
    Bytes → Map PartitionKey OwnerAuditFinding → Map PartitionKey OwnerAuditFinding
without_table table [] = []
without_table table ((k, f) ∷ m) =
    let rest = without_table table m in if k.table ≟ table then rest else (k, f) ∷ rest

unfoldable pub forget_audit : Bytes → OwnerAuditState → OwnerAuditState
forget_audit table a = record a {
  pending = keep_if (λ t. not (t ≟ table)) a.pending;
  findings = without_table table a.findings;
}

abbrev pub finding_of : OwnerAuditReason → OwnerAuditPlan → AuditTrigger → OwnerAuditFinding
finding_of reason plan t = record { reason = reason; parts = plan.parts; trigger = t }

-- recordOwnerAudit, for the plan of a partition.
unfoldable pub record_owner_audit :
    AuditTrigger → PartitionKey → OwnerAuditPlan → OwnerAuditState → OwnerAuditState
record_owner_audit t k plan a = elim plan.reason [
  | none ↦ clear_finding k a
  | some reason ↦ set_finding k (finding_of reason plan t) a
]

-- OwnerAuditClean, by the mode.
unfoldable pub owner_audit_clean : Bool → Bytes → OwnerAuditState → Bool
owner_audit_clean repair table a = not repair || not (blocks table a)

pub data AuditEvent : Type 0 where
  requires : AuditTrigger → AuditEvent
  restarts : AuditEvent
  begins : List Bytes → AuditEvent
  done : Bytes → AuditEvent
  records : AuditTrigger → PartitionKey → OwnerAuditPlan → AuditEvent
  forgets : Bytes → AuditEvent

unfoldable pub audit_step : AuditEvent → OwnerAuditState → OwnerAuditState
audit_step (requires t) a = require_pass t a
audit_step restarts a = restarted a
audit_step (begins tables) a = (begin_pass tables a).0
audit_step (done table) a = table_done table a
audit_step (records t k plan) a = record_owner_audit t k plan a
audit_step (forgets table) a = forget_audit table a

unfoldable pub after_audit_events : List AuditEvent → OwnerAuditState → OwnerAuditState
after_audit_events [] a = a
after_audit_events (e ∷ es) a = after_audit_events es (audit_step e a)
