-- ===== src/Snode/OwnerAudit/Held.antt =====
-- Which tables ownerAuditState of snode/owner_audit_plan.go holds, and until when.
use arbiter_core.Snode.State.{PartitionKey}
use arbiter_core.Snode.OwnerAudit.{OwnerAuditPlan}
use arbiter_core.Base.{
  refl, Bool, true, false, none, some, List, [], ◌∷◌, arith, list_eq, nat_eq, ◌≟◌, ≟_iff, Bytes,
  ◌≡◌, Map, lookup, all, contains, keep_if, inl, inr, Bool-cases, Option-cases, ap, ◌||◌, not, ◌≢◌,
  lookup-delete, lookup-insert_self, lookup-insert,
}
use arbiter_core.Snode.OwnerAudit.Tables.{
  requires, restarts, begins, done, records, forgets, partition_key_eq, AuditEvent, AuditTrigger,
  OwnerAuditFinding, OwnerAuditState, after_audit_events, audit_step, begin_pass, blocks,
  clear_finding, finding_of, forget_audit, has_finding, owner_audit_clean, record_owner_audit,
  require_pass, restarted, set_finding, table_done, without_table, begins, records, requires, done,
  forgets,
}

-- The event neither ends the audit of the table nor forgets it, and a pass that begins takes it.
abbrev pub keeps_pending : Bytes → AuditEvent → Bool
keeps_pending table (begins tables) = contains table tables
keeps_pending table (done t) = not (t ≟ table)
keeps_pending table (forgets t) = not (t ≟ table)
keeps_pending table (requires t) = true
keeps_pending table restarts = true
keeps_pending table (records t k plan) = true

-- The event neither records a clean plan of the partition nor forgets its table.
abbrev pub keeps_finding : PartitionKey → AuditEvent → Bool
keeps_finding k (records t j plan) = elim plan.reason [ none ↦ not (j ≟ k) | some r ↦ true ]
keeps_finding k (forgets t) = not (t ≟ k.table)
keeps_finding k (requires t) = true
keeps_finding k restarts = true
keeps_finding k (begins tables) = true
keeps_finding k (done t) = true

contains-keep_others :
    (table t : Bytes) (pending : List Bytes)
    → (t ≟ table) ≡ false
    → contains table (keep_if (λ s. not (s ≟ t)) pending) ≡ contains table pending
unfolding contains
contains-keep_others table t [] h = refl
contains-keep_others table t (s ∷ pending) h =
    ground
      (arith, h, contains-keep_others table t pending h, ≟_iff s t, ≟_iff s table, ≟_iff t table)

abbrev IsPending : Bytes → OwnerAuditState → Type 0
IsPending table a = (a.pending_all || contains table a.pending) ≡ true

audit_step-IsPending :
    (table : Bytes) (e : AuditEvent) (a : OwnerAuditState)
    → keeps_pending table e ≡ true
    → IsPending table a
    → IsPending table (audit_step e a)
unfolding audit_step require_pass restarted begin_pass table_done forget_audit record_owner_audit
    clear_finding set_finding
audit_step-IsPending table (requires t) a k h = refl
audit_step-IsPending table restarts a k h = refl
audit_step-IsPending table (begins tables) a k h = ground (arith, k)
audit_step-IsPending table (done t) a k h =
    ground (arith, h, contains-keep_others table t a.pending (ground (arith, k)))
audit_step-IsPending table (forgets t) a k h =
    ground (arith, h, contains-keep_others table t a.pending (ground (arith, k)))
audit_step-IsPending table (records t j plan) a k h = elim (Option-cases plan.reason) [
  | inl e ↦ rw (e, record_owner_audit) h
  | inr (r, e) ↦ rw (e, record_owner_audit) h
]

after_audit_events-IsPending :
    (table : Bytes) (es : List AuditEvent) (a : OwnerAuditState)
    → all (keeps_pending table) es ≡ true
    → IsPending table a
    → IsPending table (after_audit_events es a)
unfolding after_audit_events
after_audit_events-IsPending table [] a k h = h
after_audit_events-IsPending table (e ∷ es) a k h =
    after_audit_events-IsPending table es (audit_step e a) (ground (arith, k))
      (audit_step-IsPending table e a (ground (arith, k)) h)

restarted-IsPending : (table : Bytes) (a : OwnerAuditState) → IsPending table (restarted a)
unfolding restarted require_pass
restarted-IsPending table a = refl

-- After a restart of ClickHouse a table is held, in repair mode, until its own audit ends: over any
-- events that follow, passes that take it, requests of a new pass and findings of any partition
-- among them, as long as its audit has not ended and it is not forgotten.
pub restarted-held :
    (table : Bytes) (es : List AuditEvent) (a : OwnerAuditState)
    → all (keeps_pending table) es ≡ true
    → owner_audit_clean true table (after_audit_events es (restarted a)) ≡ false
unfolding owner_audit_clean blocks
restarted-held table es a k =
    ground
      (arith, after_audit_events-IsPending table es (restarted a) k (restarted-IsPending table a))

abbrev HasFinding : PartitionKey → OwnerAuditState → Type 0
HasFinding k a = lookup k a.findings ≢ none

has_finding-lookup :
    (k : PartitionKey) (m : Map PartitionKey OwnerAuditFinding) (f : OwnerAuditFinding)
    → lookup k m ≡ some f
    → has_finding k.table m ≡ true
unfolding has_finding lookup
has_finding-lookup k [] f h = cc
has_finding-lookup k ((j, g) ∷ m) f h = ground (
  arith,
  h,
  has_finding-lookup k m f,
  ≟_iff j k,
  ≟_iff j.table k.table,
  ap (λ (i : PartitionKey). i.table),
)

lookup-without_table :
    (k : PartitionKey) (table : Bytes) (m : Map PartitionKey OwnerAuditFinding)
    → (table ≟ k.table) ≡ false
    → lookup k (without_table table m) ≡ lookup k m
unfolding without_table lookup
lookup-without_table k table [] h = refl
lookup-without_table k table ((j, g) ∷ m) h = elim (Bool-cases (j ≟ k)) [
  | inr p ↦ ground (arith, h, p, lookup-without_table k table m h)
  | inl p ↦
      let at : j.table ≡ k.table = ap (λ (i : PartitionKey). i.table) ((≟_iff j k).0 p) in
      ground (arith, h, p, at, ≟_iff j.table table, ≟_iff table k.table)
]

audit_step-HasFinding :
    (k : PartitionKey) (e : AuditEvent) (a : OwnerAuditState)
    → keeps_finding k e ≡ true
    → HasFinding k a
    → HasFinding k (audit_step e a)
unfolding audit_step require_pass restarted begin_pass table_done forget_audit record_owner_audit
    clear_finding set_finding
audit_step-HasFinding k (requires t) a h f = f
audit_step-HasFinding k restarts a h f = f
audit_step-HasFinding k (begins tables) a h f = f
audit_step-HasFinding k (done t) a h f = f
audit_step-HasFinding k (forgets t) a h f =
    rw (lookup-without_table k t a.findings (ground (arith, h))) f
audit_step-HasFinding k (records t j plan) a h f = elim (Option-cases plan.reason) [
  | inl e ↦ λ q. f (ground (arith, h, e, q, lookup-delete j k a.findings))
  | inr (r, e) ↦ λ q. f (ground (arith, e, q, lookup-insert j k (finding_of r plan t) a.findings))
]

after_audit_events-HasFinding :
    (k : PartitionKey) (es : List AuditEvent) (a : OwnerAuditState)
    → all (keeps_finding k) es ≡ true
    → HasFinding k a
    → HasFinding k (after_audit_events es a)
unfolding after_audit_events
after_audit_events-HasFinding k [] a h f = f
after_audit_events-HasFinding k (e ∷ es) a h f =
    after_audit_events-HasFinding k es (audit_step e a) (ground (arith, h))
      (audit_step-HasFinding k e a (ground (arith, h)) f)

-- A plan with a reason leaves a finding.
record_owner_audit-HasFinding :
    (t : AuditTrigger) (k : PartitionKey) (plan : OwnerAuditPlan) (a : OwnerAuditState)
    → plan.reason ≢ none
    → HasFinding k (record_owner_audit t k plan a)
unfolding record_owner_audit set_finding
record_owner_audit-HasFinding t k plan a h = elim (Option-cases plan.reason) [
  | inl e ↦ absurd (h e)
  | inr (r, e) ↦ λ q.
      let there = lookup-insert_self k (finding_of r plan t) a.findings in
      ground (arith, e, q, there)
]

finding-blocks : (k : PartitionKey) (a : OwnerAuditState) → HasFinding k a → blocks k.table a ≡ true
unfolding blocks
finding-blocks k a h = elim (Option-cases (lookup k a.findings)) [
  | inl e ↦ absurd (h e)
  | inr (f, e) ↦ ground (arith, has_finding-lookup k a.findings f e)
]

-- A finding holds its table, in repair mode, over any events that follow, a pass that begins and
-- ends among them, until a clean plan of the same partition is recorded or the table forgotten.
pub found-held :
    (t : AuditTrigger) (k : PartitionKey) (plan : OwnerAuditPlan) (es : List AuditEvent)
    → (a : OwnerAuditState) → plan.reason ≢ none
    → all (keeps_finding k) es ≡ true
    → owner_audit_clean true k.table (after_audit_events es (record_owner_audit t k plan a)) ≡ false
unfolding owner_audit_clean
found-held t k plan es a r h = ground (
  arith,
  finding-blocks k (after_audit_events es (record_owner_audit t k plan a)) (
      after_audit_events-HasFinding k es (record_owner_audit t k plan a) h
        (record_owner_audit-HasFinding t k plan a r)),
)
