-- ===== src/Snode/OwnerAudit/Repairs.antt =====
-- What the owner audit of snode/owner_audit.go leaves active, and when it is clean.
use arbiter_core.Snode.OwnerAudit.{
  AuditPart, audit_part_eq, OwnerAuditInputs, Chosen, chosen, no_reference, refused, OwnerAuditPlan,
  audit_part, is_acked, is_twin, plan_owner_audit, drop_parts, after_repair, reference_of, or_plan,
  audit_partition, audited, audited_choice, owner_audit_reference_for,
}
use arbiter_core.Snode.PromoteMatch.{Part, part_names}
use arbiter_core.Base.{
  refl, Bool, true, false, none, some, List, [], ◌∷◌, arith, list_eq, nat_eq, list_ord, nat_ord,
  ◌≟◌, ≟_iff, Bytes, ◌≡◌, ◌≤◌, ◌<◌, ltb, length, keep_if, contains, count, contains-sort, inl, inr,
  Bool-cases, ap, ◌∙◌, not, ◌≢◌, ◌||◌,
}
use arbiter_core.Snode.OwnerAudit.Plans.{audit_parts, plan-clean, plan-dropping}

-- The audit against a reference: what it records and leaves, by its branches.
audited-IsExact :
    (ref : List AuditPart) (plan : OwnerAuditPlan) (left : List Part) (listed : Bool)
    → plan.reason ≢ none
    → (or_plan plan (after_repair ref listed left)).reason ≡ none
    → (a : AuditPart) → contains a (audit_parts left) ≡ contains a ref
audited-IsExact ref plan left true d h a = plan-clean ref left h a
audited-IsExact ref plan left false d h a = absurd (d h)

audited-exact :
    (repair : Bool) (fails : Bytes → Bool) (listed : Bool) (ref : List AuditPart)
    → (active : List Part)
    → let plan = plan_owner_audit (some ref) active in
      (audited repair fails listed ref plan active).1.reason ≡ none
      → (a : AuditPart)
      → contains a (audit_parts (audited repair fails listed ref plan active).0) ≡ contains a ref
unfolding audited
audited-exact repair fails listed ref active h a =
    let plan = plan_owner_audit (some ref) active in
    let dropped = drop_parts fails plan.drop active in
    elim (Bool-cases (not repair || not (ltb 0 (length plan.drop)))) [
      | inl e ↦ rw e (plan-clean ref active (rw e at h) a)
      | inr e ↦
          let says = plan-dropping ref active (ground (arith, e)) in
          let unclean : plan.reason ≢ none = λ q. cc in
          elim (Bool-cases dropped.1) [
            | inl f ↦ let k : plan.reason ≡ none = rw (e, f) at h in absurd (unclean k)
            | inr f ↦
                let k : (or_plan plan (after_repair ref listed dropped.0)).reason ≡ none =
                  rw (e, f) at h in
                rw (e, f) (audited-IsExact ref plan dropped.0 listed unclean k a)
          ]
    ]

-- A clean audit is exact: when auditPartitionLocked records no finding against a reference, in
-- either mode and whatever ClickHouse answers to its drops, the parts that it leaves active are
-- those of the reference, by name and hash_of_all_files.
pub audit_partition-exact :
    (repair : Bool) (fails : Bytes → Bool) (listed : Bool) (inputs : OwnerAuditInputs)
    → (active : List Part) (ref : List AuditPart)
    → reference_of (owner_audit_reference_for inputs) ≡ some ref
    → (audit_partition repair fails listed inputs active).1.reason ≡ none
    → (a : AuditPart)
    → contains a (audit_parts (audit_partition repair fails listed inputs active).0)
      ≡ contains a ref
unfolding audit_partition
audit_partition-exact repair fails listed inputs active ref e h a =
    choice_exact (owner_audit_reference_for inputs) e h
  where
    choice_exact :
        (choice : Chosen)
        → reference_of choice ≡ some ref
        → (audited_choice repair fails listed active choice).1.reason ≡ none
        → contains a (audit_parts (audited_choice repair fails listed active choice).0)
          ≡ contains a ref
    choice_exact no_reference p q = cc
    choice_exact (refused reason) p q = cc
    choice_exact (chosen r) p q =
        let same : r.parts ≡ ref = cc in
        audited-exact repair fails listed r.parts active q a ∙ ap (contains a) same

contains-keep_other :
    (a : AuditPart) (n : Bytes) (ps : List Part)
    → (a.name ≟ n) ≡ false
    → contains a (audit_parts (keep_if (λ p. not (p.name ≟ n)) ps)) ≡ contains a (audit_parts ps)
unfolding contains
contains-keep_other a n [] h = refl
contains-keep_other a n (p ∷ ps) h = ground (
  arith,
  h,
  contains-keep_other a n ps,
  ≟_iff (audit_part p) a,
  ap (λ (b : AuditPart). b.name ≟ n),
)

-- A drop of other names leaves a part.
contains-drop_parts :
    (fails : Bytes → Bool) (a : AuditPart) (ns : List Bytes) (ps : List Part)
    → contains a.name ns ≡ false
    → contains a (audit_parts (drop_parts fails ns ps).0) ≡ contains a (audit_parts ps)
unfolding drop_parts contains
contains-drop_parts fails a [] ps h = refl
contains-drop_parts fails a (n ∷ ns) ps h =
    let apart : (a.name ≟ n) ≡ false = ground (arith, h, ≟_iff a.name n, ≟_iff n a.name) in
    ground (
      arith,
      h,
      contains-keep_other a n ps apart,
      contains-drop_parts fails a ns (keep_if (λ p. not (p.name ≟ n)) ps),
    )

named-count :
    (f : Part → Bool) (n : Bytes) (ps : List Part)
    → contains n (part_names (keep_if f ps)) ≡ true
    → 0 < count n (part_names ps)
unfolding contains count
named-count f n [] h = cc
named-count f n (p ∷ ps) h = ground (arith, h, named-count f n ps)

held-count :
    (a : AuditPart) (ps : List Part)
    → contains a (audit_parts ps) ≡ true
    → 0 < count a.name (part_names ps)
unfolding contains count
held-count a [] h = cc
held-count a (p ∷ ps) h = ground (
  arith,
  h,
  held-count a ps,
  ≟_iff (audit_part p) a,
  ≟_iff p.name a.name,
  ap (λ (b : AuditPart). b.name),
)

-- Where names are unique, no twin has the name of a part that the reference carries.
acked-ne_twin :
    (ref : List AuditPart) (active ps : List Part) (a : AuditPart)
    → contains a ref ≡ true
    → contains a (audit_parts ps) ≡ true
    → count a.name (part_names ps) ≤ 1
    → contains a.name (part_names (keep_if (is_twin ref active) ps)) ≡ false
unfolding contains count is_twin is_acked
acked-ne_twin ref active [] a k h u = cc
acked-ne_twin ref active (p ∷ ps) a k h u = elim (Bool-cases (audit_part p ≟ a)) [
  | inl e ↦
      let at = (≟_iff (audit_part p) a).0 e in
      let here : contains (audit_part p) ref ≡ true = ap (λ b. contains b ref) at ∙ k in
      let name : p.name ≡ a.name = ap (λ (b : AuditPart). b.name) at in
      elim (Bool-cases (contains a.name (part_names (keep_if (is_twin ref active) ps)))) [
        | inr f ↦ ground (arith, here, f)
        | inl f ↦ absurd (
            ground
              (arith, u, named-count (is_twin ref active) a.name ps f, name, ≟_iff p.name a.name))
      ]
  | inr e ↦
      let there : contains a (audit_parts ps) ≡ true = ground (arith, h, e) in
      let some_named = held-count a ps there in
      ground (arith, u, some_named, e, acked-ne_twin ref active ps a k there)
]

plan-drop :
    (ref : List AuditPart) (active : List Part) (n : Bytes)
    → contains n (part_names (keep_if (is_twin ref active) active)) ≡ false
    → contains n (plan_owner_audit (some ref) active).drop ≡ false
unfolding plan_owner_audit contains
plan-drop ref active n h =
    ground (arith, h, contains-sort n (part_names (keep_if (is_twin ref active) active)))

audited-keeps :
    (repair : Bool) (fails : Bytes → Bool) (listed : Bool) (ref : List AuditPart)
    → (active : List Part) (a : AuditPart)
    → contains a.name (plan_owner_audit (some ref) active).drop ≡ false
    → contains a (
        audit_parts (audited repair fails listed ref (plan_owner_audit (some ref) active) active).0)
      ≡ contains a (audit_parts active)
unfolding audited
audited-keeps repair fails listed ref active a h =
    let plan = plan_owner_audit (some ref) active in
    ground (arith, contains-drop_parts fails a plan.drop active h)

-- The audit loses no acknowledged part: where the active parts have different names, a part of the
-- reference that is active stays active, in either mode, also when a drop fails half way.
pub audit_partition-keeps :
    (repair : Bool) (fails : Bytes → Bool) (listed : Bool) (inputs : OwnerAuditInputs)
    → (active : List Part) (ref : List AuditPart) (a : AuditPart)
    → reference_of (owner_audit_reference_for inputs) ≡ some ref
    → ((n : Bytes) → count n (part_names active) ≤ 1)
    → contains a ref ≡ true
    → contains a (audit_parts active) ≡ true
    → contains a (audit_parts (audit_partition repair fails listed inputs active).0) ≡ true
unfolding audit_partition
audit_partition-keeps repair fails listed inputs active ref a e u k h =
    choice_keeps (owner_audit_reference_for inputs) e
  where
    choice_keeps :
        (choice : Chosen)
        → reference_of choice ≡ some ref
        → contains a (audit_parts (audited_choice repair fails listed active choice).0) ≡ true
    choice_keeps no_reference p = cc
    choice_keeps (refused reason) p = cc
    choice_keeps (chosen r) p =
        let same : r.parts ≡ ref = cc in
        let known : contains a r.parts ≡ true = ap (contains a) same ∙ k in
        audited-keeps repair fails listed r.parts active a (
          plan-drop r.parts active a.name
            (acked-ne_twin r.parts active active a known h (u a.name)))
        ∙ h
