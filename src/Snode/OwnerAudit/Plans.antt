-- ===== src/Snode/OwnerAudit/Plans.antt =====
-- When the plan of snode/owner_audit_plan.go is clean.
use arbiter_core.Snode.OwnerAudit.{
  AuditPart, audit_part_eq, unacknowledged_part, audit_part, is_acked, is_twin, is_unacknowledged,
  is_missing, audit_names, plan_owner_audit,
}
use arbiter_core.Snode.PromoteMatch.{Part, part_names}
use arbiter_core.Base.{
  refl, Bool, true, false, none, some, List, [], ◌∷◌, arith, list_eq, nat_eq, list_ord, nat_ord,
  ◌≟◌, ≟_iff, ◌≡◌, ltb, length, keep_if, any, contains, sort, length-sort, inl, inr, Bool-cases, ap,
  sym, ◌∙◌,
}

abbrev pub audit_parts : List Part → List AuditPart
audit_parts [] = []
audit_parts (p ∷ ps) = audit_part p ∷ audit_parts ps

length-names :
    (f : Part → Bool) (ps : List Part) → ltb 0 (length (part_names (keep_if f ps))) ≡ any f ps
length-names f [] = refl
length-names f (p ∷ ps) = ground (arith, length-names f ps)

-- The lists of the plan are empty when no part is of the kind.
listed-any :
    (f : Part → Bool) (ps : List Part)
    → ltb 0 (length (sort (part_names (keep_if f ps)))) ≡ any f ps
listed-any f ps = ap (ltb 0) (length-sort (part_names (keep_if f ps))) ∙ length-names f ps

length-audit_names :
    (f : AuditPart → Bool) (rs : List AuditPart)
    → ltb 0 (length (audit_names (keep_if f rs))) ≡ any f rs
length-audit_names f [] = refl
length-audit_names f (r ∷ rs) = ground (arith, length-audit_names f rs)

missing-any :
    (f : AuditPart → Bool) (rs : List AuditPart)
    → ltb 0 (length (sort (audit_names (keep_if f rs)))) ≡ any f rs
missing-any f rs = ap (ltb 0) (length-sort (audit_names (keep_if f rs))) ∙ length-audit_names f rs

contains-audit_parts :
    (a : AuditPart) (ps : List Part) → contains a (audit_parts ps) ≡ any (λ q. audit_part q ≟ a) ps
unfolding contains
contains-audit_parts a [] = refl
contains-audit_parts a (p ∷ ps) = ground (arith, contains-audit_parts a ps)

-- Where no part is a twin or unacknowledged, each is in the reference.
all_acked :
    (ref : List AuditPart) (active qs : List Part) (a : AuditPart)
    → any (is_twin ref active) qs ≡ false
    → any (is_unacknowledged ref active) qs ≡ false
    → contains a (audit_parts qs) ≡ true
    → contains a ref ≡ true
unfolding contains is_twin is_unacknowledged is_acked
all_acked ref active [] a t u h = cc
all_acked ref active (q ∷ qs) a t u h = elim (Bool-cases (audit_part q ≟ a)) [
  | inr p ↦ all_acked ref active qs a (ground (arith, t)) (ground (arith, u)) (ground (arith, h, p))
  | inl p ↦
      let here : contains (audit_part q) ref ≡ true = ground (arith, t, u) in
      ap (λ b. contains b ref) (sym ((≟_iff (audit_part q) a).0 p)) ∙ here
]

none_missing :
    (active : List Part) (rs : List AuditPart) (a : AuditPart)
    → any (is_missing active) rs ≡ false
    → contains a rs ≡ true
    → any (λ q. audit_part q ≟ a) active ≡ true
unfolding contains is_missing
none_missing active [] a m h = cc
none_missing active (r ∷ rs) a m h = elim (Bool-cases (r ≟ a)) [
  | inr p ↦ none_missing active rs a (ground (arith, m)) (ground (arith, h, p))
  | inl p ↦
      let here : any (λ q. audit_part q ≟ r) active ≡ true = ground (arith, m) in
      ap (λ b. any (λ q. audit_part q ≟ b) active) (sym ((≟_iff r a).0 p)) ∙ here
]

-- A clean plan: the active parts are those of the reference.
pub plan-clean :
    (ref : List AuditPart) (active : List Part)
    → (plan_owner_audit (some ref) active).reason ≡ none
    → (a : AuditPart) → contains a (audit_parts active) ≡ contains a ref
unfolding plan_owner_audit
plan-clean ref active h a =
    let u : any (is_unacknowledged ref active) active ≡ false =
      ground (arith, h, listed-any (is_unacknowledged ref active) active) in
    let m : any (is_missing active) ref ≡ false = ground (
      arith,
      h,
      u,
      listed-any (is_unacknowledged ref active) active,
      missing-any (is_missing active) ref,
    ) in
    let t : any (is_twin ref active) active ≡ false = ground (
      arith,
      h,
      u,
      m,
      listed-any (is_unacknowledged ref active) active,
      missing-any (is_missing active) ref,
      listed-any (is_twin ref active) active,
    ) in
    ground (
      arith,
      all_acked ref active active a t u,
      none_missing active ref a m,
      contains-audit_parts a active,
    )

-- A plan with drops says so.
pub plan-dropping :
    (ref : List AuditPart) (active : List Part)
    → ltb 0 (length (plan_owner_audit (some ref) active).drop) ≡ true
    → (plan_owner_audit (some ref) active).reason ≡ some unacknowledged_part
unfolding plan_owner_audit
plan-dropping ref active h = ground (arith, h)
