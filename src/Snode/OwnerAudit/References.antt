-- ===== src/Snode/OwnerAudit/References.antt =====
-- The choice of the reference in snode/owner_audit_plan.go.
use arbiter_core.Snode.OwnerAudit.{
  AuditPart, audit_part_eq, audit_part_ord, OwnerAuditInputs, PartitionState, ManifestEntry,
  OwnerAuditReference, rebuilt_source, chosen, local_parts, local_contents, fsm_contents, tally,
  takes_all, same_content, same_part_set, local_reference, fsm_reference, newer_reference,
  is_rebuilt_at, entries_of, both_references, is_ahead, owner_audit_reference_for,
}
use arbiter_core.Types.{SafePartMapping}
use arbiter_core.Snode.State.{AckedSafeInventory}
use arbiter_core.Base.{
  ℕ, refl, true, false, Option, none, some, List, [], ◌∷◌, arith, list_eq, nat_eq, list_ord,
  nat_ord, ◌≟◌, ≟_iff, Bytes, ◌≡◌, ◌≤◌, ◌<◌, ltb, length, count, sort, SameItems, count-sort,
  count-le_eq, take_one, bump, inl, inr, Bool-cases, Option-cases, ap, sym, ◌∙◌, ◌&&◌, ◌⊎◌,
}

count-tally : (c : List Bytes) (cs : List (List Bytes)) → tally cs c ≡ count c cs
unfolding tally count bump
count-tally c [] = refl
count-tally c (d ∷ cs) = ground (arith, count-tally c cs)

takes_all-count :
    (cs : List (List Bytes)) (left : List Bytes → ℕ)
    → takes_all cs left ≡ true
    → (c : List Bytes) → count c cs ≤ left c
unfolding takes_all count take_one
takes_all-count [] left h c = omega arith
takes_all-count (d ∷ cs) left h c =
    let rest = takes_all-count cs (take_one d left) (ground (arith, h)) c in
    elim (Bool-cases (d ≟ c)) [
      | inl p ↦ let at = ap left ((≟_iff d c).0 p) in ground (arith, h, rest, p, at)
      | inr p ↦ ground (arith, rest, p)
    ]

length-local_contents : (ms : List SafePartMapping) → length (local_contents ms) ≡ length ms
length-local_contents [] = refl
length-local_contents (m ∷ ms) = ground (arith, length-local_contents ms)

length-fsm_contents : (es : List ManifestEntry) → length (fsm_contents es) ≡ length es
length-fsm_contents [] = refl
length-fsm_contents (e ∷ es) = ground (arith, length-fsm_contents es)

same_content-SameItems :
    (own : List SafePartMapping) (fsm : List ManifestEntry)
    → same_content own fsm ≡ true
    → SameItems (local_contents own) (fsm_contents fsm)
unfolding same_content
same_content-SameItems own fsm h =
    let taken : takes_all (fsm_contents fsm) (tally (local_contents own)) ≡ true =
      ground (arith, h) in
    let size : length fsm ≡ length own = ground (arith, h, ≟_iff (length own) (length fsm)) in
    let within : (c : List Bytes) → count c (fsm_contents fsm) ≤ count c (local_contents own) = λ c.
      omega (
        arith,
        takes_all-count (fsm_contents fsm) (tally (local_contents own)) taken c,
        count-tally c (local_contents own),
      ) in
    λ c. sym (
      count-le_eq (fsm_contents fsm) (local_contents own) within
        (omega (arith, length-fsm_contents fsm, length-local_contents own)) c)

same_part_set-SameItems : (a b : List AuditPart) → same_part_set a b ≡ true → SameItems a b
unfolding same_part_set
same_part_set-SameItems a b h p =
    let same : sort a ≡ sort b = (≟_iff (sort a) (sort b)).0 (ground (arith, h)) in
    sym (count-sort p a) ∙ ap (count p) same ∙ count-sort p b

-- What the chosen reference is, of the two that there may be.
pub record IsNewest (i : OwnerAuditInputs) (r : OwnerAuditReference) : Type 0 where
  pub not_behind : i.fsm_available ≡ true → is_ahead i.watermark i.fsm ≡ false
  pub own : (inv : AckedSafeInventory) → i.acked ≡ some inv → inv.promotion_seq ≤ r.seq
  pub fsm : i.fsm_available ≡ true → (fsm_reference i.fsm).seq ≤ r.seq
  pub parts :
      ((inv : AckedSafeInventory) × (i.acked ≡ some inv) × (r.parts ≡ local_parts inv.parts))
      ⊎ ((i.fsm_available ≡ true) × (r.parts ≡ (fsm_reference i.fsm).parts))
  pub agree :
      (inv : AckedSafeInventory)
      → i.acked ≡ some inv
      → i.fsm_available ≡ true
      → inv.promotion_seq ≡ (fsm_reference i.fsm).seq
      → SameItems (local_parts inv.parts) (fsm_reference i.fsm).parts
        ⊎ ((inv.rebuilt ≡ true)
            × SameItems (local_contents inv.parts) (fsm_contents (entries_of i.fsm)))

newer_reference-cases :
    (own fsm r : OwnerAuditReference)
    → newer_reference own fsm ≡ chosen r
    → ((r ≡ own) × (fsm.seq ≤ own.seq) × (own.seq ≡ fsm.seq → SameItems own.parts fsm.parts))
      ⊎ ((r ≡ fsm) × (own.seq < fsm.seq))
unfolding newer_reference
newer_reference-cases own fsm r h = elim (Bool-cases (ltb own.seq fsm.seq)) [
  | inl p ↦ inr (ground (arith, h, p), ground (arith, p))
  | inr p ↦ elim (Bool-cases (ltb fsm.seq own.seq)) [
    | inl q ↦ inl (ground (arith, h, p, q), ground (arith, p), λ e. absurd (ground (arith, q, e)))
    | inr q ↦ elim (Bool-cases (same_part_set own.parts fsm.parts)) [
      | inl s ↦ inl (
        ground (arith, h, p, q, s),
        ground (arith, p),
        λ e. same_part_set-SameItems own.parts fsm.parts s,
      )
      | inr s ↦ absurd (ground (arith, h, p, q, s))
    ]
  ]
]

rebuilt_at :
    (inv : AckedSafeInventory) (s : Option PartitionState)
    → is_rebuilt_at inv s ≡ true
    → (fsm_reference s).seq ≡ inv.promotion_seq
unfolding fsm_reference
rebuilt_at inv none p = cc
rebuilt_at inv (some s) p = ground (arith, p)

rebuilt_at-rebuilt :
    (inv : AckedSafeInventory) (s : Option PartitionState)
    → is_rebuilt_at inv s ≡ true
    → inv.rebuilt ≡ true
rebuilt_at-rebuilt inv none p = cc
rebuilt_at-rebuilt inv (some s) p = ground (arith, p)

both_references-IsNewest :
    (i : OwnerAuditInputs) (inv : AckedSafeInventory) (r : OwnerAuditReference)
    → i.acked ≡ some inv
    → i.fsm_available ≡ true
    → is_ahead i.watermark i.fsm ≡ false
    → both_references inv i.fsm ≡ chosen r
    → IsNewest i r
unfolding both_references
both_references-IsNewest i inv r e f g h = elim (Bool-cases (is_rebuilt_at inv i.fsm)) [
  | inl p ↦ elim (Bool-cases (same_content inv.parts (entries_of i.fsm))) [
    | inr q ↦ absurd (ground (arith, h, p, q))
    | inl q ↦
        let rebuilt : OwnerAuditReference = record (local_reference inv) {
          source = rebuilt_source;
        } in
        let same : rebuilt ≡ r = ground (arith, h, p, q) in
        let at : (fsm_reference i.fsm).seq ≡ inv.promotion_seq = rebuilt_at inv i.fsm p in
        rw (← same) record {
          not_behind = λ u. g;
          own = λ j u. let v : inv ≡ j = cc in rw (← v) (omega arith);
          fsm = λ u. omega (arith, at);
          parts = inl (inv, e, refl);
          agree = λ j u v w.
              let x : inv ≡ j = cc in
              rw (← x) (
                inr (
                  rebuilt_at-rebuilt inv i.fsm p,
                  same_content-SameItems inv.parts (entries_of i.fsm) q,
                ));
        }
  ]
  | inr p ↦
      let own = local_reference inv in
      let fsm = fsm_reference i.fsm in
      elim (newer_reference-cases own fsm r (ground (arith, h, p))) [
        | inl (same, le, items) ↦ rw same record {
          not_behind = λ u. g;
          own = λ j u. let v : inv ≡ j = cc in rw (← v) (omega arith);
          fsm = λ u. le;
          parts = inl (inv, e, refl);
          agree = λ j u v w.
              let x : inv ≡ j = cc in
              rw (← x) (inl (items (ap (λ (y : AckedSafeInventory). y.promotion_seq) x ∙ w)));
        }
        | inr (same, lt) ↦ rw same record {
          not_behind = λ u. g;
          own = λ j u. let v : inv ≡ j = cc in rw (← v) (omega (arith, lt));
          fsm = λ u. omega arith;
          parts = inr (f, refl);
          agree = λ j u v w.
              let x : inv ≡ j = cc in
              let y : inv.promotion_seq ≡ fsm.seq =
                ap (λ (z : AckedSafeInventory). z.promotion_seq) x ∙ w in
              absurd (omega (arith, lt, y));
        }
      ]
]

-- The chosen reference is the newest of the member's acknowledged inventory and the arbiter's: it is
-- one of the two, its number is not below either's, the arbiter is not past the watermark, and where
-- the two have one number they hold the same parts, by name and hash_of_all_files, or, for a
-- rebuilt inventory, the same multiset of row hash and hash_of_all_files.
pub owner_audit_reference_for-IsNewest :
    (i : OwnerAuditInputs) (r : OwnerAuditReference)
    → owner_audit_reference_for i ≡ chosen r
    → IsNewest i r
unfolding owner_audit_reference_for
owner_audit_reference_for-IsNewest i r h =
    elim (Bool-cases (i.fsm_available && is_ahead i.watermark i.fsm)) [
      | inl a ↦ absurd (ground (arith, h, a))
      | inr a ↦ elim (Option-cases i.acked) [
        | inl e ↦ elim (Bool-cases i.fsm_available) [
          | inr f ↦ absurd (ground (arith, h, a, e, f))
          | inl f ↦
              let same : fsm_reference i.fsm ≡ r = ground (arith, h, a, e, f) in
              rw (← same) record {
                not_behind = λ u. ground (arith, a, u);
                own = λ j u. absurd cc;
                fsm = λ u. omega arith;
                parts = inr (f, refl);
                agree = λ j u v w. absurd cc;
              }
        ]
        | inr (inv, e) ↦ elim (Bool-cases i.fsm_available) [
          | inr f ↦
              let same : local_reference inv ≡ r = ground (arith, h, a, e, f) in
              rw (← same) record {
                not_behind = λ u. absurd cc;
                own = λ j u. let v : inv ≡ j = cc in rw (← v) (omega arith);
                fsm = λ u. absurd cc;
                parts = inl (inv, e, refl);
                agree = λ j u v w. absurd cc;
              }
          | inl f ↦
              both_references-IsNewest i inv r e f (ground (arith, a, f))
                (ground (arith, h, a, e, f))
        ]
      ]
    ]
