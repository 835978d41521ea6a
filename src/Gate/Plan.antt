-- ===== src/Gate/Plan.antt =====
-- PlanPartition and Closure of member/gate/gate.go.
use arbiter_core.Base.{
  ℕ, ◌+◌, ◌<◌, min, ◌≡◌, refl, ◌∙◌, ◌↔◌, ◌≢◌, inl, inr, true, false, Option, none, some, List, [],
  ◌∷◌, ◌++◌, map, Bytes, ◌≟◌, ≟_iff, ≟_refl, list_eq, nat_eq, list_ord, nat_ord, ◌==◌, ok, err,
  count, count-append, bump, take_one, count-sort, sort-IsSorted, IsSorted, SameItems, arith,
  Option-cases, Bool-cases, All, All-sort, >>=-eq-ok, guard-eq-ok,
}
use arbiter_core.Gate.{
  counts, match_local, still_needed, plan_parts, plan_partition, closure, sum_of, canonical_list,
  canonical_one, InstallPlan, manifest_list, root_list, local_list, kept_list, root_mismatch,
}
use arbiter_core.Gate.Laws.{
  IsRowSum, canonical_form, canonical_list-eq-ok, canonical_one-eq-ok, canonical_list-accepted,
  accepted_of_ok,
}

pub counts-count : (h : Bytes) (hs : List Bytes) → counts hs h ≡ count h hs
unfolding counts count bump
counts-count h [] = refl
counts-count h (x ∷ xs) = ground (arith, counts-count h xs)

match_local-count :
    (left after : Bytes → ℕ) (l : List Bytes) (h : Bytes)
    → match_local left l ≡ some after
    → left h ≡ count h l + after h
unfolding match_local count take_one
match_local-count left after [] h e = ground (arith)
match_local-count left after (x ∷ l) h e =
    ground (arith, ≟_iff x h, match_local-count (take_one x left) after l h)

match_local-surplus :
    (left : Bytes → ℕ) (l : List Bytes)
    → match_local left l ≡ none
    → (h : Bytes) × (left h < count h l)
unfolding match_local count take_one
match_local-surplus left [] e = cc
match_local-surplus left (x ∷ l) e = elim (Bool-cases (left x == 0)) [
  | inl z ↦ (x, ground (arith, ≟_refl x))
  | inr z ↦
      let (h, lt) = match_local-surplus (take_one x left) l (ground arith) in
      (h, ground (arith, ≟_iff x h))
]

count-still_needed :
    (left : Bytes → ℕ) (m : List Bytes) (h : Bytes)
    → count h (still_needed left m) ≡ min (left h) (count h m)
unfolding still_needed count take_one
count-still_needed left [] h = omega arith
count-still_needed left (x ∷ m) h =
    ground (arith, ≟_iff x h, count-still_needed (take_one x left) m h, count-still_needed left m h)

plan_parts-need :
    (m l : List Bytes) (r : Bytes)
    → (plan_parts m r l).diverged ≡ false
    → SameItems m (l ++ (plan_parts m r l).need) × IsSorted (plan_parts m r l).need
unfolding plan_parts
plan_parts-need m l r d = elim (Option-cases (match_local (counts m) l)) [
  | inl e ↦ absurd (ground arith)
  | inr (left, e) ↦ (
    λ h.
        rw (count-append h l (plan_parts m r l).need, e, plan_parts, count-sort h)
          (ground (
            arith,
            counts-count h m,
            match_local-count (counts m) left l h e,
            count-still_needed left m h,
          )),
    rw (e, plan_parts) (sort-IsSorted (still_needed left m)),
  )
]

plan_parts-diverged :
    (m l : List Bytes) (r : Bytes)
    → ((plan_parts m r l).diverged ≡ true) ↔ ((h : Bytes) × (count h m < count h l))
unfolding plan_parts
plan_parts-diverged m l r = (
  λ d.
      let (h, lt) = match_local-surplus (counts m) l (ground arith) in
      (h, ground (arith, counts-count h m)),
  λ (h, lt). elim (Option-cases (match_local (counts m) l)) [
    | inl e ↦ rw (e, plan_parts) refl
    | inr (left, e) ↦
        absurd (ground (arith, counts-count h m, match_local-count (counts m) left l h e))
  ],
)

All-still_needed {κ} :
    (P : Bytes → Type κ) (left : Bytes → ℕ) (m : List Bytes) → All P m → All P (still_needed left m)
unfolding still_needed
All-still_needed P left [] a = tt
All-still_needed P left (x ∷ m) a =
    ground (arith, All-still_needed P (take_one x left) m a.1, All-still_needed P left m a.1)

-- The need is made of the manifest's own hashes.
pub All-plan_parts_need {κ} :
    (P : Bytes → Type κ) (m l : List Bytes) (r : Bytes) → All P m → All P (plan_parts m r l).need
unfolding plan_parts
All-plan_parts_need P m l r a = elim (Option-cases (match_local (counts m) l)) [
  | inl e ↦ rw (e, plan_parts) tt
  | inr (left, e) ↦
      rw (e, plan_parts) (All-sort P (still_needed left m) (All-still_needed P left m a))
]

module _ (sum : List Bytes → Option Bytes) where
  -- What a successful plan went through.
  pub record IsPlanned (manifest : List Bytes) (root : Bytes) (local : List Bytes) (p : InstallPlan)
      : Type 0 where
    pub sums : sum_of sum (map (canonical_form sum) manifest) ≡ canonical_form sum root
    pub parts :
        p
        ≡ plan_parts
            (map (canonical_form sum) manifest)
            (canonical_form sum root)
            (map (canonical_form sum) local)
    pub root_ok : canonical_one sum root_list root ≡ ok (canonical_form sum root)
    pub accepted : (s : Bytes) × (sum manifest ≡ some s)
    pub local_ok : canonical_list sum local_list local ≡ ok (map (canonical_form sum) local)

  pub plan_partition-IsPlanned :
      (manifest : List Bytes) (root : Bytes) (local : List Bytes) (p : InstallPlan)
      → plan_partition sum manifest root local ≡ ok p
      → IsPlanned manifest root local p
  unfolding plan_partition
  plan_partition-IsPlanned manifest root local p e =
      let (m, em, e1) = >>=-eq-ok (canonical_list sum manifest_list manifest) _ e in
      let (r, er, e2) = >>=-eq-ok (canonical_one sum root_list root) _ e1 in
      let (same, e3) = guard-eq-ok (sum_of sum m ≟ r) root_mismatch _ e2 in
      let (l, el, e4) = >>=-eq-ok (canonical_list sum local_list local) _ e3 in
      let pm = canonical_list-eq-ok sum manifest_list manifest m em in
      let pr = canonical_one-eq-ok sum root_list root r er in
      let pl = canonical_list-eq-ok sum local_list local l el in
      let manifest_ok = accepted_of_ok sum manifest_list manifest m em in
      record {
        sums = ground (arith, ≟_iff (sum_of sum m) r);
        parts = ground arith;
        root_ok = ground arith;
        accepted = manifest_ok;
        local_ok = ground arith;
      }

  -- A plan that did not diverge asks for exactly what is missing: for every row hash the manifest
  -- lists as many copies as the local parts and the need together (all in the executor's
  -- spelling), the need is ascending, and the plan's root is the executor's spelling of the root.
  pub plan_partition-need :
      (manifest : List Bytes) (root : Bytes) (local : List Bytes) (p : InstallPlan)
      → plan_partition sum manifest root local ≡ ok p
      → p.diverged ≡ false
      → SameItems (map (canonical_form sum) manifest) (map (canonical_form sum) local ++ p.need)
        × IsSorted p.need
        × (p.root ≡ canonical_form sum root)
  unfolding plan_parts
  plan_partition-need manifest root local p e d =
      let v = plan_partition-IsPlanned manifest root local p e in
      let q = v.parts in
      let (items, sorted) =
        plan_parts-need (map (canonical_form sum) manifest) (map (canonical_form sum) local)
          (canonical_form sum root) (ground arith) in
      (rw q items, rw q sorted, ground arith)

  -- A successful plan says diverged exactly when the local copy holds some row hash more often
  -- than the manifest lists it, in the executor's spelling.
  pub plan_partition-diverged :
      (manifest : List Bytes) (root : Bytes) (local : List Bytes) (p : InstallPlan)
      → plan_partition sum manifest root local ≡ ok p
      → (p.diverged ≡ true) ↔ (
          (h : Bytes) × (count h (map (canonical_form sum) manifest)
            < count h (map (canonical_form sum) local)))
  plan_partition-diverged manifest root local p e =
      let v = plan_partition-IsPlanned manifest root local p e in
      rw v.parts (
        plan_parts-diverged (map (canonical_form sum) manifest) (map (canonical_form sum) local)
          (canonical_form sum root))

  -- A manifest whose parts do not sum to its root is refused, whatever the local copy holds: with
  -- an accepted manifest and root of different sums the plan is the root mismatch.
  pub plan_partition-root_mismatch :
      (manifest : List Bytes) (root : Bytes) (local : List Bytes) (s r : Bytes)
      → sum manifest ≡ some s
      → sum (root ∷ []) ≡ some r
      → sum_of sum (map (canonical_form sum) manifest) ≢ r
      → plan_partition sum manifest root local ≡ err root_mismatch
  unfolding plan_partition canonical_list canonical_one sum_of
  plan_partition-root_mismatch manifest root local s r em er differ =
      ground (arith, ≟_iff (sum_of sum (map (canonical_form sum) manifest)) r)

  -- The gate closes over its own plan: after a plan that did not diverge, parts that are the need
  -- as a multiset, whatever their order, pass the closure check with the same root and local
  -- parts, for every sum that keeps the executor's laws.
  pub closure-plan_need :
      IsRowSum sum
      → (manifest : List Bytes) (root : Bytes) (local : List Bytes) (p : InstallPlan)
      → (kept_parts : List Bytes) → plan_partition sum manifest root local ≡ ok p
      → p.diverged ≡ false
      → (s : Bytes) → sum kept_parts ≡ some s
      → SameItems (map (canonical_form sum) kept_parts) p.need
      → closure sum root local kept_parts ≡ ok tt
  unfolding closure sum_of
  closure-plan_need laws manifest root local p kept_parts e d s accepted same =
      let v = plan_partition-IsPlanned manifest root local p e in
      let (items, _, _) = plan_partition-need manifest root local p e d in
      let l = map (canonical_form sum) local in
      let k = map (canonical_form sum) kept_parts in
      let m = map (canonical_form sum) manifest in
      let q : sum m ≡ sum (l ++ k) =
        laws.same_items m (l ++ k)
          (λ h. items h ∙ (rw (count-append h l p.need, count-append h l k, same h))) in
      rw (v.root_ok, v.local_ok, canonical_list-accepted sum kept_list kept_parts s accepted)
        (ground (arith, v.sums, ≟_iff (sum_of sum (l ++ k)) (canonical_form sum root)))
