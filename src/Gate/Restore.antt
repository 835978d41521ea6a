-- ===== src/Gate/Restore.antt =====
-- The restore branch of Classify in member/gate/classify.go, and how it meets the plan.
use arbiter_core.Base.{
  ℕ, ◌+◌, ◌≤◌, min, ◌≡◌, refl, ap, ◌∙◌, false, Option, none, List, [], ◌∷◌, ◌++◌, map, Bytes, ≟_iff,
  list_eq, nat_eq, ok, count, count-append, take_one, length, SameItems, arith, All, All-map_fixed,
  map_fixed-All, >>=-eq-ok,
}
use arbiter_core.Gate.{
  counts, restore_loop, classify_restore, classify, with_hashes, names, hashes, plan_partition,
  closure, canonical_list, InstallPlan, Fetch, ScratchPart, Classification, Outcome, need_list,
  scratch_list,
}
use arbiter_core.Gate.Laws.{
  IsRowSum, canonical_form, canonical_list-eq-ok, accepted_of_ok, map-canonical_fixed,
}
use arbiter_core.Gate.Plan.{
  counts-count, plan_partition-IsPlanned, All-plan_parts_need, closure-plan_need,
}

count-restore_loop :
    (left : Bytes → ℕ) (ps : List ScratchPart) (h : Bytes)
    → count h (restore_loop left ps).kept_hashes ≡ min (left h) (count h (hashes ps))
unfolding restore_loop count take_one
count-restore_loop left [] h = omega arith
count-restore_loop left (p ∷ ps) h = ground (
  arith,
  ≟_iff p.row_lt_hash h,
  count-restore_loop (take_one p.row_lt_hash left) ps h,
  count-restore_loop left ps h,
)

names-restore_loop :
    (left : Bytes → ℕ) (ps : List ScratchPart) (n : Bytes)
    → count n (restore_loop left ps).keep + count n (restore_loop left ps).drop ≡ count n (names ps)
unfolding restore_loop count
names-restore_loop left [] n = omega arith
names-restore_loop left (p ∷ ps) n =
    ground
      (arith, names-restore_loop (take_one p.row_lt_hash left) ps n, names-restore_loop left ps n)

length-restore_loop :
    (left : Bytes → ℕ) (ps : List ScratchPart)
    → length (restore_loop left ps).keep ≡ length (restore_loop left ps).kept_hashes
unfolding restore_loop
length-restore_loop left [] = refl
length-restore_loop left (p ∷ ps) =
    ground
      (arith, length-restore_loop (take_one p.row_lt_hash left) ps, length-restore_loop left ps)

All-restore_loop {κ} :
    (P : Bytes → Type κ) (left : Bytes → ℕ) (ps : List ScratchPart)
    → All P (hashes ps)
    → All P (restore_loop left ps).kept_hashes
unfolding restore_loop
All-restore_loop P left [] a = tt
All-restore_loop P left (p ∷ ps) a =
    ground (
      arith,
      All-restore_loop P (take_one p.row_lt_hash left) ps a.1,
      All-restore_loop P left ps a.1,
    )

outcome-restore_loop :
    (left : Bytes → ℕ) (ps : List ScratchPart) → (restore_loop left ps).outcome ≡ Outcome.kept
unfolding restore_loop
outcome-restore_loop left [] = refl
outcome-restore_loop left (p ∷ ps) =
    ground
      (arith, outcome-restore_loop (take_one p.row_lt_hash left) ps, outcome-restore_loop left ps)

hashes-with_hashes :
    (f : Bytes → Bytes) (ps : List ScratchPart)
    → hashes (with_hashes ps (map f (hashes ps))) ≡ map f (hashes ps)
unfolding with_hashes
hashes-with_hashes f [] = refl
hashes-with_hashes f (p ∷ ps) = let rest = hashes-with_hashes f ps in cc

names-with_hashes :
    (f : Bytes → Bytes) (ps : List ScratchPart)
    → names (with_hashes ps (map f (hashes ps))) ≡ names ps
unfolding with_hashes
names-with_hashes f [] = refl
names-with_hashes f (p ∷ ps) = let rest = names-with_hashes f ps in cc

-- What the restore branch promises of a need and a scratch, both in the executor's spelling.
pub record IsRestored (need : List Bytes) (scratch_names scratch_hashes : List Bytes)
    (c : Classification) : Type 0 where
  pub is_kept : c.outcome ≡ Outcome.kept
  pub kept_min : (h : Bytes) → count h c.kept_hashes ≡ min (count h need) (count h scratch_hashes)
  pub all_named : SameItems (c.keep ++ c.drop) scratch_names
  pub one_hash_each : length c.keep ≡ length c.kept_hashes

classify_restore-IsRestored :
    (need : List Bytes) (ps : List ScratchPart)
    → IsRestored need (names ps) (hashes ps) (classify_restore need ps)
unfolding classify_restore
classify_restore-IsRestored need ps = record {
  is_kept = outcome-restore_loop (counts need) ps;
  kept_min = λ h. ground (arith, count-restore_loop (counts need) ps h, counts-count h need);
  all_named = λ n.
      let c = restore_loop (counts need) ps in
      count-append n c.keep c.drop ∙ names-restore_loop (counts need) ps n;
  one_hash_each = length-restore_loop (counts need) ps;
}

module _ (sum : List Bytes → Option Bytes) where
  abbrev pub restore_of : List Bytes → Fetch
  restore_of need = record { need = need; single = none }

  classify-restore_parts :
      (need : List Bytes) (scratch : List ScratchPart) (c : Classification)
      → classify sum (restore_of need) scratch ≡ ok c
      → c
        ≡ classify_restore
            (map (canonical_form sum) need)
            (with_hashes scratch (map (canonical_form sum) (hashes scratch)))
  unfolding classify
  classify-restore_parts need scratch c e =
      let (n, en, e1) = >>=-eq-ok (canonical_list sum need_list need) _ e in
      let (hs, eh, e2) = >>=-eq-ok (canonical_list sum scratch_list (hashes scratch)) _ e1 in
      let pn = canonical_list-eq-ok sum need_list need n en in
      let ph = canonical_list-eq-ok sum scratch_list (hashes scratch) hs eh in ground arith

  -- A classified restore always ends as kept. It keeps, of each row hash, as many parts as are
  -- both needed and in the scratch; every part of the scratch is named once, in keep or in drop;
  -- and there is one kept hash for each kept part.
  pub classify-IsRestored :
      (need : List Bytes) (scratch : List ScratchPart) (c : Classification)
      → classify sum (restore_of need) scratch ≡ ok c
      → IsRestored
          (map (canonical_form sum) need)
          (names scratch)
          (map (canonical_form sum) (hashes scratch))
          c
  classify-IsRestored need scratch c e =
      let parts = with_hashes scratch (map (canonical_form sum) (hashes scratch)) in
      let r = classify_restore-IsRestored (map (canonical_form sum) need) parts in
      rw (classify-restore_parts need scratch c e) (
        rw
          (
            hashes-with_hashes (canonical_form sum) scratch,
            names-with_hashes (canonical_form sum) scratch,
          )
          at r)

  restored_kept_fixed :
      IsRowSum sum
      → (need : List Bytes) (scratch : List ScratchPart) (c : Classification)
      → classify sum (restore_of need) scratch ≡ ok c
      → map (canonical_form sum) c.kept_hashes ≡ c.kept_hashes
  unfolding classify classify_restore
  restored_kept_fixed laws need scratch c e =
      let (n, en, e1) = >>=-eq-ok (canonical_list sum need_list need) _ e in
      let (hs, eh, e2) = >>=-eq-ok (canonical_list sum scratch_list (hashes scratch)) _ e1 in
      let (s, es) = accepted_of_ok sum scratch_list (hashes scratch) hs eh in
      let f = canonical_form sum in
      let parts = with_hashes scratch (map f (hashes scratch)) in
      let fixed =
        map_fixed-All f (hashes scratch) (map-canonical_fixed sum laws (hashes scratch) s es) in
      let fixed' : All (λ h. f h ≡ h) (hashes parts) = rw (hashes-with_hashes f scratch) fixed in
      rw (classify-restore_parts need scratch c e)
        (All-map_fixed f _ (All-restore_loop (λ h. f h ≡ h) (counts (map f need)) parts fixed'))

  planned_need_fixed :
      IsRowSum sum
      → (manifest : List Bytes) (root : Bytes) (local : List Bytes) (p : InstallPlan)
      → plan_partition sum manifest root local ≡ ok p
      → map (canonical_form sum) p.need ≡ p.need
  planned_need_fixed laws manifest root local p e =
      let v = plan_partition-IsPlanned sum manifest root local p e in
      let f = canonical_form sum in
      let (s, es) = v.accepted in
      let fixed = map_fixed-All f manifest (map-canonical_fixed sum laws manifest s es) in
      rw v.parts (
        All-map_fixed f _
          (All-plan_parts_need (λ h. f h ≡ h) (map f manifest) (map f local) (f root) fixed))

  -- The install path end to end, for every sum that keeps the executor's laws: after a plan that
  -- did not diverge, a restore scratch that holds every needed row hash as often as it is needed
  -- (extra parts allowed) is classified so that the kept hashes are the need as a multiset and
  -- pass the closure check with the plan's root and local parts.
  pub closure-classify_restore :
      IsRowSum sum
      → (manifest : List Bytes) (root : Bytes) (local : List Bytes) (p : InstallPlan)
      → plan_partition sum manifest root local ≡ ok p
      → p.diverged ≡ false
      → (scratch : List ScratchPart) (c : Classification)
      → classify sum (restore_of p.need) scratch ≡ ok c
      → ((h : Bytes) → count h p.need ≤ count h (map (canonical_form sum) (hashes scratch)))
      → SameItems c.kept_hashes p.need × (closure sum root local c.kept_hashes ≡ ok tt)
  unfolding classify
  closure-classify_restore laws manifest root local p e d scratch c ec covers =
      let f = canonical_form sum in
      let fixed = planned_need_fixed laws manifest root local p e in
      let r = classify-IsRestored p.need scratch c ec in
      let same : SameItems c.kept_hashes p.need =
        λ h. omega (arith, r.kept_min h, covers h, ap (count h) fixed) in
      let (n, en, _) = >>=-eq-ok (canonical_list sum need_list p.need) _ ec in
      let (s, es) = accepted_of_ok sum need_list p.need n en in
      let same' : SameItems (map f c.kept_hashes) p.need =
        rw (restored_kept_fixed laws p.need scratch c ec) same in
      (
        same,
        closure-plan_need sum laws manifest root local p c.kept_hashes e d s
            (laws.same_items c.kept_hashes p.need same ∙ es) same',
      )
