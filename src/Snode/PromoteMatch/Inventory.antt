-- ===== src/Snode/PromoteMatch/Inventory.antt =====
-- What safeMappings of snode/promote_match.go answers: the whole inventory of the partition, and a
-- physical part for each candidate.
use arbiter_core.Types.{SafePartMapping, PromoteSafePartition, PartRef}
use arbiter_core.Snode.LtHash.{
  LtHash, IsLtHash, parse_accumulator_hex, accumulator_hex, parse-accumulator_hex,
}
use arbiter_core.Snode.PromoteMatch.{
  Part, PartScan, Scanned, SafePartMappings, part_names, info_by_name, row_hash, scan_loop,
  match_loop, closes, matched, safe_mappings, parts_in_logical_partition,
}
use arbiter_core.Base.{
  refl, Bool, true, false, Option, none, some, List, [], ◌∷◌, arith, list_eq, nat_eq, ◌≟◌, ≟_iff,
  Map, Bytes, if◌then◌else◌, lookup, ◌≡◌, contains, ok, is_some, count, ◌≤◌, ◌<◌, Option-cases,
  delete, inl, insert, inr, lookup-delete, Result-cases, lookup-insert, Bool-cases, contains-count,
  ◌||◌, ◌↔◌, sym, ◌∙◌, length, ◌==◌, ap,
}

abbrev pub mapped_names : List SafePartMapping → List Bytes
mapped_names [] = []
mapped_names (m ∷ ms) = m.safe_part_name ∷ mapped_names ms

abbrev pub mapped_hashes : List SafePartMapping → List Bytes
mapped_hashes [] = []
mapped_hashes (m ∷ ms) = m.part_row_lt_hash ∷ mapped_hashes ms

-- The mapping of a row hash.
unfoldable pub mapping_of : Bytes → List SafePartMapping → Option SafePartMapping
mapping_of k [] = none
mapping_of k (m ∷ ms) = if m.part_row_lt_hash ≟ k then some m else mapping_of k ms

mapping_of-absent :
    (k : Bytes) (ms : List SafePartMapping)
    → count k (mapped_hashes ms) ≡ 0
    → mapping_of k ms ≡ none
unfolding mapping_of count
mapping_of-absent k [] h = refl
mapping_of-absent k (m ∷ ms) h = ground (arith, h, mapping_of-absent k ms)

module _ (l : LtHash) (equal : l.Hash → l.Hash → Bool)
    (scan_parts : List Bytes → Option (List PartScan)) where
  open l use {Hash, new, add_hash}

  -- The sum of the mapped hashes, over an accumulator; `none` when one does not parse.
  unfoldable pub sum_of_mapped : List SafePartMapping → Hash → Option Hash
  sum_of_mapped [] sum = some sum
  sum_of_mapped (m ∷ ms) sum = elim (parse_accumulator_hex l m.part_row_lt_hash) [
    | none ↦ none
    | some h ↦ sum_of_mapped ms (add_hash sum h)
  ]

  -- What the loop over the scans leaves.
  record IsScanned (info : Map Bytes Part) (by_hash : Map Bytes SafePartMapping) (sum : Hash)
      (s : Scanned l equal scan_parts) : Type 0 where
    left :
        (n : Bytes)
        → lookup n s.left ≡ (if contains n (mapped_names s.mappings) then none else lookup n info)
    known :
        (n : Bytes) → contains n (mapped_names s.mappings) ≡ true → is_some (lookup n info) ≡ true
    found :
        (k : Bytes)
        → lookup k s.by_hash ≡ (
            if is_some (mapping_of k s.mappings) then mapping_of k s.mappings else lookup k by_hash)
    distinct :
        (k : Bytes)
        → (count k (mapped_hashes s.mappings) ≤ 1)
          × (0 < count k (mapped_hashes s.mappings) → lookup k by_hash ≡ none)
    once : (n : Bytes) → count n (mapped_names s.mappings) ≤ 1
    summed : sum_of_mapped s.mappings sum ≡ some s.sum

  IsScanned-nil :
      (info : Map Bytes Part) (by_hash : Map Bytes SafePartMapping) (sum : Hash)
      → IsScanned info by_hash sum
          (record { mappings = []; left = info; by_hash = by_hash; sum = sum })
  unfolding contains mapping_of count sum_of_mapped
  IsScanned-nil info by_hash sum = record {
    left = λ n. refl;
    known = λ n h. absurd cc;
    found = λ k. refl;
    distinct = λ k. (omega arith, λ h. absurd (omega arith));
    once = λ n. omega arith;
    summed = refl;
  }

  -- One scanned part more, in front.
  IsScanned-cons :
      IsLtHash l
      → (m : SafePartMapping) (h : Hash) (p : Part)
      → (info : Map Bytes Part) (by_hash : Map Bytes SafePartMapping) (sum : Hash)
      → (s : Scanned l equal scan_parts) → m.part_row_lt_hash ≡ accumulator_hex l h
      → lookup m.safe_part_name info ≡ some p
      → lookup m.part_row_lt_hash by_hash ≡ none
      → IsScanned
          (delete m.safe_part_name info)
          (insert m.part_row_lt_hash m by_hash)
          (add_hash sum h)
          s
      → IsScanned info by_hash sum (record s { mappings = m ∷ s.mappings })
  unfolding contains mapping_of count sum_of_mapped
  IsScanned-cons laws m h p info by_hash sum s e i f r = record {
    left = λ n.
        ground (arith, r.left n, ≟_iff m.safe_part_name n, lookup-delete m.safe_part_name n info);
    known = λ n c.
        ground
          (arith, c, i, r.known n, ≟_iff m.safe_part_name n, lookup-delete m.safe_part_name n info);
    found = λ k. ground (
      arith,
      r.found k,
      r.distinct k,
      ≟_iff m.part_row_lt_hash k,
      lookup-insert m.part_row_lt_hash k m by_hash,
      mapping_of-absent k s.mappings,
    );
    distinct = λ k. ground (
      arith,
      f,
      r.distinct k,
      ≟_iff m.part_row_lt_hash k,
      lookup-insert m.part_row_lt_hash k m by_hash,
    );
    once = λ n. ground (
      arith,
      r.once n,
      r.known n,
      ≟_iff m.safe_part_name n,
      lookup-delete m.safe_part_name n info,
      contains-count n (mapped_names s.mappings),
    );
    summed =
        let reads : parse_accumulator_hex l m.part_row_lt_hash ≡ some h =
          rw e (parse-accumulator_hex l laws h) in
        rw (reads, sum_of_mapped) r.summed;
  }

  scan_loop-IsScanned :
      IsLtHash l
      → (scans : List PartScan) (info : Map Bytes Part) (by_hash : Map Bytes SafePartMapping)
      → (sum : Hash) (s : Scanned l equal scan_parts)
      → scan_loop l equal scan_parts scans info by_hash sum ≡ ok s
      → IsScanned info by_hash sum s
  unfolding scan_loop
  scan_loop-IsScanned laws [] info by_hash sum s h =
      let same : record { mappings = []; left = info; by_hash = by_hash; sum = sum } ≡ s =
        ground (arith, h) in
      rw (← same) (IsScanned-nil info by_hash sum)
  scan_loop-IsScanned laws (scan ∷ scans) info by_hash sum s h =
      elim (Option-cases (lookup scan.part_name info)) [
        | inl e ↦ absurd (ground (arith, h, e))
        | inr (p, e) ↦ elim (Option-cases (row_hash l equal scan_parts scan.row_lt_hash)) [
          | inl f ↦ absurd (ground (arith, h, e, f))
          | inr (a, f) ↦ elim (Option-cases (lookup (accumulator_hex l a) by_hash)) [
            | inr (m, g) ↦ absurd (ground (arith, h, e, f, g))
            | inl g ↦
                let m : SafePartMapping = record {
                  part_row_lt_hash = accumulator_hex l a;
                  safe_part_name = scan.part_name;
                  part_phys_hash = p.phys_hash;
                } in
                let rest =
                  scan_loop l equal scan_parts scans (delete scan.part_name info)
                    (insert (accumulator_hex l a) m by_hash) (add_hash sum a) in
                elim (Result-cases rest) [
                  | inr (x, k) ↦ absurd (ground (arith, h, e, f, g, k))
                  | inl (t, k) ↦
                      let same : record t { mappings = m ∷ t.mappings } ≡ s =
                        ground (arith, h, e, f, g, k) in
                      rw (← same) (
                        IsScanned-cons laws m a p info by_hash sum t refl e g
                          (scan_loop-IsScanned laws scans _ _ _ t k))
                ]
          ]
        ]
      ]

  info_by_name-listed :
      (n : Bytes) (ps : List Part) (info : Map Bytes Part)
      → is_some (lookup n (info_by_name ps info))
        ≡ (contains n (part_names ps) || is_some (lookup n info))
  unfolding info_by_name contains
  info_by_name-listed n [] info = refl
  info_by_name-listed n (p ∷ ps) info =
      ground (arith, info_by_name-listed n ps (insert p.name p info), lookup-insert p.name n p info)

  -- Each candidate of the command with the physical part that holds its rows: the mapping of its
  -- hash in the partition's inventory, spelled as the command spells it; no hash twice.
  pub data IsMatched (partition : List SafePartMapping)
      : List Bytes → List PartRef → List SafePartMapping → Type 0 where
    done : (seen : List Bytes) → IsMatched partition seen [] []
    next :
        (seen : List Bytes) (cp : PartRef) (cps : List PartRef) (h : Hash) (m : SafePartMapping)
        → (ms : List SafePartMapping) → row_hash l equal scan_parts cp.part_row_lt_hash ≡ some h
        → contains (accumulator_hex l h) seen ≡ false
        → mapping_of (accumulator_hex l h) partition ≡ some m
        → IsMatched partition (accumulator_hex l h ∷ seen) cps ms
        → IsMatched partition seen
            (cp ∷ cps)
            (record m { part_row_lt_hash = cp.part_row_lt_hash } ∷ ms)

  match_loop-IsMatched :
      (partition : List SafePartMapping) (cps : List PartRef) (seen : List Bytes)
      → (by_hash : Map Bytes SafePartMapping) (ms : List SafePartMapping)
      → ((k : Bytes) → lookup k by_hash ≡ mapping_of k partition)
      → match_loop l equal scan_parts cps seen by_hash ≡ ok ms
      → IsMatched partition seen cps ms
  unfolding match_loop
  match_loop-IsMatched partition [] seen by_hash ms same h =
      let empty : [] ≡ ms = ground (arith, h) in rw (← empty) (done seen)
  match_loop-IsMatched partition (cp ∷ cps) seen by_hash ms same h =
      elim (Option-cases (row_hash l equal scan_parts cp.part_row_lt_hash)) [
        | inl e ↦ absurd (ground (arith, h, e))
        | inr (a, e) ↦
            let key = accumulator_hex l a in
            elim (Bool-cases (contains key seen)) [
              | inl f ↦ absurd (ground (arith, h, e, f))
              | inr f ↦ elim (Option-cases (lookup key by_hash)) [
                | inl g ↦ absurd (ground (arith, h, e, f, g))
                | inr (m, g) ↦
                    elim (Result-cases (match_loop l equal scan_parts cps (key ∷ seen) by_hash)) [
                      | inr (x, k) ↦ absurd (ground (arith, h, e, f, g, k))
                      | inl (rest, k) ↦
                          let whole : record m { part_row_lt_hash = cp.part_row_lt_hash } ∷ rest
                              ≡ ms =
                            ground (arith, h, e, f, g, k) in
                          rw (← whole) (
                            next seen cp cps a m rest e f (sym (same key) ∙ g)
                              (match_loop-IsMatched partition cps (key ∷ seen) by_hash rest same k))
                    ]
              ]
            ]
      ]

  -- What safeMappings answers for the parts of the partition.
  pub record IsInventory (after : List Part) (cmd : PromoteSafePartition) (post : Bytes)
      (r : SafePartMappings) : Type 0 where
    pub named : (n : Bytes) → contains n (mapped_names r.partition) ≡ contains n (part_names after)
    pub once : (n : Bytes) → count n (mapped_names r.partition) ≤ 1
    pub distinct : (k : Bytes) → count k (mapped_hashes r.partition) ≤ 1
    pub closed : sum_of_mapped r.partition new ≡ parse_accumulator_hex l post
    pub posted : is_some (parse_accumulator_hex l post) ≡ true
    pub matched_to : IsMatched r.partition [] cmd.candidate_parts r.candidates

  empty_map : (n : Bytes) (m : Map Bytes Part) → (length m == 0) ≡ true → lookup n m ≡ none
  unfolding lookup
  empty_map n [] h = refl
  empty_map n (p ∷ m) h = absurd (ground (arith, h))

  matched-IsInventory :
      ((a b : Hash) → (equal a b ≡ true) ↔ (a ≡ b))
      → (after : List Part) (cmd : PromoteSafePartition) (post : Bytes)
      → (s : Scanned l equal scan_parts) (r : SafePartMappings)
      → IsScanned (info_by_name after []) [] new s
      → matched l equal scan_parts cmd.candidate_parts post s ≡ ok r
      → IsInventory after cmd post r
  unfolding matched closes lookup
  matched-IsInventory same after cmd post s r i h = elim (Bool-cases (length s.left == 0)) [
    | inr e ↦ absurd (ground (arith, h, e))
    | inl e ↦ elim (Option-cases (parse_accumulator_hex l post)) [
      | inl f ↦ absurd (ground (arith, h, e, f))
      | inr (a, f) ↦ elim (Bool-cases (equal s.sum a)) [
        | inr g ↦ absurd (ground (arith, h, e, f, g))
        | inl g ↦
            elim (Result-cases (match_loop l equal scan_parts cmd.candidate_parts [] s.by_hash)) [
              | inr (x, k) ↦ absurd (ground (arith, h, e, f, g, k))
              | inl (ms, k) ↦
                  let whole : record { candidates = ms; partition = s.mappings } ≡ r =
                    ground (arith, h, e, f, g, k) in
                  rw (← whole) record {
                    named = λ n. ground (
                      arith,
                      i.left n,
                      i.known n,
                      empty_map n s.left e,
                      info_by_name-listed n after [],
                    );
                    once = i.once;
                    distinct = λ k. (i.distinct k).0;
                    closed = i.summed ∙ ap some ((same s.sum a).0 g) ∙ sym f;
                    posted = rw f refl;
                    matched_to =
                        match_loop-IsMatched s.mappings cmd.candidate_parts [] s.by_hash ms
                          (λ k. ground (arith, i.found k)) k;
                  }
            ]
      ]
    ]
  ]

  -- For accumulators that add as a group and an equality that is exact: when safeMappings answers,
  -- its inventory names exactly the active parts of the command's partition, each once, with
  -- pairwise different row hashes that sum to the promoted partition root; and each of the command's
  -- candidates, in the command's order and none twice, has the part of the inventory whose row hash
  -- is the candidate's.
  pub safe_mappings-IsInventory :
      IsLtHash l
      → ((a b : Hash) → (equal a b ≡ true) ↔ (a ≡ b))
      → (active : List Part) (partition_by : Bytes) (cmd : PromoteSafePartition) (post : Bytes)
      → (r : SafePartMappings)
      → safe_mappings l equal scan_parts (some active) partition_by cmd post ≡ ok r
      → IsInventory (parts_in_logical_partition active partition_by cmd.partition_id) cmd post r
  unfolding safe_mappings
  safe_mappings-IsInventory laws same active partition_by cmd post r h =
      let after = parts_in_logical_partition active partition_by cmd.partition_id in
      elim (Option-cases (scan_parts (part_names after))) [
        | inl e ↦ absurd (ground (arith, h, e))
        | inr (scans, e) ↦
            elim (Result-cases
              (scan_loop l equal scan_parts scans (info_by_name after []) [] new)) [
                | inr (x, f) ↦ absurd (ground (arith, h, e, f))
                | inl (s, f) ↦
                    matched-IsInventory same after cmd post s r
                      (scan_loop-IsScanned laws scans (info_by_name after []) [] new s f)
                      (ground (arith, h, e, f))
              ]
      ]
