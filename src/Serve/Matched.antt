-- ===== src/Serve/Matched.antt =====
-- What matchActive and activeTables of member/serve/conditions.go promise.
use arbiter_core.Serve.Matching.{
  Match, find_copy, is_current, match_of, match_copy, foreign_found, diverged_found, excluded_found,
  missing_found, match_active, serves, is_owner, owned_tables, insert_by_key, sort_by_key,
  sorted_tables, active_of,
}
use arbiter_core.Serve.{
  OwnerDatabase, TableCopy, TableCondition, installed_table, foreign_table, diverged_table,
  excluded_table,
}
use arbiter_core.Registry.{
  TableIncarnation, TableRegistrySnapshot, incarnation_key, active_tables, manifest_owner,
}
use arbiter_core.Base.{
  ℕ, refl, true, false, Option, none, some, List, [], ◌∷◌, Bytes, ◌≟◌, list_eq, nat_eq, list_ord,
  nat_ord, arith, ◌≡◌, ◌≢◌, ap, any, map, All, inl, inr, Bool-cases, Option-cases, ≟_iff, is_more,
  list_cmp, ◌&&◌, ◌==◌,
}

-- The incarnation has an installed copy with its schema hash and its copy name.
pub record IsMatched (copy_table : Bytes → ℕ → Bytes) (tables : List TableCopy)
    (inc : TableIncarnation) : Type 0 where
  pub found : TableCopy
  pub at : find_copy inc tables ≡ some found
  pub table : found.table_id ≡ incarnation_key inc
  pub incarnation : found.incarnation_seq ≡ inc.seq
  pub ready : found.condition ≡ installed_table
  pub schema : found.schema_hash ≡ inc.schema_hash
  pub name : found.copy_table ≡ copy_table (incarnation_key inc) inc.seq

find_copy-same :
    (inc : TableIncarnation) (tables : List TableCopy) (t : TableCopy)
    → find_copy inc tables ≡ some t
    → (t.table_id ≡ incarnation_key inc) × (t.incarnation_seq ≡ inc.seq)
unfolding find_copy
find_copy-same inc [] t h = absurd cc
find_copy-same inc (u ∷ tables) t h =
    let fits = (u.table_id ≟ incarnation_key inc) && u.incarnation_seq == inc.seq in
    elim (Bool-cases fits) [
      | inr p ↦ find_copy-same inc tables t (ground (arith, h, p))
      | inl p ↦
          let same : u ≡ t = ground (arith, h, p) in
          rw (← same) (ground (arith, p, ≟_iff u.table_id (incarnation_key inc)), ground (arith, p))
    ]

abbrev IsClear : Match → Type 0
IsClear m =
    (foreign_found m ≡ false)
    × (diverged_found m ≡ false)
    × (excluded_found m ≡ false)
    × (missing_found m ≡ false)

match_of-IsMatched :
    (copy_table : Bytes → ℕ → Bytes) (tables : List TableCopy) (inc : TableIncarnation)
    → (t : TableCopy) (c : TableCondition) → find_copy inc tables ≡ some t
    → t.condition ≡ c
    → IsClear (match_of copy_table inc t c)
    → IsMatched copy_table tables inc
match_of-IsMatched copy_table tables inc t foreign_table e f h = absurd cc
match_of-IsMatched copy_table tables inc t diverged_table e f h = absurd cc
match_of-IsMatched copy_table tables inc t excluded_table e f h = absurd cc
match_of-IsMatched copy_table tables inc t installed_table e f h =
    let both : is_current copy_table inc t ≡ true = ground (arith, h) in
    record {
      found = t;
      at = e;
      table = (find_copy-same inc tables t e).0;
      incarnation = (find_copy-same inc tables t e).1;
      ready = f;
      schema = ground (arith, both, ≟_iff t.schema_hash inc.schema_hash);
      name = ground (arith, both, ≟_iff t.copy_table (copy_table (incarnation_key inc) inc.seq));
    }

match_copy-IsMatched :
    (copy_table : Bytes → ℕ → Bytes) (tables : List TableCopy) (inc : TableIncarnation)
    → IsClear (match_copy copy_table tables inc)
    → IsMatched copy_table tables inc
unfolding match_copy
match_copy-IsMatched copy_table tables inc h = elim (Option-cases (find_copy inc tables)) [
  | inl e ↦ absurd (ground (arith, h, e))
  | inr (t, e) ↦
      match_of-IsMatched copy_table tables inc t t.condition e refl (rw (e, match_copy) at h)
]

clear-IsMatched :
    (copy_table : Bytes → ℕ → Bytes) (tables : List TableCopy) (incs : List TableIncarnation)
    → any foreign_found (map (match_copy copy_table tables) incs) ≡ false
    → any diverged_found (map (match_copy copy_table tables) incs) ≡ false
    → any excluded_found (map (match_copy copy_table tables) incs) ≡ false
    → any missing_found (map (match_copy copy_table tables) incs) ≡ false
    → All (IsMatched copy_table tables) incs
clear-IsMatched copy_table tables [] f d x m = tt
clear-IsMatched copy_table tables (inc ∷ incs) f d x m = (
  match_copy-IsMatched copy_table tables inc
      (ground (arith, f), ground (arith, d), ground (arith, x), ground (arith, m)),
  clear-IsMatched copy_table tables incs (ground (arith, f)) (ground (arith, d)) (ground (arith, x))
      (ground (arith, m)),
)

-- Where it serves, there are tables, and each is matched.
pub match_active-All :
    (copy_table : Bytes → ℕ → Bytes) (tables : List TableCopy) (incs : List TableIncarnation)
    → (ts : List TableCopy) → match_active copy_table tables incs ≡ serves ts
    → (incs ≢ []) × All (IsMatched copy_table tables) incs
unfolding match_active
match_active-All copy_table tables [] ts h = absurd cc
match_active-All copy_table tables (inc ∷ incs) ts h =
    let found = map (match_copy copy_table tables) (inc ∷ incs) in
    let f : any foreign_found found ≡ false = ground (arith, h) in
    let d : any diverged_found found ≡ false = ground (arith, h, f) in
    let x : any excluded_found found ≡ false = ground (arith, h, f, d) in
    let m : any missing_found found ≡ false = ground (arith, h, f, d, x) in
    (λ e. absurd cc, clear-IsMatched copy_table tables (inc ∷ incs) f d x m)

is_owner-eq : (owner : ℕ) (o : Option ℕ) → is_owner owner o ≡ true → o ≡ some owner
is_owner-eq owner none h = cc
is_owner-eq owner (some n) h = ap some (ground (arith, h))

module _ {κ} (P : TableIncarnation → Type κ) where
  insert_by_key-All :
      (inc : TableIncarnation) (js : List TableIncarnation)
      → All P (insert_by_key inc js)
      → P inc × All P js
  unfolding insert_by_key
  insert_by_key-All inc [] h = (h.0, tt)
  insert_by_key-All inc (j ∷ js) h =
      elim (Bool-cases (is_more (list_cmp (incarnation_key inc) (incarnation_key j)))) [
        | inl e ↦
            let there : P j × All P (insert_by_key inc js) = rw e at h in
            let rest = insert_by_key-All inc js there.1 in (rest.0, (there.0, rest.1))
        | inr e ↦ let there : P inc × (P j × All P js) = rw e at h in there
      ]

  sort_by_key-All : (incs : List TableIncarnation) → All P (sort_by_key incs) → All P incs
  unfolding sort_by_key
  sort_by_key-All [] h = tt
  sort_by_key-All (inc ∷ incs) h =
      let there = insert_by_key-All inc (sort_by_key incs) h in
      (there.0, sort_by_key-All incs there.1)

  -- The tables of the database in the registry are its owner's, and have the property.
  abbrev pub IsOwned : TableRegistrySnapshot → OwnerDatabase → TableIncarnation → Type κ
  IsOwned s k inc =
      inc.database_id ≡ k.database → (manifest_owner s (incarnation_key inc) ≡ some k.owner) × P inc

  owned_tables-All :
      (s : TableRegistrySnapshot) (k : OwnerDatabase) (incs os : List TableIncarnation)
      → owned_tables s k incs ≡ some os
      → All P os
      → All (IsOwned s k) incs
  unfolding owned_tables
  owned_tables-All s k [] os e h = tt
  owned_tables-All s k (inc ∷ incs) os e h = elim (Bool-cases (inc.database_id ≟ k.database)) [
    | inr p ↦ (
      λ q. absurd (ground (arith, p, ≟_iff inc.database_id k.database, q)),
      owned_tables-All s k incs os (ground (arith, e, p)) h,
    )
    | inl p ↦
        let owner = manifest_owner s (incarnation_key inc) in
        elim (Bool-cases (is_owner k.owner owner)) [
          | inr q ↦ absurd (ground (arith, e, p, q))
          | inl q ↦ elim (Option-cases (owned_tables s k incs)) [
            | inl f ↦ absurd (ground (arith, e, p, q, f))
            | inr (rs, f) ↦
                let whole : inc ∷ rs ≡ os = ground (arith, e, p, q, f) in
                let here : All P (inc ∷ rs) = rw (← whole) at h in
                (λ d. (is_owner-eq k.owner owner q, here.0), owned_tables-All s k incs rs f here.1)
          ]
        ]
  ]

  -- active_of is not empty and all of it has the property.
  pub active_of-All :
      (s : TableRegistrySnapshot) (k : OwnerDatabase)
      → active_of (some s) k ≢ []
      → All P (active_of (some s) k)
      → All (IsOwned s k) (active_tables s)
  unfolding active_of
  active_of-All s k n h = elim (Option-cases (owned_tables s k (active_tables s))) [
    | inl e ↦ absurd (n (ap sorted_tables e))
    | inr (os, e) ↦
        let sorted : All P (sort_by_key os) = rw e at h in
        owned_tables-All s k (active_tables s) os e (sort_by_key-All os sorted)
  ]
