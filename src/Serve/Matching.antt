-- ===== src/Serve/Matching.antt =====
-- The copies of a database against its Active tables: activeTables and matchActive of
-- member/serve/conditions.go.
use arbiter_core.Registry.{
  TableIncarnation, TableRegistrySnapshot, active_tables, incarnation_key, manifest_owner,
}
use arbiter_core.Serve.{
  OwnerDatabase, TableCopy, Reason, table_missing, table_foreign, table_diverged, table_excluded,
  TableCondition, installed_table, foreign_table, diverged_table, excluded_table,
}
use arbiter_core.Base.{
  ℕ, Bool, true, false, Option, none, some, List, [], ◌∷◌, Bytes, ◌≟◌, list_eq, nat_eq, list_ord,
  nat_ord, ◌==◌, if◌then◌else◌, map, ◌&&◌, any, is_more, not, list_cmp,
}

-- The first condition that fails, or the tables to serve.
pub data Verdict : Type 0 where
  refused_for : Reason → Verdict
  serves : List TableCopy → Verdict

-- What matchActive finds for one incarnation.
pub data Match : Type 0 where
  is_foreign is_diverged is_excluded is_missing : Match
  is_served : TableCopy → Match

-- slices.IndexFunc of the copy of the incarnation.
unfoldable pub find_copy : TableIncarnation → List TableCopy → Option TableCopy
find_copy inc [] = none
find_copy inc (t ∷ ts) =
    let rest = find_copy inc ts in
    if (t.table_id ≟ incarnation_key inc) && t.incarnation_seq == inc.seq then some t else rest

abbrev pub is_current : (Bytes → ℕ → Bytes) → TableIncarnation → TableCopy → Bool
is_current copy_table inc t =
    (t.schema_hash ≟ inc.schema_hash) && (t.copy_table ≟ copy_table (incarnation_key inc) inc.seq)

-- The conditions of table_copy, by clauses.
abbrev pub match_of : (Bytes → ℕ → Bytes) → TableIncarnation → TableCopy → TableCondition → Match
match_of copy_table inc t foreign_table = is_foreign
match_of copy_table inc t diverged_table = is_diverged
match_of copy_table inc t excluded_table = is_excluded
match_of copy_table inc t installed_table =
    if is_current copy_table inc t then is_served t else is_missing

unfoldable pub match_copy : (Bytes → ℕ → Bytes) → List TableCopy → TableIncarnation → Match
match_copy copy_table tables inc = elim (find_copy inc tables) [
  | none ↦ is_missing
  | some t ↦ match_of copy_table inc t t.condition
]

abbrev pub foreign_found : Match → Bool
foreign_found is_foreign = true
foreign_found is_diverged = false
foreign_found is_excluded = false
foreign_found is_missing = false
foreign_found (is_served t) = false

abbrev pub diverged_found : Match → Bool
diverged_found is_diverged = true
diverged_found is_foreign = false
diverged_found is_excluded = false
diverged_found is_missing = false
diverged_found (is_served t) = false

abbrev pub excluded_found : Match → Bool
excluded_found is_excluded = true
excluded_found is_foreign = false
excluded_found is_diverged = false
excluded_found is_missing = false
excluded_found (is_served t) = false

abbrev pub missing_found : Match → Bool
missing_found is_missing = true
missing_found is_foreign = false
missing_found is_diverged = false
missing_found is_excluded = false
missing_found (is_served t) = false

abbrev pub add_served : Match → List TableCopy → List TableCopy
add_served (is_served t) ts = t ∷ ts
add_served is_foreign ts = ts
add_served is_diverged ts = ts
add_served is_excluded ts = ts
add_served is_missing ts = ts

unfoldable pub served_of : List Match → List TableCopy
served_of [] = []
served_of (m ∷ ms) = add_served m (served_of ms)

unfoldable pub match_active : (Bytes → ℕ → Bytes) → List TableCopy → List TableIncarnation → Verdict
match_active copy_table tables [] = refused_for table_missing
match_active copy_table tables (inc ∷ incs) =
    let found = map (match_copy copy_table tables) (inc ∷ incs) in
    if any foreign_found found
    then refused_for table_foreign
    else if any diverged_found found
    then refused_for table_diverged
    else if any excluded_found found
    then refused_for table_excluded
    else if any missing_found found
    then refused_for table_missing
    else serves (served_of found)

abbrev pub is_owner : ℕ → Option ℕ → Bool
is_owner owner none = false
is_owner owner (some o) = o == owner

abbrev pub and_one :
    TableIncarnation → Option (List TableIncarnation) → Option (List TableIncarnation)
and_one inc none = none
and_one inc (some incs) = some (inc ∷ incs)

-- The loop of activeTables; `none` when it meets a table of another owner.
unfoldable pub owned_tables :
    TableRegistrySnapshot → OwnerDatabase → List TableIncarnation → Option (List TableIncarnation)
owned_tables s k [] = some []
owned_tables s k (inc ∷ incs) =
    let rest = owned_tables s k incs in
    if not (inc.database_id ≟ k.database)
    then rest
    else if not (is_owner k.owner (manifest_owner s (incarnation_key inc)))
    then none
    else and_one inc rest

unfoldable pub insert_by_key : TableIncarnation → List TableIncarnation → List TableIncarnation
insert_by_key inc [] = inc ∷ []
insert_by_key inc (j ∷ js) =
    let later = insert_by_key inc js in
    if is_more (list_cmp (incarnation_key inc) (incarnation_key j)) then j ∷ later else inc ∷ j ∷ js

unfoldable pub sort_by_key : List TableIncarnation → List TableIncarnation
sort_by_key [] = []
sort_by_key (inc ∷ incs) = insert_by_key inc (sort_by_key incs)

abbrev pub sorted_tables : Option (List TableIncarnation) → List TableIncarnation
sorted_tables none = []
sorted_tables (some incs) = sort_by_key incs

-- activeTables.
unfoldable pub active_of : Option TableRegistrySnapshot → OwnerDatabase → List TableIncarnation
active_of none k = []
active_of (some s) k = sorted_tables (owned_tables s k (active_tables s))
