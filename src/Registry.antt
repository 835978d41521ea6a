-- ===== src/Registry.antt =====
-- The table registry as wire/table_registry_snapshot.go decodes it: incarnations of tables, and
-- what the members read of a snapshot. Chain events, schemas in JSON, groups and the purge members
-- are left out.
use arbiter_core.Base.{
  ℕ, Bool, true, false, Option, none, some, List, [], ◌∷◌, Bytes, ◌≟◌, list_eq, nat_eq, ◌++◌, ◌&&◌,
  ◌||◌, not, ltb, if◌then◌else◌, keep_if,
}

-- TableIncarnationStatus.
pub data TableStatus : Type 0 where
  legacy pending refused active retiring purging purged : TableStatus

pub data TableOrigin : Type 0 where
  genesis legacy_table chain : TableOrigin

pub record TableIncarnation : Type 0 where
  pub seq : ℕ
  pub database_id : Bytes
  pub table_id : Bytes
  pub origin : TableOrigin
  pub status : TableStatus
  pub schema_hash : Bytes
  pub add_block_seq : ℕ
  pub owner_indexer_id : Option ℕ

-- Params.SIIndexerID is `founding`.
pub record TableRegistrySnapshot : Type 0 where
  pub founding : ℕ
  pub incarnations : List TableIncarnation
  pub quarantined_indexers : List ℕ

-- TableKey of table_registry.go.
unfoldable pub table_key : Bytes → Bytes → Bytes
table_key database table = database ++ (b'.' ∷ table)

-- Key of an incarnation.
abbrev pub incarnation_key : TableIncarnation → Bytes
incarnation_key inc = table_key inc.database_id inc.table_id

abbrev pub is_active : TableStatus → Bool
is_active active = true
is_active legacy = false
is_active pending = false
is_active refused = false
is_active retiring = false
is_active purging = false
is_active purged = false

abbrev pub is_refused : TableStatus → Bool
is_refused refused = true
is_refused legacy = false
is_refused pending = false
is_refused active = false
is_refused retiring = false
is_refused purging = false
is_refused purged = false

abbrev pub is_genesis : TableOrigin → Bool
is_genesis genesis = true
is_genesis legacy_table = false
is_genesis chain = false

unfoldable pub active_tables : TableRegistrySnapshot → List TableIncarnation
active_tables s = keep_if (λ inc. is_active inc.status) s.incarnations

unfoldable pub owner_of : TableRegistrySnapshot → TableIncarnation → ℕ
owner_of s inc = elim inc.owner_indexer_id [ none ↦ s.founding | some owner ↦ owner ]

-- The incarnation names its key's owner: it was in a table set and is not refused.
abbrev pub is_owning : Bytes → TableIncarnation → Bool
is_owning key inc =
    (incarnation_key inc ≟ key)
    && not (is_refused inc.status)
    && (is_genesis inc.origin || ltb 0 inc.add_block_seq)

-- The loop of ManifestOwner, from the newest incarnation on.
unfoldable pub newest_owner : TableRegistrySnapshot → Bytes → List TableIncarnation → Option ℕ
newest_owner s key [] = none
newest_owner s key (inc ∷ incs) = elim (newest_owner s key incs) [
  | some owner ↦ some owner
  | none ↦ if is_owning key inc then some (owner_of s inc) else none
]

unfoldable pub manifest_owner : TableRegistrySnapshot → Bytes → Option ℕ
manifest_owner s key = newest_owner s key s.incarnations
