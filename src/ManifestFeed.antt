-- ===== src/ManifestFeed.antt =====
-- Store and Verify of member/manifestfeed: the bounded LRU of verified manifests in front of a
-- source. The manifest type and its checks are housegate's, a parameter.
use arbiter_core.Base.{
  ℕ, zero, suc, Bool, true, false, Option, none, some, List, [], ◌∷◌, Bytes, ◌≟◌, list_eq, nat_eq,
  Eq, ltb, leb, if◌then◌else◌, Result, ok, err, ◌>>=◌, ◌>>◌, guard, Map, lookup, insert, delete,
  length,
}
pub mod Cache
pub mod Recency
pub mod Follower
pub mod Frontiers
pub mod Walk
pub mod Accepted
pub mod Polls
pub mod Examples

-- replay.SafeSnapshotManifest and replay.TrackFrontier with what the packages read of them:
-- `validate` is the method Validate, `verify_ledger` payloadexec.VerifyLedger, `owner_entry`
-- replay.OwnerEntry, and `indexers` the indexer ids of TrackFrontiers in the manifest's order.
pub record Replay : Type 1 where
  pub Manifest : Type 0
  pub snapshot_id : Manifest → Bytes
  pub parent_snapshot_id : Manifest → Bytes
  pub manifest_root : Manifest → Bytes
  pub safe_block_seq : Manifest → ℕ
  pub indexers : Manifest → List ℕ
  pub validate : Manifest → Bool
  pub verify_ledger : Manifest → Bool
  pub Frontier : Type 0
  pub frontier_eq : Eq Frontier
  pub frontier_block_seq : Frontier → ℕ
  pub frontier_promotion_seq : Frontier → ℕ
  pub owner_entry : Manifest → ℕ → Frontier

-- The refusals that wrap ErrManifestRefused, and the errors that do not.
pub data FeedError : Type 0 where
  other_manifest invalid_manifest id_not_root bad_ledger : FeedError
  root_of_watermark no_frontiers not_descending went_back : FeedError
  empty_snapshot_id fetch_failed watermark_failed poll_interval_low : FeedError

-- errors.Is(err, ErrManifestRefused).
unfoldable pub is_refused : FeedError → Bool
is_refused empty_snapshot_id = false
is_refused fetch_failed = false
is_refused watermark_failed = false
is_refused poll_interval_low = false
is_refused _ = true

module _ (r : Replay) where
  open r use {Manifest, snapshot_id, manifest_root, validate, verify_ledger}

  unfoldable pub verify : Bytes → Manifest → Result FeedError (Unit {0})
  verify requested m = do
    guard (snapshot_id m ≟ requested) other_manifest
    guard (validate m) invalid_manifest
    guard (snapshot_id m ≟ manifest_root m) id_not_root
    guard (verify_ledger m) bad_ledger

  -- A list element of container/list stands as its value, a snapshot id.
  pub record FeedStore : Type 0 where
    pub entries : ℕ
    pub order : List Bytes
    pub by_id : Map Bytes Bytes
    pub cache : Map Bytes Manifest

abbrev pub default_cache_entries : ℕ
default_cache_entries = 16

unfoldable pub remove_element : Bytes → List Bytes → List Bytes
remove_element e [] = []
remove_element e (x ∷ xs) = if x ≟ e then xs else x ∷ remove_element e xs

unfoldable pub move_to_front : Bytes → List Bytes → List Bytes
move_to_front e xs = e ∷ remove_element e xs

-- order.Back().
unfoldable pub back : List Bytes → Option Bytes
back [] = none
back (x ∷ []) = some x
back (x ∷ y ∷ ys) = back (y ∷ ys)

module _ (r : Replay) where
  open r use {Manifest}

  unfoldable pub new_store : ℕ → FeedStore r
  new_store n = record {
    entries = if n ≟ 0 then default_cache_entries else n;
    order = [];
    by_id = [];
    cache = [];
  }

  unfoldable pub lookup_store : Bytes → FeedStore r → FeedStore r × Option Manifest
  lookup_store id s = elim (lookup id s.by_id) [
    | none ↦ (s, none)
    | some e ↦ (record s { order = move_to_front e s.order }, lookup id s.cache)
  ]

  unfoldable pub drop_oldest : FeedStore r → FeedStore r
  drop_oldest s = elim (back s.order) [
    | none ↦ s
    | some oldest ↦ record s {
      order = remove_element oldest s.order;
      by_id = delete oldest s.by_id;
      cache = delete oldest s.cache;
    }
  ]

  -- `for s.order.Len() > s.entries`; each round drops one of the elements, which the fuel counts.
  unfoldable pub evict : ℕ → FeedStore r → FeedStore r
  evict zero s = s
  evict (suc fuel) s =
      let rest = evict fuel (drop_oldest s) in if ltb s.entries (length s.order) then rest else s

  unfoldable pub insert_store : Bytes → Manifest → FeedStore r → FeedStore r
  insert_store id m s = elim (lookup id s.by_id) [
    | some e ↦ record s { order = move_to_front e s.order }
    | none ↦
        let pushed = record s {
          order = id ∷ s.order;
          by_id = insert id id s.by_id;
          cache = insert id m s.cache;
        } in
        evict (length pushed.order) pushed
  ]

  -- A manifest fetched by id: kept only when Verify accepts it.
  unfoldable pub fetched :
      Bytes → Option Manifest → FeedStore r → FeedStore r × Result FeedError Manifest
  fetched id none s = (s, err fetch_failed)
  fetched id (some m) s = elim (verify r id m) [
    | err e ↦ (s, err e)
    | ok u ↦ (insert_store id m s, ok m)
  ]

  -- GetSafeSnapshot; the source answers a manifest, or `none` for an error.
  unfoldable pub get_safe_snapshot :
      (Bytes → Option Manifest) → Bytes → FeedStore r → FeedStore r × Result FeedError Manifest
  get_safe_snapshot src id s =
      if id ≟ [] then (s, err empty_snapshot_id) else elim (lookup_store id s).1 [
        | some m ↦ ((lookup_store id s).0, ok m)
        | none ↦ fetched id (src id) (lookup_store id s).0
      ]
