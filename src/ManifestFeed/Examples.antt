-- ===== src/ManifestFeed/Examples.antt =====
-- Runs of member/manifestfeed on a toy manifest, and the theorems at concrete inputs.
use arbiter_core.Types.{SafeWatermark}
use arbiter_core.ManifestFeed.{
  Replay, FeedStore, new_store, get_safe_snapshot, lookup_store, fetched, insert_store, evict,
  drop_oldest, back, remove_element, move_to_front, verify, fetch_failed,
}
use arbiter_core.ManifestFeed.Cache.{IsStore, new_store-IsStore, get_safe_snapshot-IsStore}
use arbiter_core.ManifestFeed.Recency.{after_reads, get_safe_snapshot-cached}
use arbiter_core.ManifestFeed.Follower.{
  FeedFollower, Update, poll, next_update, compute, count_refusal, compute_from, walk, walk_from,
  update_of, entries_of, first_back, changed_owners, goes_back, accept,
}
use arbiter_core.ManifestFeed.Polls.{
  IsPolled, poll-IsPolled, Round, after_rounds, after_rounds-IsNotBack,
}
use arbiter_core.ManifestFeed.Frontiers.{IsNotBack}
use arbiter_core.Base.{
  sort, delete, insert, lookup, list_beq, ℕ, refl, true, false, Option, none, some, List, [], ◌∷◌,
  Bytes, nat_eq, list_eq, ok, err, if◌then◌else◌, ◌≡◌, arith, ◌==◌,
}

record ToyManifest : Type 0 where
  id : Bytes
  parent : Bytes
  seq : ℕ
  owners : List ℕ

abbrev toy : Replay
toy = record {
  Manifest = ToyManifest;
  snapshot_id = λ m. m.id;
  parent_snapshot_id = λ m. m.parent;
  manifest_root = λ m. m.id;
  safe_block_seq = λ m. m.seq;
  indexers = λ m. m.owners;
  validate = λ m. true;
  verify_ledger = λ m. true;
  Frontier = ℕ;
  frontier_eq = nat_eq;
  frontier_block_seq = λ t. t;
  frontier_promotion_seq = λ t. 0;
  owner_entry = λ m owner. m.seq;
}

abbrev first_manifest : ToyManifest
first_manifest = record { id = 1 ∷ []; parent = []; seq = 4; owners = 9 ∷ [] }

abbrev middle_manifest : ToyManifest
middle_manifest = record { id = 2 ∷ []; parent = 1 ∷ []; seq = 5; owners = 9 ∷ [] }

abbrev newest_manifest : ToyManifest
newest_manifest = record { id = 3 ∷ []; parent = 2 ∷ []; seq = 7; owners = 9 ∷ 8 ∷ [] }

abbrev toy_source : Bytes → Option ToyManifest
toy_source (n ∷ []) =
    if n == 1
    then some first_manifest
    else if n == 2
    then some middle_manifest
    else if n == 3
    then some newest_manifest
    else none
toy_source ids = none

abbrev no_source : Bytes → Option ToyManifest
no_source id = none

abbrev two_entries : FeedStore toy
two_entries = record { entries = 2; order = []; by_id = []; cache = [] }

two_entries-IsStore : IsStore toy two_entries
unfolding new_store
two_entries-IsStore = new_store-IsStore toy 2

read_first : (get_safe_snapshot toy toy_source (1 ∷ []) two_entries).1 ≡ ok first_manifest
unfolding get_safe_snapshot lookup_store fetched verify list_beq lookup
read_first = refl

get_safe_snapshot-IsStore_example :
    IsStore toy (get_safe_snapshot toy toy_source (1 ∷ []) two_entries).0
    × ((m : ToyManifest)
        → (get_safe_snapshot toy toy_source (1 ∷ []) two_entries).1 ≡ ok m
        → verify toy (1 ∷ []) m ≡ ok tt)
get_safe_snapshot-IsStore_example =
    get_safe_snapshot-IsStore toy toy_source (1 ∷ []) two_entries two_entries-IsStore

abbrev one_read : List ((Bytes → Option ToyManifest) × Bytes)
one_read = (toy_source, 2 ∷ []) ∷ []

get_safe_snapshot-cached_example :
    (get_safe_snapshot toy no_source
      (1 ∷ [])
      (after_reads toy one_read (get_safe_snapshot toy toy_source (1 ∷ []) two_entries).0)).1
    ≡ ok first_manifest
get_safe_snapshot-cached_example =
    get_safe_snapshot-cached toy toy_source no_source (1 ∷ []) first_manifest one_read two_entries
      two_entries-IsStore read_first (omega arith)

-- A third manifest pushes out the one that was read longest ago.
third_read_evicts :
    (get_safe_snapshot toy no_source (1 ∷ []) (
      after_reads toy
        ((toy_source, 2 ∷ []) ∷ (toy_source, 3 ∷ []) ∷ [])
        (get_safe_snapshot toy toy_source (1 ∷ []) two_entries).0)).1
    ≡ err fetch_failed
unfolding get_safe_snapshot lookup_store fetched verify insert_store evict drop_oldest back
    remove_element move_to_front after_reads list_beq lookup insert delete
third_read_evicts = refl

abbrev at_first : FeedFollower toy
at_first = record {
  cfg = record { max_walk = 64; poll_interval = 5000000000 };
  store = two_entries;
  last = 1 ∷ [];
  last_entries = (9, 4) ∷ [];
  stats = record {
    accepted = 1;
    refused = 0;
    full_fetches = 1;
    update_failures = 0;
    last = 1 ∷ [];
  };
}

abbrev at_newest : Option SafeWatermark
at_newest = some (record { snapshot_id = 3 ∷ []; safe_block_seq = 7; manifest_root = 3 ∷ [] })

abbrev newest_update : Update toy
newest_update = record {
  snapshot_id = 3 ∷ [];
  parent_snapshot_id = 2 ∷ [];
  safe_block_seq = 7;
  manifest = newest_manifest;
  entries = (9, 7) ∷ (8, 7) ∷ [];
  changed = 8 ∷ 9 ∷ [];
  full_fetch = false;
  walked = 2;
}

poll_accepts : (poll toy toy_source at_newest at_first).1 ≡ ok (some newest_update)
unfolding poll next_update compute count_refusal compute_from walk walk_from update_of entries_of
    first_back changed_owners goes_back accept get_safe_snapshot lookup_store fetched verify
    insert_store evict drop_oldest back remove_element move_to_front list_beq lookup insert sort
poll_accepts = refl

poll-IsPolled_example : IsPolled toy at_newest at_first (poll toy toy_source at_newest at_first)
poll-IsPolled_example = poll-IsPolled toy toy_source at_newest at_first two_entries-IsStore

abbrev two_rounds : List (Round toy)
two_rounds =
    record { source = toy_source; watermark = at_newest; on_update = λ u. false }
    ∷ record { source = toy_source; watermark = at_newest; on_update = λ u. true }
    ∷ []

after_rounds-IsNotBack_example :
    IsStore toy (after_rounds toy two_rounds at_first).store
    × ((owner : ℕ)
        → IsNotBack toy ((9, 4) ∷ []) (after_rounds toy two_rounds at_first).last_entries owner)
after_rounds-IsNotBack_example = after_rounds-IsNotBack toy two_rounds at_first two_entries-IsStore
