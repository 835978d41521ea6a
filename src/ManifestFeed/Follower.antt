-- ===== src/ManifestFeed/Follower.antt =====
-- The follower of member/manifestfeed/feed.go. The watermark, the manifests and the callback's
-- answer are what one poll reads; logs and the timer are left out.
use arbiter_core.Types.{SafeWatermark}
use arbiter_core.ManifestFeed.{
  FeedError, Replay, FeedStore, get_safe_snapshot, is_refused, not_descending, poll_interval_low,
  root_of_watermark, watermark_failed, went_back, no_frontiers,
}
use arbiter_core.Base.{
  ℕ, zero, suc, Bool, true, false, Option, none, some, List, [], ◌∷◌, Bytes, ◌≟◌, list_eq, nat_eq,
  nat_ord, ltb, if◌then◌else◌, Result, ok, err, Map, lookup, insert, keys, sort, keep_if, not, ◌||◌,
  ◌+◌, ◌%◌, ◌-◌,
}

abbrev pub u64 : ℕ → ℕ
u64 n = n % 18446744073709551616

abbrev pub default_max_walk : ℕ
default_max_walk = 64

-- Durations in nanoseconds.
abbrev pub default_poll_interval : ℕ
default_poll_interval = 5000000000

abbrev min_poll_interval : ℕ
min_poll_interval = 1000000000

-- MaxWalk and PollInterval; the follower keeps no cache of its own.
pub record Config : Type 0 where
  pub max_walk : ℕ
  pub poll_interval : ℕ

pub record FollowerStats : Type 0 where
  pub accepted : ℕ
  pub refused : ℕ
  pub full_fetches : ℕ
  pub update_failures : ℕ
  pub last : Bytes

module _ (r : Replay) where
  open r use {
    Manifest, Frontier, frontier_eq, frontier_block_seq, frontier_promotion_seq, owner_entry,
    indexers, snapshot_id, parent_snapshot_id, manifest_root, safe_block_seq,
  }

  pub record Update : Type 0 where
    pub snapshot_id : Bytes
    pub parent_snapshot_id : Bytes
    pub safe_block_seq : ℕ
    pub manifest : Manifest
    pub entries : Map ℕ Frontier
    pub changed : List ℕ
    pub full_fetch : Bool
    pub walked : ℕ

  pub record FeedFollower : Type 0 where
    pub cfg : Config
    pub store : FeedStore r
    pub last : Bytes
    pub last_entries : Map ℕ Frontier
    pub stats : FollowerStats

  unfoldable pub new_follower :
      Config → FeedStore r → Bytes → Map ℕ Frontier → Result FeedError FeedFollower
  new_follower cfg store last last_entries =
      let walk = if cfg.max_walk ≟ 0 then default_max_walk else cfg.max_walk in
      let interval = if cfg.poll_interval ≟ 0 then default_poll_interval else cfg.poll_interval in
      let follower : FeedFollower = record {
        cfg = record { max_walk = walk; poll_interval = interval };
        store = store;
        last = last;
        last_entries = last_entries;
        stats = record {
          accepted = 0;
          refused = 0;
          full_fetches = 0;
          update_failures = 0;
          last = last;
        };
      } in
      if ltb interval min_poll_interval then err poll_interval_low else ok follower

  abbrev pub Walked : Type 0
  Walked = FeedStore r × Result FeedError (ℕ × Bool)

  abbrev pub walk_on :
      (Manifest → FeedStore r → Walked) → FeedStore r × Result FeedError Manifest → Walked
  walk_on go (s, err e) = (s, err e)
  walk_on go (s, ok next) = go next s

  -- The loop of walk; `left` is MaxWalk - hops, so that `hops >= MaxWalk` is `left == 0`.
  unfoldable pub walk_from :
      (Bytes → Option Manifest) → Bytes → ℕ → ℕ → Manifest → FeedStore r → Walked
  walk_from src last zero hops cur s =
      if parent_snapshot_id cur ≟ last
      then (s, ok (hops, false))
      else if parent_snapshot_id cur ≟ []
      then (s, err not_descending)
      else (s, ok (hops, true))
  walk_from src last (suc left) hops cur s =
      let further =
        walk_on (walk_from src last left (suc hops))
          (get_safe_snapshot r src (parent_snapshot_id cur) s) in
      if parent_snapshot_id cur ≟ last
      then (s, ok (hops, false))
      else if parent_snapshot_id cur ≟ []
      then (s, err not_descending)
      else further

  unfoldable pub walk : (Bytes → Option Manifest) → ℕ → Manifest → Bytes → FeedStore r → Walked
  walk src max_walk w last s = walk_from src last (max_walk - 1) 1 w s

  -- `u.Entries[tf.IndexerID] = entry` over the track frontiers.
  unfoldable pub entries_of : Manifest → List ℕ → Map ℕ Frontier → Map ℕ Frontier
  entries_of m [] entries = entries
  entries_of m (i ∷ is) entries = entries_of m is (insert i (owner_entry m i) entries)

  -- The two numbers of an owner's entry; a missing owner counts as (0, 0).
  abbrev pub block_seq_of : Option Frontier → ℕ
  block_seq_of none = 0
  block_seq_of (some t) = frontier_block_seq t

  abbrev pub promotion_seq_of : Option Frontier → ℕ
  promotion_seq_of none = 0
  promotion_seq_of (some t) = frontier_promotion_seq t

  unfoldable pub goes_back : Map ℕ Frontier → Map ℕ Frontier → ℕ → Bool
  goes_back was now owner =
      ltb (block_seq_of (lookup owner now)) (block_seq_of (lookup owner was))
      || ltb (promotion_seq_of (lookup owner now)) (promotion_seq_of (lookup owner was))

  -- The first owner whose entry goes back.
  unfoldable pub first_back : Map ℕ Frontier → Map ℕ Frontier → List ℕ → Option ℕ
  first_back was now [] = none
  first_back was now (o ∷ os) =
      let rest = first_back was now os in if goes_back was now o then some o else rest

  abbrev pub same_entry : Option Frontier → Option Frontier → Bool
  same_entry (some a) (some b) = frontier_eq.beq a b
  same_entry _ _ = false

  -- The owners whose entry differs from the last accepted one, ascending.
  unfoldable pub changed_owners : Map ℕ Frontier → Map ℕ Frontier → List ℕ
  changed_owners was now =
      keep_if (λ o. not (same_entry (lookup o was) (lookup o now))) (sort (keys now))

  abbrev pub empty : List ℕ → Bool
  empty [] = true
  empty (i ∷ is) = false

  unfoldable pub update_of : Manifest → ℕ × Bool → Map ℕ Frontier → Result FeedError (Option Update)
  update_of m walked was =
      let now = entries_of m (indexers m) [] in
      elim (first_back was now (sort (keys was))) [
        | some o ↦ err went_back
        | none ↦ ok (
            some (record {
              snapshot_id = snapshot_id m;
              parent_snapshot_id = parent_snapshot_id m;
              safe_block_seq = safe_block_seq m;
              manifest = m;
              entries = now;
              changed = changed_owners was now;
              full_fetch = walked.1;
              walked = walked.0;
            }))
      ]

  abbrev pub Computed : Type 0
  Computed = FeedStore r × Result FeedError (Option Update)

  abbrev pub after_walk : Manifest → Map ℕ Frontier → Walked → Computed
  after_walk m was (s, err e) = (s, err e)
  after_walk m was (s, ok walked) = (s, update_of m walked was)

  -- compute, from the verified manifest on.
  unfoldable pub compute_from :
      (Bytes → Option Manifest) → FeedFollower → SafeWatermark → FeedStore r → Manifest → Computed
  compute_from src f w s m =
      if not (w.manifest_root ≟ manifest_root m)
      then (s, err root_of_watermark)
      else if empty (indexers m)
      then (s, err no_frontiers)
      else if f.last ≟ []
      then after_walk m f.last_entries (s, ok (0, true))
      else after_walk m f.last_entries (walk src f.cfg.max_walk m f.last s)

  abbrev pub compute_on :
      (FeedStore r → Manifest → Computed) → FeedStore r × Result FeedError Manifest → Computed
  compute_on go (s, err e) = (s, err e)
  compute_on go (s, ok m) = go s m

  unfoldable pub compute :
      (Bytes → Option Manifest) → Option SafeWatermark → FeedFollower → Computed
  compute src none f = (f.store, err watermark_failed)
  compute src (some w) f =
      if (w.snapshot_id ≟ []) || (w.snapshot_id ≟ f.last)
      then (f.store, ok none)
      else compute_on (compute_from src f w) (get_safe_snapshot r src w.snapshot_id f.store)

  unfoldable pub accept : Update → FeedFollower → FeedFollower
  accept u f = record f {
    last = u.snapshot_id;
    last_entries = u.entries;
    stats = record (f.stats) {
      accepted = u64 (f.stats.accepted + 1);
      full_fetches = if u.full_fetch then u64 (f.stats.full_fetches + 1) else f.stats.full_fetches;
      last = u.snapshot_id;
    };
  }

  -- The follower after compute, with the refusal counted.
  unfoldable pub count_refusal :
      FeedFollower → Computed → FeedFollower × Result FeedError (Option Update)
  count_refusal f (s, ok u) = (record f { store = s }, ok u)
  count_refusal f (s, err e) = (
    if is_refused e
        then record f {
          store = s;
          stats = record (f.stats) { refused = u64 (f.stats.refused + 1) };
        }
        else record f { store = s },
    err e,
  )

  unfoldable pub next_update :
      (Bytes → Option Manifest)
      → Option SafeWatermark
      → FeedFollower
      → FeedFollower × Result FeedError (Option Update)
  next_update src wm f = count_refusal f (compute src wm f)

  abbrev pub polled :
      FeedFollower × Result FeedError (Option Update)
      → FeedFollower × Result FeedError (Option Update)
  polled (f, ok (some u)) = (accept u f, ok (some u))
  polled (f, ok none) = (f, ok none)
  polled (f, err e) = (f, err e)

  unfoldable pub poll :
      (Bytes → Option Manifest)
      → Option SafeWatermark
      → FeedFollower
      → FeedFollower × Result FeedError (Option Update)
  poll src wm f = polled (next_update src wm f)

  abbrev pub stepped :
      (Update → Bool) → FeedFollower × Result FeedError (Option Update) → FeedFollower
  stepped on_update (f, ok (some u)) = if on_update u then accept u f else record f {
    stats = record (f.stats) { update_failures = u64 (f.stats.update_failures + 1) };
  }
  stepped on_update (f, ok none) = f
  stepped on_update (f, err e) = f

  -- One round of Run; the callback answers true when it succeeds.
  unfoldable pub step :
      (Bytes → Option Manifest)
      → Option SafeWatermark
      → (Update → Bool)
      → FeedFollower
      → FeedFollower
  step src wm on_update f = stepped on_update (next_update src wm f)
