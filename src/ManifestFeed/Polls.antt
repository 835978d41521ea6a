-- ===== src/ManifestFeed/Polls.antt =====
-- Poll and the rounds of Run in member/manifestfeed/feed.go.
use arbiter_core.Types.{SafeWatermark}
use arbiter_core.ManifestFeed.{Replay, FeedStore, FeedError, get_safe_snapshot, is_refused}
use arbiter_core.ManifestFeed.Cache.{IsStore, get_safe_snapshot-IsStore}
use arbiter_core.ManifestFeed.Frontiers.{IsNotBack}
use arbiter_core.ManifestFeed.Accepted.{
  IsUpdate, IsComputed, IsComputed-err, compute_from-IsComputed,
}
use arbiter_core.ManifestFeed.Follower.{
  Update, FeedFollower, compute, count_refusal, next_update, poll, step, accept, u64, polled,
  stepped,
}
use arbiter_core.Base.{
  ℕ, refl, Bool, Option, none, some, List, [], ◌∷◌, arith, list_eq, nat_eq, ◌≟◌, ≟_iff, Bytes,
  Result, Bool-cases, Result-cases, ◌≡◌, inr, ok, ◌||◌, err, inl, if◌then◌else◌, ◌≢◌, ◌+◌, Map, ap,
}

module _ (r : Replay) where
  open r use {Manifest, Frontier}

  compute-IsComputed :
      (src : Bytes → Option Manifest) (wm : Option SafeWatermark) (f : FeedFollower r)
      → IsStore r f.store
      → IsComputed r f wm (compute r src wm f)
  unfolding compute
  compute-IsComputed src none f st = IsComputed-err r f none f.store _ st
  compute-IsComputed src (some w) f st =
      elim (Bool-cases ((w.snapshot_id ≟ []) || (w.snapshot_id ≟ f.last))) [
        | inl e ↦
            rw (e, compute) record { is_store = st; is_update = λ u h. absurd (ground (arith, h)) }
        | inr e ↦
            let moved : (w.snapshot_id ≢ []) × (w.snapshot_id ≢ f.last) = (
              λ p. ground (arith, p, e, ≟_iff w.snapshot_id []),
              λ p. ground (arith, p, e, ≟_iff w.snapshot_id f.last),
            ) in
            let answer = get_safe_snapshot-IsStore r src w.snapshot_id f.store st in
            let got = get_safe_snapshot r src w.snapshot_id f.store in
            elim (Result-cases got.1) [
              | inl (m, g) ↦
                  rw (e, g, compute)
                    (compute_from-IsComputed r src f w got.0 m answer.0 (answer.1 m g) moved)
              | inr (x, g) ↦ rw (e, g, compute) (IsComputed-err r f (some w) got.0 x answer.0)
            ]
      ]

  -- What a poll leaves, for the follower before.
  pub record IsPolled (wm : Option SafeWatermark) (f : FeedFollower r)
      (a : FeedFollower r × Result FeedError (Option (Update r))) : Type 0 where
    pub is_store : IsStore r a.0.store
    pub accepted :
        (u : Update r)
        → a.1 ≡ ok (some u)
        → (w : SafeWatermark) × (wm ≡ some w)
          × IsUpdate r f w u
          × (a.0.last ≡ u.snapshot_id)
          × (a.0.last_entries ≡ u.entries)
    pub unmoved :
        a.1 ≡ ok none
        → (a.0.last ≡ f.last) × (a.0.last_entries ≡ f.last_entries) × (a.0.stats ≡ f.stats)
    pub refused :
        (e : FeedError)
        → a.1 ≡ err e
        → (a.0.last ≡ f.last)
          × (a.0.last_entries ≡ f.last_entries)
          × (a.0.stats.accepted ≡ f.stats.accepted)
          × (a.0.stats.refused
              ≡ (if is_refused e then u64 (f.stats.refused + 1) else f.stats.refused))

  polled-IsPolled :
      (wm : Option SafeWatermark) (f : FeedFollower r)
      → (a : FeedStore r × Result FeedError (Option (Update r))) → IsComputed r f wm a
      → IsPolled wm f (polled r (count_refusal r f a))
  unfolding count_refusal accept
  polled-IsPolled wm f (s, err x) c = record {
    is_store = elim (Bool-cases (is_refused x)) [
      | inl b ↦ rw (b, count_refusal) c.is_store
      | inr b ↦ rw (b, count_refusal) c.is_store
    ];
    accepted = λ u h. absurd (ground (arith, h));
    unmoved = λ h. absurd (ground (arith, h));
    refused = λ e h. ground (arith, h);
  }
  polled-IsPolled wm f (s, ok none) c = record {
    is_store = c.is_store;
    accepted = λ u h. absurd (ground (arith, h));
    unmoved = λ h. (refl, refl, refl);
    refused = λ e h. absurd cc;
  }
  polled-IsPolled wm f (s, ok (some u)) c = record {
    is_store = c.is_store;
    accepted = λ v h.
        let same : u ≡ v = ground (arith, h) in
        let (w, e, i) = c.is_update u refl in
        (w, e, rw (← same) i, ap (λ x. x.snapshot_id) same, ap (λ x. x.entries) same);
    unmoved = λ h. absurd (ground (arith, h));
    refused = λ e h. absurd cc;
  }

  -- A poll keeps the cache in order. What it accepts is a verified manifest that the watermark
  -- names by id and root, not the last accepted one, whose entries are its own track frontiers',
  -- of which none goes back in either number and the changed ones are called changed; without a
  -- full fetch it descends from the last accepted manifest, in at most MaxWalk verified hops. A
  -- poll that accepts nothing leaves the last accepted manifest and its entries as they were, and
  -- counts exactly the refusals that wrap ErrManifestRefused.
  pub poll-IsPolled :
      (src : Bytes → Option Manifest) (wm : Option SafeWatermark) (f : FeedFollower r)
      → IsStore r f.store
      → IsPolled wm f (poll r src wm f)
  unfolding poll next_update
  poll-IsPolled src wm f st =
      polled-IsPolled wm f (compute r src wm f) (compute-IsComputed src wm f st)

  -- One round of Run with what the source, the watermark and the callback answer.
  pub record Round : Type 0 where
    pub source : Bytes → Option Manifest
    pub watermark : Option SafeWatermark
    pub on_update : Update r → Bool

  unfoldable pub after_rounds : List Round → FeedFollower r → FeedFollower r
  after_rounds [] f = f
  after_rounds (a ∷ rounds) f = after_rounds rounds (step r a.source a.watermark a.on_update f)

  -- A round keeps the cache in order and moves no owner's entry back.
  abbrev IsForward : FeedFollower r → FeedFollower r → Type 0
  IsForward f g =
      IsStore r g.store × ((owner : ℕ) → IsNotBack r f.last_entries g.last_entries owner)

  IsNotBack-refl : (m : Map ℕ Frontier) (owner : ℕ) → IsNotBack r m m owner
  IsNotBack-refl m owner = record { block_seq = omega arith; promotion_seq = omega arith }

  stepped-IsForward :
      (wm : Option SafeWatermark) (on_update : Update r → Bool) (f : FeedFollower r)
      → (a : FeedStore r × Result FeedError (Option (Update r))) → IsComputed r f wm a
      → IsForward f (stepped r on_update (count_refusal r f a))
  unfolding count_refusal accept
  stepped-IsForward wm on_update f (s, err x) c = elim (Bool-cases (is_refused x)) [
    | inl b ↦ rw (b, count_refusal) (c.is_store, IsNotBack-refl f.last_entries)
    | inr b ↦ rw (b, count_refusal) (c.is_store, IsNotBack-refl f.last_entries)
  ]
  stepped-IsForward wm on_update f (s, ok none) c = (c.is_store, IsNotBack-refl f.last_entries)
  stepped-IsForward wm on_update f (s, ok (some u)) c = elim (Bool-cases (on_update u)) [
    | inl b ↦ rw b (c.is_store, (c.is_update u refl).2.not_back)
    | inr b ↦ rw b (c.is_store, IsNotBack-refl f.last_entries)
  ]

  step-IsForward :
      (a : Round) (f : FeedFollower r)
      → IsStore r f.store
      → IsForward f (step r a.source a.watermark a.on_update f)
  unfolding step next_update
  step-IsForward a f st =
      stepped-IsForward a.watermark a.on_update f (compute r a.source a.watermark f)
        (compute-IsComputed a.source a.watermark f st)

  -- Over any number of rounds of Run, whatever the arbiter answers and the callback does, the
  -- accepted entry of every owner never goes back in either of its two numbers, a missing entry
  -- counting as (0, 0), and the cache stays in order.
  pub after_rounds-IsNotBack :
      (rounds : List Round) (f : FeedFollower r)
      → IsStore r f.store
      → IsStore r (after_rounds rounds f).store
        × ((owner : ℕ) → IsNotBack r f.last_entries (after_rounds rounds f).last_entries owner)
  unfolding after_rounds
  after_rounds-IsNotBack [] f st = (st, IsNotBack-refl f.last_entries)
  after_rounds-IsNotBack (a ∷ rounds) f st =
      let here = step-IsForward a f st in
      let rest = after_rounds-IsNotBack rounds (step r a.source a.watermark a.on_update f) here.0 in
      (
        rest.0,
        λ owner. record {
          block_seq = omega (arith, (here.1 owner).block_seq, (rest.1 owner).block_seq);
          promotion_seq = omega (arith, (here.1 owner).promotion_seq, (rest.1 owner).promotion_seq);
        },
      )
