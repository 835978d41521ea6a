-- ===== src/ManifestFeed/Accepted.antt =====
-- What the follower of member/manifestfeed/feed.go accepts, and what it keeps when it refuses.
use arbiter_core.Types.{SafeWatermark}
use arbiter_core.ManifestFeed.{Replay, FeedStore, FeedError, verify}
use arbiter_core.ManifestFeed.Cache.{IsStore}
use arbiter_core.ManifestFeed.Frontiers.{
  IsNotBack, first_back-IsNotBack, lookup-entries_of, changed_owners_iff,
}
use arbiter_core.ManifestFeed.Walk.{Descends, IsWalked, walk_from-IsWalked}
use arbiter_core.ManifestFeed.Follower.{
  Update, FeedFollower, walk, update_of, compute_from, first_back, entries_of, changed_owners,
  empty,
}
use arbiter_core.Base.{
  ℕ, refl, Bool, true, false, Option, none, some, [], arith, list_eq, nat_eq, nat_ord, ◌≟◌, ≟_iff,
  Map, ◌≡◌, ok, ◌≢◌, lookup, sort, ◌≤◌, if◌then◌else◌, keys, max, Option-cases, contains, inl, ◌↔◌,
  inr, Bytes, Result, err, Bool-cases, ◌-◌, Result-cases, ◌∙◌, ap,
}

module _ (r : Replay) where
  open r use {Manifest, Frontier, manifest_root, indexers, owner_entry}

  -- What an update over an accepted manifest promises, for the follower that it is offered to and
  -- the watermark that it was read at.
  pub record IsUpdate (f : FeedFollower r) (w : SafeWatermark) (u : Update r) : Type 0 where
    pub named : (u.snapshot_id ≡ w.snapshot_id) × (manifest_root u.manifest ≡ w.manifest_root)
    pub verified : verify r u.snapshot_id u.manifest ≡ ok tt
    pub moved : (u.snapshot_id ≢ []) × (u.snapshot_id ≢ f.last)
    pub entries :
        (owner : ℕ)
        → lookup owner u.entries ≡ (
            if contains owner (indexers u.manifest)
            then some (owner_entry u.manifest owner)
            else none)
    pub not_back : (owner : ℕ) → IsNotBack r f.last_entries u.entries owner
    pub changed :
        (owner : ℕ)
        → (contains owner u.changed ≡ true) ↔ (
            (t : Frontier) × (lookup owner u.entries ≡ some t)
            × (lookup owner f.last_entries ≢ some t))
    pub descends : u.full_fetch ≡ false → Descends r f.last u.manifest u.walked
    pub bounded : u.walked ≤ max 1 f.cfg.max_walk

  -- The parts of an update that come from its manifest.
  update_of-fields :
      (m : Manifest) (walked : ℕ × Bool) (was : Map ℕ Frontier) (u : Update r)
      → update_of r m walked was ≡ ok (some u)
      → (u.snapshot_id ≡ r.snapshot_id m)
        × (u.manifest ≡ m)
        × (u.entries ≡ entries_of r m (indexers m) [])
        × (u.changed ≡ changed_owners r was (entries_of r m (indexers m) []))
        × (u.full_fetch ≡ walked.1)
        × (u.walked ≡ walked.0)
        × (first_back r was (entries_of r m (indexers m) []) (sort (keys was)) ≡ none)
  unfolding update_of
  update_of-fields m walked was u h =
      elim (Option-cases (first_back r was (entries_of r m (indexers m) []) (sort (keys was)))) [
        | inl e ↦ ground (arith, h, e)
        | inr (o, e) ↦ absurd (ground (arith, h, e))
      ]

  verify-id : (id : Bytes) (m : Manifest) → verify r id m ≡ ok tt → r.snapshot_id m ≡ id
  unfolding verify
  verify-id id m v = ground (arith, v, ≟_iff (r.snapshot_id m) id)

  update_of-IsUpdate :
      (f : FeedFollower r) (w : SafeWatermark) (m : Manifest) (n : ℕ) (full : Bool) (u : Update r)
      → verify r w.snapshot_id m ≡ ok tt
      → w.manifest_root ≡ manifest_root m
      → (w.snapshot_id ≢ []) × (w.snapshot_id ≢ f.last)
      → (full ≡ false → Descends r f.last m n)
      → n ≤ max 1 f.cfg.max_walk
      → update_of r m (n, full) f.last_entries ≡ ok (some u)
      → IsUpdate f w u
  update_of-IsUpdate f w m n full u v root moved d b h =
      let fields = update_of-fields m (n, full) f.last_entries u h in
      let own : r.snapshot_id m ≡ w.snapshot_id = verify-id w.snapshot_id m v in
      let same : u.snapshot_id ≡ w.snapshot_id = cc in
      record {
        named = (same, cc);
        verified = rw (same, fields.1) v;
        moved = rw same moved;
        entries = λ owner. rw (fields.1, fields.2) (lookup-entries_of r m (indexers m) owner);
        not_back = λ owner. rw (fields.2) (first_back-IsNotBack r f.last_entries _ owner fields.6);
        changed = λ owner. rw (fields.2, fields.3) (changed_owners_iff r f.last_entries _ owner);
        descends = λ e. rw (fields.1, fields.5) (d cc);
        bounded = rw (fields.5) b;
      }

  -- What compute answers: a store in order, and an update only of the watermark it read.
  pub record IsComputed (f : FeedFollower r) (wm : Option SafeWatermark)
      (a : FeedStore r × Result FeedError (Option (Update r))) : Type 0 where
    pub is_store : IsStore r a.0
    pub is_update :
        (u : Update r) → a.1 ≡ ok (some u) → (w : SafeWatermark) × (wm ≡ some w) × IsUpdate f w u

  pub IsComputed-err :
      (f : FeedFollower r) (wm : Option SafeWatermark) (s : FeedStore r) (e : FeedError)
      → IsStore r s
      → IsComputed f wm (s, err e)
  IsComputed-err f wm s e st = record { is_store = st; is_update = λ u h. absurd cc }

  walked-Descends :
      (last : Bytes) (left n : ℕ) (full : Bool) (m : Manifest)
      → (a : FeedStore r × Result FeedError (ℕ × Bool)) → IsWalked r last left 1 m a
      → a.1 ≡ ok (n, full)
      → full ≡ false
      → Descends r last m n
  walked-Descends last left n full m a w z p =
      let (k, d, e) = w.descends n (z ∙ ap (λ b. ok (n, b)) p) in
      let same : n ≡ k = omega (arith, e) in rw same d

  pub compute_from-IsComputed :
      (src : Bytes → Option Manifest) (f : FeedFollower r) (w : SafeWatermark) (s : FeedStore r)
      → (m : Manifest) → IsStore r s
      → verify r w.snapshot_id m ≡ ok tt
      → (w.snapshot_id ≢ []) × (w.snapshot_id ≢ f.last)
      → IsComputed f (some w) (compute_from r src f w s m)
  unfolding compute_from walk
  compute_from-IsComputed src f w s m st v moved =
      elim (Bool-cases (w.manifest_root ≟ manifest_root m)) [
        | inr e ↦ rw (e, compute_from) (IsComputed-err f (some w) s _ st)
        | inl e ↦
            let root = (≟_iff w.manifest_root (manifest_root m)).0 e in
            elim (Bool-cases (empty r (indexers m))) [
              | inl g ↦ rw (e, g, compute_from) (IsComputed-err f (some w) s _ st)
              | inr g ↦ elim (Bool-cases (f.last ≟ [])) [
                | inl k ↦
                    rw (e, g, k, compute_from)
                      record {
                        is_store = st;
                        is_update = λ u h. (
                          w,
                          refl,
                          update_of-IsUpdate f w m 0 true u v root moved (λ p. absurd cc)
                              (omega arith) h,
                        );
                      }
                | inr k ↦
                    let walked = walk_from-IsWalked r src f.last (f.cfg.max_walk - 1) 1 m s st in
                    elim (Result-cases (walk r src f.cfg.max_walk m f.last s).1) [
                      | inr (x, z) ↦
                          rw (e, g, k, z, compute_from)
                            (IsComputed-err f (some w) _ x walked.is_store)
                      | inl ((n, full), z) ↦
                          rw (e, g, k, z, compute_from)
                            record {
                              is_store = walked.is_store;
                              is_update = λ u h. (
                                w,
                                refl,
                                update_of-IsUpdate f w m n full u v root moved
                                    (λ p. walked-Descends f.last _ n full m _ walked z p)
                                    (omega (arith, walked.bounded n full z)) h,
                              );
                            }
                    ]
              ]
            ]
      ]
