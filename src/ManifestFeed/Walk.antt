-- ===== src/ManifestFeed/Walk.antt =====
-- The walk of member/manifestfeed/feed.go from the watermark back to the last accepted manifest.
use arbiter_core.ManifestFeed.{Replay, FeedStore, FeedError, verify, get_safe_snapshot}
use arbiter_core.ManifestFeed.Cache.{IsStore, get_safe_snapshot-IsStore}
use arbiter_core.ManifestFeed.Follower.{walk_from}
use arbiter_core.Base.{
  ℕ, zero, suc, Bool, true, false, Option, [], arith, list_eq, nat_eq, ◌≟◌, ≟_iff, Bytes,
  Bool-cases, Result, ◌≡◌, inl, ok, inr, ◌+◌, ◌≤◌, Result-cases, err,
}

module _ (r : Replay) where
  open r use {Manifest, parent_snapshot_id}

  -- A manifest descends from `last` in so many hops along ParentSnapshotID, every manifest in
  -- between verified for the id that names it.
  pub data Descends (last : Bytes) : Manifest → ℕ → Type 0 where
    direct : (m : Manifest) → parent_snapshot_id m ≡ last → Descends last m 1
    through :
        (m p : Manifest) (n : ℕ)
        → verify r (parent_snapshot_id m) p ≡ ok tt
        → Descends last p n
        → Descends last m (suc n)

  -- What a walk answers, for the manifest it stands at after `hops` hops with `left` to go.
  pub record IsWalked (last : Bytes) (left hops : ℕ) (m : Manifest)
      (a : FeedStore r × Result FeedError (ℕ × Bool)) : Type 0 where
    pub is_store : IsStore r a.0
    pub descends :
        (n : ℕ) → a.1 ≡ ok (n, false) → (k : ℕ) × (Descends last m k) × (n + 1 ≡ hops + k)
    pub bounded : (n : ℕ) (full : Bool) → a.1 ≡ ok (n, full) → n ≤ hops + left

  IsWalked-direct :
      (last : Bytes) (left hops : ℕ) (m : Manifest) (s : FeedStore r)
      → IsStore r s
      → parent_snapshot_id m ≡ last
      → IsWalked last left hops m (s, ok (hops, false))
  IsWalked-direct last left hops m s st e = record {
    is_store = st;
    descends = λ n h. (1, direct m e, ground (arith, h));
    bounded = λ n full h. ground (arith, h);
  }

  IsWalked-full :
      (last : Bytes) (left hops : ℕ) (m : Manifest) (s : FeedStore r)
      → IsStore r s
      → IsWalked last left hops m (s, ok (hops, true))
  IsWalked-full last left hops m s st = record {
    is_store = st;
    descends = λ n h. absurd (ground (arith, h));
    bounded = λ n full h. ground (arith, h);
  }

  IsWalked-err :
      (last : Bytes) (left hops : ℕ) (m : Manifest) (s : FeedStore r) (e : FeedError)
      → IsStore r s
      → IsWalked last left hops m (s, err e)
  IsWalked-err last left hops m s e st = record {
    is_store = st;
    descends = λ n h. absurd cc;
    bounded = λ n full h. absurd cc;
  }

  -- One hop more, over a verified parent.
  IsWalked-through :
      (last : Bytes) (left hops : ℕ) (m p : Manifest)
      → (a : FeedStore r × Result FeedError (ℕ × Bool)) → verify r (parent_snapshot_id m) p ≡ ok tt
      → IsWalked last left (suc hops) p a
      → IsWalked last (suc left) hops m a
  IsWalked-through last left hops m p a v w = record {
    is_store = w.is_store;
    descends =
        λ n h. let (k, d, e) = w.descends n h in (suc k, through m p k v d, omega (arith, e));
    bounded = λ n full h. omega (arith, w.bounded n full h);
  }

  pub walk_from-IsWalked :
      (src : Bytes → Option Manifest) (last : Bytes) (left hops : ℕ) (m : Manifest)
      → (s : FeedStore r) → IsStore r s
      → IsWalked last left hops m (walk_from r src last left hops m s)
  unfolding walk_from
  walk_from-IsWalked src last zero hops m s st = elim (Bool-cases (parent_snapshot_id m ≟ last)) [
    | inl e ↦
        rw (e, walk_from)
          (IsWalked-direct last 0 hops m s st ((≟_iff (parent_snapshot_id m) last).0 e))
    | inr e ↦ elim (Bool-cases (parent_snapshot_id m ≟ [])) [
      | inl f ↦ rw (e, f, walk_from) (IsWalked-err last 0 hops m s _ st)
      | inr f ↦ rw (e, f, walk_from) (IsWalked-full last 0 hops m s st)
    ]
  ]
  walk_from-IsWalked src last (suc left) hops m s st =
      elim (Bool-cases (parent_snapshot_id m ≟ last)) [
        | inl e ↦
            rw (e, walk_from)
              (IsWalked-direct last (suc left) hops m s st
                ((≟_iff (parent_snapshot_id m) last).0 e))
        | inr e ↦ elim (Bool-cases (parent_snapshot_id m ≟ [])) [
          | inl f ↦ rw (e, f, walk_from) (IsWalked-err last (suc left) hops m s _ st)
          | inr f ↦
              let answer = get_safe_snapshot-IsStore r src (parent_snapshot_id m) s st in
              let got = get_safe_snapshot r src (parent_snapshot_id m) s in
              elim (Result-cases got.1) [
                | inl (p, g) ↦
                    rw (e, f, g, walk_from)
                      (IsWalked-through last left hops m p _ (answer.1 p g)
                        (walk_from-IsWalked src last left (suc hops) p got.0 answer.0))
                | inr (x, g) ↦
                    rw (e, f, g, walk_from) (IsWalked-err last (suc left) hops m got.0 x answer.0)
              ]
        ]
      ]
