-- ===== src/ManifestFeed/Frontiers.antt =====
-- The entries of owners in member/manifestfeed/feed.go: what an update carries, that no entry goes
-- back, and which owners it calls changed.
use arbiter_core.ManifestFeed.{Replay}
use arbiter_core.ManifestFeed.Follower.{
  entries_of, goes_back, first_back, changed_owners, block_seq_of, promotion_seq_of, same_entry,
}
use arbiter_core.Base.{
  ℕ, refl, Bool, true, false, none, some, List, [], ◌∷◌, arith, nat_eq, nat_ord, ◌≟◌, ≟_iff, ≟_refl,
  Map, contains, lookup, keep_if, keys, sort, ◌≡◌, ◌≤◌, contains-sort, if◌then◌else◌, is_some, ◌&&◌,
  ◌↔◌, Bool-cases, Option-cases, insert, ◌≢◌, inl, lookup-insert, not, inr,
}

contains-keys {ℓ} : {V : Type ℓ} (o : ℕ) (m : Map ℕ V) → contains o (keys m) ≡ is_some (lookup o m)
unfolding contains lookup
contains-keys o [] = refl
contains-keys o ((k, v) ∷ m) = ground (arith, contains-keys o m)

contains-keep_if :
    (p : ℕ → Bool) (o : ℕ) (xs : List ℕ) → contains o (keep_if p xs) ≡ (contains o xs && p o)
unfolding contains
contains-keep_if p o [] = refl
contains-keep_if p o (x ∷ xs) = elim (Bool-cases (x ≟ o)) [
  | inl e ↦
      let same : x ≡ o = (≟_iff x o).0 e in
      rw same (ground (arith, contains-keep_if p o xs, ≟_refl o))
  | inr e ↦ ground (arith, contains-keep_if p o xs, e)
]

module _ (r : Replay) where
  open r use {Manifest, Frontier, owner_entry, frontier_eq}

  -- Neither number of the owner's entry is lower in `now` than in `was`.
  pub record IsNotBack (was now : Map ℕ Frontier) (owner : ℕ) : Type 0 where
    pub block_seq : block_seq_of r (lookup owner was) ≤ block_seq_of r (lookup owner now)
    pub promotion_seq :
        promotion_seq_of r (lookup owner was) ≤ promotion_seq_of r (lookup owner now)

  first_back-none :
      (was now : Map ℕ Frontier) (owner : ℕ) (owners : List ℕ)
      → first_back r was now owners ≡ none
      → contains owner owners ≡ true
      → goes_back r was now owner ≡ false
  unfolding first_back contains
  first_back-none was now owner [] h c = absurd cc
  first_back-none was now owner (o ∷ os) h c =
      ground (arith, ≟_iff o owner, first_back-none was now owner os)

  pub first_back-IsNotBack :
      (was now : Map ℕ Frontier) (owner : ℕ)
      → first_back r was now (sort (keys was)) ≡ none
      → IsNotBack was now owner
  unfolding goes_back
  first_back-IsNotBack was now owner h =
      let listed = contains-sort owner (keys was) in
      let known = contains-keys owner was in
      let kept = first_back-none was now owner (sort (keys was)) h in
      elim (Option-cases (lookup owner was)) [
        | inl e ↦ record { block_seq = rw e (omega arith); promotion_seq = rw e (omega arith) }
        | inr (t, e) ↦
            let here : goes_back r was now owner ≡ false = ground (arith, listed, known, kept, e) in
            record { block_seq = ground (arith, here); promotion_seq = ground (arith, here) }
      ]

  lookup-entries_from :
      (m : Manifest) (is : List ℕ) (entries : Map ℕ Frontier) (owner : ℕ)
      → lookup owner (entries_of r m is entries)
        ≡ (if contains owner is then some (owner_entry m owner) else lookup owner entries)
  unfolding entries_of contains
  lookup-entries_from m [] entries owner = refl
  lookup-entries_from m (i ∷ is) entries owner = ground (
    arith,
    ≟_iff i owner,
    lookup-entries_from m is (insert i (owner_entry m i) entries) owner,
    lookup-insert i owner (owner_entry m i) entries,
  )

  -- The entries are those of the manifest's track frontiers.
  pub lookup-entries_of :
      (m : Manifest) (is : List ℕ) (owner : ℕ)
      → lookup owner (entries_of r m is [])
        ≡ (if contains owner is then some (owner_entry m owner) else none)
  unfolding lookup
  lookup-entries_of m is owner = lookup-entries_from m is [] owner

  -- An owner is called changed exactly when it has an entry that is not the one of before.
  pub changed_owners_iff :
      (was now : Map ℕ Frontier) (owner : ℕ)
      → (contains owner (changed_owners r was now) ≡ true)
        ↔ ((t : Frontier) × (lookup owner now ≡ some t) × (lookup owner was ≢ some t))
  unfolding changed_owners
  changed_owners_iff was now owner =
      let kept =
        contains-keep_if (λ o. not (same_entry r (lookup o was) (lookup o now))) owner
          (sort (keys now)) in
      let listed = contains-sort owner (keys now) in
      let known = contains-keys owner now in
      elim (Option-cases (lookup owner now)) [
        | inl e ↦ (
          λ h. absurd (ground (arith, h, kept, listed, known, e)),
          λ (t, f, g). absurd (ground (arith, f, e)),
        )
        | inr (t, e) ↦ elim (Option-cases (lookup owner was)) [
          | inl f ↦ (
            λ h. (t, e, λ g. ground (arith, g, f)),
            λ h. ground (arith, kept, listed, known, e, f),
          )
          | inr (u, f) ↦ (
            λ h. (
              t,
              e,
              λ g. ground (arith, g, f, kept, listed, known, e, h, frontier_eq.beq_iff u t),
            ),
            λ (v, g, k). ground (arith, kept, listed, known, e, f, g, k, frontier_eq.beq_iff u t),
          )
        ]
      ]
