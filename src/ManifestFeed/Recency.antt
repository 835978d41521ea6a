-- ===== src/ManifestFeed/Recency.antt =====
-- Which manifests the cache of member/manifestfeed/store.go keeps: the least recently used go.
use arbiter_core.ManifestFeed.{
  Replay, verify, FeedStore, remove_element, move_to_front, back, lookup_store, drop_oldest, evict,
  insert_store, fetched, get_safe_snapshot,
}
use arbiter_core.ManifestFeed.Cache.{
  IsIndexed, IsStore, count-remove_element, back-count, indexed_id, drop_oldest-IsIndexed,
  drop_oldest-fields, pushed-IsIndexed, get_safe_snapshot-IsStore, get_safe_snapshot-entries,
}
use arbiter_core.Base.{
  ℕ, zero, suc, false, Option, none, some, List, [], ◌∷◌, Bytes, arith, list_eq, nat_eq, ◌≟◌, ≟_iff,
  ≟_refl, count, if◌then◌else◌, lookup, ◌<◌, ◌≢◌, ◌≤◌, Bool-cases, length, ◌≡◌, Option-cases, inl,
  inr, lookup-delete, ltb, ok, insert, lookup-insert, lookup-insert_self, Result-cases, ◌+◌, ◌∙◌,
  ap,
}

-- How many elements stand before the first occurrence; all of them when there is none.
unfoldable pub ahead : Bytes → List Bytes → ℕ
ahead a [] = 0
ahead a (x ∷ xs) = if x ≟ a then 0 else suc (ahead a xs)

ahead-remove_element :
    (a e : Bytes) (xs : List Bytes) → e ≢ a → ahead a (remove_element e xs) ≤ ahead a xs
unfolding ahead remove_element
ahead-remove_element a e [] h = omega arith
ahead-remove_element a e (x ∷ xs) h =
    ground (arith, ≟_iff x e, ≟_iff x a, h, ahead-remove_element a e xs h)

ahead-move_to_front :
    (a e : Bytes) (xs : List Bytes) → ahead a (move_to_front e xs) ≤ suc (ahead a xs)
unfolding ahead move_to_front
ahead-move_to_front a e xs = elim (Bool-cases (e ≟ a)) [
  | inl p ↦ ground (arith, p)
  | inr p ↦ ground (arith, p, ahead-remove_element a e xs (λ q. ground (arith, ≟_iff e a, q, p)))
]

-- Everything stands ahead of the only occurrence at the back.
ahead-back :
    (e : Bytes) (xs : List Bytes) → back xs ≡ some e → count e xs ≤ 1 → suc (ahead e xs) ≡ length xs
unfolding ahead back count
ahead-back e [] h u = absurd cc
ahead-back e (x ∷ []) h u = ground (arith, ≟_iff x e)
ahead-back e (x ∷ y ∷ ys) h u =
    ground (arith, back-count (y ∷ ys) e, ahead-back e (y ∷ ys), ≟_iff x e)

module _ (r : Replay) where
  open r use {Manifest}

  -- The cache has the manifest for the id, with fewer than `n` ids used since.
  abbrev IsHeld : Bytes → Manifest → ℕ → FeedStore r → Type 0
  IsHeld id m n s = (lookup id s.cache ≡ some m) × (0 < count id s.order) × (ahead id s.order < n)

  drop_oldest-IsHeld :
      (id : Bytes) (m : Manifest) (n : ℕ) (s : FeedStore r)
      → IsIndexed r s
      → n < length s.order
      → IsHeld id m n s
      → IsHeld id m n (drop_oldest r s)
  unfolding drop_oldest
  drop_oldest-IsHeld id m n s i h k = elim (Option-cases (back s.order)) [
    | inl e ↦ rw (e, drop_oldest) k
    | inr (o, e) ↦
        rw (e, drop_oldest)
          (let other : (o ≟ id) ≡ false =
              ground (arith, ≟_iff o id, ahead-back id s.order, i.unique id, k, h, e) in
            (
              ground (arith, k, other, lookup-delete o id s.cache),
              ground (arith, k, other, count-remove_element id o s.order),
              ground (
                arith,
                k,
                ahead-remove_element id o s.order (λ q. ground (arith, ≟_iff o id, q, other)),
              ),
            ))
  ]

  evict-IsHeld :
      (fuel : ℕ) (id : Bytes) (m : Manifest) (n : ℕ) (s : FeedStore r)
      → IsIndexed r s
      → n ≤ s.entries
      → IsHeld id m n s
      → IsHeld id m n (evict r fuel s)
  unfolding evict
  evict-IsHeld zero id m n s i h k = k
  evict-IsHeld (suc f) id m n s i h k = elim (Bool-cases (ltb s.entries (length s.order))) [
    | inl e ↦
        rw (e, evict)
          (evict-IsHeld f id m n (drop_oldest r s) (drop_oldest-IsIndexed r s i)
            (ground (arith, h, drop_oldest-fields r s))
            (drop_oldest-IsHeld id m n s i (ground (arith, h, e)) k))
    | inr e ↦ rw (e, evict) k
  ]

  touched-IsHeld :
      (id : Bytes) (m : Manifest) (n : ℕ) (e : Bytes) (s : FeedStore r)
      → 0 < count e s.order
      → IsHeld id m n s
      → IsHeld id m (suc n) (record s { order = move_to_front e s.order })
  unfolding move_to_front count
  touched-IsHeld id m n e s h k = (
    k.0,
    ground (arith, k, ≟_iff e id, count-remove_element id e s.order),
    ground (arith, k, ahead-move_to_front id e s.order, move_to_front),
  )

  lookup_store-IsHeld :
      (id : Bytes) (m : Manifest) (n : ℕ) (j : Bytes) (s : FeedStore r)
      → IsStore r s
      → IsHeld id m n s
      → IsHeld id m (suc n) (lookup_store r j s).0
  unfolding lookup_store
  lookup_store-IsHeld id m n j s st k = elim (Option-cases (lookup j s.by_id)) [
    | inl e ↦ rw (e, lookup_store) (k.0, k.1, ground (arith, k))
    | inr (o, e) ↦ rw (e, lookup_store) (touched-IsHeld id m n o s (indexed_id r j o s st e).1 k)
  ]

  -- An id that is not in the index, with its manifest, goes to the front and may push out others.
  insert_store-IsHeld :
      (id : Bytes) (m : Manifest) (n : ℕ) (j : Bytes) (p : Manifest) (s : FeedStore r)
      → IsStore r s
      → verify r j p ≡ ok tt
      → lookup j s.by_id ≡ none
      → suc n ≤ s.entries
      → IsHeld id m n s
      → IsHeld id m (suc n) (insert_store r j p s)
  unfolding insert_store count ahead
  insert_store-IsHeld id m n j p s st v e h k =
      let absent : count j s.order ≡ 0 = ground (arith, st.is_indexed.indexed j) in
      let other : (j ≟ id) ≡ false = ground (arith, ≟_iff j id, k, absent) in
      let pushed = record s {
        order = j ∷ s.order;
        by_id = insert j j s.by_id;
        cache = insert j p s.cache;
      } in
      rw (e, insert_store)
        (evict-IsHeld (length pushed.order) id m (suc n) pushed
          (pushed-IsIndexed r j p s absent v st.is_indexed) h
          (
            ground (arith, k, other, lookup-insert j id p s.cache),
            ground (arith, k, other),
            ground (arith, k, other),
          ))

  -- The new id itself is held at the front.
  insert_store-IsHeld_self :
      (j : Bytes) (p : Manifest) (s : FeedStore r)
      → IsStore r s
      → verify r j p ≡ ok tt
      → lookup j s.by_id ≡ none
      → IsHeld j p 1 (insert_store r j p s)
  unfolding insert_store count ahead
  insert_store-IsHeld_self j p s st v e =
      let absent : count j s.order ≡ 0 = ground (arith, st.is_indexed.indexed j) in
      let pushed = record s {
        order = j ∷ s.order;
        by_id = insert j j s.by_id;
        cache = insert j p s.cache;
      } in
      rw (e, insert_store)
        (evict-IsHeld (length pushed.order) j p 1 pushed
          (pushed-IsIndexed r j p s absent v st.is_indexed) (ground (arith, st.sized))
          (lookup-insert_self j p s.cache, ground (arith, ≟_refl j), ground (arith, ≟_refl j)))

  -- A miss of the cache is a miss of the index, and leaves the store as it was.
  lookup_store-none :
      (id : Bytes) (s : FeedStore r)
      → IsStore r s
      → (lookup_store r id s).1 ≡ none
      → (lookup id s.by_id ≡ none) × ((lookup_store r id s).0 ≡ s)
  unfolding lookup_store
  lookup_store-none id s st h = ground (arith, h, st.is_indexed.indexed id, st.is_indexed.cached id)

  fetched-IsHeld :
      (id : Bytes) (m : Manifest) (n : ℕ) (j : Bytes) (answer : Option Manifest) (s : FeedStore r)
      → IsStore r s
      → lookup j s.by_id ≡ none
      → suc n ≤ s.entries
      → IsHeld id m n s
      → IsHeld id m (suc n) (fetched r j answer s).0
  unfolding fetched
  fetched-IsHeld id m n j none s st e h k = (k.0, k.1, ground (arith, k))
  fetched-IsHeld id m n j (some p) s st e h k = elim (Result-cases (verify r j p)) [
    | inl (u, v) ↦ rw (v, fetched) (insert_store-IsHeld id m n j p s st v e h k)
    | inr (x, v) ↦ rw (v, fetched) (k.0, k.1, ground (arith, k))
  ]

  get_safe_snapshot-IsHeld :
      (src : Bytes → Option Manifest) (id : Bytes) (m : Manifest) (n : ℕ) (j : Bytes)
      → (s : FeedStore r) → IsStore r s
      → suc n ≤ s.entries
      → IsHeld id m n s
      → IsHeld id m (suc n) (get_safe_snapshot r src j s).0
  unfolding get_safe_snapshot
  get_safe_snapshot-IsHeld src id m n j s st h k = elim (Bool-cases (j ≟ [])) [
    | inl e ↦ rw (e, get_safe_snapshot) (k.0, k.1, ground (arith, k))
    | inr e ↦ elim (Option-cases (lookup_store r j s).1) [
      | inl f ↦
          let miss = lookup_store-none j s st f in
          rw (e, f, miss.1, get_safe_snapshot) (fetched-IsHeld id m n j (src j) s st miss.0 h k)
      | inr (p, f) ↦ rw (e, f, get_safe_snapshot) (lookup_store-IsHeld id m n j s st k)
    ]
  ]

  -- What a successful read returned is held at the front.
  lookup_store-IsHeld_self :
      (id : Bytes) (m : Manifest) (s : FeedStore r)
      → IsStore r s
      → (lookup_store r id s).1 ≡ some m
      → IsHeld id m 1 (lookup_store r id s).0
  unfolding lookup_store move_to_front count ahead
  lookup_store-IsHeld_self id m s st h = elim (Option-cases (lookup id s.by_id)) [
    | inl e ↦ absurd (ground (arith, h, e))
    | inr (o, e) ↦ let same = indexed_id r id o s st e in ground (arith, h, e, same, ≟_iff o id)
  ]

  get_safe_snapshot-IsHeld_self :
      (src : Bytes → Option Manifest) (id : Bytes) (m : Manifest) (s : FeedStore r)
      → IsStore r s
      → (get_safe_snapshot r src id s).1 ≡ ok m
      → IsHeld id m 1 (get_safe_snapshot r src id s).0
  unfolding get_safe_snapshot fetched
  get_safe_snapshot-IsHeld_self src id m s st h = elim (Bool-cases (id ≟ [])) [
    | inl e ↦ absurd (ground (arith, h, e))
    | inr e ↦ elim (Option-cases (lookup_store r id s).1) [
      | inl f ↦
          let miss = lookup_store-none id s st f in
          elim (Option-cases (src id)) [
            | inl g ↦ absurd (ground (arith, h, e, f, g))
            | inr (p, g) ↦ elim (Result-cases (verify r id p)) [
              | inl (u, v) ↦
                  let same : p ≡ m = ground (arith, h, e, f, g, v) in
                  rw (← same, e, f, g, v, miss.1, get_safe_snapshot, fetched)
                    (insert_store-IsHeld_self id p s st v miss.0)
              | inr (x, v) ↦ absurd (ground (arith, h, e, f, g, v))
            ]
          ]
      | inr (p, f) ↦
          let same : p ≡ m = ground (arith, h, e, f) in
          rw (e, f, get_safe_snapshot) (lookup_store-IsHeld_self id m s st (f ∙ ap some same))
    ]
  ]

  nonempty_read :
      (src : Bytes → Option Manifest) (id : Bytes) (m : Manifest) (s : FeedStore r)
      → (get_safe_snapshot r src id s).1 ≡ ok m
      → (id ≟ []) ≡ false
  unfolding get_safe_snapshot
  nonempty_read src id m s h = ground (arith, h)

  -- A held manifest is served without the source.
  held-served :
      (src : Bytes → Option Manifest) (id : Bytes) (m : Manifest) (n : ℕ) (s : FeedStore r)
      → IsStore r s
      → (id ≟ []) ≡ false
      → IsHeld id m n s
      → (get_safe_snapshot r src id s).1 ≡ ok m
  unfolding get_safe_snapshot lookup_store
  held-served src id m n s st e k = ground (arith, e, k, st.is_indexed.indexed id)

  -- The store after reads of several ids, each with what the source answers it.
  unfoldable pub after_reads : List ((Bytes → Option Manifest) × Bytes) → FeedStore r → FeedStore r
  after_reads [] s = s
  after_reads ((src, id) ∷ reads) s = after_reads reads (get_safe_snapshot r src id s).0

  after_reads-IsHeld :
      (reads : List ((Bytes → Option Manifest) × Bytes)) (id : Bytes) (m : Manifest) (n : ℕ)
      → (s : FeedStore r) → IsStore r s
      → n + length reads ≤ s.entries
      → IsHeld id m n s
      → IsStore r (after_reads reads s) × IsHeld id m (n + length reads) (after_reads reads s)
  unfolding after_reads
  after_reads-IsHeld [] id m n s st h k = (st, (k.0, k.1, ground (arith, k)))
  after_reads-IsHeld ((src, j) ∷ reads) id m n s st h k =
      let a = get_safe_snapshot r src j s in
      let rest =
        after_reads-IsHeld reads id m (suc n) a.0 (get_safe_snapshot-IsStore r src j s st).0
          (ground (arith, h, get_safe_snapshot-entries r src j s))
          (get_safe_snapshot-IsHeld src id m n j s st (ground (arith, h)) k) in
      (rest.0, (rest.1.0, rest.1.1, ground (arith, rest.1)))

  -- A manifest that was read is served from the cache, without the source, while fewer other reads
  -- follow than the store has entries, whatever the source answers them: the least recently used
  -- go first.
  pub get_safe_snapshot-cached :
      (src later : Bytes → Option Manifest) (id : Bytes) (m : Manifest)
      → (reads : List ((Bytes → Option Manifest) × Bytes)) (s : FeedStore r) → IsStore r s
      → (get_safe_snapshot r src id s).1 ≡ ok m
      → length reads < s.entries
      → (get_safe_snapshot r later id (after_reads reads (get_safe_snapshot r src id s).0)).1 ≡ ok m
  get_safe_snapshot-cached src later id m reads s st h b =
      let a = get_safe_snapshot r src id s in
      let held =
        after_reads-IsHeld reads id m 1 a.0 (get_safe_snapshot-IsStore r src id s st).0
          (ground (arith, b, get_safe_snapshot-entries r src id s))
          (get_safe_snapshot-IsHeld_self src id m s st h) in
      held-served later id m (1 + length reads) (after_reads reads a.0) held.0
        (nonempty_read src id m s h) held.1
