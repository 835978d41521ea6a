-- ===== src/ManifestFeed/Cache.antt =====
-- The cache of member/manifestfeed/store.go: what it holds, how much, and what it keeps longest.
use arbiter_core.ManifestFeed.{
  FeedError, Replay, verify, FeedStore, remove_element, move_to_front, back, new_store,
  lookup_store, drop_oldest, evict, insert_store, fetched, get_safe_snapshot,
}
use arbiter_core.Base.{
  zero, ℕ, suc, Option, none, some, List, [], ◌∷◌, Bytes, arith, refl, list_eq, nat_eq, ◌≟◌, ≟_iff,
  Option-cases, count, ◌<◌, ◌≡◌, if◌then◌else◌, inl, length, lookup, ok, ◌≤◌, inr, insert, ltb, ◌-◌,
  is_some, lookup-delete, lookup-insert, Bool-cases, Result, Result-cases,
}

-- Removing an element takes one of it and leaves the others.
pub count-remove_element :
    (a e : Bytes) (xs : List Bytes)
    → count a (remove_element e xs) ≡ (if e ≟ a then count a xs - 1 else count a xs)
unfolding remove_element count
count-remove_element a e [] = ground arith
count-remove_element a e (x ∷ xs) =
    ground (arith, ≟_iff x e, ≟_iff e a, ≟_iff x a, count-remove_element a e xs)

pub length-remove_element :
    (e : Bytes) (xs : List Bytes) → 0 < count e xs → suc (length (remove_element e xs)) ≡ length xs
unfolding remove_element count
length-remove_element e [] h = absurd (omega arith)
length-remove_element e (x ∷ xs) h = ground (arith, length-remove_element e xs)

pub back-count : (xs : List Bytes) (e : Bytes) → back xs ≡ some e → 0 < count e xs
unfolding back count
back-count [] e h = absurd cc
back-count (x ∷ []) e h = ground (arith, ≟_iff x e)
back-count (x ∷ y ∷ ys) e h = ground (arith, back-count (y ∷ ys) e)

pub back-none : (xs : List Bytes) → back xs ≡ none → xs ≡ []
unfolding back
back-none [] h = refl
back-none (x ∷ []) h = absurd cc
back-none (x ∷ y ∷ ys) h = absurd (ground (arith, back-none (y ∷ ys)))

module _ (r : Replay) where
  open r use {Manifest}

  -- The list, the index and the cache hold the same ids, each once, and every manifest in the cache
  -- is verified for the id that it is read by.
  pub record IsIndexed (s : FeedStore r) : Type 0 where
    pub unique : (id : Bytes) → count id s.order ≤ 1
    pub indexed :
        (id : Bytes) → lookup id s.by_id ≡ (if ltb 0 (count id s.order) then some id else none)
    pub cached : (id : Bytes) → is_some (lookup id s.cache) ≡ ltb 0 (count id s.order)
    pub verified : (id : Bytes) (m : Manifest) → lookup id s.cache ≡ some m → verify r id m ≡ ok tt

  -- A store in use: indexed, and within its size.
  pub record IsStore (s : FeedStore r) : Type 0 where
    pub is_indexed : IsIndexed s
    pub sized : 0 < s.entries
    pub bounded : length s.order ≤ s.entries

  pub new_store-IsStore : (n : ℕ) → IsStore (new_store r n)
  unfolding new_store count lookup
  new_store-IsStore n = record {
    is_indexed = record {
      unique = λ id. omega arith;
      indexed = λ id. refl;
      cached = λ id. refl;
      verified = λ id m h. absurd cc;
    };
    sized = ground (arith, ≟_iff n 0);
    bounded = ground arith;
  }

  touched-IsIndexed :
      (e : Bytes) (s : FeedStore r)
      → 0 < count e s.order
      → IsIndexed s
      → IsIndexed (record s { order = move_to_front e s.order })
  unfolding move_to_front count
  touched-IsIndexed e s h i = record {
    unique = λ id. ground (arith, i.unique id, ≟_iff e id, count-remove_element id e s.order);
    indexed = λ id. ground (arith, i.indexed id, ≟_iff e id, count-remove_element id e s.order);
    cached = λ id. ground (arith, i.cached id, ≟_iff e id, count-remove_element id e s.order);
    verified = i.verified;
  }

  pub drop_oldest-IsIndexed : (s : FeedStore r) → IsIndexed s → IsIndexed (drop_oldest r s)
  unfolding drop_oldest
  drop_oldest-IsIndexed s i = elim (Option-cases (back s.order)) [
    | inl e ↦ rw (e, drop_oldest) i
    | inr (o, e) ↦
        rw (e, drop_oldest)
          record {
            unique = λ id. ground (arith, i.unique id, count-remove_element id o s.order);
            indexed = λ id. ground (
              arith,
              i.indexed id,
              i.unique id,
              ≟_iff o id,
              count-remove_element id o s.order,
              lookup-delete o id s.by_id,
            );
            cached = λ id. ground (
              arith,
              i.cached id,
              i.unique id,
              ≟_iff o id,
              count-remove_element id o s.order,
              lookup-delete o id s.cache,
            );
            verified = λ id m h.
                i.verified id m (ground (arith, ≟_iff o id, lookup-delete o id s.cache, h));
          }
  ]

  pub pushed-IsIndexed :
      (id : Bytes) (m : Manifest) (s : FeedStore r)
      → count id s.order ≡ 0
      → verify r id m ≡ ok tt
      → IsIndexed s
      → IsIndexed (record s {
        order = id ∷ s.order;
        by_id = insert id id s.by_id;
        cache = insert id m s.cache;
      })
  unfolding count
  pushed-IsIndexed id m s h v i = record {
    unique = λ a. ground (arith, i.unique a, ≟_iff id a);
    indexed = λ a. ground (arith, i.indexed a, ≟_iff id a, lookup-insert id a id s.by_id);
    cached = λ a. ground (arith, i.cached a, ≟_iff id a, lookup-insert id a m s.cache);
    verified =
        λ a n g. ground (arith, i.verified a n, ≟_iff id a, lookup-insert id a m s.cache, g, v);
  }

  evict-IsIndexed : (fuel : ℕ) (s : FeedStore r) → IsIndexed s → IsIndexed (evict r fuel s)
  unfolding evict
  evict-IsIndexed zero s i = i
  evict-IsIndexed (suc n) s i = elim (Bool-cases (ltb s.entries (length s.order))) [
    | inl e ↦ rw e (evict-IsIndexed n (drop_oldest r s) (drop_oldest-IsIndexed s i))
    | inr e ↦ rw e i
  ]

  pub drop_oldest-fields :
      (s : FeedStore r)
      → ((drop_oldest r s).entries ≡ s.entries)
        × (0 < length s.order → suc (length (drop_oldest r s).order) ≡ length s.order)
  unfolding drop_oldest
  drop_oldest-fields s = elim (Option-cases (back s.order)) [
    | inl e ↦ ground (arith, e, back-none s.order e)
    | inr (o, e) ↦ ground (arith, e, back-count s.order o e, length-remove_element o s.order)
  ]

  -- Fuel for each element is enough: the list ends within the store's size.
  evict-bounded :
      (fuel : ℕ) (s : FeedStore r)
      → length s.order ≤ fuel
      → ((evict r fuel s).entries ≡ s.entries) × (length (evict r fuel s).order ≤ s.entries)
  unfolding evict
  evict-bounded zero s h = (refl, omega arith)
  evict-bounded (suc n) s h =
      ground (arith, drop_oldest-fields s, evict-bounded n (drop_oldest r s))

  touched-IsStore :
      (e : Bytes) (s : FeedStore r)
      → 0 < count e s.order
      → IsStore s
      → IsStore (record s { order = move_to_front e s.order })
  unfolding move_to_front
  touched-IsStore e s h st = record {
    is_indexed = touched-IsIndexed e s h st.is_indexed;
    sized = st.sized;
    bounded = ground (arith, h, st.bounded, length-remove_element e s.order);
  }

  -- An id in the index stands for itself, and is in the list.
  pub indexed_id :
      (id e : Bytes) (s : FeedStore r)
      → IsStore s
      → lookup id s.by_id ≡ some e
      → (e ≡ id) × (0 < count e s.order)
  indexed_id id e s st h = ground (arith, st.is_indexed.indexed id)

  insert_store-IsStore :
      (id : Bytes) (m : Manifest) (s : FeedStore r)
      → verify r id m ≡ ok tt
      → IsStore s
      → IsStore (insert_store r id m s)
  unfolding insert_store
  insert_store-IsStore id m s v st = elim (Option-cases (lookup id s.by_id)) [
    | inl e ↦
        rw (e, insert_store)
          (let absent : count id s.order ≡ 0 = ground (arith, st.is_indexed.indexed id) in
            let pushed = record s {
              order = id ∷ s.order;
              by_id = insert id id s.by_id;
              cache = insert id m s.cache;
            } in
            let kept = evict-bounded (length pushed.order) pushed (omega arith) in
            record {
              is_indexed =
                  evict-IsIndexed (length pushed.order) pushed
                    (pushed-IsIndexed id m s absent v st.is_indexed);
              sized = rw (kept.0) st.sized;
              bounded = rw (kept.0) kept.1;
            })
    | inr (o, e) ↦ rw (e, insert_store) (touched-IsStore o s (indexed_id id o s st e).1 st)
  ]

  pub lookup_store-IsStore :
      (id : Bytes) (s : FeedStore r) → IsStore s → IsStore (lookup_store r id s).0
  unfolding lookup_store
  lookup_store-IsStore id s st = elim (Option-cases (lookup id s.by_id)) [
    | inl e ↦ rw (e, lookup_store) st
    | inr (o, e) ↦ rw (e, lookup_store) (touched-IsStore o s (indexed_id id o s st e).1 st)
  ]

  pub lookup_store-verified :
      (id : Bytes) (m : Manifest) (s : FeedStore r)
      → IsStore s
      → (lookup_store r id s).1 ≡ some m
      → verify r id m ≡ ok tt
  unfolding lookup_store
  lookup_store-verified id m s st h = ground (arith, st.is_indexed.verified id m)

  abbrev IsAnswer : Bytes → FeedStore r × Result FeedError Manifest → Type 0
  IsAnswer id a = IsStore a.0 × ((m : Manifest) → a.1 ≡ ok m → verify r id m ≡ ok tt)

  fetched-IsAnswer :
      (id : Bytes) (answer : Option Manifest) (s : FeedStore r)
      → IsStore s
      → IsAnswer id (fetched r id answer s)
  unfolding fetched
  fetched-IsAnswer id none s st = (st, λ m h. absurd cc)
  fetched-IsAnswer id (some m) s st = elim (Result-cases (verify r id m)) [
    | inl (u, e) ↦ rw (e, fetched) (insert_store-IsStore id m s e st, λ n h. ground (arith, h, e))
    | inr (x, e) ↦ rw (e, fetched) (st, λ n h. absurd cc)
  ]

  -- Whatever the source answers, GetSafeSnapshot keeps the store in order: at most its size of
  -- manifests, each id once in the list, the index and the cache, and every manifest in the cache
  -- verified for its id. A manifest that it returns is verified for the id that was asked for.
  pub get_safe_snapshot-IsStore :
      (src : Bytes → Option Manifest) (id : Bytes) (s : FeedStore r)
      → IsStore s
      → let a = get_safe_snapshot r src id s in
        IsStore a.0 × ((m : Manifest) → a.1 ≡ ok m → verify r id m ≡ ok tt)
  unfolding get_safe_snapshot
  get_safe_snapshot-IsStore src id s st = elim (Bool-cases (id ≟ [])) [
    | inl e ↦ rw e (st, λ m h. absurd cc)
    | inr e ↦ rw e (elim (Option-cases (lookup_store r id s).1) [
      | inl f ↦
          rw f (fetched-IsAnswer id (src id) (lookup_store r id s).0 (lookup_store-IsStore id s st))
      | inr (m, f) ↦ rw f (
        lookup_store-IsStore id s st,
        λ n h. ground (arith, h, lookup_store-verified id m s st f),
      )
    ])
  ]

  drop_oldest-entries : (s : FeedStore r) → (drop_oldest r s).entries ≡ s.entries
  drop_oldest-entries s = (drop_oldest-fields s).0

  evict-entries : (fuel : ℕ) (s : FeedStore r) → (evict r fuel s).entries ≡ s.entries
  unfolding evict
  evict-entries zero s = refl
  evict-entries (suc n) s = ground (arith, evict-entries n (drop_oldest r s), drop_oldest-entries s)

  insert_store-entries :
      (id : Bytes) (m : Manifest) (s : FeedStore r) → (insert_store r id m s).entries ≡ s.entries
  unfolding insert_store
  insert_store-entries id m s =
      let pushed = record s {
        order = id ∷ s.order;
        by_id = insert id id s.by_id;
        cache = insert id m s.cache;
      } in
      ground (arith, evict-entries (length pushed.order) pushed)

  fetched-entries :
      (id : Bytes) (answer : Option Manifest) (s : FeedStore r)
      → (fetched r id answer s).0.entries ≡ s.entries
  unfolding fetched
  fetched-entries id none s = refl
  fetched-entries id (some m) s = ground (arith, insert_store-entries id m s)

  lookup_store-entries :
      (id : Bytes) (s : FeedStore r) → (lookup_store r id s).0.entries ≡ s.entries
  unfolding lookup_store
  lookup_store-entries id s = ground arith

  -- No read changes the size.
  pub get_safe_snapshot-entries :
      (src : Bytes → Option Manifest) (id : Bytes) (s : FeedStore r)
      → (get_safe_snapshot r src id s).0.entries ≡ s.entries
  unfolding get_safe_snapshot
  get_safe_snapshot-entries src id s =
      ground (arith, lookup_store-entries id s, fetched-entries id (src id) (lookup_store r id s).0)
