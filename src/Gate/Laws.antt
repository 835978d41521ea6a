-- ===== src/Gate/Laws.antt =====
-- What the gate relies on of the executor's sum (housegate payloadexec.SumPartRowLtHashes): the
-- doc of gate.go says that a row hash is accepted in other spellings and returned in one form, and
-- that the order of a multiset never matters.
use arbiter_core.Base.{
  ◌≡◌, refl, Option, some, List, [], ◌∷◌, map, Bytes, list_eq, nat_eq, ok, SameItems, arith,
}
use arbiter_core.Gate.{sum_of, canonical_list, canonical_one, ListName}

pub record IsRowSum (sum : List Bytes → Option Bytes) : Type 0 where
  -- The executor's form of a hash is its own spelling.
  pub canonical : (h c : Bytes) → sum (h ∷ []) ≡ some c → sum (c ∷ []) ≡ some c
  -- A list is refused exactly when one of its hashes is.
  pub accept_cons :
      (h : Bytes) (hs : List Bytes) (s : Bytes)
      → sum (h ∷ hs) ≡ some s
      → ((c : Bytes) × (sum (h ∷ []) ≡ some c)) × ((t : Bytes) × (sum hs ≡ some t))
  pub accept_all :
      (h : Bytes) (hs : List Bytes) (c t : Bytes)
      → sum (h ∷ []) ≡ some c
      → sum hs ≡ some t
      → (s : Bytes) × (sum (h ∷ hs) ≡ some s)
  pub accept_none : (s : Bytes) × (sum [] ≡ some s)
  -- The order of a multiset never matters.
  pub same_items : (xs ys : List Bytes) → SameItems xs ys → sum xs ≡ sum ys

module _ (sum : List Bytes → Option Bytes) where
  abbrev pub canonical_form : Bytes → Bytes
  canonical_form h = sum_of sum (h ∷ [])

  -- What a successful call of canonicalList returns.
  pub canonical_list-eq-ok :
      (what : ListName) (hs out : List Bytes)
      → canonical_list sum what hs ≡ ok out
      → out ≡ map canonical_form hs
  unfolding canonical_list
  canonical_list-eq-ok what hs out h = ground arith

  pub canonical_one-eq-ok :
      (what : ListName) (h out : Bytes) → canonical_one sum what h ≡ ok out → out ≡ canonical_form h
  unfolding canonical_one canonical_list
  canonical_one-eq-ok what h out e = ground arith

  -- A call succeeds exactly when the executor accepts the list.
  pub canonical_list-accepted :
      (what : ListName) (hs : List Bytes) (s : Bytes)
      → sum hs ≡ some s
      → canonical_list sum what hs ≡ ok (map canonical_form hs)
  unfolding canonical_list
  canonical_list-accepted what hs s e = rw (e, canonical_list)

  pub accepted_of_ok :
      (what : ListName) (hs out : List Bytes)
      → canonical_list sum what hs ≡ ok out
      → (s : Bytes) × (sum hs ≡ some s)
  unfolding canonical_list
  accepted_of_ok what hs out e = ground arith

  module _ (laws : IsRowSum sum) where
    canonical_form-fixed :
        (h c : Bytes) → sum (h ∷ []) ≡ some c → canonical_form (canonical_form h) ≡ canonical_form h
    unfolding sum_of
    canonical_form-fixed h c e = ground (arith, laws.canonical h c)

    -- A canonical list is accepted and is its own canonical list.
    pub map-canonical_fixed :
        (hs : List Bytes) (s : Bytes)
        → sum hs ≡ some s
        → map canonical_form (map canonical_form hs) ≡ map canonical_form hs
    map-canonical_fixed [] s e = refl
    map-canonical_fixed (h ∷ hs) s e =
        let ((c, p), (t, q)) = laws.accept_cons h hs s e in
        let here = canonical_form-fixed h c p in let there = map-canonical_fixed hs t q in cc

    pub accepted-canonical :
        (hs : List Bytes) (s : Bytes)
        → sum hs ≡ some s
        → (t : Bytes) × (sum (map canonical_form hs) ≡ some t)
    unfolding sum_of
    accepted-canonical [] s e = laws.accept_none
    accepted-canonical (h ∷ hs) s e =
        let ((c, p), (t, q)) = laws.accept_cons h hs s e in
        let (u, r) = accepted-canonical hs t q in
        laws.accept_all (canonical_form h) (map canonical_form hs) c u
          (rw (p, sum_of) (laws.canonical h c p)) r
