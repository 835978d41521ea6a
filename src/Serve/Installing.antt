-- ===== src/Serve/Installing.antt =====
-- BeforeInstall of member/serve/lease.go against the calls of hosts that follow it.
use arbiter_core.Serve.{
  Lease, OwnerDatabase, DbState, Server, LeaseError, expires_at, end_lease, sweep_over, sweep,
  record_leases, named_states, grant, granted_of, acquire, renew, release, owner_database_eq,
  end_held, granted, new_lease, put_lease, grant_id,
}
use arbiter_core.Base.{
  ℕ, refl, Bool, true, false, Option, none, some, List, [], ◌∷◌, arith, list_eq, nat_eq, ◌≟◌, ≟_iff,
  Map, Bytes, Bool-cases, WriteOutcome, lookup, lookup-delete, values, ◌≡◌, ltb, sym, ◌≤◌, ap, inl,
  inr, ◌∙◌, err, ◌<◌, length, Option-cases, lookup-insert, insert,
}

-- Every lease stands under its id and is the lease of its database, so a database has at most one.
abbrev pub IsIndexed : Server → Type 0
IsIndexed s =
    (i : Bytes) (l : Lease)
    → lookup i s.by_id ≡ some l
    → (l.id ≡ i) × (lookup l.database s.leases ≡ some i)

-- Every lease of the database is revoked and expires by `hi`.
abbrev pub IsRevoked : Bytes → ℕ → Server → Type 0
IsRevoked database hi s =
    (i : Bytes) (l : Lease)
    → lookup i s.by_id ≡ some l
    → l.database ≡ database
    → (l.revoked ≡ true) × (expires_at l ≤ hi)

-- The state of the database's owner is there and not serving.
abbrev pub IsUnserved : OwnerDatabase → Server → Type 0
IsUnserved k s = (st : DbState) × (lookup k s.dbs ≡ some st) × (st.serving ≡ false)

abbrev pub IsHeld : OwnerDatabase → ℕ → Server → Type 0
IsHeld k hi s = IsRevoked k.database hi s × IsUnserved k s

end_lease-IsHeld :
    (k : OwnerDatabase) (hi : ℕ) (l : Lease) (s : Server)
    → IsHeld k hi s
    → IsHeld k hi (end_lease l s)
unfolding end_lease
end_lease-IsHeld k hi l s (r, (st, e, f)) = (
  λ i m h g. ground (arith, h, g, r i m, lookup-delete l.id i s.by_id),
  (st, ground (arith, e), f),
)

sweep_over-IsHeld :
    (k : OwnerDatabase) (hi now : ℕ) (ls : List Lease) (s : Server)
    → IsHeld k hi s
    → IsHeld k hi (sweep_over now ls s)
unfolding sweep_over
sweep_over-IsHeld k hi now [] s h = h
sweep_over-IsHeld k hi now (l ∷ ls) s h = elim (Bool-cases (ltb now (expires_at l))) [
  | inl e ↦ rw (e, sweep_over) (sweep_over-IsHeld k hi now ls s h)
  | inr e ↦
      rw (e, sweep_over)
        (sweep_over-IsHeld k hi now ls (end_lease l s) (end_lease-IsHeld k hi l s h))
]

sweep-IsHeld :
    (k : OwnerDatabase) (hi now : ℕ) (s : Server) → IsHeld k hi s → IsHeld k hi (sweep now s)
unfolding sweep
sweep-IsHeld k hi now s h = sweep_over-IsHeld k hi now (values s.by_id) s h

-- Recording changes the file only.
pub record_leases-same :
    (w : WriteOutcome) (drop : Option Bytes) (add : Option Lease) (renewing : Option Bytes)
    (now : ℕ)
    → (s : Server)
    → let t = (record_leases w drop add renewing now s).0 in
      (t.by_id ≡ s.by_id) × (t.dbs ≡ s.dbs) × (t.leases ≡ s.leases) × (t.lease_ttl ≡ s.lease_ttl)
unfolding record_leases
record_leases-same WriteOutcome.written drop add renewing now s = (refl, refl, refl, refl)
record_leases-same WriteOutcome.unwritten drop add renewing now s = (refl, refl, refl, refl)
record_leases-same WriteOutcome.unsynced drop add renewing now s = (refl, refl, refl, refl)

IsHeld-same :
    (k : OwnerDatabase) (hi : ℕ) (s t : Server)
    → t.by_id ≡ s.by_id
    → t.dbs ≡ s.dbs
    → IsHeld k hi s
    → IsHeld k hi t
IsHeld-same k hi s t p q (r, (st, e, f)) =
    (λ i m h g. r i m (sym (ap (lookup i) p) ∙ h) g, (st, ap (lookup k) q ∙ e, f))

end_held-IsHeld :
    (k : OwnerDatabase) (hi : ℕ) (old : Option Bytes) (s : Server)
    → IsHeld k hi s
    → IsHeld k hi (end_held old s)
unfolding end_held
end_held-IsHeld k hi none s h = h
end_held-IsHeld k hi (some held) s h = elim (Option-cases (lookup held s.by_id)) [
  | inl e ↦ rw (e, end_held) h
  | inr (l, e) ↦ rw (e, end_held) (end_lease-IsHeld k hi l s h)
]

-- A lease of another database goes in.
put_lease-IsHeld :
    (k : OwnerDatabase) (hi : ℕ) (l : Lease) (s : Server)
    → (l.database ≟ k.database) ≡ false
    → IsHeld k hi s
    → IsHeld k hi (put_lease l s)
unfolding put_lease
put_lease-IsHeld k hi l s p (r, u) = (
  λ i m h g.
      ground (arith, h, g, p, r i m, ≟_iff l.database k.database, lookup-insert l.id i l s.by_id),
  u,
)

granted-IsHeld :
    (k : OwnerDatabase) (hi : ℕ) (old : Option Bytes) (l : Lease) (a : Server × Bool)
    → (l.database ≟ k.database) ≡ false
    → IsHeld k hi a.0
    → IsHeld k hi (granted old l a).0
granted-IsHeld k hi old l (s, true) p h = h
granted-IsHeld k hi old l (s, false) p h =
    put_lease-IsHeld k hi l (end_held old s) p (end_held-IsHeld k hi old s h)

record_leases-IsHeld :
    (k : OwnerDatabase) (hi : ℕ) (w : WriteOutcome) (drop : Option Bytes) (add : Option Lease)
    → (renewing : Option Bytes) (now : ℕ) (s : Server) → IsHeld k hi s
    → IsHeld k hi (record_leases w drop add renewing now s).0
record_leases-IsHeld k hi w drop add renewing now s h =
    let same = record_leases-same w drop add renewing now s in
    IsHeld-same k hi s (record_leases w drop add renewing now s).0 same.0 same.1 h

grant-IsHeld :
    (k : OwnerDatabase) (hi : ℕ) (w : WriteOutcome) (now : ℕ) (id database : Bytes) (owner : ℕ)
    → (s : Server) → (database ≟ k.database) ≡ false
    → IsHeld k hi s
    → IsHeld k hi (grant w now id database owner s).0
unfolding grant
grant-IsHeld k hi w now id database owner s p h =
    let l = new_lease now id database owner s.lease_ttl in
    let old = lookup database s.leases in
    granted-IsHeld k hi old l (record_leases w old (some l) none 0 s) p
      (record_leases-IsHeld k hi w old (some l) none 0 s h)

grant_id-IsHeld :
    (k : OwnerDatabase) (hi : ℕ) (w : WriteOutcome) (now : ℕ) (id : Option Bytes) (database : Bytes)
    (owner : ℕ) (s : Server)
    → (database ≟ k.database) ≡ false
    → IsHeld k hi s
    → IsHeld k hi (grant_id w now id database owner s).0
grant_id-IsHeld k hi w now none database owner s p h = h
grant_id-IsHeld k hi w now (some id) database owner s p h =
    grant-IsHeld k hi w now id database owner s p h

named_states-there :
    (k : OwnerDatabase) (st : DbState) (dbs : Map OwnerDatabase DbState)
    → lookup k dbs ≡ some st
    → 0 < length (named_states k.database dbs)
unfolding lookup named_states
named_states-there k st [] e = absurd cc
named_states-there k st ((i, v) ∷ dbs) e = elim (Bool-cases (i ≟ k)) [
  | inl p ↦
      let same = ap (λ x. x.database) ((≟_iff i k).0 p) in
      ground (arith, (≟_iff i.database k.database).1 same)
  | inr p ↦ ground (arith, named_states-there k st dbs (ground (arith, e, p)))
]

-- The only state of a database name is the one that is there under the key.
named_states-single :
    (k j : OwnerDatabase) (st u : DbState) (dbs : Map OwnerDatabase DbState)
    → lookup k dbs ≡ some st
    → named_states k.database dbs ≡ (j, u) ∷ []
    → u ≡ st
unfolding lookup named_states
named_states-single k j st u [] e h = absurd cc
named_states-single k j st u ((i, v) ∷ dbs) e h = elim (Bool-cases (i ≟ k)) [
  | inl p ↦
      let same = ap (λ x. x.database) ((≟_iff i k).0 p) in
      ground (arith, (≟_iff i.database k.database).1 same, e, h, p)
  | inr p ↦
      let further : lookup k dbs ≡ some st = ground (arith, e, p) in
      let there = named_states-there k st dbs further in
      elim (Bool-cases (i.database ≟ k.database)) [
        | inl q ↦
            let none_left : named_states k.database dbs ≡ [] = ground (arith, h, q) in
            absurd (ground (arith, there, none_left))
        | inr q ↦ named_states-single k j st u dbs further (ground (arith, h, q))
      ]
]

-- What acquire answers for a database of another name, or for the one that is not served.
granted_of-IsHeld :
    (k : OwnerDatabase) (hi : ℕ) (w : WriteOutcome) (now : ℕ) (id : Option Bytes)
    (database snapshot : Bytes)
    → (s : Server) (states : List (OwnerDatabase × DbState)) → named_states database s.dbs ≡ states
    → IsHeld k hi s
    → IsHeld k hi (granted_of w now id database snapshot s states).0
      × (database ≡ k.database
          → (e : LeaseError) × ((granted_of w now id database snapshot s states).1 ≡ err e))
granted_of-IsHeld k hi w now id database snapshot s [] n h = (h, λ p. (_, refl))
granted_of-IsHeld k hi w now id database snapshot s (a ∷ b ∷ more) n h = (h, λ p. (_, refl))
granted_of-IsHeld k hi w now id database snapshot s ((j, u) ∷ []) n h =
    elim (Bool-cases (database ≟ k.database)) [
      | inl p ↦
          let same = (≟_iff database k.database).0 p in
          let (st, e, f) = h.1 in
          let one =
            named_states-single k j st u s.dbs e (sym (ap (λ d. named_states d s.dbs) same) ∙ n) in
          let off : u.serving ≡ false = ap (λ x. x.serving) one ∙ f in rw off (h, λ q. (_, refl))
      | inr p ↦ (
        elim (Bool-cases u.serving) [
          | inr off ↦ rw off h
          | inl on ↦ elim (Bool-cases (snapshot ≟ u.copy.snapshot_id)) [
            | inr e ↦ rw (on, e) h
            | inl e ↦ rw (on, e) (grant_id-IsHeld k hi w now id database j.owner s p h)
          ]
        ],
        λ q. absurd (ground (arith, (≟_iff database k.database).1 q, p)),
      )
    ]

pub acquire-IsHeld :
    (k : OwnerDatabase) (hi : ℕ) (w : WriteOutcome) (now : ℕ) (id : Option Bytes)
    (database snapshot : Bytes) (s : Server)
    → IsHeld k hi s
    → IsHeld k hi (acquire w now id database snapshot s).0
      × (database ≡ k.database
          → (e : LeaseError) × ((acquire w now id database snapshot s).1 ≡ err e))
unfolding acquire
acquire-IsHeld k hi w now id database snapshot s h =
    granted_of-IsHeld k hi w now id database snapshot (sweep now s) _ refl
      (sweep-IsHeld k hi now s h)

insert-IsHeld :
    (k : OwnerDatabase) (hi : ℕ) (id : Bytes) (l : Lease) (s : Server)
    → (l.database ≟ k.database) ≡ false
    → IsHeld k hi s
    → IsHeld k hi (record s { by_id = insert id l s.by_id })
insert-IsHeld k hi id l s p (r, u) = (
  λ i m h g.
      ground (arith, h, g, p, r i m, ≟_iff l.database k.database, lookup-insert id i l s.by_id),
  u,
)

-- A lease that can be renewed is of another database.
not_revoked :
    (k : OwnerDatabase) (hi : ℕ) (id : Bytes) (l : Lease) (s : Server)
    → IsHeld k hi s
    → lookup id s.by_id ≡ some l
    → l.revoked ≡ false
    → (l.database ≟ k.database) ≡ false
not_revoked k hi id l s (r, u) e f = elim (Bool-cases (l.database ≟ k.database)) [
  | inr p ↦ p
  | inl p ↦ absurd (ground (arith, r id l e ((≟_iff l.database k.database).0 p), f))
]

renew-IsHeld :
    (k : OwnerDatabase) (hi : ℕ) (w : WriteOutcome) (now : ℕ) (id : Bytes) (s : Server)
    → IsHeld k hi s
    → IsHeld k hi (renew w now id s).0
unfolding renew
renew-IsHeld k hi w now id s h =
    let swept = sweep now s in
    let i = sweep-IsHeld k hi now s h in
    elim (Option-cases (lookup id swept.by_id)) [
      | inl e ↦ rw (e, renew) i
      | inr (l, e) ↦ elim (Bool-cases l.revoked) [
        | inl f ↦ rw (e, f, renew) i
        | inr f ↦
            let recorded = record_leases w none none (some id) now swept in
            let kept = record_leases-IsHeld k hi w none none (some id) now swept i in
            elim (Bool-cases recorded.1) [
              | inl g ↦ rw (e, f, g, renew) kept
              | inr g ↦
                  rw (e, f, g, renew)
                    (insert-IsHeld k hi id (record l { renewed = now; revoked = false }) recorded.0
                      (not_revoked k hi id l swept i e f) kept)
            ]
      ]
    ]

release-IsHeld :
    (k : OwnerDatabase) (hi : ℕ) (w : WriteOutcome) (now : ℕ) (id : Bytes) (s : Server)
    → IsHeld k hi s
    → IsHeld k hi (release w now id s)
unfolding release
release-IsHeld k hi w now id s h = elim (Option-cases (lookup id s.by_id)) [
  | inl e ↦ rw (e, release) (sweep-IsHeld k hi now s h)
  | inr (l, e) ↦
      rw (e, release)
        (record_leases-IsHeld k hi w none none none 0 _
          (sweep-IsHeld k hi now (end_lease l s) (end_lease-IsHeld k hi l s h)))
]

-- A host's call of the endpoint, with what the file system answers and the clock.
pub data HostCall : Type 0 where
  acquires : WriteOutcome → ℕ → Option Bytes → Bytes → Bytes → HostCall
  renews : WriteOutcome → ℕ → Bytes → HostCall
  releases : WriteOutcome → ℕ → Bytes → HostCall

unfoldable pub after_calls : List HostCall → Server → Server
after_calls [] s = s
after_calls (acquires w now id database snapshot ∷ calls) s =
    after_calls calls (acquire w now id database snapshot s).0
after_calls (renews w now id ∷ calls) s = after_calls calls (renew w now id s).0
after_calls (releases w now id ∷ calls) s = after_calls calls (release w now id s)

pub after_calls-IsHeld :
    (k : OwnerDatabase) (hi : ℕ) (calls : List HostCall) (s : Server)
    → IsHeld k hi s
    → IsHeld k hi (after_calls calls s)
unfolding after_calls
after_calls-IsHeld k hi [] s h = h
after_calls-IsHeld k hi (acquires w now id database snapshot ∷ calls) s h =
    after_calls-IsHeld k hi calls _ (acquire-IsHeld k hi w now id database snapshot s h).0
after_calls-IsHeld k hi (renews w now id ∷ calls) s h =
    after_calls-IsHeld k hi calls _ (renew-IsHeld k hi w now id s h)
after_calls-IsHeld k hi (releases w now id ∷ calls) s h =
    after_calls-IsHeld k hi calls _ (release-IsHeld k hi w now id s h)
