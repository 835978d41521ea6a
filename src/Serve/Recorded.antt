-- ===== src/Serve/Recorded.antt =====
-- What acquire of member/serve/lease.go leaves in the lease file, and a restart after it.
use arbiter_core.Serve.{
  Lease, OwnerDatabase, DbState, Server, LeaseRecord, expires_at, lease_record, end_lease, end_held,
  put_lease, granted, grant, granted_of, sweep, acquire, record_leases, named_states, new_lease,
  nanos_of_ms, owner_database_eq,
}
use arbiter_core.Serve.Restart.{restore_leases, restored_lease}
use arbiter_core.Serve.Requests.{restore_leases-IsRestored}
use arbiter_core.Base.{
  list_eq, nat_eq, ℕ, refl, Bool, true, false, Option, none, some, List, [], ◌∷◌, arith, Bytes,
  Option-cases, WriteOutcome, lookup, ◌≡◌, ap, inl, sym, Bool-cases, inr, ◌∙◌, ok, ◌<◌, ◌≟◌, ◌+◌,
  ◌/◌, ◌*◌,
}

-- The record of the lease stands first in the file.
abbrev IsFirst : Lease → Server → Type 0
IsFirst l s = (rest : List LeaseRecord) × (s.file ≡ lease_record l l.renewed ∷ rest)

end_held-file : (old : Option Bytes) (s : Server) → (end_held old s).file ≡ s.file
unfolding end_held end_lease
end_held-file none s = refl
end_held-file (some held) s = elim (Option-cases (lookup held s.by_id)) [
  | inl e ↦ ground (arith, e)
  | inr (l, e) ↦ ground (arith, e)
]

record_leases-IsFirst :
    (w : WriteOutcome) (drop : Option Bytes) (l : Lease) (renewing : Option Bytes) (now : ℕ)
    → (s : Server) → (record_leases w drop (some l) renewing now s).1 ≡ false
    → IsFirst l (record_leases w drop (some l) renewing now s).0
unfolding record_leases
record_leases-IsFirst WriteOutcome.written drop l renewing now s h = (_, refl)
record_leases-IsFirst WriteOutcome.unwritten drop l renewing now s h = absurd (ground (arith, h))
record_leases-IsFirst WriteOutcome.unsynced drop l renewing now s h = absurd (ground (arith, h))

-- A grant: the lease of the call, first in the file.
record IsGranted (now : ℕ) (id database : Bytes) (m : Lease) (t : Server) : Type 0 where
  has_id : m.id ≡ id
  has_database : m.database ≡ database
  is_renewed : m.renewed ≡ now
  is_first : IsFirst m t

granted-IsGranted :
    (now : ℕ) (old : Option Bytes) (l m : Lease) (a : Server × Bool)
    → l.renewed ≡ now
    → (a.1 ≡ false → IsFirst l a.0)
    → (granted old l a).1 ≡ ok m
    → IsGranted now l.id l.database m (granted old l a).0
unfolding put_lease
granted-IsGranted now old l m (s, true) p f h = absurd (ground (arith, h))
granted-IsGranted now old l m (s, false) p f h =
    let same : l ≡ m = ground (arith, h) in
    rw (← same) record {
      has_id = refl;
      has_database = refl;
      is_renewed = p;
      is_first = ((f refl).0, end_held-file old s ∙ (f refl).1);
    }

grant-IsGranted :
    (w : WriteOutcome) (now : ℕ) (id database : Bytes) (owner : ℕ) (s : Server) (m : Lease)
    → (grant w now id database owner s).1 ≡ ok m
    → IsGranted now id database m (grant w now id database owner s).0
unfolding grant
grant-IsGranted w now id database owner s m h =
    let l = new_lease now id database owner s.lease_ttl in
    let old = lookup database s.leases in
    granted-IsGranted now old l m (record_leases w old (some l) none 0 s) refl
      (record_leases-IsFirst w old l none 0 s) h

granted_of-IsGranted :
    (w : WriteOutcome) (now : ℕ) (id database snapshot : Bytes) (s : Server) (m : Lease)
    → (states : List (OwnerDatabase × DbState))
    → (granted_of w now (some id) database snapshot s states).1 ≡ ok m
    → IsGranted now id database m (granted_of w now (some id) database snapshot s states).0
granted_of-IsGranted w now id database snapshot s m [] h = absurd (ground (arith, h))
granted_of-IsGranted w now id database snapshot s m (a ∷ b ∷ more) h = absurd (ground (arith, h))
granted_of-IsGranted w now id database snapshot s m ((k, st) ∷ []) h =
    elim (Bool-cases st.serving) [
      | inr e ↦ absurd (ground (arith, h, e))
      | inl e ↦ elim (Bool-cases (snapshot ≟ st.copy.snapshot_id)) [
        | inr f ↦ absurd (ground (arith, h, e, f))
        | inl f ↦
            let granted_lem : (grant w now id database k.owner s).1 ≡ ok m =
              ground (arith, h, e, f) in
            rw (e, f) (grant-IsGranted w now id database k.owner s m granted_lem)
      ]
    ]

-- A granted lease survives a restart: when acquire granted a lease, a server without leases that
-- reads the file acquire left, before the lease's whole milliseconds since the grant have passed,
-- holds under its id a revoked lease of its database, which ends when those milliseconds have.
pub acquire-restored :
    (w : WriteOutcome) (now later : ℕ) (id database snapshot : Bytes) (s fresh after : Server)
    → (m : Lease) → (acquire w now (some id) database snapshot s).1 ≡ ok m
    → fresh.leases ≡ []
    → fresh.by_id ≡ []
    → restore_leases later (acquire w now (some id) database snapshot s).0.file fresh ≡ ok after
    → later < now + m.ttl / nanos_of_ms * nanos_of_ms
    → (l : Lease) × (lookup id after.by_id ≡ some l)
      × (l.database ≡ database)
      × (l.revoked ≡ true)
      × (expires_at l ≡ now + m.ttl / nanos_of_ms * nanos_of_ms)
unfolding acquire restored_lease lease_record expires_at
acquire-restored w now later id database snapshot s fresh after m h p q r v =
    let swept = sweep now s in
    let states = named_states database swept.dbs in
    let g = granted_of-IsGranted w now id database snapshot swept m states h in
    let record_of = lease_record m m.renewed in
    let read : restore_leases later (record_of ∷ g.is_first.0) fresh ≡ ok after =
      sym (ap (λ f. restore_leases later f fresh) g.is_first.1) ∙ r in
    let all = (restore_leases-IsRestored later (record_of ∷ g.is_first.0) fresh after p q read).0 in
    let back = restored_lease later record_of in
    let ends : expires_at back ≡ now + m.ttl / nanos_of_ms * nanos_of_ms =
      ap (λ x. x + m.ttl / nanos_of_ms * nanos_of_ms) g.is_renewed in
    let kept : lookup m.id after.by_id ≡ some back = all.0 (rw ends v) in
    (back, ap (λ i. lookup i after.by_id) (sym g.has_id) ∙ kept, g.has_database, refl, ends)
