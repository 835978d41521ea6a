-- ===== src/Serve/Requests.antt =====
-- Histories of member/serve/lease.go, and what a restart reads back.
use arbiter_core.Serve.{
  Lease, OwnerDatabase, Server, LeaseRecord, expires_at, put_lease, acquire, renew, release,
  owner_database_eq,
}
use arbiter_core.Serve.Hooks.{before_install, abandon_install, after_install}
use arbiter_core.Serve.Restart.{restore_leases, restored_lease}
use arbiter_core.Serve.Installing.{IsIndexed, HostCall, acquires, renews, releases}
use arbiter_core.Serve.OneLease.{
  acquire-IsIndexed, renew-IsIndexed, release-IsIndexed, before_install-IsIndexed,
  put_lease-IsIndexed,
}
use arbiter_core.Base.{
  refl, ℕ, true, false, none, some, List, [], ◌∷◌, arith, list_eq, nat_eq, ◌≟◌, ≟_iff, Bytes, All,
  Option-cases, lookup, ◌≡◌, ap, inl, ok, ◌<◌, Bool-cases, if◌then◌else◌, inr, ◌∙◌, ltb,
  lookup-insert, lookup-insert_self, ◌+◌, ◌*◌,
}

-- What runs under the server's mutex: a host's call, or a step of an install.
pub data Request : Type 0 where
  host : HostCall → Request
  begins : ℕ → OwnerDatabase → Request
  abandons : OwnerDatabase → Request
  ends : OwnerDatabase → Request

unfoldable pub after_call : HostCall → Server → Server
after_call (acquires w now id database snapshot) s = (acquire w now id database snapshot s).0
after_call (renews w now id) s = (renew w now id s).0
after_call (releases w now id) s = release w now id s

unfoldable pub after_requests : List Request → Server → Server
after_requests [] s = s
after_requests (host c ∷ rs) s = after_requests rs (after_call c s)
after_requests (begins now k ∷ rs) s = after_requests rs (before_install now k s).0
after_requests (abandons k ∷ rs) s = after_requests rs (abandon_install k s)
after_requests (ends k ∷ rs) s = after_requests rs (after_install k s)

after_call-IsIndexed : (c : HostCall) (s : Server) → IsIndexed s → IsIndexed (after_call c s)
unfolding after_call
after_call-IsIndexed (acquires w now id database snapshot) s x =
    acquire-IsIndexed w now id database snapshot s x
after_call-IsIndexed (renews w now id) s x = renew-IsIndexed w now id s x
after_call-IsIndexed (releases w now id) s x = release-IsIndexed w now id s x

after_install-IsIndexed :
    (k : OwnerDatabase) (s : Server) → IsIndexed s → IsIndexed (after_install k s)
unfolding after_install
after_install-IsIndexed k s x = elim (Option-cases (lookup k s.dbs)) [
  | inl e ↦ rw (e, after_install) x
  | inr (st, e) ↦ rw (e, after_install) x
]

abandon_install-IsIndexed :
    (k : OwnerDatabase) (s : Server) → IsIndexed s → IsIndexed (abandon_install k s)
unfolding abandon_install
abandon_install-IsIndexed k s x = x

after_requests-IsIndexed :
    (rs : List Request) (s : Server) → IsIndexed s → IsIndexed (after_requests rs s)
unfolding after_requests
after_requests-IsIndexed [] s x = x
after_requests-IsIndexed (host c ∷ rs) s x =
    after_requests-IsIndexed rs (after_call c s) (after_call-IsIndexed c s x)
after_requests-IsIndexed (begins now k ∷ rs) s x =
    after_requests-IsIndexed rs (before_install now k s).0 (before_install-IsIndexed now k s x)
after_requests-IsIndexed (abandons k ∷ rs) s x =
    after_requests-IsIndexed rs (abandon_install k s) (abandon_install-IsIndexed k s x)
after_requests-IsIndexed (ends k ∷ rs) s x =
    after_requests-IsIndexed rs (after_install k s) (after_install-IsIndexed k s x)

-- A database has at most one lease: over any calls of hosts and steps of installs, whatever the
-- file system and the clock answer, two leases that the server holds for one database are one.
pub after_requests-one_lease :
    (rs : List Request) (s : Server)
    → IsIndexed s
    → (i j : Bytes) (l m : Lease) → lookup i (after_requests rs s).by_id ≡ some l
    → lookup j (after_requests rs s).by_id ≡ some m
    → l.database ≡ m.database
    → l ≡ m
after_requests-one_lease rs s x i j l m e f p =
    let t = after_requests rs s in
    let y = after_requests-IsIndexed rs s x in
    let left = (y i l e).1 in
    let right = (y j m f).1 in
    let same : lookup l.database t.leases ≡ some j = ap (λ b. lookup b t.leases) p ∙ right in
    let one : i ≡ j = ground (arith, left, same) in
    ground (arith, e, f, ap (λ b. lookup b t.by_id) one)

-- What a restart has of the records that it read.
abbrev pub IsRestored : ℕ → Server → List LeaseRecord → Type 0
IsRestored now t = All (λ r.
    now < expires_at (restored_lease now r)
    → lookup r.lease_id t.by_id ≡ some (restored_lease now r))

-- A record of the file was accepted.
restore_leases-cons :
    (now : ℕ) (r : LeaseRecord) (rs : List LeaseRecord) (s t : Server)
    → restore_leases now (r ∷ rs) s ≡ ok t
    → (lookup r.database s.leases ≡ none)
      × (lookup r.lease_id s.by_id ≡ none)
      × (restore_leases now rs (
            if ltb now (expires_at (restored_lease now r))
            then put_lease (restored_lease now r) s
            else s)
          ≡ ok t)
unfolding restore_leases
restore_leases-cons now r rs s t h =
    elim (Bool-cases (ltb now (expires_at (restored_lease now r)))) [
      | inl e ↦ rw e (ground (arith, h, e))
      | inr e ↦ rw e (ground (arith, h, e))
    ]

restore_leases-keeps :
    (now : ℕ) (rs : List LeaseRecord) (s t : Server) (i : Bytes) (l : Lease)
    → restore_leases now rs s ≡ ok t
    → lookup i s.by_id ≡ some l
    → lookup i t.by_id ≡ some l
unfolding restore_leases put_lease restored_lease
restore_leases-keeps now [] s t i l h e = ground (arith, h, e)
restore_leases-keeps now (r ∷ rs) s t i l h e =
    let new = restored_lease now r in
    let (a, b, c) = restore_leases-cons now r rs s t h in
    elim (Bool-cases (ltb now (expires_at new))) [
      | inr f ↦ restore_leases-keeps now rs s t i l (ground (arith, c, f)) e
      | inl f ↦
          let apart : (r.lease_id ≟ i) ≡ false = elim (Bool-cases (r.lease_id ≟ i)) [
            | inr q ↦ q
            | inl q ↦
                absurd (ground (arith, b, e, ap (λ d. lookup d s.by_id) ((≟_iff r.lease_id i).0 q)))
          ] in
          restore_leases-keeps now rs (put_lease new s) t i l (ground (arith, c, f))
            (ground (arith, e, apart, lookup-insert r.lease_id i new s.by_id))
    ]

-- What a restart leaves of the file, over the leases that were restored already.
record IsReopened (now : ℕ) (rs : List LeaseRecord) (s t : Server) : Type 0 where
  is_indexed : IsIndexed s → IsIndexed t
  restored : IsRestored now t rs
  all_revoked :
      ((i : Bytes) (l : Lease) → lookup i s.by_id ≡ some l → l.revoked ≡ true)
      → (i : Bytes) (l : Lease) → lookup i t.by_id ≡ some l
      → l.revoked ≡ true

restore_leases-IsReopened :
    (now : ℕ) (rs : List LeaseRecord) (s t : Server)
    → restore_leases now rs s ≡ ok t
    → IsReopened now rs s t
unfolding restore_leases put_lease restored_lease
restore_leases-IsReopened now [] s t h =
    let same : s ≡ t = ground (arith, h) in
    rw (← same) record { is_indexed = λ x. x; restored = tt; all_revoked = λ a. a }
restore_leases-IsReopened now (r ∷ rs) s t h =
    let new = restored_lease now r in
    let (a, b, c) = restore_leases-cons now r rs s t h in
    elim (Bool-cases (ltb now (expires_at new))) [
      | inr f ↦
          let rest = restore_leases-IsReopened now rs s t (ground (arith, c, f)) in
          record {
            is_indexed = rest.is_indexed;
            restored = (λ e. absurd (ground (arith, e, f)), rest.restored);
            all_revoked = rest.all_revoked;
          }
      | inl f ↦
          let more : restore_leases now rs (put_lease new s) ≡ ok t = ground (arith, c, f) in
          let rest = restore_leases-IsReopened now rs (put_lease new s) t more in
          record {
            is_indexed = λ x. rest.is_indexed (
                put_lease-IsIndexed new s x
                  (λ i m e p. ground (arith, (x i m e).1, ap (λ d. lookup d s.leases) p, a)));
            restored = (
              λ e.
                  restore_leases-keeps now rs (put_lease new s) t r.lease_id new more
                    (lookup-insert_self r.lease_id new s.by_id),
              rest.restored,
            );
            all_revoked = λ v. rest.all_revoked (λ i l e.
                ground
                  (arith, v i l, e, ≟_iff r.lease_id i, lookup-insert r.lease_id i new s.by_id));
          }
    ]

-- A lease is a record's: its id, database, owner and expiry, and it is revoked.
pub record IsLeaseOf (r : LeaseRecord) (l : Lease) : Type 0 where
  pub id : l.id ≡ r.lease_id
  pub database : l.database ≡ r.database
  pub owner : l.owner ≡ r.owner
  pub expiry : l.renewed + l.ttl ≡ r.renewed_unix_nano + r.ttl_ms * 1000000
  pub revoked : l.revoked ≡ true

-- The server has a lease of every record that has not expired, under its id and its database.
abbrev pub IsHeld : ℕ → Server → List LeaseRecord → Type 0
IsHeld now t = All (λ r.
    now < r.renewed_unix_nano + r.ttl_ms * 1000000
    → (l : Lease) × (lookup r.lease_id t.by_id ≡ some l)
      × (lookup r.database t.leases ≡ some r.lease_id)
      × IsLeaseOf r l)

IsRestored-IsHeld :
    (now : ℕ) (t : Server) (rs : List LeaseRecord)
    → IsIndexed t
    → IsRestored now t rs
    → IsHeld now t rs
unfolding restored_lease expires_at
IsRestored-IsHeld now t [] x h = tt
IsRestored-IsHeld now t (r ∷ rs) x h = (
  λ live.
      let at = h.0 live in
      let l = restored_lease now r in
      (
        l,
        at,
        (x r.lease_id l at).1,
        record { id = refl; database = refl; owner = refl; expiry = refl; revoked = refl },
      ),
  IsRestored-IsHeld now t rs x h.1,
)

-- What a restart leaves of the file, into a server without leases.
pub restore_leases-IsRestored :
    (now : ℕ) (file : List LeaseRecord) (s t : Server)
    → s.leases ≡ []
    → s.by_id ≡ []
    → restore_leases now file s ≡ ok t
    → IsRestored now t file × IsIndexed t
unfolding lookup
restore_leases-IsRestored now file s t p q h =
    let r = restore_leases-IsReopened now file s t h in
    (r.restored, r.is_indexed (λ i m e. absurd (ground (arith, ap (lookup i) q, e))))

-- A restart that reads the lease file forgets no lease: a server without leases has then, of every
-- record with `renewed_unix_nano + ttl_ms * 1000000` after now, a lease under the record's id and
-- database, with the record's owner and that expiry. Every lease that it has is revoked, so that it
-- is never renewed, and no two are of one database.
pub restore_leases-restores :
    (now : ℕ) (file : List LeaseRecord) (s t : Server)
    → s.leases ≡ []
    → s.by_id ≡ []
    → restore_leases now file s ≡ ok t
    → IsHeld now t file
      × IsIndexed t
      × ((i : Bytes) (l : Lease) → lookup i t.by_id ≡ some l → l.revoked ≡ true)
unfolding lookup
restore_leases-restores now file s t p q h =
    let (held, x) = restore_leases-IsRestored now file s t p q h in
    let r = restore_leases-IsReopened now file s t h in
    (
      IsRestored-IsHeld now t file x held,
      x,
      r.all_revoked (λ i m e. absurd (ground (arith, ap (lookup i) q, e))),
    )
