-- ===== src/Serve/Waits.antt =====
-- What BeforeInstall of member/serve/lease.go may rely on while it waits for a lease to end.
use arbiter_core.Serve.{
  Lease, OwnerDatabase, DbState, Server, LeaseError, expires_at, end_lease, sweep_over, sweep,
  acquire, owner_database_eq, install_running,
}
use arbiter_core.Serve.Hooks.{
  state_of, revoke_lease, before_install, lease_of, mark_installing, next_epoch,
}
use arbiter_core.Serve.Installing.{
  IsIndexed, IsRevoked, IsUnserved, IsHeld, HostCall, after_calls, after_calls-IsHeld,
  acquire-IsHeld,
}
use arbiter_core.Base.{
  ℕ, refl, true, false, Option, none, some, List, [], ◌∷◌, arith, list_eq, nat_eq, ◌≟◌, ≟_iff,
  Bytes, Bool-cases, lookup, ◌≡◌, ltb, inl, inr, lookup-delete, sym, ap, ◌∙◌, lookup-insert,
  WriteOutcome, Option-cases, err, values, ◌+◌, ◌≢◌, lookup-insert_self,
}

pub end_lease-IsIndexed : (l : Lease) (s : Server) → IsIndexed s → IsIndexed (end_lease l s)
unfolding end_lease
end_lease-IsIndexed l s x i m h = ground (
  arith,
  h,
  x i m,
  ≟_iff l.id i,
  ≟_iff i l.id,
  ≟_iff l.database m.database,
  lookup-delete l.id i s.by_id,
  lookup-delete l.database m.database s.leases,
)

pub sweep_over-IsIndexed :
    (now : ℕ) (ls : List Lease) (s : Server) → IsIndexed s → IsIndexed (sweep_over now ls s)
unfolding sweep_over
sweep_over-IsIndexed now [] s x = x
sweep_over-IsIndexed now (l ∷ ls) s x = elim (Bool-cases (ltb now (expires_at l))) [
  | inl e ↦ rw (e, sweep_over) (sweep_over-IsIndexed now ls s x)
  | inr e ↦
      rw (e, sweep_over) (sweep_over-IsIndexed now ls (end_lease l s) (end_lease-IsIndexed l s x))
]

sweep_over-dbs : (now : ℕ) (ls : List Lease) (s : Server) → (sweep_over now ls s).dbs ≡ s.dbs
unfolding sweep_over end_lease
sweep_over-dbs now [] s = refl
sweep_over-dbs now (l ∷ ls) s =
    ground (arith, sweep_over-dbs now ls s, sweep_over-dbs now ls (end_lease l s))

-- The expiry that BeforeInstall waits for, 0 when there is no lease.
abbrev pub waits_until : Option Lease → ℕ
waits_until none = 0
waits_until (some l) = expires_at l

revoke_lease-IsRevoked :
    (database : Bytes) (now : ℕ) (id : Bytes) (l : Lease) (s : Server)
    → IsIndexed s
    → lookup database s.leases ≡ some id
    → lookup id s.by_id ≡ some l
    → IsRevoked database (expires_at l) (revoke_lease now l s)
unfolding revoke_lease expires_at
revoke_lease-IsRevoked database now id l s x d e i m h g =
    let own : l.id ≡ id = (x id l e).0 in
    elim (Bool-cases l.revoked) [
      | inl f ↦
          let there : lookup i s.by_id ≡ some m = ground (arith, h, f) in
          let held : lookup database s.leases ≡ some i =
            sym (ap (λ b. lookup b s.leases) g) ∙ (x i m there).1 in
          let same : i ≡ id = ground (arith, held, d) in
          ground (arith, ap (λ b. lookup b s.by_id) same, there, e, f)
      | inr f ↦ elim (Bool-cases (l.id ≟ i)) [
        | inl p ↦ ground (
          arith,
          h,
          f,
          p,
          lookup-insert l.id i (record l { revoked = true; revoked_at = now }) s.by_id,
        )
        | inr p ↦
            let there : lookup i s.by_id ≡ some m = ground (
              arith,
              h,
              f,
              p,
              lookup-insert l.id i (record l { revoked = true; revoked_at = now }) s.by_id,
            ) in
            let held : lookup database s.leases ≡ some i =
              sym (ap (λ b. lookup b s.leases) g) ∙ (x i m there).1 in
            absurd (ground (arith, held, d, own, p, ≟_iff l.id i))
      ]
    ]

pub lease_of-some :
    (database : Bytes) (l : Lease) (s : Server)
    → lease_of database s ≡ some l
    → (id : Bytes) × (lookup database s.leases ≡ some id) × (lookup id s.by_id ≡ some l)
unfolding lease_of
lease_of-some database l s h = elim (Option-cases (lookup database s.leases)) [
  | inl e ↦ absurd (ground (arith, h, e))
  | inr (id, e) ↦ (id, e, ground (arith, h, e))
]

lease_of-none :
    (database : Bytes) (s : Server)
    → IsIndexed s
    → lease_of database s ≡ none
    → (i : Bytes) (l : Lease) → lookup i s.by_id ≡ some l
    → l.database ≢ database
unfolding lease_of
lease_of-none database s x h i l e p =
    let held : lookup database s.leases ≡ some i =
      sym (ap (λ b. lookup b s.leases) p) ∙ (x i l e).1 in
    ground (arith, h, held, e)

revoke_lease-dbs : (now : ℕ) (l : Lease) (s : Server) → (revoke_lease now l s).dbs ≡ s.dbs
unfolding revoke_lease
revoke_lease-dbs now l s = ground arith

-- After the mark, whatever the sweep ended, the state of the owner's database is not serving.
swept-IsUnserved :
    (now : ℕ) (k : OwnerDatabase) (s : Server) → IsUnserved k (sweep now (mark_installing k s))
unfolding mark_installing sweep
swept-IsUnserved now k s =
    let marked = mark_installing k s in
    let st = state_of k s in
    let st' : DbState = record st {
      installing = st.installing + 1;
      installed = next_epoch s.epoch;
      serving = false;
      reason = some install_running;
      served = [];
      polls = 0;
    } in
    (
      st',
      ap (lookup k) (sweep_over-dbs now (values marked.by_id) marked)
          ∙ lookup-insert_self k st' s.dbs,
      refl,
    )

pub mark_installing-IsIndexed :
    (k : OwnerDatabase) (s : Server) → IsIndexed s → IsIndexed (mark_installing k s)
unfolding mark_installing
mark_installing-IsIndexed k s x = x

before_install-IsHeld :
    (now : ℕ) (k : OwnerDatabase) (s : Server)
    → IsIndexed s
    → IsHeld k (waits_until (before_install now k s).1) (before_install now k s).0
unfolding before_install sweep
before_install-IsHeld now k s x =
    let marked = mark_installing k s in
    let swept = sweep now marked in
    let y : IsIndexed swept =
      sweep_over-IsIndexed now (values marked.by_id) marked (mark_installing-IsIndexed k s x) in
    let (st, e, f) = swept-IsUnserved now k s in
    elim (Option-cases (lease_of k.database swept)) [
      | inl h ↦
          rw (h, before_install)
            (λ i l g p. absurd (lease_of-none k.database swept y h i l g p), (st, e, f))
      | inr (l, h) ↦
          let (id, d, g) = lease_of-some k.database l swept h in
          rw (h, before_install)
            (
              revoke_lease-IsRevoked k.database now id l swept y d g,
              (st, ap (lookup k) (revoke_lease-dbs now l swept) ∙ e, f),
            )
    ]

-- While an install runs its database is not leased. After BeforeInstall, over any calls of hosts
-- and whatever the file system and the clock answer, until a poll of the conditions: every lease of
-- the database is revoked and expires no later than the one that BeforeInstall waits for, and no
-- acquire of the database is granted.
pub before_install-holds :
    (now : ℕ) (k : OwnerDatabase) (calls : List HostCall) (s : Server)
    → IsIndexed s
    → let b = before_install now k s in
      let t = after_calls calls b.0 in
      IsRevoked k.database (waits_until b.1) t
      × ((w : WriteOutcome) (later : ℕ) (id : Option Bytes) (snapshot : Bytes)
          → (e : LeaseError) × ((acquire w later id k.database snapshot t).1 ≡ err e))
before_install-holds now k calls s x =
    let b = before_install now k s in
    let h = after_calls-IsHeld k (waits_until b.1) calls b.0 (before_install-IsHeld now k s x) in
    (
      h.0,
      λ w later id snapshot.
          (acquire-IsHeld k (waits_until b.1) w later id k.database snapshot (after_calls calls b.0)
              h).1
            refl,
    )
