-- ===== src/Serve/OneLease.antt =====
-- At most one lease of a database in member/serve/lease.go, over every operation.
use arbiter_core.Serve.{
  Lease, OwnerDatabase, DbState, Server, end_lease, end_held, put_lease, granted, grant, granted_of,
  sweep, acquire, renew, release, record_leases, named_states, new_lease, owner_database_eq,
  grant_id,
}
use arbiter_core.Serve.Hooks.{revoke_lease, before_install, lease_of, mark_installing}
use arbiter_core.Serve.Installing.{IsIndexed, record_leases-same}
use arbiter_core.Serve.Waits.{
  end_lease-IsIndexed, sweep_over-IsIndexed, mark_installing-IsIndexed, lease_of-some,
}
use arbiter_core.Base.{
  ℕ, refl, Bool, true, false, Option, none, some, List, [], ◌∷◌, arith, list_eq, nat_eq, ◌≟◌, ≟_iff,
  ≟_refl, Bytes, Option-cases, WriteOutcome, lookup, values, ◌≡◌, ap, inl, sym, ◌≢◌, Bool-cases,
  inr, ◌∙◌, lookup-insert, lookup-insert_self, insert, is_some, lookup-delete,
}

IsIndexed-same :
    (s t : Server) → t.by_id ≡ s.by_id → t.leases ≡ s.leases → IsIndexed s → IsIndexed t
IsIndexed-same s t p q x i m h =
    let r = x i m (sym (ap (lookup i) p) ∙ h) in (r.0, ap (lookup m.database) q ∙ r.1)

pub end_lease-there :
    (l : Lease) (s : Server) (i : Bytes) (m : Lease)
    → lookup i (end_lease l s).by_id ≡ some m
    → (lookup i s.by_id ≡ some m) × ((is_some (lookup l.id s.by_id) ≡ true) → (l.id ≟ i) ≡ false)
unfolding end_lease
end_lease-there l s i m h = ground (arith, h, ≟_iff l.id i, lookup-delete l.id i s.by_id)

end_held-there :
    (old : Option Bytes) (s : Server) (i : Bytes) (m : Lease)
    → lookup i (end_held old s).by_id ≡ some m
    → lookup i s.by_id ≡ some m
unfolding end_held
end_held-there none s i m h = h
end_held-there (some held) s i m h = elim (Option-cases (lookup held s.by_id)) [
  | inl e ↦ ground (arith, h, e)
  | inr (l, e) ↦ (end_lease-there l s i m (ground (arith, h, e))).0
]

-- The lease that ends is gone.
end_held-gone :
    (held : Bytes) (s : Server)
    → IsIndexed s
    → (i : Bytes) (m : Lease) → lookup i (end_held (some held) s).by_id ≡ some m
    → (held ≟ i) ≡ false
unfolding end_held
end_held-gone held s x i m h = elim (Option-cases (lookup held s.by_id)) [
  | inl e ↦
      let there : lookup i s.by_id ≡ some m = ground (arith, h, e) in
      elim (Bool-cases (held ≟ i)) [
        | inr p ↦ p
        | inl p ↦ absurd (ground (arith, there, e, ap (λ b. lookup b s.by_id) ((≟_iff held i).0 p)))
      ]
  | inr (l, e) ↦
      let own : l.id ≡ held = (x held l e).0 in
      let kept : lookup i (end_lease l s).by_id ≡ some m = ground (arith, h, e) in
      let apart = (end_lease-there l s i m kept).1 in
      let known = ap (λ b. lookup b s.by_id) own in
      ground (arith, apart, known, e, own, ap (λ b. b ≟ i) own)
]

-- The end of a database's lease leaves no lease of it.
end_held-other :
    (database : Bytes) (s : Server)
    → IsIndexed s
    → (i : Bytes) (m : Lease) → lookup i (end_held (lookup database s.leases) s).by_id ≡ some m
    → m.database ≢ database
end_held-other database s x i m h p =
    let there = end_held-there (lookup database s.leases) s i m h in
    let own : lookup database s.leases ≡ some i =
      sym (ap (λ b. lookup b s.leases) p) ∙ (x i m there).1 in
    let gone = end_held-gone i s x i m (sym (ap (λ o. lookup i (end_held o s).by_id) own) ∙ h) in
    ground (arith, gone, ≟_refl i)

end_held-IsIndexed : (old : Option Bytes) (s : Server) → IsIndexed s → IsIndexed (end_held old s)
unfolding end_held
end_held-IsIndexed none s x = x
end_held-IsIndexed (some held) s x = elim (Option-cases (lookup held s.by_id)) [
  | inl e ↦ rw (e, end_held) x
  | inr (l, e) ↦ rw (e, end_held) (end_lease-IsIndexed l s x)
]

pub put_lease-IsIndexed :
    (l : Lease) (s : Server)
    → IsIndexed s
    → ((i : Bytes) (m : Lease) → lookup i s.by_id ≡ some m → m.database ≢ l.database)
    → IsIndexed (put_lease l s)
unfolding put_lease
put_lease-IsIndexed l s x other i m h = elim (Bool-cases (l.id ≟ i)) [
  | inl p ↦
      let same : l ≡ m = ground (arith, h, p, lookup-insert l.id i l s.by_id) in
      rw (← same) (
        (≟_iff l.id i).0 p,
        ground (arith, (≟_iff l.id i).0 p, lookup-insert_self l.database l.id s.leases),
      )
  | inr p ↦
      let there : lookup i s.by_id ≡ some m =
        ground (arith, h, p, lookup-insert l.id i l s.by_id) in
      let apart : (l.database ≟ m.database) ≡ false = elim (Bool-cases (l.database ≟ m.database)) [
        | inr q ↦ q
        | inl q ↦ absurd (other i m there (sym ((≟_iff l.database m.database).0 q)))
      ] in
      ground (arith, x i m there, apart, lookup-insert l.database m.database l.id s.leases)
]

sweep-IsIndexed : (now : ℕ) (s : Server) → IsIndexed s → IsIndexed (sweep now s)
unfolding sweep
sweep-IsIndexed now s x = sweep_over-IsIndexed now (values s.by_id) s x

record_leases-IsIndexed :
    (w : WriteOutcome) (drop : Option Bytes) (add : Option Lease) (renewing : Option Bytes)
    (now : ℕ)
    → (s : Server) → IsIndexed s
    → IsIndexed (record_leases w drop add renewing now s).0
record_leases-IsIndexed w drop add renewing now s x =
    let same = record_leases-same w drop add renewing now s in
    IsIndexed-same s (record_leases w drop add renewing now s).0 same.0 same.2 x

granted-IsIndexed :
    (old : Option Bytes) (l : Lease) (a : Server × Bool)
    → lookup l.database a.0.leases ≡ old
    → IsIndexed a.0
    → IsIndexed (granted old l a).0
granted-IsIndexed old l (s, true) e x = x
granted-IsIndexed old l (s, false) e x = rw (← e) (
    put_lease-IsIndexed l (end_held (lookup l.database s.leases) s)
      (end_held-IsIndexed (lookup l.database s.leases) s x) (end_held-other l.database s x))

grant-IsIndexed :
    (w : WriteOutcome) (now : ℕ) (id database : Bytes) (owner : ℕ) (s : Server)
    → IsIndexed s
    → IsIndexed (grant w now id database owner s).0
unfolding grant
grant-IsIndexed w now id database owner s x =
    let l = new_lease now id database owner s.lease_ttl in
    let old = lookup database s.leases in
    granted-IsIndexed old l (record_leases w old (some l) none 0 s)
      (ap (lookup database) ((record_leases-same w old (some l) none 0 s).2))
      (record_leases-IsIndexed w old (some l) none 0 s x)

grant_id-IsIndexed :
    (w : WriteOutcome) (now : ℕ) (id : Option Bytes) (database : Bytes) (owner : ℕ) (s : Server)
    → IsIndexed s
    → IsIndexed (grant_id w now id database owner s).0
grant_id-IsIndexed w now none database owner s x = x
grant_id-IsIndexed w now (some id) database owner s x = grant-IsIndexed w now id database owner s x

granted_of-IsIndexed :
    (w : WriteOutcome) (now : ℕ) (id : Option Bytes) (database snapshot : Bytes) (s : Server)
    → (states : List (OwnerDatabase × DbState)) → IsIndexed s
    → IsIndexed (granted_of w now id database snapshot s states).0
granted_of-IsIndexed w now id database snapshot s [] x = x
granted_of-IsIndexed w now id database snapshot s (a ∷ b ∷ more) x = x
granted_of-IsIndexed w now id database snapshot s ((k, st) ∷ []) x = elim (Bool-cases st.serving) [
  | inr e ↦ rw e x
  | inl e ↦ elim (Bool-cases (snapshot ≟ st.copy.snapshot_id)) [
    | inr f ↦ rw (e, f) x
    | inl f ↦ rw (e, f) (grant_id-IsIndexed w now id database k.owner s x)
  ]
]

pub acquire-IsIndexed :
    (w : WriteOutcome) (now : ℕ) (id : Option Bytes) (database snapshot : Bytes) (s : Server)
    → IsIndexed s
    → IsIndexed (acquire w now id database snapshot s).0
unfolding acquire
acquire-IsIndexed w now id database snapshot s x =
    granted_of-IsIndexed w now id database snapshot (sweep now s)
      (named_states database (sweep now s).dbs) (sweep-IsIndexed now s x)

-- A lease replaced by one of the same database under the same id.
insert-IsIndexed :
    (id : Bytes) (l m : Lease) (s : Server)
    → IsIndexed s
    → lookup id s.by_id ≡ some l
    → m.id ≡ l.id
    → m.database ≡ l.database
    → IsIndexed (record s { by_id = insert id m s.by_id })
insert-IsIndexed id l m s x e p q i n h = elim (Bool-cases (id ≟ i)) [
  | inr r ↦ x i n (ground (arith, h, r, lookup-insert id i m s.by_id))
  | inl r ↦
      let same : m ≡ n = ground (arith, h, r, lookup-insert id i m s.by_id) in
      let own = x id l e in
      let at : id ≡ i = (≟_iff id i).0 r in
      rw (← same, ← at) (p ∙ own.0, ap (λ b. lookup b s.leases) q ∙ own.1)
]

pub renew-IsIndexed :
    (w : WriteOutcome) (now : ℕ) (id : Bytes) (s : Server)
    → IsIndexed s
    → IsIndexed (renew w now id s).0
unfolding renew
renew-IsIndexed w now id s x =
    let swept = sweep now s in
    let y = sweep-IsIndexed now s x in
    elim (Option-cases (lookup id swept.by_id)) [
      | inl e ↦ rw (e, renew) y
      | inr (l, e) ↦ elim (Bool-cases l.revoked) [
        | inl f ↦ rw (e, f, renew) y
        | inr f ↦
            let a = record_leases w none none (some id) now swept in
            let z = record_leases-IsIndexed w none none (some id) now swept y in
            let same = record_leases-same w none none (some id) now swept in
            elim (Bool-cases a.1) [
              | inl g ↦ rw (e, f, g, renew) z
              | inr g ↦
                  rw (e, f, g, renew)
                    (insert-IsIndexed id l (record l { renewed = now; revoked = false }) a.0 z
                      (ap (lookup id) same.0 ∙ e) refl refl)
            ]
      ]
    ]

pub release-IsIndexed :
    (w : WriteOutcome) (now : ℕ) (id : Bytes) (s : Server)
    → IsIndexed s
    → IsIndexed (release w now id s)
unfolding release
release-IsIndexed w now id s x = elim (Option-cases (lookup id s.by_id)) [
  | inl e ↦ rw (e, release) (sweep-IsIndexed now s x)
  | inr (l, e) ↦
      rw (e, release)
        (record_leases-IsIndexed w none none none 0 _
          (sweep-IsIndexed now (end_lease l s) (end_lease-IsIndexed l s x)))
]

revoke_lease-IsIndexed :
    (now : ℕ) (id : Bytes) (l : Lease) (s : Server)
    → IsIndexed s
    → lookup id s.by_id ≡ some l
    → IsIndexed (revoke_lease now l s)
unfolding revoke_lease
revoke_lease-IsIndexed now id l s x e = elim (Bool-cases l.revoked) [
  | inl f ↦ rw (f, revoke_lease) x
  | inr f ↦
      rw (f, revoke_lease)
        (insert-IsIndexed l.id l (record l { revoked = true; revoked_at = now }) s x
          (ap (λ b. lookup b s.by_id) (x id l e).0 ∙ e) refl refl)
]

pub before_install-IsIndexed :
    (now : ℕ) (k : OwnerDatabase) (s : Server) → IsIndexed s → IsIndexed (before_install now k s).0
unfolding before_install
before_install-IsIndexed now k s x =
    let swept = sweep now (mark_installing k s) in
    let y = sweep-IsIndexed now (mark_installing k s) (mark_installing-IsIndexed k s x) in
    elim (Option-cases (lease_of k.database swept)) [
      | inl h ↦ rw (h, before_install) y
      | inr (l, h) ↦
          let (id, d, g) = lease_of-some k.database l swept h in
          rw (h, before_install) (revoke_lease-IsIndexed now id l swept y g)
    ]
