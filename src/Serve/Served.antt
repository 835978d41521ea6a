-- ===== src/Serve/Served.antt =====
-- What the calls of member/serve/lease.go leave of the databases that serve.
use arbiter_core.Serve.{
  Lease, OwnerDatabase, DbState, Server, sweep, end_lease, end_held, put_lease, granted, grant,
  granted_of, named_states, acquire, renew, release, record_leases, new_lease, owner_database_eq,
  install_running, grant_id,
}
use arbiter_core.Serve.Hooks.{
  state_of, lease_of, mark_installing, before_install, abandon_install, after_install, next_epoch,
}
use arbiter_core.Serve.Installing.{record_leases-same, HostCall, acquires, renews, releases}
use arbiter_core.Serve.Requests.{Request, host, begins, abandons, ends, after_call, after_requests}
use arbiter_core.Serve.Frames.{revoke_lease-IsFramed, sweep_over-IsFramed, end_lease-IsFramed}
use arbiter_core.Base.{
  ℕ, refl, Bool, true, false, Option, none, some, List, [], ◌∷◌, Bytes, ◌≟◌, list_eq, nat_eq,
  list_ord, nat_ord, arith, ◌≡◌, ap, sym, ◌∙◌, inl, inr, Bool-cases, Option-cases, ≟_iff, lookup,
  insert, lookup-insert, WriteOutcome, values, any, ◌+◌, ◌-◌,
}

end_held-dbs : (old : Option Bytes) (s : Server) → (end_held old s).dbs ≡ s.dbs
unfolding end_held
end_held-dbs none s = refl
end_held-dbs (some held) s = elim (Option-cases (lookup held s.by_id)) [
  | inl e ↦ ground (arith, e)
  | inr (m, e) ↦ ground (arith, e, (end_lease-IsFramed m s).0)
]

granted-dbs :
    (old : Option Bytes) (l : Lease) (p : Server × Bool) → (granted old l p).0.dbs ≡ p.0.dbs
unfolding put_lease
granted-dbs old l (s, true) = refl
granted-dbs old l (s, false) = end_held-dbs old s

grant-dbs :
    (w : WriteOutcome) (now : ℕ) (id database : Bytes) (owner : ℕ) (s : Server)
    → (grant w now id database owner s).0.dbs ≡ s.dbs
unfolding grant
grant-dbs w now id database owner s =
    let l = new_lease now id database owner s.lease_ttl in
    let old = lookup database s.leases in
    granted-dbs old l (record_leases w old (some l) none 0 s)
    ∙ (record_leases-same w old (some l) none 0 s).1

grant_id-dbs :
    (w : WriteOutcome) (now : ℕ) (id : Option Bytes) (database : Bytes) (owner : ℕ) (s : Server)
    → (grant_id w now id database owner s).0.dbs ≡ s.dbs
grant_id-dbs w now none database owner s = refl
grant_id-dbs w now (some id) database owner s = grant-dbs w now id database owner s

granted_of-dbs :
    (w : WriteOutcome) (now : ℕ) (id : Option Bytes) (database snapshot : Bytes) (s : Server)
    → (states : List (OwnerDatabase × DbState))
    → (granted_of w now id database snapshot s states).0.dbs ≡ s.dbs
granted_of-dbs w now id database snapshot s [] = refl
granted_of-dbs w now id database snapshot s (a ∷ b ∷ more) = refl
granted_of-dbs w now id database snapshot s ((k, st) ∷ []) =
    ground (arith, grant_id-dbs w now id database k.owner s)

pub after_call-dbs : (c : HostCall) (s : Server) → (after_call c s).dbs ≡ s.dbs
unfolding after_call acquire renew release sweep
after_call-dbs (acquires w now id database snapshot) s =
    let swept = sweep now s in
    granted_of-dbs w now id database snapshot swept (named_states database swept.dbs)
    ∙ (sweep_over-IsFramed now (values s.by_id) s).0
after_call-dbs (renews w now id) s =
    let swept = sweep now s in
    let same = (sweep_over-IsFramed now (values s.by_id) s).0 in
    let kept = (record_leases-same w none none (some id) now swept).1 in
    elim (Option-cases (lookup id swept.by_id)) [
      | inl e ↦ ground (arith, e, same)
      | inr (l, e) ↦ ground (arith, e, same, kept)
    ]
after_call-dbs (releases w now id) s = elim (Option-cases (lookup id s.by_id)) [
  | inl e ↦ ground (arith, e, (sweep_over-IsFramed now (values s.by_id) s).0)
  | inr (l, e) ↦
      let ended = end_lease l s in
      let kept = (record_leases-same w none none none 0 (sweep now ended)).1 in
      let swept = (sweep_over-IsFramed now (values ended.by_id) ended).0 in
      ground (arith, e, kept, swept, (end_lease-IsFramed l s).0)
]

pub before_install-dbs :
    (now : ℕ) (k : OwnerDatabase) (s : Server)
    → (before_install now k s).0.dbs ≡ (mark_installing k s).dbs
unfolding before_install sweep
before_install-dbs now k s =
    let marked = mark_installing k s in
    let swept = sweep now marked in
    let same = (sweep_over-IsFramed now (values marked.by_id) marked).0 in
    elim (Option-cases (lease_of k.database swept)) [
      | inl e ↦ ground (arith, e, same)
      | inr (l, e) ↦ ground (arith, e, same, (revoke_lease-IsFramed now l swept).0)
    ]

-- The request begins an install of the database.
abbrev pub starts_install : OwnerDatabase → Request → Bool
starts_install k (host c) = false
starts_install k (begins now j) = j ≟ k
starts_install k (abandons j) = false
starts_install k (ends j) = false

-- The state served before the requests too, with the same copy.
abbrev pub Served : OwnerDatabase → DbState → Server → Type 0
Served k u s =
    (st : DbState) × (lookup k s.dbs ≡ some st) × (st.serving ≡ true) × (st.copy ≡ u.copy)

put-Served :
    (k j : OwnerDatabase) (v u : DbState) (s t : Server)
    → t.dbs ≡ insert j v s.dbs
    → (v.serving ≡ true → Served j v s)
    → Served k u t
    → Served k u s
put-Served k j v u s t d h (st, e, on, copy) =
    let at = lookup-insert j k v s.dbs in
    let there : lookup k (insert j v s.dbs) ≡ some st = ap (lookup k) (sym d) ∙ e in
    elim (Bool-cases (j ≟ k)) [
      | inr p ↦ (st, ground (arith, at, there, p), on, copy)
      | inl p ↦
          let same : j ≡ k = (≟_iff j k).0 p in
          let its : v ≡ st = ground (arith, at, there, p) in
          let (w, f, g, c) = h (ap (λ (y : DbState). y.serving) its ∙ on) in
          (
            w,
            ap (λ i. lookup i s.dbs) (sym same) ∙ f,
            g,
            c ∙ ap (λ (y : DbState). y.copy) its ∙ copy,
          )
    ]

state_of-Served :
    (k : OwnerDatabase) (u : DbState) (s : Server)
    → (state_of k s).serving ≡ true
    → (state_of k s).copy ≡ u.copy
    → Served k u s
unfolding state_of
state_of-Served k u s on copy = elim (Option-cases (lookup k s.dbs)) [
  | inl e ↦ absurd (ground (arith, on, e))
  | inr (st, e) ↦ (st, e, ground (arith, on, e), ground (arith, copy, e))
]

after_install-Served :
    (k j : OwnerDatabase) (u : DbState) (s : Server) → Served k u (after_install j s) → Served k u s
unfolding after_install
after_install-Served k j u s h = elim (Option-cases (lookup j s.dbs)) [
  | inl e ↦ rw (e, after_install) at h
  | inr (st, e) ↦
      let t : Server = record s {
        epoch = next_epoch s.epoch;
        dbs =
            insert j
              (record st {
                installing = st.installing - 1;
                installed = next_epoch s.epoch;
                polls = 0;
              })
              s.dbs;
      } in
      put-Served k j _ u s t refl (λ o. (st, e, o, refl)) (rw (e, after_install) at h)
]

-- No state serves under the mark of an install.
before_install-Served :
    (k j : OwnerDatabase) (now : ℕ) (u : DbState) (s : Server)
    → Served k u (before_install now j s).0
    → Served k u s × ((j ≟ k) ≡ false)
unfolding mark_installing
before_install-Served k j now u s (st, e, on, copy) =
    let marked : DbState = record (state_of j s) {
      installing = (state_of j s).installing + 1;
      installed = next_epoch s.epoch;
      serving = false;
      reason = some install_running;
      served = [];
      polls = 0;
    } in
    let at = lookup-insert j k marked s.dbs in
    let there : lookup k (insert j marked s.dbs) ≡ some st =
      ap (lookup k) (sym (before_install-dbs now j s)) ∙ e in
    elim (Bool-cases (j ≟ k)) [
      | inl p ↦
          let its : marked ≡ st = ground (arith, at, there, p) in
          let off : false ≡ true = ap (λ (y : DbState). y.serving) its ∙ on in absurd cc
      | inr p ↦ ((st, ground (arith, at, there, p), on, copy), p)
    ]

-- A state that serves after requests did so before them, with no install begun.
pub after_requests-Served :
    (k : OwnerDatabase) (u : DbState) (rs : List Request) (s : Server)
    → lookup k (after_requests rs s).dbs ≡ some u
    → u.serving ≡ true
    → Served k u s × (any (starts_install k) rs ≡ false)
unfolding after_requests mark_installing abandon_install
after_requests-Served k u [] s e on = ((u, e, on, refl), refl)
after_requests-Served k u (host c ∷ rs) s e on =
    let ((st, f, g, copy), n) = after_requests-Served k u rs (after_call c s) e on in
    ((st, ap (lookup k) (sym (after_call-dbs c s)) ∙ f, g, copy), n)
after_requests-Served k u (begins now j ∷ rs) s e on =
    let t = (before_install now j s).0 in
    let (served, n) = after_requests-Served k u rs t e on in
    let (before, apart) = before_install-Served k j now u s served in
    (before, ground (arith, apart, n))
after_requests-Served k u (abandons j ∷ rs) s e on =
    let (served, n) = after_requests-Served k u rs (abandon_install j s) e on in
    (
      put-Served k j _ u s (abandon_install j s) refl
          (λ o. state_of-Served j (state_of j s) s o refl) served,
      n,
    )
after_requests-Served k u (ends j ∷ rs) s e on =
    let (served, n) = after_requests-Served k u rs (after_install j s) e on in
    (after_install-Served k j u s served, n)
