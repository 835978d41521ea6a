-- ===== src/Serve/Licensed.antt =====
-- What a lease of member/serve/lease.go rests on: the poll of conditions.go before it.
use arbiter_core.Serve.{
  Lease, OwnerDatabase, DbState, Server, sweep, granted_of, named_states, acquire,
  owner_database_eq, DatabaseCopy,
}
use arbiter_core.Serve.Requests.{Request, after_requests}
use arbiter_core.Serve.Conditions.{PollRead, poll, unreachable, is_quarantined}
use arbiter_core.Serve.Polled.{IsServable}
use arbiter_core.Serve.Frames.{sweep_over-IsFramed}
use arbiter_core.Serve.Polls.{poll-IsServable, IsRegistered}
use arbiter_core.Base.{
  ℕ, refl, true, false, some, List, [], ◌∷◌, Bytes, ◌≟◌, list_eq, nat_eq, list_ord, nat_ord, arith,
  ◌≡◌, ap, sym, ◌∙◌, inl, inr, Bool-cases, ≟_iff, contains, lookup, ◌||◌, ok, Map, WriteOutcome,
  values, any, Option,
}
use arbiter_core.Serve.Settled.{IsSettled, served-listed}
use arbiter_core.Serve.Served.{starts_install, after_requests-Served}

named_states-lookup :
    (database : Bytes) (k : OwnerDatabase) (u : DbState) (m : Map OwnerDatabase DbState)
    → named_states database m ≡ (k, u) ∷ []
    → (k.database ≡ database) × (lookup k m ≡ some u)
unfolding named_states lookup
named_states-lookup database k u [] h = absurd cc
named_states-lookup database k u ((i, v) ∷ m) h = elim (Bool-cases (i.database ≟ database)) [
  | inl p ↦
      let found : (i, v) ∷ named_states database m ≡ (k, u) ∷ [] = ground (arith, h, p) in
      let key : i ≡ k = cc in
      let state : v ≡ u = cc in
      (
        ap (λ (y : OwnerDatabase). y.database) (sym key) ∙ (≟_iff i.database database).0 p,
        ground (arith, (≟_iff i k).1 key, state),
      )
  | inr p ↦
      let (name, there) = named_states-lookup database k u m (ground (arith, h, p)) in
      (
        name,
        ground (
          arith,
          there,
          p,
          ≟_iff i k,
          ap (λ (y : OwnerDatabase). y.database),
          ≟_iff i.database database,
          name,
        ),
      )
]

-- A granted lease has one state of the name behind it, which serves the snapshot.
granted_of-ok :
    (w : WriteOutcome) (now : ℕ) (id : Option Bytes) (database snapshot : Bytes) (s : Server)
    (l : Lease)
    → (states : List (OwnerDatabase × DbState))
    → (granted_of w now id database snapshot s states).1 ≡ ok l
    → (k : OwnerDatabase) × (u : DbState) × (states ≡ (k, u) ∷ [])
      × (u.serving ≡ true)
      × (u.copy.snapshot_id ≡ snapshot)
granted_of-ok w now id database snapshot s l [] h = absurd cc
granted_of-ok w now id database snapshot s l (a ∷ b ∷ more) h = absurd cc
granted_of-ok w now id database snapshot s l ((k, u) ∷ []) h =
    let on : u.serving ≡ true = ground (arith, h) in
    let at : (snapshot ≟ u.copy.snapshot_id) ≡ true = ground (arith, h, on) in
    (k, u, refl, on, sym ((≟_iff snapshot u.copy.snapshot_id).0 at))

-- The poll that a lease of the database at the snapshot rests on, with the requests since.
pub record IsLicensed (r : PollRead) (rs : List Request) (s : Server) (database snapshot : Bytes)
    : Type 0 where
  pub key : OwnerDatabase
  pub state : DbState
  pub named : key.database ≡ database
  pub listed : contains key r.pairs ≡ true
  pub polled : lookup key (poll r s).dbs ≡ some state
  pub snapshot_read : state.copy.snapshot_id ≡ snapshot
  pub no_install : any (starts_install key) rs ≡ false
  pub servable : IsServable s.enabled r key state
  pub journal : r.read key ≡ some state.copy
  pub gone : (is_quarantined key.owner r.registry || unreachable key.owner r.now s) ≡ true
  pub registered : IsRegistered r key state

-- A lease granted after a poll, whatever hosts and installs asked for in between, is for the snapshot
-- of a copy that the poll found fit to be served: its conditions held, as the poll read them, for the
-- one owner that lists the database, and no install of the database began since. Before the poll no
-- database served while an install of it ran.
pub acquire-IsLicensed :
    (r : PollRead) (rs : List Request) (s : Server) (w : WriteOutcome) (now : ℕ)
    → (id : Option Bytes) (database snapshot : Bytes) (l : Lease) → IsSettled s
    → (acquire w now id database snapshot (after_requests rs (poll r s))).1 ≡ ok l
    → IsLicensed r rs s database snapshot
unfolding acquire sweep
acquire-IsLicensed r rs s w now id database snapshot l x h =
    let t = after_requests rs (poll r s) in
    let swept = sweep now t in
    let (k, u, one, on, at) =
      granted_of-ok w now id database snapshot swept l (named_states database swept.dbs) h in
    let (name, there) = named_states-lookup database k u swept.dbs one in
    let back : lookup k t.dbs ≡ some u =
      ap (lookup k) (sym (sweep_over-IsFramed now (values t.by_id) t).0) ∙ there in
    let ((st, e, served, copy), quiet) = after_requests-Served k u rs (poll r s) back on in
    let c = served-listed r k s st x e served in
    let (servable, idle, journal, gone, known) = poll-IsServable r k s st c e served in
    record {
      key = k;
      state = st;
      named = name;
      listed = c;
      polled = e;
      snapshot_read = ap (λ (y : DatabaseCopy). y.snapshot_id) copy ∙ at;
      no_install = quiet;
      servable = servable;
      journal = journal;
      gone = gone;
      registered = known;
    }
