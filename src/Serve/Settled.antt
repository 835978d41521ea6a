-- ===== src/Serve/Settled.antt =====
-- While an install of a database runs, it does not serve: member/serve/conditions.go and lease.go.
use arbiter_core.Serve.Served.{after_call-dbs, before_install-dbs}
use arbiter_core.Serve.{OwnerDatabase, DbState, Server, sweep, owner_database_eq}
use arbiter_core.Serve.Hooks.{
  state_of, mark_installing, before_install, abandon_install, after_install, next_epoch,
}
use arbiter_core.Serve.Requests.{Request, host, begins, abandons, ends, after_requests}
use arbiter_core.Serve.Conditions.{
  PollRead, note_entries, revoke_owned, poll_pairs, forget_one, forget_unlisted, poll, unreachable,
  polled_state, is_installing,
}
use arbiter_core.Serve.Polled.{polled_state-IsServable, polled_state-reads, polled_state-IsCounted}
use arbiter_core.Serve.Frames.{revoke_owned-IsFramed, sweep_over-IsFramed, note_entries-IsNoted}
use arbiter_core.Serve.Polls.{poll_pairs-other, poll-leaves}
use arbiter_core.Base.{
  refl, Bool, true, false, some, List, [], ◌∷◌, ◌≟◌, list_eq, nat_eq, list_ord, nat_ord, arith, ◌≡◌,
  ◌<◌, ap, sym, ◌∙◌, inl, inr, Bool-cases, Option-cases, ≟_iff, ltb, contains, lookup, insert,
  delete, keys, ◌||◌, lookup-insert, lookup-delete, Map, values, ◌-◌,
}

abbrev pub IsQuiet : DbState → Type 0
IsQuiet st = (st.serving ≡ false) × (st.polls ≡ 0)

-- No database serves, or counts polls, while an install of it runs.
abbrev pub IsSettled : Server → Type 0
IsSettled s =
    (k : OwnerDatabase) (st : DbState) → lookup k s.dbs ≡ some st → 0 < st.installing → IsQuiet st

contains-keys :
    (k : OwnerDatabase) (st : DbState) (m : Map OwnerDatabase DbState)
    → lookup k m ≡ some st
    → contains k (keys m) ≡ true
unfolding lookup contains
contains-keys k st [] h = cc
contains-keys k st ((j, u) ∷ m) h = ground (arith, h, contains-keys k st m)

pub state_of-there :
    (k : OwnerDatabase) (st : DbState) (s : Server) → lookup k s.dbs ≡ some st → state_of k s ≡ st
unfolding state_of
state_of-there k st s e = rw (e, state_of) refl

-- What a state that is left after forget_one was.
forget_one-left :
    (r : PollRead) (k j : OwnerDatabase) (s : Server) (st : DbState)
    → contains k r.pairs ≡ false
    → lookup k (forget_one r j s).dbs ≡ some st
    → (lookup k s.dbs ≡ some st) × ((j ≟ k) ≡ true → 0 < st.installing)
unfolding forget_one
forget_one-left r k j s st c h =
    let revoked = revoke_owned r.now j s in
    let f = revoke_owned-IsFramed r.now j s in
    let gone = lookup-delete j k revoked.dbs in
    elim (Bool-cases (contains j r.pairs || ltb 0 (state_of j s).installing)) [
      | inl p ↦
          let there : lookup k s.dbs ≡ some st = ground (arith, h, p) in
          (
            there,
            λ q.
                let same : j ≡ k = (≟_iff j k).0 q in
                let unlisted : contains j r.pairs ≡ false = ap (λ i. contains i r.pairs) same ∙ c in
                let its : (state_of j s).installing ≡ st.installing =
                  ap (λ i. (state_of i s).installing) same
                  ∙ ap (λ (u : DbState). u.installing) (state_of-there k st s there) in
                ground (arith, p, unlisted, its),
          )
      | inr p ↦
          let left : lookup k (delete j revoked.dbs) ≡ some st = ground (arith, h, p) in
          elim (Bool-cases (j ≟ k)) [
            | inl q ↦ absurd (ground (arith, left, gone, q))
            | inr q ↦
                let there : lookup k revoked.dbs ≡ some st = ground (arith, left, gone, q) in
                (ap (lookup k) (sym f.0) ∙ there, λ e. absurd (ground (arith, q, e)))
          ]
    ]

forget_unlisted-left :
    (r : PollRead) (k : OwnerDatabase) (ks : List OwnerDatabase) (s : Server) (st : DbState)
    → contains k r.pairs ≡ false
    → lookup k (forget_unlisted r ks s).dbs ≡ some st
    → (lookup k s.dbs ≡ some st) × (contains k ks ≡ true → 0 < st.installing)
unfolding forget_unlisted contains
forget_unlisted-left r k [] s st c h = (h, λ q. absurd cc)
forget_unlisted-left r k (j ∷ ks) s st c h =
    let later = forget_unlisted-left r k ks (forget_one r j s) st c h in
    let here = forget_one-left r k j s st c later.0 in
    (here.0, λ q. ground (arith, q, later.1, here.1))

-- A database that the poll does not list is left only while an install of it runs.
pub poll-left :
    (r : PollRead) (k : OwnerDatabase) (s : Server) (st : DbState)
    → contains k r.pairs ≡ false
    → lookup k (poll r s).dbs ≡ some st
    → (lookup k s.dbs ≡ some st) × (0 < st.installing)
unfolding poll sweep
poll-left r k s st c h =
    let swept = sweep r.now s in
    let f = sweep_over-IsFramed r.now (values s.by_id) s in
    let noted = note_entries r r.pairs swept in
    let n = note_entries-IsNoted r r.pairs swept in
    let t = poll_pairs r r.pairs noted in
    let left = forget_unlisted-left r k (keys t.dbs) t st c h in
    let back : lookup k t.dbs ≡ lookup k s.dbs =
      poll_pairs-other r k r.pairs noted c ∙ ap (lookup k) (n.0 ∙ f.0) in
    (sym back ∙ left.0, left.1 (contains-keys k st t.dbs left.0))

busy-IsQuiet :
    (enabled : Bool) (r : PollRead) (away : Bool) (k : OwnerDatabase) (u : DbState)
    → is_installing r u ≡ true
    → IsQuiet (polled_state enabled r away k u)
busy-IsQuiet enabled r away k u busy =
    let t = polled_state enabled r away k u in
    (
      elim (Bool-cases t.serving) [
        | inr off ↦ off
        | inl on ↦ absurd (ground (arith, busy, (polled_state-IsServable enabled r away k u on).1))
      ],
      elim (Bool-cases (ltb 0 t.polls)) [
        | inr zero ↦ ground (arith, zero)
        | inl more ↦
            let m = polled_state-IsCounted enabled r away k u (ground (arith, more)) in
            absurd (ground (arith, busy, m.0))
      ],
    )

poll-IsSettled : (r : PollRead) (s : Server) → IsSettled s → IsSettled (poll r s)
poll-IsSettled r s x k st e i = elim (Bool-cases (contains k r.pairs)) [
  | inr c ↦ x k st (poll-left r k s st c e).0 i
  | inl c ↦
      let p = poll-leaves r k s c in
      let away = unreachable k.owner r.now s in
      let t = polled_state s.enabled r away k p.before in
      let same : t ≡ st = ground (arith, e, p.after) in
      let kept = (polled_state-reads s.enabled r away k p.before).3 in
      let busy : is_installing r p.before ≡ true =
        ground (arith, i, kept, ap (λ (u : DbState). u.installing) same) in
      rw (← same) (busy-IsQuiet s.enabled r away k p.before busy)
]

-- Serving means listed.
pub served-listed :
    (r : PollRead) (k : OwnerDatabase) (s : Server) (st : DbState)
    → IsSettled s
    → lookup k (poll r s).dbs ≡ some st
    → st.serving ≡ true
    → contains k r.pairs ≡ true
served-listed r k s st x e on = elim (Bool-cases (contains k r.pairs)) [
  | inl c ↦ c
  | inr c ↦
      let left = poll-left r k s st c e in absurd (ground (arith, on, (x k st left.0 left.1).0))
]

-- A poll, or a request.
pub data Turn : Type 0 where
  polls : PollRead → Turn
  requests : Request → Turn

unfoldable pub after_turns : List Turn → Server → Server
after_turns [] s = s
after_turns (polls r ∷ ts) s = after_turns ts (poll r s)
after_turns (requests q ∷ ts) s = after_turns ts (after_requests (q ∷ []) s)

IsSettled-put :
    (j : OwnerDatabase) (v : DbState) (s t : Server)
    → t.dbs ≡ insert j v s.dbs
    → (0 < v.installing → IsQuiet v)
    → IsSettled s
    → IsSettled t
IsSettled-put j v s t d h x k st e i =
    let at = lookup-insert j k v s.dbs in
    let there : lookup k (insert j v s.dbs) ≡ some st = ap (lookup k) (sym d) ∙ e in
    elim (Bool-cases (j ≟ k)) [
      | inr p ↦ x k st (ground (arith, at, there, p)) i
      | inl p ↦
          let its : v ≡ st = ground (arith, at, there, p) in
          rw (← its) (h (ground (arith, i, ap (λ (y : DbState). y.installing) its)))
    ]

state_of-IsSettled :
    (k : OwnerDatabase) (s : Server)
    → IsSettled s
    → 0 < (state_of k s).installing
    → IsQuiet (state_of k s)
unfolding state_of
state_of-IsSettled k s x i = elim (Option-cases (lookup k s.dbs)) [
  | inl e ↦ (ground (arith, e), ground (arith, e))
  | inr (st, e) ↦
      let quiet = x k st e (ground (arith, i, e)) in
      (ground (arith, e, quiet.0), ground (arith, e, quiet.1))
]

after_request-IsSettled :
    (q : Request) (s : Server) → IsSettled s → IsSettled (after_requests (q ∷ []) s)
unfolding after_requests mark_installing abandon_install after_install
after_request-IsSettled (host c) s x =
    λ k st e i. x k st (ap (lookup k) (sym (after_call-dbs c s)) ∙ e) i
after_request-IsSettled (begins now j) s x =
    IsSettled-put j _ s (before_install now j s).0 (before_install-dbs now j s) (λ i. (refl, refl))
      x
after_request-IsSettled (abandons j) s x =
    IsSettled-put j _ s (abandon_install j s) refl
      (λ i. state_of-IsSettled j s x (ground (arith, i))) x
after_request-IsSettled (ends j) s x = elim (Option-cases (lookup j s.dbs)) [
  | inl e ↦ rw (e, after_install) x
  | inr (st, e) ↦
      let t : Server = record s {
        epoch = next_epoch s.epoch;
        dbs =
            insert j
              (record st {
                installing = st.installing - 1;
                installed = next_epoch s.epoch;
                polls = 0;
              })
              s.dbs;
      } in
      let settled : IsSettled t =
        IsSettled-put j _ s t refl (λ i. ((x j st e (ground (arith, i))).0, refl)) x in
      rw (e, after_install) settled
]

-- Over any polls and any requests of hosts and installs, in any order and whatever they read, no
-- database serves, or counts a poll, while an install of it runs, where none did at first.
pub after_turns-IsSettled :
    (ts : List Turn) (s : Server) → IsSettled s → IsSettled (after_turns ts s)
unfolding after_turns
after_turns-IsSettled [] s x = x
after_turns-IsSettled (polls r ∷ ts) s x =
    after_turns-IsSettled ts (poll r s) (poll-IsSettled r s x)
after_turns-IsSettled (requests q ∷ ts) s x =
    after_turns-IsSettled ts (after_requests (q ∷ []) s) (after_request-IsSettled q s x)
