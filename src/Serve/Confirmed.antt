-- ===== src/Serve/Confirmed.antt =====
-- The two polls in member/serve/conditions.go that must read the same entry of an owner.
use arbiter_core.Serve.{OwnerDatabase, DbState, Server, owner_database_eq}
use arbiter_core.Serve.Hooks.{
  state_of, mark_installing, before_install, abandon_install, after_install, next_epoch,
}
use arbiter_core.Serve.Requests.{Request, host, begins, abandons, ends, after_call, after_requests}
use arbiter_core.Serve.Conditions.{PollRead, poll, unreachable, polled_state, entry_of}
use arbiter_core.Serve.Polled.{polled_state-IsServable, polled_state-IsCounted}
use arbiter_core.Serve.Frames.{state_of-same}
use arbiter_core.Serve.Polls.{poll-leaves, single-count}
use arbiter_core.Serve.Served.{after_call-dbs, before_install-dbs}
use arbiter_core.Serve.Settled.{IsSettled, poll-left, state_of-there}
use arbiter_core.Base.{
  refl, Bool, true, false, none, some, List, [], ◌∷◌, ◌≟◌, list_eq, nat_eq, list_ord, nat_ord,
  arith, ◌≡◌, ◌≤◌, ◌<◌, ap, sym, ◌∙◌, any, inl, inr, Bool-cases, Option-cases, ≟_iff, contains,
  lookup, insert, if◌then◌else◌, lookup-insert, ◌-◌,
}

-- The request begins an install of the database, or ends one.
abbrev pub is_hook : OwnerDatabase → Request → Bool
is_hook k (host c) = false
is_hook k (begins now j) = j ≟ k
is_hook k (abandons j) = false
is_hook k (ends j) = j ≟ k

state_of-put :
    (k j : OwnerDatabase) (v : DbState) (s t : Server)
    → t.dbs ≡ insert j v s.dbs
    → state_of k t ≡ (if j ≟ k then v else state_of k s)
unfolding state_of
state_of-put k j v s t d =
    let at : lookup k t.dbs ≡ (if j ≟ k then some v else lookup k s.dbs) =
      ap (lookup k) d ∙ lookup-insert j k v s.dbs in
    elim (Bool-cases (j ≟ k)) [ inl p ↦ ground (arith, at, p) | inr p ↦ ground (arith, at, p) ]

abbrev SameCount : DbState → DbState → Type 0
SameCount t u = (t.polls ≡ u.polls) × (t.last_entry ≡ u.last_entry)

SameCount-of : (t u : DbState) → t ≡ u → SameCount t u
SameCount-of t u e = (ap (λ (y : DbState). y.polls) e, ap (λ (y : DbState). y.last_entry) e)

put-counted :
    (k j : OwnerDatabase) (v : DbState) (s t : Server)
    → t.dbs ≡ insert j v s.dbs
    → v.polls ≡ 0
    → 0 < (state_of k t).polls
    → SameCount (state_of k t) (state_of k s) × ((j ≟ k) ≡ false)
put-counted k j v s t d z h =
    let at = state_of-put k j v s t d in
    elim (Bool-cases (j ≟ k)) [
      | inl p ↦
          let its : state_of k t ≡ v = ground (arith, at, p) in
          absurd (ground (arith, h, z, ap (λ (y : DbState). y.polls) its))
      | inr p ↦ (SameCount-of (state_of k t) (state_of k s) (ground (arith, at, p)), p)
    ]

abandon_install-counted :
    (k j : OwnerDatabase) (s : Server) → SameCount (state_of k (abandon_install j s)) (state_of k s)
unfolding abandon_install
abandon_install-counted k j s =
    let v : DbState = record (state_of j s) {
      installing = (state_of j s).installing - 1;
      installed = next_epoch s.epoch;
    } in
    let t = abandon_install j s in
    let at = state_of-put k j v s t refl in
    elim (Bool-cases (j ≟ k)) [
      | inl p ↦
          let its : state_of k t ≡ v = ground (arith, at, p) in
          let same = ap (λ i. state_of i s) ((≟_iff j k).0 p) in
          let (a, b) = SameCount-of (state_of k t) v its in
          let (c, d) = SameCount-of (state_of j s) (state_of k s) same in (a ∙ c, b ∙ d)
      | inr p ↦ SameCount-of (state_of k t) (state_of k s) (ground (arith, at, p))
    ]

state_of-absent :
    (k : OwnerDatabase) (s : Server) → lookup k s.dbs ≡ none → (state_of k s).polls ≡ 0
unfolding state_of
state_of-absent k s e = ground (arith, e)

after_install-counted :
    (k j : OwnerDatabase) (s : Server)
    → 0 < (state_of k (after_install j s)).polls
    → SameCount (state_of k (after_install j s)) (state_of k s) × ((j ≟ k) ≡ false)
unfolding after_install
after_install-counted k j s h = elim (Option-cases (lookup j s.dbs)) [
  | inl e ↦
      let idle : after_install j s ≡ s = ground (arith, e) in
      let same : state_of k (after_install j s) ≡ state_of k s = ap (state_of k) idle in
      let (a, b) = SameCount-of (state_of k (after_install j s)) (state_of k s) same in
      elim (Bool-cases (j ≟ k)) [
        | inr p ↦ ((a, b), p)
        | inl p ↦
            let gone : lookup k s.dbs ≡ none =
              ap (λ i. lookup i s.dbs) (sym ((≟_iff j k).0 p)) ∙ e in
            absurd (ground (arith, h, a, state_of-absent k s gone))
      ]
  | inr (st, e) ↦
      let v : DbState = record st {
        installing = st.installing - 1;
        installed = next_epoch s.epoch;
        polls = 0;
      } in
      let put : (after_install j s).dbs ≡ insert j v s.dbs = ground (arith, e) in
      put-counted k j v s (after_install j s) put refl h
]

-- Where the counter is above zero after requests, none was a hook and it is as before.
after_requests-counted :
    (k : OwnerDatabase) (rs : List Request) (s : Server)
    → 0 < (state_of k (after_requests rs s)).polls
    → SameCount (state_of k (after_requests rs s)) (state_of k s) × (any (is_hook k) rs ≡ false)
unfolding after_requests mark_installing
after_requests-counted k [] s h = ((refl, refl), refl)
after_requests-counted k (host c ∷ rs) s h =
    let ((a, b), n) = after_requests-counted k rs (after_call c s) h in
    let same = state_of-same k s (after_call c s) (ap (lookup k) (after_call-dbs c s)) in
    let (d, e) = SameCount-of (state_of k (after_call c s)) (state_of k s) same in
    ((a ∙ d, b ∙ e), n)
after_requests-counted k (begins now j ∷ rs) s h =
    let t = (before_install now j s).0 in
    let ((a, b), n) = after_requests-counted k rs t h in
    let ((d, e), apart) =
      put-counted k j _ s t (before_install-dbs now j s) refl (ground (arith, h, a)) in
    ((a ∙ d, b ∙ e), ground (arith, apart, n))
after_requests-counted k (abandons j ∷ rs) s h =
    let ((a, b), n) = after_requests-counted k rs (abandon_install j s) h in
    let (d, e) = abandon_install-counted k j s in ((a ∙ d, b ∙ e), n)
after_requests-counted k (ends j ∷ rs) s h =
    let ((a, b), n) = after_requests-counted k rs (after_install j s) h in
    let ((d, e), apart) = after_install-counted k j s (ground (arith, h, a)) in
    ((a ∙ d, b ∙ e), ground (arith, apart, n))

-- Where the counter is above zero after a poll, the poll read the entry.
poll-counted :
    (r : PollRead) (k : OwnerDatabase) (s : Server)
    → IsSettled s
    → 0 < (state_of k (poll r s)).polls
    → contains k r.pairs ≡ true × (entry_of r k ≡ some (state_of k (poll r s)).last_entry)
poll-counted r k s x h = elim (Option-cases (lookup k (poll r s).dbs)) [
  | inl e ↦ absurd (ground (arith, h, state_of-absent k (poll r s) e))
  | inr (st, e) ↦
      let (polls, entry) =
        SameCount-of (state_of k (poll r s)) st (state_of-there k st (poll r s) e) in
      elim (Bool-cases (contains k r.pairs)) [
        | inr c ↦
            let left = poll-left r k s st c e in
            absurd (ground (arith, h, polls, (x k st left.0 left.1).1))
        | inl c ↦
            let p = poll-leaves r k s c in
            let t = polled_state s.enabled r (unreachable k.owner r.now s) k p.before in
            let same : t ≡ st = ground (arith, e, p.after) in
            let (n, l) = SameCount-of t st same in
            let counted =
              polled_state-IsCounted s.enabled r (unreachable k.owner r.now s) k p.before
                (ground (arith, h, polls, n)) in
            (c, counted.1 ∙ ap some (l ∙ sym entry))
      ]
]

-- A database serves after a poll only if the poll before it listed the database too and read the
-- same entry of the owner, and no install of the database began or ended between the two, whatever
-- else hosts and installs asked for; before the first of them no database served or counted polls
-- while an install of it ran.
pub poll-IsConfirmed :
    (a b : PollRead) (rs : List Request) (k : OwnerDatabase) (s : Server) (st : DbState)
    → IsSettled s
    → contains k b.pairs ≡ true
    → lookup k (poll b (after_requests rs (poll a s))).dbs ≡ some st
    → st.serving ≡ true
    → (contains k a.pairs ≡ true) × (entry_of a k ≡ entry_of b k) × (any (is_hook k) rs ≡ false)
poll-IsConfirmed a b rs k s st x c e on =
    let first = poll a s in
    let between = after_requests rs first in
    let away = unreachable k.owner b.now between in
    let p = poll-leaves b k between c in
    let t = polled_state between.enabled b away k p.before in
    let same : t ≡ st = ground (arith, e, p.after) in
    let served : t.serving ≡ true = ap (λ (y : DbState). y.serving) same ∙ on in
    let servable = (polled_state-IsServable between.enabled b away k p.before served).0 in
    let twice : 2 ≤ t.polls = servable.confirmed in
    let counted =
      polled_state-IsCounted between.enabled b away k p.before (ground (arith, twice)) in
    let (more, last) = counted.2 twice in
    let at : p.before ≡ state_of k between = p.once (single-count b k servable.single) in
    let (polls, entry) = SameCount-of p.before (state_of k between) at in
    let ((n, l), quiet) = after_requests-counted k rs first (ground (arith, more, polls)) in
    let (listed, read) = poll-counted a k s x (ground (arith, more, polls, n)) in
    (listed, read ∙ ap some (sym l ∙ sym entry ∙ last) ∙ sym counted.1, quiet)
