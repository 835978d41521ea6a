-- ===== src/Serve/Polls.antt =====
-- A whole poll of member/serve/conditions.go.
use arbiter_core.Registry.{TableRegistrySnapshot, active_tables}
use arbiter_core.Serve.{OwnerDatabase, DbState, Server, sweep, owner_database_eq}
use arbiter_core.Serve.Hooks.{state_of}
use arbiter_core.Serve.Matched.{IsOwned, IsMatched, active_of-All}
use arbiter_core.Serve.Matching.{active_of}
use arbiter_core.Serve.Conditions.{
  PollRead, names_of, unreachable, note_entries, is_installing, is_quarantined, polled_state,
  put_state, poll_pairs, poll,
}
use arbiter_core.Serve.Polled.{IsServable, polled_state-IsServable, polled_state-reads}
use arbiter_core.Base.{
  refl, true, false, some, List, [], ◌∷◌, list_eq, nat_eq, list_ord, nat_ord, arith, ◌≡◌, ◌≢◌, ◌≤◌,
  ap, sym, ◌∙◌, All, inl, inr, Bool-cases, Option-cases, ≟_iff, count, contains, lookup, insert,
  keys, ◌||◌, lookup-insert, contains-count, values,
}
use arbiter_core.Serve.Frames.{
  IsFramed, forget_unlisted-listed, note_entries-IsNoted, put_state-IsFramed, state_of-same,
  sweep_over-IsFramed, unreachable-same,
}

-- The state that a poll of the server leaves of a pair.
abbrev pub polled : PollRead → OwnerDatabase → Server → DbState → DbState
polled r k s u = polled_state s.enabled r (unreachable k.owner r.now s) k u

polled-same :
    (r : PollRead) (k : OwnerDatabase) (u : DbState) (s t : Server)
    → t.owners ≡ s.owners
    → t.enabled ≡ s.enabled
    → t.owner_unreachable_after ≡ s.owner_unreachable_after
    → polled r k t u ≡ polled r k s u
polled-same r k u s t e f g =
    ap (λ b. polled_state b r (unreachable k.owner r.now t) k u) f
    ∙ ap (λ b. polled_state s.enabled r b k u) (unreachable-same k.owner r.now s t e g)

-- One more pair.
poll_pair-IsFramed :
    (r : PollRead) (k : OwnerDatabase) (s : Server)
    → IsFramed
        (insert k (polled r k s (state_of k s)) s.dbs)
        s
        (put_state r.now k (polled r k s (state_of k s)) s)
poll_pair-IsFramed r k s = put_state-IsFramed r.now k (polled r k s (state_of k s)) s

-- A pair that is not polled keeps its state.
pub poll_pairs-other :
    (r : PollRead) (k : OwnerDatabase) (ks : List OwnerDatabase) (s : Server)
    → contains k ks ≡ false
    → lookup k (poll_pairs r ks s).dbs ≡ lookup k s.dbs
unfolding poll_pairs contains
poll_pairs-other r k [] s h = refl
poll_pairs-other r k (j ∷ ks) s h =
    let st = polled r j s (state_of j s) in
    let f = poll_pair-IsFramed r j s in
    poll_pairs-other r k ks (put_state r.now j st s) (ground (arith, h))
    ∙ ap (lookup k) f.0
    ∙ ground (arith, h, lookup-insert j k st s.dbs)

-- What the poll leaves of a pair, and of which state.
pub record IsPolledPair (r : PollRead) (k : OwnerDatabase) (ks : List OwnerDatabase) (s t : Server)
    : Type 0 where
  pub before : DbState
  pub after : lookup k t.dbs ≡ some (polled r k s before)
  pub once : count k ks ≤ 1 → before ≡ state_of k s

poll_pairs-leaves :
    (r : PollRead) (k : OwnerDatabase) (ks : List OwnerDatabase) (s : Server)
    → contains k ks ≡ true
    → IsPolledPair r k ks s (poll_pairs r ks s)
unfolding poll_pairs contains count
poll_pairs-leaves r k [] s h = absurd cc
poll_pairs-leaves r k (j ∷ ks) s h =
    let st = polled r j s (state_of j s) in
    let next = put_state r.now j st s in
    let f = poll_pair-IsFramed r j s in
    elim (Bool-cases (contains k ks)) [
      | inl p ↦
          let there = poll_pairs-leaves r k ks next p in
          record {
            before = there.before;
            after = there.after ∙ ap some (polled-same r k there.before s next f.1 f.2 f.3);
            once = λ c.
                (there.once (ground (arith, c, p, contains-count k ks)))
                ∙ state_of-same k s next (
                    ap (lookup k) f.0
                    ∙ ground (arith, c, p, contains-count k ks, lookup-insert j k st s.dbs));
          }
      | inr p ↦
          let same : j ≡ k = ground (arith, h, p, ≟_iff j k) in
          record {
            before = state_of k s;
            after =
                poll_pairs-other r k ks next p
                ∙ ap (lookup k) f.0
                ∙ ground (arith, same, ≟_iff j k, lookup-insert j k st s.dbs)
                ∙ ap (λ i. some (polled r i s (state_of i s))) same;
            once = λ c. refl;
          }
    ]

count-names_of :
    (k : OwnerDatabase) (ks : List OwnerDatabase) → count k ks ≤ count k.database (names_of ks)
unfolding count
count-names_of k [] = omega arith
count-names_of k (j ∷ ks) = ground (
  arith,
  count-names_of k ks,
  ≟_iff j k,
  ≟_iff j.database k.database,
  ap (λ (i : OwnerDatabase). i.database),
)

-- What a poll leaves of a database that it lists.
pub poll-leaves :
    (r : PollRead) (k : OwnerDatabase) (s : Server)
    → contains k r.pairs ≡ true
    → IsPolledPair r k r.pairs s (poll r s)
unfolding poll sweep
poll-leaves r k s h =
    let swept = sweep r.now s in
    let f = sweep_over-IsFramed r.now (values s.by_id) s in
    let noted = note_entries r r.pairs swept in
    let n = note_entries-IsNoted r r.pairs swept in
    let t = poll_pairs r r.pairs noted in
    let p = poll_pairs-leaves r k r.pairs noted h in
    let away : unreachable k.owner r.now noted ≡ unreachable k.owner r.now s =
      n.2 k.owner ∙ unreachable-same k.owner r.now s swept f.1 f.3 in
    record {
      before = p.before;
      after =
          forget_unlisted-listed r k (keys t.dbs) t h
          ∙ p.after
          ∙ ap (λ b. some (polled_state b r (unreachable k.owner r.now noted) k p.before))
              (n.1 ∙ f.2)
          ∙ ap (λ b. some (polled_state s.enabled r b k p.before)) away;
      once = λ c. p.once c ∙ state_of-same k s noted (ap (lookup k) (n.0 ∙ f.0));
    }

-- The registry was read, and all Active tables of the database are the owner's and matched.
pub data IsRegistered (r : PollRead) (k : OwnerDatabase) (st : DbState) : Type 0 where
  registered_in :
      (snap : TableRegistrySnapshot)
      → r.registry ≡ some snap
      → All (IsOwned (IsMatched r.copy_table st.copy.tables) snap k) (active_tables snap)
      → IsRegistered r k st

registered :
    (r : PollRead) (k : OwnerDatabase) (st : DbState)
    → active_of r.registry k ≢ []
    → All (IsMatched r.copy_table st.copy.tables) (active_of r.registry k)
    → IsRegistered r k st
unfolding active_of
registered r k st n h = elim (Option-cases r.registry) [
  | inl e ↦ absurd (n (ap (λ o. active_of o k) e))
  | inr (snap, e) ↦
      let same = ap (λ o. active_of o k) e in
      let P = IsMatched r.copy_table st.copy.tables in
      registered_in snap e (active_of-All P snap k (λ q. n (same ∙ q)) (rw e at h))
]

pub single-count :
    (r : PollRead) (k : OwnerDatabase)
    → count k.database (names_of r.pairs) ≤ 1
    → count k r.pairs ≤ 1
single-count r k h = omega (arith, h, count-names_of k r.pairs)

-- A poll serves a database that it lists only under all the conditions that it read: serving is
-- switched on, one owner lists the database, no install of it ran or ended since the poll began, the
-- manifest's entry of the owner is the copy's and the counter of the polls that read it is at least
-- two, the owner is quarantined or unreachable, the copy's audits are clean, and the registry has
-- Active tables of the database, each of the owner and each with an installed copy of its
-- incarnation, schema hash and copy name.
pub poll-IsServable :
    (r : PollRead) (k : OwnerDatabase) (s : Server) (st : DbState)
    → contains k r.pairs ≡ true
    → lookup k (poll r s).dbs ≡ some st
    → st.serving ≡ true
    → IsServable s.enabled r k st
      × (is_installing r (state_of k s) ≡ false)
      × (r.read k ≡ some st.copy)
      × ((is_quarantined k.owner r.registry || unreachable k.owner r.now s) ≡ true)
      × IsRegistered r k st
poll-IsServable r k s st h e on =
    let p = poll-leaves r k s h in
    let same : polled r k s p.before ≡ st = ground (arith, e, p.after) in
    let away = unreachable k.owner r.now s in
    let served : (polled r k s p.before).serving ≡ true =
      ap (λ (u : DbState). u.serving) same ∙ on in
    let x = polled_state-IsServable s.enabled r away k p.before served in
    let reads = polled_state-reads s.enabled r away k p.before in
    let at : p.before ≡ state_of k s = p.once (single-count r k x.0.single) in
    rw (← same) (
      x.0,
      ap (is_installing r) (sym at) ∙ x.1,
      reads.2 x.0.held,
      ground (arith, x.0.owner_gone, reads.0, reads.1),
      registered r k (polled r k s p.before) x.0.some_table x.0.tables,
    )
