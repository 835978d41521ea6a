-- ===== src/Serve/Serving.antt =====
-- When a poll of member/serve/conditions.go serves a database.
use arbiter_core.Serve.{
  OwnerDatabase, DbState, Server, TableCopy, TableCondition, installed_table, foreign_table,
  diverged_table, excluded_table, owner_database_eq, TrackFrontier, DatabaseCopy,
}
use arbiter_core.Serve.Hooks.{state_of}
use arbiter_core.Serve.Matching.{
  Match, Verdict, serves, refused_for, is_served, is_current, match_of, match_copy, foreign_found,
  diverged_found, excluded_found, missing_found, served_of, match_active, active_of,
}
use arbiter_core.Serve.Matched.{IsMatched}
use arbiter_core.Serve.Conditions.{
  PollRead, entry_of, is_duplicate, matched, evaluate, unreachable, is_installing, seen_state,
  set_serving, polled_state, poll, track_frontier_eq, counted, is_quarantined, names_of, with_copy,
}
use arbiter_core.Serve.Polled.{
  IsServable, polled_state-IsServable, polled_state-reads, polled_state-IsCounted,
}
use arbiter_core.Serve.Polls.{poll-leaves, single-count}
use arbiter_core.Registry.{TableIncarnation, incarnation_key}
use arbiter_core.Base.{
  ℕ, refl, Bool, true, false, Option, none, some, List, [], ◌∷◌, Bytes, list_eq, nat_eq, list_ord,
  nat_ord, arith, ◌≡◌, ◌≢◌, ◌↔◌, ap, sym, ◌∙◌, All, any, map, ≟_iff, ltb, contains, lookup, not,
  ◌||◌, ◌&&◌, if◌then◌else◌, count, ◌+◌, ◌<◌, ◌≟◌, ◌≤◌,
}

match_of-served :
    (copy_table : Bytes → ℕ → Bytes) (inc : TableIncarnation) (t : TableCopy) (c : TableCondition)
    → c ≡ installed_table
    → is_current copy_table inc t ≡ true
    → match_of copy_table inc t c ≡ is_served t
match_of-served copy_table inc t foreign_table e h = absurd cc
match_of-served copy_table inc t diverged_table e h = absurd cc
match_of-served copy_table inc t excluded_table e h = absurd cc
match_of-served copy_table inc t installed_table e h = ground (arith, h)

match_copy-served :
    (copy_table : Bytes → ℕ → Bytes) (tables : List TableCopy) (inc : TableIncarnation)
    → (m : IsMatched copy_table tables inc) → match_copy copy_table tables inc ≡ is_served m.found
unfolding match_copy
match_copy-served copy_table tables inc m =
    let t = m.found in
    let current : is_current copy_table inc t ≡ true = ground (
      arith,
      (≟_iff t.schema_hash inc.schema_hash).1 m.schema,
      (≟_iff t.copy_table (copy_table (incarnation_key inc) inc.seq)).1 m.name,
    ) in
    ground (arith, m.at, match_of-served copy_table inc t t.condition m.ready current)

any-served :
    (f : Match → Bool) (copy_table : Bytes → ℕ → Bytes) (tables : List TableCopy)
    → (incs : List TableIncarnation) → ((t : TableCopy) → f (is_served t) ≡ false)
    → All (IsMatched copy_table tables) incs
    → any f (map (match_copy copy_table tables) incs) ≡ false
any-served f copy_table tables [] n h = refl
any-served f copy_table tables (inc ∷ incs) n h =
    let here : f (match_copy copy_table tables inc) ≡ false =
      ap f (match_copy-served copy_table tables inc h.0) ∙ n h.0.found in
    ground (arith, here, any-served f copy_table tables incs n h.1)

-- A guard that does not refuse.
if_passed : (b : Bool) (v w : Verdict) → b ≡ false → (if b then v else w) ≡ w
if_passed b v w h = ground (arith, h)

match_active-serves :
    (copy_table : Bytes → ℕ → Bytes) (tables : List TableCopy) (incs : List TableIncarnation)
    → incs ≢ []
    → All (IsMatched copy_table tables) incs
    → (ts : List TableCopy) × (match_active copy_table tables incs ≡ serves ts)
unfolding match_active
match_active-serves copy_table tables [] n h = absurd (n refl)
match_active-serves copy_table tables (inc ∷ incs) n h =
    let found = map (match_copy copy_table tables) (inc ∷ incs) in
    let f = any-served foreign_found copy_table tables (inc ∷ incs) (λ t. refl) h in
    let d = any-served diverged_found copy_table tables (inc ∷ incs) (λ t. refl) h in
    let x = any-served excluded_found copy_table tables (inc ∷ incs) (λ t. refl) h in
    let m = any-served missing_found copy_table tables (inc ∷ incs) (λ t. refl) h in
    (served_of found, if_passed _ _ _ f ∙ if_passed _ _ _ d ∙ if_passed _ _ _ x ∙ if_passed _ _ _ m)

matched-passed :
    (e : TrackFrontier) (st : DbState) (v : Verdict) (ts : List TableCopy)
    → st.copy.entry ≡ e
    → v ≡ serves ts
    → matched e st v ≡ serves ts
matched-passed e st (refused_for reason) ts h g = absurd cc
matched-passed e st (serves tables) ts h g = ground (arith, g, (≟_iff st.copy.entry e).1 h)

evaluate-serves :
    (enabled : Bool) (r : PollRead) (k : OwnerDatabase) (st : DbState)
    (entry : Option TrackFrontier)
    → (c : IsServable enabled r k st) → entry ≡ some c.entry
    → (ts : List TableCopy) × (evaluate enabled r k false entry st ≡ serves ts)
unfolding evaluate
evaluate-serves enabled r k st none c h = absurd cc
evaluate-serves enabled r k st (some e) c h =
    let same : e ≡ c.entry = ground (arith, h) in
    let (ts, served) =
      match_active-serves r.copy_table st.copy.tables (active_of r.registry k) c.some_table
        c.tables in
    (
      ts,
      if_passed (not enabled) _ _ (ap not c.switched_on)
          ∙ if_passed (not st.quarantine && not st.unreach) _ _ (ground (arith, c.owner_gone))
          ∙ if_passed (ltb st.polls 2) _ _ (ground (arith, c.confirmed))
          ∙ if_passed (is_duplicate r k || not st.have_copy) _ _ (ground (arith, c.single, c.held))
          ∙ if_passed (not st.copy.audit_clean) _ _ (ap not c.clean)
          ∙ matched-passed e st (match_active r.copy_table st.copy.tables (active_of r.registry k))
              ts (c.equal ∙ sym same) served,
    )

same_some {ℓ} : {A : Type ℓ} {a b : A} → some a ≡ some b → a ≡ b
same_some h = cc

either_same : {a b c d : Bool} → a ≡ c → b ≡ d → (a || b) ≡ (c || d)
either_same h g = cc

-- What a poll serves a database for, all as it was read or as it was before the poll.
pub record IsFit (r : PollRead) (k : OwnerDatabase) (s : Server) : Type 0 where
  pub entry : TrackFrontier
  pub copy : DatabaseCopy
  pub switched_on : s.enabled ≡ true
  pub idle : is_installing r (state_of k s) ≡ false
  pub published : entry_of r k ≡ some entry
  pub owner_gone : (is_quarantined k.owner r.registry || unreachable k.owner r.now s) ≡ true
  pub read_before : 0 < (state_of k s).polls
  pub same_entry : (state_of k s).last_entry ≡ entry
  pub single : count k.database (names_of r.pairs) ≤ 1
  pub held : r.read k ≡ some copy
  pub clean : copy.audit_clean ≡ true
  pub equal : copy.entry ≡ entry
  pub some_table : active_of r.registry k ≢ []
  pub tables : All (IsMatched r.copy_table copy.tables) (active_of r.registry k)

-- The state that a poll of the server leaves of a pair that it finds as it is.
abbrev polled_from : PollRead → OwnerDatabase → Server → DbState
polled_from r k s = polled_state s.enabled r (unreachable k.owner r.now s) k (state_of k s)

counted_again :
    (e : TrackFrontier) (u : DbState)
    → 0 < u.polls
    → u.last_entry ≡ e
    → counted false (some e) u ≡ record u { polls = u.polls + 1 }
unfolding counted
counted_again e u h g =
    let on : (ltb 0 u.polls && (u.last_entry ≟ e)) ≡ true =
      ground (arith, h, (≟_iff u.last_entry e).1 g) in
    rw on refl

-- What the poll sees, from what it read.
seen_state-fit :
    (r : PollRead) (k : OwnerDatabase) (s : Server) (c : IsFit r k s) (away : Bool)
    → let st = state_of k s in
      seen_state r away k st ≡ record st {
        copy = c.copy;
        have_copy = true;
        polls = st.polls + 1;
        quarantine = is_quarantined k.owner r.registry;
        unreach = away;
      }
unfolding seen_state
seen_state-fit r k s c away =
    let st = state_of k s in
    let u = with_copy (r.read k) st in
    let seen = λ (d : DbState). record d {
      quarantine = is_quarantined k.owner r.registry;
      unreach = away;
    } in
    let v : DbState = record st { copy = c.copy; have_copy = true } in
    ap (λ b. seen (counted b (entry_of r k) u)) c.idle
    ∙ ap (λ o. seen (counted false o u)) c.published
    ∙ ap (λ o. seen (counted false (some c.entry) (with_copy o st))) c.held
    ∙ ap seen (counted_again c.entry v c.read_before c.same_entry)

fit_state-IsServable :
    (r : PollRead) (k : OwnerDatabase) (s : Server)
    → IsFit r k s
    → IsServable s.enabled r k (seen_state r (unreachable k.owner r.now s) k (state_of k s))
fit_state-IsServable r k s c = rw (seen_state-fit r k s c (unreachable k.owner r.now s)) record {
  entry = c.entry;
  switched_on = c.switched_on;
  published = c.published;
  owner_gone = c.owner_gone;
  confirmed = omega (arith, c.read_before);
  single = c.single;
  held = refl;
  clean = c.clean;
  equal = c.equal;
  some_table = c.some_table;
  tables = c.tables;
}

polled_from-serves :
    (r : PollRead) (k : OwnerDatabase) (s : Server)
    → IsFit r k s
    → (polled_from r k s).serving ≡ true
unfolding polled_state set_serving
polled_from-serves r k s c =
    let seen = seen_state r (unreachable k.owner r.now s) k (state_of k s) in
    let v = evaluate s.enabled r k (is_installing r (state_of k s)) (entry_of r k) seen in
    let own = fit_state-IsServable r k s c in
    let (ts, e) = evaluate-serves s.enabled r k seen (entry_of r k) own own.published in
    let served : v ≡ serves ts =
      ap (λ b. evaluate s.enabled r k b (entry_of r k) seen) c.idle ∙ e in
    ap (λ w. (set_serving w seen).serving) served

polled_from-IsFit :
    (r : PollRead) (k : OwnerDatabase) (s : Server)
    → (polled_from r k s).serving ≡ true
    → IsFit r k s
polled_from-IsFit r k s on =
    let away = unreachable k.owner r.now s in
    let st = state_of k s in
    let t = polled_from r k s in
    let (c, idle) = polled_state-IsServable s.enabled r away k st on in
    let reads = polled_state-reads s.enabled r away k st in
    let counts = polled_state-IsCounted s.enabled r away k st (omega (arith, c.confirmed)) in
    let twice = counts.2 c.confirmed in
    record {
      entry = c.entry;
      copy = t.copy;
      switched_on = c.switched_on;
      idle = idle;
      published = c.published;
      owner_gone = sym (either_same reads.0 reads.1) ∙ c.owner_gone;
      read_before = twice.0;
      same_entry = twice.1 ∙ same_some (sym counts.1 ∙ c.published);
      single = c.single;
      held = reads.2 c.held;
      clean = c.clean;
      equal = c.equal;
      some_table = c.some_table;
      tables = c.tables;
    }

-- A poll serves a database that it lists exactly when, of what it read: serving is switched on; no
-- install of it ran or ended since the poll began; the owner's entry was read, and the state before
-- the poll has counted a poll that read the same entry; the owner is quarantined in the registry or
-- unreachable; one owner lists the database; the copy was read, its audits are clean and its entry
-- is that entry; and there are Active tables of the database, each with an installed copy of its
-- incarnation, schema hash and copy name.
pub poll-serves_iff :
    (r : PollRead) (k : OwnerDatabase) (s : Server) (st : DbState)
    → contains k r.pairs ≡ true
    → lookup k (poll r s).dbs ≡ some st
    → (st.serving ≡ true) ↔ IsFit r k s
poll-serves_iff r k s st h e =
    let p = poll-leaves r k s h in
    let away = unreachable k.owner r.now s in
    let same : polled_state s.enabled r away k p.before ≡ st = ground (arith, e, p.after) in
    let once : (count k.database (names_of r.pairs) ≤ 1) → polled_from r k s ≡ st =
      λ one. ap (polled_state s.enabled r away k) (sym (p.once (single-count r k one))) ∙ same in
    (
      λ on.
          let x =
            polled_state-IsServable s.enabled r away k p.before
              (ap (λ (y : DbState). y.serving) same ∙ on) in
          polled_from-IsFit r k s (ap (λ (y : DbState). y.serving) (once x.0.single) ∙ on),
      λ c. ap (λ (y : DbState). y.serving) (sym (once c.single)) ∙ polled_from-serves r k s c,
    )
