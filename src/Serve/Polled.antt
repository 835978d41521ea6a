-- ===== src/Serve/Polled.antt =====
-- What a poll of member/serve/conditions.go leaves of a database.
use arbiter_core.Serve.{
  OwnerDatabase, DbState, TrackFrontier, DatabaseCopy, TableCopy, owner_database_eq, Reason,
}
use arbiter_core.Serve.Matching.{Verdict, serves, refused_for, match_active, active_of}
use arbiter_core.Serve.Matched.{IsMatched, match_active-All}
use arbiter_core.Serve.Conditions.{
  PollRead, entry_of, names_of, is_duplicate, matched, evaluate, is_installing, counted, with_copy,
  is_quarantined, seen_state, set_serving, polled_state, track_frontier_eq,
}
use arbiter_core.Base.{
  refl, Bool, true, false, Option, none, some, List, [], ◌≟◌, list_eq, nat_eq, list_ord, nat_ord,
  arith, ◌≡◌, ◌≢◌, ◌≤◌, ap, sym, ◌∙◌, All, inl, inr, Bool-cases, ≟_iff, ltb, count, not, ◌||◌, ◌&&◌,
  if◌then◌else◌, ◌<◌,
}

-- The conditions under which a database is served, as the poll read them.
pub record IsServable (enabled : Bool) (r : PollRead) (k : OwnerDatabase) (st : DbState)
    : Type 0 where
  pub entry : TrackFrontier
  pub switched_on : enabled ≡ true
  pub published : entry_of r k ≡ some entry
  pub owner_gone : (st.quarantine || st.unreach) ≡ true
  pub confirmed : 2 ≤ st.polls
  pub single : count k.database (names_of r.pairs) ≤ 1
  pub held : st.have_copy ≡ true
  pub clean : st.copy.audit_clean ≡ true
  pub equal : st.copy.entry ≡ entry
  pub some_table : active_of r.registry k ≢ []
  pub tables : All (IsMatched r.copy_table st.copy.tables) (active_of r.registry k)

matched-serves :
    (e : TrackFrontier) (st : DbState) (v : Verdict) (ts : List TableCopy)
    → matched e st v ≡ serves ts
    → (st.copy.entry ≡ e) × (v ≡ serves ts)
matched-serves e st (refused_for reason) ts h = cc
matched-serves e st (serves tables) ts h = ground (arith, h, ≟_iff st.copy.entry e)

refused_serves : (reason : Reason) (ts : List TableCopy) → refused_for reason ≢ serves ts
refused_serves reason ts h = cc

is_on : (b : Bool) → not b ≡ false → b ≡ true
is_on b h = ground (arith, h)

one_of : (a b : Bool) → (not a && not b) ≡ false → (a || b) ≡ true
one_of a b h = ground (arith, h)

-- A guard that refuses.
if_refused :
    (b : Bool) (reason : Reason) (v : Verdict) (ts : List TableCopy)
    → (if b then refused_for reason else v) ≡ serves ts
    → (b ≡ false) × (v ≡ serves ts)
if_refused true reason v ts h = absurd cc
if_refused false reason v ts h = (refl, h)

-- It serves only under all conditions.
evaluate-IsServable :
    (enabled : Bool) (r : PollRead) (k : OwnerDatabase) (installing : Bool) (st : DbState)
    → (ts : List TableCopy) (entry : Option TrackFrontier) → entry_of r k ≡ entry
    → evaluate enabled r k installing entry st ≡ serves ts
    → IsServable enabled r k st × (installing ≡ false)
unfolding evaluate
evaluate-IsServable enabled r k installing st ts none e h =
    let on = if_refused (not enabled) _ _ ts h in
    let idle = if_refused installing _ _ ts on.1 in absurd (refused_serves _ ts idle.1)
evaluate-IsServable enabled r k installing st ts (some f) e h =
    let on = if_refused (not enabled) _ _ ts h in
    let idle = if_refused installing _ _ ts on.1 in
    let gone = if_refused (not st.quarantine && not st.unreach) _ _ ts idle.1 in
    let twice = if_refused (ltb st.polls 2) _ _ ts gone.1 in
    let one = if_refused (is_duplicate r k || not st.have_copy) _ _ ts twice.1 in
    let clean = if_refused (not st.copy.audit_clean) _ _ ts one.1 in
    let active = active_of r.registry k in
    let m = matched-serves f st (match_active r.copy_table st.copy.tables active) ts clean.1 in
    let every = match_active-All r.copy_table st.copy.tables active ts m.1 in
    (
      record {
        entry = f;
        switched_on = is_on enabled on.0;
        published = e;
        owner_gone = one_of st.quarantine st.unreach gone.0;
        confirmed = ground (arith, twice.0);
        single = ground (arith, one.0);
        held = ground (arith, one.0);
        clean = is_on st.copy.audit_clean clean.0;
        equal = m.0;
        some_table = every.0;
        tables = every.1;
      },
      idle.0,
    )

set_serving-cases :
    (v : Verdict) (st : DbState)
    → (set_serving v st).serving ≡ true
    → (ts : List TableCopy) × (v ≡ serves ts)
      × (set_serving v st ≡ record st { serving = true; reason = none; served = ts })
unfolding set_serving
set_serving-cases (refused_for reason) st h = cc
set_serving-cases (serves ts) st h = (ts, refl, refl)

served_state-IsServable :
    (enabled : Bool) (r : PollRead) (k : OwnerDatabase) (ts : List TableCopy) (st : DbState)
    → IsServable enabled r k st
    → IsServable enabled r k (record st { serving = true; reason = none; served = ts })
served_state-IsServable enabled r k ts st c = record {
  entry = c.entry;
  switched_on = c.switched_on;
  published = c.published;
  owner_gone = c.owner_gone;
  confirmed = c.confirmed;
  single = c.single;
  held = c.held;
  clean = c.clean;
  equal = c.equal;
  some_table = c.some_table;
  tables = c.tables;
}

-- A pair's state serves only under all conditions.
pub polled_state-IsServable :
    (enabled : Bool) (r : PollRead) (away : Bool) (k : OwnerDatabase) (st : DbState)
    → (polled_state enabled r away k st).serving ≡ true
    → IsServable enabled r k (polled_state enabled r away k st) × (is_installing r st ≡ false)
unfolding polled_state
polled_state-IsServable enabled r away k st h =
    let seen = seen_state r away k st in
    let v = evaluate enabled r k (is_installing r st) (entry_of r k) seen in
    let (ts, e, f) = set_serving-cases v seen h in
    let x = evaluate-IsServable enabled r k (is_installing r st) seen ts (entry_of r k) refl e in
    (rw f (served_state-IsServable enabled r k ts seen x.0), x.1)

-- What a verdict and the counter leave alone.
abbrev SameReads : DbState → DbState → Type 0
SameReads t u =
    (t.quarantine ≡ u.quarantine)
    × (t.unreach ≡ u.unreach)
    × (t.have_copy ≡ u.have_copy)
    × (t.copy ≡ u.copy)
    × (t.installing ≡ u.installing)

set_serving-SameReads : (v : Verdict) (u : DbState) → SameReads (set_serving v u) u
unfolding set_serving
set_serving-SameReads (refused_for reason) u = (refl, refl, refl, refl, refl)
set_serving-SameReads (serves ts) u = (refl, refl, refl, refl, refl)

counted-SameReads :
    (installing : Bool) (entry : Option TrackFrontier) (u : DbState)
    → SameReads (counted installing entry u) u
unfolding counted
counted-SameReads installing none u = (refl, refl, refl, refl, refl)
counted-SameReads true (some e) u = (refl, refl, refl, refl, refl)
counted-SameReads false (some e) u = elim (Bool-cases (ltb 0 u.polls && (u.last_entry ≟ e))) [
  | inl p ↦ rw p (refl, refl, refl, refl, refl)
  | inr p ↦ rw p (refl, refl, refl, refl, refl)
]

with_copy-read :
    (c : Option DatabaseCopy) (u : DbState)
    → ((with_copy c u).have_copy ≡ true → c ≡ some (with_copy c u).copy)
      × ((with_copy c u).installing ≡ u.installing)
with_copy-read none u = (λ h. cc, refl)
with_copy-read (some c) u = (λ h. refl, refl)

-- What it copies from the reads.
pub polled_state-reads :
    (enabled : Bool) (r : PollRead) (away : Bool) (k : OwnerDatabase) (st : DbState)
    → let t = polled_state enabled r away k st in
      (t.quarantine ≡ is_quarantined k.owner r.registry)
      × (t.unreach ≡ away)
      × (t.have_copy ≡ true → r.read k ≡ some t.copy)
      × (t.installing ≡ st.installing)
unfolding polled_state seen_state
polled_state-reads enabled r away k st =
    let seen = seen_state r away k st in
    let v = evaluate enabled r k (is_installing r st) (entry_of r k) seen in
    let (q, u, hc, c, i) = set_serving-SameReads v seen in
    let held = with_copy (r.read k) st in
    let (q2, u2, hc2, c2, i2) = counted-SameReads (is_installing r st) (entry_of r k) held in
    let w = with_copy-read (r.read k) st in
    (q, u, λ h. w.0 (sym (hc ∙ hc2) ∙ h) ∙ ap some (sym (c ∙ c2)), i ∙ i2 ∙ w.1)

-- What a counter above zero says, of the entry and of the state before.
abbrev IsCounted : Bool → Option TrackFrontier → DbState → DbState → Type 0
IsCounted installing entry u t =
    (installing ≡ false)
    × (entry ≡ some t.last_entry)
    × (2 ≤ t.polls → (0 < u.polls) × (u.last_entry ≡ t.last_entry))

counted-IsCounted :
    (installing : Bool) (entry : Option TrackFrontier) (u : DbState)
    → 0 < (counted installing entry u).polls
    → IsCounted installing entry u (counted installing entry u)
unfolding counted
counted-IsCounted installing none u h = absurd (ground (arith, h))
counted-IsCounted true (some e) u h = absurd (ground (arith, h))
counted-IsCounted false (some e) u h = elim (Bool-cases (ltb 0 u.polls && (u.last_entry ≟ e))) [
  | inl p ↦
      let same : u.last_entry ≡ e = ground (arith, p, ≟_iff u.last_entry e) in
      rw p (refl, ap some (sym same), λ q. (ground (arith, p), refl))
  | inr p ↦ rw p (refl, refl, λ q. absurd (omega (arith, q)))
]

abbrev SameCount : DbState → DbState → Type 0
SameCount t u = (t.polls ≡ u.polls) × (t.last_entry ≡ u.last_entry)

set_serving-SameCount : (v : Verdict) (u : DbState) → SameCount (set_serving v u) u
unfolding set_serving
set_serving-SameCount (refused_for reason) u = (refl, refl)
set_serving-SameCount (serves ts) u = (refl, refl)

with_copy-SameCount : (c : Option DatabaseCopy) (u : DbState) → SameCount (with_copy c u) u
with_copy-SameCount none u = (refl, refl)
with_copy-SameCount (some c) u = (refl, refl)

pub polled_state-IsCounted :
    (enabled : Bool) (r : PollRead) (away : Bool) (k : OwnerDatabase) (st : DbState)
    → 0 < (polled_state enabled r away k st).polls
    → IsCounted (is_installing r st) (entry_of r k) st (polled_state enabled r away k st)
unfolding polled_state seen_state
polled_state-IsCounted enabled r away k st h =
    let seen = seen_state r away k st in
    let held = with_copy (r.read k) st in
    let (p, e) =
      set_serving-SameCount (evaluate enabled r k (is_installing r st) (entry_of r k) seen) seen in
    let (p2, e2) = with_copy-SameCount (r.read k) st in
    let (idle, read, more) =
      counted-IsCounted (is_installing r st) (entry_of r k) held (ground (arith, h, p)) in
    (
      idle,
      read ∙ ap some (sym e),
      λ q. let m = more (ground (arith, q, p)) in (ground (arith, m.0, p2), sym e2 ∙ m.1 ∙ sym e),
    )
