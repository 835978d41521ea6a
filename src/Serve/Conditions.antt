-- ===== src/Serve/Conditions.antt =====
-- The serving conditions of member/serve/conditions.go, and the probes of owners of probe.go.
-- Metrics, the log and the text of the last feed error are left out.
use arbiter_core.Serve.Matching.{Verdict, refused_for, match_active, serves, active_of}
use arbiter_core.Serve.{
  OwnerDatabase, DbState, OwnerState, Server, TrackFrontier, DatabaseCopy, Reason, sweep,
  owner_database_eq, table_missing, owner_available, entry_unconfirmed, copy_behind, audit_unclean,
  table_foreign, table_diverged, table_excluded, serving_disabled, feed_unavailable,
  install_running, copy_behind, serving_disabled, table_foreign, install_running, table_diverged,
  feed_unavailable, table_excluded, owner_available, entry_unconfirmed, audit_unclean, Lease,
}
use arbiter_core.Serve.Hooks.{state_of, revoke_lease, lease_of, no_copy}
use arbiter_core.Registry.{TableRegistrySnapshot}
use arbiter_core.Base.{
  ℕ, Bool, true, false, Option, none, some, List, [], ◌∷◌, Bytes, ◌≟◌, list_eq, nat_eq, list_ord,
  nat_ord, Eq, ltb, leb, ◌==◌, if◌then◌else◌, lookup, insert, delete, keys, contains, count, length,
  not, ◌+◌, ◌-◌, ◌&&◌, ◌||◌, arith, ◌≡◌, ◌↔◌,
}

unfoldable pub track_frontier_beq : TrackFrontier → TrackFrontier → Bool
track_frontier_beq a b =
    a.indexer_id == b.indexer_id
    && a.safe_block_seq == b.safe_block_seq
    && a.applied_promotion_seq == b.applied_promotion_seq

pub track_frontier_beq_iff : (a b : TrackFrontier) → (track_frontier_beq a b ≡ true) ↔ (a ≡ b)
unfolding track_frontier_beq
track_frontier_beq_iff a b = ground arith

instance abbrev pub track_frontier_eq : Eq TrackFrontier
track_frontier_eq = record { beq = track_frontier_beq; beq_iff = track_frontier_beq_iff }

-- What a poll read before it took the mutex: the epoch before its reads, the clock after them, the
-- registry unless it is off, replay.OwnerEntry of the manifest unless it was not read, the copies
-- the member holds and each of them. `copy_table` is sitable.CopyTable.
pub record PollRead : Type 0 where
  pub start_epoch : ℕ
  pub now : ℕ
  pub registry : Option TableRegistrySnapshot
  pub feed : Option (ℕ → Option TrackFrontier)
  pub pairs : List OwnerDatabase
  pub read : OwnerDatabase → Option DatabaseCopy
  pub copy_table : Bytes → ℕ → Bytes

abbrev pub entry_of : PollRead → OwnerDatabase → Option TrackFrontier
entry_of r k = elim r.feed [ none ↦ none | some entries ↦ entries k.owner ]

abbrev pub names_of : List OwnerDatabase → List Bytes
names_of [] = []
names_of (k ∷ ks) = k.database ∷ names_of ks

-- Two owners list the database.
abbrev pub is_duplicate : PollRead → OwnerDatabase → Bool
is_duplicate r k = ltb 1 (count k.database (names_of r.pairs))

-- A missing table counts after a copy that is behind, the other reasons before.
abbrev pub or_behind : Bool → Reason → Reason
or_behind behind table_missing = if behind then copy_behind else table_missing
or_behind behind owner_available = owner_available
or_behind behind entry_unconfirmed = entry_unconfirmed
or_behind behind copy_behind = copy_behind
or_behind behind audit_unclean = audit_unclean
or_behind behind table_foreign = table_foreign
or_behind behind table_diverged = table_diverged
or_behind behind table_excluded = table_excluded
or_behind behind serving_disabled = serving_disabled
or_behind behind feed_unavailable = feed_unavailable
or_behind behind install_running = install_running

-- The end of evaluateLocked, from the matched tables on.
abbrev pub matched : TrackFrontier → DbState → Verdict → Verdict
matched e st (refused_for reason) = refused_for (or_behind (not (st.copy.entry ≟ e)) reason)
matched e st (serves tables) =
    if not (st.copy.entry ≟ e) then refused_for copy_behind else serves tables

-- evaluateLocked.
unfoldable pub evaluate :
    Bool → PollRead → OwnerDatabase → Bool → Option TrackFrontier → DbState → Verdict
evaluate enabled r k installing entry st =
    if not enabled
    then refused_for serving_disabled
    else if installing
    then refused_for install_running
    else elim entry [
      | none ↦ refused_for feed_unavailable
      | some e ↦
          if not st.quarantine && not st.unreach
          then refused_for owner_available
          else if ltb st.polls 2
          then refused_for entry_unconfirmed
          else if is_duplicate r k || not st.have_copy
          then refused_for table_missing
          else if not st.copy.audit_clean
          then refused_for audit_unclean
          else matched e st (match_active r.copy_table st.copy.tables (active_of r.registry k))
    ]

abbrev pub away_since : ℕ → ℕ → OwnerState → Option ℕ → Bool
away_since after now o none = false
away_since after now o (some since) = ltb 0 (length o.addr) && leb after (now - since)

abbrev pub away_of : ℕ → ℕ → Option OwnerState → Bool
away_of after now none = false
away_of after now (some o) = away_since after now o o.first_failure

-- unreachableLocked; Config.validate keeps `owner_unreachable_after` above 0, so a clock that went
-- back counts as no time here as in the source.
unfoldable pub unreachable : ℕ → ℕ → Server → Bool
unreachable owner now s = away_of s.owner_unreachable_after now (lookup owner s.owners)

abbrev pub new_owner : OwnerState
new_owner = record { addr = []; first_failure = none; entry = none }

-- ownerLocked.
unfoldable pub owner_state : ℕ → Server → OwnerState
owner_state owner s = elim (lookup owner s.owners) [ none ↦ new_owner | some o ↦ o ]

abbrev pub probed : Bool → ℕ → Option ℕ → Option ℕ
probed true now since = none
probed false now none = some now
probed false now (some since) = some since

-- recordProbe.
unfoldable pub record_probe : ℕ → Bool → ℕ → Server → Server
record_probe owner reached now s =
    let o = owner_state owner s in
    record s {
      owners =
          insert owner (record o { first_failure = probed reached now o.first_failure }) s.owners;
    }

abbrev pub is_entry : TrackFrontier → Option (TrackFrontier × ℕ) → Bool
is_entry e none = false
is_entry e (some (f, since)) = f ≟ e

-- The entry of an owner and since when it is the same.
abbrev pub note_entry : ℕ → ℕ → Server → Option TrackFrontier → Server
note_entry now owner s none = s
note_entry now owner s (some e) =
    let o = owner_state owner s in
    if is_entry e o.entry
    then s
    else record s { owners = insert owner (record o { entry = some (e, now) }) s.owners }

-- The loop over the owners of the pairs. An owner that comes again changes nothing.
unfoldable pub note_entries : PollRead → List OwnerDatabase → Server → Server
note_entries r [] s = s
note_entries r (k ∷ ks) s = note_entries r ks (note_entry r.now k.owner s (entry_of r k))

abbrev pub is_installing : PollRead → DbState → Bool
is_installing r st = ltb 0 st.installing || ltb r.start_epoch st.installed

-- The polls that read the entry, and the entry.
unfoldable pub counted : Bool → Option TrackFrontier → DbState → DbState
counted installing none st = record st { polls = 0 }
counted installing (some e) st =
    if installing
    then record st { polls = 0 }
    else if ltb 0 st.polls && (st.last_entry ≟ e)
    then record st { polls = st.polls + 1 }
    else record st { last_entry = e; polls = 1 }

abbrev pub with_copy : Option DatabaseCopy → DbState → DbState
with_copy none st = record st { copy = no_copy; have_copy = false }
with_copy (some c) st = record st { copy = c; have_copy = true }

abbrev pub is_quarantined : ℕ → Option TableRegistrySnapshot → Bool
is_quarantined owner none = false
is_quarantined owner (some s) = contains owner s.quarantined_indexers

-- The state of a pair before its verdict; `away` is unreachableLocked.
unfoldable pub seen_state : PollRead → Bool → OwnerDatabase → DbState → DbState
seen_state r away k st =
    let c = counted (is_installing r st) (entry_of r k) (with_copy (r.read k) st) in
    record c { quarantine = is_quarantined k.owner r.registry; unreach = away }

-- setServingLocked, of the state.
unfoldable pub set_serving : Verdict → DbState → DbState
set_serving (refused_for reason) st = record st {
  serving = false;
  reason = some reason;
  served = [];
}
set_serving (serves tables) st = record st { serving = true; reason = none; served = tables }

-- The state that a poll leaves of a pair.
unfoldable pub polled_state : Bool → PollRead → Bool → OwnerDatabase → DbState → DbState
polled_state enabled r away k st =
    let seen = seen_state r away k st in
    set_serving (evaluate enabled r k (is_installing r st) (entry_of r k) seen) seen

-- The lease of the database, if it is the owner's, is revoked.
abbrev pub revoke_found : ℕ → OwnerDatabase → Server → Option Lease → Server
revoke_found now k s none = s
revoke_found now k s (some l) = if l.owner == k.owner then revoke_lease now l s else s

unfoldable pub revoke_owned : ℕ → OwnerDatabase → Server → Server
revoke_owned now k s = revoke_found now k s (lease_of k.database s)

-- setServingLocked, of the server.
unfoldable pub put_state : ℕ → OwnerDatabase → DbState → Server → Server
put_state now k st s =
    let t = record s { dbs = insert k st s.dbs } in if st.serving then t else revoke_owned now k t

unfoldable pub poll_pairs : PollRead → List OwnerDatabase → Server → Server
poll_pairs r [] s = s
poll_pairs r (k ∷ ks) s =
    poll_pairs r ks (
      put_state r.now k (polled_state s.enabled r (unreachable k.owner r.now s) k (state_of k s)) s)

-- A database that the member holds no copy of any more, unless an install of it runs.
unfoldable pub forget_one : PollRead → OwnerDatabase → Server → Server
forget_one r k s =
    let revoked = revoke_owned r.now k s in
    if contains k r.pairs || ltb 0 (state_of k s).installing
    then s
    else record revoked { dbs = delete k revoked.dbs }

-- The last loop of poll.
unfoldable pub forget_unlisted : PollRead → List OwnerDatabase → Server → Server
forget_unlisted r [] s = s
forget_unlisted r (k ∷ ks) s = forget_unlisted r ks (forget_one r k s)

-- poll, once it has the mutex; a poll whose context ended during its reads does nothing.
unfoldable pub poll : PollRead → Server → Server
poll r s =
    let t = poll_pairs r r.pairs (note_entries r r.pairs (sweep r.now s)) in
    forget_unlisted r (keys t.dbs) t
