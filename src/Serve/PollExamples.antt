-- ===== src/Serve/PollExamples.antt =====
-- A database that comes to be served after two polls of member/serve/conditions.go, and the theorems
-- on it.
use arbiter_core.Serve.Matching.{
  match_active, match_copy, find_copy, served_of, active_of, sort_by_key, insert_by_key,
  owned_tables,
}
use arbiter_core.Serve.Hooks.{state_of, lease_of}
use arbiter_core.Registry.{
  TableIncarnation, TableRegistrySnapshot, chain, active, active_tables, manifest_owner,
  newest_owner, owner_of, table_key,
}
use arbiter_core.Serve.{
  OwnerDatabase, DbState, Server, Lease, TrackFrontier, TableCopy, DatabaseCopy, installed_table,
  acquire, sweep, sweep_over, record_leases, records_of, named_states, end_held, put_lease, grant,
  renew, owner_database_eq, owner_database_beq,
}
use arbiter_core.Serve.Requests.{Request, host, begins, after_requests, after_call}
use arbiter_core.Serve.Installing.{renews}
use arbiter_core.Serve.Conditions.{
  forget_one, PollRead, poll, is_installing, is_quarantined, unreachable, note_entries, owner_state,
  poll_pairs, put_state, revoke_owned, polled_state, seen_state, counted, set_serving, evaluate,
  track_frontier_beq, forget_unlisted, forget_one,
}
use arbiter_core.Serve.Polled.{IsServable}
use arbiter_core.Serve.Polls.{poll-IsServable, IsRegistered}
use arbiter_core.Serve.Settled.{
  IsSettled, Turn, polls, requests, after_turns, after_turns-IsSettled,
}
use arbiter_core.Serve.Confirmed.{is_hook, poll-IsConfirmed}
use arbiter_core.Serve.Serving.{poll-serves_iff, IsFit}
use arbiter_core.Serve.Licensed.{IsLicensed, acquire-IsLicensed}
use arbiter_core.Base.{
  ℕ, refl, true, false, none, some, List, [], ◌∷◌, ◌≡◌, ok, list_eq, nat_eq, list_ord, nat_ord,
  lookup, ◌||◌, WriteOutcome, contains, list_beq, count, insert, list_cmp, any, ◌↔◌,
}

abbrev sales : OwnerDatabase
sales = record { owner = 3; database = b's' ∷ [] }

abbrev entry : TrackFrontier
entry = record { indexer_id = 3; safe_block_seq = 40; applied_promotion_seq = 12 }

abbrev orders : TableIncarnation
orders = record {
  seq = 7;
  database_id = b's' ∷ [];
  table_id = b't' ∷ [];
  origin = chain;
  status = active;
  schema_hash = b'h' ∷ [];
  add_block_seq = 2;
  owner_indexer_id = some 3;
}

abbrev registry : TableRegistrySnapshot
registry = record { founding = 0; incarnations = orders ∷ []; quarantined_indexers = 3 ∷ [] }

abbrev orders_copy : TableCopy
orders_copy = record {
  table_id = b's' ∷ b'.' ∷ b't' ∷ [];
  incarnation_seq = 7;
  copy_table = b's' ∷ b'.' ∷ b't' ∷ [];
  schema_hash = b'h' ∷ [];
  condition = installed_table;
}

abbrev sales_copy : DatabaseCopy
sales_copy = record {
  snapshot_id = b'm' ∷ [];
  entry = entry;
  tables = orders_copy ∷ [];
  audit_clean = true;
}

abbrev read_at : ℕ → PollRead
read_at now = record {
  start_epoch = 0;
  now = now;
  registry = some registry;
  feed = some (λ owner. some entry);
  pairs = sales ∷ [];
  read = λ k. some sales_copy;
  copy_table = λ key seq. key;
}

abbrev new_server : Server
new_server = record {
  enabled = true;
  owner_unreachable_after = 60;
  lease_ttl = 30000000;
  epoch = 0;
  owners = [];
  dbs = [];
  leases = [];
  by_id = [];
  file = [];
}

abbrev polled_once : Server
polled_once = poll (read_at 100) new_server

abbrev served_state : DbState
served_state = record {
  serving = true;
  reason = none;
  copy = sales_copy;
  have_copy = true;
  served = orders_copy ∷ [];
  last_entry = entry;
  polls = 2;
  installing = 0;
  installed = 0;
  quarantine = true;
  unreach = false;
}

new_server-IsSettled : IsSettled new_server
unfolding lookup
new_server-IsSettled k st e i = absurd cc

-- Two polls, so that the database serves; an install of it begins; a poll during the install.
abbrev turns : List Turn
turns =
    polls (read_at 100)
    ∷ polls (read_at 105)
    ∷ requests (begins 106 sales)
    ∷ requests (host (renews WriteOutcome.written 107 []))
    ∷ polls (read_at 110)
    ∷ []

after_turns-IsSettled_example : IsSettled (after_turns turns new_server)
after_turns-IsSettled_example = after_turns-IsSettled turns new_server new_server-IsSettled

polled_twice : lookup sales (poll (read_at 105) polled_once).dbs ≡ some served_state
unfolding poll sweep sweep_over note_entries owner_state poll_pairs put_state revoke_owned lease_of
    state_of polled_state seen_state counted set_serving evaluate unreachable match_active
    match_copy find_copy served_of active_of sort_by_key insert_by_key owned_tables active_tables
    manifest_owner newest_owner owner_of table_key track_frontier_beq contains count forget_unlisted
    forget_one lookup insert list_beq list_cmp owner_database_beq
polled_twice = refl

poll-IsServable_example :
    IsServable polled_once.enabled (read_at 105) sales served_state
    × (is_installing (read_at 105) (state_of sales polled_once) ≡ false)
    × (some sales_copy ≡ some sales_copy)
    × ((is_quarantined 3 (some registry) || unreachable 3 105 polled_once) ≡ true)
    × IsRegistered (read_at 105) sales served_state
unfolding contains owner_database_beq list_beq
poll-IsServable_example =
    poll-IsServable (read_at 105) sales polled_once served_state refl polled_twice refl

polled_once-IsSettled : IsSettled polled_once
unfolding after_turns
polled_once-IsSettled =
    after_turns-IsSettled (polls (read_at 100) ∷ []) new_server new_server-IsSettled

abbrev calls : List Request
calls = host (renews WriteOutcome.written 105 []) ∷ []

abbrev sales_lease : Lease
sales_lease = record {
  id = b'a' ∷ [];
  database = b's' ∷ [];
  owner = 3;
  renewed = 106;
  ttl = 30000000;
  revoked = false;
  revoked_at = 0;
}

granted_after :
    (acquire WriteOutcome.written 106
      (some (b'a' ∷ []))
      (b's' ∷ [])
      (b'm' ∷ [])
      (after_requests calls (poll (read_at 105) polled_once))).1
    ≡ ok sales_lease
unfolding poll sweep sweep_over note_entries owner_state poll_pairs put_state revoke_owned lease_of
    state_of polled_state seen_state counted set_serving evaluate unreachable match_active
    match_copy find_copy served_of active_of sort_by_key insert_by_key owned_tables active_tables
    manifest_owner newest_owner owner_of table_key track_frontier_beq contains count forget_unlisted
    forget_one lookup insert list_beq list_cmp owner_database_beq acquire after_requests after_call
    renew record_leases records_of named_states end_held put_lease grant
granted_after = refl

acquire-IsLicensed_example : IsLicensed (read_at 105) calls polled_once (b's' ∷ []) (b'm' ∷ [])
acquire-IsLicensed_example =
    acquire-IsLicensed (read_at 105) calls polled_once WriteOutcome.written 106 (some (b'a' ∷ []))
      (b's' ∷ []) (b'm' ∷ []) sales_lease polled_once-IsSettled granted_after

served_after :
    lookup sales (poll (read_at 105) (after_requests calls (poll (read_at 100) new_server))).dbs
    ≡ some served_state
unfolding poll sweep sweep_over note_entries owner_state poll_pairs put_state revoke_owned lease_of
    state_of polled_state seen_state counted set_serving evaluate unreachable match_active
    match_copy find_copy served_of active_of sort_by_key insert_by_key owned_tables active_tables
    manifest_owner newest_owner owner_of table_key track_frontier_beq contains count forget_unlisted
    forget_one lookup insert list_beq list_cmp owner_database_beq acquire after_requests after_call
    renew record_leases records_of named_states end_held put_lease grant
served_after = refl

poll-IsConfirmed_example :
    (true ≡ true) × (some entry ≡ some entry) × (any (is_hook sales) calls ≡ false)
unfolding contains owner_database_beq list_beq
poll-IsConfirmed_example =
    poll-IsConfirmed (read_at 100) (read_at 105) calls sales new_server served_state
      new_server-IsSettled refl served_after refl

poll-serves_iff_example : (true ≡ true) ↔ IsFit (read_at 105) sales polled_once
unfolding contains owner_database_beq list_beq
poll-serves_iff_example =
    poll-serves_iff (read_at 105) sales polled_once served_state refl polled_twice
