-- ===== src/Serve/Hooks.antt =====
-- The hooks around installs in member/serve/lease.go: BeforeInstall and AfterInstall.
use arbiter_core.Serve.{
  Lease, OwnerDatabase, DbState, Server, TrackFrontier, DatabaseCopy, entry_unconfirmed, sweep,
  owner_database_eq, install_running,
}
use arbiter_core.Base.{
  ℕ, true, false, Option, none, some, [], Bytes, list_eq, nat_eq, list_ord, nat_ord, if◌then◌else◌,
  lookup, insert, ◌+◌, ◌-◌, ◌%◌,
}

abbrev pub no_entry : TrackFrontier
no_entry = record { indexer_id = 0; safe_block_seq = 0; applied_promotion_seq = 0 }

-- The zero value.
abbrev pub no_copy : DatabaseCopy
no_copy = record { snapshot_id = []; entry = no_entry; tables = []; audit_clean = false }

abbrev pub new_db_state : DbState
new_db_state = record {
  serving = false;
  reason = some entry_unconfirmed;
  copy = no_copy;
  have_copy = false;
  served = [];
  last_entry = no_entry;
  polls = 0;
  installing = 0;
  installed = 0;
  quarantine = false;
  unreach = false;
}

-- stateLocked.
unfoldable pub state_of : OwnerDatabase → Server → DbState
state_of k s = elim (lookup k s.dbs) [ none ↦ new_db_state | some st ↦ st ]

-- `s.epoch++`, of an uint64.
abbrev pub next_epoch : ℕ → ℕ
next_epoch epoch = (epoch + 1) % 18446744073709551616

unfoldable pub revoke_lease : ℕ → Lease → Server → Server
revoke_lease now l s =
    if l.revoked
    then s
    else record s { by_id = insert l.id (record l { revoked = true; revoked_at = now }) s.by_id }

-- The mark that BeforeInstall sets on the state.
unfoldable pub mark_installing : OwnerDatabase → Server → Server
mark_installing k s =
    let st = state_of k s in
    record s {
      epoch = next_epoch s.epoch;
      dbs =
          insert k
            (record st {
              installing = st.installing + 1;
              installed = next_epoch s.epoch;
              serving = false;
              reason = some install_running;
              served = [];
              polls = 0;
            })
            s.dbs;
    }

-- The lease of the database.
unfoldable pub lease_of : Bytes → Server → Option Lease
lease_of database s = elim (lookup database s.leases) [ none ↦ none | some id ↦ lookup id s.by_id ]

-- BeforeInstall up to its wait: the server, and the lease to wait for.
unfoldable pub before_install : ℕ → OwnerDatabase → Server → Server × Option Lease
before_install now k s =
    let swept = sweep now (mark_installing k s) in
    elim (lease_of k.database swept) [
      | none ↦ (swept, none)
      | some l ↦ (revoke_lease now l swept, some l)
    ]

-- BeforeInstall when its context ends: the mark is cleared again.
unfoldable pub abandon_install : OwnerDatabase → Server → Server
abandon_install k s =
    let st = state_of k s in
    record s {
      epoch = next_epoch s.epoch;
      dbs =
          insert k (record st { installing = st.installing - 1; installed = next_epoch s.epoch })
            s.dbs;
    }

unfoldable pub after_install : OwnerDatabase → Server → Server
after_install k s = elim (lookup k s.dbs) [
  | none ↦ s
  | some st ↦ record s {
    epoch = next_epoch s.epoch;
    dbs =
        insert k
          (record st { installing = st.installing - 1; installed = next_epoch s.epoch; polls = 0 })
          s.dbs;
  }
]
