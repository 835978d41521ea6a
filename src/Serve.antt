-- ===== src/Serve.antt =====
-- The serving leases of member/serve/lease.go. A lease stands once, under its id in `by_id`; a
-- pointer to it, as `leases` holds for a database, is its id. Times and durations are nanoseconds.
-- The clock's reading and a new lease's id are arguments; metrics and logs are left out. The types
-- of serve.go and of conditions.go stand here too.
use arbiter_core.Base.{
  ℕ, suc, Bool, true, false, Option, none, some, List, [], ◌∷◌, Bytes, ◌≟◌, list_eq, nat_eq,
  list_ord, nat_ord, Eq, ltb, leb, ◌==◌, if◌then◌else◌, Result, ok, err, Map, lookup, insert,
  delete, values, keep_if, not, max, ◌+◌, ◌-◌, ◌*◌, ◌/◌, ◌%◌, ◌&&◌, ◌||◌, WriteOutcome, ≟_iff,
  arith, ◌≡◌, ◌↔◌, is_some,
}
pub mod Hooks
pub mod Matching
pub mod Matched
pub mod Conditions
pub mod Polled
pub mod Frames
pub mod Polls
pub mod Served
pub mod Settled
pub mod Serving
pub mod Licensed
pub mod Confirmed
pub mod Restart
pub mod Installing
pub mod Waits
pub mod OneLease
pub mod Requests
pub mod Recorded
pub mod Expiry
pub mod Examples
pub mod PollExamples

pub record Lease : Type 0 where
  pub id : Bytes
  pub database : Bytes
  pub owner : ℕ
  pub renewed : ℕ
  pub ttl : ℕ
  pub revoked : Bool
  pub revoked_at : ℕ

abbrev pub nanos_of_ms : ℕ
nanos_of_ms = 1000000

-- leaseRecord, with the ttl in milliseconds.
pub record LeaseRecord : Type 0 where
  pub lease_id : Bytes
  pub database : Bytes
  pub owner : ℕ
  pub renewed_unix_nano : ℕ
  pub ttl_ms : ℕ

pub record OwnerDatabase : Type 0 where
  pub owner : ℕ
  pub database : Bytes

unfoldable pub owner_database_beq : OwnerDatabase → OwnerDatabase → Bool
owner_database_beq a b = a.owner == b.owner && (a.database ≟ b.database)

pub owner_database_beq_iff : (a b : OwnerDatabase) → (owner_database_beq a b ≡ true) ↔ (a ≡ b)
unfolding owner_database_beq
owner_database_beq_iff a b = ground (arith, ≟_iff a.database b.database)

instance abbrev pub owner_database_eq : Eq OwnerDatabase
owner_database_eq = record { beq = owner_database_beq; beq_iff = owner_database_beq_iff }

-- replay.TrackFrontier, an owner's entry of a manifest.
pub record TrackFrontier : Type 0 where
  pub indexer_id : ℕ
  pub safe_block_seq : ℕ
  pub applied_promotion_seq : ℕ

pub data TableCondition : Type 0 where
  installed_table foreign_table diverged_table excluded_table : TableCondition

pub record TableCopy : Type 0 where
  pub table_id : Bytes
  pub incarnation_seq : ℕ
  pub copy_table : Bytes
  pub schema_hash : Bytes
  pub condition : TableCondition

pub record DatabaseCopy : Type 0 where
  pub snapshot_id : Bytes
  pub entry : TrackFrontier
  pub tables : List TableCopy
  pub audit_clean : Bool

-- The type Reason.
pub data Reason : Type 0 where
  owner_available entry_unconfirmed copy_behind audit_unclean : Reason
  table_foreign table_diverged table_excluded table_missing : Reason
  serving_disabled feed_unavailable install_running : Reason

-- dbState, less its key, under which it stands in the map; the reason is none while it serves.
pub record DbState : Type 0 where
  pub serving : Bool
  pub reason : Option Reason
  pub copy : DatabaseCopy
  pub have_copy : Bool
  pub served : List TableCopy
  pub last_entry : TrackFrontier
  pub polls : ℕ
  pub installing : ℕ
  pub installed : ℕ
  pub quarantine : Bool
  pub unreach : Bool

-- ownerState: the first failure since a success, and the entry with the time it was first seen.
pub record OwnerState : Type 0 where
  pub addr : Bytes
  pub first_failure : Option ℕ
  pub entry : Option (TrackFrontier × ℕ)

pub record Server : Type 0 where
  pub enabled : Bool
  pub owner_unreachable_after : ℕ
  pub lease_ttl : ℕ
  pub epoch : ℕ
  pub owners : Map ℕ OwnerState
  pub dbs : Map OwnerDatabase DbState
  pub leases : Map Bytes Bytes
  pub by_id : Map Bytes Lease
  pub file : List LeaseRecord

pub data LeaseError : Type 0 where
  no_database not_served moved unknown_lease revoked_lease record_failed id_failed : LeaseError
  bad_record ttl_overflow listed_twice : LeaseError

unfoldable pub expires_at : Lease → ℕ
expires_at l = l.renewed + l.ttl

-- The method record, at a time of the last renew.
unfoldable pub lease_record : Lease → ℕ → LeaseRecord
lease_record l renewed = record {
  lease_id = l.id;
  database = l.database;
  owner = l.owner;
  renewed_unix_nano = renewed;
  ttl_ms = l.ttl / nanos_of_ms;
}

abbrev pub is_lease : Bytes → Option Bytes → Bool
is_lease id none = false
is_lease id (some held) = held ≟ id

-- endLocked.
unfoldable pub end_lease : Lease → Server → Server
end_lease l s =
    let dropped = record s { by_id = delete l.id s.by_id } in
    if is_some (lookup l.id s.by_id)
    then (if is_lease l.id (lookup l.database s.leases)
        then record dropped { leases = delete l.database s.leases }
        else dropped)
    else s

-- sweepLocked, over the leases that were there.
unfoldable pub sweep_over : ℕ → List Lease → Server → Server
sweep_over now [] s = s
sweep_over now (l ∷ ls) s =
    let ended = sweep_over now ls (end_lease l s) in
    let kept = sweep_over now ls s in if ltb now (expires_at l) then kept else ended

unfoldable pub sweep : ℕ → Server → Server
sweep now s = sweep_over now (values s.by_id) s

-- What recordLeasesLocked writes: the leases without `drop`, with `add`, and with `renewed` as the
-- last renew of `renewing`; the order in the file is left out.
unfoldable pub records_of : Option Bytes → Option Bytes → ℕ → List Lease → List LeaseRecord
records_of drop renewing renewed [] = []
records_of drop renewing renewed (l ∷ ls) =
    let rest = records_of drop renewing renewed ls in
    if is_lease l.id drop
    then rest
    else if is_lease l.id renewing
    then lease_record l renewed ∷ rest
    else lease_record l l.renewed ∷ rest

abbrev added_record : Option Lease → List LeaseRecord → List LeaseRecord
added_record none rs = rs
added_record (some l) rs = lease_record l l.renewed ∷ rs

-- recordLeasesLocked: the server with the file it leaves, and whether it failed.
unfoldable pub record_leases :
    WriteOutcome → Option Bytes → Option Lease → Option Bytes → ℕ → Server → Server × Bool
record_leases w drop add renewing renewed s =
    let next = added_record add (records_of drop renewing renewed (values s.by_id)) in
    elim w [
      | WriteOutcome.written ↦ (record s { file = next }, false)
      | WriteOutcome.unwritten ↦ (s, true)
      | WriteOutcome.unsynced ↦ (record s { file = next }, true)
    ]

-- The databases of the name, over all owners.
unfoldable pub named_states : Bytes → Map OwnerDatabase DbState → List (OwnerDatabase × DbState)
named_states database [] = []
named_states database ((k, st) ∷ dbs) =
    let rest = named_states database dbs in if k.database ≟ database then (k, st) ∷ rest else rest

abbrev pub new_lease : ℕ → Bytes → Bytes → ℕ → ℕ → Lease
new_lease now id database owner ttl = record {
  id = id;
  database = database;
  owner = owner;
  renewed = now;
  ttl = ttl;
  revoked = false;
  revoked_at = 0;
}

-- The end of the lease that the database had.
unfoldable pub end_held : Option Bytes → Server → Server
end_held none s = s
end_held (some held) s = elim (lookup held s.by_id) [ none ↦ s | some l ↦ end_lease l s ]

unfoldable pub put_lease : Lease → Server → Server
put_lease l s = record s { leases = insert l.database l.id s.leases; by_id = insert l.id l s.by_id }

abbrev pub granted : Option Bytes → Lease → Server × Bool → Server × Result LeaseError Lease
granted old l (s, true) = (s, err record_failed)
granted old l (s, false) = (put_lease l (end_held old s), ok l)

-- acquire, once the sweep is done and one serving state of the database was found.
unfoldable pub grant :
    WriteOutcome → ℕ → Bytes → Bytes → ℕ → Server → Server × Result LeaseError Lease
grant w now id database owner s =
    let l = new_lease now id database owner s.lease_ttl in
    let old = lookup database s.leases in granted old l (record_leases w old (some l) none 0 s)

-- With the answer of newLeaseID, `none` for its error.
abbrev pub grant_id :
    WriteOutcome → ℕ → Option Bytes → Bytes → ℕ → Server → Server × Result LeaseError Lease
grant_id w now none database owner s = (s, err id_failed)
grant_id w now (some id) database owner s = grant w now id database owner s

abbrev pub granted_of :
    WriteOutcome
    → ℕ
    → Option Bytes
    → Bytes
    → Bytes
    → Server
    → List (OwnerDatabase × DbState)
    → Server × Result LeaseError Lease
granted_of w now id database snapshot s [] = (s, err no_database)
granted_of w now id database snapshot s ((k, st) ∷ []) =
    if not st.serving
    then (s, err not_served)
    else if not (snapshot ≟ st.copy.snapshot_id)
    then (s, err moved)
    else grant_id w now id database k.owner s
granted_of w now id database snapshot s (a ∷ b ∷ more) = (s, err no_database)

unfoldable pub acquire :
    WriteOutcome → ℕ → Option Bytes → Bytes → Bytes → Server → Server × Result LeaseError Lease
acquire w now id database snapshot s =
    let swept = sweep now s in
    granted_of w now id database snapshot swept (named_states database swept.dbs)

unfoldable pub renew : WriteOutcome → ℕ → Bytes → Server → Server × Option LeaseError
renew w now id s =
    let swept = sweep now s in
    elim (lookup id swept.by_id) [
      | none ↦ (swept, some unknown_lease)
      | some l ↦
          let recorded = record_leases w none none (some id) now swept in
          if l.revoked
          then (swept, some revoked_lease)
          else if recorded.1
          then (recorded.0, some record_failed)
          else (
            record (recorded.0) { by_id = insert id (record l { renewed = now }) recorded.0.by_id },
            none,
          )
    ]

unfoldable pub release : WriteOutcome → ℕ → Bytes → Server → Server
release w now id s = elim (lookup id s.by_id) [
  | none ↦ sweep now s
  | some l ↦ (record_leases w none none none 0 (sweep now (end_lease l s))).0
]
