-- ===== src/Serve/Restart.antt =====
-- restoreLeases of member/serve/lease.go, over the records of the file.
use arbiter_core.Serve.{
  Lease, LeaseRecord, Server, LeaseError, expires_at, put_lease, nanos_of_ms, owner_database_eq,
  bad_record, ttl_overflow, listed_twice,
}
use arbiter_core.Base.{
  ℕ, true, List, [], ◌∷◌, ◌≟◌, list_eq, nat_eq, list_ord, nat_ord, ltb, ◌==◌, if◌then◌else◌, Result,
  ok, err, lookup, ◌*◌, ◌||◌, is_some,
}

abbrev pub max_lease_ttl_ms : ℕ
max_lease_ttl_ms = 9223372036854

-- The lease of a record, after a restart.
unfoldable pub restored_lease : ℕ → LeaseRecord → Lease
restored_lease now r = record {
  id = r.lease_id;
  database = r.database;
  owner = r.owner;
  renewed = r.renewed_unix_nano;
  ttl = r.ttl_ms * nanos_of_ms;
  revoked = true;
  revoked_at = now;
}

-- The loop of restoreLeases over the records of the file.
unfoldable pub restore_leases : ℕ → List LeaseRecord → Server → Result LeaseError Server
restore_leases now [] s = ok s
restore_leases now (r ∷ rs) s =
    let l = restored_lease now r in
    let kept = restore_leases now rs (put_lease l s) in
    let expired = restore_leases now rs s in
    if (r.lease_id ≟ []) || (r.database ≟ []) || r.ttl_ms == 0
    then err bad_record
    else if ltb max_lease_ttl_ms r.ttl_ms
    then err ttl_overflow
    else if is_some (lookup r.database s.leases) || is_some (lookup r.lease_id s.by_id)
    then err listed_twice
    else if ltb now (expires_at l)
    then kept
    else expired
