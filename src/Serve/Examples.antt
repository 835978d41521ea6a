-- ===== src/Serve/Examples.antt =====
-- Runs of member/serve/lease.go, and the theorems at concrete inputs.
use arbiter_core.Serve.{
  Lease, OwnerDatabase, DbState, Server, LeaseError, LeaseRecord, acquire, renew, revoked_lease,
  expires_at, sweep,
}
use arbiter_core.Serve.Hooks.{before_install, no_copy, no_entry}
use arbiter_core.Serve.Restart.{restore_leases}
use arbiter_core.Serve.Installing.{IsIndexed, IsRevoked, HostCall, acquires, renews, after_calls}
use arbiter_core.Serve.Recorded.{acquire-restored}
use arbiter_core.Serve.Expiry.{before_install-wait_ends}
use arbiter_core.Serve.Waits.{waits_until, before_install-holds}
use arbiter_core.Serve.Requests.{
  Request, host, begins, ends, after_requests, after_requests-one_lease, IsHeld,
  restore_leases-restores,
}
use arbiter_core.Base.{
  delete, insert, list_beq, ℕ, refl, true, false, none, some, List, [], ◌∷◌, Bytes, ok, err, arith,
  ◌≡◌, WriteOutcome, lookup, nat_eq, list_eq, ≟_iff, Bool-cases, ◌≟◌, inr, inl, ap, ◌≢◌, Option,
}

abbrev sales : OwnerDatabase
sales = record { owner = 3; database = b's' ∷ [] }

abbrev first_lease : Lease
first_lease = record {
  id = b'a' ∷ [];
  database = b's' ∷ [];
  owner = 3;
  renewed = 1000000;
  ttl = 30000000;
  revoked = false;
  revoked_at = 0;
}

abbrev serving : Server
serving = record {
  enabled = true;
  owner_unreachable_after = 60;
  owners = [];
  lease_ttl = 30000000;
  epoch = 0;
  dbs =
      (
        sales,
        record {
          serving = true;
          reason = none;
          copy = record no_copy { snapshot_id = b'm' ∷ [] };
          have_copy = true;
          served = [];
          last_entry = no_entry;
          polls = 2;
          installing = 0;
          installed = 0;
          quarantine = false;
          unreach = true;
        },
      )
      ∷ [];
  leases = (b's' ∷ [], b'a' ∷ []) ∷ [];
  by_id = (b'a' ∷ [], first_lease) ∷ [];
  file = [];
}

serving-IsIndexed : IsIndexed serving
unfolding lookup list_beq
serving-IsIndexed i l h = elim (Bool-cases ((b'a' ∷ []) ≟ i)) [
  | inr p ↦ absurd (ground (arith, h, p))
  | inl p ↦
      let same : first_lease ≡ l = ground (arith, h, p) in
      rw (← same) ((≟_iff (b'a' ∷ []) i).0 p, ap some ((≟_iff (b'a' ∷ []) i).0 p))
]

-- A second acquire replaces the lease; after BeforeInstall the renew and the acquire are refused.
abbrev calls : List HostCall
calls =
    renews WriteOutcome.written 2000000 (b'a' ∷ [])
    ∷ acquires WriteOutcome.written 2000000 (some (b'b' ∷ [])) (b's' ∷ []) (b'm' ∷ [])
    ∷ []

renew_before : (renew WriteOutcome.written 2000000 (b'a' ∷ []) serving).1 ≡ none
unfolding renew lookup arbiter_core.Serve.sweep arbiter_core.Serve.sweep_over
    arbiter_core.Serve.expires_at list_beq arbiter_core.Serve.record_leases
renew_before = refl

renew_after :
    (renew WriteOutcome.written 2000000 (b'a' ∷ []) (before_install 1500000 sales serving).0).1
    ≡ some revoked_lease
unfolding renew lookup arbiter_core.Serve.sweep arbiter_core.Serve.sweep_over before_install
    arbiter_core.Serve.Hooks.lease_of arbiter_core.Serve.Hooks.mark_installing
    arbiter_core.Serve.expires_at list_beq arbiter_core.Serve.Hooks.revoke_lease insert
renew_after = refl

before_install-holds_example :
    IsRevoked
      (b's' ∷ [])
      (waits_until (before_install 1500000 sales serving).1)
      (after_calls calls (before_install 1500000 sales serving).0)
    × ((w : WriteOutcome) (later : ℕ) (id : Option Bytes) (snapshot : Bytes)
        → (e : LeaseError) × ((acquire w later id
              (b's' ∷ [])
              snapshot
              (after_calls calls (before_install 1500000 sales serving).0)).1
            ≡ err e))
before_install-holds_example = before_install-holds 1500000 sales calls serving serving-IsIndexed

abbrev requests : List Request
requests =
    host (acquires WriteOutcome.written 2000000 (some (b'b' ∷ [])) (b's' ∷ []) (b'm' ∷ [])) ∷ []

abbrev second_lease : Lease
second_lease = record {
  id = b'b' ∷ [];
  database = b's' ∷ [];
  owner = 3;
  renewed = 2000000;
  ttl = 30000000;
  revoked = false;
  revoked_at = 0;
}

second_granted : lookup (b'b' ∷ []) (after_requests requests serving).by_id ≡ some second_lease
unfolding after_requests lookup arbiter_core.Serve.Requests.after_call acquire
    arbiter_core.Serve.named_states arbiter_core.Serve.sweep arbiter_core.Serve.sweep_over
    arbiter_core.Serve.expires_at list_beq arbiter_core.Serve.grant arbiter_core.Serve.record_leases
    arbiter_core.Serve.put_lease insert arbiter_core.Serve.end_held arbiter_core.Serve.end_lease
    delete
second_granted = refl

after_requests-one_lease_example : second_lease ≡ second_lease
after_requests-one_lease_example =
    after_requests-one_lease requests serving serving-IsIndexed (b'b' ∷ []) (b'b' ∷ []) second_lease
      second_lease second_granted second_granted refl

abbrev kept_file : List LeaseRecord
kept_file =
    record {
      lease_id = b'b' ∷ [];
      database = b's' ∷ [];
      owner = 3;
      renewed_unix_nano = 2000000;
      ttl_ms = 30;
    }
    ∷ []

abbrev no_leases : Server
no_leases = record {
  enabled = true;
  owner_unreachable_after = 60;
  owners = [];
  lease_ttl = 30000000;
  epoch = 0;
  dbs = [];
  leases = [];
  by_id = [];
  file = kept_file;
}

abbrev reopened_server : Server
reopened_server = record no_leases {
  leases = (b's' ∷ [], b'b' ∷ []) ∷ [];
  by_id = (b'b' ∷ [], record second_lease { revoked = true; revoked_at = 5000000 }) ∷ [];
}

file_read : restore_leases 5000000 kept_file no_leases ≡ ok reopened_server
unfolding restore_leases list_beq lookup arbiter_core.Serve.expires_at
    arbiter_core.Serve.Restart.restored_lease arbiter_core.Serve.put_lease insert
file_read = refl

restore_leases-restores_example :
    IsHeld 5000000 reopened_server kept_file
    × IsIndexed reopened_server
    × ((i : Bytes) (l : Lease) → lookup i reopened_server.by_id ≡ some l → l.revoked ≡ true)
restore_leases-restores_example =
    restore_leases-restores 5000000 kept_file no_leases reopened_server refl refl file_read

acquired :
    (acquire WriteOutcome.written 2000000 (some (b'b' ∷ [])) (b's' ∷ []) (b'm' ∷ []) serving).1
    ≡ ok second_lease
unfolding acquire lookup arbiter_core.Serve.named_states arbiter_core.Serve.sweep
    arbiter_core.Serve.sweep_over expires_at list_beq arbiter_core.Serve.grant
    arbiter_core.Serve.record_leases
acquired = refl

acquired_read :
    restore_leases 5000000
      (acquire WriteOutcome.written 2000000
        (some (b'b' ∷ []))
        (b's' ∷ [])
        (b'm' ∷ [])
        serving).0.file
      no_leases
    ≡ ok reopened_server
unfolding restore_leases acquire lookup arbiter_core.Serve.named_states arbiter_core.Serve.sweep
    arbiter_core.Serve.sweep_over expires_at list_beq arbiter_core.Serve.grant
    arbiter_core.Serve.record_leases arbiter_core.Serve.put_lease arbiter_core.Serve.end_held
    arbiter_core.Serve.end_lease arbiter_core.Serve.lease_record
    arbiter_core.Serve.Restart.restored_lease arbiter_core.Serve.records_of insert
acquired_read = refl

acquire-restored_example :
    (l : Lease) × (lookup (b'b' ∷ []) reopened_server.by_id ≡ some l)
    × (l.database ≡ (b's' ∷ []))
    × (l.revoked ≡ true)
    × (expires_at l ≡ 32000000)
acquire-restored_example =
    acquire-restored WriteOutcome.written 2000000 5000000 (b'b' ∷ []) (b's' ∷ []) (b'm' ∷ [])
      serving no_leases reopened_server second_lease acquired refl refl acquired_read (ground arith)

abbrev other_lease : Lease
other_lease = record {
  id = b'c' ∷ [];
  database = b'u' ∷ [];
  owner = 3;
  renewed = 60000000;
  ttl = 30000000;
  revoked = false;
  revoked_at = 0;
}

abbrev two_leases : Server
two_leases = record serving {
  leases = (b's' ∷ [], b'a' ∷ []) ∷ (b'u' ∷ [], b'c' ∷ []) ∷ [];
  by_id = (b'a' ∷ [], first_lease) ∷ (b'c' ∷ [], other_lease) ∷ [];
}

two_leases-IsIndexed : IsIndexed two_leases
unfolding lookup list_beq
two_leases-IsIndexed i l h = elim (Bool-cases ((b'a' ∷ []) ≟ i)) [
  | inl p ↦
      let same : first_lease ≡ l = ground (arith, h, p) in
      rw (← same) ((≟_iff (b'a' ∷ []) i).0 p, ap some ((≟_iff (b'a' ∷ []) i).0 p))
  | inr q ↦ elim (Bool-cases ((b'c' ∷ []) ≟ i)) [
    | inl p ↦
        let same : other_lease ≡ l = ground (arith, h, q, p) in
        rw (← same) ((≟_iff (b'c' ∷ []) i).0 p, ap some ((≟_iff (b'c' ∷ []) i).0 p))
    | inr p ↦ absurd (ground (arith, h, q, p))
  ]
]

waits_lem : waits_until (before_install 1500000 sales two_leases).1 ≡ 31000000
unfolding before_install lookup list_beq arbiter_core.Serve.Hooks.lease_of sweep
    arbiter_core.Serve.sweep_over arbiter_core.Serve.Hooks.mark_installing expires_at
waits_lem = refl

other_kept :
    lookup
      (b'c' ∷ [])
      (sweep 31000000 (after_calls calls (before_install 1500000 sales two_leases).0)).by_id
    ≡ some other_lease
unfolding before_install lookup list_beq sweep after_calls arbiter_core.Serve.sweep_over acquire
    arbiter_core.Serve.named_states renew arbiter_core.Serve.Hooks.lease_of
    arbiter_core.Serve.Hooks.mark_installing expires_at arbiter_core.Serve.Hooks.revoke_lease insert
    arbiter_core.Serve.owner_database_beq arbiter_core.Serve.end_lease delete
other_kept = refl

before_install-wait_ends_example : other_lease.database ≢ sales.database
before_install-wait_ends_example =
    before_install-wait_ends 1500000 31000000 sales calls two_leases two_leases-IsIndexed
      (ground (arith, waits_lem)) (b'c' ∷ []) other_lease other_kept
