-- ===== src/ReplayMemo/Requests.antt =====
-- The request of verifier/replay_executor_memo.go as bytes, and rebuilt from them. Of the type
-- ExecutionRequest, which is not of this repository, these are the fields that the file reads; its
-- job, snapshot, statements and query are types of the executor.
use arbiter_core.Base.{
  refl, ◌≡◌, Bool, false, Option, none, some, List, [], ◌∷◌, Bytes, list_eq, nat_eq, ◌≟◌, ≟_iff,
  ◌||◌, not, is_some, arith, ap,
}

pub record PreparedStatement (T : Type 0) : Type 0 where
  pub statement : T
  pub payload : Bytes

pub record ExecutionRequest (J S T Q : Type 0) : Type 0 where
  pub job : J
  pub snapshot : S
  pub statements : Option (List (PreparedStatement T))  -- `none` for nil
  pub snapshot_query : Option Q
  pub snapshot_query_reference_id : Bytes

-- replayMemoPrepared.
pub record MemoPrepared (T : Type 0) : Type 0 where
  pub statement : T
  pub payload : Bytes

-- replayMemoRequest.
pub record MemoRequest (J S T : Type 0) : Type 0 where
  pub domain : Bytes
  pub wire : Bytes
  pub job : J
  pub snapshot : S
  pub statements : Option (List (MemoPrepared T))

-- "verifier-replay-execution-v1".
abbrev pub memo_domain : Bytes
memo_domain =
    b'v' ∷ b'e' ∷ b'r' ∷ b'i' ∷ b'f' ∷ b'i' ∷ b'e' ∷ b'r' ∷ b'-' ∷ b'r' ∷ b'e' ∷ b'p' ∷ b'l' ∷ b'a'
    ∷ b'y' ∷ b'-' ∷ b'e' ∷ b'x' ∷ b'e' ∷ b'c' ∷ b'u' ∷ b't' ∷ b'i' ∷ b'o' ∷ b'n' ∷ b'-' ∷ b'v'
    ∷ b'1' ∷ []

-- The loop of replayMemoRequestBytes.
unfoldable pub memo_prepared : {T : Type 0} → List (PreparedStatement T) → List (MemoPrepared T)
memo_prepared [] = []
memo_prepared (s ∷ ss) = record { statement = s.statement; payload = s.payload } ∷ memo_prepared ss

unfoldable pub memo_statements :
    {T : Type 0} → Option (List (PreparedStatement T)) → Option (List (MemoPrepared T))
memo_statements none = none
memo_statements (some ss) = some (memo_prepared ss)

-- What replayMemoRequestBytes marshals.
unfoldable pub memo_request :
    {J S T Q : Type 0} → Bytes → ExecutionRequest J S T Q → MemoRequest J S T
memo_request wire req = record {
  domain = memo_domain;
  wire = wire;
  job = req.job;
  snapshot = req.snapshot;
  statements = memo_statements req.statements;
}

-- The loop that rebuilds the statements.
unfoldable pub private_prepared : {T : Type 0} → List (MemoPrepared T) → List (PreparedStatement T)
private_prepared [] = []
private_prepared (s ∷ ss) =
    record { statement = s.statement; payload = s.payload } ∷ private_prepared ss

unfoldable pub private_statements :
    {T : Type 0} → Option (List (MemoPrepared T)) → Option (List (PreparedStatement T))
private_statements none = none
private_statements (some ss) = some (private_prepared ss)

-- The request that the executor is given, of what was unmarshalled.
unfoldable pub private_request : {J S T Q : Type 0} → MemoRequest J S T → ExecutionRequest J S T Q
private_request owned = record {
  job = owned.job;
  snapshot = owned.snapshot;
  statements = private_statements owned.statements;
  snapshot_query = none;
  snapshot_query_reference_id = [];
}

-- `req.SnapshotQuery != nil || req.SnapshotQueryReferenceID != ""`.
unfoldable pub has_query : {J S T Q : Type 0} → ExecutionRequest J S T Q → Bool
has_query req = is_some req.snapshot_query || not (req.snapshot_query_reference_id ≟ [])

private-memo_prepared :
    {T : Type 0} (ss : List (PreparedStatement T)) → private_prepared (memo_prepared ss) ≡ ss
unfolding private_prepared memo_prepared
private-memo_prepared [] = refl
private-memo_prepared (s ∷ ss) = ap (λ rest. s ∷ rest) (private-memo_prepared ss)

private-memo_statements :
    {T : Type 0} (o : Option (List (PreparedStatement T)))
    → private_statements (memo_statements o) ≡ o
unfolding private_statements memo_statements
private-memo_statements none = refl
private-memo_statements (some ss) = ap some (private-memo_prepared ss)

no_query :
    {Q : Type 0} (o : Option Q) (b : Bytes)
    → (is_some o || not (b ≟ [])) ≡ false
    → (o ≡ none) × (b ≡ [])
no_query o b h = (ground (arith, h), ground (arith, h, ≟_iff b []))

-- A request without a query is rebuilt as it was.
pub private-memo_request :
    {J S T Q : Type 0} (wire : Bytes) (req : ExecutionRequest J S T Q)
    → has_query req ≡ false
    → private_request (memo_request wire req) ≡ req
unfolding private_request memo_request has_query
private-memo_request wire req h =
    let (q, i) = no_query req.snapshot_query req.snapshot_query_reference_id h in
    ground (arith, q, i, private-memo_statements req.statements)
