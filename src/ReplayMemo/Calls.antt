-- ===== src/ReplayMemo/Calls.antt =====
-- Replay of verifier/replay_executor_memo.go in two halves, up to the call of the executor and from
-- it on, with the runs that own the entries, and the calls of a process one after the other.
use arbiter_core.ReplayMemo.{
  MemoKey, memo_key_eq, Memo, get, put, remove_run, new_memo, replay_memo_bytes,
}
use arbiter_core.ReplayMemo.Requests.{
  ExecutionRequest, MemoRequest, memo_request, private_request, has_query,
}
use arbiter_core.Base.{
  ℕ, zero, suc, Bool, true, false, Option, none, some, List, [], ◌∷◌, Bytes, ◌≟◌, list_eq, nat_eq,
  ltb, if◌then◌else◌, Result, ok, err, Map, lookup, insert, length, ◌&&◌, ◌||◌, not,
}

-- The executor with the types of its requests and results, the JSON of a job, of a
-- replayMemoRequest and of a result, `digest` for sha256.Sum256, and whether a result has a snapshot
-- query.
pub record Executor : Type 1 where
  pub Job : Type 0
  pub Snapshot : Type 0
  pub Statement : Type 0
  pub Query : Type 0
  pub Outcome : Type 0
  pub execute : ExecutionRequest Job Snapshot Statement Query → Option Outcome
  pub marshal_job : Job → Option Bytes
  pub marshal_request : MemoRequest Job Snapshot Statement → Option Bytes
  pub unmarshal_request : Bytes → Option (MemoRequest Job Snapshot Statement)
  pub digest : Bytes → Bytes
  pub outcome_query : Outcome → Bool
  pub encode_outcome : Outcome → Option Bytes
  pub decode_outcome : Bytes → Option Outcome

pub record ReplayMemoJob : Type 0 where
  pub wire : Bytes
  pub job : Bytes

-- replayMemoRun.
pub record MemoRun : Type 0 where
  pub identity : Bytes
  pub owner : Option ℕ
  pub closed : Bool

-- What the context of a call holds, and whether it has ended where Replay asks.
pub record CallContext : Type 0 where
  pub given : Bool
  pub run : Option ℕ
  pub job : Option ReplayMemoJob
  pub ended_at_start : Bool
  pub ended_at_hit : Bool
  pub ended_after : Bool
  pub ended_at_put : Bool
  pub ended_at_end : Bool

abbrev pub has_ended : CallContext → Bool
has_ended c = c.ended_at_start || c.ended_at_hit || c.ended_after || c.ended_at_end

pub data ReplayError : Type 0 where
  context_ended executor_failed : ReplayError

pub record Process : Type 0 where
  pub memo : Memo
  pub runs : Map ℕ MemoRun

unfoldable pub new_process : ℕ → Bytes → Process
new_process n id = record { memo = new_memo n id; runs = [] }

abbrev pub is_owned : ℕ → Option ℕ → Bool
is_owned n none = false
is_owned n (some m) = m ≟ n

-- `run.owner != nil && run.owner != m`.
abbrev pub is_foreign : ℕ → Option ℕ → Bool
is_foreign n none = false
is_foreign n (some m) = not (m ≟ n)

abbrev pub same_bytes : Option Bytes → Bytes → Bool
same_bytes none b = false
same_bytes (some a) b = a ≟ b

-- newReplayMemoRun: a number that stands for no run yet.
unfoldable pub open_run : ℕ → Bytes → Process → Process
open_run r id p = elim (lookup r p.runs) [
  | some run ↦ p
  | none ↦ record p {
    runs = insert r (record { identity = id; owner = none; closed = false }) p.runs;
  }
]

abbrev pub without_run : ℕ → MemoRun → Process → Process
without_run r run p =
    if is_owned p.memo.number run.owner then record p { memo = remove_run r p.memo } else p

-- forgetReplayMemoRun.
unfoldable pub forget_run : ℕ → Process → Process
forget_run r p = elim (lookup r p.runs) [ none ↦ p | some run ↦ without_run r run p ]

-- The method close of a run.
unfoldable pub close_run : ℕ → Process → Process
close_run r p = elim (lookup r p.runs) [
  | none ↦ p
  | some run ↦
      let q = record p { runs = insert r (record run { closed = true }) p.runs } in
      without_run r run q
]

module _ (x : Executor) where
  open x use {
    Job, Snapshot, Statement, Query, Outcome, execute, marshal_job, marshal_request,
    unmarshal_request, digest, outcome_query, encode_outcome, decode_outcome,
  }

  abbrev pub Request : Type 0
  Request = ExecutionRequest Job Snapshot Statement Query

  abbrev digest_of : Option Bytes → Option Bytes
  digest_of none = none
  digest_of (some projected) = some (digest projected)

  -- The digest of the job's JSON.
  unfoldable pub job_digest : Request → Option Bytes
  job_digest req = digest_of (marshal_job req.job)

  -- replayMemoRequestBytes.
  unfoldable pub encode_request : Bytes → Request → Option Bytes
  encode_request wire req = marshal_request (memo_request wire req)

  abbrev pub rebuilt : Option (MemoRequest Job Snapshot Statement) → Option Request
  rebuilt none = none
  rebuilt (some owned) = some (private_request owned)

  -- The private request, decoded from the bytes of the key.
  unfoldable pub decode_request : Bytes → Option Request
  decode_request encoded = rebuilt (unmarshal_request encoded)

  -- The executor without the memo.
  unfoldable pub executed : Request → Result ReplayError Outcome
  executed req = elim (execute req) [ none ↦ err executor_failed | some o ↦ ok o ]

  -- The first half ends with an answer, or with the key and the private request to execute.
  pub data Begun : Type 0 where
    answered : Result ReplayError Outcome → Begun
    pending : MemoKey → Request → Begun

  abbrev pub missed : MemoKey → Bytes → Request → Begun
  missed k encoded req = elim (decode_request encoded) [
    | none ↦ answered (executed req)
    | some own ↦ pending k own
  ]

  -- A value that the lookup found, decoded.
  abbrev pub hit_of : CallContext → MemoKey → Bytes → Request → Option Outcome → Begun
  hit_of c k encoded req none = missed k encoded req
  hit_of c k encoded req (some o) =
      if c.ended_at_hit then answered (err context_ended) else answered (ok o)

  -- What the lookup found.
  abbrev pub found : CallContext → MemoKey → Bytes → Request → Option Bytes → Begun
  found c k encoded req none = missed k encoded req
  found c k encoded req (some value) = hit_of c k encoded req (decode_outcome value)

  -- Under the run's mutex: the owner and the lookup.
  unfoldable pub locked_get :
      CallContext → Bytes → Request → ℕ → MemoRun → Process → Process × Begun
  locked_get c encoded req r run p =
      let k : MemoKey = record { run = r; digest = digest encoded } in
      let got = get k p.memo in
      let owned = record run { owner = some p.memo.number } in
      if run.closed || is_foreign p.memo.number run.owner
      then (p, answered (executed req))
      else (record p { memo = got.0; runs = insert r owned p.runs }, found c k encoded req got.1)

  abbrev pub bound : CallContext → Request → ReplayMemoJob → ℕ → MemoRun → Process → Process × Begun
  bound c req job r run p =
      if not (run.identity ≟ p.memo.identity) || has_query req
      then (p, answered (executed req))
      else if not (same_bytes (job_digest req) job.job)
      then (p, answered (executed req))
      else elim (encode_request job.wire req) [
        | none ↦ (p, answered (executed req))
        | some encoded ↦
            if ltb replay_memo_bytes (length encoded)
            then (p, answered (executed req))
            else locked_get c encoded req r run p
      ]

  unfoldable pub begin_replay : CallContext → Request → Process → Process × Begun
  begin_replay c req p =
      if not c.given
      then (p, answered (executed req))
      else if c.ended_at_start
      then (p, answered (err context_ended))
      else elim c.run [
        | none ↦ (p, answered (executed req))
        | some r ↦ elim c.job [
          | none ↦ (p, answered (executed req))
          | some job ↦ elim (lookup r p.runs) [
            | none ↦ (p, answered (executed req))
            | some run ↦ bound c req job r run p
          ]
        ]
      ]

  -- Under the run's mutex: the put, unless the run is closed; `none` when put does not end.
  unfoldable pub locked_put : CallContext → MemoKey → Bytes → Process → Option Process
  locked_put c k encoded p = elim (lookup k.run p.runs) [
    | none ↦ some p
    | some run ↦
        if not run.closed && not c.ended_at_put
        then elim (put k encoded p.memo) [ none ↦ none | some m ↦ some (record p { memo = m }) ]
        else some p
  ]

  -- The end of a call, after the put.
  abbrev pub stored :
      CallContext → Outcome → Option Process → Option (Process × Result ReplayError Outcome)
  stored c copy none = none
  stored c copy (some q) = some (q, if c.ended_at_end then err context_ended else ok copy)

  -- Replay from the call of the executor on.
  unfoldable pub finish_replay :
      CallContext → MemoKey → Request → Process → Option (Process × Result ReplayError Outcome)
  finish_replay c k own p = elim (execute own) [
    | none ↦ some (p, err executor_failed)
    | some o ↦
        if c.ended_after
        then some (p, err context_ended)
        else if outcome_query o
        then some (p, ok o)
        else elim (encode_outcome o) [
          | none ↦ some (p, ok o)
          | some encoded ↦ elim (decode_outcome encoded) [
            | none ↦ some (p, ok o)
            | some copy ↦ stored c copy (locked_put c k encoded p)
          ]
        ]
  ]

  abbrev pub replayed :
      CallContext
      → (Process → Process)
      → Process
      → Begun
      → Option (Process × Result ReplayError Outcome)
  replayed c others p (answered a) = some (p, a)
  replayed c others p (pending k own) = finish_replay c k own (others p)

  -- One call, with what the others make of the process while the executor runs.
  unfoldable pub replay :
      CallContext
      → Request
      → (Process → Process)
      → Process
      → Option (Process × Result ReplayError Outcome)
  replay c req others p = replayed c others (begin_replay c req p).0 (begin_replay c req p).1

  -- A call whose executor runs.
  pub record InFlight : Type 0 where
    pub context : CallContext
    pub key : MemoKey
    pub own : Request

  pub record System : Type 0 where
    pub process : Process
    pub in_flight : List InFlight

  pub data Event : Type 0 where
    opens : ℕ → Bytes → Event
    begins : CallContext → Request → Event
    finishes : ℕ → Event
    closes : ℕ → Event
    forgets : ℕ → Event

  unfoldable pub started : CallContext → Begun → List InFlight → List InFlight
  started c (answered a) calls = calls
  started c (pending k own) calls = record { context = c; key = k; own = own } ∷ calls

  unfoldable pub call_at : ℕ → List InFlight → Option InFlight
  call_at n [] = none
  call_at zero (f ∷ calls) = some f
  call_at (suc n) (f ∷ calls) = call_at n calls

  unfoldable pub drop_at : ℕ → List InFlight → List InFlight
  drop_at n [] = []
  drop_at zero (f ∷ calls) = calls
  drop_at (suc n) (f ∷ calls) = f ∷ drop_at n calls

  -- One event; `none` when it does not end.
  unfoldable pub step : Event → System → Option System
  step (opens r id) s = some (record s { process = open_run r id s.process })
  step (begins c req) s =
      let b = begin_replay c req s.process in
      some (record { process = b.0; in_flight = started c b.1 s.in_flight })
  step (finishes n) s = elim (call_at n s.in_flight) [
    | none ↦ some s
    | some f ↦ elim (finish_replay f.context f.key f.own s.process) [
      | none ↦ none
      | some (p, a) ↦ some (record { process = p; in_flight = drop_at n s.in_flight })
    ]
  ]
  step (closes r) s = some (record s { process = close_run r s.process })
  step (forgets r) s = some (record s { process = forget_run r s.process })

  unfoldable pub after_events : List Event → System → Option System
  after_events [] s = some s
  after_events (e ∷ es) s = elim (step e s) [ none ↦ none | some t ↦ after_events es t ]

  unfoldable pub new_system : ℕ → Bytes → System
  new_system n id = record { process = new_process n id; in_flight = [] }
