-- ===== src/ReplayMemo/Examples.antt =====
-- Runs of verifier/replay_executor_memo.go, and the theorems at concrete inputs.
use arbiter_core.ReplayMemo.Requests.{
  ExecutionRequest, has_query, memo_request, MemoPrepared, MemoRequest, PreparedStatement,
  memo_statements, private_request, memo_domain, memo_prepared, private_statements,
  private_prepared,
}
use arbiter_core.ReplayMemo.{MemoKey, MemoEntry, Memo, new_memo, put, entry_of}
use arbiter_core.ReplayMemo.Bounded.{put-IsMemo, new_memo-IsMemo}
use arbiter_core.ReplayMemo.Elements.{IsMemo}
use arbiter_core.ReplayMemo.Calls.{
  Executor, ReplayMemoJob, MemoRun, CallContext, ReplayError, context_ended, Process, executed,
  replay, System, Event, opens, begins, finishes, closes, after_events, new_system, has_ended,
}
use arbiter_core.ReplayMemo.Histories.{IsSystem, new_system-IsSystem, after_events-IsSystem}
use arbiter_core.ReplayMemo.Answers.{Laws, ReadsBack, some_eq}
use arbiter_core.ReplayMemo.Transparent.{replay-IsRight}
use arbiter_core.Base.{
  refl, true, false, some, List, [], ◌∷◌, Bytes, ◌≡◌, Result, ok, err, ◌⊎◌, list_eq, nat_eq, lookup,
  insert, list_beq, Option, ◌++◌, none, ap, sym,
}

abbrev first_key : MemoKey
first_key = record { run = 1; digest = b'a' ∷ [] }

put-IsMemo_example : (n : Memo) × (put first_key (b'x' ∷ []) (new_memo 0 []) ≡ some n) × IsMemo n
put-IsMemo_example = put-IsMemo first_key (b'x' ∷ []) (new_memo 0 []) (new_memo-IsMemo 0 [])

abbrev ask : ExecutionRequest Bytes Bytes Bytes Bytes
ask = record {
  job = [];
  snapshot = [];
  statements = some (record { statement = []; payload = b'a' ∷ [] } ∷ []);
  snapshot_query = none;
  snapshot_query_reference_id = [];
}

abbrev first_payload : Option (List (PreparedStatement Bytes)) → Bytes
first_payload none = []
first_payload (some []) = []
first_payload (some (s ∷ ss)) = s.payload

abbrev first_memo_payload : Option (List (MemoPrepared Bytes)) → Bytes
first_memo_payload none = []
first_memo_payload (some []) = []
first_memo_payload (some (s ∷ ss)) = s.payload

-- Bytes that read back for a request of one statement with one byte: the payload, then the wire.
abbrev read_request : Bytes → Option (MemoRequest Bytes Bytes Bytes)
read_request [] = none
read_request (b ∷ wire) = some (record {
  domain = memo_domain;
  wire = wire;
  job = [];
  snapshot = [];
  statements = some (record { statement = []; payload = b ∷ [] } ∷ []);
})

-- An executor that doubles the payload of its request.
abbrev doubles : Executor
doubles = record {
  Job = Bytes;
  Snapshot = Bytes;
  Statement = Bytes;
  Query = Bytes;
  Outcome = Bytes;
  execute = λ r. some (b'2' ∷ first_payload r.statements);
  marshal_job = λ j. some j;
  marshal_request = λ m. some (first_memo_payload m.statements ++ m.wire);
  unmarshal_request = read_request;
  digest = λ b. b;
  outcome_query = λ o. false;
  encode_outcome = λ o. some o;
  decode_outcome = λ b. some b;
}

doubles-Laws : Laws doubles
doubles-Laws = record { tells_apart = λ a b h. h }

ask-ReadsBack : ReadsBack doubles ask
unfolding memo_request memo_statements memo_prepared
ask-ReadsBack = record {
  request_back = λ w b h. ap read_request (sym (some_eq h));
  outcome_back = λ o b e h. cc;
}

abbrev context : CallContext
context = record {
  given = true;
  run = some 1;
  job = some (record { wire = []; job = [] });
  ended_at_start = false;
  ended_at_hit = false;
  ended_after = false;
  ended_at_put = false;
  ended_at_end = false;
}

abbrev one_call : List (Event doubles)
one_call = opens 1 [] ∷ begins context ask ∷ finishes 0 ∷ []

abbrev stored_entry : MemoEntry
stored_entry = entry_of first_key (b'2' ∷ b'a' ∷ [])

abbrev after_one : System doubles
after_one = record {
  process = record {
    memo = record {
      number = 7;
      identity = [];
      lru = stored_entry ∷ [];
      entries = (first_key, stored_entry) ∷ [];
      bytes = 258;
    };
    runs = (1, record { identity = []; owner = some 7; closed = false }) ∷ [];
  };
  in_flight = [];
}

one_call_stored : after_events doubles one_call (new_system doubles 7 []) ≡ some after_one
unfolding after_events new_system lookup insert list_beq arbiter_core.ReplayMemo.Calls.step
    arbiter_core.ReplayMemo.Calls.call_at arbiter_core.ReplayMemo.Calls.started
    arbiter_core.ReplayMemo.Calls.begin_replay arbiter_core.ReplayMemo.Calls.encode_request
    arbiter_core.ReplayMemo.Calls.decode_request arbiter_core.ReplayMemo.Calls.job_digest has_query
    private_request private_statements private_prepared memo_request memo_statements memo_prepared
    arbiter_core.ReplayMemo.Calls.open_run arbiter_core.ReplayMemo.Calls.new_process new_memo
    arbiter_core.ReplayMemo.Calls.locked_get arbiter_core.ReplayMemo.get
    arbiter_core.ReplayMemo.Calls.finish_replay arbiter_core.ReplayMemo.Calls.locked_put put
    arbiter_core.ReplayMemo.make_room arbiter_core.ReplayMemo.push_front
    arbiter_core.ReplayMemo.Calls.drop_at
one_call_stored = refl

after_events-IsSystem_example :
    (t : System doubles) × (after_events doubles one_call (new_system doubles 7 []) ≡ some t)
    × IsSystem doubles t
after_events-IsSystem_example =
    after_events-IsSystem doubles one_call (new_system doubles 7 [])
      (new_system-IsSystem doubles 7 [])

abbrev doubled : Result ReplayError Bytes
doubled = ok (b'2' ∷ b'a' ∷ [])

-- The second call of the same request is a hit.
second_call :
    replay doubles context ask (λ p. p) after_one.process ≡ some (after_one.process, doubled)
unfolding replay lookup insert list_beq arbiter_core.ReplayMemo.Calls.begin_replay
    arbiter_core.ReplayMemo.Calls.encode_request arbiter_core.ReplayMemo.Calls.decode_request
    arbiter_core.ReplayMemo.Calls.job_digest has_query private_request private_statements
    private_prepared memo_request memo_statements memo_prepared
    arbiter_core.ReplayMemo.Calls.locked_get arbiter_core.ReplayMemo.get
    arbiter_core.ReplayMemo.memo_key_beq arbiter_core.ReplayMemo.move_to_front
    arbiter_core.ReplayMemo.remove_element
second_call = refl

replay-IsRight_example :
    (t : Process) × (a : Result ReplayError Bytes) × (replay doubles context ask
        (λ p. p)
        after_one.process
      ≡ some (t, a))
    × ((a ≡ executed doubles ask) ⊎ ((a ≡ err context_ended) × (has_ended context ≡ true)))
replay-IsRight_example =
    replay-IsRight doubles doubles-Laws 7 [] one_call after_one context ask (λ p. p) one_call_stored
      (λ p h. (h, λ i o. o)) ask-ReadsBack
