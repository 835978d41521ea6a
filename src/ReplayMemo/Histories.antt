-- ===== src/ReplayMemo/Histories.antt =====
-- Replay of verifier/replay_executor_memo.go over every history of its calls.
use arbiter_core.ReplayMemo.Requests.{has_query}
use arbiter_core.ReplayMemo.{MemoKey, memo_key_eq, get, replay_memo_bytes}
use arbiter_core.ReplayMemo.Bounded.{put-IsMemo, get-IsMemo}
use arbiter_core.ReplayMemo.Sound.{put-there, put-number, get-same}
use arbiter_core.ReplayMemo.Calls.{
  Request, job_digest, encode_request, decode_request, Executor, ReplayMemoJob, MemoRun,
  CallContext, ReplayError, Process, Begun, answered, pending, locked_get, begin_replay, locked_put,
  stored, finish_replay, InFlight, System, Event, opens, begins, finishes, closes, forgets, started,
  call_at, drop_at, step, after_events, new_system, is_foreign, same_bytes, bound, found, missed,
}
use arbiter_core.Base.{
  ℕ, zero, suc, refl, Option, none, some, List, [], ◌∷◌, arith, list_eq, nat_eq, ◌≟◌, ≟_refl, Map,
  Bytes, lookup, insert, length, ◌≡◌, ltb, inl, inr, Bool-cases, Option-cases, lookup-insert, ap,
  sym, ◌∙◌, Result, All, All-map, ◌&&◌, ◌||◌, not,
}
use arbiter_core.ReplayMemo.Runs.{
  IsKept, IsOwned, open_run-IsKept, forget_run-IsKept, close_run-IsKept, changed-run,
  changed-IsOwned, new_process-IsKept,
}

module _ (x : Executor) where
  open x use {Outcome, execute, digest, outcome_query, encode_outcome, decode_outcome}

  -- The first half keeps the process, and a key that it hands on is of a run that the memo owns.
  abbrev pub IsPending : Process → Begun x → Type 0
  IsPending p (answered a) = Unit
  IsPending p (pending k own) = IsOwned p k.run

  abbrev IsBegun : Process → Process × Begun x → Type 0
  IsBegun p b = IsKept b.0 × ((i : ℕ) → IsOwned p i → IsOwned b.0 i) × IsPending b.0 b.1

  missed-IsPending :
      (k : MemoKey) (encoded : Bytes) (req : Request x) (p : Process)
      → IsOwned p k.run
      → IsPending p (missed x k encoded req)
  missed-IsPending k encoded req p o = elim (Option-cases (decode_request x encoded)) [
    | inl e ↦ rw (e, IsPending) tt
    | inr (own, e) ↦ rw (e, IsPending) o
  ]

  found-IsPending :
      (c : CallContext) (k : MemoKey) (encoded : Bytes) (req : Request x) (v : Option Bytes)
      → (p : Process) → IsOwned p k.run
      → IsPending p (found x c k encoded req v)
  found-IsPending c k encoded req none p o = missed-IsPending k encoded req p o
  found-IsPending c k encoded req (some v) p o = elim (Option-cases (decode_outcome v)) [
    | inl e ↦ rw (e, IsPending) (missed-IsPending k encoded req p o)
    | inr (out, e) ↦ elim (Bool-cases c.ended_at_hit) [
      | inl f ↦ rw (e, f, IsPending) tt
      | inr f ↦ rw (e, f, IsPending) tt
    ]
  ]

  locked_get-IsBegun :
      (c : CallContext) (encoded : Bytes) (req : Request x) (r : ℕ) (run : MemoRun) (p : Process)
      → lookup r p.runs ≡ some run
      → IsKept p
      → IsBegun p (locked_get x c encoded req r run p)
  unfolding locked_get
  locked_get-IsBegun c encoded req r run p e h =
      let k : MemoKey = record { run = r; digest = digest encoded } in
      let to : MemoRun = record run { owner = some p.memo.number } in
      let (entries, number, identity) = get-same k p.memo in
      let here = λ (s : Map ℕ MemoRun). lookup-insert r r to s in
      elim (Bool-cases (run.closed || is_foreign p.memo.number run.owner)) [
        | inl f ↦ rw f (h, λ i o. o, tt)
        | inr f ↦
            let after : Process = record { memo = (get k p.memo).0; runs = insert r to p.runs } in
            let mine : IsOwned after r =
              (to, ground (arith, here p.runs, ≟_refl r), ap some (sym number)) in
            rw f (
              record {
                is_memo = get-IsMemo k p.memo h.is_memo;
                kept = λ j g a.
                    let (own, b, d, w) = h.kept j g (sym (ap (lookup j) entries) ∙ a) in
                    elim (Bool-cases (r ≟ j.run)) [
                      | inr q ↦
                          (own, changed-run r j.run to p.runs own b q, d, w ∙ ap some (sym number))
                      | inl q ↦ (
                        to,
                        ground (arith, q, lookup-insert r j.run to p.runs),
                        ground (arith, f),
                        ap some (sym number),
                      )
                    ];
              },
              changed-IsOwned r to p (get k p.memo).0 number (λ o. refl),
              found-IsPending c k encoded req (get k p.memo).1 after mine,
            )
      ]

  bound-IsBegun :
      (c : CallContext) (req : Request x) (job : ReplayMemoJob) (r : ℕ) (run : MemoRun)
      (p : Process)
      → lookup r p.runs ≡ some run
      → IsKept p
      → IsBegun p (bound x c req job r run p)
  bound-IsBegun c req job r run p e h =
      elim (Bool-cases (not (run.identity ≟ p.memo.identity) || has_query req)) [
        | inl f ↦ rw f (h, λ i o. o, tt)
        | inr f ↦ elim (Bool-cases (not (same_bytes (job_digest x req) job.job))) [
          | inl g ↦ rw (f, g) (h, λ i o. o, tt)
          | inr g ↦ elim (Option-cases (encode_request x job.wire req)) [
            | inl u ↦ rw (f, g, u) (h, λ i o. o, tt)
            | inr (encoded, u) ↦ elim (Bool-cases (ltb replay_memo_bytes (length encoded))) [
              | inl v ↦ rw (f, g, u, v) (h, λ i o. o, tt)
              | inr v ↦ rw (f, g, u, v) (locked_get-IsBegun c encoded req r run p e h)
            ]
          ]
        ]
      ]

  pub begin_replay-IsBegun :
      (c : CallContext) (req : Request x) (p : Process)
      → IsKept p
      → IsBegun p (begin_replay x c req p)
  unfolding begin_replay
  begin_replay-IsBegun c req p h = elim (Bool-cases (not c.given)) [
    | inl e ↦ rw (e, begin_replay) (h, λ i o. o, tt)
    | inr e ↦ elim (Bool-cases c.ended_at_start) [
      | inl f ↦ rw (e, f, begin_replay) (h, λ i o. o, tt)
      | inr f ↦ elim (Option-cases c.run) [
        | inl u ↦ rw (e, f, u, begin_replay) (h, λ i o. o, tt)
        | inr (r, u) ↦ elim (Option-cases c.job) [
          | inl v ↦ rw (e, f, u, v, begin_replay) (h, λ i o. o, tt)
          | inr (job, v) ↦ elim (Option-cases (lookup r p.runs)) [
            | inl w ↦ rw (e, f, u, v, w, begin_replay) (h, λ i o. o, tt)
            | inr (run, w) ↦ rw (e, f, u, v, w, begin_replay) (bound-IsBegun c req job r run p w h)
          ]
        ]
      ]
    ]
  ]

  -- The put ends, and keeps the process, when the memo owns the key's run.
  locked_put-IsKept :
      (c : CallContext) (k : MemoKey) (encoded : Bytes) (p : Process)
      → IsOwned p k.run
      → IsKept p
      → (q : Process) × (locked_put x c k encoded p ≡ some q)
        × IsKept q
        × ((i : ℕ) → IsOwned p i → IsOwned q i)
  unfolding locked_put
  locked_put-IsKept c k encoded p (run, e, owner) h =
      elim (Bool-cases (not run.closed && not c.ended_at_put)) [
        | inr f ↦ (p, rw (e, f, locked_put) refl, h, λ i o. o)
        | inl f ↦
            let (m, g, is_memo) = put-IsMemo k encoded p.memo h.is_memo in
            let (number, identity) = put-number k encoded p.memo m g in
            (
              record p { memo = m },
              rw (e, f, g, locked_put) refl,
              record {
                is_memo = is_memo;
                kept = λ j d a. elim (put-there k encoded p.memo m j d g a) [
                  | inl b ↦
                      let (own, u, v, w) = h.kept j d b in (own, u, v, w ∙ ap some (sym number))
                  | inr (same, b) ↦ (
                    run,
                    ap (λ (y : MemoKey). lookup y.run p.runs) (sym same) ∙ e,
                    ground (arith, f),
                    owner ∙ ap some (sym number),
                  )
                ];
              },
              λ i o. let (own, u, v) = o in (own, u, v ∙ ap some (sym number)),
            )
      ]

  -- The second half ends, and keeps the process.
  abbrev IsFinished : Process → Option (Process × Result ReplayError Outcome) → Type 0
  IsFinished p none = ⊥
  IsFinished p (some (q, a)) = IsKept q × ((i : ℕ) → IsOwned p i → IsOwned q i)

  stored-IsFinished :
      (c : CallContext) (k : MemoKey) (encoded : Bytes) (copy : Outcome) (p : Process)
      → IsOwned p k.run
      → IsKept p
      → IsFinished p (stored x c copy (locked_put x c k encoded p))
  stored-IsFinished c k encoded copy p o h =
      let (q, w, kept, owns) = locked_put-IsKept c k encoded p o h in rw w (kept, owns)

  finish_replay-IsFinished :
      (c : CallContext) (k : MemoKey) (own : Request x) (p : Process)
      → IsOwned p k.run
      → IsKept p
      → IsFinished p (finish_replay x c k own p)
  unfolding finish_replay
  finish_replay-IsFinished c k own p o h = elim (Option-cases (execute own)) [
    | inl e ↦ simp (e, finish_replay) (h, λ i v. v)
    | inr (out, e) ↦ elim (Bool-cases c.ended_after) [
      | inl f ↦ simp (e, f, finish_replay) (h, λ i v. v)
      | inr f ↦ elim (Bool-cases (outcome_query out)) [
        | inl g ↦ simp (e, f, g, finish_replay) (h, λ i v. v)
        | inr g ↦ elim (Option-cases (encode_outcome out)) [
          | inl u ↦ simp (e, f, g, u, finish_replay) (h, λ i v. v)
          | inr (encoded, u) ↦ elim (Option-cases (decode_outcome encoded)) [
            | inl v ↦ simp (e, f, g, u, v, finish_replay) (h, λ i y. y)
            | inr (copy, v) ↦
                simp (e, f, g, u, v, finish_replay) (stored-IsFinished c k encoded copy p o h)
          ]
        ]
      ]
    ]
  ]

  pub finish_replay-IsKept :
      (c : CallContext) (k : MemoKey) (own : Request x) (p : Process)
      → IsOwned p k.run
      → IsKept p
      → (q : Process) × (a : Result ReplayError Outcome) × (finish_replay x c k own p ≡ some (q, a))
        × IsKept q
        × ((i : ℕ) → IsOwned p i → IsOwned q i)
  finish_replay-IsKept c k own p o h =
      ended (finish_replay x c k own p) (finish_replay-IsFinished c k own p o h)
    where
      ended :
          (r : Option (Process × Result ReplayError Outcome))
          → IsFinished p r
          → (q : Process) × (a : Result ReplayError Outcome) × (r ≡ some (q, a))
            × IsKept q
            × ((i : ℕ) → IsOwned p i → IsOwned q i)
      ended none i = absurd i
      ended (some (q, a)) i = (q, a, refl, i.0, i.1)

  -- The process is kept, and each call in flight has a key of a run that the memo owns.
  pub record IsSystem (s : System x) : Type 0 where
    pub is_kept : IsKept s.process
    pub owned : All (λ f. IsOwned s.process f.key.run) s.in_flight

  pub new_system-IsSystem : (n : ℕ) (id : Bytes) → IsSystem (new_system x n id)
  unfolding new_system
  new_system-IsSystem n id = record { is_kept = new_process-IsKept n id; owned = tt }

  pub call_at-All :
      (P : InFlight x → Type 0) (n : ℕ) (calls : List (InFlight x)) (f : InFlight x)
      → call_at x n calls ≡ some f
      → All P calls
      → P f
  unfolding call_at
  call_at-All P n [] f h a = absurd cc
  call_at-All P zero (g ∷ calls) f h a = let same : g ≡ f = cc in rw (← same) a.0
  call_at-All P (suc n) (g ∷ calls) f h a = call_at-All P n calls f h a.1

  pub drop_at-All :
      (P : InFlight x → Type 0) (n : ℕ) (calls : List (InFlight x))
      → All P calls
      → All P (drop_at x n calls)
  unfolding drop_at
  drop_at-All P n [] a = tt
  drop_at-All P zero (g ∷ calls) a = a.1
  drop_at-All P (suc n) (g ∷ calls) a = (a.0, drop_at-All P n calls a.1)

  started-All :
      (c : CallContext) (b : Begun x) (p : Process) (calls : List (InFlight x))
      → IsPending p b
      → All (λ (f : InFlight x). IsOwned p f.key.run) calls
      → All (λ (f : InFlight x). IsOwned p f.key.run) (started x c b calls)
  unfolding started
  started-All c (answered a) p calls h all = all
  started-All c (pending k own) p calls h all = (h, all)

  pub step-IsSystem :
      (e : Event x) (s : System x)
      → IsSystem s
      → (t : System x) × (step x e s ≡ some t) × IsSystem t
  unfolding step
  step-IsSystem (opens r id) s h =
      let (kept, owns) = open_run-IsKept r id s.process h.is_kept in
      (
        _,
        refl,
        record {
          is_kept = kept;
          owned = All-map (λ (f : InFlight x) o. owns f.key.run o) s.in_flight h.owned;
        },
      )
  step-IsSystem (closes r) s h =
      let (kept, owns) = close_run-IsKept r s.process h.is_kept in
      (
        _,
        refl,
        record {
          is_kept = kept;
          owned = All-map (λ (f : InFlight x) o. owns f.key.run o) s.in_flight h.owned;
        },
      )
  step-IsSystem (forgets r) s h =
      let (kept, owns) = forget_run-IsKept r s.process h.is_kept in
      (
        _,
        refl,
        record {
          is_kept = kept;
          owned = All-map (λ (f : InFlight x) o. owns f.key.run o) s.in_flight h.owned;
        },
      )
  step-IsSystem (begins c req) s h =
      let (kept, owns, handed) = begin_replay-IsBegun c req s.process h.is_kept in
      let b = begin_replay x c req s.process in
      (
        _,
        refl,
        record {
          is_kept = kept;
          owned =
              started-All c b.1 b.0 s.in_flight handed
                (All-map (λ (f : InFlight x) o. owns f.key.run o) s.in_flight h.owned);
        },
      )
  step-IsSystem (finishes n) s h = elim (Option-cases (call_at x n s.in_flight)) [
    | inl e ↦ (s, rw (e, step) refl, h)
    | inr (f, e) ↦
        let own =
          call_at-All (λ (g : InFlight x). IsOwned s.process g.key.run) n s.in_flight f e h.owned in
        let (q, a, g, kept, owns) =
          finish_replay-IsKept f.context f.key f.own s.process own h.is_kept in
        (
          record { process = q; in_flight = drop_at x n s.in_flight },
          rw (e, g, step) refl,
          record {
            is_kept = kept;
            owned =
                drop_at-All (λ (i : InFlight x). IsOwned q i.key.run) n s.in_flight
                  (All-map (λ (i : InFlight x) o. owns i.key.run o) s.in_flight h.owned);
          },
        )
  ]

  -- Every history of calls ends, the eviction of each put included. After it the memo holds at most
  -- 128 entries, whose costs add up to its bytes, at most 8 MiB, and each entry is of a run that is
  -- open and owned by the memo: a closed run leaves nothing behind, whatever was in flight.
  pub after_events-IsSystem :
      (es : List (Event x)) (s : System x)
      → IsSystem s
      → (t : System x) × (after_events x es s ≡ some t) × IsSystem t
  unfolding after_events
  after_events-IsSystem [] s h = (s, refl, h)
  after_events-IsSystem (e ∷ es) s h =
      let (t, g, i) = step-IsSystem e s h in
      let (u, j, k) = after_events-IsSystem es t i in (u, rw (g, after_events) j, k)
