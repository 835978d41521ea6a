-- ===== src/ReplayMemo/Answers.antt =====
-- Replay of verifier/replay_executor_memo.go against the executor alone.
use arbiter_core.ReplayMemo.Requests.{has_query, memo_request, private-memo_request}
use arbiter_core.ReplayMemo.{MemoKey, MemoEntry, Memo, memo_key_eq, get, put, replay_memo_bytes}
use arbiter_core.ReplayMemo.Sound.{put-there, get-same, get-entry}
use arbiter_core.ReplayMemo.Calls.{
  Request, job_digest, encode_request, decode_request, Executor, ReplayMemoJob, MemoRun,
  CallContext, ReplayError, context_ended, executor_failed, Process, executed, Begun, answered,
  pending, locked_get, begin_replay, locked_put, finish_replay, is_foreign, same_bytes, bound,
  found, missed, stored, has_ended, rebuilt, hit_of,
}
use arbiter_core.Base.{
  ℕ, refl, Bool, true, Option, none, some, arith, list_eq, nat_eq, ◌≟◌, Bytes, lookup, length, ◌≡◌,
  ltb, inl, inr, Bool-cases, Option-cases, ap, sym, ◌∙◌, Result, ok, err, ◌⊎◌, ◌&&◌, ◌||◌, not,
  false,
}

-- sha256 tells the bytes of requests apart.
pub record Laws (x : Executor) : Type 0 where
  pub tells_apart : (a b : Bytes) → x.digest a ≡ x.digest b → a ≡ b

-- JSON reads back what it wrote of a request and of its outcome.
pub record ReadsBack (x : Executor) (req : Request x) : Type 0 where
  pub request_back :
      (wire encoded : Bytes)
      → x.marshal_request (memo_request wire req) ≡ some encoded
      → x.unmarshal_request encoded ≡ some (memo_request wire req)
  pub outcome_back :
      (out : x.Outcome) (encoded : Bytes)
      → x.execute req ≡ some out
      → x.encode_outcome out ≡ some encoded
      → x.decode_outcome encoded ≡ some out

pub some_eq {ℓ} : {A : Type ℓ} {a b : A} → some a ≡ some b → a ≡ b
some_eq h = cc

module _ (x : Executor) (laws : Laws x) where
  open x use {Outcome, execute, digest, outcome_query, encode_outcome, decode_outcome}

  -- The key is the digest of what decodes to the request.
  abbrev pub IsAsked : MemoKey → Request x → Type 0
  IsAsked k own =
      (encoded : Bytes) × (decode_request x encoded ≡ some own) × (digest encoded ≡ k.digest)

  -- The value is the encoded outcome of the executor at a request of the key.
  abbrev pub IsAnswer : MemoKey → Bytes → Type 0
  IsAnswer k v =
      (own : Request x) × (out : Outcome) × IsAsked k own
      × (execute own ≡ some out)
      × (encode_outcome out ≡ some v)

  abbrev pub IsSound : Process → Type 0
  IsSound p = (k : MemoKey) (e : MemoEntry) → lookup k p.memo.entries ≡ some e → IsAnswer k e.value

  -- The private request of a request without a query is the request.
  decode-encode_request :
      (wire encoded : Bytes) (req : Request x)
      → ReadsBack x req
      → has_query req ≡ false
      → encode_request x wire req ≡ some encoded
      → decode_request x encoded ≡ some req
  unfolding decode_request encode_request
  decode-encode_request wire encoded req b q e =
      ap (rebuilt x) (b.request_back wire encoded e) ∙ ap some (private-memo_request wire req q)

  -- The answer is the executor's, or that of a context that had ended.
  abbrev pub IsRight : Bool → Request x → Result ReplayError Outcome → Type 0
  IsRight ended req a = (a ≡ executed x req) ⊎ ((a ≡ err context_ended) × (ended ≡ true))

  -- The request to execute is that of its key; where the JSON reads back, the answer is right and
  -- the request to execute is the one asked.
  abbrev pub IsRightBegun : Bool → Request x → Begun x → Type 0
  IsRightBegun ended req (answered a) = ReadsBack x req → IsRight ended req a
  IsRightBegun ended req (pending k own) = IsAsked k own × (ReadsBack x req → own ≡ req)

  executed-ok : (req : Request x) (out : Outcome) → execute req ≡ some out → executed x req ≡ ok out
  unfolding executed
  executed-ok req out e = rw (e, executed) refl

  executed-none : (req : Request x) → execute req ≡ none → executed x req ≡ err executor_failed
  unfolding executed
  executed-none req e = rw (e, executed) refl

  missed-IsRight :
      (ended : Bool) (k : MemoKey) (wire encoded : Bytes) (req : Request x)
      → has_query req ≡ false
      → encode_request x wire req ≡ some encoded
      → digest encoded ≡ k.digest
      → IsRightBegun ended req (missed x k encoded req)
  missed-IsRight ended k wire encoded req q e d = elim (Option-cases (decode_request x encoded)) [
    | inl f ↦ rw (f, IsRightBegun) (λ b. inl refl)
    | inr (own, f) ↦
        rw (f, IsRightBegun)
          ((encoded, f, d), λ b. some_eq (sym f ∙ decode-encode_request wire encoded req b q e))
  ]

  hit-IsRight :
      (k : MemoKey) (wire encoded v : Bytes) (req : Request x)
      → ReadsBack x req
      → has_query req ≡ false
      → encode_request x wire req ≡ some encoded
      → digest encoded ≡ k.digest
      → IsAnswer k v
      → (out : Outcome) × (decode_outcome v ≡ some out) × (execute req ≡ some out)
  hit-IsRight k wire encoded v req b q e d (own, out, (other, reads, at), runs, writes) =
      let same = laws.tells_apart encoded other (d ∙ sym at) in
      let back : decode_request x other ≡ some req =
        ap (decode_request x) (sym same) ∙ decode-encode_request wire encoded req b q e in
      let mine : own ≡ req = some_eq (sym reads ∙ back) in
      let asked = ap execute (sym mine) ∙ runs in (out, b.outcome_back out v asked writes, asked)

  hit_of-IsRight :
      (c : CallContext) (ended : Bool) (k : MemoKey) (wire encoded v : Bytes) (req : Request x)
      (o : Option Outcome)
      → has_ended c ≡ ended
      → has_query req ≡ false
      → encode_request x wire req ≡ some encoded
      → digest encoded ≡ k.digest
      → IsAnswer k v
      → decode_outcome v ≡ o
      → IsRightBegun ended req (hit_of x c k encoded req o)
  hit_of-IsRight c ended k wire encoded v req none z q e d a u =
      missed-IsRight ended k wire encoded req q e d
  hit_of-IsRight c ended k wire encoded v req (some o) z q e d a u =
      elim (Bool-cases c.ended_at_hit) [
        | inl f ↦ rw (f, IsRightBegun) (λ b. inr (refl, ground (arith, f, z)))
        | inr f ↦
            rw (f, IsRightBegun)
              (λ b.
                let (out, back, runs) = hit-IsRight k wire encoded v req b q e d a in
                inl (sym (executed-ok req o (runs ∙ sym back ∙ u))))
      ]

  found-IsRight :
      (c : CallContext) (ended : Bool) (k : MemoKey) (wire encoded : Bytes) (req : Request x)
      (v : Option Bytes)
      → has_ended c ≡ ended
      → has_query req ≡ false
      → encode_request x wire req ≡ some encoded
      → digest encoded ≡ k.digest
      → ((w : Bytes) → v ≡ some w → IsAnswer k w)
      → IsRightBegun ended req (found x c k encoded req v)
  found-IsRight c ended k wire encoded req none z q e d h =
      missed-IsRight ended k wire encoded req q e d
  found-IsRight c ended k wire encoded req (some v) z q e d h =
      hit_of-IsRight c ended k wire encoded v req (decode_outcome v) z q e d (h v refl) refl

  abbrev pub IsRightly : Bool → Request x → Process × Begun x → Type 0
  IsRightly ended req b = IsSound b.0 × IsRightBegun ended req b.1

  locked_get-IsRightly :
      (c : CallContext) (ended : Bool) (wire encoded : Bytes) (req : Request x) (r : ℕ)
      (run : MemoRun) (p : Process)
      → has_ended c ≡ ended
      → has_query req ≡ false
      → encode_request x wire req ≡ some encoded
      → IsSound p
      → IsRightly ended req (locked_get x c encoded req r run p)
  unfolding locked_get
  locked_get-IsRightly c ended wire encoded req r run p z q e h =
      let k : MemoKey = record { run = r; digest = digest encoded } in
      elim (Bool-cases (run.closed || is_foreign p.memo.number run.owner)) [
        | inl f ↦ rw f (h, λ b. inl refl)
        | inr f ↦ rw f (
          λ j g a. h j g (sym (ap (lookup j) (get-same k p.memo).0) ∙ a),
          found-IsRight c ended k wire encoded req (get k p.memo).1 z q e refl
              (λ w a. let (g, there, same) = get-entry k p.memo w a in rw (← same) (h k g there)),
        )
      ]

  bound-IsRightly :
      (c : CallContext) (ended : Bool) (req : Request x) (job : ReplayMemoJob) (r : ℕ)
      (run : MemoRun) (p : Process)
      → has_ended c ≡ ended
      → IsSound p
      → IsRightly ended req (bound x c req job r run p)
  bound-IsRightly c ended req job r run p z h =
      elim (Bool-cases (not (run.identity ≟ p.memo.identity) || has_query req)) [
        | inl f ↦ rw f (h, λ b. inl refl)
        | inr f ↦ elim (Bool-cases (not (same_bytes (job_digest x req) job.job))) [
          | inl g ↦ rw (f, g) (h, λ b. inl refl)
          | inr g ↦ elim (Option-cases (encode_request x job.wire req)) [
            | inl u ↦ rw (f, g, u) (h, λ b. inl refl)
            | inr (encoded, u) ↦ elim (Bool-cases (ltb replay_memo_bytes (length encoded))) [
              | inl v ↦ rw (f, g, u, v) (h, λ b. inl refl)
              | inr v ↦
                  rw (f, g, u, v)
                    (locked_get-IsRightly c ended job.wire encoded req r run p z (ground (arith, f))
                      u h)
            ]
          ]
        ]
      ]

  pub begin_replay-IsRightly :
      (c : CallContext) (ended : Bool) (req : Request x) (p : Process)
      → has_ended c ≡ ended
      → IsSound p
      → IsRightly ended req (begin_replay x c req p)
  unfolding begin_replay
  begin_replay-IsRightly c ended req p z h = elim (Bool-cases (not c.given)) [
    | inl e ↦ rw (e, begin_replay) (h, λ b. inl refl)
    | inr e ↦ elim (Bool-cases c.ended_at_start) [
      | inl f ↦ rw (e, f, begin_replay) (h, λ b. inr (refl, ground (arith, f, z)))
      | inr f ↦ elim (Option-cases c.run) [
        | inl u ↦ rw (e, f, u, begin_replay) (h, λ b. inl refl)
        | inr (r, u) ↦ elim (Option-cases c.job) [
          | inl v ↦ rw (e, f, u, v, begin_replay) (h, λ b. inl refl)
          | inr (job, v) ↦ elim (Option-cases (lookup r p.runs)) [
            | inl w ↦ rw (e, f, u, v, w, begin_replay) (h, λ b. inl refl)
            | inr (run, w) ↦
                rw (e, f, u, v, w, begin_replay) (bound-IsRightly c ended req job r run p z h)
          ]
        ]
      ]
    ]
  ]

  abbrev pub IsRightEnd : Bool → Request x → Option (Process × Result ReplayError Outcome) → Type 0
  IsRightEnd ended req none = Unit
  IsRightEnd ended req (some (q, a)) = IsRight ended req a

  abbrev pub IsSoundEnd : Option (Process × Result ReplayError Outcome) → Type 0
  IsSoundEnd none = Unit
  IsSoundEnd (some (q, a)) = IsSound q

  stored-IsRight :
      (c : CallContext) (ended : Bool) (out : Outcome) (req : Request x) (r : Option Process)
      → has_ended c ≡ ended
      → execute req ≡ some out
      → IsRightEnd ended req (stored x c out r)
  stored-IsRight c ended out req none z e = tt
  stored-IsRight c ended out req (some q) z e = elim (Bool-cases c.ended_at_end) [
    | inl f ↦ rw (f, IsRightEnd) (inr (refl, ground (arith, f, z)))
    | inr f ↦ simp (f, IsRightEnd) (inl (sym (executed-ok req out e)))
  ]

  pub finish_replay-IsRight :
      (c : CallContext) (ended : Bool) (k : MemoKey) (own : Request x) (p : Process)
      → has_ended c ≡ ended
      → ReadsBack x own
      → IsRightEnd ended own (finish_replay x c k own p)
  unfolding finish_replay
  finish_replay-IsRight c ended k own p z b = elim (Option-cases (execute own)) [
    | inl e ↦ simp (e, finish_replay) (inl (sym (executed-none own e)))
    | inr (out, e) ↦ elim (Bool-cases c.ended_after) [
      | inl f ↦ simp (e, f, finish_replay) (inr (refl, ground (arith, f, z)))
      | inr f ↦
          let right = sym (executed-ok own out e) in
          elim (Bool-cases (outcome_query out)) [
            | inl g ↦ simp (e, f, g, finish_replay) (inl right)
            | inr g ↦ elim (Option-cases (encode_outcome out)) [
              | inl u ↦ simp (e, f, g, u, finish_replay) (inl right)
              | inr (encoded, u) ↦
                  let v = b.outcome_back out encoded e u in
                  simp (e, f, g, u, v, finish_replay)
                    (stored-IsRight c ended out own (locked_put x c k encoded p) z e)
            ]
          ]
    ]
  ]

  put_at-IsSound :
      (k : MemoKey) (encoded : Bytes) (p : Process) (m : Memo)
      → IsAnswer k encoded
      → put k encoded p.memo ≡ some m
      → IsSound p
      → IsSound (record p { memo = m })
  put_at-IsSound k encoded p m a g h j f there = elim (put-there k encoded p.memo m j f g there) [
    | inl b ↦ h j f b
    | inr (same, b) ↦ rw (← same, b) a
  ]

  abbrev IsSoundPut : Option Process → Type 0
  IsSoundPut none = Unit
  IsSoundPut (some q) = IsSound q

  locked_put-IsSound :
      (c : CallContext) (k : MemoKey) (encoded : Bytes) (p : Process)
      → IsAnswer k encoded
      → IsSound p
      → IsSoundPut (locked_put x c k encoded p)
  unfolding locked_put
  locked_put-IsSound c k encoded p a h = elim (Option-cases (lookup k.run p.runs)) [
    | inl e ↦ rw (e, locked_put) h
    | inr (run, e) ↦ elim (Bool-cases (not run.closed && not c.ended_at_put)) [
      | inr f ↦ rw (e, f, locked_put) h
      | inl f ↦ elim (Option-cases (put k encoded p.memo)) [
        | inl g ↦ rw (e, f, g, locked_put) tt
        | inr (m, g) ↦ rw (e, f, g, locked_put) (put_at-IsSound k encoded p m a g h)
      ]
    ]
  ]

  stored-IsSound :
      (c : CallContext) (out : Outcome) (r : Option Process)
      → IsSoundPut r
      → IsSoundEnd (stored x c out r)
  stored-IsSound c out none h = tt
  stored-IsSound c out (some q) h = h

  pub finish_replay-IsSound :
      (c : CallContext) (k : MemoKey) (own : Request x) (p : Process)
      → IsAsked k own
      → IsSound p
      → IsSoundEnd (finish_replay x c k own p)
  unfolding finish_replay
  finish_replay-IsSound c k own p asked h = elim (Option-cases (execute own)) [
    | inl e ↦ simp (e, finish_replay) h
    | inr (out, e) ↦ elim (Bool-cases c.ended_after) [
      | inl f ↦ simp (e, f, finish_replay) h
      | inr f ↦ elim (Bool-cases (outcome_query out)) [
        | inl g ↦ simp (e, f, g, finish_replay) h
        | inr g ↦ elim (Option-cases (encode_outcome out)) [
          | inl u ↦ simp (e, f, g, u, finish_replay) h
          | inr (encoded, u) ↦ elim (Option-cases (decode_outcome encoded)) [
            | inl v ↦ simp (e, f, g, u, v, finish_replay) h
            | inr (copy, v) ↦
                simp (e, f, g, u, v, finish_replay)
                  (stored-IsSound c copy (locked_put x c k encoded p)
                    (locked_put-IsSound c k encoded p (own, out, asked, e, u) h))
          ]
        ]
      ]
    ]
  ]
