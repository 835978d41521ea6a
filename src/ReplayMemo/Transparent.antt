-- ===== src/ReplayMemo/Transparent.antt =====
-- Replay of verifier/replay_executor_memo.go against the executor alone, over every history.
use arbiter_core.ReplayMemo.{memo_key_eq, new_memo}
use arbiter_core.ReplayMemo.Sound.{remove_run-IsMemo}
use arbiter_core.ReplayMemo.Runs.{IsKept, IsOwned}
use arbiter_core.ReplayMemo.Histories.{
  IsSystem, step-IsSystem, new_system-IsSystem, after_events-IsSystem, call_at-All, drop_at-All,
  begin_replay-IsBegun, finish_replay-IsKept, IsPending,
}
use arbiter_core.ReplayMemo.Calls.{
  Request, Executor, MemoRun, CallContext, ReplayError, context_ended, Process, new_process,
  open_run, forget_run, close_run, executed, Begun, answered, pending, begin_replay, finish_replay,
  replay, replayed, InFlight, System, Event, opens, begins, finishes, closes, forgets, started,
  call_at, drop_at, step, after_events, new_system, without_run, is_owned, has_ended,
}
use arbiter_core.Base.{
  ℕ, refl, Bool, true, some, List, [], ◌∷◌, arith, list_eq, nat_eq, Bytes, lookup, ◌≡◌, inl, inr,
  Bool-cases, Option-cases, Result, err, All, ◌⊎◌,
}
use arbiter_core.ReplayMemo.Answers.{
  Laws, ReadsBack, some_eq, IsAsked, IsSound, IsRight, IsRightBegun, begin_replay-IsRightly,
  finish_replay-IsRight, finish_replay-IsSound,
}

module _ (x : Executor) (laws : Laws x) where
  open x use {Outcome}

  -- The requests of the calls in flight are those of their keys.
  abbrev IsSoundSystem : System x → Type 0
  IsSoundSystem s =
      IsSound x laws s.process × All (λ (f : InFlight x). IsAsked x laws f.key f.own) s.in_flight

  without_run-IsSound :
      (r : ℕ) (run : MemoRun) (p : Process)
      → IsKept p
      → IsSound x laws p
      → IsSound x laws (without_run r run p)
  without_run-IsSound r run p kept h = elim (Bool-cases (is_owned p.memo.number run.owner)) [
    | inr e ↦ rw e h
    | inl e ↦
        let (m, n, gone, there) = remove_run-IsMemo r p.memo kept.is_memo in
        rw e (λ k f g. h k f (there k f g))
  ]

  open_run-IsSound :
      (r : ℕ) (id : Bytes) (p : Process) → IsSound x laws p → IsSound x laws (open_run r id p)
  unfolding open_run
  open_run-IsSound r id p h = elim (Option-cases (lookup r p.runs)) [
    | inl e ↦ rw (e, open_run) h
    | inr (run, e) ↦ rw (e, open_run) h
  ]

  forget_run-IsSound :
      (r : ℕ) (p : Process) → IsKept p → IsSound x laws p → IsSound x laws (forget_run r p)
  unfolding forget_run
  forget_run-IsSound r p kept h = elim (Option-cases (lookup r p.runs)) [
    | inl e ↦ rw (e, forget_run) h
    | inr (run, e) ↦ rw (e, forget_run) (without_run-IsSound r run p kept h)
  ]

  close_run-IsSound :
      (r : ℕ) (p : Process) → IsKept p → IsSound x laws p → IsSound x laws (close_run r p)
  unfolding close_run
  close_run-IsSound r p kept h = elim (Option-cases (lookup r p.runs)) [
    | inl e ↦ rw (e, close_run) h
    | inr (run, e) ↦ elim (Bool-cases (is_owned p.memo.number run.owner)) [
      | inr f ↦ rw (e, f, close_run) h
      | inl f ↦
          let (m, n, gone, there) = remove_run-IsMemo r p.memo kept.is_memo in
          rw (e, f, close_run) (λ k g a. h k g (there k g a))
    ]
  ]

  started-IsAsked :
      (c : CallContext) (ended : Bool) (req : Request x) (b : Begun x) (calls : List (InFlight x))
      → IsRightBegun x laws ended req b
      → All (λ (f : InFlight x). IsAsked x laws f.key f.own) calls
      → All (λ (f : InFlight x). IsAsked x laws f.key f.own) (started x c b calls)
  unfolding started
  started-IsAsked c ended req (answered a) calls h all = all
  started-IsAsked c ended req (pending k own) calls h all = (h.0, all)

  step-IsSound :
      (e : Event x) (s t : System x)
      → IsSystem x s
      → IsSoundSystem s
      → step x e s ≡ some t
      → IsSoundSystem t
  unfolding step
  step-IsSound (opens r id) s t i h g = rw (← some_eq g) (open_run-IsSound r id s.process h.0, h.1)
  step-IsSound (closes r) s t i h g =
      rw (← some_eq g) (close_run-IsSound r s.process i.is_kept h.0, h.1)
  step-IsSound (forgets r) s t i h g =
      rw (← some_eq g) (forget_run-IsSound r s.process i.is_kept h.0, h.1)
  step-IsSound (begins c req) s t i h g =
      let b = begin_replay x c req s.process in
      let (sound, right) = begin_replay-IsRightly x laws c (has_ended c) req s.process refl h.0 in
      rw (← some_eq g) (sound, started-IsAsked c (has_ended c) req b.1 s.in_flight right h.1)
  step-IsSound (finishes n) s t i h g = elim (Option-cases (call_at x n s.in_flight)) [
    | inl e ↦ let same : s ≡ t = ground (arith, g, e) in rw (← same) h
    | inr (f, e) ↦
        let asked =
          call_at-All x (λ (q : InFlight x). IsAsked x laws q.key q.own) n s.in_flight f e h.1 in
        let sound = finish_replay-IsSound x laws f.context f.key f.own s.process asked h.0 in
        elim (Option-cases (finish_replay x f.context f.key f.own s.process)) [
          | inl u ↦ absurd (ground (arith, g, e, u))
          | inr ((q, a), u) ↦
              let after : System x = record { process = q; in_flight = drop_at x n s.in_flight } in
              let same : after ≡ t = ground (arith, g, e, u) in
              let kept : IsSound x laws q = rw u at sound in
              rw (← same) (
                kept,
                drop_at-All x (λ (y : InFlight x). IsAsked x laws y.key y.own) n s.in_flight h.1,
              )
        ]
  ]

  after_events-IsSound :
      (es : List (Event x)) (s t : System x)
      → IsSystem x s
      → IsSoundSystem s
      → after_events x es s ≡ some t
      → IsSoundSystem t
  unfolding after_events
  after_events-IsSound [] s t i h g = rw (← some_eq g) h
  after_events-IsSound (e ∷ es) s t i h g =
      let (u, j, k) = step-IsSystem x e s i in
      let rest : after_events x es u ≡ some t = ground (arith, g, j) in
      after_events-IsSound es u t k (step-IsSound e s u i h j) rest

  new_system-IsSound : (n : ℕ) (id : Bytes) → IsSoundSystem (new_system x n id)
  unfolding new_system new_process new_memo lookup
  new_system-IsSound n id = (λ k e h. absurd cc, tt)

  -- What other calls do to the process: the memo stays as its calls keep it, and its runs its own.
  abbrev pub IsHarmless : (Process → Process) → Type 0
  IsHarmless others =
      (p : Process) → IsKept p → IsKept (others p) × ((i : ℕ) → IsOwned p i → IsOwned (others p) i)

  -- The memo changes no answer. After any history of calls from an empty memo, and whatever other
  -- calls do to the process while the executor runs, as long as they keep the memo's bounds and
  -- runs, a call of Replay ends, and answers what the executor alone answers for its request, or
  -- the context's error, if its context had ended; where JSON reads back what it writes of that
  -- request and of the executor's result for it.
  pub replay-IsRight :
      (n : ℕ) (id : Bytes) (es : List (Event x)) (s : System x) (c : CallContext) (req : Request x)
      → (others : Process → Process) → after_events x es (new_system x n id) ≡ some s
      → IsHarmless others
      → ReadsBack x req
      → (t : Process) × (a : Result ReplayError Outcome) × (replay x c req others s.process
          ≡ some (t, a))
        × ((a ≡ executed x req) ⊎ ((a ≡ err context_ended) × (has_ended c ≡ true)))
  unfolding replay
  replay-IsRight n id es s c req others g harmless reads =
      let sound =
        after_events-IsSound es (new_system x n id) s (new_system-IsSystem x n id)
          (new_system-IsSound n id) g in
      let (t, e, system) =
        after_events-IsSystem x es (new_system x n id) (new_system-IsSystem x n id) in
      let same : t ≡ s = ground (arith, e, g) in
      let kept : IsKept s.process = rw (← same) system.is_kept in
      let b = begin_replay x c req s.process in
      let (begun, owns, owned) = begin_replay-IsBegun x c req s.process kept in
      ended_right b.1 (begin_replay-IsRightly x laws c (has_ended c) req s.process refl sound.0).1
        begun owned
    where
      ended_right :
          (b : Begun x)
          → IsRightBegun x laws (has_ended c) req b
          → IsKept (begin_replay x c req s.process).0
          → IsPending x (begin_replay x c req s.process).0 b
          → (t : Process) × (a : Result ReplayError Outcome) × (replayed x c others
                (begin_replay x c req s.process).0
                b
              ≡ some (t, a))
            × IsRight x laws (has_ended c) req a
      ended_right (answered a) r kept owned = ((begin_replay x c req s.process).0, a, refl, r reads)
      ended_right (pending k own) r kept owned =
          let (calm, owns) = harmless (begin_replay x c req s.process).0 kept in
          let p = others (begin_replay x c req s.process).0 in
          let (q, a, e, after, keeps) = finish_replay-IsKept x c k own p (owns k.run owned) calm in
          let mine : own ≡ req = r.1 reads in
          let own_reads : ReadsBack x own = rw mine reads in
          let right = finish_replay-IsRight x laws c (has_ended c) k own p refl own_reads in
          let answer : IsRight x laws (has_ended c) own a = rw e at right in
          (q, a, e, rw (← mine) answer)
