-- ===== src/Snode/State/Registration.antt =====
-- NextRegistrationSeq of snode/state.go over histories with failed writes and restarts.
use arbiter_core.Snode.State.{
  StateError, Store, next_registration_seq, persist_state, reopen, u64, write_failed,
}
use arbiter_core.Base.{
  ℕ, suc, ◌+◌, ◌<◌, ◌≤◌, ◌≡◌, refl, List, [], ◌∷◌, arith, Above, Result, ok, err, WriteOutcome,
  length, inl, inr, ◌⊎◌, max,
}

-- A call of NextRegistrationSeq with what the file system answers and the clock, or a restart.
pub data Event : Type 0 where
  reserve : WriteOutcome → ℕ → Event
  restart : Event

abbrev listed : Result StateError ℕ → List ℕ → List ℕ
listed (ok n) ns = n ∷ ns
listed (err e) ns = ns

-- The numbers that a history returned, in order.
unfoldable pub returned : List Event → Store → List ℕ
returned [] s = []
returned (reserve w now ∷ es) s =
    let r = next_registration_seq w now s in listed r.1 (returned es r.0)
returned (restart ∷ es) s = returned es (reopen s)

-- The clock's values in a history.
abbrev pub ClocksAtMost : ℕ → List Event → Type 0
ClocksAtMost hi [] = Unit
ClocksAtMost hi (reserve w now ∷ es) = (now ≤ hi) × ClocksAtMost hi es
ClocksAtMost hi (restart ∷ es) = ClocksAtMost hi es

clocks_mono : (hi : ℕ) (es : List Event) → ClocksAtMost hi es → ClocksAtMost (suc hi) es
clocks_mono hi [] c = tt
clocks_mono hi (reserve w now ∷ es) c = (omega arith, clocks_mono hi es c.1)
clocks_mono hi (restart ∷ es) c = clocks_mono hi es c

-- The numbers reserved in memory and file lie between two bounds.
record Between (lo hi : ℕ) (s : Store) : Type 0 where
  memory_above : lo ≤ s.memory.registration_seq
  memory_below : s.memory.registration_seq ≤ hi
  file_above : lo ≤ s.file.registration_seq
  file_below : s.file.registration_seq ≤ hi

reserve-cases :
    (w : WriteOutcome) (now lo hi : ℕ) (s : Store)
    → Between lo hi s
    → now ≤ hi
    → suc hi < 18446744073709551616
    → let r = next_registration_seq w now s in
      ((n : ℕ) × (r.1 ≡ ok n) × (lo < n) × Between n (suc hi) r.0)
      ⊎ ((e : StateError) × (r.1 ≡ err e) × Between lo (suc hi) r.0)
unfolding next_registration_seq persist_state
reserve-cases WriteOutcome.written now lo hi s b c h =
    inl (max (u64 (s.memory.registration_seq + 1)) now, refl, ground arith, ground arith)
reserve-cases WriteOutcome.unwritten now lo hi s b c h = inr (write_failed, refl, ground arith)
reserve-cases WriteOutcome.unsynced now lo hi s b c h = inr (write_failed, refl, ground arith)

returned-Above :
    (es : List Event) (lo hi : ℕ) (s : Store)
    → Between lo hi s
    → ClocksAtMost hi es
    → hi + length es < 18446744073709551616
    → Above lo (returned es s)
unfolding returned
returned-Above [] lo hi s b c h = tt
returned-Above (reserve w now ∷ es) lo hi s b c h =
    let r = next_registration_seq w now s in
    let c' = clocks_mono hi es c.1 in
    elim (reserve-cases w now lo hi s b c.0 (omega arith)) [
      | inl (n, e, lt, b') ↦ rw e (lt, returned-Above es n (suc hi) r.0 b' c' (omega arith))
      | inr (x, e, b') ↦ rw e (returned-Above es lo (suc hi) r.0 b' c' (omega arith))
    ]
returned-Above (restart ∷ es) lo hi s b c h =
    returned-Above es lo hi (reopen s) (unfold reopen in ground arith) c (omega arith)

-- No registration number is returned twice: over any history of calls, whose writes may fail before
-- or after the rename, and of restarts from the file, the returned numbers strictly ascend, and all
-- are above the number that the file held, while the clock and the history stay below 2^64.
pub next_registration_seq-Above :
    (es : List Event) (hi : ℕ) (s : Store)
    → s.memory.registration_seq ≡ s.file.registration_seq
    → s.file.registration_seq ≤ hi
    → ClocksAtMost hi es
    → hi + length es < 18446744073709551616
    → Above s.file.registration_seq (returned es s)
next_registration_seq-Above es hi s same b c h =
    returned-Above es s.file.registration_seq hi s (ground arith) c h
