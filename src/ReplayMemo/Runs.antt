-- ===== src/ReplayMemo/Runs.antt =====
-- The runs of verifier/replay_executor_memo.go: opening, forgetting and closing one.
use arbiter_core.ReplayMemo.{MemoKey, MemoEntry, Memo, memo_key_eq, remove_run, new_memo}
use arbiter_core.ReplayMemo.Bounded.{new_memo-IsMemo}
use arbiter_core.ReplayMemo.Elements.{IsMemo}
use arbiter_core.ReplayMemo.Sound.{remove_run-IsMemo}
use arbiter_core.ReplayMemo.Calls.{
  MemoRun, Process, new_process, open_run, forget_run, close_run, without_run, is_owned,
}
use arbiter_core.Base.{
  ℕ, refl, true, false, none, some, arith, list_eq, nat_eq, ◌≟◌, ≟_iff, ≟_refl, Map, Bytes, lookup,
  insert, ◌≡◌, inl, inr, Bool-cases, Option-cases, lookup-insert, ap, sym, ◌∙◌,
}

-- The memo is in its bounds, and each entry is of a run that is open and owned by the memo.
pub record IsKept (p : Process) : Type 0 where
  pub is_memo : IsMemo p.memo
  pub kept :
      (k : MemoKey) (e : MemoEntry)
      → lookup k p.memo.entries ≡ some e
      → (run : MemoRun) × (lookup k.run p.runs ≡ some run)
        × (run.closed ≡ false)
        × (run.owner ≡ some p.memo.number)

-- The memo took the run for its own.
abbrev pub IsOwned : Process → ℕ → Type 0
IsOwned p r = (run : MemoRun) × (lookup r p.runs ≡ some run) × (run.owner ≡ some p.memo.number)

pub new_process-IsKept : (n : ℕ) (id : Bytes) → IsKept (new_process n id)
unfolding new_process lookup new_memo
new_process-IsKept n id = record { is_memo = new_memo-IsMemo n id; kept = λ k e h. absurd cc }

pub open_run-IsKept :
    (r : ℕ) (id : Bytes) (p : Process)
    → IsKept p
    → IsKept (open_run r id p) × ((i : ℕ) → IsOwned p i → IsOwned (open_run r id p) i)
unfolding open_run
open_run-IsKept r id p h = elim (Option-cases (lookup r p.runs)) [
  | inr (run, e) ↦ rw (e, open_run) (h, λ i o. o)
  | inl e ↦
      let fresh : MemoRun = record { identity = id; owner = none; closed = false } in
      let others : (i : ℕ) (run : MemoRun)
          → lookup i p.runs ≡ some run
          → lookup i (insert r fresh p.runs) ≡ some run =
        λ i run g. run-other r i fresh run p e g in
      rw (e, open_run)
        (
          record {
            is_memo = h.is_memo;
            kept = λ k f g. let (run, a, b, c) = h.kept k f g in (run, others k.run run a, b, c);
          },
          λ i o. let (run, a, b) = o in (run, others i run a, b),
        )
]
  where
    run-other :
        (r i : ℕ) (fresh run : MemoRun) (p : Process)
        → lookup r p.runs ≡ none
        → lookup i p.runs ≡ some run
        → lookup i (insert r fresh p.runs) ≡ some run
    run-other r i fresh run p e g =
        ground (arith, g, e, ≟_iff r i, ap (λ j. lookup j p.runs), lookup-insert r i fresh p.runs)

without_run-IsKept :
    (r : ℕ) (run : MemoRun) (p : Process)
    → IsKept p
    → IsKept (without_run r run p) × ((i : ℕ) → IsOwned p i → IsOwned (without_run r run p) i)
without_run-IsKept r run p h = elim (Bool-cases (is_owned p.memo.number run.owner)) [
  | inr e ↦ rw e (h, λ i o. o)
  | inl e ↦
      let (m, n, gone, there) = remove_run-IsMemo r p.memo h.is_memo in
      rw e (
        record {
          is_memo = m;
          kept = λ k f g.
              let (own, a, b, c) = h.kept k f (there k f g) in (own, a, b, c ∙ ap some (sym n));
        },
        λ i o. let (own, a, b) = o in (own, a, b ∙ ap some (sym n)),
      )
]

pub forget_run-IsKept :
    (r : ℕ) (p : Process)
    → IsKept p
    → IsKept (forget_run r p) × ((i : ℕ) → IsOwned p i → IsOwned (forget_run r p) i)
unfolding forget_run
forget_run-IsKept r p h = elim (Option-cases (lookup r p.runs)) [
  | inl e ↦ rw (e, forget_run) (h, λ i o. o)
  | inr (run, e) ↦ rw (e, forget_run) (without_run-IsKept r run p h)
]

-- The run of a key, with one run changed.
pub changed-run :
    (r i : ℕ) (to : MemoRun) (runs : Map ℕ MemoRun) (own : MemoRun)
    → lookup i runs ≡ some own
    → (r ≟ i) ≡ false
    → lookup i (insert r to runs) ≡ some own
changed-run r i to runs own g p = ground (arith, g, p, lookup-insert r i to runs)

pub changed-IsOwned :
    (r : ℕ) (to : MemoRun) (p : Process) (m : Memo)
    → m.number ≡ p.memo.number
    → (IsOwned p r → to.owner ≡ some p.memo.number)
    → (i : ℕ) → IsOwned p i
    → IsOwned (record { memo = m; runs = insert r to p.runs }) i
changed-IsOwned r to p m n keeps i (own, a, b) = elim (Bool-cases (r ≟ i)) [
  | inr q ↦ (own, changed-run r i to p.runs own a q, b ∙ ap some (sym n))
  | inl q ↦
      let at = (≟_iff r i).0 q in
      (
        to,
        ground (arith, q, lookup-insert r i to p.runs),
        keeps (own, ap (λ j. lookup j p.runs) at ∙ a, b) ∙ ap some (sym n),
      )
]

pub close_run-IsKept :
    (r : ℕ) (p : Process)
    → IsKept p
    → IsKept (close_run r p) × ((i : ℕ) → IsOwned p i → IsOwned (close_run r p) i)
unfolding close_run
close_run-IsKept r p h = elim (Option-cases (lookup r p.runs)) [
  | inl e ↦ rw (e, close_run) (h, λ i o. o)
  | inr (run, e) ↦
      let to : MemoRun = record run { closed = true } in
      let keeps : IsOwned p r → to.owner ≡ some p.memo.number = λ o.
        let (own, a, b) = o in
        let same : run ≡ own = ground (arith, e, a) in ap (λ (q : MemoRun). q.owner) same ∙ b in
      elim (Bool-cases (is_owned p.memo.number run.owner)) [
        | inr f ↦
            rw (e, f, close_run)
              (
                record {
                  is_memo = h.is_memo;
                  kept = λ k g c.
                      let (own, a, b, d) = h.kept k g c in
                      elim (Bool-cases (r ≟ k.run)) [
                        | inr q ↦ (own, changed-run r k.run to p.runs own a q, b, d)
                        | inl q ↦
                            let there : lookup r p.runs ≡ some own =
                              ap (λ j. lookup j p.runs) ((≟_iff r k.run).0 q) ∙ a in
                            absurd (ground (arith, there, e, d, f, ≟_refl p.memo.number))
                      ];
                },
                changed-IsOwned r to p p.memo refl keeps,
              )
        | inl f ↦
            let (m, n, gone, there) = remove_run-IsMemo r p.memo h.is_memo in
            rw (e, f, close_run)
              (
                record {
                  is_memo = m;
                  kept = λ k g c.
                      let (own, a, b, d) = h.kept k g (there k g c) in
                      elim (Bool-cases (r ≟ k.run)) [
                        | inr q ↦
                            (own, changed-run r k.run to p.runs own a q, b, d ∙ ap some (sym n))
                        | inl q ↦ absurd (ground (arith, c, gone k (sym ((≟_iff r k.run).0 q))))
                      ];
                },
                changed-IsOwned r to p (remove_run r p.memo) n keeps,
              )
      ]
]
