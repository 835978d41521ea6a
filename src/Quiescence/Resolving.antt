-- ===== src/Quiescence/Resolving.antt =====
-- Resolve of member/consensus/quiescence.go against the calls of Observe that run while it asks.
use arbiter_core.Quiescence.{
  QuiescenceBlock, QuiescenceError, Quiescence, tables_of, write_quiescence,
}
use arbiter_core.Quiescence.Resolve.{
  Pending, is_dropped, forgetting, finish_resolve, same_observation,
}
use arbiter_core.Quiescence.Reading.{check_blocks, read_quiescence}
use arbiter_core.Quiescence.Ledger.{InStep}
use arbiter_core.Base.{
  ℕ, refl, Bool, false, Option, none, some, List, [], ◌∷◌, arith, list_eq, nat_eq, Map,
  WriteOutcome, contains, ◌≡◌, ◌≤◌, if◌then◌else◌, keep_if, length, not, ◌&&◌, ◌==◌, lookup,
  Bool-cases, inr, inl, ==_iff,
}

tables_of-keep_if :
    (p : Pending) (resolved : List ℕ) (observations : Map ℕ ℕ) (n : ℕ) (bs : List QuiescenceBlock)
    → tables_of n (keep_if (λ b. not (is_dropped p resolved observations b)) bs) ≡ (
        if contains n resolved && same_observation (lookup n p.observed) (lookup n observations)
        then none
        else tables_of n bs)
unfolding tables_of is_dropped
tables_of-keep_if p resolved observations n [] = ground arith
tables_of-keep_if p resolved observations n (b ∷ bs) = elim (Bool-cases (b.block_seq == n)) [
  | inr e ↦ ground (arith, e, tables_of-keep_if p resolved observations n bs)
  | inl e ↦
      let same : b.block_seq ≡ n = ground (arith, e) in
      rw same (ground (arith, tables_of-keep_if p resolved observations n bs, ==_iff n n))
]

check_blocks-lower :
    (lo hi : ℕ) (bs : List QuiescenceBlock)
    → lo ≤ hi
    → check_blocks hi bs ≡ none
    → check_blocks lo bs ≡ none
unfolding check_blocks
check_blocks-lower lo hi [] h c = refl
check_blocks-lower lo hi (b ∷ bs) h c = ground (arith, h, c)

check_blocks-keep_if :
    (keep : QuiescenceBlock → Bool) (prior : ℕ) (bs : List QuiescenceBlock)
    → check_blocks prior bs ≡ none
    → check_blocks prior (keep_if keep bs) ≡ none
unfolding check_blocks
check_blocks-keep_if keep prior [] c = refl
check_blocks-keep_if keep prior (b ∷ bs) c =
    let rest = check_blocks-keep_if keep b.block_seq bs in
    ground (arith, c, rest, check_blocks-lower prior b.block_seq (keep_if keep bs))

-- What the end of a Resolve leaves.
pub record IsResolved (p : Pending) (resolved : List ℕ) (q : Quiescence)
    (a : Quiescence × Option QuiescenceError) : Type 0 where
  pub dropped :
      a.1 ≡ none
      → (n : ℕ)
      → tables_of n a.0.blocks ≡ (
          if contains n resolved && same_observation (lookup n p.observed) (lookup n q.observations)
          then none
          else tables_of n q.blocks)
  pub in_step : a.1 ≡ none → InStep q → InStep a.0
  pub failed :
      (x : QuiescenceError)
      → a.1 ≡ some x
      → (a.0.blocks ≡ q.blocks) × (a.0.observations ≡ q.observations)

written-IsResolved :
    (w : WriteOutcome) (p : Pending) (resolved : List ℕ) (q : Quiescence)
    → IsResolved p resolved q (
        forgetting p resolved (
          write_quiescence w
            (keep_if (λ b. not (is_dropped p resolved q.observations b)) q.blocks)
            q))
unfolding write_quiescence read_quiescence
written-IsResolved WriteOutcome.written p resolved q = record {
  dropped = λ h n. tables_of-keep_if p resolved q.observations n q.blocks;
  in_step = λ h i.
      let check =
        check_blocks-keep_if (λ b. not (is_dropped p resolved q.observations b)) 0 q.blocks
          i.accepted in
      record { accepted = check; read = rw (check, read_quiescence) refl };
  failed = λ x h. absurd cc;
}
written-IsResolved WriteOutcome.unwritten p resolved q = record {
  dropped = λ h n. absurd cc;
  in_step = λ h i. absurd cc;
  failed = λ x h. (refl, refl);
}
written-IsResolved WriteOutcome.unsynced p resolved q = record {
  dropped = λ h n. absurd cc;
  in_step = λ h i. absurd cc;
  failed = λ x h. (refl, refl);
}

-- The end of Resolve: when its write succeeded it drops exactly the blocks that were resolved and
-- have the observation that they had before the arbiter was asked, keeps every other block as it
-- is, and keeps memory and file in step; when it failed, the blocks and observations in memory are
-- what they were.
pub finish_resolve-IsResolved :
    (w : WriteOutcome) (p : Pending) (resolved : List ℕ) (q : Quiescence)
    → IsResolved p resolved q (finish_resolve w p resolved q)
unfolding finish_resolve contains
finish_resolve-IsResolved w p [] q = record {
  dropped = λ h n. refl;
  in_step = λ h i. i;
  failed = λ x h. absurd cc;
}
finish_resolve-IsResolved w p (seq ∷ seqs) q =
    let asked : (length (seq ∷ seqs) == 0) ≡ false = ground arith in
    rw (asked, finish_resolve) (written-IsResolved w p (seq ∷ seqs) q)
