-- ===== src/Quiescence/Resolve.antt =====
-- Resolve of member/consensus/quiescence.go, in two halves around what it asks the arbiter.
use arbiter_core.Quiescence.{
  table_eq, table_ord, QuiescenceBlock, QuiescenceError, Quiescence, write_quiescence,
}
use arbiter_core.Base.{
  ℕ, Bool, true, false, Option, none, some, List, [], ◌∷◌, Bytes, list_eq, nat_eq, list_ord,
  nat_ord, ◌==◌, if◌then◌else◌, Map, lookup, insert, delete, map, length, keep_if, contains, ◌&&◌,
  ◌||◌, not, WriteOutcome,
}

-- What a resolution remembers of the ledger before it asks: the blocks, and their observations.
pub record Pending : Type 0 where
  pub pending : List ℕ
  pub observed : Map ℕ ℕ

abbrev seq_of : QuiescenceBlock → ℕ
seq_of b = b.block_seq

-- `observed[b.BlockSeq] = q.observations[b.BlockSeq]`; a nil pointer is a missing entry.
unfoldable pub observed_of : Map ℕ ℕ → List QuiescenceBlock → Map ℕ ℕ → Map ℕ ℕ
observed_of observations [] observed = observed
observed_of observations (b ∷ blocks) observed = elim (lookup b.block_seq observations) [
  | none ↦ observed_of observations blocks (delete b.block_seq observed)
  | some token ↦ observed_of observations blocks (insert b.block_seq token observed)
]

unfoldable pub begin_resolve : Quiescence → Pending
begin_resolve q = record {
  pending = map seq_of q.blocks;
  observed = observed_of q.observations q.blocks [];
}

-- What the arbiter answers about a block, of the client's reply.
pub record BlockVerification : Type 0 where
  pub verdict_evaluated : Bool
  pub verifier_set : List Bytes

abbrev no_longer_needed : Bytes → Option BlockVerification → Bool
no_longer_needed node none = false
no_longer_needed node (some bv) = bv.verdict_evaluated || not (contains node bv.verifier_set)

-- The blocks resolved; an error of the client, `none`, resolves nothing.
unfoldable pub resolved_blocks : (ℕ → Option BlockVerification) → Bytes → List ℕ → List ℕ
resolved_blocks client node [] = []
resolved_blocks client node (seq ∷ seqs) =
    let rest = resolved_blocks client node seqs in
    if no_longer_needed node (client seq) then seq ∷ rest else rest

-- How many of the blocks could not be read, one error each.
unfoldable pub unread_blocks : (ℕ → Option BlockVerification) → List ℕ → List ℕ
unread_blocks client [] = []
unread_blocks client (seq ∷ seqs) =
    let rest = unread_blocks client seqs in elim (client seq) [ none ↦ seq ∷ rest | some bv ↦ rest ]

-- The same observation, or none on both sides.
abbrev pub same_observation : Option ℕ → Option ℕ → Bool
same_observation none none = true
same_observation (some a) (some b) = a == b
same_observation _ _ = false

unfoldable pub is_dropped : Pending → List ℕ → Map ℕ ℕ → QuiescenceBlock → Bool
is_dropped p resolved observations b =
    contains b.block_seq resolved
    && same_observation (lookup b.block_seq p.observed) (lookup b.block_seq observations)

unfoldable pub forget_observations : Pending → List ℕ → Map ℕ ℕ → Map ℕ ℕ
forget_observations p [] observations = observations
forget_observations p (seq ∷ seqs) observations =
    let kept = forget_observations p seqs observations in
    let dropped = forget_observations p seqs (delete seq observations) in
    if same_observation (lookup seq p.observed) (lookup seq observations) then dropped else kept

abbrev pub forgetting :
    Pending → List ℕ → Quiescence × Option QuiescenceError → Quiescence × Option QuiescenceError
forgetting p resolved (q, none) =
    (record q { observations = forget_observations p resolved q.observations }, none)
forgetting p resolved (q, some e) = (q, some e)

-- Resolve, once every pending block was asked about.
unfoldable pub finish_resolve :
    WriteOutcome → Pending → List ℕ → Quiescence → Quiescence × Option QuiescenceError
finish_resolve w p resolved q =
    if length resolved == 0
    then (q, none)
    else forgetting p resolved (
        write_quiescence w (keep_if (λ b. not (is_dropped p resolved q.observations b)) q.blocks) q)
