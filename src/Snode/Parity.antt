-- ===== src/Snode/Parity.antt =====
-- A small instance of housegate's lthash.Hash, for the examples: one bit, added modulo 2.
use arbiter_core.Snode.LtHash.{IsLtHash, LtHash}
use arbiter_core.Base.{
  ℕ, ◌%◌, ◌≡◌, Bool, true, false, not, Option, none, some, List, [], ◌∷◌, arith, ◌==◌, All, ◌<◌,
}

abbrev pub parity_add : Bool → Bool → Bool
parity_add false b = b
parity_add true b = not b

abbrev pub parity_bytes : Bool → List ℕ
parity_bytes true = 1 ∷ []
parity_bytes false = 0 ∷ []

abbrev pub parity_from : List ℕ → Option Bool
parity_from [] = none
parity_from (b ∷ []) = some (b % 2 == 1)
parity_from (b ∷ c ∷ bs) = none

abbrev pub parity : LtHash
parity = record {
  Hash = Bool;
  new = false;
  add_hash = parity_add;
  sub_hash = parity_add;
  from_bytes = parity_from;
  bytes = parity_bytes;
}

pub xor_back : (a b : Bool) → parity_add (parity_add a b) b ≡ a
xor_back a b = ground arith

pub xor_swap : (a b c : Bool) → parity_add (parity_add a b) c ≡ parity_add (parity_add a c) b
xor_swap a b c = ground arith

pub parity_back : (h : Bool) → parity_from (parity_bytes h) ≡ some h
parity_back h = ground arith

pub parity_small : (h : Bool) → All (λ b. b < 256) (parity_bytes h)
parity_small true = omega arith
parity_small false = omega arith

pub parity-IsLtHash : IsLtHash parity
parity-IsLtHash = record {
  sub_add = xor_back;
  sub_comm = xor_swap;
  add_sub = xor_back;
  from_bytes-bytes = parity_back;
  bytes_small = parity_small;
}
