-- ===== src/Snode/LtHash.antt =====
-- The accumulators of snode/state.go: parseAccumulatorHex and accumulatorHex over housegate's
-- pkg/lthash, which is a parameter.
use arbiter_core.Base.{
  ℕ, ◌<◌, ◌≡◌, Option, none, some, List, [], ◌∷◌, Bytes, All, trim_0x, decode_string,
  encode_to_string, decode_string-encode_to_string, arith,
}

-- `lthash.Hash` with its operations. AddHash and SubHash change their receiver; here they return it.
pub record LtHash : Type 1 where
  pub Hash : Type 0
  pub new : Hash
  pub add_hash : Hash → Hash → Hash
  pub sub_hash : Hash → Hash → Hash
  pub from_bytes : List ℕ → Option Hash
  pub bytes : Hash → List ℕ

-- What the code relies on: accumulators add and subtract as in a commutative group, and their
-- bytes read back.
pub record IsLtHash (l : LtHash) : Type 0 where
  pub sub_add : (a b : l.Hash) → l.sub_hash (l.add_hash a b) b ≡ a
  pub sub_comm : (a b c : l.Hash) → l.sub_hash (l.sub_hash a b) c ≡ l.sub_hash (l.sub_hash a c) b
  pub add_sub : (a b : l.Hash) → l.add_hash (l.sub_hash a b) b ≡ a
  pub from_bytes-bytes : (h : l.Hash) → l.from_bytes (l.bytes h) ≡ some h
  pub bytes_small : (h : l.Hash) → All (λ b. b < 256) (l.bytes h)

module _ (l : LtHash) where
  open l use {Hash, new, from_bytes, bytes}

  abbrev read_bytes : Option (List ℕ) → Option Hash
  read_bytes none = none
  read_bytes (some bs) = from_bytes bs

  unfoldable pub parse_accumulator_hex : Bytes → Option Hash
  unfolding trim_0x
  parse_accumulator_hex [] = some new
  parse_accumulator_hex (c ∷ cs) = read_bytes (decode_string (trim_0x (c ∷ cs)))

  unfoldable pub accumulator_hex : Hash → Bytes
  accumulator_hex h = b'0' ∷ b'x' ∷ encode_to_string (bytes h)

  -- What accumulatorHex prints, parseAccumulatorHex reads back.
  pub parse-accumulator_hex :
      IsLtHash l → (h : Hash) → parse_accumulator_hex (accumulator_hex h) ≡ some h
  unfolding parse_accumulator_hex accumulator_hex
  parse-accumulator_hex laws h = ground (
    arith,
    decode_string-encode_to_string (bytes h) (laws.bytes_small h),
    laws.from_bytes-bytes h,
  )
