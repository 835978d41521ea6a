-- ===== src/Base/Hex.antt =====
-- Go's encoding/hex, fmt's %d of a number, and strings.TrimPrefix and HasPrefix, over bytes.
use Prim.Native.Nat.{ℕ, zero, suc, ◌+◌, ◌-◌, ◌*◌, ◌/◌, ◌%◌, ◌<◌}
use mathlib.Core.Path.{◌≡◌, refl}
use mathlib.Core.Bool.{◌&&◌}
use mathlib.Core.Option.{Option, none, some}
use mathlib.Core.List.{List, [], ◌∷◌, ◌++◌}
use native.Mathlib.Omega.{arith}
use arbiter_core.Base.Tests.{ltb, leb, ◌==◌, if◌then◌else◌}
use arbiter_core.Base.Lists.{All}
use arbiter_core.Base.Order.{Bytes}

unfoldable pub digit_of : ℕ → Option ℕ
digit_of c =
    if leb b'0' c && leb c b'9'
    then some (c - 48)
    else if leb b'a' c && leb c b'f'
    then some (c - 87)
    else if leb b'A' c && leb c b'F'
    then some (c - 55)
    else none

unfoldable pub digit_char : ℕ → ℕ
digit_char d = if ltb d 10 then d + 48 else d + 87

abbrev put_byte : ℕ → ℕ → Option (List ℕ) → Option (List ℕ)
put_byte hi lo none = none
put_byte hi lo (some bs) = some ((16 * hi + lo) ∷ bs)

abbrev byte_then : Option ℕ → Option ℕ → Option (List ℕ) → Option (List ℕ)
byte_then none lo rest = none
byte_then (some h) none rest = none
byte_then (some h) (some l) rest = put_byte h l rest

-- hex.DecodeString: pairs of digits of either case; an odd length is an error.
unfoldable pub decode_string : Bytes → Option (List ℕ)
unfolding digit_of
decode_string [] = some []
decode_string (c ∷ []) = none
decode_string (c ∷ d ∷ cs) = byte_then (digit_of c) (digit_of d) (decode_string cs)

-- hex.EncodeToString, in lower case.
unfoldable pub encode_to_string : List ℕ → Bytes
unfolding digit_char
encode_to_string [] = []
encode_to_string (b ∷ bs) = digit_char (b / 16) ∷ digit_char (b % 16) ∷ encode_to_string bs

digit_of-digit_char : (d : ℕ) → d < 16 → digit_of (digit_char d) ≡ some d
unfolding digit_of digit_char
digit_of-digit_char d h = ground arith

pub decode_string-encode_to_string :
    (bs : List ℕ) → All (λ b. b < 256) bs → decode_string (encode_to_string bs) ≡ some bs
unfolding decode_string encode_to_string
decode_string-encode_to_string [] a = refl
decode_string-encode_to_string (b ∷ bs) a = ground (
  arith,
  digit_of-digit_char (b / 16),
  digit_of-digit_char (b % 16),
  decode_string-encode_to_string bs a.1,
)

-- strings.TrimPrefix(s, "0x").
unfoldable pub trim_0x : Bytes → Bytes
trim_0x [] = []
trim_0x (c ∷ []) = c ∷ []
trim_0x (c ∷ d ∷ cs) = if c == b'0' && d == b'x' then cs else c ∷ d ∷ cs

-- The digits of a number, on fuel: a number has at most as many digits as its successor.
unfoldable pub decimal_on : ℕ → ℕ → Bytes
decimal_on zero n = []
decimal_on (suc f) n =
    let front = decimal_on f (n / 10) in
    if ltb n 10 then (n + 48) ∷ [] else front ++ (n % 10 + 48) ∷ []

unfoldable pub decimal : ℕ → Bytes
unfolding decimal_on
decimal n = decimal_on (suc n) n

-- strings.HasPrefix, with what follows the prefix.
unfoldable pub after_prefix : Bytes → Bytes → Option Bytes
after_prefix [] s = some s
after_prefix (p ∷ ps) [] = none
after_prefix (p ∷ ps) (c ∷ cs) = if p == c then after_prefix ps cs else none

pub after_prefix-append : (p s : Bytes) → after_prefix p (p ++ s) ≡ some s
unfolding after_prefix
after_prefix-append [] s = refl
after_prefix-append (c ∷ p) s = ground (arith, after_prefix-append p s)
