-- ===== src/Tests/Base64.antt =====
-- The standard alphabet of base64 with padding (RFC 4648, section 4), as a concrete codec for the
-- theorems that take the codec of the crate `base64` as a parameter.
pub mod Laws
use liuzx_skf.Common.{
  ltb, leb, ◌==◌, if◌then◌else◌, Bool-cases, Option-cases, Result, ok, err, length, length-append,
  All, Text, Bytes, ◌===◌, text_eq, text, text_beq, ℕ, suc, ◌+◌, ◌-◌, ◌*◌, ◌/◌, ◌%◌, ◌≤◌, ◌<◌, ◌≡◌,
  refl, ap, ◌∙◌, ◌≢◌, inl, inr, false, ◌&&◌, Option, none, some, [], ◌∷◌, ◌++◌, arith,
}
use liuzx_skf.Protocol.Params.{Params, decode_base64, utf8_len, max_payload_bytes}
use liuzx_skf.Protocol.Params.Limits.{IsBase64, decode_base64-encode, decode_base64_bound}

-- The character of a number below 64, and back.
unfoldable pub digit : ℕ → ℕ
digit n =
    if ltb n 26
    then b'A' + n
    else if ltb n 52
    then 71 + n
    else if ltb n 62
    then n - 4
    else if n == 62
    then b'+'
    else b'/'

unfoldable pub undigit : ℕ → Option ℕ
undigit c =
    if leb b'A' c && leb c b'Z'
    then some (c - b'A')
    else if leb b'a' c && leb c b'z'
    then some (c - 71)
    else if leb b'0' c && leb c b'9'
    then some (c + 4)
    else if c == b'+'
    then some 62
    else if c == b'/'
    then some 63
    else none

unfoldable pub encode : Bytes → Text
unfolding digit
encode [] = []
encode (x ∷ []) = digit (x / 4 % 64) ∷ digit (x % 4 * 16) ∷ b'=' ∷ b'=' ∷ []
encode (x ∷ y ∷ []) =
    digit (x / 4 % 64) ∷ digit (x % 4 * 16 + y / 16 % 16) ∷ digit (y % 16 * 4) ∷ b'=' ∷ []
encode (x ∷ y ∷ z ∷ rest) =
    digit (x / 4 % 64)
    ∷ digit (x % 4 * 16 + y / 16 % 16)
    ∷ digit (y % 16 * 4 + z / 64 % 4)
    ∷ digit (z % 64)
    ∷ encode rest

-- The bytes of four characters: the first two are digits, the others digits or padding at the end.
unfoldable pub group : Option ℕ → Option ℕ → Option ℕ → Option ℕ → Option Bytes
group (some a) (some b) (some c) (some d) =
    some ((a * 4 + b / 16) ∷ (b % 16 * 16 + c / 4) ∷ (c % 4 * 64 + d) ∷ [])
group _ _ _ _ = none

unfoldable pub last_group : Option ℕ → Option ℕ → Option ℕ → Option Bytes
last_group (some a) (some b) (some c) = some ((a * 4 + b / 16) ∷ (b % 16 * 16 + c / 4) ∷ [])
last_group (some a) (some b) none = some ((a * 4 + b / 16) ∷ [])
last_group _ _ _ = none

unfoldable pub join : Option Bytes → Option Bytes → Option Bytes
join (some x) (some y) = some (x ++ y)
join _ _ = none

unfoldable pub bytes_of : Text → Option Bytes
unfolding undigit group last_group join
bytes_of [] = some []
bytes_of (a ∷ b ∷ c ∷ d ∷ rest) =
    let more = bytes_of rest in
    if d == b'='
    then (if rest === [] then last_group (undigit a) (undigit b) (undigit c) else none)
    else join (group (undigit a) (undigit b) (undigit c) (undigit d)) more
bytes_of _ = none

unfoldable pub decode : Text → Result Text Bytes
unfolding bytes_of
decode t = elim (bytes_of t) [ some b ↦ ok b | none ↦ err (text "Invalid symbol") ]

pub undigit-digit : (n : ℕ) → n < 64 → undigit (digit n) ≡ some n
unfolding digit undigit
undigit-digit n h = ground arith

pub digit_range : (n : ℕ) → n < 64 → (digit n < 128) × (digit n ≢ b'=')
unfolding digit
digit_range n h = (ground arith, λ e. ground arith)
