-- ===== src/Der.antt =====
-- src/crypto/mod.rs: the DER encoders. A byte is a number below 256.
pub mod Reading
pub mod Integers
pub mod Signature
pub mod Names
pub mod Requests
use liuzx_skf.Common.{
  ltb, ◌==◌, if◌then◌else◌, length, Bytes, text_eq, ℕ, ◌/◌, ◌%◌, Option, none, some, List, [], ◌∷◌,
  ◌++◌, arith,
}

-- `der_encode_length`; `as u8` keeps the low byte.
unfoldable pub der_encode_length : ℕ → Bytes
der_encode_length len =
    if ltb len 128
    then len % 256 ∷ []
    else if ltb len 256
    then 0x81 ∷ len % 256 ∷ []
    else 0x82 ∷ len / 256 % 256 ∷ len % 256 ∷ []

-- `der_wrap`
unfoldable pub der_wrap : ℕ → Bytes → Bytes
der_wrap tag content = tag ∷ (der_encode_length (length content) ++ content)

-- `&bytes[start..]` where `start` is the place of the first byte that is not zero, or the last
-- place; an empty slice has no last place, and the source panics.
strip_zeros : ℕ → Bytes → Bytes
strip_zeros b [] = b ∷ []
strip_zeros b (c ∷ bytes) = let rest = strip_zeros c bytes in if b == 0 then rest else b ∷ c ∷ bytes

-- `let needs_pad = !trimmed.is_empty() && (trimmed[0] & 0x80) != 0`
pad : Bytes → Bytes
pad [] = []
pad (b ∷ bytes) = if ltb b 128 then b ∷ bytes else 0 ∷ b ∷ bytes

-- `der_encode_integer`; `none` is the panic on an empty slice.
unfoldable pub der_encode_integer : Bytes → Option Bytes
unfolding strip_zeros pad
der_encode_integer [] = none
der_encode_integer (b ∷ bytes) = some (der_wrap 0x02 (pad (strip_zeros b bytes)))

-- The items of a slice of slices, one behind the other.
unfoldable pub concat : List Bytes → Bytes
concat [] = []
concat (item ∷ items) = item ++ concat items

unfoldable pub der_sequence : List Bytes → Bytes
der_sequence items = der_wrap 0x30 (concat items)

unfoldable pub der_set : List Bytes → Bytes
der_set items = der_wrap 0x31 (concat items)

unfoldable pub der_oid : Bytes → Bytes
der_oid oid = der_wrap 0x06 oid

unfoldable pub der_utf8_string : Bytes → Bytes
der_utf8_string s = der_wrap 0x0C s

unfoldable pub der_printable_string : Bytes → Bytes
der_printable_string s = der_wrap 0x13 s

unfoldable pub der_bit_string : Bytes → Bytes
der_bit_string content = der_wrap 0x03 (0x00 ∷ content)

unfoldable pub der_small_integer : ℕ → Bytes
der_small_integer val = 0x02 ∷ 0x01 ∷ val ∷ []

unfoldable pub der_context_0 : Bytes → Bytes
der_context_0 content = der_wrap 0xA0 content
