-- ===== src/Protocol/Params.antt =====
-- src/protocol/params.rs: typed access to the positional parameters of a request. The decoder of
-- the crate `base64` is an argument.
pub mod Limits
use liuzx_skf.Protocol.{Json, RpcResponse, respond_err, as_str, as_u64, as_bool}
use liuzx_skf.Common.{
  ltb, if◌then◌else◌, Result, ok, err, get_elem?, negsuc, Text, Bytes, ◌===◌, text_eq, text,
  decimal, ℕ, ◌+◌, ◌*◌, ◌/◌, Bool, Option, none, some, List, [], ◌∷◌, ◌++◌, arith,
}

abbrev pub max_payload_bytes : ℕ
max_payload_bytes = 256 * 1024

abbrev pub max_encoded_bytes : ℕ
max_encoded_bytes = max_payload_bytes / 3 * 4 + 4

pub record Params : Type 0 where
  pub values : List Json
  pub id : Option Json

-- `self.values.get(index).and_then(f)`
unfoldable pub value_at : {A : Type 0} → (Json → Option A) → Params → ℕ → Option A
value_at f p index = elim (get_elem? p.values index) [ none ↦ none | some v ↦ f v ]

-- `Option::unwrap_or`
unfoldable pub unwrap_or : {A : Type 0} → Option A → A → A
unwrap_or none d = d
unwrap_or (some a) d = a

-- `Params::reject`
unfoldable pub reject : Params → Text → RpcResponse
reject p message = respond_err (negsuc 1) message p.id

-- `ok_or_else(|| self.reject(message))`
unfoldable pub or_reject : {A : Type 0} → Option A → Params → Text → Result RpcResponse A
unfolding reject
or_reject none p message = err (reject p message)
or_reject (some a) p message = ok a

unfoldable pub required_str : Params → ℕ → Text → Result RpcResponse Text
unfolding or_reject value_at as_str
required_str p index message = or_reject (value_at as_str p index) p message

unfoldable pub optional_str : Params → ℕ → Text → Text
unfolding unwrap_or value_at as_str
optional_str p index default = unwrap_or (value_at as_str p index) default

unfoldable pub required_u64 : Params → ℕ → Text → Result RpcResponse ℕ
unfolding or_reject value_at as_u64
required_u64 p index message = or_reject (value_at as_u64 p index) p message

unfoldable pub optional_u64 : Params → ℕ → ℕ → ℕ
unfolding unwrap_or value_at as_u64
optional_u64 p index default = unwrap_or (value_at as_u64 p index) default

unfoldable pub optional_bool : Params → ℕ → Bool → Bool
unfolding unwrap_or value_at as_bool
optional_bool p index default = unwrap_or (value_at as_bool p index) default

-- The bytes that one code point takes in UTF-8, and `str::len`, which counts bytes.
utf8_width : ℕ → ℕ
utf8_width c = if ltb c 0x80 then 1 else if ltb c 0x800 then 2 else if ltb c 0x10000 then 3 else 4

unfoldable pub utf8_len : Text → ℕ
unfolding utf8_width
utf8_len [] = 0
utf8_len (c ∷ s) = utf8_width c + utf8_len s

-- `Params::check_payload_len`
unfoldable pub check_payload_len : Params → Text → Result RpcResponse (Unit {0})
check_payload_len p encoded =
    if ltb max_encoded_bytes (utf8_len encoded)
    then err (
        reject p (
          text "Payload too large: "
          ++ decimal (utf8_len encoded)
          ++ text " bytes (limit "
          ++ decimal max_payload_bytes
          ++ text ")"))
    else ok tt

module _ (decode : Text → Result Text Bytes) where
  -- `Params::decode_base64`; the decoder's error is its `Display` text.
  unfoldable pub decode_base64 : Params → Text → Text → Result RpcResponse Bytes
  unfolding check_payload_len
  decode_base64 p encoded message = elim (check_payload_len p encoded) [
    | err r ↦ err r
    | ok u ↦ elim (decode encoded) [
      | ok bytes ↦ ok bytes
      | err e ↦ err (reject p (message ++ text ": " ++ e))
    ]
  ]

  unfoldable pub required_base64 : Params → ℕ → Text → Result RpcResponse Bytes
  unfolding decode_base64 required_str
  required_base64 p index message = elim (required_str p index message) [
    | err r ↦ err r
    | ok encoded ↦ decode_base64 p encoded message
  ]

  unfoldable pub optional_base64 : Params → ℕ → Bytes
  unfolding value_at as_str
  optional_base64 p index = elim (value_at as_str p index) [
    | none ↦ []
    | some encoded ↦
        if encoded === [] then [] else elim (decode encoded) [ ok bytes ↦ bytes | err e ↦ [] ]
  ]
