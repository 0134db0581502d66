-- ===== src/Protocol/Params/Limits.antt =====
-- The payload limit of src/protocol/params.rs.
use liuzx_skf.Protocol.Params.{Params, max_payload_bytes, utf8_len, decode_base64}
use liuzx_skf.Common.{
  Result, ok, length, All, Text, Bytes, text_eq, ◌+◌, ◌*◌, ◌/◌, ◌≤◌, ◌<◌, ◌≡◌, arith,
}

-- What the documentation of the standard base64 alphabet says of lengths: `n` bytes are written
-- with four characters for each three bytes begun, and a text of `m` characters, each one byte of
-- UTF-8, is read as at most three bytes for each four characters.
pub record IsBase64 (encode : Bytes → Text) (decode : Text → Result Text Bytes) : Type 0 where
  pub encoded_len : (b : Bytes) → utf8_len (encode b) ≡ (length b + 2) / 3 * 4
  pub decoded_len : (t : Text) (b : Bytes) → decode t ≡ ok b → length b ≤ utf8_len t / 4 * 3
  pub decode-encode : (b : Bytes) → All (λ x. x < 256) b → decode (encode b) ≡ ok b

module _ {encode : Bytes → Text} {decode : Text → Result Text Bytes}
    (base64 : IsBase64 encode decode) where
  -- With a codec that keeps the lengths and the round trip of base64, the encoding of a payload of
  -- up to two bytes more than the limit is never turned away: it is decoded to the payload.
  pub decode_base64-encode :
      (p : Params) (b : Bytes) (message : Text)
      → All (λ x. x < 256) b
      → length b ≤ max_payload_bytes + 2
      → decode_base64 decode p (encode b) message ≡ ok b
  unfolding decode_base64
  decode_base64-encode p b message a h =
      ground (arith, base64.encoded_len b, base64.decode-encode b a)

  -- With a codec that keeps the lengths and the round trip of base64, what is decoded is at most two
  -- bytes longer than the limit.
  pub decode_base64_bound :
      (p : Params) (encoded message : Text) (b : Bytes)
      → decode_base64 decode p encoded message ≡ ok b
      → length b ≤ max_payload_bytes + 2
  unfolding decode_base64
  decode_base64_bound p encoded message b h = ground (arith, base64.decoded_len encoded b)
