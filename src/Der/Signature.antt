-- ===== src/Der/Signature.antt =====
-- The DER form of an SM2 signature in src/domain/crypto.rs (`SignData`).
pub mod Reading
use liuzx_skf.Der.{der_encode_integer}
use liuzx_skf.Common.{
  ltb, leb, if◌then◌else◌, length, take, drop, Bytes, text_eq, ℕ, ◌+◌, ◌-◌, ◌%◌, Option, none, some,
  [], ◌∷◌, ◌++◌,
}

-- `&bytes[from..to]`; `none` is the panic of a range that ends behind the slice.
unfoldable pub slice : ℕ → ℕ → Bytes → Option Bytes
slice from to bytes =
    if leb to (length bytes) then some (take (to - from) (drop from bytes)) else none

-- The header and the content that `SignData` writes around the two integers of a signature.
unfoldable pub signature_sequence : Bytes → Bytes → Bytes
signature_sequence r_der s_der =
    let seq_len = length r_der + length s_der in
    (0x30 ∷ (if ltb seq_len 128 then seq_len % 256 ∷ [] else 0x81 ∷ seq_len % 256 ∷ []))
    ++ (r_der ++ s_der)

-- `der_encode_integer(&sig[from..to])`
unfoldable pub coordinate_der : ℕ → ℕ → Bytes → Option Bytes
unfolding slice
coordinate_der from to sig = elim (slice from to sig) [
  | none ↦ none
  | some bytes ↦ der_encode_integer bytes
]

-- The closure of `container.sign_ecc(…).map(|sig| …)`; `none` is a panic.
unfoldable pub signature_der : Bytes → Option Bytes
unfolding coordinate_der signature_sequence
signature_der sig = elim (coordinate_der 0 64 sig) [
  | none ↦ none
  | some r_der ↦ elim (coordinate_der 64 128 sig) [
    | none ↦ none
    | some s_der ↦ some (signature_sequence r_der s_der)
  ]
]
