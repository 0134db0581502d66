-- ===== src/Der/Requests.antt =====
-- src/crypto/mod.rs and src/domain/crypto.rs: the DER form of a certificate request, and its text.
pub mod Reading
pub mod Lines
use liuzx_skf.Der.{
  der_encode_integer, der_sequence, der_oid, der_bit_string, der_small_integer, der_context_0,
}
use liuzx_skf.Der.Signature.{slice}
use liuzx_skf.Common.{
  ltb, leb, ◌==◌, if◌then◌else◌, ==_iff, Bool-cases, Option-cases, Result, Result-cases, is_ok, ok,
  err, length, get_elem?, take, drop, replicate, length-append, length-take, length-drop,
  length-replicate, All, All-append, ℤ, as_i32, pos, negsuc, Text, Bytes, Lacks, Eq, ◌===◌, text_eq,
  text_eq_iff, ===-refl, split_once-join, split_once-Lacks, append-split_once, text, text_beq,
  split_once, splitn, trim, decimal-injective, decimal-Lacks, decimal, hex8, get-insert, get-remove,
  get-retain, IsMap, insert-IsMap, remove-IsMap, retain-IsMap, remove_absent, length-insert_absent,
  length-remove, get, insert, remove, retain, ℕ, zero, suc, ◌+◌, ◌-◌, ◌*◌, ◌/◌, ◌%◌, ◌^◌, ◌≤◌, ◌<◌,
  String, ◌≡◌, refl, sym, ap, subst, ◌∙◌, ◌≡⟨◌⟩◌, ◌∎, fun_ext, ◌≢◌, ◌↔◌, ◌⊎◌, inl, inr, Bool, true,
  false, ◌&&◌, ◌||◌, not, Option, none, some, List, [], ◌∷◌, ◌++◌, map, append-nil, append_assoc,
  arith,
}

abbrev pub oid_sm2 : Bytes
oid_sm2 = 0x2A ∷ 0x81 ∷ 0x1C ∷ 0xCF ∷ 0x55 ∷ 0x01 ∷ 0x82 ∷ 0x2D ∷ []

abbrev pub oid_sm3_with_sm2 : Bytes
oid_sm3_with_sm2 = 0x2A ∷ 0x81 ∷ 0x1C ∷ 0xCF ∷ 0x55 ∷ 0x01 ∷ 0x83 ∷ 0x75 ∷ []

abbrev pub oid_ec_public_key : Bytes
oid_ec_public_key = 0x2A ∷ 0x86 ∷ 0x48 ∷ 0xCE ∷ 0x3D ∷ 0x02 ∷ 0x01 ∷ []

abbrev pub oid_rsa : Bytes
oid_rsa = 0x2A ∷ 0x86 ∷ 0x48 ∷ 0x86 ∷ 0xF7 ∷ 0x0D ∷ 0x01 ∷ 0x01 ∷ 0x01 ∷ []

abbrev pub oid_sha256_with_rsa : Bytes
oid_sha256_with_rsa = 0x2A ∷ 0x86 ∷ 0x48 ∷ 0x86 ∷ 0xF7 ∷ 0x0D ∷ 0x01 ∷ 0x01 ∷ 0x0B ∷ []

-- `build_sm2_spki`, of the two coordinates of the blob, which have 64 bytes
unfoldable pub build_sm2_spki : Bytes → Bytes → Bytes
build_sm2_spki x_coordinate y_coordinate =
    let alg = der_sequence (der_oid oid_ec_public_key ∷ der_oid oid_sm2 ∷ []) in
    let point = 0x04 ∷ (take 32 (drop 32 x_coordinate) ++ take 32 (drop 32 y_coordinate)) in
    der_sequence (alg ∷ der_bit_string point ∷ [])

-- The key information of two encoded integers.
unfoldable pub rsa_key_info : Bytes → Bytes → Bytes
rsa_key_info n e =
    let alg = der_sequence (der_oid oid_rsa ∷ (0x05 ∷ 0x00 ∷ []) ∷ []) in
    der_sequence (alg ∷ der_bit_string (der_sequence (n ∷ e ∷ [])) ∷ [])

-- `build_rsa_spki`, of the blob's length, modulus and exponent; `none` is the panic on a key that is
-- longer than the modulus of a blob, or shorter than a byte.
unfoldable pub build_rsa_spki : ℕ → Bytes → Bytes → Option Bytes
unfolding slice rsa_key_info
build_rsa_spki bit_len modulus exponent = elim (slice 0 (bit_len / 8) modulus) [
  | none ↦ none
  | some used ↦ elim (der_encode_integer used) [
    | none ↦ none
    | some n ↦ elim (der_encode_integer exponent) [ none ↦ none | some e ↦ some (rsa_key_info n e) ]
  ]
]

-- The part that is signed: the version, the subject, the key and no attributes.
unfoldable pub request_info : Bytes → Bytes → Bytes
request_info subject_dn spki =
    der_sequence (der_small_integer 0 ∷ subject_dn ∷ spki ∷ der_context_0 [] ∷ [])

-- `let sig_alg = …`
unfoldable pub signature_algorithm : Bool → Bytes → Bytes
signature_algorithm is_ecc oid =
    if is_ecc
    then der_sequence (der_oid oid ∷ [])
    else der_sequence (der_oid oid ∷ (0x05 ∷ 0x00 ∷ []) ∷ [])

-- `let csr_der = …`
unfoldable pub request_der : Bytes → Bytes → Bytes → Bytes
request_der tbs sig_alg sig_bits = der_sequence (tbs ∷ sig_alg ∷ der_bit_string sig_bits ∷ [])

-- The loop of 64 columns, at the `i`-th character.
unfoldable pub columns : ℕ → Text → Text
columns i [] = []
columns i (c ∷ s) =
    let rest = columns (i + 1) s in c ∷ (if (i + 1) % 64 == 0 then b'\n' ∷ rest else rest)

-- `if !pem.ends_with('\n') { pem.push('\n'); }`
unfoldable pub end_line : Text → Text
end_line [] = b'\n' ∷ []
end_line (c ∷ []) = if c == b'\n' then c ∷ [] else c ∷ b'\n' ∷ []
end_line (c ∷ d ∷ s) = c ∷ end_line (d ∷ s)

abbrev pub begin_line : Text
begin_line = text "-----BEGIN CERTIFICATE REQUEST-----"

abbrev pub last_line : Text
last_line = text "-----END CERTIFICATE REQUEST-----"

unfoldable pub pem : Text → Text
unfolding columns end_line
pem csr_b64 = end_line ((begin_line ++ b'\n' ∷ []) ++ columns 0 csr_b64) ++ last_line
