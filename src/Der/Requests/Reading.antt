-- ===== src/Der/Requests/Reading.antt =====
-- A reader of DER takes the certificate request of src/domain/crypto.rs apart.
use liuzx_skf.Der.{
  der_encode_length, der_wrap, concat, der_sequence, der_bit_string, der_small_integer,
  der_context_0,
}
use liuzx_skf.Der.Reading.{
  read_element, read_elements, read_elements-der_sequence, wrap_all, length-wrap_all,
}
use liuzx_skf.Der.Requests.{request_info, request_der}
use liuzx_skf.Common.{
  length, Bytes, text_eq, ℕ, ◌+◌, ◌≤◌, ◌<◌, ◌≡◌, refl, some, List, [], ◌∷◌, ◌++◌, arith,
}

-- The elements of the part that is signed, and of the request.
abbrev pub info_items : Bytes → Bytes → List (ℕ × Bytes)
info_items subject key = (0x02, 0 ∷ []) ∷ (0x30, subject) ∷ (0x30, key) ∷ (0xA0, []) ∷ []

abbrev pub request_items : Bytes → Bytes → Bytes → List (ℕ × Bytes)
request_items info alg sig_bits = (0x30, info) ∷ (0x30, alg) ∷ (0x03, 0 ∷ sig_bits) ∷ []

small_integer_form : der_small_integer 0 ≡ der_wrap 0x02 (0 ∷ [])
unfolding der_small_integer der_wrap der_encode_length
small_integer_form = refl

request_info_form :
    (subject key : Bytes)
    → request_info (der_wrap 0x30 subject) (der_wrap 0x30 key)
      ≡ der_sequence (wrap_all (info_items subject key))
unfolding request_info der_context_0
request_info_form subject key = rw small_integer_form refl

request_der_form :
    (info alg sig_bits : Bytes)
    → request_der (der_wrap 0x30 info) (der_wrap 0x30 alg) sig_bits
      ≡ der_sequence (wrap_all (request_items info alg sig_bits))
unfolding request_der der_bit_string
request_der_form info alg sig_bits = refl

length-nil : length (concat []) ≡ 0
unfolding concat
length-nil = refl

length-info_items :
    (subject key : Bytes)
    → length (concat (wrap_all (info_items subject key))) ≤ length subject + length key + 17
length-info_items subject key = omega (
  arith,
  length-wrap_all 0x02 (0 ∷ []) ((0x30, subject) ∷ (0x30, key) ∷ (0xA0, []) ∷ []),
  length-wrap_all 0x30 subject ((0x30, key) ∷ (0xA0, []) ∷ []),
  length-wrap_all 0x30 key ((0xA0, []) ∷ []),
  length-wrap_all 0xA0 [] [],
  length-nil,
)

length-request_items :
    (info alg sig_bits : Bytes)
    → length (concat (wrap_all (request_items info alg sig_bits)))
      ≤ length info + length alg + length sig_bits + 13
length-request_items info alg sig_bits = omega (
  arith,
  length-wrap_all 0x30 info ((0x30, alg) ∷ (0x03, 0 ∷ sig_bits) ∷ []),
  length-wrap_all 0x30 alg ((0x03, 0 ∷ sig_bits) ∷ []),
  length-wrap_all 0x03 (0 ∷ sig_bits) [],
  length-nil,
)

-- A request for a subject, a key and an algorithm that are sequences, with a signature, all of them
-- shorter than 65000 bytes together, is read back as one sequence, whatever follows it, of the part
-- that is signed, the algorithm and the signature's bits, all of them used; and that part as the
-- version 0, the subject, the key and an empty set of attributes.
pub read_elements-request_der :
    (subject key alg sig_bits rest : Bytes)
    → length subject + length key + length alg + length sig_bits < 65000
    → (info : Bytes) × (body : Bytes) × (request_info (der_wrap 0x30 subject) (der_wrap 0x30 key)
        ≡ der_wrap 0x30 info)
      × (read_element (
            request_der
              (request_info (der_wrap 0x30 subject) (der_wrap 0x30 key))
              (der_wrap 0x30 alg)
              sig_bits
            ++ rest)
          ≡ some (0x30, body, rest))
      × (read_elements 4 body ≡ some (request_items info alg sig_bits))
      × (read_elements 5 info ≡ some (info_items subject key))
unfolding der_sequence
read_elements-request_der subject key alg sig_bits rest h =
    let info : Bytes = concat (wrap_all (info_items subject key)) in
    let body : Bytes = concat (wrap_all (request_items info alg sig_bits)) in
    let i = length-info_items subject key in
    let b = length-request_items info alg sig_bits in
    let inner =
      read_elements-der_sequence (info_items subject key) []
        (omega arith, (omega (arith, h), (omega (arith, h), (omega arith, tt))))
        (omega (arith, i, h)) in
    let outer =
      read_elements-der_sequence (request_items info alg sig_bits) rest
        (omega (arith, i, h), (omega (arith, h), (omega (arith, h), tt)))
        (omega (arith, b, i, h)) in
    (
      info,
      body,
      request_info_form subject key,
      rw (request_info_form subject key, request_der_form info alg sig_bits) outer.0,
      outer.1,
      inner.1,
    )
