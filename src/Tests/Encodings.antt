-- ===== src/Tests/Encodings.antt =====
-- Concrete encodings (src/crypto/mod.rs and src/domain/crypto.rs).
use liuzx_skf.Der.{der_encode_length, der_wrap, der_encode_integer, der_sequence, concat}
use liuzx_skf.Der.Reading.{
  read_element, read_elements, wrap_all, read_element-der_wrap, read_elements-der_sequence,
}
use liuzx_skf.Der.Integers.{be_value, IsShortest, read_element-der_encode_integer}
use liuzx_skf.Der.Signature.{signature_der}
use liuzx_skf.Der.Signature.Reading.{IsCoordinate, read_elements-signature_der}
use liuzx_skf.Der.Names.{build_subject_dn, utf8}
use liuzx_skf.Der.Names.Subject.{Attribute, common_name, country, subject_of}
use liuzx_skf.Der.Names.Subject.Reading.{found, read_name, read_name-build_subject_dn}
use liuzx_skf.Der.Requests.{request_info, request_der, pem, begin_line, last_line}
use liuzx_skf.Der.Requests.Reading.{info_items, request_items, read_elements-request_der}
use liuzx_skf.Der.Requests.Lines.{Filled, split-pem}
use liuzx_skf.Common.{
  replicate, All, All-append, Text, Bytes, text_eq, text, trim_start, is_whitespace, split, ℕ, zero,
  suc, ◌<◌, ◌≡◌, refl, some, List, [], ◌∷◌, ◌++◌, map, arith,
}

read_element-der_wrap_example :
    read_element (der_wrap 0x04 (1 ∷ 2 ∷ []) ++ 9 ∷ []) ≡ some (0x04, 1 ∷ 2 ∷ [], 9 ∷ [])
read_element-der_wrap_example = read_element-der_wrap 0x04 (1 ∷ 2 ∷ []) (9 ∷ []) (omega arith)

read_element-der_encode_integer_example :
    (out : Bytes) × (content : Bytes) × (der_encode_integer (0 ∷ 0x80 ∷ 1 ∷ []) ≡ some out)
    × (read_element (out ++ 9 ∷ []) ≡ some (0x02, content, 9 ∷ []))
    × (be_value 0 content ≡ be_value 0 (0 ∷ 0x80 ∷ 1 ∷ []))
    × IsShortest content
read_element-der_encode_integer_example =
    read_element-der_encode_integer 0 (0x80 ∷ 1 ∷ []) (9 ∷ [])
      (omega arith, (omega arith, (omega arith, tt))) (omega arith)

der_encode_integer_test :
    der_encode_integer (0 ∷ 0 ∷ 0x80 ∷ 1 ∷ []) ≡ some (2 ∷ 3 ∷ 0 ∷ 0x80 ∷ 1 ∷ [])
unfolding der_encode_integer der_wrap der_encode_length
der_encode_integer_test = refl

abbrev two_items : List (ℕ × Bytes)
two_items = (0x02, 5 ∷ []) ∷ (0x0C, b'a' ∷ b'b' ∷ []) ∷ []

read_elements-der_sequence_example :
    (read_element (der_sequence (wrap_all two_items) ++ [])
      ≡ some (0x30, concat (wrap_all two_items), []))
    × (read_elements 3 (concat (wrap_all two_items)) ≡ some two_items)
unfolding concat der_wrap der_encode_length
read_elements-der_sequence_example =
    read_elements-der_sequence two_items [] (omega arith, (omega arith, tt)) (omega arith)

abbrev signature : Bytes
signature = replicate 64 0x81 ++ replicate 64 0x22

All-replicate : (n b : ℕ) → b < 256 → All (λ x. x < 256) (replicate n b)
All-replicate zero b h = tt
All-replicate (suc n) b h = (h, All-replicate n b h)

read_elements-signature_der_example :
    (out : Bytes) × (body : Bytes) × (r : Bytes) × (s : Bytes) × (signature_der signature
      ≡ some out)
    × (read_element (out ++ []) ≡ some (0x30, body, []))
    × (read_elements 3 body ≡ some ((0x02, r) ∷ (0x02, s) ∷ []))
    × IsCoordinate 0 signature r
    × IsCoordinate 64 signature s
read_elements-signature_der_example =
    read_elements-signature_der signature []
      (All-append (λ x. x < 256) (replicate 64 0x81) (replicate 64 0x22)
        (All-replicate 64 0x81 (omega arith)) (All-replicate 64 0x22 (omega arith)))
      (omega arith)

read_elements-request_der_example :
    (info : Bytes) × (body : Bytes) × (request_info
        (der_wrap 0x30 (1 ∷ []))
        (der_wrap 0x30 (2 ∷ 3 ∷ []))
      ≡ der_wrap 0x30 info)
    × (read_element (
          request_der
            (request_info (der_wrap 0x30 (1 ∷ [])) (der_wrap 0x30 (2 ∷ 3 ∷ [])))
            (der_wrap 0x30 (4 ∷ []))
            (5 ∷ 6 ∷ [])
          ++ (7 ∷ []))
        ≡ some (0x30, body, 7 ∷ []))
    × (read_elements 4 body ≡ some (request_items info (4 ∷ []) (5 ∷ 6 ∷ [])))
    × (read_elements 5 info ≡ some (info_items (1 ∷ []) (2 ∷ 3 ∷ [])))
read_elements-request_der_example =
    read_elements-request_der (1 ∷ []) (2 ∷ 3 ∷ []) (4 ∷ []) (5 ∷ 6 ∷ []) (7 ∷ []) (omega arith)

abbrev test_subject : List Attribute
test_subject =
    record { kind = common_name; value = text "Test User" }
    ∷ record { kind = country; value = text "CN" }
    ∷ []

read_name-build_subject_dn_example :
    read_name (build_subject_dn (λ s. s) (subject_of test_subject)) ≡ some (map found test_subject)
unfolding text trim_start is_whitespace utf8
read_name-build_subject_dn_example =
    read_name-build_subject_dn (λ s. s) (λ k. refl) test_subject
      ((omega arith, (refl, refl)), ((omega arith, (refl, refl)), tt)) (omega arith)

split-pem_example :
    (rows : List Text) × (split b'\n' (pem (text "MIIB")) ≡ begin_line ∷ (rows ++ last_line ∷ []))
    × (concat rows ≡ text "MIIB")
    × Filled 0 rows
unfolding text
split-pem_example = split-pem (text "MIIB") (omega arith)
