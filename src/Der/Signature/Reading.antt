-- ===== src/Der/Signature/Reading.antt =====
-- A reader of DER takes the signature of src/domain/crypto.rs back to its two numbers.
use liuzx_skf.Der.{concat, der_encode_integer, concat, der_wrap, der_encode_length}
use liuzx_skf.Der.Reading.{read_element, read_elements, read_element-der_wrap, read_elements-concat}
use liuzx_skf.Der.Integers.{integer_content, be_value, IsShortest}
use liuzx_skf.Der.Signature.{slice, coordinate_der, signature_sequence, signature_der}
use liuzx_skf.Common.{
  leb, length, take, drop, length-append, length-take, length-drop, All, Bytes, text_eq, ℕ, zero,
  suc, ◌+◌, ◌-◌, ◌≤◌, ◌<◌, ◌≡◌, refl, ap, subst, true, some, [], ◌∷◌, ◌++◌, append-nil, arith,
}

-- Every part of a row of bytes is one.
All-take : (n : ℕ) (xs : Bytes) → All (λ b. b < 256) xs → All (λ b. b < 256) (take n xs)
All-take zero xs h = tt
All-take (suc n) [] h = tt
All-take (suc n) (x ∷ xs) h = (h.0, All-take n xs h.1)

All-drop : (n : ℕ) (xs : Bytes) → All (λ b. b < 256) xs → All (λ b. b < 256) (drop n xs)
All-drop zero xs h = h
All-drop (suc n) [] h = tt
All-drop (suc n) (x ∷ xs) h = All-drop n xs h.1

slice_lem :
    (from : ℕ) (sig : Bytes)
    → from + 64 ≤ length sig
    → slice from (from + 64) sig ≡ some (take 64 (drop from sig))
unfolding slice
slice_lem from sig h =
    let e : from + 64 - from ≡ 64 = omega arith in
    let fits : leb (from + 64) (length sig) ≡ true = ground arith in rw (fits, e) refl

-- The `r` or the `s` of a signature, as the content of an integer.
abbrev pub IsCoordinate : ℕ → Bytes → Bytes → Type 0
IsCoordinate from sig content =
    (be_value 0 content ≡ be_value 0 (take 64 (drop from sig))) × IsShortest content

coordinate_der_form :
    (from to : ℕ) (sig bytes out : Bytes)
    → slice from to sig ≡ some bytes
    → der_encode_integer bytes ≡ some out
    → coordinate_der from to sig ≡ some out
unfolding coordinate_der
coordinate_der_form from to sig bytes out h e = rw (coordinate_der, h) e

signature_der_form :
    (sig r_der s_der : Bytes)
    → coordinate_der 0 64 sig ≡ some r_der
    → coordinate_der 64 128 sig ≡ some s_der
    → signature_der sig ≡ some (signature_sequence r_der s_der)
unfolding signature_der
signature_der_form sig r_der s_der h e = rw (signature_der, h) (rw e refl)

read_elements-pair :
    (r s : Bytes)
    → length r < 65536
    → length s < 65536
    → read_elements 3 (der_wrap 0x02 r ++ der_wrap 0x02 s) ≡ some ((0x02, r) ∷ (0x02, s) ∷ [])
unfolding concat
read_elements-pair r s h k =
    let e : der_wrap 0x02 r ++ (der_wrap 0x02 s ++ []) ≡ der_wrap 0x02 r ++ der_wrap 0x02 s =
      ap (λ x. der_wrap 0x02 r ++ x) (append-nil (der_wrap 0x02 s)) in
    subst (λ b. read_elements 3 b ≡ some ((0x02, r) ∷ (0x02, s) ∷ [])) e
      (read_elements-concat 3 ((0x02, r) ∷ (0x02, s) ∷ []) (omega arith) (h, (k, tt)))

coordinate_der_lem :
    (from : ℕ) (sig : Bytes)
    → All (λ b. b < 256) sig
    → from + 64 ≤ length sig
    → (content : Bytes) × (coordinate_der from (from + 64) sig ≡ some (der_wrap 0x02 content))
      × IsCoordinate from sig content
      × (length content ≤ 65)
coordinate_der_lem from sig h n =
    let bytes : Bytes = take 64 (drop from sig) in
    let len : length bytes ≡ 64 =
      omega (arith, length-take 64 (drop from sig), length-drop from sig) in
    let (content, form, value, shortest, bound) =
      integer_content bytes (All-take 64 (drop from sig) (All-drop from sig h)) (omega arith) in
    (
      content,
      coordinate_der_form from (from + 64) sig bytes (der_wrap 0x02 content) (slice_lem from sig n)
          form,
      (value, shortest),
      omega arith,
    )

length-der_wrap :
    (tag : ℕ) (content : Bytes)
    → length content < 128
    → length (der_wrap tag content) ≡ length content + 2
unfolding der_wrap der_encode_length
length-der_wrap tag content h = ground arith

signature_sequence-der_wrap :
    (r s : Bytes) → length r + length s < 256 → signature_sequence r s ≡ der_wrap 0x30 (r ++ s)
unfolding signature_sequence der_wrap der_encode_length
signature_sequence-der_wrap r s h = ground (arith, length-append r s)

-- A signature of 128 bytes or more, each below 256, is written without a panic as one element of tag 0x30, whatever
-- follows it; its content is read as two integers of the shortest form, which have the values of
-- the first 64 bytes and of the next 64.
pub read_elements-signature_der :
    (sig rest : Bytes)
    → All (λ b. b < 256) sig
    → 128 ≤ length sig
    → (out : Bytes) × (body : Bytes) × (r : Bytes) × (s : Bytes) × (signature_der sig ≡ some out)
      × (read_element (out ++ rest) ≡ some (0x30, body, rest))
      × (read_elements 3 body ≡ some ((0x02, r) ∷ (0x02, s) ∷ []))
      × IsCoordinate 0 sig r
      × IsCoordinate 64 sig s
read_elements-signature_der sig rest h n =
    let (r, r_form, r_value, r_bound) = coordinate_der_lem 0 sig h (omega arith) in
    let (s, s_form, s_value, s_bound) = coordinate_der_lem 64 sig h (omega arith) in
    let r_der : Bytes = der_wrap 0x02 r in
    let s_der : Bytes = der_wrap 0x02 s in
    let sum : length r_der + length s_der < 256 =
      omega (arith, length-der_wrap 0x02 r (omega arith), length-der_wrap 0x02 s (omega arith)) in
    (
      signature_sequence r_der s_der,
      r_der ++ s_der,
      r,
      s,
      signature_der_form sig r_der s_der r_form s_form,
      rw (signature_sequence-der_wrap r_der s_der sum) (
          read_element-der_wrap 0x30 (r_der ++ s_der) rest
            (omega (arith, length-append r_der s_der))),
      read_elements-pair r s (omega arith) (omega arith),
      r_value,
      s_value,
    )
