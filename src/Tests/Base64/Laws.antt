-- ===== src/Tests/Base64/Laws.antt =====
-- What the codec of the standard alphabet keeps to, and the payload limit with it.
use liuzx_skf.Tests.Base64.{
  digit, undigit, encode, group, last_group, join, bytes_of, decode, undigit-digit, digit_range,
}
use liuzx_skf.Protocol.Params.{Params, decode_base64, utf8_len, max_payload_bytes}
use liuzx_skf.Protocol.Params.Limits.{IsBase64, decode_base64-encode, decode_base64_bound}
use liuzx_skf.Common.{
  ◌==◌, Bool-cases, Option-cases, ok, length, length-append, All, Text, Bytes, ◌===◌, text_eq, text,
  text_beq, ℕ, suc, ◌+◌, ◌*◌, ◌/◌, ◌%◌, ◌≤◌, ◌<◌, ◌≡◌, refl, ap, ◌∙◌, inl, inr, false, Option, none,
  some, [], ◌∷◌, ◌++◌, arith,
}

-- What four digits, three or two say.
four_digits :
    (a b c d : ℕ) (rest : Text)
    → a < 64
    → b < 64
    → c < 64
    → d < 64
    → bytes_of (digit a ∷ digit b ∷ digit c ∷ digit d ∷ rest)
      ≡ join
          (some ((a * 4 + b / 16) ∷ (b % 16 * 16 + c / 4) ∷ (c % 4 * 64 + d) ∷ []))
          (bytes_of rest)
unfolding bytes_of group
four_digits a b c d rest p q r s =
    let e : (digit d == b'=') ≡ false = ground (arith, digit_range d s) in
    rw (e, undigit-digit a p, undigit-digit b q, undigit-digit c r, undigit-digit d s) refl

three_digits :
    (a b c : ℕ)
    → a < 64
    → b < 64
    → c < 64
    → bytes_of (digit a ∷ digit b ∷ digit c ∷ b'=' ∷ [])
      ≡ some ((a * 4 + b / 16) ∷ (b % 16 * 16 + c / 4) ∷ [])
unfolding bytes_of last_group text_beq
three_digits a b c p q r = rw (undigit-digit a p, undigit-digit b q, undigit-digit c r) refl

two_digits :
    (a b : ℕ)
    → a < 64
    → b < 64
    → bytes_of (digit a ∷ digit b ∷ b'=' ∷ b'=' ∷ []) ≡ some ((a * 4 + b / 16) ∷ [])
unfolding bytes_of last_group text_beq undigit
two_digits a b p q = rw (undigit-digit a p, undigit-digit b q) refl

bytes_of-encode : (b : Bytes) → All (λ x. x < 256) b → bytes_of (encode b) ≡ some b
unfolding encode
bytes_of-encode [] h = unfold bytes_of in refl
bytes_of-encode (x ∷ []) (h, _) =
    let e : x / 4 % 64 * 4 + x % 4 * 16 / 16 ≡ x = omega arith in
    two_digits (x / 4 % 64) (x % 4 * 16) (omega arith) (omega arith) ∙ ap (λ n. some (n ∷ [])) e
bytes_of-encode (x ∷ y ∷ []) (h, (k, _)) =
    let e : x / 4 % 64 * 4 + (x % 4 * 16 + y / 16 % 16) / 16 ≡ x = omega arith in
    let f : (x % 4 * 16 + y / 16 % 16) % 16 * 16 + y % 16 * 4 / 4 ≡ y = omega arith in
    three_digits (x / 4 % 64) (x % 4 * 16 + y / 16 % 16) (y % 16 * 4) (omega arith) (omega arith)
      (omega arith)
    ∙ rw (e, f) refl
bytes_of-encode (x ∷ y ∷ z ∷ rest) (h, (k, (l, hs))) =
    let e : x / 4 % 64 * 4 + (x % 4 * 16 + y / 16 % 16) / 16 ≡ x = omega arith in
    let f : (x % 4 * 16 + y / 16 % 16) % 16 * 16 + (y % 16 * 4 + z / 64 % 4) / 4 ≡ y =
      omega arith in
    let g : (y % 16 * 4 + z / 64 % 4) % 4 * 64 + z % 64 ≡ z = omega arith in
    four_digits (x / 4 % 64) (x % 4 * 16 + y / 16 % 16) (y % 16 * 4 + z / 64 % 4) (z % 64)
      (encode rest) (omega arith) (omega arith) (omega arith) (omega arith)
    ∙ rw (e, f, g, bytes_of-encode rest hs) (unfold join in refl)

utf8_len-digit : (n : ℕ) (s : Text) → n < 64 → utf8_len (digit n ∷ s) ≡ suc (utf8_len s)
unfolding utf8_len
utf8_len-digit n s h = ground (arith, digit_range n h)

utf8_len-encode : (b : Bytes) → utf8_len (encode b) ≡ (length b + 2) / 3 * 4
unfolding encode
utf8_len-encode [] = unfold utf8_len in refl
utf8_len-encode (x ∷ []) =
    rw (utf8_len-digit (x / 4 % 64) _ (omega arith), utf8_len-digit (x % 4 * 16) _ (omega arith))
      (unfold utf8_len in refl)
utf8_len-encode (x ∷ y ∷ []) =
    rw
      (
        utf8_len-digit (x / 4 % 64) _ (omega arith),
        utf8_len-digit (x % 4 * 16 + y / 16 % 16) _ (omega arith),
        utf8_len-digit (y % 16 * 4) _ (omega arith),
      )
      (unfold utf8_len in refl)
utf8_len-encode (x ∷ y ∷ z ∷ rest) =
    rw
      (
        utf8_len-digit (x / 4 % 64) _ (omega arith),
        utf8_len-digit (x % 4 * 16 + y / 16 % 16) _ (omega arith),
        utf8_len-digit (y % 16 * 4 + z / 64 % 4) _ (omega arith),
        utf8_len-digit (z % 64) _ (omega arith),
      )
      (omega (arith, utf8_len-encode rest))

utf8_len-cons : (c : ℕ) (s : Text) → suc (utf8_len s) ≤ utf8_len (c ∷ s)
unfolding utf8_len
utf8_len-cons c s = ground arith

length-last_group : (x y z : Option ℕ) (b : Bytes) → last_group x y z ≡ some b → length b ≤ 2
unfolding last_group
length-last_group (some a) (some c) (some d) b h = ground arith
length-last_group (some a) (some c) none b h = ground arith
length-last_group (some a) none z b h = cc
length-last_group none y z b h = cc

length-group : (x y z w : Option ℕ) (b : Bytes) → group x y z w ≡ some b → length b ≡ 3
unfolding group
length-group (some a) (some c) (some d) (some e) b h = ground arith
length-group (some a) (some c) (some d) none b h = cc
length-group (some a) (some c) none w b h = cc
length-group (some a) none z w b h = cc
length-group none y z w b h = cc

length-join :
    (x y : Option Bytes) (b : Bytes) (n m : ℕ)
    → join x y ≡ some b
    → ((u : Bytes) → x ≡ some u → length u ≤ n)
    → ((v : Bytes) → y ≡ some v → length v ≤ m)
    → length b ≤ n + m
unfolding join
length-join (some u) (some v) b n m h p q =
    let e : u ++ v ≡ b = cc in rw (← e) (omega (arith, length-append u v, p u refl, q v refl))
length-join (some u) none b n m h p q = cc
length-join none y b n m h p q = cc

length-bytes_of : (t : Text) (b : Bytes) → bytes_of t ≡ some b → length b ≤ utf8_len t / 4 * 3
unfolding bytes_of
length-bytes_of [] b h = ground arith
length-bytes_of (a ∷ []) b h = cc
length-bytes_of (a ∷ c ∷ []) b h = cc
length-bytes_of (a ∷ c ∷ d ∷ []) b h = cc
length-bytes_of (a ∷ c ∷ d ∷ e ∷ rest) b h =
    let long : utf8_len rest + 4 ≤ utf8_len (a ∷ c ∷ d ∷ e ∷ rest) = omega (
      arith,
      utf8_len-cons a (c ∷ d ∷ e ∷ rest),
      utf8_len-cons c (d ∷ e ∷ rest),
      utf8_len-cons d (e ∷ rest),
      utf8_len-cons e rest,
    ) in
    elim (Bool-cases (e == b'=')) [
      | inl padded ↦ elim (Bool-cases (rest === [])) [
        | inl last ↦
            let three : length b ≤ 2 =
              length-last_group (undigit a) (undigit c) (undigit d) b (ground arith) in
            omega arith
        | inr more ↦ ground arith
      ]
      | inr plain ↦
          let joined : length b ≤ 3 + utf8_len rest / 4 * 3 =
            length-join (group (undigit a) (undigit c) (undigit d) (undigit e)) (bytes_of rest) b 3
              (utf8_len rest / 4 * 3) (ground arith)
              (λ u k.
                omega (arith, length-group (undigit a) (undigit c) (undigit d) (undigit e) u k))
              (length-bytes_of rest) in
          omega arith
    ]

standard : IsBase64 encode decode
unfolding decode
standard = record {
  encoded_len = utf8_len-encode;
  decoded_len = λ t b h. ground (arith, length-bytes_of t b, Option-cases (bytes_of t));
  decode-encode = λ b h. rw (decode, bytes_of-encode b h) refl;
}

abbrev request : Params
request = record { values = []; id = none }

decode_base64-encode_example :
    decode_base64 decode request (encode (1 ∷ 2 ∷ 3 ∷ 4 ∷ [])) (text "Invalid base64 data")
    ≡ ok (1 ∷ 2 ∷ 3 ∷ 4 ∷ [])
decode_base64-encode_example =
    decode_base64-encode standard request (1 ∷ 2 ∷ 3 ∷ 4 ∷ []) (text "Invalid base64 data")
      (omega arith, (omega arith, (omega arith, (omega arith, tt)))) (omega arith)

decode_base64_bound_example : length {A = ℕ} (7 ∷ 8 ∷ []) ≤ max_payload_bytes + 2
decode_base64_bound_example =
    decode_base64_bound standard request (encode (7 ∷ 8 ∷ [])) (text "Invalid base64 data")
      (7 ∷ 8 ∷ [])
      (decode_base64-encode standard request (7 ∷ 8 ∷ []) (text "Invalid base64 data")
        (omega arith, (omega arith, tt)) (omega arith))
