-- ===== src/Der/Integers.antt =====
-- The integers of src/crypto/mod.rs: what is written has the value of the slice, as a DER integer
-- of the shortest form that is not negative.
use liuzx_skf.Der.{der_wrap, strip_zeros, pad, der_encode_integer}
use liuzx_skf.Der.Reading.{read_element, read_element-der_wrap}
use liuzx_skf.Common.{
  ltb, ◌==◌, Bool-cases, length, All, Bytes, text_eq, ℕ, suc, ◌+◌, ◌*◌, ◌≤◌, ◌<◌, ◌≡◌, refl, ◌∙◌,
  ◌≢◌, inl, inr, some, [], ◌∷◌, ◌++◌, arith,
}

-- The number that the bytes stand for, the high byte first, behind the value so far.
abbrev pub be_value : ℕ → Bytes → ℕ
be_value n [] = n
be_value n (b ∷ bytes) = be_value (n * 256 + b) bytes

-- X.690 8.3: there is a byte, the first nine bits are not all zero, and the sign bit is clear.
abbrev pub IsShortest : Bytes → Type 0
IsShortest [] = ⊥
IsShortest (b ∷ []) = b < 128
IsShortest (b ∷ c ∷ bytes) = (b < 128) × (128 ≤ b * 256 + c)

be_value-strip_zeros :
    (b : ℕ) (bytes : Bytes) → be_value 0 (strip_zeros b bytes) ≡ be_value 0 (b ∷ bytes)
unfolding strip_zeros
be_value-strip_zeros b [] = refl
be_value-strip_zeros b (c ∷ bytes) = elim (Bool-cases (b == 0)) [
  | inl zero_byte ↦
      let e : b ≡ 0 = ground arith in rw zero_byte (be_value-strip_zeros c bytes ∙ rw e)
  | inr other ↦ rw other
]

be_value-pad : (bytes : Bytes) → be_value 0 (pad bytes) ≡ be_value 0 bytes
unfolding pad
be_value-pad [] = refl
be_value-pad (b ∷ bytes) = ground arith

length-strip_zeros : (b : ℕ) (bytes : Bytes) → length (strip_zeros b bytes) ≤ suc (length bytes)
unfolding strip_zeros
length-strip_zeros b [] = omega arith
length-strip_zeros b (c ∷ bytes) = ground (arith, length-strip_zeros c bytes)

length-pad : (bytes : Bytes) → length (pad bytes) ≤ suc (length bytes)
unfolding pad
length-pad [] = omega arith
length-pad (b ∷ bytes) = ground arith

-- No zero stands in front of another byte.
abbrev Stripped : Bytes → Type 0
Stripped [] = ⊥
Stripped (b ∷ []) = b < 256
Stripped (b ∷ c ∷ bytes) = (b ≢ 0) × (b < 256)

strip_zeros-Stripped :
    (b : ℕ) (bytes : Bytes) → All (λ x. x < 256) (b ∷ bytes) → Stripped (strip_zeros b bytes)
unfolding strip_zeros
strip_zeros-Stripped b [] h = h.0
strip_zeros-Stripped b (c ∷ bytes) h = elim (Bool-cases (b == 0)) [
  | inl zero_byte ↦ rw zero_byte (strip_zeros-Stripped c bytes h.1)
  | inr other ↦ rw other (ground arith, h.0)
]

pad-IsShortest : (bytes : Bytes) → Stripped bytes → IsShortest (pad bytes)
unfolding pad
pad-IsShortest [] h = h
pad-IsShortest (b ∷ []) h = elim (Bool-cases (ltb b 128)) [
  | inl low ↦ rw low (ground arith)
  | inr high ↦ rw high (omega arith, ground arith)
]
pad-IsShortest (b ∷ c ∷ bytes) h = elim (Bool-cases (ltb b 128)) [
  | inl low ↦ rw low (ground arith, ground arith)
  | inr high ↦ rw high (omega arith, ground arith)
]

-- The content of the integer that a slice with a byte is written as.
pub integer_content :
    (bytes : Bytes)
    → All (λ x. x < 256) bytes
    → 0 < length bytes
    → (content : Bytes) × (der_encode_integer bytes ≡ some (der_wrap 0x02 content))
      × (be_value 0 content ≡ be_value 0 bytes)
      × IsShortest content
      × (length content ≤ suc (length bytes))
unfolding der_encode_integer
integer_content [] h n = absurd (omega arith)
integer_content (b ∷ bytes) h n = (
  pad (strip_zeros b bytes),
  refl,
  be_value-pad (strip_zeros b bytes) ∙ be_value-strip_zeros b bytes,
  pad-IsShortest (strip_zeros b bytes) (strip_zeros-Stripped b bytes h),
  omega (arith, length-pad (strip_zeros b bytes), length-strip_zeros b bytes),
)

-- A slice of up to 65000 bytes, each below 256, that is not empty is written as one element of tag
-- 2, which a reader takes back whatever follows it; its content has the value of the slice and the
-- shortest form of an integer that is not negative.
pub read_element-der_encode_integer :
    (b : ℕ) (bytes rest : Bytes)
    → All (λ x. x < 256) (b ∷ bytes)
    → length bytes < 65000
    → (out : Bytes) × (content : Bytes) × (der_encode_integer (b ∷ bytes) ≡ some out)
      × (read_element (out ++ rest) ≡ some (0x02, content, rest))
      × (be_value 0 content ≡ be_value 0 (b ∷ bytes))
      × IsShortest content
read_element-der_encode_integer b bytes rest h n =
    let (content, form, value, shortest, bound) = integer_content (b ∷ bytes) h (omega arith) in
    (
      der_wrap 0x02 content,
      content,
      form,
      read_element-der_wrap 0x02 content rest (omega (arith, bound)),
      value,
      shortest,
    )
