-- ===== src/Der/Reading.antt =====
-- What the encoders of src/crypto/mod.rs write is read back by a reader of DER, which follows the
-- rules of X.690 for definite lengths and knows nothing of the encoders.
use liuzx_skf.Der.{der_encode_length, der_wrap, concat, der_sequence}
use liuzx_skf.Common.{
  ltb, if◌then◌else◌, length, Bytes, text_eq, ℕ, zero, suc, ◌+◌, ◌-◌, ◌*◌, ◌<◌, ◌≡◌, refl, Option,
  none, some, [], ◌∷◌, ◌++◌, append_assoc, arith, List, All, ◌≤◌, length-append,
}

-- The value of `count` length octets, the high one first.
read_octets : ℕ → ℕ → Bytes → Option (ℕ × Bytes)
read_octets zero n bytes = some (n, bytes)
read_octets (suc count) n [] = none
read_octets (suc count) n (b ∷ bytes) = read_octets count (n * 256 + b) bytes

-- A length: one octet below 128, or the number of the octets that follow.
pub read_length : Bytes → Option (ℕ × Bytes)
unfolding read_octets
read_length [] = none
read_length (b ∷ bytes) = if ltb b 128 then some (b, bytes) else read_octets (b - 128) 0 bytes

-- The first `n` bytes and the rest.
split_at : ℕ → Bytes → Option (Bytes × Bytes)
split_at zero bytes = some ([], bytes)
split_at (suc n) [] = none
split_at (suc n) (b ∷ bytes) = elim (split_at n bytes) [
  | none ↦ none
  | some (x, y) ↦ some (b ∷ x, y)
]

read_value : ℕ → Option (ℕ × Bytes) → Option (ℕ × Bytes × Bytes)
unfolding split_at
read_value tag none = none
read_value tag (some (n, bytes)) = elim (split_at n bytes) [
  | none ↦ none
  | some (content, rest) ↦ some (tag, content, rest)
]

-- One element: its tag, its content and what follows.
pub read_element : Bytes → Option (ℕ × Bytes × Bytes)
unfolding read_value read_length
read_element [] = none
read_element (tag ∷ bytes) = read_value tag (read_length bytes)

split_at-append :
    (content rest : Bytes) → split_at (length content) (content ++ rest) ≡ some (content, rest)
unfolding split_at
split_at-append [] rest = refl
split_at-append (b ∷ content) rest = rw (split_at-append content rest)

-- A length that fits two octets is read back.
pub read_length-der_encode_length :
    (n : ℕ) (rest : Bytes) → n < 65536 → read_length (der_encode_length n ++ rest) ≡ some (n, rest)
unfolding read_length der_encode_length
read_length-der_encode_length n rest h = ground arith

-- An element whose content is shorter than 65536 bytes is read back, whatever follows it.
pub read_element-der_wrap :
    (tag : ℕ) (content rest : Bytes)
    → length content < 65536
    → read_element (der_wrap tag content ++ rest) ≡ some (tag, content, rest)
unfolding read_element der_wrap
read_element-der_wrap tag content rest h =
    rw (append_assoc, read_length-der_encode_length (length content) (content ++ rest) h)
      (rw (read_value, split_at-append content rest))

-- A row of elements, each with its tag, up to `fuel` of them.
pub read_elements : ℕ → Bytes → Option (List (ℕ × Bytes))
read_elements zero bytes = none
read_elements (suc fuel) [] = some []
read_elements (suc fuel) (b ∷ bytes) = elim (read_element (b ∷ bytes)) [
  | none ↦ none
  | some (tag, content, rest) ↦ elim (read_elements fuel rest) [
    | none ↦ none
    | some items ↦ some ((tag, content) ∷ items)
  ]
]

abbrev pub wrap_all : List (ℕ × Bytes) → List Bytes
wrap_all [] = []
wrap_all ((tag, content) ∷ items) = der_wrap tag content ∷ wrap_all items

abbrev pub Short : List (ℕ × Bytes) → Type 0
Short = All (λ item. length item.1 < 65536)

read_elements_step :
    (fuel tag : ℕ) (bytes content rest : Bytes) (items : List (ℕ × Bytes))
    → read_element bytes ≡ some (tag, content, rest)
    → read_elements fuel rest ≡ some items
    → read_elements (suc fuel) bytes ≡ some ((tag, content) ∷ items)
unfolding read_elements
read_elements_step fuel tag [] content rest items h e = unfold read_element in cc
read_elements_step fuel tag (b ∷ bytes) content rest items h e = ground arith

pub read_elements-concat :
    (fuel : ℕ) (items : List (ℕ × Bytes))
    → length items < fuel
    → Short items
    → read_elements fuel (concat (wrap_all items)) ≡ some items
unfolding read_elements concat
read_elements-concat zero items h p = absurd (omega arith)
read_elements-concat (suc fuel) [] h p = refl
read_elements-concat (suc fuel) ((tag, content) ∷ items) h p =
    read_elements_step fuel tag (der_wrap tag content ++ concat (wrap_all items)) content
      (concat (wrap_all items)) items
      (read_element-der_wrap tag content (concat (wrap_all items)) p.0)
      (read_elements-concat fuel items (omega arith) p.1)

-- A sequence of elements is read back as one element of tag 0x30 whose content is read back as
-- those elements, in order, as long as it all fits two octets of length.
pub read_elements-der_sequence :
    (items : List (ℕ × Bytes)) (rest : Bytes)
    → Short items
    → length (concat (wrap_all items)) < 65536
    → (read_element (der_sequence (wrap_all items) ++ rest)
        ≡ some (0x30, concat (wrap_all items), rest))
      × (read_elements (suc (length items)) (concat (wrap_all items)) ≡ some items)
unfolding der_sequence
read_elements-der_sequence items rest p h = (
  read_element-der_wrap 0x30 (concat (wrap_all items)) rest h,
  read_elements-concat (suc (length items)) items (omega arith) p,
)

-- A header has at most four bytes.
pub length-der_wrap_le :
    (tag : ℕ) (content : Bytes) → length (der_wrap tag content) ≤ length content + 4
unfolding der_wrap der_encode_length
length-der_wrap_le tag content = ground arith

pub length-wrap_all :
    (tag : ℕ) (content : Bytes) (items : List (ℕ × Bytes))
    → length (concat (wrap_all ((tag, content) ∷ items)))
      ≤ length content + 4 + length (concat (wrap_all items))
unfolding concat
length-wrap_all tag content items = omega (
  arith,
  length-append (der_wrap tag content) (concat (wrap_all items)),
  length-der_wrap_le tag content,
)
