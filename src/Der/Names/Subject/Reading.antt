-- ===== src/Der/Names/Subject/Reading.antt =====
-- The subject that a request names, as src/crypto/mod.rs writes it, is read back.
use liuzx_skf.Der.{der_wrap, concat}
use liuzx_skf.Der.Reading.{
  read_element, read_elements, read_elements-concat, read_element-der_wrap, wrap_all,
  length-wrap_all, Short,
}
use liuzx_skf.Der.Names.{utf8, build_subject_dn}
use liuzx_skf.Der.Names.Subject.{
  Kind, common_name, organization, unit, country, state, locality, email, name_of, oid, string_tag,
  Attribute, Plain, subject_of, size, pair_items, row_items, name_items, build_subject_dn_form,
}
use liuzx_skf.Common.{
  ◌==◌, if◌then◌else◌, length, length-append, All, Text, Bytes, text_eq, ℕ, suc, ◌+◌, ◌≤◌, ◌<◌, ◌≡◌,
  refl, subst, Option, none, some, List, [], ◌∷◌, map, append-nil, arith,
}

-- A reader of names: a sequence of sets of one sequence of an identifier and a text.
read_pair : Option (List (ℕ × Bytes)) → Option (Bytes × ℕ × Bytes)
read_pair (some ((t, o) ∷ (tag, v) ∷ [])) = if t == 0x06 then some (o, tag, v) else none
read_pair _ = none

read_row : Option (List (ℕ × Bytes)) → Option (Bytes × ℕ × Bytes)
unfolding read_pair
read_row (some ((t, seq) ∷ [])) = if t == 0x30 then read_pair (read_elements 3 seq) else none
read_row _ = none

read_rows : List (ℕ × Bytes) → Option (List (Bytes × ℕ × Bytes))
unfolding read_row
read_rows [] = some []
read_rows ((t, row) ∷ rows) = elim (if t == 0x31 then read_row (read_elements 2 row) else none) [
  | none ↦ none
  | some a ↦ elim (read_rows rows) [ none ↦ none | some rest ↦ some (a ∷ rest) ]
]

read_body : Option (ℕ × Bytes × Bytes) → Option (List (Bytes × ℕ × Bytes))
unfolding read_rows
read_body (some (t, body, [])) =
    if t == 0x30
    then (elim (read_elements (suc (length body)) body) [
      | none ↦ none
      | some rows ↦ read_rows rows
    ])
    else none
read_body _ = none

pub read_name : Bytes → Option (List (Bytes × ℕ × Bytes))
unfolding read_body
read_name bytes = read_body (read_element bytes)

length-oid : (k : Kind) → length (oid k) ≤ 9
length-oid common_name = omega arith
length-oid organization = omega arith
length-oid unit = omega arith
length-oid country = omega arith
length-oid state = omega arith
length-oid locality = omega arith
length-oid email = omega arith

length-pair_items :
    (a : Attribute) → length (concat (wrap_all (pair_items a))) ≤ length (utf8 a.value) + 17
unfolding pair_items concat
length-pair_items a = omega (
  arith,
  length-wrap_all 0x06 (oid a.kind) ((string_tag a.kind, utf8 a.value) ∷ []),
  length-wrap_all (string_tag a.kind) (utf8 a.value) [],
  length-oid a.kind,
)

length-row_items :
    (a : Attribute) → length (concat (wrap_all (row_items a))) ≤ length (utf8 a.value) + 21
unfolding row_items concat
length-row_items a =
    omega (arith, length-wrap_all 0x30 (concat (wrap_all (pair_items a))) [], length-pair_items a)

length-name_items :
    (attributes : List Attribute)
    → length (concat (wrap_all (name_items attributes))) ≤ size attributes
unfolding name_items concat
length-name_items [] = omega arith
length-name_items (a ∷ rest) = omega (
  arith,
  length-wrap_all 0x31 (concat (wrap_all (row_items a))) (name_items rest),
  length-row_items a,
  length-name_items rest,
)

row-Short : (a : Attribute) → size (a ∷ []) < 65536 → Short (row_items a)
unfolding row_items
row-Short a h = (omega (arith, length-pair_items a, h), tt)

pair-Short : (a : Attribute) → size (a ∷ []) < 65536 → Short (pair_items a)
unfolding pair_items
pair-Short a h = (omega (arith, length-oid a.kind), (omega (arith, h), tt))

name-Short : (attributes : List Attribute) → size attributes < 65536 → Short (name_items attributes)
unfolding name_items
name-Short [] h = tt
name-Short (a ∷ rest) h = (omega (arith, length-row_items a, h), name-Short rest (omega (arith, h)))

-- What a reader should find.
abbrev pub found : Attribute → Bytes × ℕ × Bytes
found a = (oid a.kind, string_tag a.kind, utf8 a.value)

read_pair-pair_items :
    (a : Attribute)
    → size (a ∷ []) < 65536
    → read_pair (read_elements 3 (concat (wrap_all (pair_items a)))) ≡ some (found a)
unfolding read_pair pair_items
read_pair-pair_items a h =
    rw (read_elements-concat 3 (pair_items a) (omega arith) (pair-Short a h)) refl

read_row-row_items :
    (a : Attribute)
    → size (a ∷ []) < 65536
    → read_row (read_elements 2 (concat (wrap_all (row_items a)))) ≡ some (found a)
unfolding read_row row_items
read_row-row_items a h =
    rw (read_elements-concat 2 (row_items a) (omega arith) (row-Short a h))
      (read_pair-pair_items a h)

read_rows-name_items :
    (attributes : List Attribute)
    → size attributes < 65536
    → read_rows (name_items attributes) ≡ some (map found attributes)
unfolding read_rows name_items
read_rows-name_items [] h = refl
read_rows-name_items (a ∷ rest) h =
    rw
      (
        read_rows,
        read_row-row_items a (omega (arith, h)),
        read_rows-name_items rest (omega (arith, h)),
      )
      refl

length-name_items-le :
    (attributes : List Attribute)
    → length (name_items attributes) ≤ length (concat (wrap_all (name_items attributes)))
unfolding name_items concat der_wrap
length-name_items-le [] = omega arith
length-name_items-le (a ∷ rest) = omega (
  arith,
  length-name_items-le rest,
  length-append (der_wrap 0x31 (concat (wrap_all (row_items a))))
      (concat (wrap_all (name_items rest))),
)

read_name-rows :
    (body : Bytes) (rows : List (ℕ × Bytes)) (found : List (Bytes × ℕ × Bytes))
    → length body < 65536
    → read_elements (suc (length body)) body ≡ some rows
    → read_rows rows ≡ some found
    → read_name (der_wrap 0x30 body) ≡ some found
unfolding read_name read_body
read_name-rows body rows found h e r =
    let whole : read_element (der_wrap 0x30 body) ≡ some (0x30, body, []) =
      subst (λ b. read_element b ≡ some (0x30, body, [])) (append-nil (der_wrap 0x30 body))
        (read_element-der_wrap 0x30 body [] h) in
    rw (whole, read_body, e) r

-- A subject of attributes whose values hold no comma and have no white space at their ends, and
-- which fit two octets of length, is read back as those attributes, in order, each with its
-- identifier, the tag of its kind of string and the UTF-8 bytes of its value; the upper case of an
-- attribute's name is that name.
pub read_name-build_subject_dn :
    (to_uppercase : Text → Text)
    → ((k : Kind) → to_uppercase (name_of k) ≡ name_of k)
    → (attributes : List Attribute) → All Plain attributes
    → size attributes < 65536
    → read_name (build_subject_dn to_uppercase (subject_of attributes))
      ≡ some (map found attributes)
read_name-build_subject_dn to_uppercase upper attributes h n =
    rw (build_subject_dn_form to_uppercase upper attributes h) (
      read_name-rows (concat (wrap_all (name_items attributes))) (name_items attributes)
        (map found attributes) (omega (arith, length-name_items attributes, n))
        (read_elements-concat (suc (length (concat (wrap_all (name_items attributes)))))
          (name_items attributes) (omega (arith, length-name_items-le attributes))
          (name-Short attributes n))
        (read_rows-name_items attributes n))
