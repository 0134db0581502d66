-- ===== src/Der/Names.antt =====
-- src/crypto/mod.rs: `build_subject_dn`. The standard library's upper case of a text is an argument.
pub mod Subject
use liuzx_skf.Der.{der_sequence, der_set, der_oid, der_utf8_string, der_printable_string}
use liuzx_skf.Common.{
  ltb, leb, ◌==◌, if◌then◌else◌, ==_iff, Bool-cases, Option-cases, Result, Result-cases, is_ok, ok,
  err, length, get_elem?, take, drop, replicate, length-append, length-take, length-drop,
  length-replicate, All, All-append, ℤ, as_i32, pos, negsuc, Text, Bytes, Lacks, Eq, ◌===◌, text_eq,
  text_eq_iff, ===-refl, split_once-join, split_once-Lacks, append-split_once, text, text_beq,
  split_once, splitn, trim, decimal-injective, decimal-Lacks, decimal, hex8, get-insert, get-remove,
  get-retain, IsMap, insert-IsMap, remove-IsMap, retain-IsMap, remove_absent, length-insert_absent,
  length-remove, get, insert, remove, retain, ℕ, zero, suc, ◌+◌, ◌-◌, ◌*◌, ◌/◌, ◌%◌, ◌^◌, ◌≤◌, ◌<◌,
  String, ◌≡◌, refl, sym, ap, subst, ◌∙◌, ◌≡⟨◌⟩◌, ◌∎, fun_ext, ◌≢◌, ◌↔◌, ◌⊎◌, inl, inr, Bool, true,
  false, ◌&&◌, ◌||◌, not, Option, none, some, List, [], ◌∷◌, ◌++◌, map, append-nil, append_assoc,
  arith, split,
}

-- The bytes of a code point in UTF-8, and of a text (`str::as_bytes`).
unfoldable pub utf8_char : ℕ → Bytes
utf8_char c =
    if ltb c 0x80
    then c ∷ []
    else if ltb c 0x800
    then (0xC0 + c / 64) ∷ (0x80 + c % 64) ∷ []
    else if ltb c 0x10000
    then (0xE0 + c / 4096) ∷ (0x80 + c / 64 % 64) ∷ (0x80 + c % 64) ∷ []
    else (0xF0 + c / 262144) ∷ (0x80 + c / 4096 % 64) ∷ (0x80 + c / 64 % 64) ∷ (0x80 + c % 64) ∷ []

unfoldable pub utf8 : Text → Bytes
unfolding utf8_char
utf8 [] = []
utf8 (c ∷ s) = utf8_char c ++ utf8 s

abbrev pub oid_cn : Bytes
oid_cn = 0x55 ∷ 0x04 ∷ 0x03 ∷ []

abbrev pub oid_o : Bytes
oid_o = 0x55 ∷ 0x04 ∷ 0x0A ∷ []

abbrev pub oid_ou : Bytes
oid_ou = 0x55 ∷ 0x04 ∷ 0x0B ∷ []

abbrev pub oid_c : Bytes
oid_c = 0x55 ∷ 0x04 ∷ 0x06 ∷ []

abbrev pub oid_st : Bytes
oid_st = 0x55 ∷ 0x04 ∷ 0x08 ∷ []

abbrev pub oid_l : Bytes
oid_l = 0x55 ∷ 0x04 ∷ 0x07 ∷ []

abbrev pub oid_e : Bytes
oid_e = 0x2A ∷ 0x86 ∷ 0x48 ∷ 0x86 ∷ 0xF7 ∷ 0x0D ∷ 0x01 ∷ 0x09 ∷ 0x01 ∷ []

-- `match key.as_str() { … _ => continue }`
unfoldable pub oid_of : Text → Option Bytes
oid_of key =
    if key === text "CN"
    then some oid_cn
    else if key === text "O"
    then some oid_o
    else if key === text "OU"
    then some oid_ou
    else if key === text "C"
    then some oid_c
    else if key === text "ST"
    then some oid_st
    else if key === text "L"
    then some oid_l
    else if key === text "E" || (key === text "EMAIL" || key === text "EMAILADDRESS")
    then some oid_e
    else none

-- One attribute: a set of one sequence of the identifier and the value. The country is a printable
-- string.
unfoldable pub rdn : Text → Bytes → Text → Bytes
rdn key oid val =
    let value_der =
      (if key === text "C" then der_printable_string (utf8 val) else der_utf8_string (utf8 val)) in
    der_set (der_sequence (der_oid oid ∷ value_der ∷ []) ∷ [])

module _ (to_uppercase : Text → Text) where
  -- The attribute that a trimmed part gives, if any.
  unfoldable pub rdn_of : Option (Text × Text) → Option Bytes
  unfolding rdn oid_of
  rdn_of none = none
  rdn_of (some (key, val)) =
      let key' = to_uppercase (trim key) in
      elim (oid_of key') [ none ↦ none | some oid ↦ some (rdn key' oid (trim val)) ]

  -- The loop over the parts.
  unfoldable pub rdns : List Text → List Bytes
  unfolding rdn_of
  rdns [] = []
  rdns (part ∷ parts) = elim (rdn_of (split_once b'=' (trim part))) [
    | none ↦ rdns parts
    | some r ↦ r ∷ rdns parts
  ]

  unfoldable pub build_subject_dn : Text → Bytes
  unfolding split rdns
  build_subject_dn subject = der_sequence (rdns (split b',' subject))
