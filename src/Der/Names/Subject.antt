-- ===== src/Der/Names/Subject.antt =====
-- The subject of attributes, in the DER form that src/crypto/mod.rs gives it.
pub mod Reading
use mathlib.Core.List.{reverse, reverse-append, reverse-reverse}
use liuzx_skf.Der.{
  der_wrap, concat, der_sequence, der_set, der_oid, der_utf8_string, der_printable_string,
}
use liuzx_skf.Der.Reading.{
  read_element, read_elements, read_elements-concat, read_element-der_wrap, wrap_all,
  length-wrap_all, Short,
}
use liuzx_skf.Der.Names.{
  utf8, oid_of, rdn, rdn_of, rdns, build_subject_dn, oid_cn, oid_o, oid_ou, oid_c, oid_st, oid_l,
  oid_e,
}
use liuzx_skf.Common.{
  ltb, leb, ◌==◌, if◌then◌else◌, ==_iff, Bool-cases, Option-cases, Result, Result-cases, is_ok, ok,
  err, length, get_elem?, take, drop, replicate, length-append, length-take, length-drop,
  length-replicate, All, All-append, ℤ, as_i32, pos, negsuc, Text, Bytes, Lacks, Eq, ◌===◌, text_eq,
  text_eq_iff, ===-refl, split_once-join, split_once-Lacks, append-split_once, split-Lacks,
  split-join, text, text_beq, split_once, splitn, trim, trim_start, is_whitespace, split,
  decimal-injective, decimal-Lacks, decimal, hex8, hex_upper, get-insert, get-remove, get-retain,
  IsMap, insert-IsMap, remove-IsMap, retain-IsMap, remove_absent, length-insert_absent,
  length-remove, get, insert, remove, retain, ℕ, zero, suc, ◌+◌, ◌-◌, ◌*◌, ◌/◌, ◌%◌, ◌^◌, ◌≤◌, ◌<◌,
  String, ◌≡◌, refl, sym, ap, subst, ◌∙◌, ◌≡⟨◌⟩◌, ◌∎, fun_ext, ◌≢◌, ◌↔◌, ◌⊎◌, inl, inr, Bool, true,
  false, ◌&&◌, ◌||◌, not, Option, none, some, List, [], ◌∷◌, ◌++◌, map, append-nil, append_assoc,
  arith,
}

-- The attributes of X.520 that a subject may hold.
pub data Kind : Type 0 where
  common_name organization unit country state locality email : Kind

abbrev pub name_of : Kind → Text
name_of common_name = text "CN"
name_of organization = text "O"
name_of unit = text "OU"
name_of country = text "C"
name_of state = text "ST"
name_of locality = text "L"
name_of email = text "E"

abbrev pub oid : Kind → Bytes
oid common_name = oid_cn
oid organization = oid_o
oid unit = oid_ou
oid country = oid_c
oid state = oid_st
oid locality = oid_l
oid email = oid_e

-- The tag of the value: `PrintableString` for a country, `UTF8String` for the others.
abbrev pub string_tag : Kind → ℕ
string_tag country = 0x13
string_tag _ = 0x0C

pub record Attribute : Type 0 where
  pub kind : Kind
  pub value : Text

-- No white space at either end.
abbrev pub Trimmed : Text → Type 0
Trimmed s = (trim_start s ≡ s) × (trim_start (reverse s) ≡ reverse s)

-- A value that a subject can hold.
abbrev pub Plain : Attribute → Type 0
Plain a = Lacks b',' a.value × Trimmed a.value

-- A bound on the bytes that the attributes take.
abbrev pub size : List Attribute → ℕ
size [] = 0
size (a ∷ rest) = length (utf8 a.value) + 25 + size rest

abbrev pub attribute_text : Attribute → Text
attribute_text a = name_of a.kind ++ b'=' ∷ a.value

-- `CN=Test,O=MyOrg,C=CN`
abbrev pub subject_of : List Attribute → Text
subject_of [] = []
subject_of (a ∷ []) = attribute_text a
subject_of (a ∷ b ∷ rest) = attribute_text a ++ b',' ∷ subject_of (b ∷ rest)

-- The content of an attribute's set, and the elements of a name.
pub pair_items : Attribute → List (ℕ × Bytes)
pair_items a = (0x06, oid a.kind) ∷ (string_tag a.kind, utf8 a.value) ∷ []

pub row_items : Attribute → List (ℕ × Bytes)
unfolding pair_items
row_items a = (0x30, concat (wrap_all (pair_items a))) ∷ []

pub name_items : List Attribute → List (ℕ × Bytes)
unfolding row_items
name_items [] = []
name_items (a ∷ rest) = (0x31, concat (wrap_all (row_items a))) ∷ name_items rest

-- The text of the subject.
name_of-Lacks : (sep : ℕ) (k : Kind) → sep < b'A' → Lacks sep (name_of k)
unfolding text
name_of-Lacks sep common_name h = omega (arith, h)
name_of-Lacks sep organization h = omega (arith, h)
name_of-Lacks sep unit h = omega (arith, h)
name_of-Lacks sep country h = omega (arith, h)
name_of-Lacks sep state h = omega (arith, h)
name_of-Lacks sep locality h = omega (arith, h)
name_of-Lacks sep email h = omega (arith, h)

attribute_text-Lacks : (a : Attribute) → Plain a → Lacks b',' (attribute_text a)
attribute_text-Lacks a h =
    All-append (λ (c : ℕ). c ≢ b',') (name_of a.kind) (b'=' ∷ a.value)
      (name_of-Lacks b',' a.kind (omega arith)) (omega arith, h.0)

split-subject_of :
    (a : Attribute) (rest : List Attribute)
    → All Plain (a ∷ rest)
    → split b',' (subject_of (a ∷ rest)) ≡ map attribute_text (a ∷ rest)
split-subject_of a [] h = split-Lacks b',' (attribute_text a) (attribute_text-Lacks a h.0)
split-subject_of a (b ∷ rest) h =
    split-join b',' (attribute_text a) (subject_of (b ∷ rest)) (attribute_text-Lacks a h.0)
    ∙ ap (λ l. attribute_text a ∷ l) (split-subject_of b rest h.1)

length-trim_start : (s : Text) → length (trim_start s) ≤ length s
unfolding trim_start
length-trim_start [] = omega arith
length-trim_start (c ∷ s) = ground (arith, length-trim_start s)

trim_start-append :
    (s : Text) (c : ℕ) (t : Text)
    → trim_start s ≡ s
    → is_whitespace c ≡ false
    → trim_start (s ++ c ∷ t) ≡ s ++ c ∷ t
unfolding trim_start
trim_start-append [] c t h w = rw w
trim_start-append (x ∷ s) c t h w = elim (Bool-cases (is_whitespace x)) [
  | inl e ↦
      let shorter : trim_start s ≡ x ∷ s = ground (arith, h, e) in
      absurd (omega (arith, ap length shorter, length-trim_start s))
  | inr e ↦ rw e
]

trim_lem : (s : Text) → Trimmed s → trim s ≡ s
unfolding trim
trim_lem s h = rw (h.0, h.1) (reverse-reverse s)

trim_start-name_of :
    (k : Kind) (t : Text) → trim_start (name_of k ++ b'=' ∷ t) ≡ name_of k ++ b'=' ∷ t
unfolding trim_start is_whitespace text
trim_start-name_of common_name t = refl
trim_start-name_of organization t = refl
trim_start-name_of unit t = refl
trim_start-name_of country t = refl
trim_start-name_of state t = refl
trim_start-name_of locality t = refl
trim_start-name_of email t = refl

trim-name_of : (k : Kind) → trim (name_of k) ≡ name_of k
unfolding trim trim_start is_whitespace text
trim-name_of common_name = refl
trim-name_of organization = refl
trim-name_of unit = refl
trim-name_of country = refl
trim-name_of state = refl
trim-name_of locality = refl
trim-name_of email = refl

pub oid_of-name_of : (k : Kind) → oid_of (name_of k) ≡ some (oid k)
unfolding oid_of text text_beq
oid_of-name_of common_name = refl
oid_of-name_of organization = refl
oid_of-name_of unit = refl
oid_of-name_of country = refl
oid_of-name_of state = refl
oid_of-name_of locality = refl
oid_of-name_of email = refl

trim-attribute_text : (a : Attribute) → Plain a → trim (attribute_text a) ≡ attribute_text a
unfolding trim is_whitespace
trim-attribute_text a h =
    let turned : reverse (attribute_text a) ≡ reverse a.value ++ b'=' ∷ reverse (name_of a.kind) =
      reverse-append (name_of a.kind) (b'=' ∷ a.value)
      ∙ ap (λ l. l ++ reverse (name_of a.kind)) (reverse-append (b'=' ∷ []) a.value)
      ∙ append_assoc (reverse a.value) (b'=' ∷ []) (reverse (name_of a.kind)) in
    rw (trim_start-name_of a.kind a.value, turned)
      (rw (trim_start-append (reverse a.value) b'=' (reverse (name_of a.kind)) h.1.1 refl)
        (ap reverse (sym turned) ∙ reverse-reverse (attribute_text a)))

rdn_form :
    (k : Kind) (v : Text)
    → rdn (name_of k) (oid k) v
      ≡ der_wrap 0x31 (concat (wrap_all (row_items (record { kind = k; value = v }))))
unfolding rdn row_items pair_items der_set der_sequence der_oid der_utf8_string der_printable_string
    text text_beq
rdn_form common_name v = refl
rdn_form organization v = refl
rdn_form unit v = refl
rdn_form country v = refl
rdn_form state v = refl
rdn_form locality v = refl
rdn_form email v = refl

module _ (to_uppercase : Text → Text)
    (upper : (k : Kind) → to_uppercase (name_of k) ≡ name_of k) where
  rdn_of-some :
      (key val : Text) (o : Bytes)
      → oid_of (to_uppercase (trim key)) ≡ some o
      → rdn_of to_uppercase (some (key, val)) ≡ some (rdn (to_uppercase (trim key)) o (trim val))
  unfolding rdn_of
  rdn_of-some key val o h = rw (rdn_of, h) refl

  rdn_of-attribute_text :
      (a : Attribute)
      → Plain a
      → rdn_of to_uppercase (split_once b'=' (trim (attribute_text a)))
        ≡ some (der_wrap 0x31 (concat (wrap_all (row_items a))))
  rdn_of-attribute_text a h =
      let key : to_uppercase (trim (name_of a.kind)) ≡ name_of a.kind =
        ap to_uppercase (trim-name_of a.kind) ∙ upper a.kind in
      rw
        (
          trim-attribute_text a h,
          split_once-join b'=' (name_of a.kind) a.value (name_of-Lacks b'=' a.kind (omega arith)),
        )
        (rdn_of-some (name_of a.kind) a.value (oid a.kind) (ap oid_of key ∙ oid_of-name_of a.kind)
          ∙ ap some (rw (key, trim_lem a.value h.1) (rdn_form a.kind a.value)))

  rdns-attribute_text :
      (attributes : List Attribute)
      → All Plain attributes
      → rdns to_uppercase (map attribute_text attributes) ≡ wrap_all (name_items attributes)
  unfolding rdns name_items
  rdns-attribute_text [] h = refl
  rdns-attribute_text (a ∷ rest) h =
      rw (rdns, rdn_of-attribute_text a h.0)
        (ap (λ l. der_wrap 0x31 (concat (wrap_all (row_items a))) ∷ l)
          (rdns-attribute_text rest h.1))

  pub build_subject_dn_form :
      (attributes : List Attribute)
      → All Plain attributes
      → build_subject_dn to_uppercase (subject_of attributes)
        ≡ der_wrap 0x30 (concat (wrap_all (name_items attributes)))
  unfolding build_subject_dn der_sequence
  build_subject_dn_form [] h =
      unfold split rdns rdn_of trim trim_start split_once name_items in refl
  build_subject_dn_form (a ∷ rest) h =
      ap (λ l. der_wrap 0x30 (concat l))
        (ap (rdns to_uppercase) (split-subject_of a rest h) ∙ rdns-attribute_text (a ∷ rest) h)
