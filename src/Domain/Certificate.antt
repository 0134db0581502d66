-- ===== src/Domain/Certificate.antt =====
-- `decode_certificate` of src/domain/container.rs, with the `str` functions that it calls.
use liuzx_skf.Common.{
  ltb, ◌==◌, if◌then◌else◌, Result, ok, err, length, Text, Bytes, text_eq, text, ℕ, zero, suc, ◌+◌,
  ◌-◌, ◌/◌, ◌%◌, Bool, true, false, ◌&&◌, ◌||◌, [], ◌∷◌, ◌++◌,
}

starts_with : Text → Text → Bool
starts_with [] s = true
starts_with (p ∷ pat) [] = false
starts_with (p ∷ pat) (c ∷ s) = p == c && starts_with pat s

-- `s.contains(pat)` for a pattern that is not empty
contains : Text → Text → Bool
unfolding starts_with
contains pat [] = false
contains pat (c ∷ s) = starts_with pat (c ∷ s) || contains pat s

-- `s.replace(pat, "")` for a pattern that is not empty: `skip` characters of a match are left.
remove_matches : Text → ℕ → Text → Text
unfolding starts_with
remove_matches pat skip [] = []
remove_matches pat (suc skip) (c ∷ s) = remove_matches pat skip s
remove_matches pat zero (c ∷ s) =
    let cut = remove_matches pat (length pat - 1) s in
    let kept = remove_matches pat 0 s in if starts_with pat (c ∷ s) then cut else c ∷ kept

-- `s.replace(['\n', '\r'], "")`
remove_newlines : Text → Text
remove_newlines [] = []
remove_newlines (c ∷ s) =
    let rest = remove_newlines s in if c == 10 || c == 13 then rest else c ∷ rest

-- `s.as_bytes()`: the UTF-8 encoding.
utf8_char : ℕ → Bytes
utf8_char c =
    if ltb c 0x80
    then c ∷ []
    else if ltb c 0x800
    then (0xC0 + c / 64) ∷ (0x80 + c % 64) ∷ []
    else if ltb c 0x10000
    then (0xE0 + c / 4096) ∷ (0x80 + c / 64 % 64) ∷ (0x80 + c % 64) ∷ []
    else (0xF0 + c / 262144) ∷ (0x80 + c / 4096 % 64) ∷ (0x80 + c / 64 % 64) ∷ (0x80 + c % 64) ∷ []

as_bytes : Text → Bytes
unfolding utf8_char
as_bytes [] = []
as_bytes (c ∷ s) = utf8_char c ++ as_bytes s

-- A PEM text whose body does not decode is taken as it is; any other text must be base64.
unfoldable pub decode_certificate : (Text → Result Text Bytes) → Text → Result Text Bytes
unfolding contains remove_matches remove_newlines as_bytes
decode_certificate decode cert =
    if contains (text "-----BEGIN") cert
    then (elim (decode (
        remove_newlines (
          remove_matches (text "-----END CERTIFICATE-----") 0
            (remove_matches (text "-----BEGIN CERTIFICATE-----") 0 cert)))) [
              | ok b ↦ ok b
              | err e ↦ ok (as_bytes cert)
            ])
    else decode cert
