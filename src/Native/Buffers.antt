-- ===== src/Native/Buffers.antt =====
-- src/provider/native.rs: the values that cross the C interface. `String::from_utf8_lossy` is an
-- argument. A text crosses as a text: a `CString` is its UTF-8 bytes, and a zero byte in them is a
-- code point 0 in the text.
pub mod Listing
use liuzx_skf.Provider.{ProviderError, invalid_argument, from_native, EccPublicKey}
use liuzx_skf.Native.{Native, sar_ok, EccPublicKeyBlob, RsaPublicKeyBlob, BlockCipherParam}
use liuzx_skf.Common.{
  ◌==◌, if◌then◌else◌, Result, ok, err, length, take, replicate, Text, Bytes, text_eq, text, ℕ,
  zero, suc, ◌*◌, ◌%◌, ◌^◌, Bool, true, false, ◌||◌, Option, none, some, List, [], ◌∷◌, map,
}

abbrev pub dev_name_buf_len : ℕ
dev_name_buf_len = 256

abbrev pub hash_buf_len : ℕ
hash_buf_len = 64

abbrev pub cert_buf_len : ℕ
cert_buf_len = 16 * 1024

abbrev pub rsa_sig_buf_len : ℕ
rsa_sig_buf_len = 512

abbrev pub sym_buf_len : ℕ
sym_buf_len = 64 * 1024

-- A zero byte in the text.
unfoldable pub has_nul : Text → Bool
has_nul [] = false
has_nul (c ∷ s) = c == 0 || has_nul s

-- `cstring`
unfoldable pub cstring : Text → Text → Result ProviderError Text
unfolding has_nul
cstring value context = if has_nul value then err (invalid_argument context) else ok value

-- `buf.iter().take_while(|&&c| c != 0)`
unfoldable pub until_nul : Bytes → Bytes
until_nul [] = []
until_nul (b ∷ bs) = let rest = until_nul bs in if b == 0 then [] else b ∷ rest

-- `raw.split(|&c| c == 0)`, which gives one piece more than there are zeros
unfoldable pub split_nul : Bytes → List Bytes
split_nul [] = [] ∷ []
split_nul (b ∷ bs) = next (b == 0) b (split_nul bs)
  where
    next : Bool → ℕ → List Bytes → List Bytes
    next true b pieces = [] ∷ pieces
    next false b [] = (b ∷ []) ∷ []
    next false b (p ∷ pieces) = (b ∷ p) ∷ pieces

-- `.filter(|s| !s.is_empty())`
unfoldable pub non_empty : List Bytes → List Bytes
non_empty [] = []
non_empty ([] ∷ pieces) = non_empty pieces
non_empty ((b ∷ p) ∷ pieces) = (b ∷ p) ∷ non_empty pieces

-- `{name}[..n.min(name.len())].copy_from_slice(…)` on an array of zeros of `n` bytes
unfoldable pub zero_padded : ℕ → Bytes → Bytes
zero_padded zero bs = []
zero_padded (suc n) [] = 0 ∷ zero_padded n []
zero_padded (suc n) (b ∷ bs) = b ∷ zero_padded n bs

-- `ecc_blob`
unfoldable pub ecc_blob : EccPublicKey → EccPublicKeyBlob
unfolding zero_padded
ecc_blob key = record {
  bit_len = key.bit_len;
  x_coordinate = zero_padded 64 key.x;
  y_coordinate = zero_padded 64 key.y;
}

-- `block_cipher_param`
unfoldable pub block_cipher_param : Bytes → ℕ → BlockCipherParam
unfolding zero_padded
block_cipher_param iv padding = record {
  iv = zero_padded 32 iv;
  iv_len = length iv % 2 ^ 32;
  padding_type = padding;
  feed_bit_len = 0;
}

-- `rsa_public_key_blob`
unfoldable pub rsa_public_key_blob : ℕ → ℕ → Bytes → Bytes → RsaPublicKeyBlob
unfolding zero_padded
rsa_public_key_blob alg_id bit_len modulus exponent = record {
  alg_id = alg_id;
  bit_len = bit_len;
  modulus = zero_padded 256 modulus;
  public_exponent = zero_padded 4 exponent;
}

-- `if ret == SAR_OK { Ok(a) } else { Err(ProviderError::from_native(ret, context)) }`
unfoldable pub completed : {A : Type 0} → Text → ℕ × A → Result ProviderError A
completed context (ret, a) = if ret == sar_ok then ok a else err (from_native ret context)

-- `buf.truncate(len)`, once the call has succeeded
unfoldable pub truncated : Text → ℕ × (Bytes × ℕ) → Result ProviderError Bytes
truncated context (ret, (buf, len)) =
    if ret == sar_ok then ok (take len buf) else err (from_native ret context)

module _ (utf8_lossy : Bytes → Text) where
  unfoldable pub fixed_cstr : Bytes → Text
  unfolding until_nul
  fixed_cstr buf = utf8_lossy (until_nul buf)

  unfoldable pub parse_cstr_list : Bytes → ℕ → List Text
  unfolding split_nul non_empty
  parse_cstr_list buf size = map utf8_lossy (non_empty (split_nul (take size buf)))

  -- The list that the buffer holds after the second call.
  unfoldable pub listed : ℕ × (Option Bytes × ℕ) → Result ProviderError (List Text)
  unfolding parse_cstr_list
  listed (ret, (buf, size)) =
      if ret == sar_ok
      then ok (parse_cstr_list (elim buf [ none ↦ [] | some b ↦ b ]) size)
      else err (from_native ret (text "enumerate list"))

  -- `read_name_list`
  unfoldable pub read_name_list :
      {W : Type 0}
      → ℕ
      → (Option Bytes → ℕ → Native W (Option Bytes × ℕ))
      → W
      → Result ProviderError (List Text) × W
  unfolding listed
  read_name_list zero fetch w = (ok [], w)
  read_name_list (suc n) fetch w =
      let (r, w') = fetch (some (replicate (suc n) 0)) (suc n) w in (listed r, w')

  -- The two calls of `enum_devices` and `enum_containers`: the size, then the list.
  unfoldable pub read_names :
      {W : Type 0}
      → Text
      → (Option Bytes → ℕ → Native W (Option Bytes × ℕ))
      → W
      → Result ProviderError (List Text) × W
  unfolding read_name_list
  read_names context fetch w =
      let ((ret, (buf, size)), w') = fetch none 0 w in
      if ret == sar_ok then read_name_list size fetch w' else (err (from_native ret context), w')
