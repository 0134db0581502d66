-- ===== src/Domain/Keys.antt =====
-- src/domain/keys.rs: the handlers that make key pairs, and the layout of public keys that they
-- answer with (`ecc_blob`, `rsa_blob` and `struct_bytes` of src/domain/mod.rs).
use liuzx_skf.Protocol.{Json, num, str, obj, field, end, respond_ok, Language}
use liuzx_skf.Protocol.Params.{Params, required_str, optional_u64}
use liuzx_skf.Provider.{Operation, EccPublicKey, RsaPublicKey}
use liuzx_skf.Exec.{Handler, ◌>>=◌, ◌>>◌, respond, or_return, invoke, or_fail, container_resource}
use liuzx_skf.Domain.{
  Context, load_failed_localized, failed, in_language, provider_failure, resolve, open_device,
  open_application, require_login, open_container,
}
use liuzx_skf.Common.{
  length, take, replicate, Text, Bytes, text_eq, text, ℕ, ◌-◌, ◌/◌, ◌%◌, ◌^◌, [], ◌∷◌, ◌++◌,
}

-- src/skf/types.rs: SGD_SM2_1
abbrev pub sgd_sm2_1 : ℕ
sgd_sm2_1 = 0x00020100

-- src/skf/types.rs: SGD_SM3
abbrev pub sgd_sm3 : ℕ
sgd_sm3 = 1

-- `n as u32`
abbrev pub as_u32 : ℕ → ℕ
as_u32 n = n % 2 ^ 32

-- The first `n` bytes, filled up with zeros: a fixed array that a slice is copied into.
unfoldable pub fixed : ℕ → Bytes → Bytes
fixed n bytes = take n bytes ++ replicate (n - length bytes) 0

-- A `u32` in memory, the low byte first.
unfoldable pub u32_bytes : ℕ → Bytes
u32_bytes n = n % 256 ∷ n / 256 % 256 ∷ n / 65536 % 256 ∷ n / 16777216 % 256 ∷ []

pub record EccBlob : Type 0 where
  pub bit_len : ℕ
  pub x_coordinate : Bytes
  pub y_coordinate : Bytes

pub record RsaBlob : Type 0 where
  pub alg_id : ℕ
  pub bit_len : ℕ
  pub modulus : Bytes
  pub public_exponent : Bytes

unfoldable pub ecc_blob : EccPublicKey → EccBlob
unfolding fixed
ecc_blob key = record {
  bit_len = key.bit_len;
  x_coordinate = fixed 64 key.x;
  y_coordinate = fixed 64 key.y;
}

unfoldable pub rsa_blob : RsaPublicKey → RsaBlob
unfolding fixed
rsa_blob key = record {
  alg_id = key.alg_id;
  bit_len = key.bit_len;
  modulus = fixed 256 key.modulus;
  public_exponent = fixed 4 key.exponent;
}

-- `struct_bytes` of each blob, on a little-endian machine.
unfoldable pub ecc_struct_bytes : EccBlob → Bytes
unfolding u32_bytes
ecc_struct_bytes b = u32_bytes b.bit_len ++ (b.x_coordinate ++ b.y_coordinate)

unfoldable pub rsa_struct_bytes : RsaBlob → Bytes
unfolding u32_bytes
rsa_struct_bytes b = u32_bytes b.alg_id ++ (u32_bytes b.bit_len ++ (b.modulus ++ b.public_exponent))

-- `serde_json::json!({ "publicKeyBase64": …, "bitLen": … })`
abbrev key_answer : Text → ℕ → Json
key_answer key bits =
    obj (field (text "publicKeyBase64") (str key) (field (text "bitLen") (num bits) end))

module _ {W : Type 0} (ctx : Context W) (params : Params) (lang : Language) where
  unfoldable pub gen_ecc_key_pair : Handler W
  gen_ecc_key_pair = do
    let id = params.id
    provider_name ← or_return (required_str params 0 (text "Missing providerName param"))
    dev_name ← or_return (required_str params 1 (text "Missing deviceName param"))
    app_name ← or_return (required_str params 2 (text "Missing appName param"))
    cont_name ← or_return (required_str params 3 (text "Missing containerName param"))
    let alg_id = as_u32 (optional_u64 params 4 sgd_sm2_1)
    provider ← resolve ctx (λ e. load_failed_localized e lang id) provider_name
    device ← open_device ctx id provider provider_name dev_name
    application ←
        open_application ctx id (failed (text "OpenApplication")) provider provider_name dev_name
          app_name device
    require_login ctx id provider_name dev_name app_name
    container ← open_container ctx id provider cont_name application
    result ←
        invoke (container_resource container) Operation.gen_ecc_key_pair
          (provider.gen_ecc_key_pair container alg_id)
    key ←
        or_fail
          (λ e. respond (
            provider_failure ctx id (in_language lang (text "生成ECC密钥对失败") (text "GenECCKeyPair"))
              e))
          result
    respond (respond_ok (key_answer (ctx.encode (ecc_struct_bytes (ecc_blob key))) key.bit_len) id)

  unfoldable pub gen_rsa_key_pair : Handler W
  gen_rsa_key_pair = do
    let id = params.id
    provider_name ← or_return (required_str params 0 (text "Missing providerName param"))
    dev_name ← or_return (required_str params 1 (text "Missing deviceName param"))
    app_name ← or_return (required_str params 2 (text "Missing appName param"))
    cont_name ← or_return (required_str params 3 (text "Missing containerName param"))
    let bits_len = as_u32 (optional_u64 params 4 2048)
    provider ← resolve ctx (λ e. load_failed_localized e lang id) provider_name
    device ← open_device ctx id provider provider_name dev_name
    application ←
        open_application ctx id (failed (text "OpenApplication")) provider provider_name dev_name
          app_name device
    require_login ctx id provider_name dev_name app_name
    container ← open_container ctx id provider cont_name application
    result ←
        invoke (container_resource container) Operation.gen_rsa_key_pair
          (provider.gen_rsa_key_pair container bits_len)
    key ←
        or_fail
          (λ e. respond (
            provider_failure ctx id (in_language lang (text "生成RSA密钥对失败") (text "GenRSAKeyPair"))
              e))
          result
    respond (respond_ok (key_answer (ctx.encode (rsa_struct_bytes (rsa_blob key))) key.bit_len) id)
