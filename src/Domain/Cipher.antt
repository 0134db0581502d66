-- ===== src/Domain/Cipher.antt =====
-- src/domain/crypto.rs: the handlers that encrypt and decrypt with a symmetric key.
use liuzx_skf.Protocol.{
  Json, RpcResponse, str, obj, field, end, as_str, respond_ok, respond_err, Language,
}
use liuzx_skf.Protocol.Params.{Params, required_str, optional_u64, value_at, decode_base64}
use liuzx_skf.Provider.{Provider, ContainerHandle, Operation}
use liuzx_skf.Exec.{
  Handler, Step, ◌>>=◌, ◌>>◌, respond, or_return, invoke, or_fail, container_resource,
}
use liuzx_skf.Domain.{
  Context, in_language, load_failed, failed, normalize_alias, provider_failure, resolve,
  open_device, open_application, require_login, open_container, split_cert_key, or_err, part,
  invalid_cert_key,
}
use liuzx_skf.Domain.Keys.{as_u32}
use liuzx_skf.Common.{
  ◌==◌, if◌then◌else◌, Result, ok, err, length, negsuc, Text, Bytes, text_eq, text, ℕ, Option, none,
  some,
}

-- src/skf/types.rs: SGD_SM4_CBC
abbrev pub sgd_sm4_cbc : ℕ
sgd_sm4_cbc = 0x00000402

-- `match params.raw(4).and_then(|v| v.as_str())`: a key that is absent is no key.
unfoldable pub sym_key_bytes :
    (Text → Result Text Bytes) → Params → Result RpcResponse (Option Bytes)
sym_key_bytes decode params = elim (value_at as_str params 4) [
  | none ↦ ok none
  | some encoded ↦ elim (decode_base64 decode params encoded (text "Invalid base64 symKey")) [
    | ok b ↦ ok (some b)
    | err e ↦ err e
  ]
]

-- `serde_json::json!({ …: …, "algorithm": "SM4-CBC" })`
abbrev cipher_answer : Text → Text → Json
cipher_answer name output =
    obj (field name (str output) (field (text "algorithm") (str (text "SM4-CBC")) end))

module _ {W : Type 0} (ctx : Context W) (params : Params) (lang : Language) where
  -- `if let Some(ref key_bytes) = sym_key_bytes { … }`
  unfoldable pub with_key : Provider W → ContainerHandle → Option Bytes → Step W (Unit {0})
  with_key provider container none k = k tt
  with_key provider container (some key) k =
      if length key == 16
      then (do
        result ←
            invoke (container_resource container) Operation.set_symm_key
              (provider.set_symm_key container sgd_sm4_cbc key)
        done ←
            or_fail
              (λ e. respond (
                provider_failure ctx params.id
                  (in_language lang (text "设置对称密钥失败") (text "SetSymmKey")) e))
              result
        k tt)
      else respond (respond_err (negsuc 1) (text "SM4 key must be 16 bytes") params.id)

  unfoldable pub encrypt_data : Handler W
  encrypt_data = do
    let id = params.id
    cert_key ← or_return (required_str params 0 (text "Missing certKey param"))
    data_b64 ← or_return (required_str params 1 (text "Missing data param"))
    iv_b64 ← or_return (required_str params 2 (text "Missing IV param"))
    let padding_type = as_u32 (optional_u64 params 3 1)
    sym_key ← or_return (sym_key_bytes ctx.decode params)
    parts ← or_return (or_err (split_cert_key cert_key 4) (invalid_cert_key id))
    let prov_name = normalize_alias ctx (part parts 0)
    let dev_name = part parts 1
    let app_name = part parts 2
    let cont_name = part parts 3
    data_bytes ← or_return (decode_base64 ctx.decode params data_b64 (text "Invalid base64 data"))
    iv_bytes ← or_return (decode_base64 ctx.decode params iv_b64 (text "Invalid base64 IV"))
    provider ← resolve ctx (λ e. load_failed e id) prov_name
    device ← open_device ctx id provider prov_name dev_name
    application ←
        open_application ctx id (failed (text "OpenApplication")) provider prov_name dev_name
          app_name device
    require_login ctx id prov_name dev_name app_name
    container ← open_container ctx id provider cont_name application
    with_key provider container sym_key
    result ←
        invoke (container_resource container) Operation.encrypt_data
          (provider.encrypt container sgd_sm4_cbc iv_bytes padding_type data_bytes)
    output ←
        or_fail
          (λ e. respond (
            provider_failure ctx id (in_language lang (text "EncryptData失败") (text "EncryptData"))
              e))
          result
    respond (respond_ok (cipher_answer (text "encryptedData") (ctx.encode output)) id)

  unfoldable pub decrypt_data : Handler W
  decrypt_data = do
    let id = params.id
    cert_key ← or_return (required_str params 0 (text "Missing certKey param"))
    data_b64 ← or_return (required_str params 1 (text "Missing encryptedData param"))
    iv_b64 ← or_return (required_str params 2 (text "Missing IV param"))
    let padding_type = as_u32 (optional_u64 params 3 1)
    sym_key ← or_return (sym_key_bytes ctx.decode params)
    parts ← or_return (or_err (split_cert_key cert_key 4) (invalid_cert_key id))
    let prov_name = normalize_alias ctx (part parts 0)
    let dev_name = part parts 1
    let app_name = part parts 2
    let cont_name = part parts 3
    data_bytes ←
        or_return (decode_base64 ctx.decode params data_b64 (text "Invalid base64 encrypted data"))
    iv_bytes ← or_return (decode_base64 ctx.decode params iv_b64 (text "Invalid base64 IV"))
    provider ← resolve ctx (λ e. load_failed e id) prov_name
    device ← open_device ctx id provider prov_name dev_name
    application ←
        open_application ctx id (failed (text "OpenApplication")) provider prov_name dev_name
          app_name device
    require_login ctx id prov_name dev_name app_name
    container ← open_container ctx id provider cont_name application
    with_key provider container sym_key
    result ←
        invoke (container_resource container) Operation.decrypt_data
          (provider.decrypt container sgd_sm4_cbc iv_bytes padding_type data_bytes)
    output ←
        or_fail
          (λ e. respond (
            provider_failure ctx id (in_language lang (text "DecryptData失败") (text "DecryptData"))
              e))
          result
    respond (respond_ok (cipher_answer (text "data") (ctx.encode output)) id)
