-- ===== src/Domain/Sign.antt =====
-- src/domain/crypto.rs: the handlers that sign.
use liuzx_skf.Protocol.{str, respond_ok, Language}
use liuzx_skf.Protocol.Params.{Params, required_str, decode_base64}
use liuzx_skf.Provider.{Operation}
use liuzx_skf.Exec.{
  Handler, ◌>>=◌, ◌>>◌, respond, or_return, or_panic, invoke, or_fail, container_resource,
}
use liuzx_skf.Domain.{
  Context, in_language, load_failed, failed, normalize_alias, provider_failure, resolve,
  open_device, open_application, require_login, open_container, split_cert_key, or_err, part,
  invalid_cert_key, ProviderError, Provider, ContainerHandle,
}
use liuzx_skf.Der.Signature.{signature_der}
use liuzx_skf.Common.{◌==◌, if◌then◌else◌, Result, ok, err, Bytes, text_eq, text, ℕ}

-- `container.container_type().unwrap_or(1)`
unfoldable pub type_or_rsa : Result ProviderError ℕ → ℕ
type_or_rsa (ok t) = t
type_or_rsa (err e) = 1

module _ {W : Type 0} (ctx : Context W) (params : Params) (lang : Language) where
  -- `match outcome { … Err(e) => … }`
  unfoldable pub sign_failed : ProviderError → Handler W
  sign_failed e =
      respond (provider_failure ctx params.id (in_language lang (text "签名失败") (text "SignData")) e)

  -- The two ways to sign, each with `match outcome { Ok(sig_b64) => … }`.
  unfoldable pub sign_with_ecc : Provider W → ContainerHandle → Bytes → Handler W
  unfolding sign_failed
  sign_with_ecc provider container data_bytes = do
    result ←
        invoke (container_resource container) Operation.sign_ecc
          (provider.sign_ecc container data_bytes)
    sig ← or_fail sign_failed result
    der ← or_panic (signature_der sig)
    respond (respond_ok (str (ctx.encode der)) params.id)

  unfoldable pub sign_with_rsa : Provider W → ContainerHandle → Bytes → Handler W
  unfolding sign_failed
  sign_with_rsa provider container data_bytes = do
    result ←
        invoke (container_resource container) Operation.sign_rsa
          (provider.sign_rsa container data_bytes)
    sig ← or_fail sign_failed result
    respond (respond_ok (str (ctx.encode sig)) params.id)

  unfoldable pub sign_by_type : Provider W → ContainerHandle → Bytes → ℕ → Handler W
  unfolding sign_with_ecc sign_with_rsa
  sign_by_type provider container data_bytes cont_type =
      if cont_type == 2
      then sign_with_ecc provider container data_bytes
      else sign_with_rsa provider container data_bytes

  unfoldable pub sign_data : Handler W
  unfolding sign_by_type
  sign_data = do
    let id = params.id
    cert_key ← or_return (required_str params 0 (text "Missing certKey param"))
    data_b64 ← or_return (required_str params 1 (text "Missing data param"))
    parts ← or_return (or_err (split_cert_key cert_key 4) (invalid_cert_key id))
    let prov_name = normalize_alias ctx (part parts 0)
    let dev_name = part parts 1
    let app_name = part parts 2
    let cont_name = part parts 3
    data_bytes ← or_return (decode_base64 ctx.decode params data_b64 (text "Invalid base64 data"))
    provider ← resolve ctx (λ e. load_failed e id) prov_name
    device ← open_device ctx id provider prov_name dev_name
    application ←
        open_application ctx id (failed (text "OpenApplication")) provider prov_name dev_name
          app_name device
    require_login ctx id prov_name dev_name app_name
    container ← open_container ctx id provider cont_name application
    result ←
        invoke (container_resource container) Operation.container_type
          (provider.container_type container)
    sign_by_type provider container data_bytes (type_or_rsa result)

  unfoldable pub rsa_sign_data : Handler W
  rsa_sign_data = do
    let id = params.id
    cert_key ← or_return (required_str params 0 (text "Missing certKey param"))
    data_b64 ← or_return (required_str params 1 (text "Missing data param"))
    parts ← or_return (or_err (split_cert_key cert_key 4) (invalid_cert_key id))
    let prov_name = normalize_alias ctx (part parts 0)
    let dev_name = part parts 1
    let app_name = part parts 2
    let cont_name = part parts 3
    data_bytes ← or_return (decode_base64 ctx.decode params data_b64 (text "Invalid base64 data"))
    provider ← resolve ctx (λ e. load_failed e id) prov_name
    device ← open_device ctx id provider prov_name dev_name
    application ←
        open_application ctx id (failed (text "OpenApplication")) provider prov_name dev_name
          app_name device
    require_login ctx id prov_name dev_name app_name
    container ← open_container ctx id provider cont_name application
    result ←
        invoke (container_resource container) Operation.sign_rsa
          (provider.sign_rsa container data_bytes)
    sig ←
        or_fail
          (λ e.
            respond
              (provider_failure ctx id (in_language lang (text "RSA签名失败") (text "RSASignData")) e))
          result
    respond (respond_ok (str (ctx.encode sig)) id)
