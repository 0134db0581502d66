-- ===== src/Domain/Container.antt =====
-- src/domain/container.rs: the handlers of containers and certificates.
use liuzx_skf.Protocol.{
  RpcResponse, Json, num, str, bool, obj, field, end, as_bool, respond_ok, respond_err, Language,
}
use liuzx_skf.Protocol.Params.{
  Params, required_str, optional_str, check_payload_len, or_reject, value_at,
}
use liuzx_skf.Provider.{Operation}
use liuzx_skf.Exec.{
  Handler, ◌>>=◌, ◌>>◌, respond, or_return, acquire, invoke, or_fail, called, app_resource,
  container_resource,
}
use liuzx_skf.Domain.{
  Context, in_language, load_failed, failed, normalize_alias, provider_failure, resolve,
  open_device, open_application, require_login, open_container,
}
use liuzx_skf.Domain.Certificate.{decode_certificate}
use liuzx_skf.Common.{
  ◌==◌, if◌then◌else◌, Result, ok, err, negsuc, Text, Bytes, text_eq, text, ℕ, true, Option, [],
  ◌∷◌, ◌++◌,
}

-- `match cont_type { 0x01 => "Sign", … }`
unfoldable pub type_str : ℕ → Text
type_str t =
    if t == 1
    then text "Sign"
    else if t == 2
    then text "Enc"
    else if t == 3
    then text "Both"
    else text "Unknown"

-- The answer to a certificate that does not decode.
unfoldable pub certificate_bytes :
    (Text → Result Text Bytes) → Option Json → Text → Result RpcResponse Bytes
certificate_bytes decode id cert = elim (decode_certificate decode cert) [
  | ok b ↦ ok b
  | err e ↦ err (respond_err (negsuc 2) (text "Invalid cert base64: " ++ e) id)
]

module _ {W : Type 0} (ctx : Context W) (params : Params) (lang : Language) where
  unfoldable pub create_container : Handler W
  create_container = do
    let id = params.id
    let prov_name = normalize_alias ctx (optional_str params 0 [])
    dev_name ← or_return (required_str params 1 (text "Missing deviceName param"))
    app_name ← or_return (required_str params 2 (text "Missing appName param"))
    cont_name ← or_return (required_str params 3 (text "Missing containerName param"))
    provider ← resolve ctx (λ e. load_failed e id) prov_name
    device ← open_device ctx id provider prov_name dev_name
    application ←
        open_application ctx id (failed (text "OpenApplication")) provider prov_name dev_name
          app_name device
    require_login ctx id prov_name dev_name app_name
    -- the guard of the new container is dropped at once
    container ←
        acquire (called (app_resource application) Operation.create_container ∷ [])
          container_resource cont_name provider.close_container
          (provider.create_container application cont_name)
          (λ e.
            respond (
              provider_failure ctx id (in_language lang (text "创建容器失败") (text "CreateContainer"))
                e))
    respond (respond_ok (str cont_name) id)

  unfoldable pub delete_container : Handler W
  delete_container = do
    let id = params.id
    let prov_name = optional_str params 0 ctx.default_alias
    dev_name ← or_return (required_str params 1 (text "Missing deviceName param"))
    app_name ← or_return (required_str params 2 (text "Missing appName param"))
    cont_name ← or_return (required_str params 3 (text "Missing containerName param"))
    provider ← resolve ctx (λ e. load_failed e id) prov_name
    device ← open_device ctx id provider prov_name dev_name
    application ←
        open_application ctx id (failed (text "OpenApplication")) provider prov_name dev_name
          app_name device
    result ←
        invoke (app_resource application) Operation.delete_container
          (provider.delete_container application cont_name)
    done ←
        or_fail
          (λ e.
            respond (
              provider_failure ctx id (in_language lang (text "删除容器失败") (text "DeleteContainer"))
                e))
          result
    respond (respond_ok (bool true) id)

  unfoldable pub get_container_type : Handler W
  get_container_type = do
    let id = params.id
    let prov_name = normalize_alias ctx (optional_str params 0 [])
    dev_name ← or_return (required_str params 1 (text "Missing deviceName param"))
    app_name ← or_return (required_str params 2 (text "Missing appName param"))
    cont_name ← or_return (required_str params 3 (text "Missing containerName param"))
    provider ← resolve ctx (λ e. load_failed e id) prov_name
    device ← open_device ctx id provider prov_name dev_name
    application ←
        open_application ctx id (failed (text "OpenApplication")) provider prov_name dev_name
          app_name device
    container ← open_container ctx id provider cont_name application
    result ←
        invoke (container_resource container) Operation.container_type
          (provider.container_type container)
    cont_type ←
        or_fail
          (λ e. respond (
            provider_failure ctx id (in_language lang (text "获取容器类型失败") (text "GetContainerType"))
              e))
          result
    respond (
        respond_ok
          (obj (
            field (text "type") (num cont_type)
              (field (text "typeStr") (str (type_str cont_type)) end)))
          id)

  unfoldable pub import_certificate : Handler W
  import_certificate = do
    let id = params.id
    let prov_name = optional_str params 0 ctx.default_alias
    dev_name ← or_return (required_str params 1 (text "Missing deviceName param"))
    app_name ← or_return (required_str params 2 (text "Missing appName param"))
    cont_name ← or_return (required_str params 3 (text "Missing containerName param"))
    sign_flag ←
        or_return (or_reject (value_at as_bool params 4) params (text "Missing bSignFlag param"))
    cert_str ← or_return (required_str params 5 (text "Missing certData param"))
    fits ← or_return (check_payload_len params cert_str)
    cert_bytes ← or_return (certificate_bytes ctx.decode id cert_str)
    provider ← resolve ctx (λ e. load_failed e id) prov_name
    device ← open_device ctx id provider prov_name dev_name
    application ←
        open_application ctx id (failed (text "OpenApplication")) provider prov_name dev_name
          app_name device
    require_login ctx id prov_name dev_name app_name
    container ← open_container ctx id provider cont_name application
    result ←
        invoke (container_resource container) Operation.import_certificate
          (provider.import_certificate container sign_flag cert_bytes)
    done ←
        or_fail
          (λ e. respond (
            provider_failure ctx id (in_language lang (text "导入证书失败") (text "ImportCertificate"))
              e))
          result
    respond (respond_ok (bool true) id)
