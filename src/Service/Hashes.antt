-- ===== src/Service/Hashes.antt =====
-- src/main.rs: `DigestInit`, `DigestUpdate`, `DigestFinal` and `CloseHash`. The branch of
-- `DigestInit` for an alias other than the default one always fails; it is an argument.
use liuzx_skf.Session.Handles.{device, digest}
use liuzx_skf.Protocol.{
  Json, str, bool, obj, field, end, as_str, as_u64, respond_ok, respond_err, Language, RpcResponse,
}
use liuzx_skf.Protocol.Params.{Params, value_at, unwrap_or}
use liuzx_skf.Provider.{Operation, DeviceHandle, DigestHandle}
use liuzx_skf.Exec.{
  Handler, ◌>>=◌, called, respond, or_return, invoke, or_fail, device_resource, digest_resource,
}
use liuzx_skf.Domain.{failed}
use liuzx_skf.Domain.Keys.{sgd_sm3}
use liuzx_skf.Service.{SkfContext, native_failure, code_in, invalid_hash_handle}
use liuzx_skf.Service.Steps.{obtain, dispose, issue_handle, find_handle, take_handle}
use liuzx_skf.Service.Devices.{held_or, or_missing}
use liuzx_skf.Common.{
  if◌then◌else◌, Result, ok, err, negsuc, Text, Bytes, ◌===◌, text_eq, text, ℕ, ◌%◌, ◌^◌, true,
  Option, [], ◌∷◌, ◌++◌,
}

-- `BASE64_STANDARD.decode(id_b64).unwrap_or_default()`
unfoldable pub id_bytes : (Text → Result Text Bytes) → Text → Bytes
id_bytes decode id_b64 =
    if id_b64 === [] then [] else elim (decode id_b64) [ ok bytes ↦ bytes | err e ↦ [] ]

-- `match BASE64_STANDARD.decode(data_b64) { … Err(e) => return … }`
unfoldable pub decoded : (Text → Result Text Bytes) → Option Json → Text → Result RpcResponse Bytes
decoded decode id data_b64 = elim (decode data_b64) [
  | ok bytes ↦ ok bytes
  | err e ↦ err (respond_err (negsuc 1) (text "Invalid base64 data: " ++ e) id)
]

module _ {W : Type 0} (ctx : SkfContext W) (params : Params) (lang : Language) where
  -- The digest begun on the device, which the handler owns: an error drops it, and otherwise the
  -- session owns both. The handle of the device is thrown away.
  unfoldable pub begin_digest : ℕ → Bytes → DeviceHandle → Handler W
  begin_digest alg_id id_bytes d = do
    let id = params.id
    g ←
        obtain (called (device_resource d) Operation.digest_begin ∷ []) digest_resource []
          (ctx.provider.begin_digest d alg_id id_bytes)
          (λ e. dispose (device_resource d) (ctx.provider.close_device d) (
            respond (
              native_failure ctx lang id (code_in lang (text "DigestInit失败") (text "DigestInit"))
                e)))
    handle ← issue_handle digest g
    device_handle ← issue_handle device d
    respond (respond_ok (obj (field (text "handle") (str handle) end)) id)

  unfoldable pub digest_on_default : Text → ℕ → Bytes → Handler W
  unfolding begin_digest
  digest_on_default dev_name alg_id id_bytes = do
    d ←
        obtain [] device_resource dev_name (ctx.provider.open_device dev_name)
          (λ e. respond (native_failure ctx lang params.id (failed (text "ConnectDev")) e))
    begin_digest alg_id id_bytes d

  unfoldable pub digest_init : (Text → Text → Handler W) → Handler W
  unfolding digest_on_default id_bytes
  digest_init other_provider = do
    let id = params.id
    provider ←
        or_return (or_missing (value_at as_str params 0) (text "Missing providerName param") id)
    dev_name ←
        or_return (or_missing (value_at as_str params 1) (text "Missing deviceName param") id)
    let alg_id = unwrap_or (value_at as_u64 params 2) sgd_sm3 % 2 ^ 32
    let id_b64 = unwrap_or (value_at as_str params 3) []
    if provider === ctx.config.default
        then digest_on_default dev_name alg_id (id_bytes ctx.context.decode id_b64)
        else other_provider provider dev_name

  unfoldable pub digest_update : Handler W
  digest_update = do
    let id = params.id
    handle ← or_return (or_missing (value_at as_str params 0) (text "Missing handle param") id)
    data_b64 ←
        or_return (or_missing (value_at as_str params 1) (text "Missing dataBase64 param") id)
    data_bytes ← or_return (decoded ctx.context.decode id data_b64)
    found ← find_handle digest handle
    g ← or_return (held_or found (invalid_hash_handle id))
    result ← invoke (digest_resource g) Operation.digest_update (ctx.provider.update g data_bytes)
    done ←
        or_fail
          (λ e. respond (
            native_failure ctx lang id (code_in lang (text "DigestUpdate失败") (text "DigestUpdate"))
              e))
          result
    respond (respond_ok (bool true) id)

  -- The digest that the session gave up, to the end of its scope.
  unfoldable pub finish_digest : DigestHandle → Handler W
  finish_digest g = dispose (digest_resource g) (ctx.provider.close_digest g) (do
    let id = params.id
    result ← invoke (digest_resource g) Operation.digest_final (ctx.provider.finalize g)
    hash ←
        or_fail
          (λ e. respond (
            native_failure ctx lang id (code_in lang (text "DigestFinal失败") (text "DigestFinal"))
              e))
          result
    respond (respond_ok (str (ctx.context.encode hash)) id))

  unfoldable pub digest_final : Handler W
  unfolding finish_digest
  digest_final = do
    let id = params.id
    handle ← or_return (or_missing (value_at as_str params 0) (text "Missing handle param") id)
    found ← take_handle digest handle
    g ← or_return (held_or found (invalid_hash_handle id))
    finish_digest g

  unfoldable pub close_hash : Handler W
  close_hash = do
    let id = params.id
    handle ← or_return (or_missing (value_at as_str params 0) (text "Missing handle param") id)
    found ← take_handle digest handle
    g ← or_return (held_or found (invalid_hash_handle id))
    dispose (digest_resource g) (ctx.provider.close_digest g) (respond (respond_ok (bool true) id))
