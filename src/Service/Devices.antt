-- ===== src/Service/Devices.antt =====
-- src/main.rs: `ConnectDev`, `DisConnectDev` and `GenerateRandom`.
use liuzx_skf.Session.Handles.{device, HandleError}
use liuzx_skf.Protocol.{
  Json, RpcResponse, str, bool, as_str, as_u64, respond_ok, respond_err, Language, localized,
}
use liuzx_skf.Protocol.Params.{Params, value_at}
use liuzx_skf.Provider.{Operation, DeviceHandle}
use liuzx_skf.Exec.{Handler, ◌>>=◌, respond, or_return, invoke, or_fail, device_resource}
use liuzx_skf.Domain.{or_err}
use liuzx_skf.Service.{SkfContext, native_failure, invalid_handle}
use liuzx_skf.Service.Steps.{obtain, dispose, issue_handle, find_handle, take_handle}
use liuzx_skf.Common.{Result, ok, err, negsuc, Text, text_eq, text, true, Option, []}

-- `match … { Ok(guard) => …, Err(_) => return … }`
unfoldable pub held_or : {A : Type 0} → Result HandleError A → RpcResponse → Result RpcResponse A
held_or (ok g) r = ok g
held_or (err e) r = err r

-- `match … { Some(v) => v, None => return RpcResponse::err(-2, message.into(), id) }`
abbrev pub or_missing : {A : Type 0} → Option A → Text → Option Json → Result RpcResponse A
or_missing o message id = or_err o (respond_err (negsuc 1) message id)

module _ {W : Type 0} (ctx : SkfContext W) (params : Params) (lang : Language) where
  unfoldable pub connect_dev : Handler W
  connect_dev = do
    let id = params.id
    name ← or_return (or_missing (value_at as_str params 0) (text "Missing param") id)
    guard ← obtain [] device_resource name (ctx.provider.open_device name) (λ e. respond (
        native_failure ctx lang id
          (λ code. localized lang (text "连接设备失败") (text "ConnectDev failed")) e))
    handle ← issue_handle device guard
    respond (respond_ok (str handle) id)

  -- `drop(guard)` comes before the answer is made.
  unfoldable pub disconnect : DeviceHandle → Handler W
  disconnect guard =
      dispose (device_resource guard) (ctx.provider.close_device guard)
        (respond (respond_ok (bool true) params.id))

  unfoldable pub dis_connect_dev : Handler W
  unfolding disconnect
  dis_connect_dev = do
    let id = params.id
    handle ← or_return (or_err (value_at as_str params 0) (invalid_handle id))
    found ← take_handle device handle
    guard ← or_return (held_or found (invalid_handle id))
    disconnect guard

  -- The length is a `u64`, and `usize` has 64 bits.
  unfoldable pub generate_random : Handler W
  generate_random = do
    let id = params.id
    handle ← or_return (or_missing (value_at as_str params 0) (text "Bad params") id)
    len ← or_return (or_missing (value_at as_u64 params 1) (text "Bad params") id)
    found ← find_handle device handle
    guard ← or_return (held_or found (invalid_handle id))
    result ← invoke (device_resource guard) Operation.random (ctx.provider.random guard len)
    bytes ←
        or_fail
          (λ e. respond (
            native_failure ctx lang id
              (λ code. localized lang (text "生成随机数失败") (text "GenRandom failed")) e))
          result
    respond (respond_ok (str (ctx.context.encode bytes)) id)
