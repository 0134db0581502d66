-- ===== src/Service/Raw/Devices.antt =====
-- src/main.rs: `GetDevInfo`, `GetDevState`, `SetLabel`, `LockDev`, `UnlockDev`, `Transmit`, and
-- `DigestInit` for an alias other than the default one.
use liuzx_skf.Session.Handles.{device}
use liuzx_skf.Protocol.{
  Json, RpcResponse, num, str, bool, obj, field, end, as_str, as_u64, respond_ok, respond_err,
  Language,
}
use liuzx_skf.Protocol.Params.{Params, value_at, unwrap_or}
use liuzx_skf.Provider.{Operation}
use liuzx_skf.Native.{sar_ok, DevInfo, Version}
use liuzx_skf.Native.Api
use liuzx_skf.Native.Guards.Device.{zeroed_info}
use liuzx_skf.Native.Buffers.{fixed_cstr}
use liuzx_skf.Exec
use liuzx_skf.Exec.{Resource, called, Handler, Step, ◌>>=◌, ◌>>◌, respond, or_return, or_panic}
use liuzx_skf.Domain.{load_failed, failed}
use liuzx_skf.Service.{SkfContext, native_failure, code_in}
use liuzx_skf.Service.Devices.{or_missing}
use liuzx_skf.Service.Raw.{
  native_handle, native_err, c_string, raw_open, raw_call, with_api, with_new_api,
  load_failed_minus_one, connect, disconnect_raw, alias_or_default,
}
use liuzx_skf.Common.{
  ◌==◌, if◌then◌else◌, Result, ok, err, length, take, replicate, negsuc, Text, Bytes, ◌===◌,
  text_eq, text, ℕ, ◌%◌, ◌^◌, true, Option, [], ◌++◌,
}

-- 0 is absent, 1 present, 2 busy.
unfoldable pub state_str : ℕ → Text
state_str dev_state =
    if dev_state == 0
    then text "absent"
    else if dev_state == 1
    then text "present"
    else if dev_state == 2
    then text "busy"
    else text "unknown"

abbrev pub state_answer : ℕ → Json
state_answer dev_state =
    obj (
      field (text "state") (num dev_state)
        (field (text "stateStr") (str (state_str dev_state)) end))

abbrev pub version_json : Version → Json
version_json v = obj (field (text "major") (num v.major) (field (text "minor") (num v.minor) end))

-- The answer of `GetDevInfo`. A `CStr` ends at the first zero byte; that each of the four arrays has
-- one is up to the library.
unfoldable pub info_answer : (Bytes → Text) → DevInfo → Json
unfolding fixed_cstr
info_answer utf8_lossy dev_info =
    let cstr = fixed_cstr utf8_lossy in
    obj (
      field (text "version") (version_json dev_info.version) (
        field (text "manufacturer") (str (cstr dev_info.manufacturer)) (
          field (text "issuer") (str (cstr dev_info.issuer)) (
            field (text "label") (str (cstr dev_info.label)) (
              field (text "serialNumber") (str (cstr dev_info.serial_number)) (
                field (text "hwVersion") (version_json dev_info.hw_version) (
                  field (text "firmwareVersion") (version_json dev_info.firmware_version) (
                    field (text "algSymCap") (num dev_info.alg_sym_cap) (
                      field (text "algAsymCap") (num dev_info.alg_asym_cap) (
                        field (text "algHashCap") (num dev_info.alg_hash_cap) (
                          field (text "devAuthAlgId") (num dev_info.dev_auth_alg_id) (
                            field (text "totalSpace") (num dev_info.total_space) (
                              field (text "freeSpace") (num dev_info.free_space) (
                                field (text "maxECCBufferSize") (num dev_info.max_ecc_buffer_size) (
                                  field (text "maxBufferSize") (num dev_info.max_buffer_size)
                                    end)))))))))))))))

-- `BASE64_STANDARD.decode(…)`, with `Invalid base64 …` on an error
unfoldable pub decoded_as :
    (Text → Result Text Bytes) → Option Json → Text → Text → Result RpcResponse Bytes
decoded_as decode id what b64 = elim (decode b64) [
  | ok bytes ↦ ok bytes
  | err e ↦ err (respond_err (negsuc 1) (text "Invalid base64 " ++ what ++ text ": " ++ e) id)
]

-- The answer to the code of the last call: `Ok` with a value, or the branch's message.
unfoldable pub answer_or : ℕ → Json → Text → Option Json → RpcResponse
answer_or ret value msg id = if ret == sar_ok then respond_ok value id else native_err ret msg id

module _ {W : Type 0} (ctx : SkfContext W) (params : Params) (lang : Language) where
  unfoldable pub get_dev_info : Handler W
  unfolding answer_or info_answer
  get_dev_info = do
    let id = params.id
    let prov_name = alias_or_default ctx (unwrap_or (value_at as_str params 0) [])
    dev_name ←
        or_return (or_missing (value_at as_str params 1) (text "Missing deviceName param") id)
    api ← with_api ctx (λ e. load_failed e id) prov_name
    h_dev ← connect ctx id prov_name dev_name api
    result ←
        raw_call (native_handle device h_dev) Operation.device_info
          (Api.get_dev_info api h_dev zeroed_info)
    disconnect_raw ctx api h_dev
    respond (
        answer_or result.0 (info_answer ctx.utf8_lossy result.1)
          (code_in lang (text "获取设备信息失败") (text "GetDevInfo") result.0) id)

  unfoldable pub state_of_other : Text → Text → Handler W
  unfolding answer_or state_str
  state_of_other prov_name dev_name = do
    let id = params.id
    api ← with_api ctx (λ e. load_failed e id) prov_name
    c_dev ← c_string dev_name
    result ← Exec.observe (Api.get_dev_state api c_dev 0)
    respond (
        answer_or result.0 (state_answer result.1)
          (code_in lang (text "获取设备状态失败") (text "GetDevState") result.0) id)

  unfoldable pub state_of_default : Text → Handler W
  unfolding state_str
  state_of_default dev_name = do
    let id = params.id
    result ← Exec.observe (ctx.provider.device_state dev_name)
    dev_state ←
        Exec.or_fail
          (λ e.
            respond
              (native_failure ctx lang id (code_in lang (text "获取设备状态失败") (text "GetDevState")) e))
          result
    respond (respond_ok (state_answer dev_state) id)

  unfoldable pub get_dev_state : Handler W
  unfolding state_of_default state_of_other
  get_dev_state = do
    let id = params.id
    let prov_name = alias_or_default ctx (unwrap_or (value_at as_str params 0) [])
    dev_name ←
        or_return (or_missing (value_at as_str params 1) (text "Missing deviceName param") id)
    if prov_name === ctx.config.default
        then state_of_default dev_name
        else state_of_other prov_name dev_name

  unfoldable pub set_label : Handler W
  unfolding answer_or
  set_label = do
    let id = params.id
    let prov_name = alias_or_default ctx (unwrap_or (value_at as_str params 0) [])
    dev_name ←
        or_return (or_missing (value_at as_str params 1) (text "Missing deviceName param") id)
    label ← or_return (or_missing (value_at as_str params 2) (text "Missing label param") id)
    api ← with_api ctx (λ e. load_failed e id) prov_name
    h_dev ← connect ctx id prov_name dev_name api
    c_label ← c_string label
    result ←
        raw_call (native_handle device h_dev) Operation.set_label (Api.set_label api h_dev c_label)
    disconnect_raw ctx api h_dev
    respond (
        answer_or result.0 (bool true) (code_in lang (text "设置设备标签失败") (text "SetLabel") result.0)
          id)

  unfoldable pub lock_dev : Handler W
  unfolding answer_or
  lock_dev = do
    let id = params.id
    provider ←
        or_return (or_missing (value_at as_str params 0) (text "Missing providerName param") id)
    dev_name ←
        or_return (or_missing (value_at as_str params 1) (text "Missing deviceName param") id)
    let timeout = unwrap_or (value_at as_u64 params 2) 5000 % 2 ^ 32
    api ← with_new_api ctx (load_failed_minus_one ctx lang id) provider
    h_dev ← connect ctx id provider dev_name api
    result ←
        raw_call (native_handle device h_dev) Operation.lock_device (Api.lock_dev api h_dev timeout)
    disconnect_raw ctx api h_dev
    respond
        (answer_or result.0 (bool true) (code_in lang (text "锁定设备失败") (text "LockDev") result.0) id)

  unfoldable pub unlock_dev : Handler W
  unfolding answer_or
  unlock_dev = do
    let id = params.id
    provider ←
        or_return (or_missing (value_at as_str params 0) (text "Missing providerName param") id)
    dev_name ←
        or_return (or_missing (value_at as_str params 1) (text "Missing deviceName param") id)
    api ← with_new_api ctx (load_failed_minus_one ctx lang id) provider
    h_dev ← connect ctx id provider dev_name api
    result ←
        raw_call (native_handle device h_dev) Operation.unlock_device (Api.unlock_dev api h_dev)
    disconnect_raw ctx api h_dev
    respond (
        answer_or result.0 (bool true) (code_in lang (text "解锁设备失败") (text "UnlockDev") result.0)
          id)

  unfoldable pub transmit : Handler W
  unfolding answer_or decoded_as
  transmit = do
    let id = params.id
    provider ←
        or_return (or_missing (value_at as_str params 0) (text "Missing providerName param") id)
    dev_name ←
        or_return (or_missing (value_at as_str params 1) (text "Missing deviceName param") id)
    cmd_b64 ←
        or_return (or_missing (value_at as_str params 2) (text "Missing commandBase64 param") id)
    cmd_bytes ← or_return (decoded_as ctx.context.decode id (text "command") cmd_b64)
    api ← with_new_api ctx (load_failed_minus_one ctx lang id) provider
    h_dev ← connect ctx id provider dev_name api
    result ←
        raw_call (native_handle device h_dev) Operation.transmit
          (Api.transmit api h_dev cmd_bytes (length cmd_bytes % 2 ^ 32) (replicate 4096 0) 4096)
    disconnect_raw ctx api h_dev
    respond (
        answer_or result.0 (str (ctx.context.encode (take result.1.1 result.1.0)))
          (code_in lang (text "透传APDU失败") (text "Transmit") result.0) id)

  -- `DigestInit` for another alias: the device is opened to no end, and does not lose its grants.
  unfoldable pub digest_init_other : Text → Text → Handler W
  unfolding raw_open c_string
  digest_init_other provider dev_name = do
    let id = params.id
    api ← with_api ctx (load_failed_minus_one ctx lang id) provider
    c_dev ← c_string dev_name
    h_dev ←
        raw_open [] device dev_name (Api.connect_dev api c_dev 0)
          (λ ret. respond (native_err ret (failed (text "ConnectDev") ret) id))
    disconnect_raw ctx api h_dev
    respond (respond_err (negsuc 0) (text "DigestInit requires the default provider") id)
