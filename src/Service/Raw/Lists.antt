-- ===== src/Service/Raw/Lists.antt =====
-- src/main.rs: `EnumDevice`, `EnumApplication` and `EnumContainer`.
use liuzx_skf.Session.Handles.{device, application}
use liuzx_skf.Protocol.{
  Json, RpcResponse, str, arr, nil, item, as_str, respond_ok, Language, localized, Items,
}
use liuzx_skf.Protocol.Params.{Params, value_at, unwrap_or}
use liuzx_skf.Provider.{Operation}
use liuzx_skf.Native.{Library, sar_ok}
use liuzx_skf.Native.Api
use liuzx_skf.Native.Buffers.{split_nul, non_empty}
use liuzx_skf.Exec
use liuzx_skf.Service
use liuzx_skf.Exec.{Resource, called, Handler, Step, ◌>>=◌, ◌>>◌, respond, or_return, or_panic}
use liuzx_skf.Domain.{load_failed, failed, note_device_unavailable}
use liuzx_skf.Service.{SkfContext, native_failure, code_in}
use liuzx_skf.Service.Devices.{or_missing}
use liuzx_skf.Service.Raw.{
  native_handle, native_err, c_string, raw_open, raw_call, raw_close, with_api, connect,
  disconnect_raw,
}
use liuzx_skf.Common.{
  leb, ◌==◌, if◌then◌else◌, length, take, replicate, Text, Bytes, ◌===◌, text_eq, text, ℕ, Bool,
  true, ◌||◌, not, Option, none, some, List, [], ◌∷◌, map,
}

abbrev pub names_json : List Text → Json
names_json names = arr (items names)
  where
    items : List Text → Items
    items [] = nil
    items (n ∷ ns) = item (str n) (items ns)

-- `slice::from_raw_parts(buf.as_ptr(), size)`, with the size that the second call reported: past the
-- end of the buffer the program reads what it does not own, and the model stops.
unfoldable pub raw_names : (Bytes → Text) → Option Bytes → ℕ → Option (List Text)
unfolding split_nul non_empty
raw_names utf8_lossy none size = none
raw_names utf8_lossy (some buf) size =
    if leb size (length buf)
    then some (map utf8_lossy (non_empty (split_nul (take size buf))))
    else none

module _ {W : Type 0} (ctx : SkfContext W) (params : Params) (lang : Language) where
  -- The answer to the first call of the two, unless it reported a size.
  unfoldable pub size_answer : ℕ → Text → Text → RpcResponse
  size_answer ret chinese english =
      if ret == sar_ok
      then respond_ok (names_json []) params.id
      else native_err ret (localized lang chinese english) params.id

  unfoldable pub no_size : ℕ × (Option Bytes × ℕ) → Bool
  no_size (ret, (buf, size)) = not (ret == sar_ok) || size == 0

  -- The answer to the second.
  unfoldable pub list_answer : ℕ × (Option Bytes × ℕ) → Text → Text → Handler W
  unfolding raw_names
  list_answer (ret, (buf, size)) chinese english =
      if ret == sar_ok
      then or_panic (raw_names ctx.utf8_lossy buf size)
          (λ names. respond (respond_ok (names_json names) params.id))
      else respond (native_err ret (localized lang chinese english) params.id)

  unfoldable pub devices_of_default : Handler W
  devices_of_default = do
    let id = params.id
    result ← Exec.observe (ctx.provider.enum_devices true)
    names ←
        Exec.or_fail
          (λ e. respond (
            native_failure ctx lang id
              (λ code. localized lang (text "枚举设备获取大小失败") (text "EnumDev failed size check")) e))
          result
    respond (respond_ok (names_json names) id)

  unfoldable pub second_enum_dev : Library W → ℕ → Handler W
  unfolding list_answer
  second_enum_dev api size = do
    result ← Exec.observe (Api.enum_dev api true (some (replicate size 0)) size)
    list_answer result (text "枚举设备失败") (text "EnumDev failed")

  unfoldable pub devices_of_other : Text → Handler W
  unfolding size_answer no_size second_enum_dev
  devices_of_other provider = do
    api ← with_api ctx (λ e. Service.provider_load_failed e lang params.id) provider
    first ← Exec.observe (Api.enum_dev api true none 0)
    if no_size first
        then respond (size_answer first.0 (text "枚举设备获取大小失败") (text "EnumDev failed size check"))
        else second_enum_dev api first.1.1

  unfoldable pub enum_device : Handler W
  unfolding devices_of_default devices_of_other
  enum_device =
      let provider = unwrap_or (value_at as_str params 0) ctx.config.default in
      if provider === ctx.config.default then devices_of_default else devices_of_other provider

  -- The device is closed before the answer to the first call is made.
  unfoldable pub no_applications : Library W → ℕ → ℕ → Handler W
  unfolding size_answer
  no_applications api h_dev ret = do
    disconnect_raw ctx api h_dev
    respond (size_answer ret (text "枚举应用获取大小失败") (text "EnumApplication failed size check"))

  unfoldable pub second_enum_application : Library W → ℕ → ℕ → Handler W
  unfolding list_answer
  second_enum_application api h_dev size = do
    result ←
        raw_call (native_handle device h_dev) Operation.enum_applications
          (Api.enum_application api h_dev (some (replicate size 0)) size)
    disconnect_raw ctx api h_dev
    list_answer result (text "枚举应用失败") (text "EnumApplication failed")

  unfoldable pub enum_application : Handler W
  unfolding no_size no_applications second_enum_application
  enum_application = do
    let id = params.id
    let provider = unwrap_or (value_at as_str params 0) ctx.config.default
    dev_name ←
        or_return (or_missing (value_at as_str params 1) (text "Missing deviceName param") id)
    api ← with_api ctx (λ e. load_failed e id) provider
    h_dev ← connect ctx id provider dev_name api
    first ←
        raw_call (native_handle device h_dev) Operation.enum_applications
          (Api.enum_application api h_dev none 0)
    if no_size first
        then no_applications api h_dev first.0
        else second_enum_application api h_dev first.1.1

  -- `api.close_application(h_app); api.dis_connect_dev(h_dev);`
  unfoldable pub close_both : Library W → ℕ → ℕ → Step W (Unit {0})
  unfolding raw_close
  close_both api h_dev h_app k = do
    raw_close (native_handle application h_app) (Api.close_application api h_app)
    disconnect_raw ctx api h_dev
    k tt

  unfoldable pub open_raw_application : Text → Text → Text → Library W → ℕ → Step W ℕ
  unfolding raw_open c_string
  open_raw_application provider dev_name app_name api h_dev k = do
    c_app ← c_string app_name
    h_app ←
        raw_open (called (native_handle device h_dev) Operation.open_application ∷ []) application
          app_name (Api.open_application api h_dev c_app 0)
          (λ ret. do
            disconnect_raw ctx api h_dev
            note_device_unavailable ctx.context provider dev_name
            respond (native_err ret (failed (text "OpenApplication") ret) params.id))
    k h_app

  unfoldable pub no_containers : Library W → ℕ → ℕ → ℕ → Handler W
  unfolding size_answer close_both
  no_containers api h_dev h_app ret = do
    close_both api h_dev h_app
    respond (size_answer ret (text "枚举容器获取大小失败") (text "EnumContainer failed size check"))

  unfoldable pub second_enum_container : Library W → ℕ → ℕ → ℕ → Handler W
  unfolding list_answer close_both
  second_enum_container api h_dev h_app size = do
    result ←
        raw_call (native_handle application h_app) Operation.enum_containers
          (Api.enum_container api h_app (some (replicate size 0)) size)
    close_both api h_dev h_app
    list_answer result (text "枚举容器失败") (text "EnumContainer failed")

  unfoldable pub enum_container : Handler W
  unfolding no_size no_containers second_enum_container open_raw_application
  enum_container = do
    let id = params.id
    let provider = unwrap_or (value_at as_str params 0) ctx.config.default
    dev_name ←
        or_return (or_missing (value_at as_str params 1) (text "Missing deviceName param") id)
    app_name ← or_return (or_missing (value_at as_str params 2) (text "Missing appName param") id)
    api ← with_api ctx (λ e. load_failed e id) provider
    h_dev ← connect ctx id provider dev_name api
    h_app ← open_raw_application provider dev_name app_name api h_dev
    first ←
        raw_call (native_handle application h_app) Operation.enum_containers
          (Api.enum_container api h_app none 0)
    if no_size first
        then no_containers api h_dev h_app first.0
        else second_enum_container api h_dev h_app first.1.1
