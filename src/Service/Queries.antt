-- ===== src/Service/Queries.antt =====
-- src/main.rs: `EnumProvider`, `WaitForDevEvent`, `CancelWaitForDevEvent`, `GetProtocolVersion` and
-- `SetLanguage`.
use liuzx_skf.Protocol.{
  Json, RpcResponse, num, str, bool, obj, field, end, as_str, respond_ok, respond_err, Language, en,
  cn, localized,
}
use liuzx_skf.Protocol.Params.{Params, value_at, unwrap_or}
use liuzx_skf.Provider.{ProviderError, native, display}
use liuzx_skf.Native.{sar_ok}
use liuzx_skf.Native.Api
use liuzx_skf.Native.Guards.Provider.{trim_end_nul}
use liuzx_skf.Exec.{Handler, ◌>>=◌, respond, or_fail, observe}
use liuzx_skf.Service.{SkfContext, native_failure, code_in}
use liuzx_skf.Service.Raw.{with_api, native_err, load_failed_minus_one}
use liuzx_skf.Service.Raw.Lists.{names_json}
use liuzx_skf.Common.{
  ◌==◌, if◌then◌else◌, take, replicate, negsuc, Text, Bytes, ◌===◌, text_eq, text, hex8, get, ℕ,
  Bool, true, false, ◌||◌, none, some, List, [], ◌∷◌, ◌++◌, map,
}

abbrev pub current_api_version : ℕ
current_api_version = 1

-- `{:X}`, without leading zeros
unfoldable pub hex : ℕ → Text
hex n = strip (hex8 n)
  where
    strip : Text → Text
    strip [] = []
    strip (c ∷ []) = c ∷ []
    strip (c ∷ d ∷ s) = let rest = strip (d ∷ s) in if c == b'0' then rest else c ∷ d ∷ s

abbrev pub wait_failed : ℕ → Text
wait_failed code = text "WaitForDevEvent failed: 0x" ++ hex code

abbrev pub event_json : Text → ℕ → Json
event_json device_name event =
    obj (field (text "deviceName") (str device_name) (field (text "event") (num event) end))

-- The aliases, with the default one first.
unfoldable pub default_first : Text → List Text → List Text
default_first default providers =
    if mem default providers then default ∷ remove_first default providers else providers
  where
    mem : Text → List Text → Bool
    mem a [] = false
    mem a (b ∷ bs) = b === a || mem a bs

    remove_first : Text → List Text → List Text
    remove_first a [] = []
    remove_first a (b ∷ bs) = let rest = remove_first a bs in if b === a then bs else b ∷ rest

module _ {W : Type 0} (ctx : SkfContext W) (params : Params) (lang : Language) where
  -- `GetProtocolVersion`
  unfoldable pub get_protocol_version : Handler W
  get_protocol_version = respond (
      respond_ok
        (obj (
          field (text "min") (num 1) (
            field (text "current") (num current_api_version)
              (field (text "service") (str ctx.version) end))))
        params.id)

  unfoldable pub vendor_provider : Text → RpcResponse
  vendor_provider vpid = elim (get vpid ctx.config.vendor) [
    | some provider ↦ respond_ok (str provider) params.id
    | none ↦
        respond_err (negsuc 3)
          (localized lang (text "未知 VID:PID: " ++ vpid) (text "Unknown VPID: " ++ vpid)) params.id
  ]

  abbrev pub all_providers : RpcResponse
  all_providers =
      respond_ok (names_json (default_first ctx.config.default (map (λ e. e.0) ctx.config.libs)))
        params.id

  unfoldable pub enum_provider : Handler W
  unfolding vendor_provider default_first
  enum_provider = respond (elim (value_at as_str params 0) [
    | none ↦ all_providers
    | some vpid ↦ if vpid === [] then all_providers else vendor_provider vpid
  ])

  unfoldable pub wait_failure : ProviderError → RpcResponse
  unfolding native_failure
  wait_failure e = native_failure ctx lang params.id wait_failed e

  unfoldable pub wait_on_default : Handler W
  unfolding wait_failure
  wait_on_default = do
    result ← observe (ctx.provider.wait_for_event 256)
    found ← or_fail (λ e. respond (wait_failure e)) result
    respond (respond_ok (event_json found.0 found.1) params.id)

  -- The name is cut at the buffer's 256 bytes.
  unfoldable pub waited : ℕ × (Bytes × ℕ × ℕ) → RpcResponse
  unfolding trim_end_nul
  waited (ret, (dev_name, len, event)) =
      if ret == sar_ok
      then respond_ok (event_json (trim_end_nul (ctx.utf8_lossy (take len dev_name))) event)
          params.id
      else native_err ret (wait_failed ret) params.id

  unfoldable pub wait_on_other : Text → Handler W
  unfolding waited
  wait_on_other provider = do
    api ← with_api ctx (load_failed_minus_one ctx lang params.id) provider
    result ← observe (Api.wait_for_dev_event api (replicate 256 0) 256 0)
    respond (waited result)

  unfoldable pub wait_for_dev_event : Handler W
  unfolding wait_on_default wait_on_other
  wait_for_dev_event =
      let provider = unwrap_or (value_at as_str params 0) ctx.config.default in
      if provider === ctx.config.default then wait_on_default else wait_on_other provider

  -- The answer to an error; the code of a load failure is -1 here.
  unfoldable pub cancel_failure : ProviderError → RpcResponse
  cancel_failure (native code context) =
      native_err code (code_in lang (text "取消等待失败") (text "CancelWaitForDevEvent") code) params.id
  cancel_failure e = load_failed_minus_one ctx lang params.id (display ctx.context.debug_duration e)

  unfoldable pub cancel_wait_for_dev_event : Handler W
  unfolding cancel_failure
  cancel_wait_for_dev_event = do
    result ← observe ctx.provider.cancel_wait_for_event
    done ← or_fail (λ e. respond (cancel_failure e)) result
    respond (respond_ok (bool true) params.id)

  -- `SetLanguage`: the answer, and the language from here on.
  unfoldable pub language_of : Text → Language
  language_of l =
      let upper = ctx.context.to_uppercase l in
      if upper === text "CN" || upper === text "ZH" then cn else en

  unfoldable pub set_language : RpcResponse × Language
  unfolding language_of
  set_language = elim (value_at as_str params 0) [
    | some l ↦ (respond_ok (str (text "OK")) params.id, language_of l)
    | none ↦ (respond_err (negsuc 1) (text "Missing Language Code") params.id, lang)
  ]
