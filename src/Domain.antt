-- ===== src/Domain.antt =====
-- src/domain/mod.rs: what the request handlers share.
pub mod Container
pub mod Certificate
pub mod Pin
pub mod Keys
pub mod Sign
pub mod Cipher
pub mod Requests
pub mod Release
pub mod Login
pub mod Grants
pub mod Dispatch
pub mod CertKey
pub mod Classification
use liuzx_skf.Session.Auth.{AuthKey}
use liuzx_skf.Session.State
use liuzx_skf.Session.State.{SessionState}
use liuzx_skf.Protocol.{Json, RpcResponse, respond_err, Language, localized}
use liuzx_skf.Provider.{
  Provider, ProviderError, native_code, display, Operation, DeviceHandle, AppHandle,
  ContainerHandle,
}
use liuzx_skf.Exec.{
  Handler, Step, ◌>>=◌, ◌>>◌, respond, acquire, authorize, observe, announce, update_session,
  called, resolved, device_resource, app_resource, container_resource,
}
use liuzx_skf.Common.{
  ltb, if◌then◌else◌, Result, is_ok, ok, err, length, get_elem?, as_i32, negsuc, Text, Bytes, ◌===◌,
  text_eq, text, splitn, hex8, ℕ, ◌||◌, not, Option, none, some, List, [], ◌∷◌, ◌++◌, arith,
}

-- `ServerContext`, the clocks, a file that a handler writes, and the functions of crates that the
-- handlers call: base64's standard alphabet, and the standard library's text of a duration and its
-- upper case of a text.
pub record Context (W : Type 0) : Type 0 where
  pub default_alias : Text
  pub resolve : Text → W → Result Text (Provider W) × W
  pub clock : W → ℕ
  pub encode : Bytes → Text
  pub decode : Text → Result Text Bytes
  pub debug_duration : ℕ → Text
  pub to_uppercase : Text → Text
  -- microseconds since 1970
  pub micros : W → ℕ
  -- writing `last_generated.csr` to the folder of temporary files, which may fail
  pub write_last_csr : Text → W → W

-- `o.ok_or(e)` in a `match` whose `None` branch returns.
unfoldable pub or_err : {A : Type 0} → Option A → RpcResponse → Result RpcResponse A
or_err none r = err r
or_err (some a) r = ok a

-- `load_failed` and `load_failed_localized`
unfoldable pub load_failed : Text → Option Json → RpcResponse
load_failed message id = respond_err (negsuc 4) (text "Load Lib Failed: " ++ message) id

unfoldable pub load_failed_localized : Text → Language → Option Json → RpcResponse
load_failed_localized message lang id =
    respond_err (negsuc 0)
      (localized lang (text "加载库失败: " ++ message) (text "Load Lib Failed: " ++ message)) id

-- `split_cert_key`
unfoldable pub split_cert_key : Text → ℕ → Option (List Text)
split_cert_key cert_key min =
    let parts = splitn 5 b'/' cert_key in if ltb (length parts) min then none else some parts

-- The segments of a certificate key that a handler reads; it has asked for that many.
abbrev pub part : List Text → ℕ → Text
part parts i = elim (get_elem? parts i) [ none ↦ [] | some s ↦ s ]

abbrev pub login_required : Option Json → RpcResponse
login_required id = respond_err (negsuc 9) (text "User not logged in. Call CheckPIN first.") id

-- The answer of src/domain/crypto.rs to a certificate key that does not split.
abbrev pub invalid_cert_key : Option Json → RpcResponse
invalid_cert_key id =
    respond_err (negsuc 1)
      (text "Invalid certKey format, expected: provider/device/app/container[/serial]") id

-- `format!("… failed: 0x{:08X}", code)`
unfoldable pub failed : Text → ℕ → Text
failed what code = what ++ text " failed: 0x" ++ hex8 code

-- `format!("{chinese}: 0x{:08X}", code)` or the English form, by the language
abbrev pub in_language : Language → Text → Text → ℕ → Text
in_language lang chinese english code =
    localized lang (chinese ++ text ": 0x" ++ hex8 code) (failed english code)

module _ {W : Type 0} (ctx : Context W) where
  -- `normalize_alias`
  unfoldable pub normalize_alias : Text → Text
  normalize_alias requested =
      if requested === [] || requested === text "default" then ctx.default_alias else requested

  -- The answer to a provider's error: its native code with the branch's message, or `load_failed`.
  unfoldable pub provider_failure : Option Json → (ℕ → Text) → ProviderError → RpcResponse
  provider_failure id msg e = elim (native_code e) [
    | some code ↦ respond_err (as_i32 code) (msg code) id
    | none ↦ load_failed (display ctx.debug_duration e) id
  ]

  -- `note_device_unavailable`
  unfoldable pub note_device_unavailable : Text → Text → Step W (Unit {0})
  note_device_unavailable prov dev = update_session (λ w s. (State.invalidate_device prov dev s).1)

  -- `match ctx.resolve(alias) { Ok(p) => p, Err(e) => return … }`
  unfoldable pub resolve : (Text → RpcResponse) → Text → Step W (Provider W)
  resolve fail alias k =
      observe (ctx.resolve alias)
        (λ r. elim r [ ok p ↦ announce (resolved alias) (k p) | err e ↦ respond (fail e) ])

  -- The block `let device = match provider.open_device(dev_name) { … }` of every handler.
  unfoldable pub open_device : Option Json → Provider W → Text → Text → Step W DeviceHandle
  open_device id p prov dev =
      acquire [] device_resource dev p.close_device (p.open_device dev) (λ e. do
        note_device_unavailable prov dev
        respond (provider_failure id (failed (text "ConnectDev")) e))

  -- The block `let application = match device.open_application(app_name) { … }`.
  unfoldable pub open_application :
      Option Json → (ℕ → Text) → Provider W → Text → Text → Text → DeviceHandle → Step W AppHandle
  open_application id msg p prov dev app d =
      acquire (called (device_resource d) Operation.open_application ∷ []) app_resource app
        p.close_application (p.open_application d app)
        (λ e. do note_device_unavailable prov dev; respond (provider_failure id msg e))

  -- `if authorized(…).is_err() { return … }`
  unfoldable pub require_login : Option Json → Text → Text → Text → Step W (Unit {0})
  require_login id prov dev app k =
      authorize ctx.clock (record { provider = prov; device = dev; application = app })
        (λ r. if is_ok r then k tt else respond (login_required id))

  -- The block `let container = match application.open_container(cont_name) { … }`.
  unfoldable pub open_container :
      Option Json → Provider W → Text → AppHandle → Step W ContainerHandle
  open_container id p cont a =
      acquire (called (app_resource a) Operation.open_container ∷ []) container_resource cont
        p.close_container (p.open_container a cont)
        (λ e. respond (provider_failure id (failed (text "OpenContainer")) e))
