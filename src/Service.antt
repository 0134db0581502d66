-- ===== src/Service.antt =====
-- src/main.rs: the dispatcher of the service, and the branches of `handle_request` that it answers
-- itself. A session keeps the guards that it has handles for; a handler that makes one and stores
-- it does not drop it, and a handler that takes one out of the session drops it when it ends.
pub mod Steps
pub mod Devices
pub mod Hashes
pub mod Raw
pub mod Queries
pub mod Dispatch
pub mod Requests
pub mod Connection
pub mod Ownership
use liuzx_skf.Protocol.{Json, RpcResponse, respond_err, Language, localized}
use liuzx_skf.Provider.{Provider, ProviderError, native, display}
use liuzx_skf.Domain.{Context, failed}
use liuzx_skf.Config.{SkfConfig}
use liuzx_skf.Native.{Library}
use liuzx_skf.Common.{
  Result, as_i32, negsuc, Text, Bytes, text_eq, text, hex8, ℕ, Option, List, ◌++◌, arith,
}

-- `SkfContext`: what the handlers of src/domain use of it, the provider of the default alias, the
-- configuration, and the libraries that are loaded, which are part of the state. The process
-- environment, the system's and the processor's name, the version that Cargo builds in, the loader of
-- libraries, the standard library's functions on texts, and `X509Certificate::from_der`, of which the
-- program takes the serial number and the subject as texts, are arguments.
pub record SkfContext (W : Type 0) : Type 0 where
  pub context : Context W
  pub provider : Provider W
  pub config : SkfConfig
  pub apis : W → List (Text × Library W)
  pub keep_api : Text → Library W → W → W
  pub load_library : Text → W → Result Text (Library W) × W
  pub env : Text → Option Text
  pub os : Text
  pub arch : Text
  pub version : Text
  pub utf8_lossy : Bytes → Text
  pub debug_list : List Text → Text
  pub parse_certificate : Bytes → Option (Text × Text)

-- `provider_load_failed`, of the error's text
unfoldable pub provider_load_failed : Text → Language → Option Json → RpcResponse
provider_load_failed e lang id =
    respond_err (negsuc 4) (localized lang (text "加载库失败: " ++ e) (text "Load Lib Failed: " ++ e)) id

-- The two arms for an error of every branch below: `Err(ProviderError::Native { code, .. })`, with
-- the branch's message, and `Err(e)`. A failure that the provider in memory injects is the second.
unfoldable pub native_failure :
    {W : Type 0} → SkfContext W → Language → Option Json → (ℕ → Text) → ProviderError → RpcResponse
unfolding provider_load_failed
native_failure ctx lang id msg (native code context) = respond_err (as_i32 code) (msg code) id
native_failure ctx lang id msg e =
    provider_load_failed (display ctx.context.debug_duration e) lang id

-- `format!("{chinese}: 0x{:08X}", code)` or the English form with ` failed`
abbrev pub code_in : Language → Text → Text → ℕ → Text
code_in lang chinese english code =
    localized lang (chinese ++ text ": 0x" ++ hex8 code) (failed english code)

-- The rejection of a handle, for any `HandleError`.
abbrev pub invalid_handle : Option Json → RpcResponse
invalid_handle id = respond_err (negsuc 10) (text "Invalid or expired handle") id

abbrev pub invalid_hash_handle : Option Json → RpcResponse
invalid_hash_handle id = respond_err (negsuc 10) (text "Invalid or expired hash handle") id
