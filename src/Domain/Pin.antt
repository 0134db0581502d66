-- ===== src/Domain/Pin.antt =====
-- src/domain/pin.rs: `CheckPIN`, the one handler that authorizes a session.
pub mod Outcome
use liuzx_skf.Session.State
use liuzx_skf.Protocol.{bool, respond_ok, respond_err, Language, localized}
use liuzx_skf.Protocol.Params.{Params, required_str}
use liuzx_skf.Provider.{Operation, PinOutcome}
use liuzx_skf.Exec.{
  Handler, ◌>>=◌, ◌>>◌, respond, or_return, invoke, or_fail, update_session, app_resource,
}
use liuzx_skf.Domain.{
  Context, load_failed, failed, normalize_alias, provider_failure, resolve, open_device,
  open_application, split_cert_key, or_err, part,
}
use liuzx_skf.Common.{
  ◌==◌, if◌then◌else◌, as_i32, negsuc, Text, text_eq, text, decimal, hex8, ℕ, true, [], ◌++◌,
}

-- `OpenApplication failed: …`, with a word on one code
open_application_failed : ℕ → Text
open_application_failed code =
    failed (text "OpenApplication") code
    ++ (if code == 0x0A00002E then text " (Application Not Exists)" else [])

-- The message of a rejected PIN.
pub pin_failed : Language → ℕ → ℕ → Text
pin_failed lang code retries =
    localized lang (text "PIN验证失败: 0x" ++ hex8 code ++ text ", 剩余次数: " ++ decimal retries)
      (text "VerifyPIN failed: 0x" ++ hex8 code ++ text ", retries left: " ++ decimal retries)

module _ {W : Type 0} (ctx : Context W) (params : Params) (lang : Language) where
  -- The end of the handler: `if outcome.success { … } else { … }`
  unfoldable pub conclude : Text → Text → Text → PinOutcome → Handler W
  unfolding pin_failed
  conclude prov dev app outcome =
      if outcome.success
      then (do
        update_session (λ w.
            State.grant (ctx.clock w) (record { provider = prov; device = dev; application = app }))
        respond (respond_ok (bool true) params.id))
      else respond (
          respond_err (as_i32 outcome.code) (pin_failed lang outcome.code outcome.retry_count)
            params.id)

  unfoldable pub check_pin : Handler W
  unfolding open_application_failed pin_failed
  check_pin = do
    let id = params.id
    cert_key ← or_return (required_str params 0 (text "Missing certKey param"))
    pin_str ← or_return (required_str params 1 (text "Missing PIN param"))
    parts ← or_return (
        or_err (split_cert_key cert_key 3) (
          respond_err (negsuc 1)
            (text "Invalid certKey format, expected at least: provider/device/app") id))
    let prov_name = normalize_alias ctx (part parts 0)
    let dev_name = part parts 1
    let app_name = part parts 2
    provider ← resolve ctx (λ e. load_failed e id) prov_name
    device ← open_device ctx id provider prov_name dev_name
    application ←
        open_application ctx id open_application_failed provider prov_name dev_name app_name device
    result ←
        invoke (app_resource application) Operation.verify_pin
          (provider.verify_pin application pin_str)
    outcome ←
        or_fail (λ e. respond (provider_failure ctx id (λ code. pin_failed lang code 0) e)) result
    conclude prov_name dev_name app_name outcome
