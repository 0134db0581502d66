-- ===== src/Domain/Release.antt =====
-- Each handler of src/domain drops every guard that it opened, on each of its paths.
pub mod Container
pub mod Pin
pub mod Keys
pub mod Sign
pub mod Cipher
pub mod Requests
use liuzx_skf.Protocol.{Json, RpcResponse}
use liuzx_skf.Provider.{Provider, ProviderError, DeviceHandle, AppHandle, ContainerHandle}
use liuzx_skf.Exec.{
  Resource, announce, resolved, Handler, respond, device_resource, app_resource, container_resource,
}
use liuzx_skf.Exec.Release.{
  Balanced, alive, release_rules, observe-Balanced, announce-Balanced, acquire-Balanced,
  respond-Balanced, or_return-Balanced,
}
use liuzx_skf.Domain.{
  Context, note_device_unavailable, provider_failure, failed, resolve, open_device,
  open_application, require_login, open_container,
}
use liuzx_skf.Common.{Result, ok, err, Text, text_eq, ℕ, ◌≡◌, true, Option, List, ◌∷◌, arith}

module _ {W : Type 0} (ctx : Context W) (held : List Resource) where
  pub resolve-Balanced :
      (fail : Text → RpcResponse) (alias : Text) (k : Provider W → Handler W)
      → ((p : Provider W) → Balanced held (k p))
      → Balanced held (resolve ctx fail alias k)
  unfolding resolve
  resolve-Balanced fail alias k b =
      observe-Balanced held (ctx.resolve alias) _ (resolved_provider b)
    where
      resolved_provider :
          ((p : Provider W) → Balanced held (k p))
          → (r : Result Text (Provider W))
          → Balanced held
              (elim r [ ok p ↦ announce (resolved alias) (k p) | err e ↦ respond (fail e) ])
      resolved_provider b (ok p) = announce-Balanced held alias (k p) (b p)
      resolved_provider b (err e) = respond-Balanced held (fail e)

  pub open_device-Balanced :
      (id : Option Json) (p : Provider W) (prov dev : Text) (k : DeviceHandle → Handler W)
      → ((d : DeviceHandle) → Balanced (device_resource d ∷ held) (k d))
      → Balanced held (open_device ctx id p prov dev k)
  unfolding open_device note_device_unavailable
  open_device-Balanced id p prov dev k b = search release_rules

  pub open_container-Balanced :
      (id : Option Json) (p : Provider W) (cont : Text) (a : AppHandle)
      (k : ContainerHandle → Handler W)
      → alive (app_resource a) held ≡ true
      → ((c : ContainerHandle) → Balanced (container_resource c ∷ held) (k c))
      → Balanced held (open_container ctx id p cont a k)
  unfolding open_container
  open_container-Balanced id p cont a k h b = search release_rules

  pub open_application-Balanced :
      (id : Option Json) (msg : ℕ → Text) (p : Provider W) (prov dev app : Text) (d : DeviceHandle)
      (k : AppHandle → Handler W)
      → alive (device_resource d) held ≡ true
      → ((a : AppHandle) → Balanced (app_resource a ∷ held) (k a))
      → Balanced held (open_application ctx id msg p prov dev app d k)
  unfolding open_application note_device_unavailable
  open_application-Balanced id msg p prov dev app d k h b = search release_rules

  pub require_login-Balanced :
      (id : Option Json) (prov dev app : Text) (k : Unit {0} → Handler W)
      → Balanced held (k tt)
      → Balanced held (require_login ctx id prov dev app k)
  unfolding require_login
  require_login-Balanced id prov dev app k b = search release_rules

pub ruleset domain_rules = (
  release_rules, resolve-Balanced, open_device-Balanced, open_application-Balanced,
  open_container-Balanced, require_login-Balanced,
)
