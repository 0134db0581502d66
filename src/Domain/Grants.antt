-- ===== src/Domain/Grants.antt =====
-- The steps of src/domain, and what its handlers do to the session's grants.
use liuzx_skf.Session.Auth.{AuthKey}
use liuzx_skf.Common.{Result, ok, err, Text, text_eq, ℕ, Option, arith}
pub mod Container
pub mod Keys
pub mod Pin
pub mod Sign
pub mod Cipher
pub mod Requests
use liuzx_skf.Protocol.{Json, RpcResponse}
use liuzx_skf.Provider.{Provider, DeviceHandle, AppHandle, ContainerHandle}
use liuzx_skf.Exec.{Outcome, announce, resolved, Handler, respond}
use liuzx_skf.Exec.Grants.{grant_rules, Modest, observe-Modest, announce-Modest, respond-Modest}
use liuzx_skf.Domain.{
  Context, note_device_unavailable, resolve, open_device, open_application, require_login,
  open_container,
}

module _ {W : Type 0} (ctx : Context W) (excused : AuthKey → Outcome → Type 0) where
  pub resolve-Modest :
      (fail : Text → RpcResponse) (alias : Text) (k : Provider W → Handler W)
      → ((p : Provider W) → Modest excused (k p))
      → Modest excused (resolve ctx fail alias k)
  unfolding resolve
  resolve-Modest fail alias k m = observe-Modest excused (ctx.resolve alias) _ (found m)
    where
      found :
          ((p : Provider W) → Modest excused (k p))
          → (r : Result Text (Provider W))
          → Modest excused
              (elim r [ ok p ↦ announce (resolved alias) (k p) | err e ↦ respond (fail e) ])
      found m (ok p) = announce-Modest excused (resolved alias) (k p) (m p)
      found m (err e) = respond-Modest excused (fail e)

  pub open_device-Modest :
      (id : Option Json) (p : Provider W) (prov dev : Text) (k : DeviceHandle → Handler W)
      → ((d : DeviceHandle) → Modest excused (k d))
      → Modest excused (open_device ctx id p prov dev k)
  unfolding open_device note_device_unavailable
  open_device-Modest id p prov dev k m = search grant_rules

  pub open_container-Modest :
      (id : Option Json) (p : Provider W) (cont : Text) (a : AppHandle)
      (k : ContainerHandle → Handler W)
      → ((c : ContainerHandle) → Modest excused (k c))
      → Modest excused (open_container ctx id p cont a k)
  unfolding open_container
  open_container-Modest id p cont a k m = search grant_rules

  pub open_application-Modest :
      (id : Option Json) (msg : ℕ → Text) (p : Provider W) (prov dev app : Text) (d : DeviceHandle)
      (k : AppHandle → Handler W)
      → ((a : AppHandle) → Modest excused (k a))
      → Modest excused (open_application ctx id msg p prov dev app d k)
  unfolding open_application note_device_unavailable
  open_application-Modest id msg p prov dev app d k m = search grant_rules

  pub require_login-Modest :
      (id : Option Json) (prov dev app : Text) (k : Unit {0} → Handler W)
      → Modest excused (k tt)
      → Modest excused (require_login ctx id prov dev app k)
  unfolding require_login
  require_login-Modest id prov dev app k m = search grant_rules

pub ruleset session_rules = (
  grant_rules, resolve-Modest, open_device-Modest, open_application-Modest, open_container-Modest,
  require_login-Modest,
)
