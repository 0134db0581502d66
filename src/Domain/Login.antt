-- ===== src/Domain/Login.antt =====
-- The steps of src/domain, and which of its handlers ask for a login before they use a container.
pub mod Container
pub mod Keys
pub mod Sign
pub mod Cipher
pub mod Requests
use liuzx_skf.Common.{
  if◌then◌else◌, Result, is_ok, ok, err, Text, text_eq, ===-refl, ℕ, ◌≡◌, refl, Bool, true, false,
  ◌&&◌, Option, ◌∷◌, arith, [], Bool-cases,
}
use liuzx_skf.Protocol.{Json, RpcResponse}
use liuzx_skf.Provider.{Provider, DeviceHandle, AppHandle, ContainerHandle, Operation, Call}
use liuzx_skf.Exec.{
  announce, resolved, Handler, respond, device_resource, app_resource, container_resource, Resource,
  invoke,
}
use liuzx_skf.Exec.Login.{Stage, Guarded, permitted, matches, may_open, entered, privileged}
use liuzx_skf.Exec.Login.Rules.{
  respond-Guarded, observe-Guarded, announce-Guarded, invalidate-Guarded, acquire-Guarded,
  connect-Guarded, authorize-Guarded, or_panic-Guarded, or_return-Guarded, or_fail-Guarded,
  if-Guarded, invoke-Guarded,
}
use liuzx_skf.Session.Auth.{AuthKey, AuthRejection}
use liuzx_skf.Domain.{
  Context, note_device_unavailable, resolve, open_device, open_application, require_login,
  open_container, login_required, ProviderError, acquire, called,
}

abbrev pub stage : Text → Text → Text → Bool → Stage
stage prov dev app granted = record {
  alias = prov;
  device_name = dev;
  app_name = app;
  granted = granted;
}

module _ {W : Type 0} (ctx : Context W) (allowed : AuthKey → Bool) where
  pub resolve-Guarded :
      (st : Stage) (fail : Text → RpcResponse) (alias : Text) (k : Provider W → Handler W)
      → ((p : Provider W) → Guarded allowed (stage alias st.device_name st.app_name false) (k p))
      → Guarded allowed st (resolve ctx fail alias k)
  unfolding resolve
  resolve-Guarded st fail alias k g = observe-Guarded allowed st (ctx.resolve alias) _ (found g)
    where
      found :
          ((p : Provider W) → Guarded allowed (stage alias st.device_name st.app_name false) (k p))
          → (r : Result Text (Provider W))
          → Guarded allowed st
              (elim r [ ok p ↦ announce (resolved alias) (k p) | err e ↦ respond (fail e) ])
      found g (ok p) = announce-Guarded allowed st alias (k p) (g p)
      found g (err e) = respond-Guarded allowed st (fail e)

  pub open_device-Guarded :
      (st : Stage) (id : Option Json) (p : Provider W) (prov dev : Text)
      (k : DeviceHandle → Handler W)
      → ((d : DeviceHandle) → Guarded allowed (stage st.alias dev st.app_name false) (k d))
      → Guarded allowed st (open_device ctx id p prov dev k)
  unfolding open_device note_device_unavailable may_open entered
  open_device-Guarded st id p prov dev k g =
      connect-Guarded allowed st device_resource dev p.close_device (p.open_device dev) _ k
        (λ e. invalidate-Guarded allowed st prov dev _ (respond-Guarded allowed st _)) (λ d. refl) g

  pub open_application-Guarded :
      (st : Stage) (id : Option Json) (msg : ℕ → Text) (p : Provider W) (prov dev app : Text)
      (d : DeviceHandle) (k : AppHandle → Handler W)
      → ((a : AppHandle) → Guarded allowed (stage st.alias st.device_name app false) (k a))
      → Guarded allowed st (open_application ctx id msg p prov dev app d k)
  unfolding open_application note_device_unavailable may_open entered permitted privileged
  open_application-Guarded st id msg p prov dev app d k g =
      acquire-Guarded allowed st (device_resource d) Operation.open_application app_resource app
        p.close_application (p.open_application d app) _ k refl
        (λ e. invalidate-Guarded allowed st prov dev _ (respond-Guarded allowed st _)) (λ a. refl) g

  abbrev key_of : Text → Text → Text → AuthKey
  key_of prov dev app = record { provider = prov; device = dev; application = app }

  matches-own :
      (prov dev app : Text)
      → matches
          (stage prov dev app false)
          (record { provider = prov; device = dev; application = app })
        ≡ true
  unfolding matches
  matches-own prov dev app = rw (===-refl prov, ===-refl dev, ===-refl app)

  pub require_login-Guarded :
      (id : Option Json) (prov dev app : Text) (k : Unit {0} → Handler W)
      → Guarded allowed (stage prov dev app true) (k tt)
      → Guarded allowed (stage prov dev app false) (require_login ctx id prov dev app k)
  unfolding require_login
  require_login-Guarded id prov dev app k g =
      authorize-Guarded allowed (stage prov dev app false) ctx.clock (key_of prov dev app) _ asked
    where
      asked :
          (r : Result AuthRejection (Unit {0}))
          → Guarded allowed
              (stage prov dev app
                (is_ok r && matches (stage prov dev app false) (key_of prov dev app)))
              (if is_ok r then k tt else respond (login_required id))
      asked (ok u) = rw (matches-own prov dev app) g
      asked (err e) = respond-Guarded allowed (stage prov dev app false) _

  pub open_container-Guarded :
      (prov dev app : Text) (id : Option Json) (p : Provider W) (cont : Text) (a : AppHandle)
      (k : ContainerHandle → Handler W)
      → ((c : ContainerHandle) → Guarded allowed (stage prov dev app true) (k c))
      → Guarded allowed (stage prov dev app true) (open_container ctx id p cont a k)
  unfolding open_container may_open entered permitted privileged
  open_container-Guarded prov dev app id p cont a k g =
      acquire-Guarded allowed (stage prov dev app true) (app_resource a) Operation.open_container
        container_resource cont p.close_container (p.open_container a cont) _ k refl
        (λ e. respond-Guarded allowed (stage prov dev app true) _) (λ c. refl) g

  pub create_container-Guarded :
      (prov dev app : Text) (r : Resource) (cont : Text) (close : ContainerHandle → W → W)
      (call : Call W ContainerHandle) (fail : ProviderError → Handler W)
      (k : ContainerHandle → Handler W)
      → ((e : ProviderError) → Guarded allowed (stage prov dev app true) (fail e))
      → ((c : ContainerHandle) → Guarded allowed (stage prov dev app true) (k c))
      → Guarded allowed (stage prov dev app true) (
          acquire
            (called r Operation.create_container ∷ [])
            container_resource
            cont
            close
            call
            fail
            k)
  unfolding may_open entered permitted privileged
  create_container-Guarded prov dev app r cont close call fail k f g =
      acquire-Guarded allowed (stage prov dev app true) r Operation.create_container
        container_resource cont close call fail k refl f (λ c. refl) g

  pub invoke_granted-Guarded :
      {A : Type 0} (prov dev app : Text) (r : Resource) (op : Operation) (call : Call W A)
      (k : Result ProviderError A → Handler W)
      → ((a : Result ProviderError A) → Guarded allowed (stage prov dev app true) (k a))
      → Guarded allowed (stage prov dev app true) (invoke r op call k)
  unfolding permitted
  invoke_granted-Guarded prov dev app r op call k g =
      invoke-Guarded allowed (stage prov dev app true) r op call k
        (ground (arith, Bool-cases (privileged op))) g

pub ruleset login_rules = (
  respond-Guarded, or_panic-Guarded, or_return-Guarded, or_fail-Guarded, if-Guarded,
  resolve-Guarded, open_device-Guarded, open_application-Guarded, require_login-Guarded,
  open_container-Guarded, create_container-Guarded, invoke_granted-Guarded,
)
