-- ===== src/Domain/Login/Requests.antt =====
-- `CreatePKCS10` of src/domain/crypto.rs uses a container under a login.
use liuzx_skf.Exec.{
  Handler, acquire, called, container_resource, device_resource, app_resource, digest_resource,
}
use liuzx_skf.Exec.Login.{Stage, Guarded, permitted, may_open, entered, privileged}
use liuzx_skf.Exec.Login.Rules.{acquire-Guarded, observe-Guarded, or_panic-Guarded}
use liuzx_skf.Protocol.{Language}
use liuzx_skf.Protocol.Params.{Params}
use liuzx_skf.Provider.{
  Provider, ProviderError, Operation, DeviceHandle, AppHandle, ContainerHandle,
}
use liuzx_skf.Session.Auth.{AuthKey}
use liuzx_skf.Domain.{Context}
use liuzx_skf.Domain.Login.{login_rules, stage}
use liuzx_skf.Domain.Requests.{
  chosen_name, container_name, open_csr_application, create_or_open, KeyPart, generate, hash_tbs,
  sign_hash, certify, create_pkcs10, random_name,
}
use liuzx_skf.Common.{Result, ok, err, Text, Bytes, text_eq, ℕ, refl, Bool, true, false, [], ◌∷◌}

module _ {W : Type 0} (ctx : Context W) (params : Params) (allowed : AuthKey → Bool) where
  open_csr_application-Guarded :
      (st : Stage) (p : Provider W) (app : Text) (d : DeviceHandle) (k : AppHandle → Handler W)
      → ((a : AppHandle) → Guarded allowed (stage st.alias st.device_name app false) (k a))
      → Guarded allowed st (open_csr_application ctx params p app d k)
  unfolding open_csr_application may_open entered permitted privileged
  open_csr_application-Guarded st p app d k g =
      acquire-Guarded allowed st (device_resource d) Operation.open_application app_resource app
        p.close_application (p.open_application d app) _ k refl (λ e. search login_rules)
        (λ a. refl) g

  module _ (prov dev app : Text) (p : Provider W) where
    chosen_name-Guarded :
        (r : Result ProviderError Bytes) (k : Text → Handler W)
        → ((name : Text) → Guarded allowed (stage prov dev app true) (k name))
        → Guarded allowed (stage prov dev app true) (chosen_name ctx params r k)
    unfolding chosen_name
    chosen_name-Guarded (ok bytes) k g = or_panic-Guarded allowed _ (random_name bytes) k g
    chosen_name-Guarded (err e) k g =
        observe-Guarded allowed _ (λ w. (ctx.micros w, w)) _ (λ t. g _)

    container_name-Guarded :
        (d : DeviceHandle) (param : Text) (k : Text → Handler W)
        → ((name : Text) → Guarded allowed (stage prov dev app true) (k name))
        → Guarded allowed (stage prov dev app true) (container_name ctx params p d param k)
    unfolding container_name
    container_name-Guarded d param k g = search (login_rules, chosen_name-Guarded)

    -- A container that exists already, under the name of the request.
    open_existing-Guarded :
        (a : AppHandle) (cont : Text) (fail : ProviderError → Handler W)
        (k : ContainerHandle → Handler W)
        → ((e : ProviderError) → Guarded allowed (stage prov dev app true) (fail e))
        → ((c : ContainerHandle) → Guarded allowed (stage prov dev app true) (k c))
        → Guarded allowed (stage prov dev app true) (
            acquire
              (called (app_resource a) Operation.open_container ∷ [])
              container_resource
              cont
              p.close_container
              (p.open_container a cont)
              fail
              k)
    unfolding may_open entered permitted privileged
    open_existing-Guarded a cont fail k f g =
        acquire-Guarded allowed (stage prov dev app true) (app_resource a) Operation.open_container
          container_resource cont p.close_container (p.open_container a cont) fail k refl f
          (λ c. refl) g

    create_or_open-Guarded :
        (a : AppHandle) (param cont : Text) (k : ContainerHandle → Handler W)
        → ((c : ContainerHandle) → Guarded allowed (stage prov dev app true) (k c))
        → Guarded allowed (stage prov dev app true) (create_or_open ctx params p a param cont k)
    unfolding create_or_open
    create_or_open-Guarded a param cont k g = search (login_rules, open_existing-Guarded)

    generate-Guarded :
        (c : ContainerHandle) (is_ecc : Bool) (key_length : ℕ) (k : KeyPart → Handler W)
        → ((part : KeyPart) → Guarded allowed (stage prov dev app true) (k part))
        → Guarded allowed (stage prov dev app true) (generate ctx params p c is_ecc key_length k)
    unfolding generate
    generate-Guarded c is_ecc key_length k g = search login_rules

    hash_tbs-Guarded :
        (d : DeviceHandle) (part : KeyPart) (tbs : Bytes) (k : Bytes → Handler W)
        → ((hash : Bytes) → Guarded allowed (stage prov dev app true) (k hash))
        → Guarded allowed (stage prov dev app true) (hash_tbs ctx params p d part tbs k)
    unfolding hash_tbs may_open entered permitted privileged
    hash_tbs-Guarded d part tbs k g =
        acquire-Guarded allowed (stage prov dev app true) (device_resource d) Operation.digest_begin
          digest_resource [] p.close_digest _ _ _ refl (λ e. search login_rules) (λ x. refl)
          (λ x. search login_rules depth 24)

    sign_hash-Guarded :
        (c : ContainerHandle) (is_ecc : Bool) (hash_buf : Bytes) (k : Bytes → Handler W)
        → ((bits : Bytes) → Guarded allowed (stage prov dev app true) (k bits))
        → Guarded allowed (stage prov dev app true) (sign_hash ctx params p c is_ecc hash_buf k)
    unfolding sign_hash
    sign_hash-Guarded c is_ecc hash_buf k g = search login_rules

    certify-Guarded :
        (d : DeviceHandle) (c : ContainerHandle) (subject cont_name key_type : Text)
        (key_length : ℕ)
        → Guarded allowed
            (stage prov dev app true)
            (certify ctx params p d c subject cont_name key_type key_length)
    unfolding certify
    certify-Guarded d c subject cont_name key_type key_length =
        search (login_rules, generate-Guarded, hash_tbs-Guarded, sign_hash-Guarded, observe-Guarded)
          depth 24

  pub create_pkcs10-Guarded :
      (lang : Language) (st : Stage) → Guarded allowed st (create_pkcs10 ctx params lang)
  unfolding create_pkcs10
  create_pkcs10-Guarded lang st =
      search
        (
          login_rules, open_csr_application-Guarded, container_name-Guarded, create_or_open-Guarded,
          certify-Guarded,
        )
        depth 24
