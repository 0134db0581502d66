-- ===== src/Domain/Release/Requests.antt =====
-- `CreatePKCS10` of src/domain/crypto.rs releases what it opens.
use liuzx_skf.Exec.{Resource, Handler, device_resource, app_resource, container_resource}
use liuzx_skf.Provider.{Provider, ProviderError, DeviceHandle, AppHandle, ContainerHandle}
use liuzx_skf.Exec.Release.{Balanced, alive, or_panic-Balanced, observe-Balanced}
use liuzx_skf.Protocol.{Language}
use liuzx_skf.Protocol.Params.{Params}
use liuzx_skf.Domain.{Context}
use liuzx_skf.Domain.Release.{domain_rules}
use liuzx_skf.Domain.Requests.{
  chosen_name, container_name, open_csr_application, create_or_open, KeyPart, generate, hash_tbs,
  certify, create_pkcs10, random_name,
}
use liuzx_skf.Common.{Result, ok, err, Text, Bytes, text_eq, ℕ, ◌≡◌, Bool, true, List, [], ◌∷◌}

module _ {W : Type 0} (ctx : Context W) (params : Params) where
  module _ (held : List Resource) (p : Provider W) where
    open_csr_application-Balanced :
        (app : Text) (d : DeviceHandle) (k : AppHandle → Handler W)
        → alive (device_resource d) held ≡ true
        → ((a : AppHandle) → Balanced (app_resource a ∷ held) (k a))
        → Balanced held (open_csr_application ctx params p app d k)
    unfolding open_csr_application
    open_csr_application-Balanced app d k h b = search domain_rules

    chosen_name-Balanced :
        (r : Result ProviderError Bytes) (k : Text → Handler W)
        → ((name : Text) → Balanced held (k name))
        → Balanced held (chosen_name ctx params r k)
    unfolding chosen_name
    chosen_name-Balanced (ok bytes) k b = or_panic-Balanced held (random_name bytes) k b
    chosen_name-Balanced (err e) k b = observe-Balanced held (λ w. (ctx.micros w, w)) _ (λ t. b _)

    container_name-Balanced :
        (d : DeviceHandle) (param : Text) (k : Text → Handler W)
        → alive (device_resource d) held ≡ true
        → ((name : Text) → Balanced held (k name))
        → Balanced held (container_name ctx params p d param k)
    unfolding container_name
    container_name-Balanced d param k h b = search (domain_rules, chosen_name-Balanced)

    create_or_open-Balanced :
        (a : AppHandle) (param cont : Text) (k : ContainerHandle → Handler W)
        → alive (app_resource a) held ≡ true
        → ((c : ContainerHandle) → Balanced (container_resource c ∷ held) (k c))
        → Balanced held (create_or_open ctx params p a param cont k)
    unfolding create_or_open
    create_or_open-Balanced a param cont k h b = search domain_rules

    generate-Balanced :
        (c : ContainerHandle) (is_ecc : Bool) (key_length : ℕ) (k : KeyPart → Handler W)
        → alive (container_resource c) held ≡ true
        → ((part : KeyPart) → Balanced held (k part))
        → Balanced held (generate ctx params p c is_ecc key_length k)
    unfolding generate
    generate-Balanced c is_ecc key_length k h b = search domain_rules

    hash_tbs-Balanced :
        (d : DeviceHandle) (part : KeyPart) (tbs : Bytes) (k : Bytes → Handler W)
        → alive (device_resource d) held ≡ true
        → ((g : Resource) (hash : Bytes) → Balanced (g ∷ held) (k hash))
        → Balanced held (hash_tbs ctx params p d part tbs k)
    unfolding hash_tbs
    hash_tbs-Balanced d part tbs k h b = search domain_rules depth 24

    certify-Balanced :
        (d : DeviceHandle) (c : ContainerHandle) (subject cont_name key_type : Text)
        (key_length : ℕ)
        → alive (device_resource d) held ≡ true
        → alive (container_resource c) held ≡ true
        → Balanced held (certify ctx params p d c subject cont_name key_type key_length)
    unfolding certify
    certify-Balanced d c subject cont_name key_type key_length h i =
        search (domain_rules, generate-Balanced, hash_tbs-Balanced) depth 24

  pub create_pkcs10-Balanced : (lang : Language) → Balanced [] (create_pkcs10 ctx params lang)
  unfolding create_pkcs10
  create_pkcs10-Balanced lang =
      search
        (
          domain_rules, open_csr_application-Balanced, container_name-Balanced,
          create_or_open-Balanced, certify-Balanced,
        )
        depth 24
