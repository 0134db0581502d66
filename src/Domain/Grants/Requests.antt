-- ===== src/Domain/Grants/Requests.antt =====
-- `CreatePKCS10` of src/domain/crypto.rs grants nothing.
use liuzx_skf.Session.Auth.{AuthKey}
use liuzx_skf.Exec.{Outcome, Handler}
use liuzx_skf.Exec.Grants.{Modest, or_panic-Modest, observe-Modest}
use liuzx_skf.Protocol.{Language}
use liuzx_skf.Protocol.Params.{Params}
use liuzx_skf.Provider.{Provider, ProviderError, DeviceHandle, AppHandle, ContainerHandle}
use liuzx_skf.Domain.{Context}
use liuzx_skf.Domain.Grants.{session_rules}
use liuzx_skf.Domain.Requests.{
  chosen_name, container_name, open_csr_application, create_or_open, generate, hash_tbs, sign_hash,
  certify, create_pkcs10, random_name,
}
use liuzx_skf.Common.{Result, ok, err, Text, Bytes, text_eq, ℕ}

module _ {W : Type 0} (ctx : Context W) (params : Params)
    (excused : AuthKey → Outcome → Type 0) where
  chosen_name-Modest :
      (r : Result ProviderError Bytes) (k : Text → Handler W)
      → ((name : Text) → Modest excused (k name))
      → Modest excused (chosen_name ctx params r k)
  unfolding chosen_name
  chosen_name-Modest (ok bytes) k m = or_panic-Modest excused (random_name bytes) k m
  chosen_name-Modest (err e) k m = observe-Modest excused (λ w. (ctx.micros w, w)) _ (λ t. m _)

  module _ (p : Provider W) where
    certify-Modest :
        (d : DeviceHandle) (c : ContainerHandle) (subject cont_name key_type : Text)
        (key_length : ℕ)
        → Modest excused (certify ctx params p d c subject cont_name key_type key_length)
    unfolding certify generate hash_tbs sign_hash
    certify-Modest d c subject cont_name key_type key_length =
        search (session_rules, observe-Modest) depth 32

    create_or_open-Modest :
        (a : AppHandle) (param cont : Text) (k : ContainerHandle → Handler W)
        → ((c : ContainerHandle) → Modest excused (k c))
        → Modest excused (create_or_open ctx params p a param cont k)
    unfolding create_or_open
    create_or_open-Modest a param cont k m = search session_rules

    container_name-Modest :
        (d : DeviceHandle) (param : Text) (k : Text → Handler W)
        → ((name : Text) → Modest excused (k name))
        → Modest excused (container_name ctx params p d param k)
    unfolding container_name
    container_name-Modest d param k m = search (session_rules, chosen_name-Modest)

    open_csr_application-Modest :
        (app : Text) (d : DeviceHandle) (k : AppHandle → Handler W)
        → ((a : AppHandle) → Modest excused (k a))
        → Modest excused (open_csr_application ctx params p app d k)
    unfolding open_csr_application
    open_csr_application-Modest app d k m = search session_rules

  pub create_pkcs10-Modest : (lang : Language) → Modest excused (create_pkcs10 ctx params lang)
  unfolding create_pkcs10
  create_pkcs10-Modest lang =
      search
        (
          session_rules, open_csr_application-Modest, container_name-Modest, create_or_open-Modest,
          certify-Modest,
        )
        depth 24
