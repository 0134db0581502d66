-- ===== src/Domain/Login/Sign.antt =====
-- The handlers of src/domain/crypto.rs that use a container under a login.
use liuzx_skf.Exec.Login.{Stage, Guarded}
use liuzx_skf.Protocol.{Language}
use liuzx_skf.Protocol.Params.{Params}
use liuzx_skf.Provider.{Provider, ContainerHandle}
use liuzx_skf.Session.Auth.{AuthKey}
use liuzx_skf.Domain.{Context}
use liuzx_skf.Domain.Login.{login_rules, stage}
use liuzx_skf.Common.{Text, Bytes, text_eq, ℕ, Bool, true}
use liuzx_skf.Domain.Sign.{
  sign_data, rsa_sign_data, sign_failed, sign_with_ecc, sign_with_rsa, sign_by_type,
}

module _ {W : Type 0} (ctx : Context W) (params : Params) (lang : Language)
    (allowed : AuthKey → Bool) where
  sign_by_type-Guarded :
      (prov dev app : Text) (p : Provider W) (c : ContainerHandle) (data_bytes : Bytes)
      (cont_type : ℕ)
      → Guarded allowed
          (stage prov dev app true)
          (sign_by_type ctx params lang p c data_bytes cont_type)
  unfolding sign_by_type sign_with_ecc sign_with_rsa sign_failed
  sign_by_type-Guarded prov dev app p c data_bytes cont_type = search login_rules depth 24

  pub sign_data-Guarded : (st : Stage) → Guarded allowed st (sign_data ctx params lang)
  unfolding sign_data
  sign_data-Guarded st = search (login_rules, sign_by_type-Guarded) depth 24

  pub rsa_sign_data-Guarded : (st : Stage) → Guarded allowed st (rsa_sign_data ctx params lang)
  unfolding rsa_sign_data
  rsa_sign_data-Guarded st = search login_rules depth 24
