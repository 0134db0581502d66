-- ===== src/Domain/Grants/Sign.antt =====
-- The handlers of src/domain/crypto.rs grant nothing.
use liuzx_skf.Session.Auth.{AuthKey}
use liuzx_skf.Exec.{Outcome}
use liuzx_skf.Exec.Grants.{Modest}
use liuzx_skf.Protocol.{Language}
use liuzx_skf.Protocol.Params.{Params}
use liuzx_skf.Provider.{Provider, ContainerHandle}
use liuzx_skf.Domain.{Context}
use liuzx_skf.Domain.Grants.{session_rules}
use liuzx_skf.Common.{Bytes, text_eq, ℕ}
use liuzx_skf.Domain.Sign.{
  sign_data, rsa_sign_data, sign_failed, sign_with_ecc, sign_with_rsa, sign_by_type,
}

module _ {W : Type 0} (ctx : Context W) (params : Params) (lang : Language)
    (excused : AuthKey → Outcome → Type 0) where
  sign_by_type-Modest :
      (p : Provider W) (c : ContainerHandle) (data_bytes : Bytes) (cont_type : ℕ)
      → Modest excused (sign_by_type ctx params lang p c data_bytes cont_type)
  unfolding sign_by_type sign_with_ecc sign_with_rsa sign_failed
  sign_by_type-Modest p c data_bytes cont_type = search session_rules depth 24

  pub sign_data-Modest : Modest excused (sign_data ctx params lang)
  unfolding sign_data
  sign_data-Modest = search (session_rules, sign_by_type-Modest) depth 24

  pub rsa_sign_data-Modest : Modest excused (rsa_sign_data ctx params lang)
  unfolding rsa_sign_data
  rsa_sign_data-Modest = search session_rules depth 24
