-- ===== src/Domain/Release/Sign.antt =====
-- The handlers of src/domain/crypto.rs release what they open.
use liuzx_skf.Exec.{Resource, container_resource}
use liuzx_skf.Provider.{Provider, ContainerHandle}
use liuzx_skf.Exec.Release.{Balanced, alive}
use liuzx_skf.Protocol.{Language}
use liuzx_skf.Protocol.Params.{Params}
use liuzx_skf.Domain.{Context}
use liuzx_skf.Domain.Release.{domain_rules}
use liuzx_skf.Common.{Bytes, text_eq, ℕ, ◌≡◌, true, List, []}
use liuzx_skf.Domain.Sign.{
  sign_failed, sign_with_ecc, sign_with_rsa, sign_by_type, sign_data, rsa_sign_data,
}

module _ {W : Type 0} (ctx : Context W) (params : Params) (lang : Language) where
  sign_by_type-Balanced :
      (held : List Resource) (provider : Provider W) (c : ContainerHandle) (data_bytes : Bytes)
      (cont_type : ℕ)
      → alive (container_resource c) held ≡ true
      → Balanced held (sign_by_type ctx params lang provider c data_bytes cont_type)
  unfolding sign_by_type sign_with_ecc sign_with_rsa sign_failed
  sign_by_type-Balanced held provider c data_bytes cont_type h = search domain_rules depth 24

  pub sign_data-Balanced : Balanced [] (sign_data ctx params lang)
  unfolding sign_data
  sign_data-Balanced = search (domain_rules, sign_by_type-Balanced) depth 24

  pub rsa_sign_data-Balanced : Balanced [] (rsa_sign_data ctx params lang)
  unfolding rsa_sign_data
  rsa_sign_data-Balanced = search domain_rules depth 24
