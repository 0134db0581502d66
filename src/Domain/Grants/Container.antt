-- ===== src/Domain/Grants/Container.antt =====
-- The handlers of src/domain/container.rs grant nothing.
use liuzx_skf.Session.Auth.{AuthKey}
use liuzx_skf.Exec.{Outcome}
use liuzx_skf.Exec.Grants.{Modest}
use liuzx_skf.Protocol.{Language}
use liuzx_skf.Protocol.Params.{Params}
use liuzx_skf.Domain.{Context}
use liuzx_skf.Domain.Grants.{session_rules}
use liuzx_skf.Common.{text_eq}
use liuzx_skf.Domain.Container.{
  create_container, delete_container, get_container_type, import_certificate,
}

module _ {W : Type 0} (ctx : Context W) (params : Params) (lang : Language)
    (excused : AuthKey → Outcome → Type 0) where
  pub create_container-Modest : Modest excused (create_container ctx params lang)
  unfolding create_container
  create_container-Modest = search session_rules depth 24

  pub delete_container-Modest : Modest excused (delete_container ctx params lang)
  unfolding delete_container
  delete_container-Modest = search session_rules depth 24

  pub get_container_type-Modest : Modest excused (get_container_type ctx params lang)
  unfolding get_container_type
  get_container_type-Modest = search session_rules depth 24

  pub import_certificate-Modest : Modest excused (import_certificate ctx params lang)
  unfolding import_certificate
  import_certificate-Modest = search session_rules depth 24
