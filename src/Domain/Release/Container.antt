-- ===== src/Domain/Release/Container.antt =====
-- The handlers of src/domain/container.rs release what they open.
use liuzx_skf.Exec.Release.{Balanced}
use liuzx_skf.Protocol.{Language}
use liuzx_skf.Protocol.Params.{Params}
use liuzx_skf.Domain.{Context}
use liuzx_skf.Domain.Container.{
  create_container, delete_container, get_container_type, import_certificate,
}
use liuzx_skf.Domain.Release.{domain_rules}
use liuzx_skf.Common.{text_eq, []}

module _ {W : Type 0} (ctx : Context W) (params : Params) (lang : Language) where
  pub create_container-Balanced : Balanced [] (create_container ctx params lang)
  unfolding create_container
  create_container-Balanced = search domain_rules depth 20

  pub delete_container-Balanced : Balanced [] (delete_container ctx params lang)
  unfolding delete_container
  delete_container-Balanced = search domain_rules depth 20

  pub get_container_type-Balanced : Balanced [] (get_container_type ctx params lang)
  unfolding get_container_type
  get_container_type-Balanced = search domain_rules depth 20

  pub import_certificate-Balanced : Balanced [] (import_certificate ctx params lang)
  unfolding import_certificate
  import_certificate-Balanced = search domain_rules depth 24
