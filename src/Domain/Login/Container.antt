-- ===== src/Domain/Login/Container.antt =====
-- The handlers of src/domain/container.rs that use a container under a login.
use liuzx_skf.Exec.Login.{Stage, Guarded}
use liuzx_skf.Protocol.{Language}
use liuzx_skf.Protocol.Params.{Params}
use liuzx_skf.Session.Auth.{AuthKey}
use liuzx_skf.Domain.{Context}
use liuzx_skf.Domain.Login.{login_rules}
use liuzx_skf.Common.{text_eq, Bool}
use liuzx_skf.Domain.Container.{create_container, import_certificate}

module _ {W : Type 0} (ctx : Context W) (params : Params) (lang : Language)
    (allowed : AuthKey → Bool) where
  pub create_container-Guarded :
      (st : Stage) → Guarded allowed st (create_container ctx params lang)
  unfolding create_container
  create_container-Guarded st = search login_rules depth 24

  pub import_certificate-Guarded :
      (st : Stage) → Guarded allowed st (import_certificate ctx params lang)
  unfolding import_certificate
  import_certificate-Guarded st = search login_rules depth 24
