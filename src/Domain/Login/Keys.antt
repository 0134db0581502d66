-- ===== src/Domain/Login/Keys.antt =====
-- The handlers of src/domain/keys.rs that use a container under a login.
use liuzx_skf.Exec.Login.{Stage, Guarded}
use liuzx_skf.Protocol.{Language}
use liuzx_skf.Protocol.Params.{Params}
use liuzx_skf.Session.Auth.{AuthKey}
use liuzx_skf.Domain.{Context}
use liuzx_skf.Domain.Login.{login_rules}
use liuzx_skf.Common.{text_eq, Bool}
use liuzx_skf.Domain.Keys.{gen_ecc_key_pair, gen_rsa_key_pair}

module _ {W : Type 0} (ctx : Context W) (params : Params) (lang : Language)
    (allowed : AuthKey → Bool) where
  pub gen_ecc_key_pair-Guarded :
      (st : Stage) → Guarded allowed st (gen_ecc_key_pair ctx params lang)
  unfolding gen_ecc_key_pair
  gen_ecc_key_pair-Guarded st = search login_rules depth 24

  pub gen_rsa_key_pair-Guarded :
      (st : Stage) → Guarded allowed st (gen_rsa_key_pair ctx params lang)
  unfolding gen_rsa_key_pair
  gen_rsa_key_pair-Guarded st = search login_rules depth 24
