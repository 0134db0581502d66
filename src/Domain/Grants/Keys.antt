-- ===== src/Domain/Grants/Keys.antt =====
-- The handlers of src/domain/keys.rs grant nothing.
use liuzx_skf.Session.Auth.{AuthKey}
use liuzx_skf.Exec.{Outcome}
use liuzx_skf.Exec.Grants.{Modest}
use liuzx_skf.Protocol.{Language}
use liuzx_skf.Protocol.Params.{Params}
use liuzx_skf.Domain.{Context}
use liuzx_skf.Domain.Grants.{session_rules}
use liuzx_skf.Common.{text_eq}
use liuzx_skf.Domain.Keys.{gen_ecc_key_pair, gen_rsa_key_pair}

module _ {W : Type 0} (ctx : Context W) (params : Params) (lang : Language)
    (excused : AuthKey → Outcome → Type 0) where
  pub gen_ecc_key_pair-Modest : Modest excused (gen_ecc_key_pair ctx params lang)
  unfolding gen_ecc_key_pair
  gen_ecc_key_pair-Modest = search session_rules depth 24

  pub gen_rsa_key_pair-Modest : Modest excused (gen_rsa_key_pair ctx params lang)
  unfolding gen_rsa_key_pair
  gen_rsa_key_pair-Modest = search session_rules depth 24
