-- ===== src/Domain/Release/Keys.antt =====
-- The handlers of src/domain/keys.rs release what they open.
use liuzx_skf.Exec.Release.{Balanced}
use liuzx_skf.Protocol.{Language}
use liuzx_skf.Protocol.Params.{Params}
use liuzx_skf.Domain.{Context}
use liuzx_skf.Domain.Release.{domain_rules}
use liuzx_skf.Common.{text_eq, []}
use liuzx_skf.Domain.Keys.{gen_ecc_key_pair, gen_rsa_key_pair}

module _ {W : Type 0} (ctx : Context W) (params : Params) (lang : Language) where
  pub gen_ecc_key_pair-Balanced : Balanced [] (gen_ecc_key_pair ctx params lang)
  unfolding gen_ecc_key_pair
  gen_ecc_key_pair-Balanced = search domain_rules depth 24

  pub gen_rsa_key_pair-Balanced : Balanced [] (gen_rsa_key_pair ctx params lang)
  unfolding gen_rsa_key_pair
  gen_rsa_key_pair-Balanced = search domain_rules depth 24
