-- ===== src/Domain/Release/Pin.antt =====
-- The handlers of src/domain/pin.rs release what they open.
use liuzx_skf.Exec.Release.{Balanced}
use liuzx_skf.Protocol.{Language}
use liuzx_skf.Protocol.Params.{Params}
use liuzx_skf.Domain.{Context}
use liuzx_skf.Domain.Release.{domain_rules}
use liuzx_skf.Common.{text_eq, []}
use liuzx_skf.Domain.Pin.{check_pin, conclude}

module _ {W : Type 0} (ctx : Context W) (params : Params) (lang : Language) where
  pub check_pin-Balanced : Balanced [] (check_pin ctx params lang)
  unfolding check_pin conclude
  check_pin-Balanced = search domain_rules depth 24
