-- ===== src/Domain/Login/Cipher.antt =====
-- The handlers of src/domain/crypto.rs that use a container under a login.
use liuzx_skf.Exec.{Handler}
use liuzx_skf.Exec.Login.{Stage, Guarded}
use liuzx_skf.Protocol.{Language}
use liuzx_skf.Protocol.Params.{Params}
use liuzx_skf.Provider.{Provider, ContainerHandle}
use liuzx_skf.Session.Auth.{AuthKey}
use liuzx_skf.Domain.{Context}
use liuzx_skf.Domain.Login.{login_rules, stage}
use liuzx_skf.Common.{Text, Bytes, text_eq, Bool, true, Option, none, some}
use liuzx_skf.Domain.Cipher.{encrypt_data, decrypt_data, with_key}

module _ {W : Type 0} (ctx : Context W) (params : Params) (lang : Language)
    (allowed : AuthKey → Bool) where
  with_key-Guarded :
      (prov dev app : Text) (p : Provider W) (c : ContainerHandle) (key : Option Bytes)
      (k : Unit {0} → Handler W)
      → Guarded allowed (stage prov dev app true) (k tt)
      → Guarded allowed (stage prov dev app true) (with_key ctx params lang p c key k)
  unfolding with_key
  with_key-Guarded prov dev app p c none k g = g
  with_key-Guarded prov dev app p c (some key) k g = search login_rules depth 24

  pub encrypt_data-Guarded : (st : Stage) → Guarded allowed st (encrypt_data ctx params lang)
  unfolding encrypt_data
  encrypt_data-Guarded st = search (login_rules, with_key-Guarded) depth 24

  pub decrypt_data-Guarded : (st : Stage) → Guarded allowed st (decrypt_data ctx params lang)
  unfolding decrypt_data
  decrypt_data-Guarded st = search (login_rules, with_key-Guarded) depth 24
