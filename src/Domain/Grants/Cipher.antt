-- ===== src/Domain/Grants/Cipher.antt =====
-- The handlers of src/domain/crypto.rs grant nothing.
use liuzx_skf.Session.Auth.{AuthKey}
use liuzx_skf.Exec.{Outcome, Handler}
use liuzx_skf.Exec.Grants.{Modest}
use liuzx_skf.Protocol.{Language}
use liuzx_skf.Protocol.Params.{Params}
use liuzx_skf.Provider.{Provider, ContainerHandle}
use liuzx_skf.Domain.{Context}
use liuzx_skf.Domain.Grants.{session_rules}
use liuzx_skf.Common.{Bytes, text_eq, Option, none, some}
use liuzx_skf.Domain.Cipher.{encrypt_data, decrypt_data, with_key}

module _ {W : Type 0} (ctx : Context W) (params : Params) (lang : Language)
    (excused : AuthKey → Outcome → Type 0) where
  with_key-Modest :
      (p : Provider W) (c : ContainerHandle) (key : Option Bytes) (k : Unit {0} → Handler W)
      → Modest excused (k tt)
      → Modest excused (with_key ctx params lang p c key k)
  unfolding with_key
  with_key-Modest p c none k m = m
  with_key-Modest p c (some key) k m = search session_rules depth 24

  pub encrypt_data-Modest : Modest excused (encrypt_data ctx params lang)
  unfolding encrypt_data
  encrypt_data-Modest = search (session_rules, with_key-Modest) depth 24

  pub decrypt_data-Modest : Modest excused (decrypt_data ctx params lang)
  unfolding decrypt_data
  decrypt_data-Modest = search (session_rules, with_key-Modest) depth 24
