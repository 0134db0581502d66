-- ===== src/Domain/Release/Cipher.antt =====
-- The handlers of src/domain/crypto.rs release what they open.
use liuzx_skf.Exec.{Resource, container_resource, Handler}
use liuzx_skf.Provider.{Provider, ContainerHandle}
use liuzx_skf.Exec.Release.{Balanced, alive}
use liuzx_skf.Protocol.{Language}
use liuzx_skf.Protocol.Params.{Params}
use liuzx_skf.Domain.{Context}
use liuzx_skf.Domain.Release.{domain_rules}
use liuzx_skf.Common.{Bytes, text_eq, ◌≡◌, true, Option, none, some, List, []}
use liuzx_skf.Domain.Cipher.{with_key, encrypt_data, decrypt_data}

module _ {W : Type 0} (ctx : Context W) (params : Params) (lang : Language) where
  with_key-Balanced :
      (held : List Resource) (provider : Provider W) (c : ContainerHandle) (key : Option Bytes)
      (k : Unit {0} → Handler W)
      → alive (container_resource c) held ≡ true
      → Balanced held (k tt)
      → Balanced held (with_key ctx params lang provider c key k)
  unfolding with_key
  with_key-Balanced held provider c none k h b = b
  with_key-Balanced held provider c (some key) k h b = search domain_rules depth 24

  pub encrypt_data-Balanced : Balanced [] (encrypt_data ctx params lang)
  unfolding encrypt_data
  encrypt_data-Balanced = search (domain_rules, with_key-Balanced) depth 24

  pub decrypt_data-Balanced : Balanced [] (decrypt_data ctx params lang)
  unfolding decrypt_data
  decrypt_data-Balanced = search (domain_rules, with_key-Balanced) depth 24
