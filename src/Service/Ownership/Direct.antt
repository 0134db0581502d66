-- ===== src/Service/Ownership/Direct.antt =====
-- The branches without guards of src/main.rs close what they open.
use liuzx_skf.Session.State.{SessionState}
use liuzx_skf.Protocol.{Language, as_str}
use liuzx_skf.Protocol.Params.{Params, value_at}
use liuzx_skf.Native.Buffers.{has_nul}
use liuzx_skf.Service.{SkfContext}
use liuzx_skf.Service.Raw.Devices.{
  get_dev_info, get_dev_state, state_of_default, state_of_other, set_label, lock_dev, unlock_dev,
  transmit, digest_init_other,
}
use liuzx_skf.Service.Raw.Lists.{
  enum_device, devices_of_default, devices_of_other, second_enum_dev, enum_application,
  no_applications, second_enum_application, enum_container, no_containers, second_enum_container,
  open_raw_application, close_both, list_answer,
}
use liuzx_skf.Service.Raw.Verify.{ecc_verify, rsa_verify}
use liuzx_skf.Service.Ownership.Steps.{Settles}
use liuzx_skf.Service.Ownership.Native.{native_rules, missing-Settles}
use liuzx_skf.Common.{Text, text_eq, ℕ, ◌≡◌, false, some, []}

module _ {W : Type 0} (ctx : SkfContext W) (params : Params) (lang : Language) (room : ℕ)
    (s : SessionState) where
  pub get_dev_info-Settles : Settles room [] [] (get_dev_info ctx params lang) s
  unfolding get_dev_info
  get_dev_info-Settles = search native_rules depth 24

  pub get_dev_state-Settles : Settles room [] [] (get_dev_state ctx params lang) s
  unfolding get_dev_state state_of_default state_of_other
  get_dev_state-Settles = search native_rules depth 24

  pub lock_dev-Settles : Settles room [] [] (lock_dev ctx params lang) s
  unfolding lock_dev
  lock_dev-Settles = search native_rules depth 24

  pub unlock_dev-Settles : Settles room [] [] (unlock_dev ctx params lang) s
  unfolding unlock_dev
  unlock_dev-Settles = search native_rules depth 24

  pub transmit-Settles : Settles room [] [] (transmit ctx params lang) s
  unfolding transmit
  transmit-Settles = search native_rules depth 24

  pub digest_init_other-Settles :
      (provider dev_name : Text)
      → Settles room [] [] (digest_init_other ctx params lang provider dev_name) s
  unfolding digest_init_other
  digest_init_other-Settles provider dev_name = search native_rules depth 24

  pub ecc_verify-Settles : Settles room [] [] (ecc_verify ctx params lang) s
  unfolding ecc_verify
  ecc_verify-Settles = search native_rules depth 24

  pub rsa_verify-Settles : Settles room [] [] (rsa_verify ctx params lang) s
  unfolding rsa_verify
  rsa_verify-Settles = search native_rules depth 24

  pub enum_device-Settles : Settles room [] [] (enum_device ctx params lang) s
  unfolding enum_device devices_of_default devices_of_other second_enum_dev list_answer
  enum_device-Settles = search native_rules depth 24

  pub enum_application-Settles : Settles room [] [] (enum_application ctx params lang) s
  unfolding enum_application no_applications second_enum_application list_answer
  enum_application-Settles = search native_rules depth 24

  pub set_label-Settles :
      ((label : Text) → value_at as_str params 2 ≡ some label → has_nul label ≡ false)
      → Settles room [] [] (set_label ctx params lang) s
  unfolding set_label
  set_label-Settles plain = search (native_rules, missing-Settles) depth 24

  pub enum_container-Settles :
      ((app_name : Text) → value_at as_str params 2 ≡ some app_name → has_nul app_name ≡ false)
      → Settles room [] [] (enum_container ctx params lang) s
  unfolding enum_container no_containers second_enum_container open_raw_application close_both
      list_answer
  enum_container-Settles plain = search (native_rules, missing-Settles) depth 30
