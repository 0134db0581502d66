-- ===== src/Native/Guards/Application.antt =====
-- src/provider/native.rs: the methods of `Arc<NativeApplication>`.
use liuzx_skf.Provider.{ProviderError, Call, PinOutcome}
use liuzx_skf.Native.{Library, sar_ok}
use liuzx_skf.Native.Api
use liuzx_skf.Native.Buffers.{completed, read_names}
use liuzx_skf.Native.Guards.{
  NativeState, NativeApplication, NativeContainer, finish, with_cstring, nested, drop_raw,
}
use liuzx_skf.Common.{◌==◌, Result, ok, Text, Bytes, text_eq, text, ℕ, List}

-- A rejected PIN is an outcome, and so is a function that is missing.
unfoldable pub pin_outcome : ℕ × ℕ → Result ProviderError PinOutcome
pin_outcome (ret, retry_count) =
    ok (record { success = ret == sar_ok; retry_count = retry_count; code = ret })

module _ {W : Type 0} (lib : Library W) (self : NativeApplication) where
  unfoldable pub drop_application : NativeState W → NativeState W
  unfolding drop_raw
  drop_application = drop_raw self.raw (Api.close_application lib self.raw)

  unfoldable pub enum_containers : (Bytes → Text) → Call (NativeState W) (List Text)
  unfolding read_names
  enum_containers utf8_lossy s =
      let (r, w) =
        read_names utf8_lossy (text "EnumContainer") (Api.enum_container lib self.raw) s.vendor in
      (r, record s { vendor = w })

  -- The PIN of a user: its type is 1.
  unfoldable pub verify_pin : Text → Call (NativeState W) PinOutcome
  unfolding with_cstring finish pin_outcome
  verify_pin pin =
      with_cstring pin (text "VerifyPIN")
        (λ c_pin. finish pin_outcome (Api.verify_pin lib self.raw 1 c_pin 0))

  unfoldable pub open_container : Text → Call (NativeState W) NativeContainer
  unfolding with_cstring nested
  open_container name = with_cstring name (text "OpenContainer") (λ c_name.
      nested (text "OpenContainer")
        (λ raw n. record { application = self; raw = raw; exposed = record { value = n } })
        (Api.open_container lib self.raw c_name 0))

  unfoldable pub delete_container : Text → Call (NativeState W) (Unit {0})
  unfolding with_cstring finish completed
  delete_container name = with_cstring name (text "DeleteContainer") (λ c_name.
      finish (completed (text "DeleteContainer")) (Api.delete_container lib self.raw c_name))

  unfoldable pub create_container : Text → Call (NativeState W) NativeContainer
  unfolding with_cstring nested
  create_container name = with_cstring name (text "CreateContainer") (λ c_name.
      nested (text "CreateContainer")
        (λ raw n. record { application = self; raw = raw; exposed = record { value = n } })
        (Api.create_container lib self.raw c_name 0))
