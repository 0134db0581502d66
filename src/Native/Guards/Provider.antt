-- ===== src/Native/Guards/Provider.antt =====
-- src/provider/native.rs: `NativeSkfProvider`.
use liuzx_skf.Provider.{ProviderError, Call, from_native}
use liuzx_skf.Native.{Library, sar_ok}
use liuzx_skf.Native.Api
use liuzx_skf.Native.Buffers.{completed, read_names, dev_name_buf_len}
use liuzx_skf.Native.Guards.{NativeState, NativeDevice, vendor_call, finish, with_cstring}
use liuzx_skf.Common.{
  ◌==◌, if◌then◌else◌, Result, ok, err, take, replicate, Text, Bytes, text_eq, text, ℕ, ◌+◌, ◌%◌,
  ◌^◌, Bool, List, [], ◌∷◌,
}

-- `String::from_utf8_lossy(…).trim_end_matches(char::from(0))`
unfoldable pub trim_end_nul : Text → Text
trim_end_nul [] = []
trim_end_nul (c ∷ s) = keep (trim_end_nul s)
  where
    keep : Text → Text
    keep [] = if c == 0 then [] else c ∷ []
    keep (d ∷ rest) = c ∷ d ∷ rest

unfoldable pub event_of : (Bytes → Text) → ℕ × (Bytes × ℕ × ℕ) → Result ProviderError (Text × ℕ)
unfolding trim_end_nul
event_of utf8_lossy (ret, (buf, name_len, event)) =
    if ret == sar_ok
    then ok (trim_end_nul (utf8_lossy (take name_len buf)), event)
    else err (from_native ret (text "WaitForDevEvent"))

module _ {W : Type 0} (lib : Library W) where
  unfoldable pub enum_devices : (Bytes → Text) → Bool → Call (NativeState W) (List Text)
  unfolding read_names
  enum_devices utf8_lossy present_only s =
      let (r, w) =
        read_names utf8_lossy (text "EnumDev") (Api.enum_dev lib present_only) s.vendor in
      (r, record s { vendor = w })

  unfoldable pub device_state : Text → Call (NativeState W) ℕ
  unfolding with_cstring finish completed
  device_state name =
      with_cstring name (text "GetDevState")
        (λ c_name. finish (completed (text "GetDevState")) (Api.get_dev_state lib c_name 0))

  unfoldable pub wait_for_event : (Bytes → Text) → ℕ → Call (NativeState W) (Text × ℕ)
  unfolding finish event_of
  wait_for_event utf8_lossy buf_len =
      let len = if buf_len == 0 then dev_name_buf_len else buf_len in
      finish (event_of utf8_lossy) (Api.wait_for_dev_event lib (replicate len 0) (len % 2 ^ 32) 0)

  unfoldable pub cancel_wait_for_event : Call (NativeState W) (Unit {0})
  unfolding finish completed
  cancel_wait_for_event =
      finish (completed (text "CancelWaitForDevEvent")) (Api.cancel_wait_for_dev_event lib)

  -- The device takes the provider's own counter.
  unfoldable pub open_device : Text → Call (NativeState W) NativeDevice
  unfolding with_cstring vendor_call
  open_device name = with_cstring name (text "ConnectDev") (λ c_name s.
      let ((ret, raw), s') = vendor_call (Api.connect_dev lib c_name 0) s in
      if ret == sar_ok
      then (
        ok (record { raw = raw; name = name; exposed = record { value = s'.next_handle } }),
        record s' { next_handle = (s'.next_handle + 1) % 2 ^ 64 },
      )
      else (err (from_native ret (text "ConnectDev")), s'))
