-- ===== src/Native/Guards/Device.antt =====
-- src/provider/native.rs: the methods of `Arc<NativeDevice>`.
use liuzx_skf.Provider.{ProviderError, Call, from_native, DeviceInfo, EccPublicKey}
use liuzx_skf.Native.{Library, sar_ok, DevInfo, EccPublicKeyBlob}
use liuzx_skf.Native.Api
use liuzx_skf.Native.Api.Crypto
use liuzx_skf.Native.Buffers.{fixed_cstr, completed, truncated, ecc_blob, sym_buf_len}
use liuzx_skf.Native.Guards.{
  NativeState, NativeDevice, NativeApplication, NativeDigest, finish, with_cstring, nested,
  drop_raw,
}
use liuzx_skf.Common.{
  ◌==◌, if◌then◌else◌, Result, ok, err, length, replicate, Text, Bytes, text_eq, text, ℕ, ◌/◌, ◌%◌,
  ◌^◌, Option, none, some,
}

-- `DEVINFO` of zeros
abbrev pub zeroed_info : DevInfo
zeroed_info = record {
  version = record { major = 0; minor = 0 };
  manufacturer = replicate 64 0;
  issuer = replicate 64 0;
  label = replicate 32 0;
  serial_number = replicate 32 0;
  hw_version = record { major = 0; minor = 0 };
  firmware_version = record { major = 0; minor = 0 };
  alg_sym_cap = 0;
  alg_asym_cap = 0;
  alg_hash_cap = 0;
  dev_auth_alg_id = 0;
  total_space = 0;
  free_space = 0;
  max_ecc_buffer_size = 0;
  max_buffer_size = 0;
  reserved = replicate 64 0;
}

module _ {W : Type 0} (lib : Library W) (self : NativeDevice) where
  unfoldable pub drop_device : NativeState W → NativeState W
  unfolding drop_raw
  drop_device = drop_raw self.raw (Api.dis_connect_dev lib self.raw)

  unfoldable pub state : Call (NativeState W) ℕ
  unfolding with_cstring finish completed
  state =
      with_cstring self.name (text "GetDevState")
        (λ c_name. finish (completed (text "GetDevState")) (Api.get_dev_state lib c_name 0))

  -- A `Duration` in nanoseconds, as milliseconds in a `ULONG`.
  unfoldable pub lock : ℕ → Call (NativeState W) (Unit {0})
  unfolding finish completed
  lock timeout =
      finish (completed (text "LockDev")) (Api.lock_dev lib self.raw (timeout / 1000000 % 2 ^ 32))

  unfoldable pub unlock : Call (NativeState W) (Unit {0})
  unfolding finish completed
  unlock = finish (completed (text "UnlockDev")) (Api.unlock_dev lib self.raw)

  unfoldable pub transmit : Bytes → Call (NativeState W) Bytes
  unfolding finish truncated
  transmit command = finish (truncated (text "Transmit")) (
      Api.transmit lib self.raw command (length command % 2 ^ 32) (replicate sym_buf_len 0)
        sym_buf_len)

  unfoldable pub random : ℕ → Call (NativeState W) Bytes
  unfolding finish completed
  random len =
      finish (completed (text "GenRandom"))
        (Api.gen_random lib self.raw (replicate len 0) (len % 2 ^ 32))

  -- What `info` makes of the structure that the library filled.
  unfoldable pub device_info : (Bytes → Text) → ℕ × DevInfo → Result ProviderError DeviceInfo
  unfolding fixed_cstr
  device_info utf8_lossy (ret, raw_info) =
      if ret == sar_ok
      then ok (record {
        manufacturer = fixed_cstr utf8_lossy raw_info.manufacturer;
        issuer = fixed_cstr utf8_lossy raw_info.issuer;
        label = fixed_cstr utf8_lossy raw_info.label;
        serial_number = fixed_cstr utf8_lossy raw_info.serial_number;
        total_space = raw_info.total_space;
        free_space = raw_info.free_space;
        max_ecc_buffer_size = raw_info.max_ecc_buffer_size;
        max_buffer_size = raw_info.max_buffer_size;
      })
      else err (from_native ret (text "GetDevInfo"))

  unfoldable pub info : (Bytes → Text) → Call (NativeState W) DeviceInfo
  unfolding finish device_info
  info utf8_lossy = finish (device_info utf8_lossy) (Api.get_dev_info lib self.raw zeroed_info)

  unfoldable pub set_label : Text → Call (NativeState W) (Unit {0})
  unfolding with_cstring finish completed
  set_label label =
      with_cstring label (text "SetLabel")
        (λ c_label. finish (completed (text "SetLabel")) (Api.set_label lib self.raw c_label))

  unfoldable pub begin_digest_impl :
      ℕ → Bytes → Option EccPublicKeyBlob → Call (NativeState W) NativeDigest
  unfolding nested
  begin_digest_impl alg_id id public_key =
      nested (text "DigestInit")
        (λ raw n. record { device = self; raw = raw; exposed = record { value = n } })
        (Crypto.digest_init lib self.raw alg_id public_key id (length id % 2 ^ 32) 0)

  unfoldable pub begin_digest : ℕ → Bytes → Call (NativeState W) NativeDigest
  unfolding begin_digest_impl
  begin_digest alg_id id = begin_digest_impl alg_id id none

  unfoldable pub begin_digest_with_key :
      ℕ → Bytes → EccPublicKey → Call (NativeState W) NativeDigest
  unfolding begin_digest_impl
  begin_digest_with_key alg_id id public_key =
      begin_digest_impl alg_id id (some (ecc_blob public_key))

  unfoldable pub open_application : Text → Call (NativeState W) NativeApplication
  unfolding with_cstring nested
  open_application name = with_cstring name (text "OpenApplication") (λ c_name.
      nested (text "OpenApplication")
        (λ raw n. record { device = self; raw = raw; exposed = record { value = n } })
        (Api.open_application lib self.raw c_name 0))
