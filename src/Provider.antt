-- ===== src/Provider.antt =====
-- src/provider/mod.rs: the interface to a vendor's library. A provider is a record of operations
-- over a state `W`, which holds all that the library, the token and the process may change; a guard
-- is the handle that it owns, and its `Drop` is the `close` operation of its kind.
pub mod Fake
use liuzx_skf.Common.{
  ◌==◌, if◌then◌else◌, Result, Text, Bytes, text_eq, text, decimal, hex8, ℕ, Bool, Option, none,
  some, List, ◌++◌,
}
use liuzx_skf.Session.Handles.{ResourceKind, device, application, container, digest}

pub record DeviceHandle : Type 0 where
  pub value : ℕ

pub record AppHandle : Type 0 where
  pub value : ℕ

pub record ContainerHandle : Type 0 where
  pub value : ℕ

pub record DigestHandle : Type 0 where
  pub value : ℕ

-- The guards that a session's handle table holds.
abbrev pub GuardOf : ResourceKind → Type 0
GuardOf device = DeviceHandle
GuardOf application = AppHandle
GuardOf container = ContainerHandle
GuardOf digest = DigestHandle

pub record EccPublicKey : Type 0 where
  pub bit_len : ℕ
  pub x : Bytes
  pub y : Bytes

pub record RsaPublicKey : Type 0 where
  pub alg_id : ℕ
  pub bit_len : ℕ
  pub modulus : Bytes
  pub exponent : Bytes

pub data Operation : Type 0 where
  enum_devices device_state wait_for_event cancel_wait_for_event open_device close_device :
      Operation
  lock_device unlock_device transmit random device_info set_label : Operation
  enum_applications open_application close_application verify_pin : Operation
  enum_containers open_container close_container create_container delete_container : Operation
  container_type export_certificate import_certificate : Operation
  sign_ecc sign_rsa ecc_verify rsa_verify : Operation
  digest_begin digest_update digest_final close_digest : Operation
  gen_ecc_key_pair gen_rsa_key_pair import_ecc_key_pair import_rsa_key_pair : Operation
  set_symm_key encrypt_data decrypt_data : Operation

-- A `Duration` is a number of nanoseconds.
pub data SkfError : Type 0 where
  pin_incorrect pin_locked container_missing symbol_unavailable device_removed : SkfError
  blocking : ℕ → SkfError
  custom : ℕ → SkfError

pub data ProviderError : Type 0 where
  native : ℕ → Text → ProviderError
  symbol_missing : Text → ProviderError
  library_load_failed : Text → Text → Text → ProviderError
  provider_not_configured : Text → Text → ProviderError
  injected : SkfError → ProviderError
  invalid_argument : Text → ProviderError

-- src/skf/types.rs: SAR_COULDNOTGETFUNCADDR
abbrev pub sar_couldnotgetfuncaddr : ℕ
sar_couldnotgetfuncaddr = 0x0A000005

-- `ProviderError::from_native`
unfoldable pub from_native : ℕ → Text → ProviderError
from_native code context =
    if code == sar_couldnotgetfuncaddr then symbol_missing context else native code context

-- `ProviderError::hex`, and `native_code` of src/domain/mod.rs, which is the same function.
unfoldable pub native_code : ProviderError → Option ℕ
native_code (native code context) = some code
native_code (injected (custom code)) = some code
native_code _ = none

pub record PinOutcome : Type 0 where
  pub success : Bool
  pub retry_count : ℕ
  pub code : ℕ

pub record DeviceInfo : Type 0 where
  pub manufacturer : Text
  pub issuer : Text
  pub label : Text
  pub serial_number : Text
  pub total_space : ℕ
  pub free_space : ℕ
  pub max_ecc_buffer_size : ℕ
  pub max_buffer_size : ℕ

-- A call that may fail and changes the state.
abbrev pub Call : Type 0 → Type 0 → Type 0
Call W A = W → Result ProviderError A × W

-- `SkfProvider` with the methods of `DeviceGuard`, `ApplicationGuard`, `ContainerGuard` and
-- `DigestGuard`, each on the handle of its guard.
pub record Provider (W : Type 0) : Type 0 where
  pub alias : Text
  pub enum_devices : Bool → Call W (List Text)
  pub device_state : Text → Call W ℕ
  pub wait_for_event : ℕ → Call W (Text × ℕ)
  pub cancel_wait_for_event : Call W (Unit {0})
  pub open_device : Text → Call W DeviceHandle
  pub close_device : DeviceHandle → W → W
  pub state : DeviceHandle → Call W ℕ
  pub lock : DeviceHandle → ℕ → Call W (Unit {0})
  pub unlock : DeviceHandle → Call W (Unit {0})
  pub transmit : DeviceHandle → Bytes → Call W Bytes
  pub random : DeviceHandle → ℕ → Call W Bytes
  pub info : DeviceHandle → Call W DeviceInfo
  pub set_label : DeviceHandle → Text → Call W (Unit {0})
  pub open_application : DeviceHandle → Text → Call W AppHandle
  pub begin_digest : DeviceHandle → ℕ → Bytes → Call W DigestHandle
  pub begin_digest_with_key : DeviceHandle → ℕ → Bytes → EccPublicKey → Call W DigestHandle
  pub close_application : AppHandle → W → W
  pub enum_containers : AppHandle → Call W (List Text)
  pub verify_pin : AppHandle → Text → Call W PinOutcome
  pub open_container : AppHandle → Text → Call W ContainerHandle
  pub delete_container : AppHandle → Text → Call W (Unit {0})
  pub create_container : AppHandle → Text → Call W ContainerHandle
  pub close_container : ContainerHandle → W → W
  pub container_type : ContainerHandle → Call W ℕ
  pub export_certificate : ContainerHandle → Bool → Call W Bytes
  pub import_certificate : ContainerHandle → Bool → Bytes → Call W (Unit {0})
  pub sign_ecc : ContainerHandle → Bytes → Call W Bytes
  pub sign_rsa : ContainerHandle → Bytes → Call W Bytes
  pub gen_ecc_key_pair : ContainerHandle → ℕ → Call W EccPublicKey
  pub gen_rsa_key_pair : ContainerHandle → ℕ → Call W RsaPublicKey
  pub set_symm_key : ContainerHandle → ℕ → Bytes → Call W (Unit {0})
  pub encrypt : ContainerHandle → ℕ → Bytes → ℕ → Bytes → Call W Bytes
  pub decrypt : ContainerHandle → ℕ → Bytes → ℕ → Bytes → Call W Bytes
  pub close_digest : DigestHandle → W → W
  pub update : DigestHandle → Bytes → Call W (Unit {0})
  pub finalize : DigestHandle → Call W Bytes

-- `SkfError` as `{:?}` prints it; the standard library prints the duration.
debug_error : (ℕ → Text) → SkfError → Text
debug_error debug_duration pin_incorrect = text "PinIncorrect"
debug_error debug_duration pin_locked = text "PinLocked"
debug_error debug_duration container_missing = text "ContainerMissing"
debug_error debug_duration symbol_unavailable = text "SymbolUnavailable"
debug_error debug_duration device_removed = text "DeviceRemoved"
debug_error debug_duration (blocking d) = text "Blocking(" ++ debug_duration d ++ text ")"
debug_error debug_duration (custom code) = text "Custom(" ++ decimal code ++ text ")"

-- `impl Display for ProviderError`
unfoldable pub display : (ℕ → Text) → ProviderError → Text
unfolding debug_error
display debug_duration (native code context) = context ++ text " failed: 0x" ++ hex8 code
display debug_duration (symbol_missing name) =
    text "symbol '" ++ name ++ text "' is not available in the loaded library"
display debug_duration (library_load_failed path arch detail) =
    text "Failed to load library '"
    ++ path
    ++ text "' (process architecture: "
    ++ arch
    ++ text "): "
    ++ detail
display debug_duration (provider_not_configured alias os) =
    text "Provider '" ++ alias ++ text "' not configured for OS '" ++ os ++ text "'"
display debug_duration (injected e) = text "injected failure: " ++ debug_error debug_duration e
display debug_duration (invalid_argument context) = text "invalid argument in " ++ context
