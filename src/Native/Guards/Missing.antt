-- ===== src/Native/Guards/Missing.antt =====
-- What the native provider answers where the vendor's library does not export a function.
use liuzx_skf.Provider.{Call, from_native, symbol_missing, EccPublicKey}
use liuzx_skf.Native.{Library}
use liuzx_skf.Native.Api
use liuzx_skf.Native.Api.Crypto
use liuzx_skf.Native.Buffers.{has_nul, cstring, completed, truncated, read_names}
use liuzx_skf.Native.Guards.{
  NativeState, NativeDevice, NativeApplication, NativeContainer, NativeDigest, vendor_call, finish,
  with_cstring, nested,
}
use liuzx_skf.Native.Guards.Device
use liuzx_skf.Native.Guards.Application
use liuzx_skf.Native.Guards.Container
use liuzx_skf.Native.Guards.Digest
use liuzx_skf.Native.Guards.Provider
use liuzx_skf.Common.{err, Text, Bytes, text_eq, text, ℕ, ◌≡◌, refl, Bool, false, none}
use liuzx_skf.Native.Api.{get_func}

-- The calls of the provider and of its guards, `verify_pin` apart, with their arguments. `state` is
-- that of a device's guard.
pub data GuardCall : Type 0 where
  enum_devices : Bool → GuardCall
  device_state open_device : Text → GuardCall
  wait_for_event : ℕ → GuardCall
  cancel_wait_for_event : GuardCall
  lock : NativeDevice → ℕ → GuardCall
  state unlock info : NativeDevice → GuardCall
  transmit : NativeDevice → Bytes → GuardCall
  random : NativeDevice → ℕ → GuardCall
  set_label open_application : NativeDevice → Text → GuardCall
  begin_digest : NativeDevice → ℕ → Bytes → GuardCall
  begin_digest_with_key : NativeDevice → ℕ → Bytes → EccPublicKey → GuardCall
  enum_containers : NativeApplication → GuardCall
  open_container delete_container create_container : NativeApplication → Text → GuardCall
  container_type : NativeContainer → GuardCall
  export_certificate : NativeContainer → Bool → GuardCall
  import_certificate : NativeContainer → Bool → Bytes → GuardCall
  sign_ecc sign_rsa : NativeContainer → Bytes → GuardCall
  gen_ecc_key_pair gen_rsa_key_pair : NativeContainer → ℕ → GuardCall
  set_symm_key : NativeContainer → ℕ → Bytes → GuardCall
  encrypt decrypt : NativeContainer → ℕ → Bytes → ℕ → Bytes → GuardCall
  update : NativeDigest → Bytes → GuardCall
  finalize : NativeDigest → GuardCall

-- The call fails so, and changes nothing.
abbrev pub Refused : {S A : Type 0} → Text → Call S A → S → Type 0
Refused context call s = call s ≡ (err (symbol_missing context), s)

module _ {W : Type 0} (lib : Library W) (utf8_lossy : Bytes → Text) where
  -- The function behind the call is not exported; a name without a zero byte reaches it.
  abbrev pub Absent : GuardCall → Type 0
  Absent (enum_devices b) = lib.skf_enum_dev ≡ none
  Absent (device_state name) = (lib.skf_get_dev_state ≡ none) × (has_nul name ≡ false)
  Absent (open_device name) = (lib.skf_connect_dev ≡ none) × (has_nul name ≡ false)
  Absent (wait_for_event n) = lib.skf_wait_for_dev_event ≡ none
  Absent cancel_wait_for_event = lib.skf_cancel_wait_for_dev_event ≡ none
  Absent (state d) = (lib.skf_get_dev_state ≡ none) × (has_nul d.name ≡ false)
  Absent (lock d n) = lib.skf_lock_dev ≡ none
  Absent (unlock d) = lib.skf_unlock_dev ≡ none
  Absent (info d) = lib.skf_get_dev_info ≡ none
  Absent (transmit d bs) = lib.skf_transmit ≡ none
  Absent (random d n) = lib.skf_gen_random ≡ none
  Absent (set_label d name) = (lib.skf_set_label ≡ none) × (has_nul name ≡ false)
  Absent (open_application d name) = (lib.skf_open_application ≡ none) × (has_nul name ≡ false)
  Absent (begin_digest d n bs) = lib.skf_digest_init ≡ none
  Absent (begin_digest_with_key d n bs key) = lib.skf_digest_init ≡ none
  Absent (enum_containers a) = lib.skf_enum_container ≡ none
  Absent (open_container a name) = (lib.skf_open_container ≡ none) × (has_nul name ≡ false)
  Absent (delete_container a name) = (lib.skf_delete_container ≡ none) × (has_nul name ≡ false)
  Absent (create_container a name) = (lib.skf_create_container ≡ none) × (has_nul name ≡ false)
  Absent (container_type c) = lib.skf_get_container_type ≡ none
  Absent (export_certificate c b) = lib.skf_export_certificate ≡ none
  Absent (import_certificate c b bs) = lib.skf_import_certificate ≡ none
  Absent (sign_ecc c bs) = lib.skf_ecc_sign_data ≡ none
  Absent (sign_rsa c bs) = lib.skf_rsa_sign_data ≡ none
  Absent (gen_ecc_key_pair c n) = lib.skf_gen_ecc_key_pair ≡ none
  Absent (gen_rsa_key_pair c n) = lib.skf_gen_rsa_key_pair ≡ none
  Absent (set_symm_key c n bs) = lib.skf_set_symm_key ≡ none
  Absent (encrypt c n iv p bs) = lib.skf_encrypt_data ≡ none
  Absent (decrypt c n iv p bs) = lib.skf_decrypt_data ≡ none
  Absent (update g bs) = lib.skf_digest_update ≡ none
  Absent (finalize g) = lib.skf_digest_final ≡ none

  abbrev pub Refusal : GuardCall → NativeState W → Type 0
  Refusal (enum_devices b) s = Refused (text "EnumDev") (Provider.enum_devices lib utf8_lossy b) s
  Refusal (device_state name) s = Refused (text "GetDevState") (Provider.device_state lib name) s
  Refusal (open_device name) s = Refused (text "ConnectDev") (Provider.open_device lib name) s
  Refusal (wait_for_event n) s =
      Refused (text "WaitForDevEvent") (Provider.wait_for_event lib utf8_lossy n) s
  Refusal cancel_wait_for_event s =
      Refused (text "CancelWaitForDevEvent") (Provider.cancel_wait_for_event lib) s
  Refusal (state d) s = Refused (text "GetDevState") (Device.state lib d) s
  Refusal (lock d n) s = Refused (text "LockDev") (Device.lock lib d n) s
  Refusal (unlock d) s = Refused (text "UnlockDev") (Device.unlock lib d) s
  Refusal (info d) s = Refused (text "GetDevInfo") (Device.info lib d utf8_lossy) s
  Refusal (transmit d bs) s = Refused (text "Transmit") (Device.transmit lib d bs) s
  Refusal (random d n) s = Refused (text "GenRandom") (Device.random lib d n) s
  Refusal (set_label d name) s = Refused (text "SetLabel") (Device.set_label lib d name) s
  Refusal (open_application d name) s =
      Refused (text "OpenApplication") (Device.open_application lib d name) s
  Refusal (begin_digest d n bs) s = Refused (text "DigestInit") (Device.begin_digest lib d n bs) s
  Refusal (begin_digest_with_key d n bs key) s =
      Refused (text "DigestInit") (Device.begin_digest_with_key lib d n bs key) s
  Refusal (enum_containers a) s =
      Refused (text "EnumContainer") (Application.enum_containers lib a utf8_lossy) s
  Refusal (open_container a name) s =
      Refused (text "OpenContainer") (Application.open_container lib a name) s
  Refusal (delete_container a name) s =
      Refused (text "DeleteContainer") (Application.delete_container lib a name) s
  Refusal (create_container a name) s =
      Refused (text "CreateContainer") (Application.create_container lib a name) s
  Refusal (container_type c) s =
      Refused (text "GetContainerType") (Container.container_type lib c) s
  Refusal (export_certificate c b) s =
      Refused (text "ExportCertificate") (Container.export_certificate lib c b) s
  Refusal (import_certificate c b bs) s =
      Refused (text "ImportCertificate") (Container.import_certificate lib c b bs) s
  Refusal (sign_ecc c bs) s = Refused (text "ECCSignData") (Container.sign_ecc lib c bs) s
  Refusal (sign_rsa c bs) s = Refused (text "RSASignData") (Container.sign_rsa lib c bs) s
  Refusal (gen_ecc_key_pair c n) s =
      Refused (text "GenECCKeyPair") (Container.gen_ecc_key_pair lib c n) s
  Refusal (gen_rsa_key_pair c n) s =
      Refused (text "GenRSAKeyPair") (Container.gen_rsa_key_pair lib c n) s
  Refusal (set_symm_key c n bs) s =
      Refused (text "SetSymmKey") (Container.set_symm_key lib c n bs) s
  Refusal (encrypt c n iv p bs) s =
      Refused (text "EncryptData") (Container.encrypt lib c n iv p bs) s
  Refusal (decrypt c n iv p bs) s =
      Refused (text "DecryptData") (Container.decrypt lib c n iv p bs) s
  Refusal (update g bs) s = Refused (text "DigestUpdate") (Digest.update lib g bs) s
  Refusal (finalize g) s = Refused (text "DigestFinal") (Digest.finalize lib g) s

  -- Where the library does not export the function that a call needs, the call fails with
  -- `SymbolMissing` and the name of the operation, and changes nothing, neither the vendor's state
  -- nor the counters. This holds of every call of the provider and of its guards but `verify_pin`,
  -- for names without a zero byte.
  pub missing_lem : (c : GuardCall) (s : NativeState W) → Absent c → Refusal c s
  unfolding Application.create_container Application.delete_container Application.enum_containers
      Application.open_container Container.container_type Container.decrypt Container.encrypt
      Container.export_certificate Container.gen_ecc_key_pair Container.gen_rsa_key_pair
      Container.import_certificate Container.set_symm_key Container.sign_ecc Container.sign_rsa
      Device.begin_digest Device.begin_digest_with_key Device.info Device.lock
      Device.open_application Device.random Device.set_label Device.state Device.transmit
      Device.unlock Digest.finalize Digest.update Provider.cancel_wait_for_event
      Provider.device_state Provider.enum_devices Provider.open_device Provider.wait_for_event
      finish vendor_call with_cstring nested cstring get_func completed truncated read_names
      from_native Device.device_info Container.signature_bytes Container.ecc_key Container.rsa_key
      Provider.event_of Device.begin_digest_impl Api.enum_dev Api.get_dev_state Api.connect_dev
      Api.wait_for_dev_event Api.cancel_wait_for_dev_event Api.lock_dev Api.unlock_dev
      Api.get_dev_info Api.transmit Api.gen_random Api.set_label Api.open_application
      Api.enum_container Api.open_container Api.delete_container Api.create_container
      Api.get_container_type Api.export_certificate Api.import_certificate Crypto.digest_init
      Crypto.ecc_sign_data Crypto.rsa_sign_data Crypto.gen_ecc_key_pair Crypto.gen_rsa_key_pair
      Crypto.set_symm_key Crypto.encrypt_data Crypto.decrypt_data Crypto.digest_update
      Crypto.digest_final
  missing_lem (enum_devices b) s h = rw h refl
  missing_lem (device_state name) s h = rw (with_cstring, cstring, h.1, h.0) refl
  missing_lem (open_device name) s h = rw (with_cstring, cstring, h.1, h.0) refl
  missing_lem (wait_for_event n) s h = rw h refl
  missing_lem cancel_wait_for_event s h = rw h refl
  missing_lem (state d) s h = rw (with_cstring, cstring, h.1, h.0) refl
  missing_lem (lock d n) s h = rw h refl
  missing_lem (unlock d) s h = rw h refl
  missing_lem (info d) s h = rw h refl
  missing_lem (transmit d bs) s h = rw h refl
  missing_lem (random d n) s h = rw h refl
  missing_lem (set_label d name) s h = rw (with_cstring, cstring, h.1, h.0) refl
  missing_lem (open_application d name) s h = rw (with_cstring, cstring, h.1, h.0) refl
  missing_lem (begin_digest d n bs) s h = rw h refl
  missing_lem (begin_digest_with_key d n bs key) s h = rw h refl
  missing_lem (enum_containers a) s h = rw h refl
  missing_lem (open_container a name) s h = rw (with_cstring, cstring, h.1, h.0) refl
  missing_lem (delete_container a name) s h = rw (with_cstring, cstring, h.1, h.0) refl
  missing_lem (create_container a name) s h = rw (with_cstring, cstring, h.1, h.0) refl
  missing_lem (container_type c) s h = rw h refl
  missing_lem (export_certificate c b) s h = rw h refl
  missing_lem (import_certificate c b bs) s h = rw h refl
  missing_lem (sign_ecc c bs) s h = rw h refl
  missing_lem (sign_rsa c bs) s h = rw h refl
  missing_lem (gen_ecc_key_pair c n) s h = rw h refl
  missing_lem (gen_rsa_key_pair c n) s h = rw h refl
  missing_lem (set_symm_key c n bs) s h = rw h refl
  missing_lem (encrypt c n iv p bs) s h = rw h refl
  missing_lem (decrypt c n iv p bs) s h = rw h refl
  missing_lem (update g bs) s h = rw h refl
  missing_lem (finalize g) s h = rw h refl
