-- ===== src/Native.antt =====
-- src/skf/types.rs and src/skf/api.rs: the vendor's library. What it exports is a parameter: each
-- of its functions is there or not, and takes the values that its pointers point to, with what its
-- out parameters hold before the call. It answers a code and what they hold afterwards, and changes
-- the state `W`. A length comes beside the bytes it is about, as in the C interface.
pub mod Api
pub mod Buffers
pub mod Guards
use liuzx_skf.Common.{Text, Bytes, ℕ, Bool, Option}

pub record Version : Type 0 where
  pub major : ℕ
  pub minor : ℕ

pub record DevInfo : Type 0 where
  pub version : Version
  pub manufacturer : Bytes
  pub issuer : Bytes
  pub label : Bytes
  pub serial_number : Bytes
  pub hw_version : Version
  pub firmware_version : Version
  pub alg_sym_cap : ℕ
  pub alg_asym_cap : ℕ
  pub alg_hash_cap : ℕ
  pub dev_auth_alg_id : ℕ
  pub total_space : ℕ
  pub free_space : ℕ
  pub max_ecc_buffer_size : ℕ
  pub max_buffer_size : ℕ
  pub reserved : Bytes

pub record EccPublicKeyBlob : Type 0 where
  pub bit_len : ℕ
  pub x_coordinate : Bytes
  pub y_coordinate : Bytes

pub record EccCipherBlob : Type 0 where
  pub x_coordinate : Bytes
  pub y_coordinate : Bytes
  pub hash : Bytes
  pub cipher_len : ℕ
  pub cipher : Bytes

pub record EccSignatureBlob : Type 0 where
  pub r : Bytes
  pub s : Bytes

pub record BlockCipherParam : Type 0 where
  pub iv : Bytes
  pub iv_len : ℕ
  pub padding_type : ℕ
  pub feed_bit_len : ℕ

pub record EnvelopedKeyBlob : Type 0 where
  pub version : ℕ
  pub symm_alg_id : ℕ
  pub bits : ℕ
  pub encrypted_pri_key : Bytes
  pub pub_key : EccPublicKeyBlob
  pub ecc_cipher_blob : EccCipherBlob

pub record RsaPublicKeyBlob : Type 0 where
  pub alg_id : ℕ
  pub bit_len : ℕ
  pub modulus : Bytes
  pub public_exponent : Bytes

abbrev pub sar_ok : ℕ
sar_ok = 0

-- A call into the library: its code and its out parameters.
abbrev pub Native : Type 0 → Type 0 → Type 0
Native W A = W → (ℕ × A) × W

-- The functions of the C interface, as the types `F_SKF_…` give them.
pub record Library (W : Type 0) : Type 0 where
  pub skf_wait_for_dev_event : Option (Bytes → ℕ → ℕ → Native W (Bytes × ℕ × ℕ))
  pub skf_cancel_wait_for_dev_event : Option (Native W (Unit {0}))
  pub skf_enum_dev : Option (Bool → Option Bytes → ℕ → Native W (Option Bytes × ℕ))
  pub skf_connect_dev : Option (Text → ℕ → Native W ℕ)
  pub skf_dis_connect_dev : Option (ℕ → Native W (Unit {0}))
  pub skf_gen_random : Option (ℕ → Bytes → ℕ → Native W Bytes)
  pub skf_enum_application : Option (ℕ → Option Bytes → ℕ → Native W (Option Bytes × ℕ))
  pub skf_open_application : Option (ℕ → Text → ℕ → Native W ℕ)
  pub skf_close_application : Option (ℕ → Native W (Unit {0}))
  pub skf_enum_container : Option (ℕ → Option Bytes → ℕ → Native W (Option Bytes × ℕ))
  pub skf_open_container : Option (ℕ → Text → ℕ → Native W ℕ)
  pub skf_close_container : Option (ℕ → Native W (Unit {0}))
  pub skf_export_certificate : Option (ℕ → Bool → Bytes → ℕ → Native W (Bytes × ℕ))
  pub skf_verify_pin : Option (ℕ → ℕ → Text → ℕ → Native W ℕ)
  pub skf_ecc_sign_data : Option (ℕ → Bytes → ℕ → EccSignatureBlob → Native W EccSignatureBlob)
  pub skf_get_container_type : Option (ℕ → ℕ → Native W ℕ)
  pub skf_rsa_sign_data : Option (ℕ → Bytes → ℕ → Bytes → ℕ → Native W (Bytes × ℕ))
  pub skf_digest_init : Option (ℕ → ℕ → Option EccPublicKeyBlob → Bytes → ℕ → ℕ → Native W ℕ)
  pub skf_digest : Option (ℕ → Bytes → ℕ → Bytes → ℕ → Native W (Bytes × ℕ))
  pub skf_create_container : Option (ℕ → Text → ℕ → Native W ℕ)
  pub skf_gen_ecc_key_pair : Option (ℕ → ℕ → EccPublicKeyBlob → Native W EccPublicKeyBlob)
  pub skf_gen_rsa_key_pair : Option (ℕ → ℕ → RsaPublicKeyBlob → Native W RsaPublicKeyBlob)
  pub skf_delete_container : Option (ℕ → Text → Native W (Unit {0}))
  pub skf_import_certificate : Option (ℕ → Bool → Bytes → ℕ → Native W (Unit {0}))
  pub skf_import_ecc_key_pair : Option (ℕ → EnvelopedKeyBlob → Native W (Unit {0}))
  pub skf_import_rsa_key_pair : Option (ℕ → ℕ → Bytes → ℕ → Bytes → ℕ → Native W (Unit {0}))
  pub skf_encrypt_data :
      Option (ℕ → ℕ → Bytes → ℕ → BlockCipherParam → Bytes → ℕ → Native W (Bytes × ℕ))
  pub skf_decrypt_data :
      Option (ℕ → ℕ → Bytes → ℕ → BlockCipherParam → Bytes → ℕ → Native W (Bytes × ℕ))
  pub skf_change_pin : Option (ℕ → ℕ → Text → ℕ → Text → Native W (Unit {0}))
  pub skf_unblock_pin : Option (ℕ → ℕ → Text → ℕ → Text → Native W (Unit {0}))
  pub skf_get_pin_info : Option (ℕ → ℕ → ℕ → ℕ → ℕ → Native W (ℕ × ℕ × ℕ))
  pub skf_create_application : Option (ℕ → Text → Native W (Unit {0}))
  pub skf_delete_application : Option (ℕ → Text → Native W (Unit {0}))
  pub skf_encrypt_init : Option (ℕ → ℕ → BlockCipherParam → ℕ → Native W ℕ)
  pub skf_encrypt_update : Option (ℕ → Bytes → ℕ → Bytes → ℕ → Native W (Bytes × ℕ))
  pub skf_encrypt_final : Option (ℕ → Native W (Unit {0}))
  pub skf_decrypt_init : Option (ℕ → ℕ → BlockCipherParam → ℕ → Native W ℕ)
  pub skf_decrypt_update : Option (ℕ → Bytes → ℕ → Bytes → ℕ → Native W (Bytes × ℕ))
  pub skf_decrypt_final : Option (ℕ → Native W (Unit {0}))
  pub skf_digest_update : Option (ℕ → Bytes → ℕ → Native W (Unit {0}))
  pub skf_digest_final : Option (ℕ → Bytes → ℕ → Native W (Bytes × ℕ))
  pub skf_rsa_verify : Option (ℕ → RsaPublicKeyBlob → Bytes → ℕ → Bytes → ℕ → Native W (Unit {0}))
  pub skf_export_public_key : Option (ℕ → ℕ → Bytes → ℕ → Native W (Bytes × ℕ))
  pub skf_rng_seed : Option (Bytes → ℕ → Native W (Unit {0}))
  pub skf_set_symm_key : Option (ℕ → ℕ → Bytes → ℕ → Native W (Unit {0}))
  pub skf_get_dev_info : Option (ℕ → DevInfo → Native W DevInfo)
  pub skf_get_dev_state : Option (Text → ℕ → Native W ℕ)
  pub skf_set_label : Option (ℕ → Text → Native W (Unit {0}))
  pub skf_ecc_verify :
      Option (ℕ → EccPublicKeyBlob → Bytes → ℕ → EccSignatureBlob → Native W (Unit {0}))
  pub skf_lock_dev : Option (ℕ → ℕ → Native W (Unit {0}))
  pub skf_unlock_dev : Option (ℕ → Native W (Unit {0}))
  pub skf_transmit : Option (ℕ → Bytes → ℕ → Bytes → ℕ → Native W (Bytes × ℕ))
  pub skf_close_hash : Option (ℕ → Native W (Unit {0}))
