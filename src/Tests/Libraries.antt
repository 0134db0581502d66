-- ===== src/Tests/Libraries.antt =====
-- Vendor's libraries as parameters of src/main.rs: one that exports nothing, and one that lists a
-- device, an application, a container and its certificates.
use liuzx_skf.Common.{length, Text, Bytes, text_eq, text, ℕ, ◌+◌, Option, none, some, [], ◌∷◌, ◌++◌}
use liuzx_skf.Native.{Library}

-- A library that exports nothing.
abbrev pub empty_library : {W : Type 0} → Library W
empty_library = record {
  skf_wait_for_dev_event = none;
  skf_cancel_wait_for_dev_event = none;
  skf_enum_dev = none;
  skf_connect_dev = none;
  skf_dis_connect_dev = none;
  skf_gen_random = none;
  skf_enum_application = none;
  skf_open_application = none;
  skf_close_application = none;
  skf_enum_container = none;
  skf_open_container = none;
  skf_close_container = none;
  skf_export_certificate = none;
  skf_verify_pin = none;
  skf_ecc_sign_data = none;
  skf_get_container_type = none;
  skf_rsa_sign_data = none;
  skf_digest_init = none;
  skf_digest = none;
  skf_create_container = none;
  skf_gen_ecc_key_pair = none;
  skf_gen_rsa_key_pair = none;
  skf_delete_container = none;
  skf_import_certificate = none;
  skf_import_ecc_key_pair = none;
  skf_import_rsa_key_pair = none;
  skf_encrypt_data = none;
  skf_decrypt_data = none;
  skf_change_pin = none;
  skf_unblock_pin = none;
  skf_get_pin_info = none;
  skf_create_application = none;
  skf_delete_application = none;
  skf_encrypt_init = none;
  skf_encrypt_update = none;
  skf_encrypt_final = none;
  skf_decrypt_init = none;
  skf_decrypt_update = none;
  skf_decrypt_final = none;
  skf_digest_update = none;
  skf_digest_final = none;
  skf_rsa_verify = none;
  skf_export_public_key = none;
  skf_rng_seed = none;
  skf_set_symm_key = none;
  skf_get_dev_info = none;
  skf_get_dev_state = none;
  skf_set_label = none;
  skf_ecc_verify = none;
  skf_lock_dev = none;
  skf_unlock_dev = none;
  skf_transmit = none;
  skf_close_hash = none;
}

abbrev listing : {W : Type 0} → Text → Option Bytes → ℕ → W → (ℕ × (Option Bytes × ℕ)) × W
listing name none size w = ((0, (none, length name + 1)), w)
listing name (some buf) size w = ((0, (some (name ++ 0 ∷ []), length name + 1)), w)

abbrev certificate_of : {W : Type 0} → Bytes → ℕ → W → (ℕ × (Bytes × ℕ)) × W
certificate_of [] size w = ((0, ([], 1)), w)
certificate_of (b ∷ buf) size w = ((0, (5 ∷ [], 1)), w)

abbrev pub vendor_library : {W : Type 0} → Library W
vendor_library = record empty_library {
  skf_enum_dev = some (λ present names size. listing (text "dev") names size);
  skf_connect_dev = some (λ name handle w. ((0, 7), w));
  skf_dis_connect_dev = some (λ handle w. ((0, tt), w));
  skf_enum_application = some (λ handle names size. listing (text "app") names size);
  skf_open_application = some (λ handle name raw w. ((0, 8), w));
  skf_close_application = some (λ handle w. ((0, tt), w));
  skf_enum_container = some (λ handle names size. listing (text "cont") names size);
  skf_open_container = some (λ handle name raw w. ((0, 9), w));
  skf_close_container = some (λ handle w. ((0, tt), w));
  skf_export_certificate = some (λ handle sign cert size. certificate_of cert size);
  skf_import_rsa_key_pair = some (λ handle alg wrapped m encrypted n w. ((0, tt), w));
}
