-- ===== src/Provider/Fake/Guards.antt =====
-- The guards of src/provider/fake.rs as a provider.
use liuzx_skf.Provider.{Provider, Operation}
use liuzx_skf.Provider.Fake.{
  FakeInner, answer, began, begin, open_device, open_application, new_container, begin_digest,
  verify_pin, wait_for_event, encrypt, decrypt, log,
}
use liuzx_skf.Common.{◌==◌, if◌then◌else◌, replicate, Text, text_eq, text, ℕ, List, [], ◌∷◌}

abbrev name_of : ℕ → List (ℕ × Text) → Text
name_of h [] = []
name_of h ((x, name) ∷ names) = if x == h then name else name_of h names

-- The provider. The names that a call does not read are those of the source that begin with `_`.
unfoldable pub provider : Text → Provider FakeInner
unfolding began begin open_device open_application new_container begin_digest verify_pin
    wait_for_event encrypt decrypt log
provider alias = record {
  alias = alias;
  enum_devices = λ present_only. began Operation.enum_devices (λ w. (w.devices, w));
  device_state = λ name. began Operation.device_state (λ w. (w.device_state, w));
  wait_for_event = wait_for_event;
  cancel_wait_for_event = begin Operation.cancel_wait_for_event;
  open_device = open_device;
  close_device = λ d w. log Operation.close_device w;
  state = λ d. began Operation.device_state (λ w. (w.device_state, w));
  lock = λ d timeout. begin Operation.lock_device;
  unlock = λ d. begin Operation.unlock_device;
  transmit = λ d command. began Operation.transmit (answer command);
  random = λ d len. began Operation.random (answer (replicate len 0x5A));
  info = λ d. began Operation.device_info (λ w. (
    record {
      manufacturer = text "Fake Manufacturer";
      issuer = text "Fake Issuer";
      label = name_of d.value w.names;
      serial_number = text "FAKE0001";
      total_space = 65536;
      free_space = 32768;
      max_ecc_buffer_size = 256;
      max_buffer_size = 4096;
    },
    w,
  ));
  set_label = λ d label. begin Operation.set_label;
  open_application = open_application;
  begin_digest = begin_digest;
  begin_digest_with_key = λ d alg_id id key. begin_digest d alg_id id;
  close_application = λ a w. log Operation.close_application w;
  enum_containers = λ a. began Operation.enum_containers (λ w. (w.containers, w));
  verify_pin = verify_pin;
  open_container = new_container Operation.open_container;
  delete_container = λ a name. begin Operation.delete_container;
  create_container = new_container Operation.create_container;
  close_container = λ c w. log Operation.close_container w;
  container_type = λ c. began Operation.container_type (answer 1);
  export_certificate =
      λ c sign_flag. began Operation.export_certificate (answer (0x30 ∷ 0x00 ∷ []));
  import_certificate = λ c sign_flag cert. begin Operation.import_certificate;
  sign_ecc = λ c digest. began Operation.sign_ecc (answer (replicate 128 0x11));
  sign_rsa = λ c bytes. began Operation.sign_rsa (answer (replicate 256 0x22));
  gen_ecc_key_pair = λ c alg_id.
      began Operation.gen_ecc_key_pair
        (answer (record { bit_len = 256; x = replicate 64 0x11; y = replicate 64 0x22 }));
  gen_rsa_key_pair = λ c bits. began Operation.gen_rsa_key_pair (
      answer (record {
        alg_id = 0;
        bit_len = bits;
        modulus = replicate 256 0x33;
        exponent = 0x01 ∷ 0x00 ∷ 0x01 ∷ 0x00 ∷ [];
      }));
  set_symm_key = λ c alg_id key. begin Operation.set_symm_key;
  encrypt = encrypt;
  decrypt = decrypt;
  close_digest = λ h w. log Operation.close_digest w;
  update = λ h bytes. begin Operation.digest_update;
  finalize = λ h. began Operation.digest_final (λ w. (w.digest_output, w));
}
