-- ===== src/Native/Api/Crypto.antt =====
-- src/skf/api.rs: the functions that sign, encrypt, hash and make keys.
use liuzx_skf.Native.{
  Library, Native, EccPublicKeyBlob, EccSignatureBlob, BlockCipherParam, EnvelopedKeyBlob,
  RsaPublicKeyBlob,
}
use liuzx_skf.Common.{Bytes, text_eq, ℕ, Option}
use liuzx_skf.Native.Api.{get_func}

module _ {W : Type 0} (lib : Library W) where
  unfoldable pub ecc_sign_data : ℕ → Bytes → ℕ → EccSignatureBlob → Native W EccSignatureBlob
  unfolding get_func
  ecc_sign_data container_handle input input_len signature =
      get_func lib.skf_ecc_sign_data (λ f. f container_handle input input_len signature) signature

  unfoldable pub rsa_sign_data : ℕ → Bytes → ℕ → Bytes → ℕ → Native W (Bytes × ℕ)
  unfolding get_func
  rsa_sign_data container_handle input input_len signature sig_len =
      get_func lib.skf_rsa_sign_data (λ f. f container_handle input input_len signature sig_len)
        (signature, sig_len)

  unfoldable pub digest_init : ℕ → ℕ → Option EccPublicKeyBlob → Bytes → ℕ → ℕ → Native W ℕ
  unfolding get_func
  digest_init dev_handle alg_id pub_key id id_len hash_handle =
      get_func lib.skf_digest_init (λ f. f dev_handle alg_id pub_key id id_len hash_handle)
        hash_handle

  unfoldable pub digest : ℕ → Bytes → ℕ → Bytes → ℕ → Native W (Bytes × ℕ)
  unfolding get_func
  digest hash_handle input input_len hash_data hash_len =
      get_func lib.skf_digest (λ f. f hash_handle input input_len hash_data hash_len)
        (hash_data, hash_len)

  unfoldable pub gen_ecc_key_pair : ℕ → ℕ → EccPublicKeyBlob → Native W EccPublicKeyBlob
  unfolding get_func
  gen_ecc_key_pair container_handle alg_id blob =
      get_func lib.skf_gen_ecc_key_pair (λ f. f container_handle alg_id blob) blob

  unfoldable pub gen_rsa_key_pair : ℕ → ℕ → RsaPublicKeyBlob → Native W RsaPublicKeyBlob
  unfolding get_func
  gen_rsa_key_pair container_handle bits_len blob =
      get_func lib.skf_gen_rsa_key_pair (λ f. f container_handle bits_len blob) blob

  unfoldable pub import_ecc_key_pair : ℕ → EnvelopedKeyBlob → Native W (Unit {0})
  unfolding get_func
  import_ecc_key_pair container_handle enveloped_key_blob =
      get_func lib.skf_import_ecc_key_pair (λ f. f container_handle enveloped_key_blob) tt

  unfoldable pub import_rsa_key_pair : ℕ → ℕ → Bytes → ℕ → Bytes → ℕ → Native W (Unit {0})
  unfolding get_func
  import_rsa_key_pair container_handle sym_alg_id wrapped_key wrapped_key_len encrypted_data
        encrypted_data_len =
      get_func lib.skf_import_rsa_key_pair
        (λ f.
          f container_handle sym_alg_id wrapped_key wrapped_key_len encrypted_data
            encrypted_data_len)
        tt

  unfoldable pub encrypt_data :
      ℕ → ℕ → Bytes → ℕ → BlockCipherParam → Bytes → ℕ → Native W (Bytes × ℕ)
  unfolding get_func
  encrypt_data container_handle alg_id input input_len block_cipher_param encrypted_data
        encrypted_data_len =
      get_func lib.skf_encrypt_data
        (λ f.
          f container_handle alg_id input input_len block_cipher_param encrypted_data
            encrypted_data_len)
        (encrypted_data, encrypted_data_len)

  unfoldable pub decrypt_data :
      ℕ → ℕ → Bytes → ℕ → BlockCipherParam → Bytes → ℕ → Native W (Bytes × ℕ)
  unfolding get_func
  decrypt_data container_handle alg_id encrypted_data encrypted_data_len block_cipher_param input
        input_len =
      get_func lib.skf_decrypt_data
        (λ f.
          f container_handle alg_id encrypted_data encrypted_data_len block_cipher_param input
            input_len)
        (input, input_len)

  unfoldable pub encrypt_init : ℕ → ℕ → BlockCipherParam → ℕ → Native W ℕ
  unfolding get_func
  encrypt_init container_handle alg_id block_cipher_param cipher_handle =
      get_func lib.skf_encrypt_init
        (λ f. f container_handle alg_id block_cipher_param cipher_handle) cipher_handle

  unfoldable pub encrypt_update : ℕ → Bytes → ℕ → Bytes → ℕ → Native W (Bytes × ℕ)
  unfolding get_func
  encrypt_update cipher_handle input input_len encrypted_data encrypted_data_len =
      get_func lib.skf_encrypt_update
        (λ f. f cipher_handle input input_len encrypted_data encrypted_data_len)
        (encrypted_data, encrypted_data_len)

  unfoldable pub encrypt_final : ℕ → Native W (Unit {0})
  unfolding get_func
  encrypt_final cipher_handle = get_func lib.skf_encrypt_final (λ f. f cipher_handle) tt

  unfoldable pub decrypt_init : ℕ → ℕ → BlockCipherParam → ℕ → Native W ℕ
  unfolding get_func
  decrypt_init container_handle alg_id block_cipher_param cipher_handle =
      get_func lib.skf_decrypt_init
        (λ f. f container_handle alg_id block_cipher_param cipher_handle) cipher_handle

  unfoldable pub decrypt_update : ℕ → Bytes → ℕ → Bytes → ℕ → Native W (Bytes × ℕ)
  unfolding get_func
  decrypt_update cipher_handle encrypted_data encrypted_data_len input input_len =
      get_func lib.skf_decrypt_update
        (λ f. f cipher_handle encrypted_data encrypted_data_len input input_len) (input, input_len)

  unfoldable pub decrypt_final : ℕ → Native W (Unit {0})
  unfolding get_func
  decrypt_final cipher_handle = get_func lib.skf_decrypt_final (λ f. f cipher_handle) tt

  unfoldable pub digest_update : ℕ → Bytes → ℕ → Native W (Unit {0})
  unfolding get_func
  digest_update hash_handle input input_len =
      get_func lib.skf_digest_update (λ f. f hash_handle input input_len) tt

  unfoldable pub digest_final : ℕ → Bytes → ℕ → Native W (Bytes × ℕ)
  unfolding get_func
  digest_final hash_handle hash_data hash_len =
      get_func lib.skf_digest_final (λ f. f hash_handle hash_data hash_len) (hash_data, hash_len)

  unfoldable pub rsa_verify : ℕ → RsaPublicKeyBlob → Bytes → ℕ → Bytes → ℕ → Native W (Unit {0})
  unfolding get_func
  rsa_verify dev_handle rsa_pub_key_blob input input_len signature sig_len =
      get_func lib.skf_rsa_verify
        (λ f. f dev_handle rsa_pub_key_blob input input_len signature sig_len) tt

  unfoldable pub export_public_key : ℕ → ℕ → Bytes → ℕ → Native W (Bytes × ℕ)
  unfolding get_func
  export_public_key container_handle alg_id public_key public_key_len =
      get_func lib.skf_export_public_key (λ f. f container_handle alg_id public_key public_key_len)
        (public_key, public_key_len)

  unfoldable pub rng_seed : Bytes → ℕ → Native W (Unit {0})
  unfolding get_func
  rng_seed seed seed_len = get_func lib.skf_rng_seed (λ f. f seed seed_len) tt

  unfoldable pub set_symm_key : ℕ → ℕ → Bytes → ℕ → Native W (Unit {0})
  unfolding get_func
  set_symm_key container_handle alg_id sym_key sym_key_len =
      get_func lib.skf_set_symm_key (λ f. f container_handle alg_id sym_key sym_key_len) tt

  unfoldable pub ecc_verify :
      ℕ → EccPublicKeyBlob → Bytes → ℕ → EccSignatureBlob → Native W (Unit {0})
  unfolding get_func
  ecc_verify dev_handle ecc_pub_key input input_len signature =
      get_func lib.skf_ecc_verify (λ f. f dev_handle ecc_pub_key input input_len signature) tt

  unfoldable pub close_hash : ℕ → Native W (Unit {0})
  unfolding get_func
  close_hash hash_handle = get_func lib.skf_close_hash (λ f. f hash_handle) tt
