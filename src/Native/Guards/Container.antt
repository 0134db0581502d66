-- ===== src/Native/Guards/Container.antt =====
-- src/provider/native.rs: the methods of `Arc<NativeContainer>`.
use liuzx_skf.Provider.{ProviderError, Call, from_native, EccPublicKey, RsaPublicKey}
use liuzx_skf.Native.{Library, sar_ok, EccPublicKeyBlob, EccSignatureBlob, RsaPublicKeyBlob}
use liuzx_skf.Native.Api
use liuzx_skf.Native.Api.Crypto
use liuzx_skf.Native.Buffers.{
  completed, truncated, block_cipher_param, sym_buf_len, cert_buf_len, rsa_sig_buf_len,
}
use liuzx_skf.Native.Guards.{NativeState, NativeContainer, finish, drop_raw}
use liuzx_skf.Common.{
  ◌==◌, if◌then◌else◌, Result, ok, err, length, replicate, Bytes, text_eq, text, ℕ, ◌%◌, ◌^◌, Bool,
  ◌++◌,
}

-- `out.extend_from_slice(&signature.r); out.extend_from_slice(&signature.s);`
unfoldable pub signature_bytes : ℕ × EccSignatureBlob → Result ProviderError Bytes
signature_bytes (ret, signature) =
    if ret == sar_ok
    then ok (signature.r ++ signature.s)
    else err (from_native ret (text "ECCSignData"))

unfoldable pub ecc_key : ℕ × EccPublicKeyBlob → Result ProviderError EccPublicKey
ecc_key (ret, blob) =
    if ret == sar_ok
    then ok (record { bit_len = blob.bit_len; x = blob.x_coordinate; y = blob.y_coordinate })
    else err (from_native ret (text "GenECCKeyPair"))

unfoldable pub rsa_key : ℕ × RsaPublicKeyBlob → Result ProviderError RsaPublicKey
rsa_key (ret, blob) =
    if ret == sar_ok
    then ok (record {
      alg_id = blob.alg_id;
      bit_len = blob.bit_len;
      modulus = blob.modulus;
      exponent = blob.public_exponent;
    })
    else err (from_native ret (text "GenRSAKeyPair"))

module _ {W : Type 0} (lib : Library W) (self : NativeContainer) where
  unfoldable pub drop_container : NativeState W → NativeState W
  unfolding drop_raw
  drop_container = drop_raw self.raw (Api.close_container lib self.raw)

  unfoldable pub container_type : Call (NativeState W) ℕ
  unfolding finish completed
  container_type =
      finish (completed (text "GetContainerType")) (Api.get_container_type lib self.raw 0)

  unfoldable pub export_certificate : Bool → Call (NativeState W) Bytes
  unfolding finish truncated
  export_certificate sign_flag =
      finish (truncated (text "ExportCertificate"))
        (Api.export_certificate lib self.raw sign_flag (replicate cert_buf_len 0) cert_buf_len)

  unfoldable pub import_certificate : Bool → Bytes → Call (NativeState W) (Unit {0})
  unfolding finish completed
  import_certificate sign_flag cert =
      finish (completed (text "ImportCertificate"))
        (Api.import_certificate lib self.raw sign_flag cert (length cert % 2 ^ 32))

  unfoldable pub sign_ecc : Bytes → Call (NativeState W) Bytes
  unfolding finish signature_bytes
  sign_ecc digest = finish signature_bytes (
      Crypto.ecc_sign_data lib self.raw digest (length digest % 2 ^ 32)
        (record { r = replicate 64 0; s = replicate 64 0 }))

  unfoldable pub gen_ecc_key_pair : ℕ → Call (NativeState W) EccPublicKey
  unfolding finish ecc_key
  gen_ecc_key_pair alg_id = finish ecc_key (
      Crypto.gen_ecc_key_pair lib self.raw alg_id
        (record { bit_len = 256; x_coordinate = replicate 64 0; y_coordinate = replicate 64 0 }))

  unfoldable pub gen_rsa_key_pair : ℕ → Call (NativeState W) RsaPublicKey
  unfolding finish rsa_key
  gen_rsa_key_pair bits = finish rsa_key (
      Crypto.gen_rsa_key_pair lib self.raw bits (record {
        alg_id = 0;
        bit_len = 0;
        modulus = replicate 256 0;
        public_exponent = replicate 4 0;
      }))

  unfoldable pub sign_rsa : Bytes → Call (NativeState W) Bytes
  unfolding finish truncated
  sign_rsa input = finish (truncated (text "RSASignData")) (
      Crypto.rsa_sign_data lib self.raw input (length input % 2 ^ 32) (replicate rsa_sig_buf_len 0)
        rsa_sig_buf_len)

  unfoldable pub set_symm_key : ℕ → Bytes → Call (NativeState W) (Unit {0})
  unfolding finish completed
  set_symm_key alg_id key =
      finish (completed (text "SetSymmKey"))
        (Crypto.set_symm_key lib self.raw alg_id key (length key % 2 ^ 32))

  unfoldable pub encrypt : ℕ → Bytes → ℕ → Bytes → Call (NativeState W) Bytes
  unfolding finish truncated
  encrypt alg_id iv padding input = finish (truncated (text "EncryptData")) (
      Crypto.encrypt_data lib self.raw alg_id input (length input % 2 ^ 32)
        (block_cipher_param iv padding) (replicate sym_buf_len 0) sym_buf_len)

  unfoldable pub decrypt : ℕ → Bytes → ℕ → Bytes → Call (NativeState W) Bytes
  unfolding finish truncated
  decrypt alg_id iv padding input = finish (truncated (text "DecryptData")) (
      Crypto.decrypt_data lib self.raw alg_id input (length input % 2 ^ 32)
        (block_cipher_param iv padding) (replicate sym_buf_len 0) sym_buf_len)
