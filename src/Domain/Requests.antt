-- ===== src/Domain/Requests.antt =====
-- src/domain/crypto.rs: `CreatePKCS10`.
use liuzx_skf.Protocol.{num, str, obj, field, end, respond_ok, Language}
use liuzx_skf.Protocol.Params.{Params, required_str, optional_str, optional_u64}
use liuzx_skf.Provider.{Provider, ProviderError, Operation, EccPublicKey}
use liuzx_skf.Provider.{DeviceHandle, AppHandle, ContainerHandle, DigestHandle}
use liuzx_skf.Exec.{
  Handler, Step, ◌>>=◌, ◌>>◌, respond, or_return, or_panic, invoke, or_fail, acquire, observe,
  called, device_resource, app_resource, container_resource, digest_resource,
}
use liuzx_skf.Domain.{
  Context, load_failed, failed, provider_failure, normalize_alias, resolve, open_device,
  require_login,
}
use liuzx_skf.Domain.Keys.{as_u32, ecc_blob, rsa_blob, sgd_sm2_1, sgd_sm3}
use liuzx_skf.Der.{der_sequence}
use liuzx_skf.Der.Names.{build_subject_dn}
use liuzx_skf.Der.Signature.{coordinate_der}
use liuzx_skf.Der.Requests.{
  build_sm2_spki, build_rsa_spki, oid_sm3_with_sm2, oid_sha256_with_rsa, request_info,
  signature_algorithm, request_der, pem,
}
use liuzx_skf.Common.{
  ltb, if◌then◌else◌, Result, ok, err, length, take, Text, Bytes, ◌===◌, text_eq, text, decimal,
  hex_upper, ℕ, ◌%◌, Bool, ◌||◌, not, Option, none, some, [], ◌∷◌, ◌++◌,
}

-- `format!("{:02X}…", rand_bytes[0], …, rand_bytes[7])`; `none` is the panic on fewer bytes.
unfoldable pub random_name : Bytes → Option Text
random_name bytes = if ltb (length bytes) 8 then none else some (hex_upper (take 8 bytes))

-- What the key pair brings: `(spki, sig_alg_oid, hash_alg_id, ecc_key)`
pub record KeyPart : Type 0 where
  pub spki : Bytes
  pub sig_alg_oid : Bytes
  pub hash_alg_id : ℕ
  pub ecc_key : Option EccPublicKey

-- `b"1234567812345678"`
abbrev pub user_id : Bytes
user_id = text "1234567812345678"

-- `SHA256_DIGEST_INFO_PREFIX`
abbrev pub sha256_digest_info_prefix : Bytes
sha256_digest_info_prefix =
    0x30 ∷ 0x31 ∷ 0x30 ∷ 0x0d ∷ 0x06 ∷ 0x09 ∷ 0x60 ∷ 0x86 ∷ 0x48 ∷ 0x01 ∷ 0x65 ∷ 0x03 ∷ 0x04 ∷ 0x02
    ∷ 0x01 ∷ 0x05 ∷ 0x00 ∷ 0x04 ∷ 0x20 ∷ []

-- The two numbers of an SM2 signature, which stand at the right of their 64 bytes.
unfoldable pub sm2_signature : Bytes → Option Bytes
unfolding coordinate_der
sm2_signature sig = elim (coordinate_der 32 64 sig) [
  | none ↦ none
  | some r_der ↦ elim (coordinate_der 96 128 sig) [
    | none ↦ none
    | some s_der ↦ some (der_sequence (r_der ∷ s_der ∷ []))
  ]
]

module _ {W : Type 0} (ctx : Context W) (params : Params) where
  abbrev pub fail_with : Text → ProviderError → Handler W
  fail_with what e = respond (provider_failure ctx params.id (failed what) e)

  -- The block `let application = …`, which leaves the grants alone.
  unfoldable pub open_csr_application : Provider W → Text → DeviceHandle → Step W AppHandle
  open_csr_application p app d =
      acquire (called (device_resource d) Operation.open_application ∷ []) app_resource app
        p.close_application (p.open_application d app) (fail_with (text "OpenApp"))

  -- The two ends of `match device.random(8)`
  unfoldable pub chosen_name : Result ProviderError Bytes → Step W Text
  unfolding random_name
  chosen_name (ok rand_bytes) k = or_panic (random_name rand_bytes) k
  chosen_name (err e) k =
      observe (λ w. (ctx.micros w, w)) (λ t. k (text "CSR" ++ decimal (t % 100000000)))

  -- `let cont_name = …`
  unfoldable pub container_name : Provider W → DeviceHandle → Text → Step W Text
  unfolding chosen_name
  container_name p d container_name_param k =
      if not (container_name_param === [])
      then k container_name_param
      else invoke (device_resource d) Operation.random (p.random d 8) (λ r. chosen_name r k)

  -- `let container = …`: with a name from the request, one that exists is opened.
  unfoldable pub create_or_open : Provider W → AppHandle → Text → Text → Step W ContainerHandle
  create_or_open p a container_name_param cont k =
      acquire (called (app_resource a) Operation.create_container ∷ []) container_resource cont
        p.close_container (p.create_container a cont)
        (λ e.
          if not (container_name_param === [])
          then acquire (called (app_resource a) Operation.open_container ∷ []) container_resource
              cont p.close_container (p.open_container a cont)
              (fail_with (text "Create/OpenContainer")) k
          else fail_with (text "Create/OpenContainer") e)
        k

  -- `let (spki, sig_alg_oid, hash_alg_id, ecc_key) = …`
  unfoldable pub generate : Provider W → ContainerHandle → Bool → ℕ → Step W KeyPart
  generate p c is_ecc key_length k =
      if is_ecc
      then (do
        result ←
            invoke (container_resource c) Operation.gen_ecc_key_pair
              (p.gen_ecc_key_pair c sgd_sm2_1)
        key ← or_fail (fail_with (text "GenECCKeyPair")) result
        k (record {
          spki = build_sm2_spki (ecc_blob key).x_coordinate (ecc_blob key).y_coordinate;
          sig_alg_oid = oid_sm3_with_sm2;
          hash_alg_id = sgd_sm3;
          ecc_key = some key;
        }))
      else (do
        result ←
            invoke (container_resource c) Operation.gen_rsa_key_pair
              (p.gen_rsa_key_pair c key_length)
        key ← or_fail (fail_with (text "GenRSAKeyPair")) result
        let blob = rsa_blob key
        spki ← or_panic (build_rsa_spki blob.bit_len blob.modulus blob.public_exponent)
        k (record {
          spki = spki;
          sig_alg_oid = oid_sha256_with_rsa;
          hash_alg_id = 4;
          ecc_key = none;
        }))

  -- The start of the digest, keyed for SM2.
  abbrev pub start_digest :
      Provider W
      → DeviceHandle
      → ℕ
      → Option EccPublicKey
      → W
      → Result ProviderError DigestHandle × W
  start_digest p d hash_alg_id none = p.begin_digest d hash_alg_id []
  start_digest p d hash_alg_id (some key) = p.begin_digest_with_key d hash_alg_id user_id key

  -- The hash of the part that is signed, made on the token. The guard lives on to the end of the
  -- handler.
  unfoldable pub hash_tbs : Provider W → DeviceHandle → KeyPart → Bytes → Step W Bytes
  hash_tbs p d part tbs k =
      acquire (called (device_resource d) Operation.digest_begin ∷ []) digest_resource []
        p.close_digest (start_digest p d part.hash_alg_id part.ecc_key)
        (fail_with (text "DigestInit"))
        (λ g. do
          updated ← invoke (digest_resource g) Operation.digest_update (p.update g tbs)
          done ← or_fail (fail_with (text "Digest")) updated
          result ← invoke (digest_resource g) Operation.digest_final (p.finalize g)
          hash_buf ← or_fail (fail_with (text "Digest")) result
          k hash_buf)

  -- `let sig_bits = …`
  unfoldable pub sign_hash : Provider W → ContainerHandle → Bool → Bytes → Step W Bytes
  unfolding sm2_signature
  sign_hash p c is_ecc hash_buf k =
      if is_ecc
      then (do
        result ← invoke (container_resource c) Operation.sign_ecc (p.sign_ecc c hash_buf)
        sig ← or_fail (fail_with (text "ECCSignData")) result
        bits ← or_panic (sm2_signature sig)
        k bits)
      else (do
        result ←
            invoke (container_resource c) Operation.sign_rsa
              (p.sign_rsa c (sha256_digest_info_prefix ++ hash_buf))
        sig ← or_fail (fail_with (text "RSASignData")) result
        k sig)

  -- From the container on.
  unfoldable pub certify :
      Provider W → DeviceHandle → ContainerHandle → Text → Text → Text → ℕ → Handler W
  unfolding generate hash_tbs sign_hash
  certify p d c subject cont_name key_type key_length = do
    let is_ecc = key_type === text "SM2" || key_type === text "ECC"
    part ← generate p c is_ecc key_length
    let tbs = request_info (build_subject_dn ctx.to_uppercase subject) part.spki
    hash_buf ← hash_tbs p d part tbs
    sig_bits ← sign_hash p c is_ecc hash_buf
    let csr_der = request_der tbs (signature_algorithm is_ecc part.sig_alg_oid) sig_bits
    let pem_text = pem (ctx.encode csr_der)
    written ← observe (λ w. (tt, ctx.write_last_csr pem_text w))
    respond (
        respond_ok
          (obj (
            field (text "pem") (str pem_text) (
              field (text "container") (str cont_name) (
                field (text "keyType") (str key_type)
                  (field (text "keyLength") (num key_length) end)))))
          params.id)

  unfoldable pub create_pkcs10 : Language → Handler W
  unfolding open_csr_application container_name create_or_open certify
  create_pkcs10 lang = do
    let id = params.id
    let prov_name = normalize_alias ctx (optional_str params 0 [])
    dev_name ← or_return (required_str params 1 (text "Missing deviceName"))
    app_name ← or_return (required_str params 2 (text "Missing appName"))
    subject ← or_return (required_str params 3 (text "Missing subject"))
    let key_type = ctx.to_uppercase (optional_str params 4 (text "SM2"))
    let key_length = as_u32 (optional_u64 params 5 256)
    let container_name_param = optional_str params 6 []
    provider ← resolve ctx (λ e. load_failed e id) prov_name
    device ← open_device ctx id provider prov_name dev_name
    application ← open_csr_application provider app_name device
    require_login ctx id prov_name dev_name app_name
    cont_name ← container_name provider device container_name_param
    container ← create_or_open provider application container_name_param cont_name
    certify provider device container subject cont_name key_type key_length
