-- ===== src/Service/Raw/Verify.antt =====
-- src/main.rs: `ECCVerify`, `RSAVerify` and `Digest`.
use liuzx_skf.Session.Handles.{device, digest}
use liuzx_skf.Protocol.{
  Json, RpcResponse, num, str, bool, obj, field, end, as_str, respond_err, Language,
}
use liuzx_skf.Protocol.Params.{Params, value_at, unwrap_or}
use liuzx_skf.Provider.{Operation}
use liuzx_skf.Session.State
use liuzx_skf.Native.{Library, EccPublicKeyBlob, EccSignatureBlob, RsaPublicKeyBlob}
use liuzx_skf.Native.Api.Crypto
use liuzx_skf.Exec.{called, Handler, ◌>>=◌, ◌>>◌, respond, or_return}
use liuzx_skf.Domain.{load_failed, failed}
use liuzx_skf.Service.{SkfContext, code_in}
use liuzx_skf.Service.Devices.{or_missing}
use liuzx_skf.Service.Raw.{
  native_handle, native_err, raw_open, raw_call, with_api, with_new_api, load_failed_minus_one,
  connect, disconnect_raw, alias_or_default,
}
use liuzx_skf.Service.Raw.Devices.{decoded_as, answer_or}
use liuzx_skf.Domain.Keys.{sgd_sm3}
use liuzx_skf.Common.{
  ltb, if◌then◌else◌, Result, ok, err, length, take, drop, replicate, negsuc, Text, Bytes, ◌===◌,
  text_eq, text, ℕ, ◌+◌, ◌*◌, ◌%◌, ◌^◌, true, Option, none, [], ◌∷◌, ◌++◌,
}

-- A `ULONG` in memory, the least byte first.
unfoldable pub ulong_at : ℕ → Bytes → ℕ
ulong_at n bs = value (take 4 (drop n bs))
  where
    value : Bytes → ℕ
    value [] = 0
    value (b ∷ rest) = b + 256 * value rest

-- `std::ptr::read(bytes.as_ptr() as *const ECCPUBLICKEYBLOB)`, of 132 bytes at least
unfoldable pub read_ecc_public_key : Bytes → EccPublicKeyBlob
unfolding ulong_at
read_ecc_public_key bs = record {
  bit_len = ulong_at 0 bs;
  x_coordinate = take 64 (drop 4 bs);
  y_coordinate = take 64 (drop 68 bs);
}

-- Of 128 bytes at least.
unfoldable pub read_ecc_signature : Bytes → EccSignatureBlob
read_ecc_signature bs = record { r = take 64 bs; s = take 64 (drop 64 bs) }

-- Of 268 bytes at least.
unfoldable pub read_rsa_public_key : Bytes → RsaPublicKeyBlob
unfolding ulong_at
read_rsa_public_key bs = record {
  alg_id = ulong_at 0 bs;
  bit_len = ulong_at 4 bs;
  modulus = take 256 (drop 8 bs);
  public_exponent = take 4 (drop 264 bs);
}

-- `if bytes.len() < size_of::<T>() { return … }`
unfoldable pub long_enough : Bytes → ℕ → Text → Option Json → Result RpcResponse (Unit {0})
long_enough bytes size message id =
    if ltb (length bytes) size then err (respond_err (negsuc 1) message id) else ok tt

module _ {W : Type 0} (ctx : SkfContext W) (params : Params) (lang : Language) where
  unfoldable pub ecc_verify : Handler W
  unfolding decoded_as long_enough read_ecc_public_key read_ecc_signature answer_or
  ecc_verify = do
    let id = params.id
    let prov_name = alias_or_default ctx (unwrap_or (value_at as_str params 0) [])
    dev_name ←
        or_return (or_missing (value_at as_str params 1) (text "Missing deviceName param") id)
    pub_key_b64 ← or_return (or_missing (value_at as_str params 2) (text "Missing pubKey param") id)
    data_b64 ← or_return (or_missing (value_at as_str params 3) (text "Missing data param") id)
    sig_b64 ← or_return (or_missing (value_at as_str params 4) (text "Missing signature param") id)
    pub_key_bytes ← or_return (decoded_as ctx.context.decode id (text "pubKey") pub_key_b64)
    data_bytes ← or_return (decoded_as ctx.context.decode id (text "data") data_b64)
    sig_bytes ← or_return (decoded_as ctx.context.decode id (text "signature") sig_b64)
    long_key ←
        or_return (long_enough pub_key_bytes 132 (text "pubKey too short for ECCPUBLICKEYBLOB") id)
    long_sig ←
        or_return (long_enough sig_bytes 128 (text "signature too short for ECCSIGNATUREBLOB") id)
    api ← with_api ctx (λ e. load_failed e id) prov_name
    h_dev ← connect ctx id prov_name dev_name api
    result ← raw_call (native_handle device h_dev) Operation.ecc_verify (
        Crypto.ecc_verify api h_dev (read_ecc_public_key pub_key_bytes) data_bytes
          (length data_bytes % 2 ^ 32) (read_ecc_signature sig_bytes))
    disconnect_raw ctx api h_dev
    respond (
        answer_or result.0 (bool true) (code_in lang (text "ECC签名验证失败") (text "ECCVerify") result.0)
          id)

  unfoldable pub rsa_verify : Handler W
  unfolding decoded_as long_enough read_rsa_public_key answer_or
  rsa_verify = do
    let id = params.id
    provider ←
        or_return (or_missing (value_at as_str params 0) (text "Missing providerName param") id)
    dev_name ←
        or_return (or_missing (value_at as_str params 1) (text "Missing deviceName param") id)
    pub_key_b64 ←
        or_return (or_missing (value_at as_str params 2) (text "Missing pubKeyBase64 param") id)
    data_b64 ←
        or_return (or_missing (value_at as_str params 3) (text "Missing dataBase64 param") id)
    sig_b64 ←
        or_return (or_missing (value_at as_str params 4) (text "Missing signatureBase64 param") id)
    pub_key_bytes ← or_return (decoded_as ctx.context.decode id (text "publicKey") pub_key_b64)
    long_key ← or_return (long_enough pub_key_bytes 268 (text "RSAPUBLICKEYBLOB data too short") id)
    data_bytes ← or_return (decoded_as ctx.context.decode id (text "data") data_b64)
    sig_bytes ← or_return (decoded_as ctx.context.decode id (text "signature") sig_b64)
    api ← with_new_api ctx (load_failed_minus_one ctx lang id) provider
    h_dev ← connect ctx id provider dev_name api
    result ← raw_call (native_handle device h_dev) Operation.rsa_verify (
        Crypto.rsa_verify api h_dev (read_rsa_public_key pub_key_bytes) data_bytes
          (length data_bytes % 2 ^ 32) sig_bytes (length sig_bytes % 2 ^ 32))
    disconnect_raw ctx api h_dev
    respond (
        answer_or result.0 (bool true) (code_in lang (text "RSA验签失败") (text "RSAVerify") result.0)
          id)

  -- The algorithm of `Digest`, by its name in upper case.
  unfoldable pub digest_alg : Text → Result RpcResponse ℕ
  digest_alg alg_name =
      let upper = ctx.context.to_uppercase alg_name in
      if upper === text "SM3"
      then ok sgd_sm3
      else if upper === text "SHA1"
      then ok 2
      else if upper === text "SHA256"
      then ok 4
      else err (respond_err (negsuc 1) (text "Unsupported algorithm: " ++ alg_name) params.id)

  -- The answer of `Digest`; its hexadecimal text is the two lower case digits of each byte, which is
  -- also how an identifier of a session is written.
  abbrev pub hash_json : Text → Bytes → ℕ → Json
  hash_json alg_name hash hash_len = obj (
      field (text "hex") (str (State.session_id hash)) (
        field (text "base64") (str (ctx.context.encode hash))
          (field (text "algorithm") (str alg_name) (field (text "length") (num hash_len) end))))

  -- The hash on an open device. The device is closed at the end, and the hash is not.
  unfoldable pub hash_on : Text → ℕ → Bytes → Library W → ℕ → Handler W
  unfolding raw_open answer_or
  hash_on alg_name alg_id data_bytes api h_dev = do
    let id = params.id
    h_hash ←
        raw_open (called (native_handle device h_dev) Operation.digest_begin ∷ []) digest []
          (Crypto.digest_init api h_dev alg_id none [] 0 0)
          (λ ret. do
            disconnect_raw ctx api h_dev
            respond (native_err ret (failed (text "DigestInit") ret) id))
    result ←
        raw_call (native_handle digest h_hash) Operation.digest_final
          (Crypto.digest api h_hash data_bytes (length data_bytes % 2 ^ 32) (replicate 64 0) 64)
    disconnect_raw ctx api h_dev
    respond (
        answer_or result.0 (hash_json alg_name (take result.1.1 result.1.0) result.1.1)
          (code_in lang (text "摘要计算失败") (text "Digest") result.0) id)

  unfoldable pub digest_data : Handler W
  unfolding digest_alg decoded_as hash_on
  digest_data = do
    let id = params.id
    prov_name ←
        or_return (or_missing (value_at as_str params 0) (text "Missing providerName param") id)
    dev_name ←
        or_return (or_missing (value_at as_str params 1) (text "Missing deviceName param") id)
    data_b64 ← or_return (or_missing (value_at as_str params 2) (text "Missing data param") id)
    let alg_name = unwrap_or (value_at as_str params 3) (text "SM3")
    alg_id ← or_return (digest_alg alg_name)
    data_bytes ← or_return (decoded_as ctx.context.decode id (text "data") data_b64)
    api ← with_api ctx (λ e. load_failed e id) prov_name
    h_dev ← connect ctx id prov_name dev_name api
    hash_on alg_name alg_id data_bytes api h_dev
