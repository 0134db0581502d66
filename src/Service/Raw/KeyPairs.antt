-- ===== src/Service/Raw/KeyPairs.antt =====
-- src/main.rs: `ImportKeyPair`.
use liuzx_skf.Common.{
  ltb, if◌then◌else◌, Result, is_ok, ok, err, length, take, drop, negsuc, Text, Bytes, text_eq,
  text, ℕ, ◌+◌, ◌%◌, ◌^◌, true, ◌||◌, Option, none, some, [], ◌∷◌, ◌++◌,
}
use liuzx_skf.Session.Handles.{application, container}
use liuzx_skf.Protocol.{Json, RpcResponse, bool, as_str, respond_err, Language, localized}
use liuzx_skf.Protocol.Params.{Params, value_at, unwrap_or}
use liuzx_skf.Provider.{Operation}
use liuzx_skf.Config.{eq_ignore_ascii_case}
use liuzx_skf.Native.{Library, EnvelopedKeyBlob}
use liuzx_skf.Native.Api
use liuzx_skf.Native.Api.Crypto
use liuzx_skf.Exec.{called, Handler, Step, ◌>>=◌, ◌>>◌, respond, or_return, or_panic, authorize}
use liuzx_skf.Domain.{load_failed, failed}
use liuzx_skf.Domain.Cipher.{sgd_sm4_cbc}
use liuzx_skf.Service.{SkfContext}
use liuzx_skf.Service.Devices.{or_missing}
use liuzx_skf.Service.Raw.{
  native_handle, native_err, c_string, raw_open, raw_call, raw_close, with_api, connect,
  alias_or_default,
}
use liuzx_skf.Service.Raw.Devices.{answer_or}
use liuzx_skf.Service.Raw.Lists.{open_raw_application, close_both}
use liuzx_skf.Service.Raw.Verify.{ulong_at, read_ecc_public_key}

-- src/skf/types.rs: SGD_SM4_ECB
abbrev pub sgd_sm4_ecb : ℕ
sgd_sm4_ecb = 0x00000401

-- The algorithm of `sm4Mode`; an absent one is ECB.
unfoldable pub sm4_alg : Option Text → Language → Option Json → Result RpcResponse ℕ
unfolding eq_ignore_ascii_case
sm4_alg none lang id = ok sgd_sm4_ecb
sm4_alg (some mode) lang id =
    if eq_ignore_ascii_case mode (text "CBC")
    then ok sgd_sm4_cbc
    else if eq_ignore_ascii_case mode (text "ECB")
    then ok sgd_sm4_ecb
    else err (
        respond_err (negsuc 1)
          (localized lang (text "不支持的SM4模式: " ++ mode ++ text ", 支持: ECB, CBC")
            (text "Unsupported SM4 mode: " ++ mode ++ text ", supported: ECB, CBC"))
          id)

unfoldable pub decoded_key :
    (Text → Result Text Bytes) → Option Json → Text → Text → Result RpcResponse Bytes
decoded_key decode id what b64 = elim (decode b64) [
  | ok bytes ↦ ok bytes
  | err e ↦ err (respond_err (negsuc 2) (text "Invalid " ++ what ++ text " base64: " ++ e) id)
]

-- What a library reads at `bytes.as_ptr() as *const ENVELOPEDKEYBLOB`: past the end of the bytes it
-- reads what they do not own, and the model stops.
unfoldable pub read_enveloped_key : Bytes → Option EnvelopedKeyBlob
unfolding ulong_at read_ecc_public_key
read_enveloped_key bs =
    let cipher_len = ulong_at 368 bs in
    if ltb (length bs) (372 + cipher_len)
    then none
    else some (record {
      version = ulong_at 0 bs;
      symm_alg_id = ulong_at 4 bs;
      bits = ulong_at 8 bs;
      encrypted_pri_key = take 64 (drop 12 bs);
      pub_key = read_ecc_public_key (drop 76 bs);
      ecc_cipher_blob = record {
        x_coordinate = take 64 (drop 208 bs);
        y_coordinate = take 64 (drop 272 bs);
        hash = take 32 (drop 336 bs);
        cipher_len = cipher_len;
        cipher = take cipher_len (drop 372 bs);
      };
    })

abbrev pub pin_cache_empty : Option Json → RpcResponse
pin_cache_empty id =
    respond_err (negsuc 9) (text "User not logged in (PIN cache empty). Call CheckPIN first.") id

module _ {W : Type 0} (ctx : SkfContext W) (params : Params) (lang : Language) where
  -- What is open when a key pair is imported.
  unfoldable pub close_three : Library W → ℕ → ℕ → ℕ → Step W (Unit {0})
  unfolding raw_close close_both
  close_three api h_dev h_app h_cont k = do
    raw_close (native_handle container h_cont) (Api.close_container api h_cont)
    close_both ctx params lang api h_dev h_app
    k tt

  unfoldable pub open_raw_container : Text → Library W → ℕ → ℕ → Step W ℕ
  unfolding raw_open c_string close_both
  open_raw_container cont_name api h_dev h_app k = do
    c_cont ← c_string cont_name
    h_cont ←
        raw_open (called (native_handle application h_app) Operation.open_container ∷ []) container
          cont_name (Api.open_container api h_app c_cont 0)
          (λ ret. do
            close_both ctx params lang api h_dev h_app
            respond (native_err ret (failed (text "OpenContainer") ret) params.id))
    k h_cont

  unfoldable pub or_else : (RpcResponse → Handler W) → Result RpcResponse Bytes → Step W Bytes
  or_else fail (ok bytes) k = k bytes
  or_else fail (err r) k = fail r

  -- The wrapping key is read when the container is open.
  unfoldable pub wrap_key_or_close : Library W → ℕ → ℕ → ℕ → Step W Bytes
  unfolding decoded_key close_three or_else
  wrap_key_or_close api h_dev h_app h_cont k =
      or_else (λ r. close_three api h_dev h_app h_cont (λ u. respond r))
        (decoded_key ctx.context.decode params.id (text "wrapKey")
          (unwrap_or (value_at as_str params 6) []))
        k

  unfoldable pub import_ecc : Bytes → Library W → ℕ → ℕ → ℕ → Handler W
  unfolding read_enveloped_key close_three answer_or
  import_ecc enc_key_pair_bytes api h_dev h_app h_cont = do
    blob ← or_panic (read_enveloped_key enc_key_pair_bytes)
    result ←
        raw_call (native_handle container h_cont) Operation.import_ecc_key_pair
          (Crypto.import_ecc_key_pair api h_cont blob)
    close_three api h_dev h_app h_cont
    respond (answer_or result.0 (bool true) (failed (text "ImportKeyPair") result.0) params.id)

  unfoldable pub import_rsa : ℕ → Bytes → Library W → ℕ → ℕ → ℕ → Handler W
  unfolding wrap_key_or_close close_three answer_or
  import_rsa sm4_alg_id enc_key_bytes api h_dev h_app h_cont = do
    wrap_key_bytes ← wrap_key_or_close api h_dev h_app h_cont
    result ← raw_call (native_handle container h_cont) Operation.import_rsa_key_pair (
        Crypto.import_rsa_key_pair api h_cont sm4_alg_id wrap_key_bytes
          (length wrap_key_bytes % 2 ^ 32) enc_key_bytes (length enc_key_bytes % 2 ^ 32))
    close_three api h_dev h_app h_cont
    respond (answer_or result.0 (bool true) (failed (text "ImportKeyPair") result.0) params.id)

  -- The application and the device are closed twice.
  unfoldable pub not_logged_in : Library W → ℕ → ℕ → Handler W
  unfolding close_both
  not_logged_in api h_dev h_app = do
    close_both ctx params lang api h_dev h_app
    close_both ctx params lang api h_dev h_app
    respond (pin_cache_empty params.id)

  -- From the check of the grant on.
  unfoldable pub import_into : Text → Text → ℕ → Bytes → Library W → ℕ → ℕ → Handler W
  unfolding open_raw_container import_ecc import_rsa eq_ignore_ascii_case
  import_into cont_name alg_str sm4_alg_id enc_key_pair_bytes api h_dev h_app = do
    let is_ecc =
        eq_ignore_ascii_case alg_str (text "SM2") || eq_ignore_ascii_case alg_str (text "ECC")
    h_cont ← open_raw_container cont_name api h_dev h_app
    if is_ecc
        then import_ecc enc_key_pair_bytes api h_dev h_app h_cont
        else import_rsa sm4_alg_id enc_key_pair_bytes api h_dev h_app h_cont

  unfoldable pub import_key_pair : Handler W
  unfolding sm4_alg decoded_key open_raw_application not_logged_in import_into
  import_key_pair = do
    let id = params.id
    let provider = alias_or_default ctx (unwrap_or (value_at as_str params 0) [])
    dev_name ←
        or_return (or_missing (value_at as_str params 1) (text "Missing deviceName param") id)
    app_name ← or_return (or_missing (value_at as_str params 2) (text "Missing appName param") id)
    cont_name ←
        or_return (or_missing (value_at as_str params 3) (text "Missing containerName param") id)
    alg_str ← or_return (or_missing (value_at as_str params 4) (text "Missing alg param") id)
    enc_key_pair_str ←
        or_return (or_missing (value_at as_str params 5) (text "Missing encKeyPair param") id)
    sm4_alg_id ← or_return (sm4_alg (value_at as_str params 7) lang id)
    enc_key_pair_bytes ←
        or_return (decoded_key ctx.context.decode id (text "encKeyPair") enc_key_pair_str)
    api ← with_api ctx (λ e. load_failed e id) provider
    h_dev ← connect ctx id provider dev_name api
    h_app ← open_raw_application ctx params lang provider dev_name app_name api h_dev
    checked ←
        authorize ctx.context.clock
          (record { provider = provider; device = dev_name; application = app_name })
    if is_ok checked
        then import_into cont_name alg_str sm4_alg_id enc_key_pair_bytes api h_dev h_app
        else not_logged_in api h_dev h_app
