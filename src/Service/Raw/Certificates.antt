-- ===== src/Service/Raw/Certificates.antt =====
-- src/main.rs: `FindCertificates`. It goes through the libraries, devices, applications and
-- containers, and passes by what does not open. The order of the libraries, which a hash map does
-- not fix, is that of the configuration's list.
use liuzx_skf.Common.{
  ltb, ◌==◌, if◌then◌else◌, replicate, Text, Bytes, ◌===◌, text_eq, text, ℕ, Bool, true, false,
  ◌&&◌, ◌||◌, Option, none, some, List, [], ◌∷◌, ◌++◌, map,
}
use liuzx_skf.Session.Handles.{device, application, container}
use liuzx_skf.Protocol.{Json, str, obj, field, end, arr, nil, item, as_str, respond_ok, Items}
use liuzx_skf.Protocol.Params.{Params, value_at, unwrap_or}
use liuzx_skf.Provider.{Operation}
use liuzx_skf.Config.{eq_ignore_ascii_case}
use liuzx_skf.Native.{Library, sar_ok}
use liuzx_skf.Native.Api
use liuzx_skf.Exec.{called, Handler, Step, ◌>>=◌, ◌>>◌, respond, or_panic, observe}
use liuzx_skf.Service.{SkfContext}
use liuzx_skf.Service.Raw.{
  native_handle, c_string, raw_open, raw_call, raw_close, get_api, api_or, disconnect_raw,
}
use liuzx_skf.Service.Raw.Lists.{raw_names}

pub record CertResult : Type 0 where
  pub key : Text
  pub value : Text
  pub ctype : Text
  pub cert : Text

-- The serialization that `#[derive(Serialize)]` gives, with `ctype` renamed to `type`
abbrev pub result_json : CertResult → Json
result_json r = obj (
    field (text "key") (str r.key) (
      field (text "value") (str r.value)
        (field (text "type") (str r.ctype) (field (text "cert") (str r.cert) end))))

abbrev pub results_json : List CertResult → Json
results_json results = arr (items results)
  where
    items : List CertResult → Items
    items [] = nil
    items (r ∷ rs) = item (result_json r) (items rs)

module _ {W : Type 0} where
  -- `for x in xs { … }`, with the results so far
  unfoldable pub for_each : {A R : Type 0} → List A → (A → R → Step W R) → R → Step W R
  for_each [] body acc k = k acc
  for_each (x ∷ xs) body acc k = body x acc (λ acc'. for_each xs body acc' k)

module _ {W : Type 0} (ctx : SkfContext W) where
  -- The two calls of a function that lists names. Where one of them fails there is no name, and
  -- neither is there with a size of one.
  unfoldable pub listed_names :
      ℕ × (Option Bytes × ℕ)
      → (Option Bytes → ℕ → Step W (ℕ × (Option Bytes × ℕ)))
      → Step W (List Text)
  unfolding raw_names or_panic
  listed_names (ret, (none_buf, size)) call k =
      if ret == sar_ok && ltb 1 size
      then call (some (replicate size 0)) size (λ second.
        if second.0 == sar_ok
        then or_panic (raw_names ctx.utf8_lossy second.1.0 second.1.1) k
        else k [])
      else k []

  -- `format!("{}/{}/{}/{}/{}", prov_name, dev_name, app_name, cont_name, serial)`
  abbrev pub result_key : Text → Text → Text → Text → Text → Text
  result_key prov_name dev_name app_name cont_name serial =
      prov_name ++ b'/' ∷ (dev_name ++ b'/' ∷ (app_name ++ b'/' ∷ (cont_name ++ b'/' ∷ serial)))

  -- What is pushed for a certificate that `X509Certificate::from_der` reads.
  unfoldable pub found : (Text → Text) → Bool → Bytes → List CertResult → List CertResult
  found key is_sign cbuf results = elim (ctx.parse_certificate cbuf) [
    | none ↦ results
    | some (serial, subject) ↦
        results
        ++ record {
          key = key serial;
          value = subject;
          ctype = if is_sign then text "Sign" else text "Enc";
          cert = ctx.context.encode cbuf;
        }
          ∷ []
  ]

  -- `process_cert`. A null pointer is the empty buffer.
  unfoldable pub process_cert :
      Library W → ℕ → (Text → Text) → Bool → List CertResult → Step W (List CertResult)
  unfolding raw_call found
  process_cert api h_cont key is_sign results k = do
    first ←
        raw_call (native_handle container h_cont) Operation.export_certificate
          (Api.export_certificate api h_cont is_sign [] 0)
    if first.0 == sar_ok && ltb 0 first.1.1
        then (do
          second ←
              raw_call (native_handle container h_cont) Operation.export_certificate
                (Api.export_certificate api h_cont is_sign (replicate first.1.1 0) first.1.1)
          k (if second.0 == sar_ok then found key is_sign second.1.0 results else results))
        else k results

  -- `if want { process_cert(is_sign); }`
  unfoldable pub process_wanted :
      Bool → Library W → ℕ → (Text → Text) → Bool → List CertResult → Step W (List CertResult)
  unfolding process_cert
  process_wanted want api h_cont key is_sign results k =
      if want then process_cert api h_cont key is_sign results k else k results

module _ {W : Type 0} (ctx : SkfContext W) (params : Params) where
  -- `want_sign` and `want_enc`
  unfoldable pub wanted : Text → Bool
  unfolding eq_ignore_ascii_case
  wanted kind =
      let filter_str = unwrap_or (value_at as_str params 0) [] in
      filter_str === [] || eq_ignore_ascii_case filter_str kind

  unfoldable pub find_in_container :
      Text → Text → Text → Library W → ℕ → Text → List CertResult → Step W (List CertResult)
  unfolding c_string raw_open raw_close process_wanted wanted
  find_in_container prov_name dev_name app_name api h_app cont_name results k = do
    c_cont ← c_string cont_name
    h_cont ←
        raw_open (called (native_handle application h_app) Operation.open_container ∷ []) container
          cont_name (Api.open_container api h_app c_cont 0) (λ ret. k results)
    let key = result_key ctx prov_name dev_name app_name cont_name
    signing ← process_wanted ctx (wanted (text "Sign")) api h_cont key true results
    both ← process_wanted ctx (wanted (text "Enc")) api h_cont key false signing
    raw_close (native_handle container h_cont) (Api.close_container api h_cont)
    k both

  unfoldable pub find_in_application :
      Text → Text → Library W → ℕ → Text → List CertResult → Step W (List CertResult)
  unfolding c_string raw_open raw_call raw_close listed_names for_each find_in_container
  find_in_application prov_name dev_name api h_dev app_name results k = do
    c_app ← c_string app_name
    h_app ←
        raw_open (called (native_handle device h_dev) Operation.open_application ∷ []) application
          app_name (Api.open_application api h_dev c_app 0) (λ ret. k results)
    first ←
        raw_call (native_handle application h_app) Operation.enum_containers
          (Api.enum_container api h_app none 0)
    cont_names ← listed_names ctx first (λ buf size.
        raw_call (native_handle application h_app) Operation.enum_containers
          (Api.enum_container api h_app buf size))
    found_here ←
        for_each cont_names (find_in_container prov_name dev_name app_name api h_app) results
    raw_close (native_handle application h_app) (Api.close_application api h_app)
    k found_here

  unfoldable pub find_in_device :
      Text → Library W → Text → List CertResult → Step W (List CertResult)
  unfolding c_string raw_open raw_call disconnect_raw listed_names for_each find_in_application
  find_in_device prov_name api dev_name results k = do
    c_name ← c_string dev_name
    h_dev ← raw_open [] device dev_name (Api.connect_dev api c_name 0) (λ ret. k results)
    first ←
        raw_call (native_handle device h_dev) Operation.enum_applications
          (Api.enum_application api h_dev none 0)
    app_names ← listed_names ctx first (λ buf size.
        raw_call (native_handle device h_dev) Operation.enum_applications
          (Api.enum_application api h_dev buf size))
    found_here ← for_each app_names (find_in_application prov_name dev_name api h_dev) results
    disconnect_raw ctx api h_dev
    k found_here

  unfoldable pub find_in_library : Text → List CertResult → Library W → Step W (List CertResult)
  unfolding listed_names for_each find_in_device
  find_in_library prov_name results api k = do
    first ← observe (Api.enum_dev api true none 0)
    dev_names ← listed_names ctx first (λ buf size. observe (Api.enum_dev api true buf size))
    for_each dev_names (find_in_device prov_name api) results k

  unfoldable pub find_in_provider : Text → List CertResult → Step W (List CertResult)
  unfolding get_api api_or find_in_library
  find_in_provider prov_name results k =
      observe (get_api ctx prov_name)
        (api_or ctx (λ e. k results) (λ api. find_in_library prov_name results api k))

  unfoldable pub find_certificates : Handler W
  unfolding for_each find_in_provider
  find_certificates = do
    results ← for_each (map (λ e. e.0) ctx.config.libs) find_in_provider []
    respond (respond_ok (results_json results) params.id)
