-- ===== src/Service/Ownership/Closed.antt =====
-- `FindCertificates` and `ImportKeyPair` of src/main.rs close what they opened when they answer.
use liuzx_skf.Common.{
  Result, ok, err, Text, Bytes, text_eq, ℕ, ◌≡◌, sym, ap, ◌∙◌, fun_ext, ◌≢◌, Bool, some, List, [],
  ◌∷◌, arith,
}
use liuzx_skf.Session.State.{SessionState}
use liuzx_skf.Session.Handles.{application, device, container}
use liuzx_skf.Protocol.{RpcResponse, Language}
use liuzx_skf.Protocol.Params.{Params}
use liuzx_skf.Native.{Library}
use liuzx_skf.Exec.{Handler, Resource, answered}
use liuzx_skf.Service.{SkfContext}
use liuzx_skf.Service.Raw.{native_handle}
use liuzx_skf.Service.Raw.Lists.{open_raw_application, close_both}
use liuzx_skf.Service.Raw.KeyPairs.{
  import_key_pair, import_into, import_ecc, import_rsa, open_raw_container, wrap_key_or_close,
  or_else, close_three, not_logged_in, pin_cache_empty,
}
use liuzx_skf.Service.Raw.Certificates.{
  CertResult, process_cert, process_wanted, find_in_container, find_in_application, find_in_device,
  find_in_library, find_in_provider, find_certificates,
}
use liuzx_skf.Service.Ownership.{follow, owned}
use liuzx_skf.Service.Ownership.Answered.{
  Balances, answered_rules, for_each-Balances, listed_names-Balances,
}
use liuzx_skf.Exec.{after, respond}
use liuzx_skf.Service.Raw.{raw_close, disconnect_raw}

module _ {W : Type 0} (ctx : SkfContext W) (params : Params) (Q : RpcResponse → Type 0)
    (s : SessionState) where
  process_cert-Balances :
      (mine : List Resource) (api : Library W) (h_cont : ℕ) (key : Text → Text) (is_sign : Bool)
      (results : List CertResult) (k : List CertResult → Handler W)
      → ((r : List CertResult) → Balances Q (native_handle container h_cont ∷ mine) (k r) s)
      → Balances Q
          (native_handle container h_cont ∷ mine)
          (process_cert ctx api h_cont key is_sign results k)
          s
  unfolding process_cert
  process_cert-Balances mine api h_cont key is_sign results k p = search answered_rules depth 24

  process_wanted-Balances :
      (mine : List Resource) (want : Bool) (api : Library W) (h_cont : ℕ) (key : Text → Text)
      (is_sign : Bool) (results : List CertResult) (k : List CertResult → Handler W)
      → ((r : List CertResult) → Balances Q (native_handle container h_cont ∷ mine) (k r) s)
      → Balances Q
          (native_handle container h_cont ∷ mine)
          (process_wanted ctx want api h_cont key is_sign results k)
          s
  unfolding process_wanted
  process_wanted-Balances mine want api h_cont key is_sign results k p =
      search (answered_rules, process_cert-Balances) depth 24

  find_in_container-Balances :
      (mine : List Resource) (prov_name dev_name app_name : Text) (api : Library W) (h_app : ℕ)
      (cont_name : Text) (results : List CertResult) (k : List CertResult → Handler W)
      → ((r : List CertResult) → Balances Q (native_handle application h_app ∷ mine) (k r) s)
      → Balances Q
          (native_handle application h_app ∷ mine)
          (find_in_container ctx params prov_name dev_name app_name api h_app cont_name results k)
          s
  unfolding find_in_container
  find_in_container-Balances mine prov_name dev_name app_name api h_app cont_name results k p =
      search (answered_rules, process_wanted-Balances) depth 24

  find_in_application-Balances :
      (mine : List Resource) (prov_name dev_name : Text) (api : Library W) (h_dev : ℕ)
      (app_name : Text) (results : List CertResult) (k : List CertResult → Handler W)
      → ((r : List CertResult) → Balances Q (native_handle device h_dev ∷ mine) (k r) s)
      → Balances Q
          (native_handle device h_dev ∷ mine)
          (find_in_application ctx params prov_name dev_name api h_dev app_name results k)
          s
  unfolding find_in_application
  find_in_application-Balances mine prov_name dev_name api h_dev app_name results k p =
      search (answered_rules, for_each-Balances, listed_names-Balances, find_in_container-Balances)
        depth 24

  find_in_device-Balances :
      (prov_name : Text) (api : Library W) (dev_name : Text) (results : List CertResult)
      (k : List CertResult → Handler W)
      → ((r : List CertResult) → Balances Q [] (k r) s)
      → Balances Q [] (find_in_device ctx params prov_name api dev_name results k) s
  unfolding find_in_device
  find_in_device-Balances prov_name api dev_name results k p =
      search
        (answered_rules, for_each-Balances, listed_names-Balances, find_in_application-Balances)
        depth 24

  find_in_provider-Balances :
      (prov_name : Text) (results : List CertResult) (k : List CertResult → Handler W)
      → ((r : List CertResult) → Balances Q [] (k r) s)
      → Balances Q [] (find_in_provider ctx params prov_name results k) s
  unfolding find_in_provider find_in_library
  find_in_provider-Balances prov_name results k p =
      search (answered_rules, for_each-Balances, listed_names-Balances, find_in_device-Balances)
        depth 24

  find_certificates-Balances : Balances Q [] (find_certificates ctx params) s
  unfolding find_certificates
  find_certificates-Balances =
      search (answered_rules, for_each-Balances, find_in_provider-Balances) depth 24

-- An answer but the one of a session that is not logged in.
unfoldable pub IsOther : Params → RpcResponse → Type 0
IsOther params r = r ≢ pin_cache_empty params.id

answered-injective : (a b : RpcResponse) → answered a ≡ answered b → a ≡ b
answered-injective a b e = cc

module _ {W : Type 0} (ctx : SkfContext W) (params : Params) (lang : Language)
    (s : SessionState) where
  not_logged_in-Balances :
      (mine : List Resource) (api : Library W) (h_dev h_app : ℕ)
      → Balances (IsOther params) mine (not_logged_in ctx params lang api h_dev h_app) s
  unfolding IsOther not_logged_in close_both disconnect_raw raw_close respond after
  not_logged_in-Balances mine api h_dev h_app = record {
    at = λ w f c r o q. absurd (q (sym (answered-injective (pin_cache_empty params.id) r o)));
  }

  close_both-Balances :
      (mine : List Resource) (api : Library W) (h_dev h_app : ℕ) (k : Unit {0} → Handler W)
      → Balances (IsOther params) mine (k tt) s
      → Balances
          (IsOther params)
          (native_handle application h_app ∷ native_handle device h_dev ∷ mine)
          (close_both ctx params lang api h_dev h_app k)
          s
  unfolding close_both
  close_both-Balances mine api h_dev h_app k p = search answered_rules depth 12

  close_three-Balances :
      (mine : List Resource) (api : Library W) (h_dev h_app h_cont : ℕ) (k : Unit {0} → Handler W)
      → Balances (IsOther params) mine (k tt) s
      → Balances
          (IsOther params)
          (native_handle container h_cont
            ∷ native_handle application h_app
            ∷ native_handle device h_dev
            ∷ mine)
          (close_three ctx params lang api h_dev h_app h_cont k)
          s
  unfolding close_three
  close_three-Balances mine api h_dev h_app h_cont k p =
      search (answered_rules, close_both-Balances) depth 12

  or_else-Balances :
      (mine : List Resource) (fail : RpcResponse → Handler W) (o : Result RpcResponse Bytes)
      (k : Bytes → Handler W)
      → ((r : RpcResponse) → Balances (IsOther params) mine (fail r) s)
      → ((bytes : Bytes) → Balances (IsOther params) mine (k bytes) s)
      → Balances (IsOther params) mine (or_else ctx params lang fail o k) s
  unfolding or_else
  or_else-Balances mine fail (ok bytes) k p q = q bytes
  or_else-Balances mine fail (err r) k p q = p r

  import_into-Balances :
      (cont_name alg_str : Text) (sm4_alg_id : ℕ) (enc_key_pair_bytes : Bytes) (api : Library W)
      (h_dev h_app : ℕ)
      → Balances
          (IsOther params)
          (native_handle application h_app ∷ native_handle device h_dev ∷ [])
          (import_into ctx params lang cont_name alg_str sm4_alg_id enc_key_pair_bytes api h_dev
            h_app)
          s
  unfolding import_into open_raw_container import_ecc import_rsa wrap_key_or_close
  import_into-Balances cont_name alg_str sm4_alg_id enc_key_pair_bytes api h_dev h_app =
      search (answered_rules, or_else-Balances, close_both-Balances, close_three-Balances) depth 32

module _ {W : Type 0} (ctx : SkfContext W) (params : Params) (lang : Language)
    (s : SessionState) where
  import_key_pair-Balances : Balances (IsOther params) [] (import_key_pair ctx params lang) s
  unfolding import_key_pair open_raw_application
  import_key_pair-Balances =
      search (answered_rules, import_into-Balances, not_logged_in-Balances) depth 40 fits 10000

-- What a balanced run says of the resources alive before and after it.
closed-Balances :
    {W : Type 0} (Q : RpcResponse → Type 0) (h : Handler W) (s : SessionState) (w : W)
    (r : RpcResponse)
    → Balances Q [] h s
    → (h s w).outcome ≡ answered r
    → Q r
    → ((h s w).session.handles ≡ s.handles)
      × (follow (owned s.handles) (h s w).trace ≡ some (owned s.handles))
closed-Balances Q h s w r p o q =
    let (same, (g, e, d)) = p.at w (owned s.handles) (λ x. omega arith) r o q in
    (same, e ∙ ap some (fun_ext (λ x. omega (arith, d x) ∙ ap (λ t. owned t x) same)))

-- When `FindCertificates` answers, every device, application and container that it opened, in
-- whichever libraries, is closed again, none of them twice and none used when it was not open, and
-- the session's handles are as before.
pub follow-find_certificates :
    {W : Type 0} (ctx : SkfContext W) (params : Params) (s : SessionState) (w : W) (r : RpcResponse)
    → (find_certificates ctx params s w).outcome ≡ answered r
    → ((find_certificates ctx params s w).session.handles ≡ s.handles)
      × (follow (owned s.handles) (find_certificates ctx params s w).trace ≡ some (owned s.handles))
follow-find_certificates ctx params s w r o =
    closed-Balances (λ a. Unit) (find_certificates ctx params) s w r
      (find_certificates-Balances ctx params (λ a. Unit) s) o tt

-- When `ImportKeyPair` answers, unless it is with the answer of a session that is not logged in,
-- what it opened is closed again, once and after its last use, and the session's handles are as
-- before.
pub follow-import_key_pair :
    {W : Type 0} (ctx : SkfContext W) (params : Params) (lang : Language) (s : SessionState) (w : W)
    (r : RpcResponse)
    → (import_key_pair ctx params lang s w).outcome ≡ answered r
    → r ≢ pin_cache_empty params.id
    → ((import_key_pair ctx params lang s w).session.handles ≡ s.handles)
      × (follow (owned s.handles) (import_key_pair ctx params lang s w).trace
          ≡ some (owned s.handles))
unfolding IsOther
follow-import_key_pair ctx params lang s w r o n =
    closed-Balances (IsOther params) (import_key_pair ctx params lang) s w r
      (import_key_pair-Balances ctx params lang s) o n
