-- ===== src/Tests/Vendor.antt =====
-- `FindCertificates` and `ImportKeyPair` of src/main.rs with a vendor's library.
use liuzx_skf.Common.{
  text_eq, text, ◌≡◌, refl, true, none, some, [], ◌∷◌, get, text_beq, insert, ◌≢◌, ap,
}
use liuzx_skf.Session.Handles
use liuzx_skf.Session.Handles.{kind_beq}
use liuzx_skf.Exec.{resource_beq}
use liuzx_skf.Session.State
use liuzx_skf.Session.State.{SessionState}
use liuzx_skf.Protocol.{null, RpcResponse, respond_ok, str, bool, en, as_str, respond_err}
use liuzx_skf.Protocol.Params.{Params, unwrap_or, value_at}
use liuzx_skf.Provider.Fake.{FakeInner, with_devices}
use liuzx_skf.Tests.Libraries.{vendor_library}
use liuzx_skf.Service.{SkfContext}
use liuzx_skf.Service.Raw.KeyPairs.{import_key_pair}
use liuzx_skf.Service.Raw.Certificates.{find_certificates, results_json}
use liuzx_skf.Service.Ownership.{follow, owned}
use liuzx_skf.Service.Ownership.Closed.{follow-find_certificates, follow-import_key_pair}
use liuzx_skf.Tests.Service.{service, fake_config, fresh_session, fake_token}
use liuzx_skf.Native.Api
use liuzx_skf.Exec.{observe, respond, or_return, authorize}
use liuzx_skf.Native.Api.Crypto
use liuzx_skf.Session.Auth
use liuzx_skf.Domain.{or_err}
use liuzx_skf.Service.Raw.{with_api, connect, raw_call, disconnect_raw}

abbrev vendor_service : SkfContext FakeInner
vendor_service = record service {
  config = record fake_config { libs = (text "V", []) ∷ [] };
  apis = λ w. (text "V", vendor_library) ∷ [];
  parse_certificate = λ der. some (text "1", text "CN=x");
}

abbrev sign_request : Params
sign_request = record { values = str (text "sign") ∷ []; id = none }

abbrev one_certificate : RpcResponse
one_certificate =
    respond_ok
      (results_json (
        record {
          key = text "V/dev/app/cont/1";
          value = text "CN=x";
          ctype = text "Sign";
          cert = 5 ∷ [];
        }
        ∷ []))
      none

follow-find_certificates_example :
    ((find_certificates vendor_service sign_request fresh_session fake_token).session.handles
      ≡ fresh_session.handles)
    × (follow
          (owned fresh_session.handles)
          (find_certificates vendor_service sign_request fresh_session fake_token).trace
        ≡ some (owned fresh_session.handles))
unfolding find_certificates text observe get text_beq Api.enum_dev Api.connect_dev
    Api.enum_application Api.open_application Api.enum_container Api.open_container unwrap_or
    value_at as_str Api.export_certificate respond
follow-find_certificates_example =
    follow-find_certificates vendor_service sign_request fresh_session fake_token one_certificate
      refl

abbrev granted_session : SessionState
granted_session =
    State.grant 0 (record { provider = text "V"; device = text "dev"; application = text "app" })
      fresh_session

abbrev import_request : Params
import_request = record {
  values =
      str (text "V")
      ∷ str (text "dev")
      ∷ str (text "app")
      ∷ str (text "cont")
      ∷ str (text "RSA")
      ∷ str (text "key")
      ∷ [];
  id = none;
}

follow-import_key_pair_example :
    ((import_key_pair vendor_service import_request en granted_session fake_token).session.handles
      ≡ granted_session.handles)
    × (follow
          (owned granted_session.handles)
          (import_key_pair vendor_service import_request en granted_session fake_token).trace
        ≡ some (owned granted_session.handles))
unfolding import_key_pair text or_return or_err value_at as_str with_api get insert text_beq
    unwrap_or connect Api.connect_dev Api.open_application authorize State.authorize Auth.check
    State.grant Auth.grant Api.open_container Crypto.import_rsa_key_pair respond respond_ok
    respond_err State.new Auth.auth_key_beq Auth.new with_devices raw_call disconnect_raw
follow-import_key_pair_example =
    follow-import_key_pair vendor_service import_request en granted_session fake_token
      (respond_ok (bool true) none) refl (λ e. not_an_error (ap (λ r. r.result) e))
  where
    not_an_error : bool true ≢ null
    not_an_error e = cc

-- A session that is not logged in has the application and the device closed twice.
import_key_pair_twice_closed :
    follow
      (owned fresh_session.handles)
      (import_key_pair vendor_service import_request en fresh_session fake_token).trace
    ≡ none
unfolding import_key_pair text or_return or_err value_at as_str with_api get insert text_beq
    unwrap_or connect Api.connect_dev Api.open_application authorize State.authorize Auth.check
    State.grant Auth.grant respond respond_err State.new Auth.auth_key_beq Auth.new with_devices
    raw_call disconnect_raw follow owned Handles.new resource_beq kind_beq
import_key_pair_twice_closed = refl
