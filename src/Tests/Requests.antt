-- ===== src/Tests/Requests.antt =====
-- Handlers run on the provider in memory, as the repository's own tests run them.
use liuzx_skf.Domain.{Context}
use liuzx_skf.Domain.Login.{stage}
use liuzx_skf.Domain.Grants.Pin.{pin_accepted, NamedKey}
use liuzx_skf.Domain.Dispatch.{run, needs_login, check_pin, sign_data}
use liuzx_skf.Domain.Dispatch.Safety.{holds, replay-run, audit-run, deadline-run}
use liuzx_skf.Session.Auth.{auth_key_eq}
use liuzx_skf.Exec.{answered}
use liuzx_skf.Protocol.{bool}
use liuzx_skf.Domain.{split_cert_key}
use liuzx_skf.Domain.CertKey.{split_cert_key_join}
use liuzx_skf.Domain.Pin.{conclude}
use liuzx_skf.Domain.Pin.Outcome.{conclude_lem}
use liuzx_skf.Exec
use liuzx_skf.Domain
use liuzx_skf.Domain.Sign
use liuzx_skf.Session.Auth
use liuzx_skf.Provider.Fake
use liuzx_skf.Protocol.{as_str}
use liuzx_skf.Protocol.Params.{or_reject, value_at, check_payload_len, utf8_len}
use liuzx_skf.Protocol.Params
use liuzx_skf.Session.Auth.{auth_key_beq}
use liuzx_skf.Exec.Release.{replay}
use liuzx_skf.Exec.Login.{audit}
use liuzx_skf.Session.Auth.{AuthKey, deadline}
use liuzx_skf.Session.State.{SessionState}
use liuzx_skf.Session.State
use liuzx_skf.Protocol.{en, str, respond_ok}
use liuzx_skf.Protocol.Params.{Params}
use liuzx_skf.Provider.Fake.{FakeInner, with_devices, fail_next, pop_failure}
use liuzx_skf.Provider.Fake.Guards.{provider}
use liuzx_skf.Common.{
  if◌then◌else◌, ok, replicate, ◌===◌, text_eq, text, text_beq, split_once, splitn, decimal, get,
  insert, ◌+◌, ◌≡◌, refl, ◌⊎◌, true, false, none, some, [], ◌∷◌, arith,
}

-- `TestContext` of src/domain/mod.rs, with a clock that a slow call moves. No test reads what the
-- stand-ins of the crates answer.
abbrev context : Context FakeInner
context = record {
  default_alias = text "FAKE";
  resolve = λ alias w. (ok (provider (text "FAKE")), w);
  clock = λ w. w.slept;
  encode = λ bytes. bytes;
  decode = λ encoded. ok encoded;
  debug_duration = λ d. decimal d;
  to_uppercase = λ s. s;
  micros = λ w. w.slept;
  write_last_csr = λ pem w. w;
}

abbrev fake : FakeInner
fake = with_devices (text "FAKE") (text "dev" ∷ [])

abbrev session : SessionState
session = State.new (1 ∷ 2 ∷ []) 300

abbrev pin_request : Params
pin_request = record { values = str (text "FAKE/dev/app") ∷ str (text "1234") ∷ []; id = none }

abbrev sign_request : Params
sign_request = record { values = str (text "FAKE/dev/app/cont") ∷ str (text "abc") ∷ []; id = none }

abbrev app_key : AuthKey
app_key = record { provider = text "FAKE"; device = text "dev"; application = text "app" }

-- A session whose user has given the PIN.
abbrev granted : SessionState
granted = State.grant 0 app_key session

replay-run_example : replay [] (run context sign_data sign_request en granted fake).trace ≡ some []
replay-run_example = replay-run context sign_data sign_request en granted fake

audit-run_example :
    audit
      (holds granted)
      (stage [] [] [] false)
      (run context sign_data sign_request en granted fake).trace
    ≡ true
unfolding needs_login
audit-run_example = audit-run context sign_data sign_request en granted fake refl

deadline-run_example :
    (deadline app_key (run context check_pin pin_request en session fake).session.auth
      ≡ deadline app_key session.auth)
    ⊎ (deadline app_key (run context check_pin pin_request en session fake).session.auth ≡ none)
    ⊎ ((check_pin ≡ check_pin)
        × ((run context check_pin pin_request en session fake).outcome ≡ pin_accepted pin_request)
        × NamedKey context pin_request en app_key)
deadline-run_example = deadline-run context check_pin pin_request en session fake app_key

conclude_lem_example :
    ((conclude context pin_request en app_key.provider app_key.device app_key.application
        (record { success = true; retry_count = 3; code = 0 })
        session
        fake).outcome
      ≡ answered (respond_ok (bool true) none))
    × (deadline app_key
          (conclude context pin_request en app_key.provider app_key.device app_key.application
            (record { success = true; retry_count = 3; code = 0 })
            session
            fake).session.auth
        ≡ (if app_key === app_key
            then some (fake.slept + session.auth.ttl)
            else deadline app_key session.auth))
conclude_lem_example =
    conclude_lem context pin_request en app_key app_key
      (record { success = true; retry_count = 3; code = 0 }) session fake

split_cert_key_join_example :
    (split_cert_key (text "a/b/c/d/e/f") 4
      ≡ some (text "a" ∷ text "b" ∷ text "c" ∷ text "d" ∷ text "e/f" ∷ []))
    × (split_cert_key (text "a/b/c/d") 4 ≡ some (text "a" ∷ text "b" ∷ text "c" ∷ text "d" ∷ []))
    × (split_cert_key (text "a/b/c") 4 ≡ none)
    × (split_cert_key (text "a/b/c") 3 ≡ some (text "a" ∷ text "b" ∷ text "c" ∷ []))
unfolding text
split_cert_key_join_example =
    split_cert_key_join (text "a") (text "b") (text "c") (text "d") (text "e/f")
      ((λ e. ground arith), tt) ((λ e. ground arith), tt) ((λ e. ground arith), tt)
      ((λ e. ground arith), tt)

-- The whole of `SignData`, its guards, its log and its answer.
sign_data_test :
    (run context sign_data sign_request en granted fake).outcome
    ≡ answered (respond_ok (str (replicate 256 0x22)) none)
unfolding run Sign.sign_data Exec.or_return Params.required_str or_reject value_at as_str
    Domain.or_err Domain.split_cert_key splitn split_once text text_beq Domain.normalize_alias
    Params.decode_base64 check_payload_len utf8_len Domain.resolve Exec.observe Exec.announce
    Exec.after Domain.open_device Exec.acquire Exec.scope Exec.leave Domain.open_application
    Domain.require_login Exec.authorize State.authorize Auth.check State.grant State.new Auth.new
    Auth.grant insert get auth_key_beq Domain.open_container Exec.invoke Exec.or_fail Exec.respond
    Sign.sign_by_type Sign.sign_with_rsa Sign.type_or_rsa Fake.open_device Fake.open_application
    Fake.new_container Fake.begin Fake.began Fake.log pop_failure Fake.inject Fake.take_handle
    with_devices provider
sign_data_test = refl
