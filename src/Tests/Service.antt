-- ===== src/Tests/Service.antt =====
-- The service's own branches on the provider in memory, a connection, a start and a library without
-- functions.
use liuzx_skf.Session.Handles.Lifecycle.{IsValid, new-IsValid}
use liuzx_skf.Session.State.{SessionState}
use liuzx_skf.Session.State
use liuzx_skf.Session.Auth
use liuzx_skf.Protocol.{str, en, Language}
use liuzx_skf.Protocol.Params.{Params}
use liuzx_skf.Provider.Fake.{FakeInner, with_devices}
use liuzx_skf.Provider.Fake.Guards.{provider}
use liuzx_skf.Domain.{Context}
use liuzx_skf.Domain.Classification.{classify, classified_methods}
use liuzx_skf.Config.{SkfConfig}
use liuzx_skf.Config.Expansion.{Expands, expand_env_vars-Expands}
use liuzx_skf.Config.{expand_env_vars}
use liuzx_skf.Tests.Libraries.{empty_library}
use liuzx_skf.Native.Buffers.{parse_cstr_list, has_nul}
use liuzx_skf.Native.Buffers.Listing.{nul_list, parse_cstr_list-nul_list}
use liuzx_skf.Native.Guards.Missing
use liuzx_skf.Native.Guards.Missing.{missing_lem, Refusal}
use liuzx_skf.Service.{SkfContext}
use liuzx_skf.Service.Dispatch.{run_branch}
use liuzx_skf.Service.Dispatch
use liuzx_skf.Service.Ownership.{follow, owned}
use liuzx_skf.Service.Ownership.Settled.{follow-run_branch}
use liuzx_skf.Service.Requests.{route, unknown, own}
use liuzx_skf.Service.Requests.Classes.{route-classify}
use liuzx_skf.Service.Connection.{Connection, Answer, TaskEnd, died, connected, handle}
use liuzx_skf.Service.Connection.History.{Reached, opened, Ready, handle-Reached}
use liuzx_skf.Server.{Machine, ServerOptions, bind_with_progress}
use liuzx_skf.Server.Startup.{Ended, bind_with_progress_lem}
use liuzx_skf.Server.Admission.{serving, admit, max_connections, start, admit-Runs}
use liuzx_skf.Session.Handles
use liuzx_skf.Session.Registry
use liuzx_skf.Session.Registry.History.{
  Lives, none_yet, session_began, session_ended, session_count-Lives,
}
use liuzx_skf.Common.{
  ◌==◌, ok, err, length, replicate, Text, text_eq, text, text_beq, decimal, get, remove, ℕ, ◌+◌,
  ◌≤◌, ◌≡◌, refl, ◌↔◌, ◌⊎◌, false, Option, none, some, [], ◌∷◌, ◌++◌, map, arith,
}

abbrev domain_context : Context FakeInner
domain_context = record {
  default_alias = text "FAKE";
  resolve = λ alias w. (ok (provider (text "FAKE")), w);
  clock = λ w. w.slept;
  encode = λ bytes. bytes;
  decode = λ encoded. ok encoded;
  debug_duration = λ d. decimal d;
  to_uppercase = λ s. s;
  micros = λ w. w.slept;
  write_last_csr = λ pem w. w;
}

abbrev pub fake_config : SkfConfig
fake_config = record { default = text "FAKE"; vendor = []; allow_remote = none; libs = [] }

abbrev pub service : SkfContext FakeInner
service = record {
  context = domain_context;
  provider = provider (text "FAKE");
  config = fake_config;
  apis = λ w. [];
  keep_api = λ alias api w. w;
  load_library = λ path w. (err (text "no such file"), w);
  env = λ name. none;
  os = text "linux";
  arch = text "x86_64";
  version = text "0.3.0";
  utf8_lossy = λ bytes. bytes;
  debug_list = λ names. [];
  parse_certificate = λ der. none;
}

abbrev pub fake_token : FakeInner
fake_token = with_devices (text "FAKE") (text "dev" ∷ [])

abbrev pub fresh_session : SessionState
fresh_session = State.new (1 ∷ 2 ∷ []) 300

abbrev connect_request : Params
connect_request = record { values = str (text "dev") ∷ []; id = none }

follow-run_branch_example :
    IsValid
      (run_branch service Dispatch.connect_dev connect_request en fresh_session
        fake_token).session.handles
    × (follow
          (owned fresh_session.handles)
          (run_branch service Dispatch.connect_dev connect_request en fresh_session
            fake_token).trace
        ≡ some (
            owned
              (run_branch service Dispatch.connect_dev connect_request en fresh_session
                fake_token).session.handles))
unfolding State.new Handles.new
follow-run_branch_example =
    follow-run_branch service Dispatch.connect_dev connect_request en fresh_session fake_token
      (λ e. cc) (λ e. cc) (λ e. cc) tt new-IsValid (omega arith)

abbrev NoGrants : SessionState → Type 0
NoGrants s = s.auth.grants ≡ []

abbrev dying_task : SessionState → Language → TaskEnd
dying_task s lang = died (text "panic")

handle-Reached_example :
    (c' : Connection) × (a : Answer) × (handle fresh_session none dying_task false
        (connected fresh_session)
      ≡ some (c', a))
    × Ready NoGrants c'
    × Reached NoGrants c'
unfolding State.new Auth.new
handle-Reached_example =
    handle-Reached NoGrants (connected fresh_session) fresh_session none dying_task false
      (opened fresh_session refl) refl (λ s lang s' r lang' p h. cc)

abbrev no_env : Text → Option Text
no_env name = none

expand_env_vars-Expands_example :
    Expands no_env (text "%HOME%/lib") (expand_env_vars no_env (text "%HOME%/lib"))
expand_env_vars-Expands_example = expand_env_vars-Expands no_env (text "%HOME%/lib")

parse_cstr_list-nul_list_example :
    parse_cstr_list
      (λ bs. bs)
      ((nul_list ((b'a' ∷ b'b' ∷ []) ∷ (b'c' ∷ []) ∷ []) ++ replicate 1 0) ++ 7 ∷ [])
      (length (nul_list ((b'a' ∷ b'b' ∷ []) ∷ (b'c' ∷ []) ∷ []) ++ replicate 1 0))
    ≡ map (λ bs. bs) ((b'a' ∷ b'b' ∷ []) ∷ (b'c' ∷ []) ∷ [])
parse_cstr_list-nul_list_example =
    parse_cstr_list-nul_list (λ bs. bs) ((b'a' ∷ b'b' ∷ []) ∷ (b'c' ∷ []) ∷ []) 1 (7 ∷ [])
      (
        (omega arith, ((λ e. omega (arith, e)), ((λ e. omega (arith, e)), tt))),
        ((omega arith, ((λ e. omega (arith, e)), tt)), tt),
      )

route-classify_example :
    (route (text "Reboot") ≡ unknown)
    ⊎ ((text "Reboot" ≡ text "ImportKeyPair")
        × (route (text "Reboot") ≡ own Dispatch.import_key_pair))
unfolding classify classified_methods get text text_beq
route-classify_example = route-classify (text "Reboot") refl

admit-Runs_example :
    (serving.served ≤ max_connections)
    × (((admit serving).0 ≡ false) ↔ (serving.served ≡ max_connections))
admit-Runs_example = admit-Runs serving start

-- A machine whose addresses are numbers, 1 being its own, and which counts the sockets.
abbrev machine : Machine ℕ ℕ
machine = record {
  load = λ path. ok fake_config;
  env = no_env;
  os = text "linux";
  debug_list = λ names. [];
  parse_addr = λ s. ok 1;
  show_addr = λ a. decimal a;
  to_socket_addrs = λ s. ok (2 ∷ []);
  is_loopback = λ a. a == 1;
  build = λ config w. w;
  listen = λ a w. (ok (ok a), w + 1);
}

abbrev options : ServerOptions
options = record {
  config_path = text "config/skf.yaml";
  ws_addr = text "0.0.0.0:9001";
  http_addr = none;
}

bind_with_progress_lem_example :
    Ended machine none options 0 (bind_with_progress machine none options 0)
bind_with_progress_lem_example = bind_with_progress_lem machine none options 0

missing_lem_example :
    Refusal {W = ℕ} empty_library
      (λ bs. bs)
      (Missing.open_device (text "dev"))
      (record { vendor = 0; next_handle = 1; next_nested = 1000000 })
unfolding has_nul text
missing_lem_example =
    missing_lem {W = ℕ} empty_library (λ bs. bs) (Missing.open_device (text "dev"))
      (record { vendor = 0; next_handle = 1; next_nested = 1000000 }) (refl, refl)

abbrev first : Registry.SessionGuard × Registry.Registry
first = Registry.create (text "a") Registry.new

abbrev second : Registry.SessionGuard × Registry.Registry
second = Registry.create (text "b") first.1

abbrev first_left : Registry.Registry
first_left = Registry.drop_guard (record { id = text "a"; marker = first.0.marker }) second.1

-- Two sessions begin, and the first one ends.
history :
    Lives first_left
      (remove (text "a") ((text "b", second.0.marker) ∷ (text "a", first.0.marker) ∷ []))
unfolding get text text_beq
history =
    session_ended (text "a") first.0.marker second.1
      ((text "b", second.0.marker) ∷ (text "a", first.0.marker) ∷ [])
      (session_began (text "b") first.1 ((text "a", first.0.marker) ∷ [])
        (session_began (text "a") Registry.new [] none_yet refl) refl)
      refl

session_count-Lives_example :
    ((Registry.session_count first_left).0
      ≡ length (remove (text "a") ((text "b", second.0.marker) ∷ (text "a", first.0.marker) ∷ [])))
    × ((id : Text) (m : ℕ)
        → get id (remove (text "a") ((text "b", second.0.marker) ∷ (text "a", first.0.marker) ∷ []))
          ≡ some m
        → first_left.strong_count m ≡ 1)
session_count-Lives_example =
    session_count-Lives first_left
      (remove (text "a") ((text "b", second.0.marker) ∷ (text "a", first.0.marker) ∷ [])) history
