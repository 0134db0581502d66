-- ===== src/Server.antt =====
-- src/server/mod.rs and src/service_state.rs: how the server starts, and which connections it admits.
-- Addresses, the resolver, the file of the configuration, the provider factory and the socket are
-- arguments.
pub mod Startup
pub mod Status
pub mod Admission
use liuzx_skf.Config.{SkfConfig, allows_remote, resolve_lib_path}
use liuzx_skf.Common.{
  if◌then◌else◌, Result, ok, err, Text, text_eq, text, ℕ, Bool, true, ◌&&◌, not, Option, none, some,
  List, [], ◌∷◌, ◌++◌, arith,
}

pub data StartupStage : Type 0 where
  config provider bind serve : StartupStage

-- `as_str`
unfoldable pub as_str : StartupStage → Text
as_str config = text "config"
as_str provider = text "provider"
as_str bind = text "bind"
as_str serve = text "serve"

-- `exit_code`, with `EXIT_CONFIG`, `EXIT_PROVIDER`, `EXIT_BIND` and `EXIT_SERVE`
unfoldable pub exit_code : StartupStage → ℕ
exit_code config = 1
exit_code provider = 2
exit_code bind = 3
exit_code serve = 4

pub data StartupError : Type 0 where
  config_error provider_error bind_error : Text → StartupError

-- `stage`
unfoldable pub stage : StartupError → StartupStage
stage (config_error detail) = config
stage (provider_error detail) = provider
stage (bind_error detail) = bind

-- `Display`
unfoldable pub display : StartupError → Text
display (config_error detail) = text "configuration error: " ++ detail
display (provider_error detail) = text "provider resolution error: " ++ detail
display (bind_error detail) = text "bind error: " ++ detail

pub record ServerOptions : Type 0 where
  pub config_path : Text
  pub ws_addr : Text
  pub http_addr : Option Text

pub record BoundServer (A : Type 0) : Type 0 where
  pub ws_addr : A
  pub http_addr : Option A

-- What the machine around the server does, for addresses `A` and a state `W`.
pub record Machine (A W : Type 0) : Type 0 where
  pub load : Text → Result Text SkfConfig
  pub env : Text → Option Text
  pub os : Text
  pub debug_list : List Text → Text
  pub parse_addr : Text → Result Text A
  pub show_addr : A → Text
  pub to_socket_addrs : Text → Result Text (List A)
  pub is_loopback : A → Bool
  -- building the provider, which may load a library
  pub build : SkfConfig → W → W
  -- a listening socket, and the address that it got, which may not be readable
  pub listen : A → W → Result Text (Result Text A) × W

-- The outcome of a start: the stages that were reported, the result and the state.
pub record Started (A W : Type 0) : Type 0 where
  pub stages : List StartupStage
  pub result : Result StartupError (BoundServer A × SkfConfig)
  pub world : W

module _ {A W : Type 0} (m : Machine A W) where
  -- `resolve_bind_addr`
  unfoldable pub resolve_bind_addr : Text → Result Text A
  resolve_bind_addr addr = elim (m.to_socket_addrs addr) [
    | err e ↦ err (text "invalid WS address '" ++ addr ++ text "': " ++ e)
    | ok [] ↦ err (text "WS address '" ++ addr ++ text "' resolved to no address")
    | ok (a ∷ rest) ↦ ok a
  ]

  -- The stages up to one of them, and a failure.
  unfoldable pub failed : List StartupStage → StartupError → W → Started A W
  failed stages e w = record { stages = stages; result = err e; world = w }

  unfoldable pub listening :
      SkfConfig → Option A → A → Result Text (Result Text A) × W → Started A W
  unfolding failed
  listening cfg http_addr ws_socket (err e, w) =
      failed (config ∷ provider ∷ bind ∷ [])
        (bind_error
          (text "failed to bind WebSocket listener on " ++ m.show_addr ws_socket ++ text ": " ++ e))
        w
  listening cfg http_addr ws_socket (ok (err e), w) =
      failed (config ∷ provider ∷ bind ∷ [])
        (bind_error (text "failed to read bound WebSocket address: " ++ e)) w
  listening cfg http_addr ws_socket (ok (ok bound_ws), w) = record {
    stages = config ∷ provider ∷ bind ∷ [];
    result = ok (record { ws_addr = bound_ws; http_addr = http_addr }, cfg);
    world = w;
  }

  -- From the report of `Bind` on: an address that is not a loopback one is refused before the socket
  -- is opened, unless the operator opted in.
  unfoldable pub bind_socket : Option Text → ServerOptions → SkfConfig → Option A → W → Started A W
  unfolding resolve_bind_addr failed listening
  bind_socket remote_env opts cfg http_addr w = elim (resolve_bind_addr opts.ws_addr) [
    | err e ↦ failed (config ∷ provider ∷ bind ∷ []) (bind_error e) w
    | ok ws_socket ↦
        if not (m.is_loopback ws_socket) && not (allows_remote cfg remote_env)
        then failed (config ∷ provider ∷ bind ∷ [])
            (bind_error (
              text "refusing to bind WebSocket listener to non-loopback address "
              ++ m.show_addr ws_socket
              ++ text
                  " without explicit opt-in; set allow_remote: true in the config or SKF_ALLOW_REMOTE=1"))
            w
        else listening cfg http_addr ws_socket (m.listen ws_socket w)
  ]

  -- `opts.http_addr`, parsed: an error is one of the configuration.
  unfoldable pub parse_http : Option Text → Result StartupError (Option A)
  parse_http none = ok none
  parse_http (some addr) = elim (m.parse_addr addr) [
    | ok a ↦ ok (some a)
    | err e ↦ err (config_error (text "invalid HTTP address '" ++ addr ++ text "': " ++ e))
  ]

  -- `bind_with_progress`, with the value of `SKF_ALLOW_REMOTE`
  unfoldable pub bind_with_progress : Option Text → ServerOptions → W → Started A W
  unfolding bind_socket parse_http failed
  bind_with_progress remote_env opts w = elim (m.load opts.config_path) [
    | err e ↦ failed (config ∷ []) (config_error e) w
    | ok cfg ↦ elim (resolve_lib_path m.env m.debug_list cfg.libs cfg.default m.os) [
      | err e ↦ failed (config ∷ provider ∷ []) (provider_error e) w
      | ok path ↦ elim (parse_http opts.http_addr) [
        | err e ↦ failed (config ∷ provider ∷ []) e (m.build cfg w)
        | ok http_addr ↦ bind_socket remote_env opts cfg http_addr (m.build cfg w)
      ]
    ]
  ]
