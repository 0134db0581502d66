-- ===== src/Service/Raw.antt =====
-- src/main.rs: the branches that call a vendor's library without guards. They close what they open
-- by hand, and a panic between leaves it open. A native handle is the resource of that number.
pub mod Certificates
pub mod Devices
pub mod KeyPairs
pub mod Lists
pub mod Verify
use liuzx_skf.Session.Handles.{ResourceKind, device}
use liuzx_skf.Protocol.{Json, RpcResponse, respond_err, Language, localized}
use liuzx_skf.Protocol.Params.{Params, value_at, unwrap_or}
use liuzx_skf.Provider.{Operation}
use liuzx_skf.Config.{SkfConfig, raw_path, expand_env_vars, resolve_lib_path}
use liuzx_skf.Native.{Library, Native, sar_ok}
use liuzx_skf.Native.Api
use liuzx_skf.Native.Buffers.{has_nul}
use liuzx_skf.Exec.{
  Resource, Event, opened, closed, called, Handler, Step, ◌>>=◌, ◌>>◌, after, respond, or_panic,
  observe,
}
use liuzx_skf.Domain.{load_failed, failed, note_device_unavailable}
use liuzx_skf.Service.{SkfContext}
use liuzx_skf.Common.{
  ◌==◌, if◌then◌else◌, Result, ok, err, as_i32, negsuc, Text, ◌===◌, text_eq, text, get, ℕ, ◌||◌,
  not, Option, none, some, List, [], ◌∷◌, ◌++◌, map, arith,
}

abbrev pub native_handle : ResourceKind → ℕ → Resource
native_handle kind raw = record { kind = kind; value = raw }

-- `std::ffi::CString::new(value).unwrap()`
unfoldable pub c_string : {W : Type 0} → Text → Step W Text
unfolding has_nul or_panic
c_string value = or_panic (if has_nul value then none else some value)

-- `String::from_utf8_lossy` and the like apart, the answer to a code that is not `SAR_OK`.
abbrev pub native_err : ℕ → Text → Option Json → RpcResponse
native_err ret msg id = respond_err (as_i32 ret) msg id

module _ {W : Type 0} where
  -- A call that opens a native handle: `fail` is the branch that takes its code.
  unfoldable pub opened_or :
      ResourceKind → Text → (ℕ → Handler W) → (ℕ → Handler W) → ℕ × ℕ → Handler W
  unfolding after
  opened_or kind name fail k (ret, raw) s w =
      let done = after (opened (native_handle kind raw) name ∷ []) (k raw s w) in
      let failed = fail ret s w in if ret == sar_ok then done else failed

  unfoldable pub raw_open :
      List Event → ResourceKind → Text → Native W ℕ → (ℕ → Handler W) → Step W ℕ
  unfolding opened_or after
  raw_open es kind name call fail k s w =
      let (r, w') = call w in after es (opened_or kind name fail k r s w')

  -- A call on a native handle.
  unfoldable pub raw_call : {A : Type 0} → Resource → Operation → Native W A → Step W (ℕ × A)
  unfolding after
  raw_call r op call k s w = let (a, w') = call w in after (called r op ∷ []) (k a s w')

  -- A call that closes a native handle; its code is not read.
  unfoldable pub raw_close : Resource → Native W (Unit {0}) → Step W (Unit {0})
  unfolding after
  raw_close r call k s w = after (closed r ∷ []) (k tt s (call w).1)

module _ {W : Type 0} (ctx : SkfContext W) where
  abbrev pub not_configured : Text → Text
  not_configured provider =
      text "Provider '"
      ++ provider
      ++ text "' not configured for OS '"
      ++ ctx.os
      ++ text "'. Avail Provs: "
      ++ ctx.debug_list (map (λ e. e.0) ctx.config.libs)
      ++ text ". Avail OS for "
      ++ provider
      ++ text ": "
      ++ elim (get provider ctx.config.libs) [
        | some m ↦ ctx.debug_list (map (λ e. e.0) m)
        | none ↦ text "None"
      ]

  -- `get_api`: the library that is loaded for the alias, or else the configured one.
  unfoldable pub get_api : Text → W → Result Text (Library W) × W
  unfolding raw_path expand_env_vars
  get_api provider w = elim (get provider (ctx.apis w)) [
    | some api ↦ (ok api, w)
    | none ↦ elim (raw_path ctx.env ctx.config.libs provider ctx.os) [
      | none ↦ (err (not_configured provider), w)
      | some raw ↦
          loaded provider (expand_env_vars ctx.env raw)
            (ctx.load_library (expand_env_vars ctx.env raw) w)
    ]
  ]
    where
      loaded : Text → Text → Result Text (Library W) × W → Result Text (Library W) × W
      loaded provider lib_path (ok api, w) = (ok api, ctx.keep_api provider api w)
      loaded provider lib_path (err e, w) = (
        err (
            text "Failed to load library '"
            ++ lib_path
            ++ text "' (process architecture: "
            ++ ctx.arch
            ++ text "): "
            ++ e),
        w,
      )

  unfoldable pub api_or :
      {A : Type 0} → (Text → Handler W) → (A → Handler W) → Result Text A → Handler W
  api_or fail k (ok api) = k api
  api_or fail k (err e) = fail e

  -- `match ctx.get_api(provider) { Ok(a) => a, Err(e) => return … }`
  unfoldable pub with_api : (Text → RpcResponse) → Text → Step W (Library W)
  unfolding get_api api_or respond observe
  with_api fail provider k = observe (get_api provider) (api_or (λ e. respond (fail e)) k)

  -- The library of `LockDev` and its like: loaded anew, and a library that does not load panics.
  unfoldable pub with_new_api : (Text → RpcResponse) → Text → Step W (Library W)
  unfolding api_or respond observe or_panic
  with_new_api fail provider k =
      api_or (λ e. respond (fail e))
        (λ lib_path. observe (ctx.load_library lib_path) (λ r. or_panic (loaded_or_none r) k))
        (resolve_lib_path ctx.env ctx.debug_list ctx.config.libs provider ctx.os)
    where
      loaded_or_none : Result Text (Library W) → Option (Library W)
      loaded_or_none (ok api) = some api
      loaded_or_none (err e) = none

  -- The load failure of `LockDev` and its like, with the code -1.
  abbrev pub load_failed_minus_one : Language → Option Json → Text → RpcResponse
  load_failed_minus_one lang id e =
      respond_err (negsuc 0) (localized lang (text "加载库失败: " ++ e) (text "Load Lib Failed: " ++ e))
        id

  -- `api.connect_dev(c_dev.into_raw(), &mut h_dev)`, and the loss of the grants when it fails
  unfoldable pub connect : Option Json → Text → Text → Library W → Step W ℕ
  unfolding c_string raw_open note_device_unavailable
  connect id provider dev_name api k = do
    c_dev ← c_string dev_name
    h_dev ← raw_open [] device dev_name (Api.connect_dev api c_dev 0) (λ ret. do
      note_device_unavailable ctx.context provider dev_name
      respond (native_err ret (failed (text "ConnectDev") ret) id))
    k h_dev

  -- `api.dis_connect_dev(h_dev)`
  unfoldable pub disconnect_raw : Library W → ℕ → Step W (Unit {0})
  unfolding raw_close
  disconnect_raw api h_dev k =
      raw_close (native_handle device h_dev) (Api.dis_connect_dev api h_dev) k

  -- The alias of `GetDevInfo` and its like: absent, empty and `default` are the default one.
  abbrev pub alias_or_default : Text → Text
  alias_or_default prov_param =
      if prov_param === [] || prov_param === text "default" then ctx.config.default else prov_param
