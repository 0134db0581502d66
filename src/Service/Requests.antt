-- ===== src/Service/Requests.antt =====
-- src/main.rs: `handle_request`. The parser of `serde_json` and the value of the variable that
-- restricts methods are arguments, and so is the handler of `IssueCertificate`, which is not modelled.
pub mod Classes
use liuzx_skf.Session.State.{SessionState}
use liuzx_skf.Protocol.{Json, RpcRequest, RpcResponse, respond_err, Language}
use liuzx_skf.Protocol.Params.{Params}
use liuzx_skf.Exec.{Handler, Reply, respond}
use liuzx_skf.Domain.Dispatch.{Method, method_of, run}
use liuzx_skf.Domain.Classification.{restricted_rejection}
use liuzx_skf.Config.{switched_on}
use liuzx_skf.Service.{SkfContext}
use liuzx_skf.Service.Queries.{set_language, current_api_version}
use liuzx_skf.Service.Dispatch.{Branch, own_branches, run_branch}
use liuzx_skf.Common.{
  ltb, if◌then◌else◌, Result, ok, err, negsuc, Text, ◌===◌, text_eq, text, decimal, get, not,
  Option, none, some, List, [], ◌∷◌, ◌++◌, arith,
}

-- `Params::new`
abbrev pub params_of : RpcRequest → Params
params_of req = record { values = req.params; id = req.id }

-- `requested > CURRENT_API_VERSION`, for a request that names a version
unfoldable pub version_rejection : RpcRequest → Option RpcResponse
version_rejection req = elim req.api_version [
  | none ↦ none
  | some requested ↦
      if ltb current_api_version requested
      then some (
          respond_err (negsuc 0)
            (text "Unsupported apiVersion "
              ++ decimal requested
              ++ text "; this service supports up to "
              ++ decimal current_api_version)
            req.id)
      else none
]

-- What a method's name stands for.
pub data Route : Type 0 where
  language : Route
  own : Branch → Route
  domain : Method → Route
  other unknown : Route

pub other_methods : List (Text × Unit {0})
other_methods = (text "IssueCertificate", tt) ∷ []

-- `match req.method.as_str() { … }`
unfoldable pub route : Text → Route
unfolding other_methods method_of own_branches
route name = if name === text "SetLanguage" then language else elim (get name own_branches) [
  | some b ↦ own b
  | none ↦ elim (method_of name) [
    | some m ↦ domain m
    | none ↦ elim (get name other_methods) [ some u ↦ other | none ↦ unknown ]
  ]
]

module _ {W : Type 0} (ctx : SkfContext W) (others : RpcRequest → Language → Handler W) where
  unfoldable pub run_route : RpcRequest → Language → Route → SessionState → W → Reply W × Language
  unfolding set_language
  run_route req lang language s w =
      let (r, lang') = set_language ctx (params_of req) lang in (respond r s w, lang')
  run_route req lang (own b) s w = (run_branch ctx b (params_of req) lang s w, lang)
  run_route req lang (domain m) s w = (run ctx.context m (params_of req) lang s w, lang)
  run_route req lang other s w = (others req lang s w, lang)
  run_route req lang unknown s w = (
    respond (respond_err (negsuc 2) (text "Method " ++ req.method ++ text " not found") req.id) s w,
    lang,
  )

  -- The answer that comes before the branches, if any: the version first, then the restriction.
  unfoldable pub early_rejection : Option Text → RpcRequest → Option RpcResponse
  unfolding version_rejection
  early_rejection restrict_env req = elim (version_rejection req) [
    | some r ↦ some r
    | none ↦ restricted_rejection req.method (switched_on restrict_env) req.id
  ]

  unfoldable pub handle_parsed :
      Option Text → Language → RpcRequest → SessionState → W → Reply W × Language
  unfolding run_route early_rejection route
  handle_parsed restrict_env lang req s w = elim (early_rejection restrict_env req) [
    | some r ↦ (respond r s w, lang)
    | none ↦ run_route req lang (route req.method) s w
  ]

  unfoldable pub handle_request :
      (Text → Result Text RpcRequest)
      → Option Text
      → Text
      → Language
      → SessionState
      → W
      → Reply W × Language
  unfolding handle_parsed
  handle_request parse restrict_env request lang s w = elim (parse request) [
    | err e ↦ (respond (respond_err (negsuc 0) (text "Invalid JSON: " ++ e) none) s w, lang)
    | ok req ↦ handle_parsed restrict_env lang req s w
  ]
