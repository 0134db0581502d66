-- ===== src/Server/Status.antt =====
-- src/service_state.rs: the status file of the service. A file system is the map of its files;
-- writing succeeds, and whether a rename replaces a file that is there is an argument. Of
-- `serde_json` only the text of a value is an argument.
pub mod Phases
pub mod Reading
use liuzx_skf.Common.{
  ltb, leb, ◌==◌, if◌then◌else◌, ==_iff, Bool-cases, Option-cases, Result, Result-cases, is_ok, ok,
  err, length, get_elem?, take, drop, replicate, length-append, length-take, length-drop,
  length-replicate, All, All-append, ℤ, as_i32, pos, negsuc, Text, Bytes, Lacks, Eq, ◌===◌, text_eq,
  text_eq_iff, ===-refl, split_once-join, split_once-Lacks, append-split_once, split-Lacks,
  split-join, text, text_beq, split_once, splitn, trim, trim_start, is_whitespace, split,
  decimal-injective, decimal-Lacks, decimal, hex8, hex_upper, get-insert, get-remove, get-retain,
  IsMap, insert-IsMap, remove-IsMap, retain-IsMap, remove_absent, length-insert_absent,
  length-remove, get, insert, remove, retain, ℕ, zero, suc, ◌+◌, ◌-◌, ◌*◌, ◌/◌, ◌%◌, ◌^◌, ◌≤◌, ◌<◌,
  String, ◌≡◌, refl, sym, ap, subst, ◌∙◌, ◌≡⟨◌⟩◌, ◌∎, fun_ext, ◌≢◌, ◌↔◌, ◌⊎◌, inl, inr, Bool, true,
  false, ◌&&◌, ◌||◌, not, Option, none, some, List, [], ◌∷◌, ◌++◌, map, append-nil, append_assoc,
  arith,
}
use liuzx_skf.Protocol.{Json, null, num, str, obj, Fields, end, field, as_str, as_u64}
use liuzx_skf.Logging.{Files, rename, exists}
use liuzx_skf.Server.{StartupStage, config, provider, bind, serve}
use liuzx_skf.Server

infixl 5 ◌>>=◌
abbrev ◌>>=◌ : {A B : Type 0} → Option A → (A → Option B) → Option B
none >>= k = none
some a >>= k = k a

pub data ServiceState : Type 0 where
  start_pending running failed stopped : ServiceState

pub record ServiceStatusFile : Type 0 where
  pub state : ServiceState
  pub stage : StartupStage
  pub code : Option ℕ
  pub reason : Option Text
  pub pid : Option ℕ
  pub address : Option Text
  pub updated : Option Text
  pub started_at : Option Text

-- `#[serde(rename_all = "snake_case")]`
unfoldable pub state_name : ServiceState → Text
state_name start_pending = text "start_pending"
state_name running = text "running"
state_name failed = text "failed"
state_name stopped = text "stopped"

unfoldable pub state_of : Json → Option ServiceState
state_of (str s) =
    if s === text "start_pending"
    then some start_pending
    else if s === text "running"
    then some running
    else if s === text "failed"
    then some failed
    else if s === text "stopped"
    then some stopped
    else none
state_of _ = none

unfoldable pub stage_of : Json → Option StartupStage
stage_of (str s) =
    if s === text "config"
    then some config
    else if s === text "provider"
    then some provider
    else if s === text "bind"
    then some bind
    else if s === text "serve"
    then some serve
    else none
stage_of _ = none

-- `skip_serializing_if = "Option::is_none"`
unfoldable pub optional : {A : Type 0} → Text → (A → Json) → Option A → Fields → Fields
optional name to_json none rest = rest
optional name to_json (some a) rest = field name (to_json a) rest

-- `Serialize`
unfoldable pub to_json : ServiceStatusFile → Json
unfolding optional state_name Server.as_str
to_json value = obj (
    field (text "state") (str (state_name value.state)) (
      field (text "stage") (str (Server.as_str value.stage)) (
        optional (text "code") num value.code (
          optional (text "reason") str value.reason (
            optional (text "pid") num value.pid (
              optional (text "address") str value.address (
                optional (text "updated") str value.updated
                  (optional (text "started_at") str value.started_at end))))))))

-- The value of a field, if it is there; a field that is there twice is an error.
unfoldable pub field_value : Text → Fields → Option (Option Json)
field_value name end = some none
field_value name (field k v rest) =
    let later = field_value name rest in if k === name then once v later else later
  where
    once : Json → Option (Option Json) → Option (Option Json)
    once v (some none) = some (some v)
    once v _ = none

unfoldable pub required : {A : Type 0} → (Json → Option A) → Option (Option Json) → Option A
required of_json (some (some v)) = of_json v
required of_json _ = none

-- A field that is not there is `None`, and so is `null`.
unfoldable pub or_none : {A : Type 0} → (Json → Option A) → Option (Option Json) → Option (Option A)
or_none of_json none = none
or_none of_json (some none) = some none
or_none of_json (some (some null)) = some none
or_none of_json (some (some v)) = elim (of_json v) [ none ↦ none | some a ↦ some (some a) ]

unfoldable pub as_u32 : Json → Option ℕ
unfolding as_u64
as_u32 v = elim (as_u64 v) [ none ↦ none | some n ↦ if ltb n (2 ^ 32) then some n else none ]

-- `Deserialize`; other fields are passed by.
unfoldable pub from_json : Json → Option ServiceStatusFile
unfolding field_value required or_none state_of stage_of as_u32 as_str
from_json (obj fs) = do
  state ← required state_of (field_value (text "state") fs)
  stage ← required stage_of (field_value (text "stage") fs)
  code ← or_none as_u32 (field_value (text "code") fs)
  reason ← or_none as_str (field_value (text "reason") fs)
  pid ← or_none as_u32 (field_value (text "pid") fs)
  address ← or_none as_str (field_value (text "address") fs)
  updated ← or_none as_str (field_value (text "updated") fs)
  started_at ← or_none as_str (field_value (text "started_at") fs)
  some (record {
    state = state;
    stage = stage;
    code = code;
    reason = reason;
    pid = pid;
    address = address;
    updated = updated;
    started_at = started_at;
  })
from_json _ = none

module _ (tmp : Text) (to_text : Json → Bytes) (from_text : Bytes → Option Json) where
  -- `std::fs::rename(&tmp, path)`, which fails without a file to rename, and on a file that is there
  -- unless it clobbers.
  unfoldable pub try_rename : Bool → Text → Files → Option Files
  unfolding rename exists
  try_rename clobbers path fs =
      if exists tmp fs && (clobbers || not (exists path fs))
      then some (rename tmp path fs)
      else none

  -- `match std::fs::rename(&tmp, path)`
  unfoldable pub rename_over : Bool → Text → Files → Bool × Files
  unfolding try_rename
  rename_over clobbers path fs = elim (try_rename clobbers path fs) [
    | some renamed ↦ (true, renamed)
    | none ↦
        let cleared = remove path fs in
        elim (try_rename clobbers path cleared) [
          | some renamed ↦ (true, renamed)
          | none ↦ (false, cleared)
        ]
  ]

  -- `write_atomic`, of which `tmp` is `path.with_extension("json.tmp")`, and whether it returns `Ok`
  unfoldable pub write_atomic : Bool → Text → ServiceStatusFile → Files → Bool × Files
  unfolding rename_over to_json
  write_atomic clobbers path value fs =
      rename_over clobbers path (insert tmp (to_text (to_json value)) fs)

  unfoldable pub read : Text → Files → Option ServiceStatusFile
  unfolding from_json
  read path fs = do bytes ← get path fs; value ← from_text bytes; from_json value
