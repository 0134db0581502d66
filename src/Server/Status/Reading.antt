-- ===== src/Server/Status/Reading.antt =====
-- The status file of src/service_state.rs is read back as it was written.
use liuzx_skf.Common.{
  if◌then◌else◌, Bool-cases, Text, Bytes, ◌===◌, text_eq, text_eq_iff, ===-refl, text, text_beq,
  get-insert, get-remove, get, insert, remove, ℕ, ◌^◌, ◌<◌, ◌≡◌, refl, sym, ap, ◌∙◌, ◌≢◌, ◌⊎◌, inl,
  inr, Bool, true, false, ◌||◌, not, Option, none, some, arith,
}
use liuzx_skf.Protocol.{Json, num, str, obj, Fields, end, as_str, as_u64}
use liuzx_skf.Logging.{Files, rename, exists}
use liuzx_skf.Server.{StartupStage, config, provider, bind, serve}
use liuzx_skf.Server
use liuzx_skf.Server.Status.{
  ServiceState, start_pending, running, failed, stopped, ServiceStatusFile, state_name, state_of,
  stage_of, optional, to_json, field_value, required, or_none, as_u32, from_json, rename_over,
  try_rename, write_atomic, read,
}

-- A `u32`.
abbrev pub IsU32 : Option ℕ → Type 0
IsU32 none = Unit
IsU32 (some n) = n < 2 ^ 32

state_of-name : (s : ServiceState) → state_of (str (state_name s)) ≡ some s
unfolding state_of state_name text text_beq
state_of-name start_pending = refl
state_of-name running = refl
state_of-name failed = refl
state_of-name stopped = refl

stage_of-name : (s : StartupStage) → stage_of (str (Server.as_str s)) ≡ some s
unfolding stage_of Server.as_str text text_beq
stage_of-name config = refl
stage_of-name provider = refl
stage_of-name bind = refl
stage_of-name serve = refl

module _ {A : Type 0} (f : A → Json) where
  unfoldable written : Option A → Option Json
  written none = none
  written (some a) = some (f a)

  -- The fields after the one of that name do not have it.
  passed :
      (k name : Text) (o : Option A) (rest : Fields) (r : Option (Option Json))
      → k === name ≡ false
      → field_value name rest ≡ r
      → field_value name (optional k f o rest) ≡ r
  unfolding field_value optional
  passed k name none rest r d h = h
  passed k name (some a) rest r d h = rw d h

  taken :
      (name : Text) (o : Option A) (rest : Fields)
      → field_value name rest ≡ some none
      → field_value name (optional name f o rest) ≡ some (written o)
  unfolding field_value optional written
  taken name none rest h = h
  taken name (some a) rest h = rw (===-refl name) (rw h refl)

or_none-str : (o : Option Text) → or_none as_str (some (written str o)) ≡ some o
unfolding or_none written as_str
or_none-str none = refl
or_none-str (some s) = refl

or_none-num : (o : Option ℕ) → IsU32 o → or_none as_u32 (some (written num o)) ≡ some o
unfolding or_none written as_u32 as_u64
or_none-num none h = refl
or_none-num (some n) h = ground (arith, h)

fields_of : ServiceStatusFile → Fields
unfolding to_json
fields_of value = body (to_json value)
  where
    body : Json → Fields
    body (obj fs) = fs
    body v = end

-- A file of which each field reads as it was written is the status.
from_json-fields :
    (value : ServiceStatusFile) (fs : Fields)
    → field_value (text "state") fs ≡ some (some (str (state_name value.state)))
    → field_value (text "stage") fs ≡ some (some (str (Server.as_str value.stage)))
    → field_value (text "code") fs ≡ some (written num value.code)
    → field_value (text "reason") fs ≡ some (written str value.reason)
    → field_value (text "pid") fs ≡ some (written num value.pid)
    → field_value (text "address") fs ≡ some (written str value.address)
    → field_value (text "updated") fs ≡ some (written str value.updated)
    → field_value (text "started_at") fs ≡ some (written str value.started_at)
    → IsU32 value.code
    → IsU32 value.pid
    → from_json (obj fs) ≡ some value
unfolding from_json required
from_json-fields value fs a b c d e f g h small_code small_pid =
    rw
      (
        a,
        state_of-name value.state,
        b,
        stage_of-name value.stage,
        c,
        or_none-num value.code small_code,
        d,
        or_none-str value.reason,
        e,
        or_none-num value.pid small_pid,
        f,
        or_none-str value.address,
        g,
        or_none-str value.updated,
        h,
        or_none-str value.started_at,
      )
      refl

abbrev options : ServiceStatusFile → Fields
options value = optional (text "code") num value.code (
    optional (text "reason") str value.reason (
      optional (text "pid") num value.pid (
        optional (text "address") str value.address (
          optional (text "updated") str value.updated
            (optional (text "started_at") str value.started_at end)))))

state_absent : (value : ServiceStatusFile) → field_value (text "state") (options value) ≡ some none
unfolding field_value text text_beq
state_absent value = search passed depth 20

stage_absent : (value : ServiceStatusFile) → field_value (text "stage") (options value) ≡ some none
unfolding field_value text text_beq
stage_absent value = search passed depth 20

from_json-to_json :
    (value : ServiceStatusFile)
    → IsU32 value.code
    → IsU32 value.pid
    → from_json (to_json value) ≡ some value
unfolding to_json field_value text text_beq
from_json-to_json value small_code small_pid =
    from_json-fields value _ (rw (state_absent value) refl) (rw (stage_absent value) refl)
      (search (passed, taken) depth 20) (search (passed, taken) depth 20)
      (search (passed, taken) depth 20) (search (passed, taken) depth 20)
      (search (passed, taken) depth 20) (search (passed, taken) depth 20) small_code small_pid

get-rename :
    (from to j : Text) (bytes : Bytes) (fs : Files)
    → get from fs ≡ some bytes
    → get j (rename from to fs)
      ≡ (if to === j then some bytes else if from === j then none else get j fs)
unfolding rename
get-rename from to j bytes fs h =
    ground (arith, h, get-insert to j bytes (remove from fs), get-remove from j fs)

module _ (tmp path : Text) (to_text : Json → Bytes) (from_text : Bytes → Option Json)
    (clobbers : Bool) (bytes : Bytes) (fs : Files) where
  there : (m : Files) → get tmp m ≡ some bytes → exists tmp m ≡ true
  unfolding exists
  there m h = ground (arith, h)

  try_rename_lem :
      (m : Files)
      → get tmp m ≡ some bytes
      → try_rename tmp to_text from_text clobbers path m
        ≡ (if clobbers || not (exists path m) then some (rename tmp path m) else none)
  unfolding try_rename
  try_rename_lem m h = rw (try_rename, there m h) refl

  exists-remove : clobbers || not (exists path (remove path fs)) ≡ true
  unfolding exists
  exists-remove = ground (arith, get-remove path path fs, ===-refl path)

  -- The rename goes through, once the file in its way is removed.
  rename_over-cases :
      path === tmp ≡ false
      → get tmp fs ≡ some bytes
      → (rename_over tmp to_text from_text clobbers path fs ≡ (true, rename tmp path fs))
        ⊎ (rename_over tmp to_text from_text clobbers path fs
            ≡ (true, rename tmp path (remove path fs)))
  unfolding rename_over
  rename_over-cases apart h =
      let cleared = get-remove path tmp fs ∙ rw apart h in
      elim (Bool-cases (clobbers || not (exists path fs))) [
        | inl c ↦ inl (rw (rename_over, try_rename_lem fs h, c) refl)
        | inr c ↦ inr (
            rw
              (
                rename_over,
                try_rename_lem fs h,
                c,
                try_rename_lem (remove path fs) cleared,
                exists-remove,
              )
              refl)
      ]

  get-rename_over :
      (j : Text)
      → path === tmp ≡ false
      → get tmp fs ≡ some bytes
      → ((rename_over tmp to_text from_text clobbers path fs).0 ≡ true)
        × (get j (rename_over tmp to_text from_text clobbers path fs).1
            ≡ (if path === j then some bytes else if tmp === j then none else get j fs))
  get-rename_over j apart h = elim (rename_over-cases apart h) [
    | inl e ↦ (ap (λ r. r.0) e, ap (λ r. get j r.1) e ∙ get-rename tmp path j bytes fs h)
    | inr e ↦ (
      ap (λ r. r.0) e,
      ap (λ r. get j r.1) e
          ∙ get-rename tmp path j bytes (remove path fs) (get-remove path tmp fs ∙ rw apart h)
          ∙ ground (arith, get-remove path j fs),
    )
  ]

-- A status that is written can be read: `write_atomic` returns `Ok`, and then the file holds the
-- status, whether the rename replaces a file or fails until that file is removed; the file that was
-- renamed is gone, and every other file is as before. This is for the two paths different, exit
-- codes and process numbers of 32 bits, and a parser that reads the text of this value back.
pub read-write_atomic :
    (tmp : Text) (to_text : Json → Bytes) (from_text : Bytes → Option Json) (clobbers : Bool)
    (path : Text) (value : ServiceStatusFile) (fs : Files)
    → tmp ≢ path
    → IsU32 value.code
    → IsU32 value.pid
    → from_text (to_text (to_json value)) ≡ some (to_json value)
    → ((write_atomic tmp to_text from_text clobbers path value fs).0 ≡ true)
      × (read tmp to_text from_text path
            (write_atomic tmp to_text from_text clobbers path value fs).1
          ≡ some value)
      × (get tmp (write_atomic tmp to_text from_text clobbers path value fs).1 ≡ none)
      × ((other : Text)
          → other ≢ tmp
          → other ≢ path
          → get other (write_atomic tmp to_text from_text clobbers path value fs).1 ≡ get other fs)
unfolding read write_atomic
read-write_atomic tmp to_text from_text clobbers path value fs apart small_code small_pid parsed = (
  (at path).0,
  rw ((at path).1) (rw (===-refl path) (rw parsed (from_json-to_json value small_code small_pid))),
  (at tmp).1 ∙ ground (arith, differ, ===-refl tmp),
  λ other n m.
      (at other).1
      ∙ ground (
        arith,
        text_eq_iff path other,
        text_eq_iff tmp other,
        get-insert tmp other bytes fs,
        λ (p : path ≡ other). m (sym p),
        λ (p : tmp ≡ other). n (sym p),
      ),
)
  where
    bytes : Bytes
    bytes = to_text (to_json value)

    differ : path === tmp ≡ false
    differ = ground (arith, text_eq_iff path tmp, λ (p : path ≡ tmp). apart (sym p))

    at :
        (j : Text)
        → ((write_atomic tmp to_text from_text clobbers path value fs).0 ≡ true)
          × (get j (write_atomic tmp to_text from_text clobbers path value fs).1 ≡ (
              if path === j
              then some bytes
              else if tmp === j
              then none
              else get j (insert tmp bytes fs)))
    at j =
        get-rename_over tmp path to_text from_text clobbers bytes (insert tmp bytes fs) j differ
          (get-insert tmp tmp bytes fs ∙ rw (===-refl tmp) refl)
