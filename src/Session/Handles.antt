-- ===== src/Session/Handles.antt =====
-- src/session/handles.rs: the handles that one session has issued for native resources. A guard
-- is what the provider handed out, of a type for each kind of resource.
pub mod Kinds
pub mod Ownership
pub mod Lifecycle
pub mod Access
pub mod History
pub mod Reached
use liuzx_skf.Common.{
  if◌then◌else◌, Result, ok, err, length, Text, ◌===◌, text_eq, text, split_once, decimal, get,
  insert, remove, ℕ, ◌+◌, ◌%◌, ◌^◌, Bool, true, false, Option, none, some, List, [], ◌∷◌, ◌++◌,
}

pub data HandleError : Type 0 where
  unknown wrong_kind : HandleError

pub data ResourceKind : Type 0 where
  device application container digest : ResourceKind

-- `ResourceKind::prefix`
unfoldable pub prefix : ResourceKind → Text
prefix device = text "dev"
prefix application = text "app"
prefix container = text "cnt"
prefix digest = text "hsh"

-- `ResourceKind::prefix_of`
unfoldable pub prefix_of : Text → Option Text
prefix_of handle = elim (split_once b'-' handle) [ none ↦ none | some (p, rest) ↦ some p ]

-- `ResourceKind::from_prefix`
unfoldable pub from_prefix : Text → Option ResourceKind
from_prefix p =
    if p === text "dev"
    then some device
    else if p === text "app"
    then some application
    else if p === text "cnt"
    then some container
    else if p === text "hsh"
    then some digest
    else none

-- `kind == expected`
unfoldable pub kind_beq : ResourceKind → ResourceKind → Bool
kind_beq device device = true
kind_beq application application = true
kind_beq container container = true
kind_beq digest digest = true
kind_beq _ _ = false

-- `HandleTable::check`, which reads nothing of the table
unfoldable pub check : Text → ResourceKind → Result HandleError (Unit {0})
unfolding prefix_of from_prefix
check handle expected = elim (prefix_of handle) [
  | some p ↦ elim (from_prefix p) [
    | some kind ↦ if kind_beq kind expected then ok tt else err wrong_kind
    | none ↦ err wrong_kind
  ]
  | none ↦ err wrong_kind
]

pub record HandleTable (Guard : ResourceKind → Type 0) : Type 0 where
  pub next_id : ℕ
  pub devices : List (Text × Guard device)
  pub applications : List (Text × Guard application)
  pub containers : List (Text × Guard container)
  pub digests : List (Text × Guard digest)

-- The lookup and the removal that the accessors of the four kinds share.
unfoldable pub find_in : {G : Type 0} → ResourceKind → Text → List (Text × G) → Result HandleError G
find_in kind handle m = elim (check handle kind) [
  | err e ↦ err e
  | ok u ↦ elim (get handle m) [ none ↦ err unknown | some g ↦ ok g ]
]

module _ {Guard : ResourceKind → Type 0} where
  unfoldable pub new : HandleTable Guard
  new = record { next_id = 0; devices = []; applications = []; containers = []; digests = [] }

  -- `HandleTable::mint`; the counter is a `u64`.
  unfoldable pub mint : ResourceKind → HandleTable Guard → Text × HandleTable Guard
  mint kind t =
      let id = (t.next_id + 1) % 2 ^ 64 in
      (prefix kind ++ b'-' ∷ decimal id, record t { next_id = id })

  -- `issue_device`, `issue_application`, `issue_container`, `issue_digest`
  unfoldable pub issue :
      (kind : ResourceKind) → Guard kind → HandleTable Guard → Text × HandleTable Guard
  unfolding mint
  issue device g t =
      let (handle, t') = mint device t in
      (handle, record t' { devices = insert handle g t'.devices })
  issue application g t =
      let (handle, t') = mint application t in
      (handle, record t' { applications = insert handle g t'.applications })
  issue container g t =
      let (handle, t') = mint container t in
      (handle, record t' { containers = insert handle g t'.containers })
  issue digest g t =
      let (handle, t') = mint digest t in
      (handle, record t' { digests = insert handle g t'.digests })

  -- `device`, `application`, `container`, `digest`
  unfoldable pub find :
      (kind : ResourceKind) → Text → HandleTable Guard → Result HandleError (Guard kind)
  unfolding find_in
  find device handle t = find_in device handle t.devices
  find application handle t = find_in application handle t.applications
  find container handle t = find_in container handle t.containers
  find digest handle t = find_in digest handle t.digests

  -- `remove_device`, `remove_application`, `remove_container`, `remove_digest`
  unfoldable pub remove_handle :
      (kind : ResourceKind)
      → Text
      → HandleTable Guard
      → Result HandleError (Guard kind) × HandleTable Guard
  unfolding find_in
  remove_handle device handle t = elim (find_in device handle t.devices) [
    | err e ↦ (err e, t)
    | ok g ↦ (ok g, record t { devices = remove handle t.devices })
  ]
  remove_handle application handle t = elim (find_in application handle t.applications) [
    | err e ↦ (err e, t)
    | ok g ↦ (ok g, record t { applications = remove handle t.applications })
  ]
  remove_handle container handle t = elim (find_in container handle t.containers) [
    | err e ↦ (err e, t)
    | ok g ↦ (ok g, record t { containers = remove handle t.containers })
  ]
  remove_handle digest handle t = elim (find_in digest handle t.digests) [
    | err e ↦ (err e, t)
    | ok g ↦ (ok g, record t { digests = remove handle t.digests })
  ]

  -- `HandleTable::len`
  unfoldable pub len : HandleTable Guard → ℕ
  len t = length t.devices + length t.applications + length t.containers + length t.digests
