-- ===== src/Exec.antt =====
-- How a request handler runs: it passes the session and the provider's state on, returns early,
-- and drops its guards when their scope ends, the last one first, whichever way the scope is left.
-- A handler also says what it did, as a list of events. A step of a handler is given the rest of
-- the handler, so that the rest is the scope of the guard that the step opens; `x ← e` in a `do`
-- block binds what the step `e` hands to the rest.
pub mod Release
pub mod Login
pub mod Grants
use liuzx_skf.Session.Auth.{AuthKey, AuthRejection}
use liuzx_skf.Session.Handles.{ResourceKind, device, application, container, digest, kind_beq}
use liuzx_skf.Session.State.{SessionState}
use liuzx_skf.Session.State
use liuzx_skf.Protocol.{RpcResponse}
use liuzx_skf.Provider.{
  Provider, ProviderError, Operation, Call, DeviceHandle, AppHandle, ContainerHandle, DigestHandle,
  EccPublicKey, create_container,
}
use liuzx_skf.Common.{
  ◌==◌, Result, is_ok, ok, err, Text, text_eq, ℕ, Bool, ◌&&◌, Option, none, some, List, [], ◌∷◌,
  ◌++◌, arith,
}

pub record Resource : Type 0 where
  pub kind : ResourceKind
  pub value : ℕ

pub data Event : Type 0 where
  -- the provider of that alias was found
  resolved : Text → Event
  -- a guard was made for the resource of that name, and dropped
  opened : Resource → Text → Event
  closed : Resource → Event
  -- an operation was called on a guard
  called : Resource → Operation → Event
  -- the session was asked for an authorization, and whether it had one
  checked : AuthKey → Bool → Event

-- How a handler ends: with its answer, or by a panic, which also drops the guards in scope.
pub data Outcome : Type 0 where
  answered : RpcResponse → Outcome
  panicked : Outcome

pub record Reply (W : Type 0) : Type 0 where
  pub outcome : Outcome
  pub session : SessionState
  pub trace : List Event
  pub world : W

abbrev pub Handler : Type 0 → Type 0
Handler W = SessionState → W → Reply W

abbrev pub Step : Type 0 → Type 0 → Type 0
Step W A = (A → Handler W) → Handler W

infixl 5 ◌>>=◌ ◌>>◌
abbrev pub ◌>>=◌ : {W A : Type 0} → Step W A → (A → Handler W) → Handler W
m >>= k = m k

abbrev pub ◌>>◌ : {W : Type 0} → Step W (Unit {0}) → Handler W → Handler W
m >> k = m (λ u. k)

module _ {W : Type 0} where
  -- `return response`
  unfoldable pub respond : RpcResponse → Handler W
  respond r s w = record { outcome = answered r; session = s; trace = []; world = w }

  unfoldable pub panic : Handler W
  panic s w = record { outcome = panicked; session = s; trace = []; world = w }

  -- What happened before the rest of the handler.
  unfoldable pub after : List Event → Reply W → Reply W
  after es r = record r { trace = es ++ r.trace }

  -- `match r { Ok(v) => v, Err(e) => return e }`
  unfoldable pub or_return : {A : Type 0} → Result RpcResponse A → Step W A
  unfolding respond
  or_return (ok a) k = k a
  or_return (err r) k = respond r

  -- A value that the source takes without looking, and panics if there is none.
  unfoldable pub or_panic : {A : Type 0} → Option A → Step W A
  unfolding panic
  or_panic none k = panic
  or_panic (some a) k = k a

  -- A scope ends: its guard is dropped.
  unfoldable pub leave : Resource → Text → (W → W) → Reply W → Reply W
  leave r name close reply = record reply {
    trace = opened r name ∷ (reply.trace ++ closed r ∷ []);
    world = close reply.world;
  }

  unfoldable pub scope :
      {A : Type 0}
      → (A → Resource)
      → Text
      → (A → W → W)
      → (ProviderError → Handler W)
      → (A → Handler W)
      → Result ProviderError A
      → Handler W
  unfolding leave
  scope resource name close fail k (err e) s w = fail e s w
  scope resource name close fail k (ok a) s w = leave (resource a) name (close a) (k a s w)

  -- A call that makes a guard, with the events of the call itself: `fail` is the handler's answer
  -- to its error.
  unfoldable pub acquire :
      {A : Type 0}
      → List Event
      → (A → Resource)
      → Text
      → (A → W → W)
      → Call W A
      → (ProviderError → Handler W)
      → Step W A
  unfolding scope after
  acquire es resource name close call fail k s w =
      let (r, w') = call w in after es (scope resource name close fail k r s w')

  -- A call on a guard. The handler goes on with its result, error or not.
  unfoldable pub invoke :
      {A : Type 0} → Resource → Operation → Call W A → Step W (Result ProviderError A)
  unfolding after
  invoke r op call k s w = let (a, w') = call w in after (called r op ∷ []) (k a s w')

  -- `match call { Ok(v) => v, Err(e) => return … }`
  unfoldable pub or_fail :
      {A : Type 0} → (ProviderError → Handler W) → Result ProviderError A → Step W A
  or_fail fail (ok a) k = k a
  or_fail fail (err e) k = fail e

  -- `state.authorize(key)`, at the time that the clock shows
  unfoldable pub authorize : (W → ℕ) → AuthKey → Step W (Result AuthRejection (Unit {0}))
  unfolding after
  authorize clock key k s w =
      let (r, s') = State.authorize (clock w) key s in after (checked key (is_ok r) ∷ []) (k r s' w)

  -- A call that is no guard's: it reads and changes the state only.
  unfoldable pub observe : {A : Type 0} → (W → A × W) → Step W A
  observe f k s w = let (a, w') = f w in k a s w'

  unfoldable pub announce : Event → Handler W → Handler W
  unfolding after
  announce e h s w = after (e ∷ []) (h s w)

  -- A change of the session.
  unfoldable pub update_session : (W → SessionState → SessionState) → Step W (Unit {0})
  update_session f k s w = k tt (f w s) w

abbrev pub device_resource : DeviceHandle → Resource
device_resource d = record { kind = device; value = d.value }

abbrev pub app_resource : AppHandle → Resource
app_resource a = record { kind = application; value = a.value }

abbrev pub container_resource : ContainerHandle → Resource
container_resource c = record { kind = container; value = c.value }

abbrev pub digest_resource : DigestHandle → Resource
digest_resource d = record { kind = digest; value = d.value }

unfoldable pub resource_beq : Resource → Resource → Bool
resource_beq a b = kind_beq a.kind b.kind && a.value == b.value
