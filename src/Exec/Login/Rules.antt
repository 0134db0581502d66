-- ===== src/Exec/Login/Rules.antt =====
-- The audit of a handler, step by step.
use liuzx_skf.Common.{
  if◌then◌else◌, Bool-cases, Result, is_ok, ok, err, Text, text_eq, get-remove, ℕ, ◌≡◌, refl, inl,
  inr, Bool, true, false, ◌&&◌, ◌||◌, not, Option, none, some, [], ◌∷◌, arith,
}
use liuzx_skf.Exec.{
  Resource, called, resolved, Handler, respond, or_return, or_panic, scope, invoke, or_fail,
  authorize, observe, announce, update_session, acquire,
}
use liuzx_skf.Exec.Login.{
  Stage, audit, audit-closed, entered, may_open, permitted, matches, at_alias, Below, Guarded,
}
use liuzx_skf.Session.Auth.{AuthKey, AuthRejection, deadline, check, auth_key_eq}
use liuzx_skf.Session.Auth.Expiry.{deadline-invalidate_device, check-deadline}
use liuzx_skf.Session.State.{SessionState}
use liuzx_skf.Session.State
use liuzx_skf.Protocol.{RpcResponse}
use liuzx_skf.Provider.{ProviderError, Operation, Call}

module _ (allowed : AuthKey → Bool) where
  -- No operation but a grant makes the session hold more.
  check-Below :
      (now : ℕ) (key : AuthKey) (s : SessionState)
      → Below allowed s
      → Below allowed (State.authorize now key s).1
  unfolding State.authorize check deadline
  check-Below now key s b j h = ground (arith, get-remove key j s.auth.grants, b j h)

  invalidate-Below :
      (prov dev : Text) (s : SessionState)
      → Below allowed s
      → Below allowed (State.invalidate_device prov dev s).1
  unfolding State.invalidate_device
  invalidate-Below prov dev s b j h =
      ground (arith, deadline-invalidate_device prov dev j s.auth, b j h)

  -- What the session accepts, it held.
  authorize-allowed :
      (now : ℕ) (key : AuthKey) (s : SessionState)
      → Below allowed s
      → (not (is_ok (State.authorize now key s).0) || allowed key) ≡ true
  unfolding State.authorize
  authorize-allowed now key s b = elim (Bool-cases (allowed key)) [
    | inl granted ↦ ground arith
    | inr refused ↦ ground (arith, check-deadline now key s.auth, b key refused)
  ]

module _ {W : Type 0} (allowed : AuthKey → Bool) (st : Stage) where
  pub respond-Guarded : (r : RpcResponse) → Guarded allowed st (respond {W = W} r)
  unfolding respond audit
  respond-Guarded r = record { at = λ s w b. refl }

  pub or_panic-Guarded :
      {A : Type 0} (o : Option A) (k : A → Handler W)
      → ((a : A) → Guarded allowed st (k a))
      → Guarded allowed st (or_panic o k)
  unfolding or_panic audit
  or_panic-Guarded none k g = record { at = λ s w b. refl }
  or_panic-Guarded (some a) k g = g a

  pub or_return-Guarded :
      {A : Type 0} (r : Result RpcResponse A) (k : A → Handler W)
      → ((a : A) → Guarded allowed st (k a))
      → Guarded allowed st (or_return r k)
  unfolding or_return
  or_return-Guarded (ok a) k g = g a
  or_return-Guarded (err e) k g = respond-Guarded e

  pub or_fail-Guarded :
      {A : Type 0} (fail : ProviderError → Handler W) (r : Result ProviderError A)
      (k : A → Handler W)
      → ((e : ProviderError) → Guarded allowed st (fail e))
      → ((a : A) → Guarded allowed st (k a))
      → Guarded allowed st (or_fail fail r k)
  unfolding or_fail
  or_fail-Guarded fail (ok a) k f g = g a
  or_fail-Guarded fail (err e) k f g = f e

  pub if-Guarded :
      (c : Bool) (h k : Handler W)
      → Guarded allowed st h
      → Guarded allowed st k
      → Guarded allowed st (if c then h else k)
  if-Guarded true h k p q = p
  if-Guarded false h k p q = q

  pub observe-Guarded :
      {A : Type 0} (f : W → A × W) (k : A → Handler W)
      → ((a : A) → Guarded allowed st (k a))
      → Guarded allowed st (observe f k)
  unfolding observe
  observe-Guarded f k g = record { at = λ s w. let (a, w') = f w in (g a).at s w' }

  pub announce-Guarded :
      (name : Text) (h : Handler W)
      → Guarded allowed (at_alias name st) h
      → Guarded allowed st (announce (resolved name) h)
  unfolding announce audit
  announce-Guarded name h g = record { at = g.at }

  pub invoke-Guarded :
      {A : Type 0} (r : Resource) (op : Operation) (call : Call W A)
      (k : Result ProviderError A → Handler W)
      → permitted st op ≡ true
      → ((a : Result ProviderError A) → Guarded allowed st (k a))
      → Guarded allowed st (invoke r op call k)
  unfolding invoke audit
  invoke-Guarded r op call k p g = record {
    at = λ s w b. let (a, w') = call w in rw p ((g a).at s w' b);
  }

  pub invalidate-Guarded :
      (prov dev : Text) (k : Unit {0} → Handler W)
      → Guarded allowed st (k tt)
      → Guarded allowed st (update_session (λ w s. (State.invalidate_device prov dev s).1) k)
  unfolding update_session
  invalidate-Guarded prov dev k g = record {
    at = λ s w b. g.at _ w (invalidate-Below allowed prov dev s b);
  }

  scope-Guarded :
      {A : Type 0} (resource : A → Resource) (name : Text) (close : A → W → W)
      (fail : ProviderError → Handler W) (k : A → Handler W)
      → ((e : ProviderError) → Guarded allowed st (fail e))
      → ((a : A) → may_open (resource a).kind st ≡ true)
      → ((a : A) → Guarded allowed (entered (resource a).kind name st) (k a))
      → (r : Result ProviderError A) → Guarded allowed st (scope resource name close fail k r)
  unfolding scope audit
  scope-Guarded resource name close fail k f m g (err e) = f e
  scope-Guarded resource name close fail k f m g (ok a) = record {
    at = λ s w b. rw (m a) (
        audit-closed allowed (resource a) (entered (resource a).kind name st) (k a s w).trace
          ((g a).at s w b));
  }

  -- The call that makes a guard is one of the operations.
  pub acquire-Guarded :
      {A : Type 0} (held : Resource) (op : Operation) (resource : A → Resource) (name : Text)
      (close : A → W → W) (call : Call W A) (fail : ProviderError → Handler W) (k : A → Handler W)
      → permitted st op ≡ true
      → ((e : ProviderError) → Guarded allowed st (fail e))
      → ((a : A) → may_open (resource a).kind st ≡ true)
      → ((a : A) → Guarded allowed (entered (resource a).kind name st) (k a))
      → Guarded allowed st (acquire (called held op ∷ []) resource name close call fail k)
  unfolding acquire audit
  acquire-Guarded held op resource name close call fail k p f m g = record {
    at = λ s w b.
        let (r, w') = call w in rw p ((scope-Guarded resource name close fail k f m g r).at s w' b);
  }

  pub connect-Guarded :
      {A : Type 0} (resource : A → Resource) (name : Text) (close : A → W → W) (call : Call W A)
      (fail : ProviderError → Handler W) (k : A → Handler W)
      → ((e : ProviderError) → Guarded allowed st (fail e))
      → ((a : A) → may_open (resource a).kind st ≡ true)
      → ((a : A) → Guarded allowed (entered (resource a).kind name st) (k a))
      → Guarded allowed st (acquire [] resource name close call fail k)
  unfolding acquire audit
  connect-Guarded resource name close call fail k f m g = record {
    at = λ s w b.
        let (r, w') = call w in (scope-Guarded resource name close fail k f m g r).at s w' b;
  }

  -- After a check the handler goes on by its answer.
  pub authorize-Guarded :
      (clock : W → ℕ) (key : AuthKey) (k : Result AuthRejection (Unit {0}) → Handler W)
      → ((r : Result AuthRejection (Unit {0}))
          → Guarded allowed (record st { granted = is_ok r && matches st key }) (k r))
      → Guarded allowed st (authorize clock key k)
  unfolding authorize audit
  authorize-Guarded clock key k g = record {
    at = λ s w b.
        rw (authorize-allowed allowed (clock w) key s b)
          ((g _).at _ w (check-Below allowed (clock w) key s b));
  }
