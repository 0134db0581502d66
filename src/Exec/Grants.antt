-- ===== src/Exec/Grants.antt =====
-- The grants that a handler leaves in its session: a handler is modest if each grant of the session
-- is as it was, or gone, unless the handler ends with an outcome that excuses it.
use liuzx_skf.Common.{
  if◌then◌else◌, Result, ok, err, Text, text_eq, get-remove, ℕ, ◌≡◌, refl, ◌∙◌, ◌⊎◌, inl, inr, Bool,
  true, false, Option, none, some, List, arith,
}
use liuzx_skf.Exec.{
  Resource, Event, Handler, Outcome, respond, or_return, or_panic, scope, invoke, or_fail,
  authorize, observe, announce, update_session, acquire,
}
use liuzx_skf.Session.Auth.{AuthKey, AuthTable, AuthRejection, deadline, check, auth_key_eq}
use liuzx_skf.Session.Auth.Expiry.{deadline-invalidate_device}
use liuzx_skf.Session.State.{SessionState}
use liuzx_skf.Session.State
use liuzx_skf.Protocol.{RpcResponse}
use liuzx_skf.Provider.{ProviderError, Operation, Call}

-- The grant for the key is as it was, or gone.
abbrev pub Kept : AuthKey → AuthTable → AuthTable → Type 0
Kept key s t = (deadline key t ≡ deadline key s) ⊎ (deadline key t ≡ none)

Kept-trans : (key : AuthKey) (s t u : AuthTable) → Kept key s t → Kept key t u → Kept key s u
Kept-trans key s t u (inl p) (inl q) = inl (q ∙ p)
Kept-trans key s t u (inr p) (inl q) = inr (q ∙ p)
Kept-trans key s t u p (inr q) = inr q

authorize-Kept :
    (now : ℕ) (key j : AuthKey) (s : SessionState)
    → Kept j s.auth (State.authorize now key s).1.auth
unfolding State.authorize check deadline
authorize-Kept now key j s = ground (arith, get-remove key j s.auth.grants)

invalidate-Kept :
    (prov dev : Text) (j : AuthKey) (s : SessionState)
    → Kept j s.auth (State.invalidate_device prov dev s).1.auth
unfolding State.invalidate_device
invalidate-Kept prov dev j s = ground (arith, deadline-invalidate_device prov dev j s.auth)

module _ {W : Type 0} (excused : AuthKey → Outcome → Type 0) where
  pub record Modest (h : Handler W) : Type 0 where
    pub at :
        (s : SessionState) (w : W) (key : AuthKey)
        → Kept key s.auth (h s w).session.auth ⊎ excused key (h s w).outcome

  pub respond-Modest : (r : RpcResponse) → Modest (respond r)
  unfolding respond
  respond-Modest r = record { at = λ s w key. inl (inl refl) }

  pub or_panic-Modest :
      {A : Type 0} (o : Option A) (k : A → Handler W)
      → ((a : A) → Modest (k a))
      → Modest (or_panic o k)
  unfolding or_panic
  or_panic-Modest none k m = record { at = λ s w key. inl (inl refl) }
  or_panic-Modest (some a) k m = m a

  pub or_return-Modest :
      {A : Type 0} (r : Result RpcResponse A) (k : A → Handler W)
      → ((a : A) → r ≡ ok a → Modest (k a))
      → Modest (or_return r k)
  unfolding or_return
  or_return-Modest (ok a) k m = m a refl
  or_return-Modest (err e) k m = respond-Modest e

  pub or_fail-Modest :
      {A : Type 0} (fail : ProviderError → Handler W) (r : Result ProviderError A)
      (k : A → Handler W)
      → ((e : ProviderError) → Modest (fail e))
      → ((a : A) → Modest (k a))
      → Modest (or_fail fail r k)
  unfolding or_fail
  or_fail-Modest fail (ok a) k f m = m a
  or_fail-Modest fail (err e) k f m = f e

  pub if-Modest : (c : Bool) (h k : Handler W) → Modest h → Modest k → Modest (if c then h else k)
  if-Modest true h k p q = p
  if-Modest false h k p q = q

  pub observe-Modest :
      {A : Type 0} (f : W → A × W) (k : A → Handler W)
      → ((a : A) → Modest (k a))
      → Modest (observe f k)
  unfolding observe
  observe-Modest f k m = record { at = λ s w key. let (a, w') = f w in (m a).at s w' key }

  pub announce-Modest : (e : Event) (h : Handler W) → Modest h → Modest (announce e h)
  unfolding announce
  announce-Modest e h m = record { at = m.at }

  pub invoke-Modest :
      {A : Type 0} (r : Resource) (op : Operation) (call : Call W A)
      (k : Result ProviderError A → Handler W)
      → ((a : Result ProviderError A) → Modest (k a))
      → Modest (invoke r op call k)
  unfolding invoke
  invoke-Modest r op call k m = record { at = λ s w key. let (a, w') = call w in (m a).at s w' key }

  pub invalidate-Modest :
      (prov dev : Text) (k : Unit {0} → Handler W)
      → Modest (k tt)
      → Modest (update_session (λ w s. (State.invalidate_device prov dev s).1) k)
  unfolding update_session
  invalidate-Modest prov dev k m = record {
    at = λ s w key. elim (m.at _ w key) [
      | inl kept ↦ inl (Kept-trans key s.auth _ _ (invalidate-Kept prov dev key s) kept)
      | inr excuse ↦ inr excuse
    ];
  }

  pub authorize-Modest :
      (clock : W → ℕ) (key : AuthKey) (k : Result AuthRejection (Unit {0}) → Handler W)
      → ((r : Result AuthRejection (Unit {0})) → Modest (k r))
      → Modest (authorize clock key k)
  unfolding authorize
  authorize-Modest clock key k m = record {
    at = λ s w j. elim ((m _).at _ w j) [
      | inl kept ↦ inl (Kept-trans j s.auth _ _ (authorize-Kept (clock w) key j s) kept)
      | inr excuse ↦ inr excuse
    ];
  }

  scope-Modest :
      {A : Type 0} (resource : A → Resource) (name : Text) (close : A → W → W)
      (fail : ProviderError → Handler W) (k : A → Handler W)
      → ((e : ProviderError) → Modest (fail e))
      → ((a : A) → Modest (k a))
      → (r : Result ProviderError A) → Modest (scope resource name close fail k r)
  unfolding scope
  scope-Modest resource name close fail k f m (err e) = f e
  scope-Modest resource name close fail k f m (ok a) = record { at = (m a).at }

  pub acquire-Modest :
      {A : Type 0} (es : List Event) (resource : A → Resource) (name : Text) (close : A → W → W)
      (call : Call W A) (fail : ProviderError → Handler W) (k : A → Handler W)
      → ((e : ProviderError) → Modest (fail e))
      → ((a : A) → Modest (k a))
      → Modest (acquire es resource name close call fail k)
  unfolding acquire
  acquire-Modest es resource name close call fail k f m = record {
    at = λ s w key.
        let (r, w') = call w in (scope-Modest resource name close fail k f m r).at s w' key;
  }

pub ruleset grant_rules = (
  respond-Modest, or_panic-Modest, or_return-Modest, or_fail-Modest, if-Modest, announce-Modest,
  invoke-Modest, invalidate-Modest, authorize-Modest, acquire-Modest,
)
