-- ===== src/Exec/Release.antt =====
-- The release of native resources, as a property of what a handler did: `replay` follows its
-- events with a stack of the guards that are alive, and stops at a call on a resource that is not
-- alive and at a guard that is dropped out of order. A handler is balanced if it ends, on every
-- path, with the guards that were alive when it began.
use liuzx_skf.Exec.{
  Resource, Event, opened, closed, called, checked, resolved, announce, Handler, respond, or_return,
  or_panic, scope, invoke, or_fail, authorize, observe, update_session, resource_beq, acquire,
}
use liuzx_skf.Session.Handles.Kinds.{kind_beq_iff}
use liuzx_skf.Session.Auth.{AuthKey, AuthRejection}
use liuzx_skf.Session.State.{SessionState}
use liuzx_skf.Protocol.{RpcResponse}
use liuzx_skf.Provider.{ProviderError, Operation, Call}
use liuzx_skf.Common.{
  if◌then◌else◌, Option-cases, Result, ok, err, Text, text_eq, ℕ, ◌≡◌, refl, ◌∙◌, inl, inr, Bool,
  true, false, ◌||◌, Option, none, some, List, [], ◌∷◌, ◌++◌, arith,
}

unfoldable pub alive : Resource → List Resource → Bool
alive r [] = false
alive r (x ∷ held) = resource_beq x r || alive r held

unfoldable pub drop_top : Resource → List Resource → Option (List Resource)
drop_top r [] = none
drop_top r (x ∷ held) = if resource_beq x r then some held else none

unfoldable pub replay : List Resource → List Event → Option (List Resource)
unfolding alive drop_top
replay held [] = some held
replay held (opened r name ∷ es) = replay (r ∷ held) es
replay held (closed r ∷ es) = elim (drop_top r held) [ none ↦ none | some rest ↦ replay rest es ]
replay held (called r op ∷ es) = let rest = replay held es in if alive r held then rest else none
replay held (checked key b ∷ es) = replay held es
replay held (resolved alias ∷ es) = replay held es

resource_beq_refl : (r : Resource) → resource_beq r r ≡ true
unfolding resource_beq
resource_beq_refl r = ground (arith, kind_beq_iff r.kind r.kind)

pub alive-here : (r : Resource) (held : List Resource) → alive r (r ∷ held) ≡ true
unfolding alive
alive-here r held = rw (resource_beq_refl r)

pub alive-there :
    (r x : Resource) (held : List Resource) → alive r held ≡ true → alive r (x ∷ held) ≡ true
unfolding alive
alive-there r x held h = ground arith

replay-append :
    (held rest : List Resource) (es fs : List Event)
    → replay held es ≡ some rest
    → replay held (es ++ fs) ≡ replay rest fs
unfolding replay
replay-append held rest [] fs h = ground arith
replay-append held rest (opened r name ∷ es) fs h = replay-append (r ∷ held) rest es fs h
replay-append held rest (closed r ∷ es) fs h = elim (Option-cases (drop_top r held)) [
  | inl e ↦ ground arith
  | inr (l, e) ↦ ground (arith, replay-append l rest es fs)
]
replay-append held rest (called r op ∷ es) fs h = ground (arith, replay-append held rest es fs)
replay-append held rest (checked key b ∷ es) fs h = replay-append held rest es fs h
replay-append held rest (resolved alias ∷ es) fs h = replay-append held rest es fs h

replay-closed :
    (r : Resource) (held : List Resource) → replay (r ∷ held) (closed r ∷ []) ≡ some held
unfolding replay
replay-closed r held = ground (arith, resource_beq_refl r)

pub replay-nil : (held : List Resource) → replay held [] ≡ some held
unfolding replay
replay-nil held = refl

pub replay-called :
    (r : Resource) (op : Operation) (held : List Resource)
    → alive r held ≡ true
    → replay held (called r op ∷ []) ≡ some held
unfolding replay
replay-called r op held h = rw h

module _ {W : Type 0} where
  -- On every path the handler ends with the guards that it began with.
  pub record Balanced (held : List Resource) (h : Handler W) : Type 0 where
    pub at : (s : SessionState) (w : W) → replay held (h s w).trace ≡ some held

  pub respond-Balanced : (held : List Resource) (r : RpcResponse) → Balanced held (respond r)
  unfolding respond replay
  respond-Balanced held r = record { at = λ s w. refl }

  pub or_panic-Balanced :
      {A : Type 0} (held : List Resource) (o : Option A) (k : A → Handler W)
      → ((a : A) → Balanced held (k a))
      → Balanced held (or_panic o k)
  unfolding or_panic replay
  or_panic-Balanced held none k b = record { at = λ s w. refl }
  or_panic-Balanced held (some a) k b = b a

  pub or_return-Balanced :
      {A : Type 0} (held : List Resource) (r : Result RpcResponse A) (k : A → Handler W)
      → ((a : A) → Balanced held (k a))
      → Balanced held (or_return r k)
  unfolding or_return
  or_return-Balanced held (ok a) k b = b a
  or_return-Balanced held (err e) k b = respond-Balanced held e

  pub or_fail-Balanced :
      {A : Type 0} (held : List Resource) (fail : ProviderError → Handler W)
      (r : Result ProviderError A) (k : A → Handler W)
      → ((e : ProviderError) → Balanced held (fail e))
      → ((a : A) → Balanced held (k a))
      → Balanced held (or_fail fail r k)
  unfolding or_fail
  or_fail-Balanced held fail (ok a) k f b = b a
  or_fail-Balanced held fail (err e) k f b = f e

  pub if-Balanced :
      (held : List Resource) (c : Bool) (h g : Handler W)
      → Balanced held h
      → Balanced held g
      → Balanced held (if c then h else g)
  if-Balanced held true h g p q = p
  if-Balanced held false h g p q = q

  pub invoke-Balanced :
      {A : Type 0} (held : List Resource) (r : Resource) (op : Operation) (call : Call W A)
      (k : Result ProviderError A → Handler W)
      → alive r held ≡ true
      → ((a : Result ProviderError A) → Balanced held (k a))
      → Balanced held (invoke r op call k)
  unfolding invoke replay
  invoke-Balanced held r op call k p b = record {
    at = λ s w. let (a, w') = call w in rw p ((b a).at s w');
  }

  pub authorize-Balanced :
      (held : List Resource) (clock : W → ℕ) (key : AuthKey)
      (k : Result AuthRejection (Unit {0}) → Handler W)
      → ((a : Result AuthRejection (Unit {0})) → Balanced held (k a))
      → Balanced held (authorize clock key k)
  unfolding authorize replay
  authorize-Balanced held clock key k b = record { at = λ s w. (b _).at _ w }

  pub observe-Balanced :
      {A : Type 0} (held : List Resource) (f : W → A × W) (k : A → Handler W)
      → ((a : A) → Balanced held (k a))
      → Balanced held (observe f k)
  unfolding observe
  observe-Balanced held f k b = record { at = λ s w. let (a, w') = f w in (b a).at s w' }

  pub announce-Balanced :
      (held : List Resource) (alias : Text) (h : Handler W)
      → Balanced held h
      → Balanced held (announce (resolved alias) h)
  unfolding announce replay
  announce-Balanced held alias h b = record { at = b.at }

  pub update_session-Balanced :
      (held : List Resource) (f : W → SessionState → SessionState) (k : Unit {0} → Handler W)
      → Balanced held (k tt)
      → Balanced held (update_session f k)
  unfolding update_session
  update_session-Balanced held f k b = record { at = λ s w. b.at (f w s) w }

  scope-Balanced :
      {A : Type 0} (held : List Resource) (resource : A → Resource) (name : Text)
      (close : A → W → W) (fail : ProviderError → Handler W) (k : A → Handler W)
      → ((e : ProviderError) → Balanced held (fail e))
      → ((a : A) → Balanced (resource a ∷ held) (k a))
      → (r : Result ProviderError A) → Balanced held (scope resource name close fail k r)
  unfolding scope replay
  scope-Balanced held resource name close fail k f b (err e) = f e
  scope-Balanced held resource name close fail k f b (ok a) = record {
    at = λ s w.
        replay-append (resource a ∷ held) (resource a ∷ held) (k a s w).trace
          (closed (resource a) ∷ []) ((b a).at s w)
        ∙ replay-closed (resource a) held;
  }

  pub acquire-Balanced :
      {A : Type 0} (held : List Resource) (es : List Event) (resource : A → Resource) (name : Text)
      (close : A → W → W) (call : Call W A) (fail : ProviderError → Handler W) (k : A → Handler W)
      → replay held es ≡ some held
      → ((e : ProviderError) → Balanced held (fail e))
      → ((a : A) → Balanced (resource a ∷ held) (k a))
      → Balanced held (acquire es resource name close call fail k)
  unfolding acquire
  acquire-Balanced held es resource name close call fail k p f b = record {
    at = λ s w.
        let (r, w') = call w in
        replay-append held held es (scope resource name close fail k r s w').trace p
        ∙ (scope-Balanced held resource name close fail k f b r).at s w';
  }

pub ruleset release_rules = (
  alive-here, alive-there, replay-nil, replay-called, respond-Balanced, or_panic-Balanced,
  or_return-Balanced, or_fail-Balanced, if-Balanced, invoke-Balanced, authorize-Balanced,
  observe-Balanced, announce-Balanced, update_session-Balanced, acquire-Balanced,
)
