-- ===== src/Service/Ownership/Native.antt =====
-- The steps without guards of src/main.rs, under the count of Service/Ownership.antt.
use liuzx_skf.Session.Handles.{ResourceKind, device}
use liuzx_skf.Session.State.{SessionState}
use liuzx_skf.Protocol.{Json, RpcResponse}
use liuzx_skf.Provider.{Operation}
use liuzx_skf.Native.{Library, Native, sar_ok}
use liuzx_skf.Native.Buffers.{has_nul}
use liuzx_skf.Exec.{
  Resource, Event, opened, closed, called, Handler, respond, or_panic, observe, update_session,
}
use liuzx_skf.Domain.{note_device_unavailable}
use liuzx_skf.Service.{SkfContext}
use liuzx_skf.Provider.{DeviceHandle, DigestHandle}
use liuzx_skf.Exec.{device_resource, digest_resource}
use liuzx_skf.Service.Steps.{issue_handle}
use liuzx_skf.Session.Handles.{digest}
use liuzx_skf.Service.Devices.{or_missing}
use liuzx_skf.Domain.{or_err}
use liuzx_skf.Exec.{or_return}
use liuzx_skf.Session.State
use liuzx_skf.Exec
use liuzx_skf.Service.Raw.{
  native_handle, c_string, opened_or, raw_open, raw_call, raw_close, api_or, with_api, with_new_api,
  connect, disconnect_raw,
}
use liuzx_skf.Service.Ownership.{Holding, one, follow, owned, one_refl}
use liuzx_skf.Service.Ownership.Steps.{
  invoke-Settles, obtain-Settles, dispose-Settles, find_handle-Settles, take_handle-Settles,
  issue_handle-Settles, Settles, Counts, total, follow-append, respond-Settles, or_return-Settles,
  or_fail-Settles, invoke-Settles,
}
use liuzx_skf.Common.{
  ◌==◌, if◌then◌else◌, Bool-cases, Result, ok, err, Text, text_eq, ℕ, ◌+◌, ◌-◌, ◌≤◌, ◌≡◌, refl, ◌∙◌,
  inl, inr, Bool, true, false, Option, none, some, List, [], ◌∷◌, arith,
}

pub total-here :
    (s : SessionState) (r : Resource) (mine : List Resource)
    → 1 ≤ owned s.handles r + total (r ∷ mine) r
total-here s r mine = omega (arith, one_refl r)

pub usable-nil :
    (s : SessionState) (mine : List Resource) (f : Holding) → Counts f s mine → follow f [] ≡ some f
unfolding follow
usable-nil s mine f c = refl

pub usable-called :
    (s : SessionState) (mine : List Resource) (r : Resource) (op : Operation)
    → 1 ≤ owned s.handles r + total mine r
    → (f : Holding) → Counts f s mine
    → follow f (called r op ∷ []) ≡ some f
unfolding follow
usable-called s mine r op p f c = ground (arith, c r)

-- A guard that the session holds is alive.
pub owned_alive :
    (s : SessionState) (r : Resource) (mine : List Resource)
    → 1 ≤ owned s.handles r
    → 1 ≤ owned s.handles r + total mine r
owned_alive s r mine h = omega (arith, h)

module _ {W : Type 0} (room : ℕ) (mine left : List Resource) (s : SessionState) where
  pub if-Settles :
      (b : Bool) (h g : Handler W)
      → Settles room mine left h s
      → Settles room mine left g s
      → Settles room mine left (if b then h else g) s
  if-Settles true h g p q = p
  if-Settles false h g p q = q

  pub observe-Settles :
      {A : Type 0} (f : W → A × W) (k : A → Handler W)
      → ((a : A) → Settles room mine left (k a) s)
      → Settles room mine left (observe f k) s
  unfolding observe
  observe-Settles f k p = record { at = λ w g v b c. let (a, w') = f w in (p a).at w' g v b c }

  pub c_string-Settles :
      (value : Text) (k : Text → Handler W)
      → has_nul value ≡ false
      → Settles room mine left (k value) s
      → Settles room mine left (c_string value k) s
  unfolding c_string or_panic
  c_string-Settles value k h p = rw (c_string, or_panic, h) p

  pub note-Settles :
      (ctx : SkfContext W) (prov dev : Text) (k : Unit {0} → Handler W)
      → ((s' : SessionState) → Settles room mine left (k tt) s')
      → Settles room mine left (note_device_unavailable ctx.context prov dev k) s
  unfolding note_device_unavailable update_session State.invalidate_device
  note-Settles ctx prov dev k p = record { at = λ w f v b c. (p _).at w f v b c }

  opened_or-Settles :
      (kind : ResourceKind) (name : Text) (fail k : ℕ → Handler W) (r : ℕ × ℕ)
      → ((ret : ℕ) → Settles room mine left (fail ret) s)
      → ((raw : ℕ) → Settles room (native_handle kind raw ∷ mine) left (k raw) s)
      → Settles room mine left (opened_or kind name fail k r) s
  unfolding opened_or follow
  opened_or-Settles kind name fail k (ret, raw) p q = elim (Bool-cases (ret == sar_ok)) [
    | inl e ↦ record {
      at = λ w f v b c.
          rw e (
            (q raw).at w (λ x. f x + one (native_handle kind raw) x) v b (λ x. omega (arith, c x)));
    }
    | inr e ↦ record { at = λ w f v b c. rw e ((p ret).at w f v b c) }
  ]

  pub raw_open-Settles :
      (es : List Event) (kind : ResourceKind) (name : Text) (call : Native W ℕ)
      (fail k : ℕ → Handler W)
      → ((f : Holding) → Counts f s mine → follow f es ≡ some f)
      → ((ret : ℕ) → Settles room mine left (fail ret) s)
      → ((raw : ℕ) → Settles room (native_handle kind raw ∷ mine) left (k raw) s)
      → Settles room mine left (raw_open es kind name call fail k) s
  unfolding raw_open
  raw_open-Settles es kind name call fail k u p q = record {
    at = λ w f v b c.
        let (r, w') = call w in
        let (v', (g, e, d)) = (opened_or-Settles kind name fail k r p q).at w' f v b c in
        (v', (g, follow-append f f es _ (u f c) ∙ e, d));
  }

  pub raw_call-Settles :
      {A : Type 0} (r : Resource) (op : Operation) (call : Native W A) (k : ℕ × A → Handler W)
      → 1 ≤ owned s.handles r + total mine r
      → ((a : ℕ × A) → Settles room mine left (k a) s)
      → Settles room mine left (raw_call r op call k) s
  unfolding raw_call follow
  raw_call-Settles r op call k p q = record {
    at = λ w f v b c.
        let (a, w') = call w in
        let (v', (g, e, d)) = (q a).at w' f v b c in (v', (g, ground (arith, c r), d));
  }

  pub raw_close-Settles :
      (r : Resource) (call : Native W (Unit {0})) (k : Unit {0} → Handler W)
      → Settles room mine left (k tt) s
      → Settles room (r ∷ mine) left (raw_close r call k) s
  unfolding raw_close follow
  raw_close-Settles r call k p = record {
    at = λ w f v b c.
        let w' : W = (call w).1 in
        let (v', (g, e, d)) = p.at w' (λ x. f x - one r x) v b (λ x. omega (arith, c x)) in
        (v', (g, ground (arith, c r, one_refl r), d));
  }

module _ {W : Type 0} (room : ℕ) (mine : List Resource) (s : SessionState) where
  -- A panic leaves the handler's guards as they are.
  pub or_panic-Settles :
      {A : Type 0} (o : Option A) (k : A → Handler W)
      → ((a : A) → Settles room mine mine (k a) s)
      → Settles room mine mine (or_panic o k) s
  unfolding or_panic Exec.panic follow
  or_panic-Settles none k p = record { at = λ w f v b c. (v, (f, refl, c)) }
  or_panic-Settles (some a) k p = p a

  pub c_string-Settles_idle :
      (value : Text) (k : Text → Handler W)
      → ((c : Text) → Settles room mine mine (k c) s)
      → Settles room mine mine (c_string value k) s
  unfolding c_string
  c_string-Settles_idle value k p = or_panic-Settles _ k p

  -- A parameter that must be there, and what it is.
  pub missing-Settles :
      {A : Type 0} (o : Option A) (message : Text) (id : Option Json) (k : A → Handler W)
      → ((a : A) → o ≡ some a → Settles room mine mine (k a) s)
      → Settles room mine mine (or_return (or_missing o message id) k) s
  unfolding or_return or_err
  missing-Settles none message id k p = respond-Settles room mine s _
  missing-Settles (some a) message id k p = p a refl

module _ {W : Type 0} (ctx : SkfContext W) (room : ℕ) (mine : List Resource)
    (s : SessionState) where
  api_or-Settles :
      {A : Type 0} (fail : Text → RpcResponse) (k : A → Handler W) (r : Result Text A)
      → ((a : A) → Settles room mine mine (k a) s)
      → Settles room mine mine (api_or ctx (λ e. respond (fail e)) k r) s
  unfolding api_or
  api_or-Settles fail k (ok a) p = p a
  api_or-Settles fail k (err e) p = respond-Settles room mine s (fail e)

  pub with_api-Settles :
      (fail : Text → RpcResponse) (provider : Text) (k : Library W → Handler W)
      → ((api : Library W) → Settles room mine mine (k api) s)
      → Settles room mine mine (with_api ctx fail provider k) s
  unfolding with_api
  with_api-Settles fail provider k p = search (observe-Settles, api_or-Settles) depth 12

  pub with_new_api-Settles :
      (fail : Text → RpcResponse) (provider : Text) (k : Library W → Handler W)
      → ((api : Library W) → Settles room mine mine (k api) s)
      → Settles room mine mine (with_new_api ctx fail provider k) s
  unfolding with_new_api
  with_new_api-Settles fail provider k p =
      search (observe-Settles, api_or-Settles, or_panic-Settles) depth 12

  pub connect-Settles :
      (id : Option Json) (provider dev_name : Text) (api : Library W) (k : ℕ → Handler W)
      → ((h_dev : ℕ) → Settles room (native_handle device h_dev ∷ mine) mine (k h_dev) s)
      → Settles room mine mine (connect ctx id provider dev_name api k) s
  unfolding connect c_string
  connect-Settles id provider dev_name api k p =
      search (or_panic-Settles, raw_open-Settles, usable-nil, note-Settles, respond-Settles) depth
        12

  pub disconnect_raw-Settles :
      (left : List Resource) (api : Library W) (h_dev : ℕ) (k : Unit {0} → Handler W)
      → Settles room mine left (k tt) s
      → Settles room (native_handle device h_dev ∷ mine) left (disconnect_raw ctx api h_dev k) s
  unfolding disconnect_raw
  disconnect_raw-Settles left api h_dev k p = search raw_close-Settles

pub ruleset native_rules = (
  total-here, usable-nil, usable-called, respond-Settles, or_return-Settles, or_fail-Settles,
  if-Settles, observe-Settles, or_panic-Settles, c_string-Settles, c_string-Settles_idle,
  note-Settles, raw_open-Settles, raw_call-Settles, raw_close-Settles, with_api-Settles,
  with_new_api-Settles, connect-Settles, disconnect_raw-Settles,
)

module _ {W : Type 0} (room : ℕ) (mine left : List Resource) (s : SessionState) where
  pub issue_device-Settles :
      (d : DeviceHandle) (k : Text → Handler W)
      → ((h : Text) (s' : SessionState) → Settles room mine left (k h) s')
      → Settles (room + 1) (device_resource d ∷ mine) left (issue_handle device d k) s
  issue_device-Settles d k p = issue_handle-Settles room mine left s device d k p

  pub issue_digest-Settles :
      (d : DigestHandle) (k : Text → Handler W)
      → ((h : Text) (s' : SessionState) → Settles room mine left (k h) s')
      → Settles (room + 1) (digest_resource d ∷ mine) left (issue_handle digest d k) s
  issue_digest-Settles d k p = issue_handle-Settles room mine left s digest d k p

pub ruleset handle_rules = (
  native_rules, invoke-Settles, obtain-Settles, dispose-Settles, find_handle-Settles,
  take_handle-Settles, issue_device-Settles, issue_digest-Settles, owned_alive,
)
