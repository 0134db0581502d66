-- ===== src/Service/Ownership/Answered.antt =====
-- The steps of `ImportKeyPair` and `FindCertificates` of src/main.rs, under the count of
-- Service/Ownership.antt, for the runs that end with an answer.
use liuzx_skf.Common.{
  ◌==◌, if◌then◌else◌, Bool-cases, Result, ok, err, Text, Bytes, text_eq, ℕ, ◌+◌, ◌-◌, ◌≤◌, ◌≡◌,
  refl, ◌∙◌, ◌≢◌, inl, inr, Bool, true, false, Option, none, some, List, [], ◌∷◌, arith,
}
use liuzx_skf.Session.Handles.{ResourceKind, device}
use liuzx_skf.Session.Auth.{AuthKey, AuthRejection}
use liuzx_skf.Session.State.{SessionState}
use liuzx_skf.Session.State
use liuzx_skf.Protocol.{Json, RpcResponse}
use liuzx_skf.Provider.{Operation}
use liuzx_skf.Native.{Library, Native, sar_ok}
use liuzx_skf.Exec.{
  Resource, Event, opened, closed, called, checked, Outcome, answered, panicked, Handler, Step,
  respond, or_return, or_panic, observe, update_session, authorize,
}
use liuzx_skf.Exec
use liuzx_skf.Domain.{note_device_unavailable}
use liuzx_skf.Service.{SkfContext}
use liuzx_skf.Service.Raw.{
  native_handle, c_string, opened_or, raw_open, raw_call, raw_close, api_or, with_api, connect,
  disconnect_raw,
}
use liuzx_skf.Service.Raw.Certificates.{for_each, listed_names}
use liuzx_skf.Service.Ownership.{Holding, one, follow, owned, one_refl}
use liuzx_skf.Service.Ownership.Steps.{Counts, total, follow-append}
use liuzx_skf.Service.Ownership.Native.{total-here, usable-nil, usable-called}

panicked-answered : (r : RpcResponse) → panicked ≢ answered r
panicked-answered r e = cc

module _ {W : Type 0} (Q : RpcResponse → Type 0) where
  -- A handler that begins owning `mine` and ends with an answer of which `Q` holds has closed what
  -- it owned and what it opened, and has left the session's handles alone.
  pub record Balances (mine : List Resource) (h : Handler W) (s : SessionState) : Type 0 where
    pub at :
        (w : W) (f : Holding)
        → Counts f s mine
        → (r : RpcResponse) → (h s w).outcome ≡ answered r
        → Q r
        → ((h s w).session.handles ≡ s.handles)
          × ((g : Holding) × (follow f (h s w).trace ≡ some g) × Counts g (h s w).session [])

  module _ (s : SessionState) where
    pub respond-Balances : (r : RpcResponse) → Balances [] (respond r) s
    unfolding respond follow
    respond-Balances r = record { at = λ w f c a o q. (refl, (f, refl, c)) }

    pub or_return-Balances :
        {A : Type 0} (r : Result RpcResponse A) (k : A → Handler W)
        → ((a : A) → Balances [] (k a) s)
        → Balances [] (or_return r k) s
    unfolding or_return
    or_return-Balances (ok a) k p = p a
    or_return-Balances (err e) k p = respond-Balances e

  module _ (mine : List Resource) (s : SessionState) where
    pub or_panic-Balances :
        {A : Type 0} (o : Option A) (k : A → Handler W)
        → ((a : A) → Balances mine (k a) s)
        → Balances mine (or_panic o k) s
    unfolding or_panic Exec.panic
    or_panic-Balances none k p = record { at = λ w f c r o q. absurd (panicked-answered r o) }
    or_panic-Balances (some a) k p = p a

    pub c_string-Balances :
        (value : Text) (k : Text → Handler W)
        → ((c : Text) → Balances mine (k c) s)
        → Balances mine (c_string value k) s
    unfolding c_string
    c_string-Balances value k p = or_panic-Balances _ k p

    pub if-Balances :
        (b : Bool) (h g : Handler W)
        → Balances mine h s
        → Balances mine g s
        → Balances mine (if b then h else g) s
    if-Balances true h g p q = p
    if-Balances false h g p q = q

    pub observe-Balances :
        {A : Type 0} (f : W → A × W) (k : A → Handler W)
        → ((a : A) → Balances mine (k a) s)
        → Balances mine (observe f k) s
    unfolding observe
    observe-Balances f k p = record {
      at = λ w g c r o q. let (a, w') = f w in (p a).at w' g c r o q;
    }

    opened_or-Balances :
        (kind : ResourceKind) (name : Text) (fail k : ℕ → Handler W) (r : ℕ × ℕ)
        → ((ret : ℕ) → Balances mine (fail ret) s)
        → ((raw : ℕ) → Balances (native_handle kind raw ∷ mine) (k raw) s)
        → Balances mine (opened_or kind name fail k r) s
    unfolding opened_or follow
    opened_or-Balances kind name fail k (ret, raw) p q = elim (Bool-cases (ret == sar_ok)) [
      | inl e ↦ record {
        at = λ w f c.
            rw e
              ((q raw).at w (λ x. f x + one (native_handle kind raw) x) (λ x. omega (arith, c x)));
      }
      | inr e ↦ record { at = λ w f c. rw e ((p ret).at w f c) }
    ]

    pub raw_open-Balances :
        (es : List Event) (kind : ResourceKind) (name : Text) (call : Native W ℕ)
        (fail k : ℕ → Handler W)
        → ((f : Holding) → Counts f s mine → follow f es ≡ some f)
        → ((ret : ℕ) → Balances mine (fail ret) s)
        → ((raw : ℕ) → Balances (native_handle kind raw ∷ mine) (k raw) s)
        → Balances mine (raw_open es kind name call fail k) s
    unfolding raw_open
    raw_open-Balances es kind name call fail k u p q = record {
      at = λ w f c r o qr.
          let (a, w') = call w in
          let (same, (g, e, d)) = (opened_or-Balances kind name fail k a p q).at w' f c r o qr in
          (same, (g, follow-append f f es _ (u f c) ∙ e, d));
    }

    pub raw_call-Balances :
        {A : Type 0} (r : Resource) (op : Operation) (call : Native W A) (k : ℕ × A → Handler W)
        → 1 ≤ owned s.handles r + total mine r
        → ((a : ℕ × A) → Balances mine (k a) s)
        → Balances mine (raw_call r op call k) s
    unfolding raw_call follow
    raw_call-Balances r op call k p q = record {
      at = λ w f c a o qa.
          let (b, w') = call w in
          let (same, (g, e, d)) = (q b).at w' f c a o qa in (same, (g, ground (arith, c r), d));
    }

    pub raw_close-Balances :
        (r : Resource) (call : Native W (Unit {0})) (k : Unit {0} → Handler W)
        → Balances mine (k tt) s
        → Balances (r ∷ mine) (raw_close r call k) s
    unfolding raw_close follow
    raw_close-Balances r call k p = record {
      at = λ w f c a o qa.
          let (same, (g, e, d)) =
            p.at (call w).1 (λ x. f x - one r x) (λ x. omega (arith, c x)) a o qa in
          (same, (g, ground (arith, c r, one_refl r), d));
    }

    pub note-Balances :
        (ctx : SkfContext W) (prov dev : Text) (k : Unit {0} → Handler W)
        → ((s' : SessionState) → Balances mine (k tt) s')
        → Balances mine (note_device_unavailable ctx.context prov dev k) s
    unfolding note_device_unavailable update_session State.invalidate_device
    note-Balances ctx prov dev k p = record { at = λ w f c. (p _).at w f c }

    pub authorize-Balances :
        (clock : W → ℕ) (key : AuthKey) (k : Result AuthRejection (Unit {0}) → Handler W)
        → ((r : Result AuthRejection (Unit {0})) (s' : SessionState) → Balances mine (k r) s')
        → Balances mine (authorize clock key k) s
    unfolding authorize State.authorize follow
    authorize-Balances clock key k p = record { at = λ w f c. (p _ _).at w f c }

    pub for_each-Balances :
        {A R : Type 0} (xs : List A) (body : A → R → Step W R) (acc : R) (k : R → Handler W)
        → ((x : A) (acc' : R) (k' : R → Handler W)
            → ((r : R) → Balances mine (k' r) s)
            → Balances mine (body x acc' k') s)
        → ((r : R) → Balances mine (k r) s)
        → Balances mine (for_each xs body acc k) s
    unfolding for_each
    for_each-Balances [] body acc k p q = q acc
    for_each-Balances (x ∷ xs) body acc k p q = p x acc _ (λ r. for_each-Balances xs body r k p q)

    pub api_or-Balances :
        {A : Type 0} (ctx : SkfContext W) (fail : Text → Handler W) (k : A → Handler W)
        (r : Result Text A)
        → ((e : Text) → Balances mine (fail e) s)
        → ((a : A) → Balances mine (k a) s)
        → Balances mine (api_or ctx fail k r) s
    unfolding api_or
    api_or-Balances ctx fail k (ok a) p q = q a
    api_or-Balances ctx fail k (err e) p q = p e

    pub disconnect_raw-Balances :
        (ctx : SkfContext W) (api : Library W) (h_dev : ℕ) (k : Unit {0} → Handler W)
        → Balances mine (k tt) s
        → Balances (native_handle device h_dev ∷ mine) (disconnect_raw ctx api h_dev k) s
    unfolding disconnect_raw
    disconnect_raw-Balances ctx api h_dev k p = search raw_close-Balances

    pub listed_names-Balances :
        (ctx : SkfContext W) (first : ℕ × (Option Bytes × ℕ))
        (call : Option Bytes → ℕ → Step W (ℕ × (Option Bytes × ℕ))) (k : List Text → Handler W)
        → ((buf : Option Bytes) (size : ℕ) (k' : ℕ × (Option Bytes × ℕ) → Handler W)
            → ((r : ℕ × (Option Bytes × ℕ)) → Balances mine (k' r) s)
            → Balances mine (call buf size k') s)
        → ((names : List Text) → Balances mine (k names) s)
        → Balances mine (listed_names ctx first call k) s
    unfolding listed_names
    listed_names-Balances ctx first call k p q =
        if-Balances _ _ _ (p _ _ _ (λ r. if-Balances _ _ _ (or_panic-Balances _ k q) (q []))) (q [])

  pub with_api-Balances :
      (s : SessionState) (ctx : SkfContext W) (fail : Text → RpcResponse) (provider : Text)
      (k : Library W → Handler W)
      → ((api : Library W) → Balances [] (k api) s)
      → Balances [] (with_api ctx fail provider k) s
  unfolding with_api
  with_api-Balances s ctx fail provider k p =
      search (observe-Balances, api_or-Balances, respond-Balances) depth 12

  pub connect-Balances :
      (s : SessionState) (ctx : SkfContext W) (id : Option Json) (provider dev_name : Text)
      (api : Library W) (k : ℕ → Handler W)
      → ((h_dev : ℕ) → Balances (native_handle device h_dev ∷ []) (k h_dev) s)
      → Balances [] (connect ctx id provider dev_name api k) s
  unfolding connect
  connect-Balances s ctx id provider dev_name api k p =
      search (c_string-Balances, raw_open-Balances, usable-nil, note-Balances, respond-Balances)
        depth 12

pub ruleset answered_rules = (
  total-here, usable-nil, usable-called, respond-Balances, or_return-Balances, c_string-Balances,
  or_panic-Balances, if-Balances, observe-Balances, raw_open-Balances, raw_call-Balances,
  raw_close-Balances, note-Balances, authorize-Balances, api_or-Balances, disconnect_raw-Balances,
  with_api-Balances, connect-Balances,
)
