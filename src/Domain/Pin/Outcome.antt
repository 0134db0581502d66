-- ===== src/Domain/Pin/Outcome.antt =====
-- How `CheckPIN` of src/domain/pin.rs ends, once the token has answered.
use liuzx_skf.Common.{
  if◌then◌else◌, Bool-cases, as_i32, ◌===◌, text_eq, ◌+◌, ◌≡◌, refl, inl, inr, true, ◌&&◌, some,
}
use liuzx_skf.Session.Auth.{AuthKey, deadline, auth_key_eq}
use liuzx_skf.Session.Auth.Expiry.{deadline-grant}
use liuzx_skf.Session.State.{SessionState}
use liuzx_skf.Session.State
use liuzx_skf.Exec.{answered, respond, update_session}
use liuzx_skf.Protocol.{Language, respond_ok, respond_err, bool}
use liuzx_skf.Protocol.Params.{Params}
use liuzx_skf.Provider.{PinOutcome}
use liuzx_skf.Domain.{Context}
use liuzx_skf.Domain.Pin.{conclude, pin_failed}

-- After the token took the PIN, the answer is `true` and the named application is granted for the
-- session's lifetime from now; after it refused the PIN, the answer has the token's code and the
-- retries left, and the named application is granted as before. Every other grant is as before.
pub conclude_lem :
    {W : Type 0} (ctx : Context W) (params : Params) (lang : Language) (named key : AuthKey)
    (o : PinOutcome) (s : SessionState) (w : W)
    → ((conclude ctx params lang named.provider named.device named.application o s w).outcome
        ≡ answered (
            if o.success
            then respond_ok (bool true) params.id
            else respond_err (as_i32 o.code) (pin_failed lang o.code o.retry_count) params.id))
      × (deadline key
            (conclude ctx params lang named.provider named.device named.application o s
              w).session.auth
          ≡ (if o.success && named === key
              then some (ctx.clock w + s.auth.ttl)
              else deadline key s.auth))
unfolding conclude respond update_session State.grant
conclude_lem ctx params lang named key o s w = elim (Bool-cases o.success) [
  | inl accepted ↦ rw accepted (refl, deadline-grant (ctx.clock w) named key s.auth)
  | inr rejected ↦ rw rejected (refl, refl)
]
