-- ===== src/Exec/Login.antt =====
-- The authorization of privileged operations, as a property of what a handler did: `audit` follows
-- its events and says whether each privileged call, and each guard of a container, came after the
-- session was asked for a grant, said yes, and was asked about the provider, the device and the
-- application that the handler was using.
pub mod Rules
use liuzx_skf.Common.{
  Text, ◌===◌, text_eq, ◌≡◌, refl, Bool, true, false, ◌&&◌, ◌||◌, not, none, List, [], ◌∷◌, ◌++◌,
  arith,
}
use liuzx_skf.Exec.{Resource, Event, opened, closed, called, checked, resolved, Handler}
use liuzx_skf.Session.Handles.{ResourceKind, device, application, container, digest}
use liuzx_skf.Session.Auth.{AuthKey, deadline}
use liuzx_skf.Session.State.{SessionState}
use liuzx_skf.Session.State
use liuzx_skf.Provider.{Operation}

-- What the handler is using, and whether the session granted it.
pub record Stage : Type 0 where
  pub alias : Text
  pub device_name : Text
  pub app_name : Text
  pub granted : Bool

-- The operations on an application that its PIN protects.
unfoldable pub privileged : Operation → Bool
privileged Operation.open_container = true
privileged Operation.create_container = true
privileged Operation.import_certificate = true
privileged Operation.sign_ecc = true
privileged Operation.sign_rsa = true
privileged Operation.gen_ecc_key_pair = true
privileged Operation.gen_rsa_key_pair = true
privileged Operation.set_symm_key = true
privileged Operation.encrypt_data = true
privileged Operation.decrypt_data = true
privileged _ = false

abbrev pub at_alias : Text → Stage → Stage
at_alias name st = record st { alias = name; granted = false }

abbrev pub at_device : Text → Stage → Stage
at_device name st = record st { device_name = name; granted = false }

abbrev pub at_app : Text → Stage → Stage
at_app name st = record st { app_name = name; granted = false }

unfoldable pub matches : Stage → AuthKey → Bool
matches st key =
    key.provider === st.alias && (key.device === st.device_name && key.application === st.app_name)

unfoldable pub permitted : Stage → Operation → Bool
permitted st op = not (privileged op) || st.granted

unfoldable pub entered : ResourceKind → Text → Stage → Stage
entered device name st = at_device name st
entered application name st = at_app name st
entered container name st = st
entered digest name st = st

unfoldable pub left : ResourceKind → Stage → Stage
left device st = record st { granted = false }
left application st = record st { granted = false }
left container st = st
left digest st = st

unfoldable pub may_open : ResourceKind → Stage → Bool
may_open container st = st.granted
may_open device st = true
may_open application st = true
may_open digest st = true

-- `allowed` says which keys the session may accept.
module _ (allowed : AuthKey → Bool) where
  unfoldable pub audit : Stage → List Event → Bool
  unfolding matches permitted entered left may_open
  audit st [] = true
  audit st (resolved name ∷ es) = audit (at_alias name st) es
  audit st (opened r name ∷ es) = may_open r.kind st && audit (entered r.kind name st) es
  audit st (closed r ∷ es) = audit (left r.kind st) es
  audit st (called r op ∷ es) = permitted st op && audit st es
  audit st (checked key b ∷ es) =
      (not b || allowed key) && audit (record st { granted = b && matches st key }) es

  pub audit-closed :
      (r : Resource) (st : Stage) (es : List Event)
      → audit st es ≡ true
      → audit st (es ++ closed r ∷ []) ≡ true
  unfolding audit
  audit-closed r st [] h = refl
  audit-closed r st (resolved name ∷ es) h = audit-closed r (at_alias name st) es h
  audit-closed r st (opened x name ∷ es) h =
      ground (arith, audit-closed r (entered x.kind name st) es)
  audit-closed r st (closed x ∷ es) h = audit-closed r (left x.kind st) es h
  audit-closed r st (called x op ∷ es) h = ground (arith, audit-closed r st es)
  audit-closed r st (checked key b ∷ es) h =
      ground (arith, audit-closed r (record st { granted = b && matches st key }) es)

  -- The session holds grants for allowed keys only.
  abbrev pub Below : SessionState → Type 0
  Below s = (key : AuthKey) → allowed key ≡ false → deadline key s.auth ≡ none

  -- A handler that starts in that stage, in such a session, does nothing that the audit refuses.
  pub record Guarded {W : Type 0} (st : Stage) (h : Handler W) : Type 0 where
    pub at : (s : SessionState) (w : W) → Below s → audit st (h s w).trace ≡ true
