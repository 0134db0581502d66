-- ===== src/Domain/Grants/Pin.antt =====
-- What `CheckPIN` of src/domain/pin.rs grants.
use liuzx_skf.Common.{
  Bool-cases, ok, Text, ◌===◌, text_eq, text, ◌≡◌, refl, subst, inl, inr, true, Option, none, some,
  List, arith,
}
use liuzx_skf.Session.Auth.{AuthKey}
use liuzx_skf.Exec.{Outcome, answered, update_session, respond}
use liuzx_skf.Session.Auth.{auth_key_beq_iff, auth_key_eq}
use liuzx_skf.Session.Auth.Expiry.{deadline-grant}
use liuzx_skf.Session.State
use liuzx_skf.Exec.Grants.{Modest, respond-Modest}
use liuzx_skf.Protocol.{Language, RpcResponse, respond_ok, bool}
use liuzx_skf.Protocol.Params.{Params, required_str}
use liuzx_skf.Provider.{PinOutcome}
use liuzx_skf.Domain.{Context, or_err, normalize_alias, split_cert_key, part, or_err}
use liuzx_skf.Domain.Pin.{conclude, check_pin}
use liuzx_skf.Domain.Grants.{session_rules}

abbrev pub pin_accepted : Params → Outcome
pin_accepted params = answered (respond_ok (bool true) params.id)

module _ {W : Type 0} (ctx : Context W) (params : Params) (lang : Language) where
  abbrev key_of_parts : List Text → AuthKey
  key_of_parts parts = record {
    provider = normalize_alias ctx (part parts 0);
    device = part parts 1;
    application = part parts 2;
  }

  -- The key that the first parameter names.
  abbrev pub NamedKey : AuthKey → Type 0
  NamedKey key =
      (cert_key : Text) × (parts : List Text) × (required_str params 0
          (text "Missing certKey param")
        ≡ ok cert_key)
      × (split_cert_key cert_key 3 ≡ some parts)
      × (key ≡ key_of_parts parts)

  abbrev pub PinExcuse : AuthKey → Outcome → Type 0
  PinExcuse key o = (o ≡ pin_accepted params) × NamedKey key

  or_err-ok : {A : Type 0} (o : Option A) (r : RpcResponse) (a : A) → or_err o r ≡ ok a → o ≡ some a
  unfolding or_err
  or_err-ok none r a h = cc
  or_err-ok (some b) r a h = cc

  granted-Modest :
      (key : AuthKey)
      → NamedKey key
      → Modest PinExcuse (
          update_session
            (λ w. State.grant (ctx.clock w) key)
            (λ u. respond (respond_ok (bool true) params.id)))
  unfolding update_session respond State.grant
  granted-Modest key n = record {
    at = λ s w j. elim (Bool-cases (key === j)) [
      | inl same ↦
          let e : key ≡ j = (auth_key_beq_iff key j).0 same in inr (refl, subst NamedKey e n)
      | inr other ↦ inl (inl (ground (arith, deadline-grant (ctx.clock w) key j s.auth)))
    ];
  }

  conclude-Modest :
      (key : AuthKey) (o : PinOutcome)
      → NamedKey key
      → Modest PinExcuse (conclude ctx params lang key.provider key.device key.application o)
  unfolding conclude
  conclude-Modest key o n = elim (Bool-cases o.success) [
    | inl accepted ↦ rw accepted (granted-Modest key n)
    | inr rejected ↦ rw rejected (respond-Modest PinExcuse _)
  ]

  concluded-Modest :
      (cert_key : Text) (parts : List Text) (r : RpcResponse) (o : PinOutcome)
      → required_str params 0 (text "Missing certKey param") ≡ ok cert_key
      → or_err (split_cert_key cert_key 3) r ≡ ok parts
      → Modest PinExcuse (
          conclude ctx params lang
            (normalize_alias ctx (part parts 0))
            (part parts 1)
            (part parts 2)
            o)
  concluded-Modest cert_key parts r o p q =
      conclude-Modest (key_of_parts parts) o
        (cert_key, parts, p, or_err-ok (split_cert_key cert_key 3) r parts q, refl)

  pub check_pin-Modest : Modest PinExcuse (check_pin ctx params lang)
  unfolding check_pin
  check_pin-Modest = search (session_rules, concluded-Modest) depth 24
