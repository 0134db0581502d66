-- ===== src/Domain/Dispatch/Safety.antt =====
-- What every handler of src/domain does, by the lemmas on each of them.
use liuzx_skf.Domain.Dispatch.{
  Method, run, needs_login, delete_container, import_certificate, sign_data, check_pin,
  encrypt_data, decrypt_data, create_container, get_container_type, rsa_sign_data, gen_ecc_key_pair,
  gen_rsa_key_pair, create_pkcs10,
}
use liuzx_skf.Domain.{Context}
use liuzx_skf.Domain.Login.{stage}
use liuzx_skf.Domain.Grants.Pin.{pin_accepted, NamedKey}
use liuzx_skf.Domain.Release.Container.{
  create_container-Balanced, delete_container-Balanced, get_container_type-Balanced,
  import_certificate-Balanced,
}
use liuzx_skf.Domain.Release.Pin.{check_pin-Balanced}
use liuzx_skf.Domain.Release.Keys.{gen_ecc_key_pair-Balanced, gen_rsa_key_pair-Balanced}
use liuzx_skf.Domain.Release.Sign.{sign_data-Balanced, rsa_sign_data-Balanced}
use liuzx_skf.Domain.Release.Cipher.{encrypt_data-Balanced, decrypt_data-Balanced}
use liuzx_skf.Domain.Release.Requests.{create_pkcs10-Balanced}
use liuzx_skf.Domain.Login.Requests.{create_pkcs10-Guarded}
use liuzx_skf.Domain.Grants.Requests.{create_pkcs10-Modest}
use liuzx_skf.Domain.Login.Container.{create_container-Guarded, import_certificate-Guarded}
use liuzx_skf.Domain.Login.Keys.{gen_ecc_key_pair-Guarded, gen_rsa_key_pair-Guarded}
use liuzx_skf.Domain.Login.Sign.{sign_data-Guarded, rsa_sign_data-Guarded}
use liuzx_skf.Domain.Login.Cipher.{encrypt_data-Guarded, decrypt_data-Guarded}
use liuzx_skf.Domain.Grants.Container.{
  create_container-Modest, delete_container-Modest, get_container_type-Modest,
  import_certificate-Modest,
}
use liuzx_skf.Domain.Grants.Pin.{check_pin-Modest}
use liuzx_skf.Domain.Grants.Keys.{gen_ecc_key_pair-Modest, gen_rsa_key_pair-Modest}
use liuzx_skf.Domain.Grants.Sign.{sign_data-Modest, rsa_sign_data-Modest}
use liuzx_skf.Domain.Grants.Cipher.{encrypt_data-Modest, decrypt_data-Modest}
use liuzx_skf.Exec.{Outcome}
use liuzx_skf.Exec.Release.{Balanced, replay}
use liuzx_skf.Exec.Login.{Guarded, audit, Stage}
use liuzx_skf.Exec.Grants.{Kept}
use liuzx_skf.Session.Auth.{AuthKey, deadline}
use liuzx_skf.Session.State.{SessionState}
use liuzx_skf.Protocol.{Language}
use liuzx_skf.Protocol.Params.{Params}
use liuzx_skf.Common.{
  Option-cases, text_eq, ◌≡◌, refl, ◌⊎◌, inl, inr, Bool, true, false, none, some, [], arith,
}

module _ {W : Type 0} (ctx : Context W) (params : Params) (lang : Language) where
  run-Balanced : (m : Method) → Balanced [] (run ctx m params lang)
  unfolding run
  run-Balanced delete_container = delete_container-Balanced ctx params lang
  run-Balanced import_certificate = import_certificate-Balanced ctx params lang
  run-Balanced sign_data = sign_data-Balanced ctx params lang
  run-Balanced check_pin = check_pin-Balanced ctx params lang
  run-Balanced encrypt_data = encrypt_data-Balanced ctx params lang
  run-Balanced decrypt_data = decrypt_data-Balanced ctx params lang
  run-Balanced create_container = create_container-Balanced ctx params lang
  run-Balanced get_container_type = get_container_type-Balanced ctx params lang
  run-Balanced rsa_sign_data = rsa_sign_data-Balanced ctx params lang
  run-Balanced gen_ecc_key_pair = gen_ecc_key_pair-Balanced ctx params lang
  run-Balanced gen_rsa_key_pair = gen_rsa_key_pair-Balanced ctx params lang
  run-Balanced create_pkcs10 = create_pkcs10-Balanced ctx params lang

  run-Guarded :
      (m : Method) (allowed : AuthKey → Bool) (st : Stage)
      → needs_login m ≡ true
      → Guarded allowed st (run ctx m params lang)
  unfolding run needs_login
  run-Guarded delete_container allowed st h = cc
  run-Guarded import_certificate allowed st h =
      import_certificate-Guarded ctx params lang allowed st
  run-Guarded sign_data allowed st h = sign_data-Guarded ctx params lang allowed st
  run-Guarded check_pin allowed st h = cc
  run-Guarded encrypt_data allowed st h = encrypt_data-Guarded ctx params lang allowed st
  run-Guarded decrypt_data allowed st h = decrypt_data-Guarded ctx params lang allowed st
  run-Guarded create_container allowed st h = create_container-Guarded ctx params lang allowed st
  run-Guarded get_container_type allowed st h = cc
  run-Guarded rsa_sign_data allowed st h = rsa_sign_data-Guarded ctx params lang allowed st
  run-Guarded gen_ecc_key_pair allowed st h = gen_ecc_key_pair-Guarded ctx params lang allowed st
  run-Guarded gen_rsa_key_pair allowed st h = gen_rsa_key_pair-Guarded ctx params lang allowed st
  run-Guarded create_pkcs10 allowed st h = create_pkcs10-Guarded ctx params allowed lang st

  -- An outcome that comes with a grant is `CheckPIN`'s answer that it took the PIN.
  abbrev pub Excuse : Method → AuthKey → Outcome → Type 0
  Excuse m key o = (m ≡ check_pin) × (o ≡ pin_accepted params) × NamedKey ctx params lang key

  run-Modest :
      (m : Method) (s : SessionState) (w : W) (key : AuthKey)
      → Kept key s.auth (run ctx m params lang s w).session.auth
        ⊎ Excuse m key (run ctx m params lang s w).outcome
  unfolding run
  run-Modest delete_container =
      (delete_container-Modest ctx params lang (Excuse delete_container)).at
  run-Modest import_certificate =
      (import_certificate-Modest ctx params lang (Excuse import_certificate)).at
  run-Modest sign_data = (sign_data-Modest ctx params lang (Excuse sign_data)).at
  run-Modest check_pin = λ s w key. elim ((check_pin-Modest ctx params lang).at s w key) [
    | inl kept ↦ inl kept
    | inr excuse ↦ inr (refl, excuse.0, excuse.1)
  ]
  run-Modest encrypt_data = (encrypt_data-Modest ctx params lang (Excuse encrypt_data)).at
  run-Modest decrypt_data = (decrypt_data-Modest ctx params lang (Excuse decrypt_data)).at
  run-Modest create_container =
      (create_container-Modest ctx params lang (Excuse create_container)).at
  run-Modest get_container_type =
      (get_container_type-Modest ctx params lang (Excuse get_container_type)).at
  run-Modest rsa_sign_data = (rsa_sign_data-Modest ctx params lang (Excuse rsa_sign_data)).at
  run-Modest gen_ecc_key_pair =
      (gen_ecc_key_pair-Modest ctx params lang (Excuse gen_ecc_key_pair)).at
  run-Modest gen_rsa_key_pair =
      (gen_rsa_key_pair-Modest ctx params lang (Excuse gen_rsa_key_pair)).at
  run-Modest create_pkcs10 = (create_pkcs10-Modest ctx params (Excuse create_pkcs10) lang).at

-- The keys for which the session holds a grant.
abbrev pub holds : SessionState → AuthKey → Bool
holds s key = elim (deadline key s.auth) [ none ↦ false | some d ↦ true ]

-- Whatever the provider does, a handler that ends by an answer or by a panic has dropped every
-- guard that it made, the last one first, and has called only guards that were alive: its events
-- replay, from no guard alive, to no guard alive.
pub replay-run :
    {W : Type 0} (ctx : Context W) (m : Method) (params : Params) (lang : Language)
    (s : SessionState) (w : W)
    → replay [] (run ctx m params lang s w).trace ≡ some []
replay-run ctx m params lang s w = (run-Balanced ctx params lang m).at s w

-- A handler of a method that needs a login calls a privileged operation, and holds a guard of a
-- container, only after the session accepted, in the same request, a key for which it held a grant
-- when the request began and which names the provider, the device and the application in use.
pub audit-run :
    {W : Type 0} (ctx : Context W) (m : Method) (params : Params) (lang : Language)
    (s : SessionState) (w : W)
    → needs_login m ≡ true
    → audit (holds s) (stage [] [] [] false) (run ctx m params lang s w).trace ≡ true
audit-run ctx m params lang s w h =
    (run-Guarded ctx params lang m (holds s) (stage [] [] [] false) h).at s w
      (λ key refused. ground (arith, Option-cases (deadline key s.auth)))

-- After any handler, each key's grant is as it was, or gone, or the method was `CheckPIN`, it
-- answered `true`, and the key is the one that its first parameter names.
pub deadline-run :
    {W : Type 0} (ctx : Context W) (m : Method) (params : Params) (lang : Language)
    (s : SessionState) (w : W) (key : AuthKey)
    → (deadline key (run ctx m params lang s w).session.auth ≡ deadline key s.auth)
      ⊎ (deadline key (run ctx m params lang s w).session.auth ≡ none)
      ⊎ ((m ≡ check_pin)
          × ((run ctx m params lang s w).outcome ≡ pin_accepted params)
          × NamedKey ctx params lang key)
deadline-run ctx m params lang s w key = elim (run-Modest ctx params lang m s w key) [
  | inl (inl same) ↦ inl same
  | inl (inr gone) ↦ inr (inl gone)
  | inr excuse ↦ inr (inr excuse)
]
