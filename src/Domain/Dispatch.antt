-- ===== src/Domain/Dispatch.antt =====
-- The branches of `handle_request` in src/main.rs that pass a request on to a handler of
-- src/domain. The branches that it answers itself are in Service/Dispatch.
pub mod Safety
use liuzx_skf.Domain.{Context}
use liuzx_skf.Domain.Container
use liuzx_skf.Domain.Pin
use liuzx_skf.Domain.Keys
use liuzx_skf.Domain.Sign
use liuzx_skf.Domain.Cipher
use liuzx_skf.Domain.Requests
use liuzx_skf.Exec.{Handler}
use liuzx_skf.Protocol.{Language}
use liuzx_skf.Protocol.Params.{Params}
use liuzx_skf.Common.{Text, text_eq, text, get, Bool, true, false, Option, List, [], ◌∷◌, arith}

pub data Method : Type 0 where
  delete_container import_certificate sign_data check_pin encrypt_data decrypt_data : Method
  create_container get_container_type rsa_sign_data gen_ecc_key_pair gen_rsa_key_pair : Method
  create_pkcs10 : Method

-- The branches of `match req.method.as_str() { … }`, which tries them in turn.
unfoldable pub branches : List (Text × Method)
branches =
    (text "DeleteContainer", delete_container)
    ∷ (text "ImportCertificate", import_certificate)
    ∷ (text "SignData", sign_data)
    ∷ (text "CheckPIN", check_pin)
    ∷ (text "CreatePKCS10", create_pkcs10)
    ∷ (text "EncryptData", encrypt_data)
    ∷ (text "DecryptData", decrypt_data)
    ∷ (text "CreateContainer", create_container)
    ∷ (text "GetContainerType", get_container_type)
    ∷ (text "RSASignData", rsa_sign_data)
    ∷ (text "GenECCKeyPair", gen_ecc_key_pair)
    ∷ (text "GenRSAKeyPair", gen_rsa_key_pair)
    ∷ []

unfoldable pub method_of : Text → Option Method
method_of name = get name branches

-- The handler that the branch calls.
unfoldable pub run : {W : Type 0} → Context W → Method → Params → Language → Handler W
run ctx delete_container params lang = Container.delete_container ctx params lang
run ctx import_certificate params lang = Container.import_certificate ctx params lang
run ctx sign_data params lang = Sign.sign_data ctx params lang
run ctx check_pin params lang = Pin.check_pin ctx params lang
run ctx encrypt_data params lang = Cipher.encrypt_data ctx params lang
run ctx decrypt_data params lang = Cipher.decrypt_data ctx params lang
run ctx create_container params lang = Container.create_container ctx params lang
run ctx get_container_type params lang = Container.get_container_type ctx params lang
run ctx rsa_sign_data params lang = Sign.rsa_sign_data ctx params lang
run ctx gen_ecc_key_pair params lang = Keys.gen_ecc_key_pair ctx params lang
run ctx gen_rsa_key_pair params lang = Keys.gen_rsa_key_pair ctx params lang
run ctx create_pkcs10 params lang = Requests.create_pkcs10 ctx params lang

-- The methods whose handlers ask `authorized`.
unfoldable pub needs_login : Method → Bool
needs_login delete_container = false
needs_login check_pin = false
needs_login get_container_type = false
needs_login _ = true
