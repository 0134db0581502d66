-- ===== src/Domain/Classification.antt =====
-- src/domain/classification.rs: the class of each method, and the methods that a deployment may
-- restrict.
use liuzx_skf.Protocol.{Json, RpcResponse, respond_err}
use liuzx_skf.Common.{
  if◌then◌else◌, ℤ, negsuc, Text, ◌===◌, text_eq, text, get, Bool, ◌||◌, not, Option, none, some,
  List, [], ◌∷◌, ◌++◌,
}

pub data OperationClass : Type 0 where
  read_only destructive : OperationClass

unfoldable pub classified_methods : List (Text × OperationClass)
classified_methods =
    (text "SetLanguage", read_only)
    ∷ (text "WaitForDevEvent", read_only)
    ∷ (text "EnumProvider", read_only)
    ∷ (text "EnumDevice", read_only)
    ∷ (text "ConnectDev", destructive)
    ∷ (text "EnumApplication", read_only)
    ∷ (text "EnumContainer", read_only)
    ∷ (text "DeleteContainer", destructive)
    ∷ (text "IssueCertificate", destructive)
    ∷ (text "ImportCertificate", destructive)
    ∷ (text "SignData", read_only)
    ∷ (text "DisConnectDev", destructive)
    ∷ (text "FindCertificates", read_only)
    ∷ (text "GenerateRandom", read_only)
    ∷ (text "Digest", read_only)
    ∷ (text "CheckPIN", destructive)
    ∷ (text "CreatePKCS10", destructive)
    ∷ (text "EncryptData", read_only)
    ∷ (text "DecryptData", read_only)
    ∷ (text "GetDevInfo", read_only)
    ∷ (text "GetDevState", read_only)
    ∷ (text "SetLabel", destructive)
    ∷ (text "ECCVerify", read_only)
    ∷ (text "CreateContainer", destructive)
    ∷ (text "GetContainerType", read_only)
    ∷ (text "RSASignData", read_only)
    ∷ (text "LockDev", destructive)
    ∷ (text "UnlockDev", destructive)
    ∷ (text "Transmit", destructive)
    ∷ (text "CancelWaitForDevEvent", read_only)
    ∷ (text "GenECCKeyPair", destructive)
    ∷ (text "GenRSAKeyPair", destructive)
    ∷ (text "RSAVerify", read_only)
    ∷ (text "DigestInit", read_only)
    ∷ (text "DigestUpdate", read_only)
    ∷ (text "DigestFinal", read_only)
    ∷ (text "CloseHash", read_only)
    ∷ (text "GetProtocolVersion", read_only)
    ∷ []

-- `classify`: the first entry of that name
unfoldable pub classify : Text → Option OperationClass
unfolding classified_methods
classify method = get method classified_methods

abbrev pub restricted_error : ℤ
restricted_error = negsuc 99

-- `is_restricted`, with the set `RESTRICTED_METHODS`
unfoldable pub is_restricted : Text → Bool
is_restricted method = method === text "IssueCertificate" || method === text "Transmit"

unfoldable pub restricted_rejection : Text → Bool → Option Json → Option RpcResponse
unfolding is_restricted
restricted_rejection method enabled id =
    if not enabled || not (is_restricted method)
    then none
    else some (
        respond_err restricted_error
          (text "Method "
            ++ method
            ++ text " is restricted in this deployment; see RELEASE-NOTES.md")
          id)
