-- ===== src/Service/Dispatch.antt =====
-- src/main.rs: the branches of `handle_request` that it answers itself, by their methods' names.
use liuzx_skf.Protocol.{Language}
use liuzx_skf.Protocol.Params.{Params}
use liuzx_skf.Exec.{Handler}
use liuzx_skf.Service.{SkfContext}
use liuzx_skf.Service.Devices
use liuzx_skf.Service.Hashes
use liuzx_skf.Service.Queries
use liuzx_skf.Service.Raw.Devices as Direct
use liuzx_skf.Service.Raw.Certificates
use liuzx_skf.Service.Raw.KeyPairs
use liuzx_skf.Service.Raw.Lists
use liuzx_skf.Service.Raw.Verify
use liuzx_skf.Common.{Text, text_eq, text, List, [], ◌∷◌}

pub data Branch : Type 0 where
  get_protocol_version wait_for_dev_event enum_provider enum_device connect_dev : Branch
  enum_application enum_container dis_connect_dev generate_random digest_data : Branch
  get_dev_info get_dev_state set_label ecc_verify lock_dev unlock_dev transmit : Branch
  cancel_wait_for_dev_event rsa_verify digest_init digest_update digest_final close_hash : Branch
  import_key_pair find_certificates : Branch

unfoldable pub own_branches : List (Text × Branch)
own_branches =
    (text "GetProtocolVersion", get_protocol_version)
    ∷ (text "WaitForDevEvent", wait_for_dev_event)
    ∷ (text "EnumProvider", enum_provider)
    ∷ (text "EnumDevice", enum_device)
    ∷ (text "ConnectDev", connect_dev)
    ∷ (text "EnumApplication", enum_application)
    ∷ (text "EnumContainer", enum_container)
    ∷ (text "ImportKeyPair", import_key_pair)
    ∷ (text "DisConnectDev", dis_connect_dev)
    ∷ (text "FindCertificates", find_certificates)
    ∷ (text "GenerateRandom", generate_random)
    ∷ (text "Digest", digest_data)
    ∷ (text "GetDevInfo", get_dev_info)
    ∷ (text "GetDevState", get_dev_state)
    ∷ (text "SetLabel", set_label)
    ∷ (text "ECCVerify", ecc_verify)
    ∷ (text "LockDev", lock_dev)
    ∷ (text "UnlockDev", unlock_dev)
    ∷ (text "Transmit", transmit)
    ∷ (text "CancelWaitForDevEvent", cancel_wait_for_dev_event)
    ∷ (text "RSAVerify", rsa_verify)
    ∷ (text "DigestInit", digest_init)
    ∷ (text "DigestUpdate", digest_update)
    ∷ (text "DigestFinal", digest_final)
    ∷ (text "CloseHash", close_hash)
    ∷ []

unfoldable pub run_branch : {W : Type 0} → SkfContext W → Branch → Params → Language → Handler W
run_branch ctx get_protocol_version params lang = Queries.get_protocol_version ctx params lang
run_branch ctx wait_for_dev_event params lang = Queries.wait_for_dev_event ctx params lang
run_branch ctx enum_provider params lang = Queries.enum_provider ctx params lang
run_branch ctx enum_device params lang = Lists.enum_device ctx params lang
run_branch ctx connect_dev params lang = Devices.connect_dev ctx params lang
run_branch ctx enum_application params lang = Lists.enum_application ctx params lang
run_branch ctx enum_container params lang = Lists.enum_container ctx params lang
run_branch ctx import_key_pair params lang = KeyPairs.import_key_pair ctx params lang
run_branch ctx find_certificates params lang = Certificates.find_certificates ctx params
run_branch ctx dis_connect_dev params lang = Devices.dis_connect_dev ctx params lang
run_branch ctx generate_random params lang = Devices.generate_random ctx params lang
run_branch ctx digest_data params lang = Verify.digest_data ctx params lang
run_branch ctx get_dev_info params lang = Direct.get_dev_info ctx params lang
run_branch ctx get_dev_state params lang = Direct.get_dev_state ctx params lang
run_branch ctx set_label params lang = Direct.set_label ctx params lang
run_branch ctx ecc_verify params lang = Verify.ecc_verify ctx params lang
run_branch ctx lock_dev params lang = Direct.lock_dev ctx params lang
run_branch ctx unlock_dev params lang = Direct.unlock_dev ctx params lang
run_branch ctx transmit params lang = Direct.transmit ctx params lang
run_branch ctx cancel_wait_for_dev_event params lang =
    Queries.cancel_wait_for_dev_event ctx params lang
run_branch ctx rsa_verify params lang = Verify.rsa_verify ctx params lang
run_branch ctx digest_init params lang =
    Hashes.digest_init ctx params lang (Direct.digest_init_other ctx params lang)
run_branch ctx digest_update params lang = Hashes.digest_update ctx params lang
run_branch ctx digest_final params lang = Hashes.digest_final ctx params lang
run_branch ctx close_hash params lang = Hashes.close_hash ctx params lang
