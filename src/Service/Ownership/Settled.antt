-- ===== src/Service/Ownership/Settled.antt =====
-- Every branch of src/main.rs accounts for the native resources, by the lemmas on each of them.
use liuzx_skf.Session.Handles.Lifecycle.{IsValid}
use liuzx_skf.Session.State.{SessionState}
use liuzx_skf.Protocol.{Language, as_str}
use liuzx_skf.Protocol.Params.{Params, value_at}
use liuzx_skf.Native.Buffers.{has_nul}
use liuzx_skf.Service.{SkfContext}
use liuzx_skf.Service.Queries
use liuzx_skf.Service.Dispatch.{Branch, run_branch}
use liuzx_skf.Service.Ownership.{follow, owned}
use liuzx_skf.Service.Ownership.Steps.{Settles}
use liuzx_skf.Service.Ownership.Native.{native_rules}
use liuzx_skf.Service.Ownership.Branches
use liuzx_skf.Service.Ownership.Direct
use liuzx_skf.Common.{
  Text, text_eq, ◌+◌, ◌^◌, ◌<◌, ◌≡◌, refl, ap, ◌∙◌, fun_ext, ◌≢◌, false, some, [], arith,
}

-- The second name of the two branches that make it a `CString` while a handle is open has no zero
-- byte.
abbrev pub Plain : Branch → Params → Type 0
Plain Branch.set_label params =
    (label : Text) → value_at as_str params 2 ≡ some label → has_nul label ≡ false
Plain Branch.enum_container params =
    (app_name : Text) → value_at as_str params 2 ≡ some app_name → has_nul app_name ≡ false
Plain _ params = Unit

module _ {W : Type 0} (ctx : SkfContext W) (params : Params) (lang : Language)
    (s : SessionState) where
  get_protocol_version-Settles : Settles 2 [] [] (Queries.get_protocol_version ctx params lang) s
  unfolding Queries.get_protocol_version
  get_protocol_version-Settles = search native_rules depth 24

  wait_for_dev_event-Settles : Settles 2 [] [] (Queries.wait_for_dev_event ctx params lang) s
  unfolding Queries.wait_for_dev_event Queries.wait_on_default Queries.wait_on_other
  wait_for_dev_event-Settles = search native_rules depth 24

  enum_provider-Settles : Settles 2 [] [] (Queries.enum_provider ctx params lang) s
  unfolding Queries.enum_provider
  enum_provider-Settles = search native_rules depth 24

  cancel_wait_for_dev_event-Settles :
      Settles 2 [] [] (Queries.cancel_wait_for_dev_event ctx params lang) s
  unfolding Queries.cancel_wait_for_dev_event
  cancel_wait_for_dev_event-Settles = search native_rules depth 24

  run_branch-Settles :
      (b : Branch)
      → b ≢ Branch.digest_data
      → b ≢ Branch.import_key_pair
      → b ≢ Branch.find_certificates
      → Plain b params
      → Settles 2 [] [] (run_branch ctx b params lang) s
  unfolding run_branch
  run_branch-Settles Branch.get_protocol_version n i c p = get_protocol_version-Settles
  run_branch-Settles Branch.wait_for_dev_event n i c p = wait_for_dev_event-Settles
  run_branch-Settles Branch.enum_provider n i c p = enum_provider-Settles
  run_branch-Settles Branch.enum_device n i c p = Direct.enum_device-Settles ctx params lang 2 s
  run_branch-Settles Branch.connect_dev n i c p = Branches.connect_dev-Settles ctx params lang 1 s
  run_branch-Settles Branch.enum_application n i c p =
      Direct.enum_application-Settles ctx params lang 2 s
  run_branch-Settles Branch.enum_container n i c p =
      Direct.enum_container-Settles ctx params lang 2 s p
  run_branch-Settles Branch.dis_connect_dev n i c p =
      Branches.dis_connect_dev-Settles ctx params lang 2 s
  run_branch-Settles Branch.generate_random n i c p =
      Branches.generate_random-Settles ctx params lang 2 s
  run_branch-Settles Branch.digest_data n i c p = absurd (n refl)
  run_branch-Settles Branch.import_key_pair n i c p = absurd (i refl)
  run_branch-Settles Branch.find_certificates n i c p = absurd (c refl)
  run_branch-Settles Branch.get_dev_info n i c p = Direct.get_dev_info-Settles ctx params lang 2 s
  run_branch-Settles Branch.get_dev_state n i c p = Direct.get_dev_state-Settles ctx params lang 2 s
  run_branch-Settles Branch.set_label n i c p = Direct.set_label-Settles ctx params lang 2 s p
  run_branch-Settles Branch.ecc_verify n i c p = Direct.ecc_verify-Settles ctx params lang 2 s
  run_branch-Settles Branch.lock_dev n i c p = Direct.lock_dev-Settles ctx params lang 2 s
  run_branch-Settles Branch.unlock_dev n i c p = Direct.unlock_dev-Settles ctx params lang 2 s
  run_branch-Settles Branch.transmit n i c p = Direct.transmit-Settles ctx params lang 2 s
  run_branch-Settles Branch.cancel_wait_for_dev_event n i c p = cancel_wait_for_dev_event-Settles
  run_branch-Settles Branch.rsa_verify n i c p = Direct.rsa_verify-Settles ctx params lang 2 s
  run_branch-Settles Branch.digest_init n i c p = Branches.digest_init-Settles ctx params lang 0 s
  run_branch-Settles Branch.digest_update n i c p =
      Branches.digest_update-Settles ctx params lang 2 s
  run_branch-Settles Branch.digest_final n i c p = Branches.digest_final-Settles ctx params lang 2 s
  run_branch-Settles Branch.close_hash n i c p = Branches.close_hash-Settles ctx params lang 2 s

-- After any branch but `Digest`, `ImportKeyPair` and `FindCertificates`, the session's handle table
-- is valid, and the native resources that are alive are exactly the guards that it holds: nothing
-- else is left open, nothing is closed twice, and nothing is used before it is opened or after it is
-- closed. This holds for a session whose table is valid and has two handles left, and names without
-- a zero byte in the third parameter of `SetLabel` and `EnumContainer`.
pub follow-run_branch :
    {W : Type 0} (ctx : SkfContext W) (b : Branch) (params : Params) (lang : Language)
    (s : SessionState) (w : W)
    → b ≢ Branch.digest_data
    → b ≢ Branch.import_key_pair
    → b ≢ Branch.find_certificates
    → Plain b params
    → IsValid s.handles
    → s.handles.next_id + 2 < 2 ^ 64
    → IsValid (run_branch ctx b params lang s w).session.handles
      × (follow (owned s.handles) (run_branch ctx b params lang s w).trace
          ≡ some (owned (run_branch ctx b params lang s w).session.handles))
follow-run_branch ctx b params lang s w n i c p v room =
    let (v', (g, e, d)) =
      (run_branch-Settles ctx params lang s b n i c p).at w (owned s.handles) v room
        (λ x. omega arith) in
    (v', e ∙ ap some (fun_ext (λ x. omega (arith, d x))))
