-- ===== src/Service/Ownership/Branches.antt =====
-- The branches of src/main.rs that use the session's handle table settle their guards.
use liuzx_skf.Session.State.{SessionState}
use liuzx_skf.Protocol.{Language}
use liuzx_skf.Protocol.Params.{Params}
use liuzx_skf.Service.{SkfContext}
use liuzx_skf.Service.Devices.{connect_dev, dis_connect_dev, generate_random, disconnect, held_or}
use liuzx_skf.Service.Hashes.{
  digest_init, digest_on_default, begin_digest, digest_update, digest_final, finish_digest,
  close_hash,
}
use liuzx_skf.Service.Raw.Devices.{digest_init_other}
use liuzx_skf.Service.Ownership.Steps.{Settles}
use liuzx_skf.Service.Ownership.Native.{handle_rules}
use liuzx_skf.Service.Ownership.Direct.{digest_init_other-Settles}
use liuzx_skf.Common.{text_eq, ℕ, ◌+◌, []}
use liuzx_skf.Exec.{or_return}

module _ {W : Type 0} (ctx : SkfContext W) (params : Params) (lang : Language) (room : ℕ)
    (s : SessionState) where
  pub connect_dev-Settles : Settles (room + 1) [] [] (connect_dev ctx params lang) s
  unfolding connect_dev
  connect_dev-Settles = search handle_rules depth 24

  pub dis_connect_dev-Settles : Settles room [] [] (dis_connect_dev ctx params lang) s
  unfolding dis_connect_dev disconnect held_or or_return
  dis_connect_dev-Settles = search handle_rules depth 24

  pub generate_random-Settles : Settles room [] [] (generate_random ctx params lang) s
  unfolding generate_random held_or or_return
  generate_random-Settles = search handle_rules depth 24

  pub digest_update-Settles : Settles room [] [] (digest_update ctx params lang) s
  unfolding digest_update held_or or_return
  digest_update-Settles = search handle_rules depth 24

  pub digest_final-Settles : Settles room [] [] (digest_final ctx params lang) s
  unfolding digest_final finish_digest held_or or_return
  digest_final-Settles = search handle_rules depth 24

  pub close_hash-Settles : Settles room [] [] (close_hash ctx params lang) s
  unfolding close_hash held_or or_return
  close_hash-Settles = search handle_rules depth 24

  pub digest_init-Settles :
      Settles
        (room + 1 + 1)
        []
        []
        (digest_init ctx params lang (digest_init_other ctx params lang))
        s
  unfolding digest_init digest_on_default begin_digest
  digest_init-Settles = search (handle_rules, digest_init_other-Settles) depth 24
