-- ===== src/Native/Guards/Digest.antt =====
-- src/provider/native.rs: the methods of `Arc<NativeDigest>`.
use liuzx_skf.Provider.{Call}
use liuzx_skf.Native.{Library}
use liuzx_skf.Native.Api.Crypto
use liuzx_skf.Native.Buffers.{completed, truncated, hash_buf_len}
use liuzx_skf.Native.Guards.{NativeState, NativeDigest, finish, drop_raw}
use liuzx_skf.Common.{length, replicate, Bytes, text_eq, text, ◌%◌, ◌^◌}

module _ {W : Type 0} (lib : Library W) (self : NativeDigest) where
  unfoldable pub drop_digest : NativeState W → NativeState W
  unfolding drop_raw
  drop_digest = drop_raw self.raw (Crypto.close_hash lib self.raw)

  unfoldable pub update : Bytes → Call (NativeState W) (Unit {0})
  unfolding finish completed
  update input =
      finish (completed (text "DigestUpdate"))
        (Crypto.digest_update lib self.raw input (length input % 2 ^ 32))

  unfoldable pub finalize : Call (NativeState W) Bytes
  unfolding finish truncated
  finalize =
      finish (truncated (text "DigestFinal"))
        (Crypto.digest_final lib self.raw (replicate hash_buf_len 0) hash_buf_len)
