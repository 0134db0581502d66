-- ===== src/Native/Guards.antt =====
-- src/provider/native.rs: the guards over the library, with the two counters that number them. The
-- gate, a mutex, is not modelled: here the calls come one after another.
pub mod Device
pub mod Application
pub mod Container
pub mod Digest
pub mod Provider
pub mod Missing
use liuzx_skf.Provider.{
  ProviderError, Call, from_native, DeviceHandle, AppHandle, ContainerHandle, DigestHandle,
}
use liuzx_skf.Native.{Native, sar_ok}
use liuzx_skf.Native.Buffers.{cstring}
use liuzx_skf.Common.{◌==◌, if◌then◌else◌, Result, ok, err, Text, text_eq, ℕ, ◌+◌, ◌%◌, ◌^◌, arith}

-- The state behind a provider: the vendor's, `next_handle` of the provider, and the process-wide
-- `NEXT_NESTED_HANDLE`. Both counters are `u64`.
pub record NativeState (W : Type 0) : Type 0 where
  pub vendor : W
  pub next_handle : ℕ
  pub next_nested : ℕ

pub record NativeDevice : Type 0 where
  pub raw : ℕ
  pub name : Text
  pub exposed : DeviceHandle

pub record NativeApplication : Type 0 where
  pub device : NativeDevice
  pub raw : ℕ
  pub exposed : AppHandle

pub record NativeContainer : Type 0 where
  pub application : NativeApplication
  pub raw : ℕ
  pub exposed : ContainerHandle

pub record NativeDigest : Type 0 where
  pub device : NativeDevice
  pub raw : ℕ
  pub exposed : DigestHandle

module _ {W : Type 0} where
  -- A call into the library.
  unfoldable pub vendor_call : {A : Type 0} → Native W A → NativeState W → (ℕ × A) × NativeState W
  vendor_call call s = let (r, w) = call s.vendor in (r, record s { vendor = w })

  -- A call, and what the method makes of its code and its out parameters.
  unfoldable pub finish :
      {A B : Type 0} → (ℕ × A → Result ProviderError B) → Native W A → Call (NativeState W) B
  unfolding vendor_call
  finish f call s = let (r, s') = vendor_call call s in (f r, s')

  -- `let c_name = cstring(name, context)?;`
  unfoldable pub with_cstring :
      {B : Type 0} → Text → Text → (Text → Call (NativeState W) B) → Call (NativeState W) B
  with_cstring name context k s = elim (cstring name context) [
    | ok c_name ↦ k c_name s
    | err e ↦ (err e, s)
  ]

  -- A nested guard: on success it takes the counter's value, which wraps.
  unfoldable pub nested : {B : Type 0} → Text → (ℕ → ℕ → B) → Native W ℕ → Call (NativeState W) B
  unfolding vendor_call
  nested context make call s =
      let ((ret, raw), s') = vendor_call call s in
      if ret == sar_ok
      then (ok (make raw s'.next_nested), record s' { next_nested = (s'.next_nested + 1) % 2 ^ 64 })
      else (err (from_native ret context), s')

  -- `Drop`: a null handle is not closed, and the code of the call is not read.
  unfoldable pub drop_raw : ℕ → Native W (Unit {0}) → NativeState W → NativeState W
  unfolding vendor_call
  drop_raw raw close s = if raw == 0 then s else (vendor_call close s).1
