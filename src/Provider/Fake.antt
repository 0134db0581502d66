-- ===== src/Provider/Fake.antt =====
-- src/provider/fake.rs: the provider in memory that the repository tests its handlers with. Its
-- state holds a queue of the failures to inject, a log of the calls, and what the process has slept;
-- the names of the guards that are open stand in the state.
pub mod Injection
pub mod Guards
use liuzx_skf.Provider.{
  Provider, ProviderError, SkfError, PinOutcome, Call, DeviceInfo, EccPublicKey, RsaPublicKey,
  DeviceHandle, AppHandle, ContainerHandle, DigestHandle, Operation, native, injected, blocking,
  pin_incorrect, pin_locked,
}
use liuzx_skf.Common.{
  ◌==◌, if◌then◌else◌, Result, ok, err, replicate, Text, Bytes, text_eq, text, ℕ, ◌+◌, ◌%◌, ◌^◌,
  Bool, true, false, Option, none, some, List, [], ◌∷◌, ◌++◌, arith,
}

pub op_index : Operation → ℕ
op_index Operation.enum_devices = 0
op_index Operation.device_state = 1
op_index Operation.wait_for_event = 2
op_index Operation.cancel_wait_for_event = 3
op_index Operation.open_device = 4
op_index Operation.close_device = 5
op_index Operation.lock_device = 6
op_index Operation.unlock_device = 7
op_index Operation.transmit = 8
op_index Operation.random = 9
op_index Operation.device_info = 10
op_index Operation.set_label = 11
op_index Operation.enum_applications = 12
op_index Operation.open_application = 13
op_index Operation.close_application = 14
op_index Operation.verify_pin = 15
op_index Operation.enum_containers = 16
op_index Operation.open_container = 17
op_index Operation.close_container = 18
op_index Operation.create_container = 19
op_index Operation.delete_container = 20
op_index Operation.container_type = 21
op_index Operation.export_certificate = 22
op_index Operation.import_certificate = 23
op_index Operation.sign_ecc = 24
op_index Operation.sign_rsa = 25
op_index Operation.ecc_verify = 26
op_index Operation.rsa_verify = 27
op_index Operation.digest_begin = 28
op_index Operation.digest_update = 29
op_index Operation.digest_final = 30
op_index Operation.close_digest = 31
op_index Operation.gen_ecc_key_pair = 32
op_index Operation.gen_rsa_key_pair = 33
op_index Operation.import_ecc_key_pair = 34
op_index Operation.import_rsa_key_pair = 35
op_index Operation.set_symm_key = 36
op_index Operation.encrypt_data = 37
op_index Operation.decrypt_data = 38

pub record FakeInner : Type 0 where
  pub alias : Text
  -- the failures of all operations in one queue: those of one operation keep their order
  pub failures : List (Operation × SkfError)
  pub calls : List Operation
  pub next_handle : ℕ
  pub devices : List Text
  pub device_state : ℕ
  pub containers : List Text
  pub digest_output : Bytes
  pub pending_event : Option (Text × ℕ)
  pub names : List (ℕ × Text)
  pub slept : ℕ

abbrev pub first_handle : ℕ
first_handle = 1000

-- `FakeSkfProvider::with_devices`
unfoldable pub with_devices : Text → List Text → FakeInner
with_devices alias devices = record {
  alias = alias;
  failures = [];
  calls = [];
  next_handle = first_handle;
  devices = devices;
  device_state = 0;
  containers = [];
  digest_output = replicate 32 0xAB;
  pending_event = none;
  names = [];
  slept = 0;
}

unfoldable pub op_beq : Operation → Operation → Bool
unfolding op_index
op_beq a b = op_index a == op_index b

-- `failures.get_mut(&op).and_then(VecDeque::pop_front)`
unfoldable pub pop_failure :
    Operation → List (Operation × SkfError) → Option SkfError × List (Operation × SkfError)
unfolding op_beq
pop_failure op [] = (none, [])
pop_failure op ((o, e) ∷ queue) =
    let rest = pop_failure op queue in
    if op_beq o op then (some e, queue) else (rest.0, (o, e) ∷ rest.1)

-- `FakeSkfProvider::fail_next`
unfoldable pub fail_next : Operation → SkfError → FakeInner → FakeInner
fail_next op e w = record w { failures = w.failures ++ (op, e) ∷ [] }

-- `FakeInner::record`
unfoldable pub log : Operation → FakeInner → FakeInner
log op w = record w { calls = w.calls ++ op ∷ [] }

-- What `begin` does with the failure that it took.
unfoldable pub inject : Option SkfError → Call FakeInner (Unit {0})
inject none w = (ok tt, w)
inject (some (blocking delay)) w = (ok tt, record w { slept = w.slept + delay })
inject (some e) w = (err (injected e), w)

-- `FakeInner::begin`
unfoldable pub begin : Operation → Call FakeInner (Unit {0})
unfolding log pop_failure inject
begin op w =
    let w' = log op w in
    let (failure, queue) = pop_failure op w'.failures in
    inject failure (record w' { failures = queue })

-- `self.inner.begin(op)?` and what follows it
unfoldable pub began : {A : Type 0} → Operation → (FakeInner → A × FakeInner) → Call FakeInner A
unfolding begin
began op f w =
    let (r, w') = begin op w in
    elim r [ ok u ↦ (let (a, w'') = f w' in (ok a, w'')) | err e ↦ (err e, w') ]

-- `FakeInner::next_handle`; the counter is an `AtomicU64`.
unfoldable pub take_handle : FakeInner → ℕ × FakeInner
take_handle w = (w.next_handle, record w { next_handle = (w.next_handle + 1) % 2 ^ 64 })

abbrev pub answer : {A : Type 0} → A → FakeInner → A × FakeInner
answer a w = (a, w)

unfoldable pub open_device : Text → Call FakeInner DeviceHandle
unfolding began take_handle
open_device name = began Operation.open_device (λ w.
    let (h, w') = take_handle w in
    (record { value = h }, record w' { names = (h, name) ∷ w'.names }))

unfoldable pub open_application : DeviceHandle → Text → Call FakeInner AppHandle
unfolding began take_handle
open_application d name =
    began Operation.open_application
      (λ w. let (h, w') = take_handle w in (record { value = h }, w'))

unfoldable pub new_container : Operation → AppHandle → Text → Call FakeInner ContainerHandle
unfolding began take_handle
new_container op a name = began op (λ w. let (h, w') = take_handle w in (record { value = h }, w'))

unfoldable pub begin_digest : DeviceHandle → ℕ → Bytes → Call FakeInner DigestHandle
unfolding began take_handle
begin_digest d alg_id id =
    began Operation.digest_begin (λ w. let (h, w') = take_handle w in (record { value = h }, w'))

-- A wrong PIN is an outcome, not an error.
unfoldable pub pin_result : Result ProviderError (Unit {0}) → Result ProviderError PinOutcome
pin_result (ok u) = ok (record { success = true; retry_count = 3; code = 0 })
pin_result (err (injected pin_incorrect)) =
    ok (record { success = false; retry_count = 2; code = 0x0A00002F })
pin_result (err (injected pin_locked)) =
    ok (record { success = false; retry_count = 0; code = 0x0A000030 })
pin_result (err e) = err e

unfoldable pub verify_pin : AppHandle → Text → Call FakeInner PinOutcome
unfolding begin pin_result
verify_pin a pin w = let (r, w') = begin Operation.verify_pin w in (pin_result r, w')

-- `self.pending_event.take()`
unfoldable pub wait_for_event : ℕ → Call FakeInner (Text × ℕ)
unfolding begin
wait_for_event buf_len w =
    let (r, w') = begin Operation.wait_for_event w in
    elim r [
      | ok u ↦ elim w'.pending_event [
        | some event ↦ (ok event, record w' { pending_event = none })
        | none ↦ (err (native 0x0A000022 (text "WaitForDevEvent")), w')
      ]
      | err e ↦ (err e, w')
    ]

unfoldable pub encrypt : ContainerHandle → ℕ → Bytes → ℕ → Bytes → Call FakeInner Bytes
unfolding began
encrypt c alg_id iv padding bytes = began Operation.encrypt_data (answer (0xEE ∷ bytes))

abbrev pub unmarked : Bytes → Bytes
unmarked [] = []
unmarked (b ∷ bytes) = if b == 0xEE then bytes else b ∷ bytes

unfoldable pub decrypt : ContainerHandle → ℕ → Bytes → ℕ → Bytes → Call FakeInner Bytes
unfolding began
decrypt c alg_id iv padding bytes = began Operation.decrypt_data (answer (unmarked bytes))
