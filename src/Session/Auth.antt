-- ===== src/Session/Auth.antt =====
-- src/session/auth.rs: the authorization grants that one session holds. `Instant::now()` is the
-- argument `now` of each operation, in the clock's smallest unit, as is the lifetime `ttl`; the
-- clock does not overflow.
pub mod Expiry
pub mod History
use liuzx_skf.Common.{
  ℕ, ◌+◌, ◌-◌, ◌≡◌, ◌↔◌, refl, Bool, ◌&&◌, not, Option, none, some, List, [], Text, Eq, ◌===◌,
  text_eq, text_eq_iff, text_beq, Result, ok, err, arith, leb, get, insert, remove, retain, length,
  if◌then◌else◌, true,
}

pub data AuthRejection : Type 0 where
  not_authorized expired device_unavailable : AuthRejection

pub record AuthKey : Type 0 where
  pub provider : Text
  pub device : Text
  pub application : Text

unfoldable pub auth_key_beq : AuthKey → AuthKey → Bool
auth_key_beq a b =
    a.provider === b.provider && (a.device === b.device && a.application === b.application)

pub auth_key_beq_iff : (a b : AuthKey) → (auth_key_beq a b ≡ true) ↔ (a ≡ b)
unfolding auth_key_beq
auth_key_beq_iff a b = (
  λ h. ground (
    arith,
    text_eq_iff a.provider b.provider,
    text_eq_iff a.device b.device,
    text_eq_iff a.application b.application,
  ),
  λ h. ground (
    arith,
    text_eq_iff a.provider b.provider,
    text_eq_iff a.device b.device,
    text_eq_iff a.application b.application,
  ),
)

instance abbrev pub auth_key_eq : Eq AuthKey
auth_key_eq = record { beq = auth_key_beq; beq_iff = auth_key_beq_iff }

pub record Grant : Type 0 where
  pub expires_at : ℕ

pub record AuthTable : Type 0 where
  pub grants : List (AuthKey × Grant)
  pub ttl : ℕ

unfoldable pub new : ℕ → AuthTable
new ttl = record { grants = []; ttl = ttl }

-- `AuthTable::grant`
unfoldable pub grant : ℕ → AuthKey → AuthTable → AuthTable
grant now key t = record t { grants = insert key (record { expires_at = now + t.ttl }) t.grants }

-- `AuthTable::check`: an expired grant is removed.
unfoldable pub check : ℕ → AuthKey → AuthTable → Result AuthRejection (Unit {0}) × AuthTable
check now key t = elim (get key t.grants) [
  | none ↦ (err not_authorized, t)
  | some g ↦
      if leb g.expires_at now
      then (err expired, record t { grants = remove key t.grants })
      else (ok tt, t)
]

-- Whether a key names an application of the device.
unfoldable pub on_device : Text → Text → AuthKey → Bool
on_device provider device key = key.provider === provider && key.device === device

-- `AuthTable::invalidate_device`, with the number of grants removed.
unfoldable pub invalidate_device : Text → Text → AuthTable → ℕ × AuthTable
unfolding on_device
invalidate_device provider device t =
    let kept = retain (λ key. not (on_device provider device key)) t.grants in
    (length t.grants - length kept, record t { grants = kept })

-- `AuthTable::len`
unfoldable pub len : AuthTable → ℕ
len t = length t.grants

-- The deadline that the table holds for a key.
unfoldable pub deadline : AuthKey → AuthTable → Option ℕ
deadline key t = elim (get key t.grants) [ none ↦ none | some g ↦ some g.expires_at ]
