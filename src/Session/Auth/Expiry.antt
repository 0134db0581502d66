-- ===== src/Session/Auth/Expiry.antt =====
-- What `check` answers after the other operations of src/session/auth.rs.
use liuzx_skf.Common.{
  ℕ, ◌+◌, ◌≤◌, ◌≡◌, Bool, false, not, Option, none, some, Text, ok, err, arith, ltb, ◌===◌,
  get-insert, get-remove, get-retain, if◌then◌else◌,
}
use liuzx_skf.Session.Auth.{
  AuthKey, AuthTable, not_authorized, expired, grant, check, invalidate_device, on_device,
  auth_key_eq, auth_key_beq_iff, deadline, Grant,
}

pub deadline-grant :
    (now : ℕ) (k j : AuthKey) (t : AuthTable)
    → deadline j (grant now k t) ≡ (if k === j then some (now + t.ttl) else deadline j t)
unfolding deadline grant
deadline-grant now k j t =
    let g : Grant = record { expires_at = now + t.ttl } in ground (arith, get-insert k j g t.grants)

pub deadline-invalidate_device :
    (p v : Text) (j : AuthKey) (t : AuthTable)
    → deadline j (invalidate_device p v t).1 ≡ (if on_device p v j then none else deadline j t)
unfolding deadline invalidate_device
deadline-invalidate_device p v j t =
    ground (arith, get-retain (λ key. not (on_device p v key)) j t.grants)

-- Whether a deadline is still to come.
abbrev pub is_live : ℕ → Option ℕ → Bool
is_live now none = false
is_live now (some d) = ltb now d

-- A check removes nothing that is live later on.
pub is_live-check :
    (now later : ℕ) (k j : AuthKey) (t : AuthTable)
    → now ≤ later
    → is_live later (deadline j (check now k t).1) ≡ is_live later (deadline j t)
unfolding deadline check
is_live-check now later k j t h = ground (arith, get-remove k j t.grants, auth_key_beq_iff k j)

-- `check` succeeds exactly when the deadline of its key is still to come.
pub check-deadline :
    (now : ℕ) (k : AuthKey) (t : AuthTable)
    → (check now k t).0 ≡ (elim (deadline k t) [
      | none ↦ err not_authorized
      | some d ↦ if ltb now d then ok tt else err expired
    ])
unfolding deadline check
check-deadline now k t = ground arith
