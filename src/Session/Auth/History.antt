-- ===== src/Session/Auth/History.antt =====
-- The grants of one session over its whole life, against a specification that looks only at the
-- successful verifications and the device failures, and knows nothing of the table.
use liuzx_skf.Common.{
  if◌then◌else◌, Text, ◌===◌, text_eq, ℕ, ◌+◌, ◌≤◌, ◌≡◌, refl, ◌∙◌, Option, none, some, List, [],
  ◌∷◌, arith, is_ok, get,
}
use liuzx_skf.Session.Auth.{
  AuthKey, AuthTable, grant, check, auth_key_eq, invalidate_device, on_device, deadline, new, Text,
  ℕ, List, Option, ◌≡◌, if◌then◌else◌, arith, ◌===◌, some, ◌+◌, none,
}
use liuzx_skf.Session.Auth.Expiry.{
  is_live, is_live-check, deadline-grant, deadline-invalidate_device, check-deadline,
}

-- What a session does to its table: a verified PIN, an authorization check, a lost device.
pub data AuthEvent : Type 0 where
  verified : AuthKey → AuthEvent
  checked : AuthKey → AuthEvent
  lost : Text → Text → AuthEvent

unfoldable pub step : ℕ → AuthEvent → AuthTable → AuthTable
step now (verified k) t = grant now k t
step now (checked k) t = (check now k t).1
step now (lost provider device) t = (invalidate_device provider device t).1

-- Events with their times, oldest first.
unfoldable pub run : List (ℕ × AuthEvent) → AuthTable → AuthTable
unfolding step
run [] t = t
run ((now, e) ∷ es) t = run es (step now e t)

-- The deadline that the last verification of `k` set, unless its device was lost since.
unfoldable pub spec_step : ℕ → AuthKey → ℕ → AuthEvent → Option ℕ → Option ℕ
spec_step ttl k now (verified j) d = if j === k then some (now + ttl) else d
spec_step ttl k now (checked j) d = d
spec_step ttl k now (lost provider device) d = if on_device provider device k then none else d

unfoldable pub spec : ℕ → AuthKey → List (ℕ × AuthEvent) → Option ℕ → Option ℕ
unfolding spec_step
spec ttl k [] d = d
spec ttl k ((now, e) ∷ es) d = spec ttl k es (spec_step ttl k now e d)

-- The times lie between `start` and `last`, and do not fall.
abbrev pub Ordered : ℕ → ℕ → List (ℕ × AuthEvent) → Type 0
Ordered start last [] = start ≤ last
Ordered start last ((now, e) ∷ es) = (start ≤ now) × Ordered now last es

ttl-step : (now : ℕ) (e : AuthEvent) (t : AuthTable) → (step now e t).ttl ≡ t.ttl
unfolding step grant check invalidate_device
ttl-step now (verified k) t = refl
ttl-step now (checked k) t = ground arith
ttl-step now (lost p v) t = refl

-- Table and specification agree from `now` on.
abbrev Agrees : ℕ → AuthKey → AuthTable → Option ℕ → Type 0
Agrees now k t d = (later : ℕ) → now ≤ later → is_live later (deadline k t) ≡ is_live later d

step-Agrees :
    (now : ℕ) (e : AuthEvent) (k : AuthKey) (t : AuthTable) (d : Option ℕ)
    → Agrees now k t d
    → Agrees now k (step now e t) (spec_step t.ttl k now e d)
unfolding step spec_step
step-Agrees now (verified j) k t d h later p = ground (arith, deadline-grant now j k t, h later)
step-Agrees now (checked j) k t d h later p = is_live-check now later j k t p ∙ h later p
step-Agrees now (lost a v) k t d h later p =
    ground (arith, deadline-invalidate_device a v k t, h later)

run-live :
    (start last ttl : ℕ) (es : List (ℕ × AuthEvent)) (k : AuthKey) (t : AuthTable) (d : Option ℕ)
    → t.ttl ≡ ttl
    → Ordered start last es
    → Agrees start k t d
    → is_live last (deadline k (run es t)) ≡ is_live last (spec ttl k es d)
unfolding run spec
run-live start last ttl [] k t d q o h = h last o
run-live start last ttl ((now, e) ∷ es) k t d q (o, os) h =
    run-live now last ttl es k (step now e t) (spec_step ttl k now e d) (ttl-step now e t ∙ q) os
      (rw (← q) (step-Agrees now e k t d (λ later p. h later (omega arith))))

is_ok-check :
    (now : ℕ) (k : AuthKey) (t : AuthTable) → is_ok (check now k t).0 ≡ is_live now (deadline k t)
is_ok-check now k t = ground (arith, check-deadline now k t)

-- After any history of a fresh session in which the clock does not run backwards, a key is
-- authorized exactly when the last verification of that key was less than `ttl` ago and its device
-- was not lost since: checks that were made in between change nothing.
pub check-run :
    (ttl last : ℕ) (es : List (ℕ × AuthEvent)) (k : AuthKey)
    → Ordered 0 last es
    → is_ok (check last k (run es (new ttl))).0 ≡ is_live last (spec ttl k es none)
unfolding new deadline get
check-run ttl last es k o =
    is_ok-check last k (run es (new ttl))
    ∙ run-live 0 last ttl es k (new ttl) none refl o (λ later p. refl)
