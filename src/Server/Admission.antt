-- ===== src/Server/Admission.antt =====
-- src/server/mod.rs: `admit` and the life of a connection, with the semaphore of tokio as a number of
-- free permits.
use liuzx_skf.Common.{
  ◌==◌, if◌then◌else◌, text_eq, ℕ, ◌+◌, ◌-◌, ◌≤◌, ◌<◌, ◌≡◌, refl, ◌↔◌, Bool, true, false, arith,
}

abbrev pub max_connections : ℕ
max_connections = 64

-- The connections that are served, and the permits that are free.
pub record Admissions : Type 0 where
  pub permits : ℕ
  pub served : ℕ

-- `serve`, before the first connection
unfoldable pub serving : Admissions
serving = record { permits = max_connections; served = 0 }

-- `admit`: with a free permit the client is served, and otherwise its socket is dropped.
unfoldable pub admit : Admissions → Bool × Admissions
admit a =
    if a.permits == 0
    then (false, a)
    else (true, record { permits = a.permits - 1; served = a.served + 1 })

-- The end of a task of `spawn_client`, which gives its permit back.
unfoldable pub finish : Admissions → Admissions
finish a = record { permits = a.permits + 1; served = a.served - 1 }

-- What happens to a server: a client comes, or a client that is served goes.
pub data Happens : Admissions → Admissions → Type 0 where
  came : (a : Admissions) → Happens a (admit a).1
  went : (a : Admissions) → 0 < a.served → Happens a (finish a)

pub data Runs : Admissions → Type 0 where
  start : Runs serving
  next : (a b : Admissions) → Runs a → Happens a b → Runs b

Full : Admissions → Type 0
Full a = a.permits + a.served ≡ max_connections

Full-Happens : (a b : Admissions) → Full a → Happens a b → Full b
unfolding Full admit finish
Full-Happens a _ h (came _) = ground arith
Full-Happens a _ h (went _ p) = omega (arith, h, p)

Full-Runs : (a : Admissions) → Runs a → Full a
unfolding Full serving
Full-Runs _ start = refl
Full-Runs b (next a _ r s) = Full-Happens a b (Full-Runs a r) s

-- At any time at most 64 connections are served, and a client is refused exactly when 64 are.
pub admit-Runs :
    (a : Admissions)
    → Runs a
    → (a.served ≤ max_connections) × (((admit a).0 ≡ false) ↔ (a.served ≡ max_connections))
unfolding Full admit
admit-Runs a r =
    let f = Full-Runs a r in (omega (arith, f), (λ h. ground (arith, f), λ h. ground (arith, f)))
