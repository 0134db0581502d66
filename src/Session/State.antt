-- ===== src/Session/State.antt =====
-- `SessionId` and `SessionState` of src/session/mod.rs. The 16 random bytes of an identifier are
-- an argument, as is the time of each operation.
use liuzx_skf.Session.Auth.{AuthTable, AuthKey, AuthRejection}
use liuzx_skf.Session.Auth
use liuzx_skf.Session.Handles.{HandleTable}
use liuzx_skf.Session.Handles
use liuzx_skf.Provider.{GuardOf}
use liuzx_skf.Common.{
  ltb, if◌then◌else◌, Result, length, All, Text, Bytes, text_eq, ℕ, ◌+◌, ◌-◌, ◌*◌, ◌/◌, ◌%◌, ◌<◌,
  ◌≡◌, refl, [], ◌∷◌, arith,
}

-- `write!(hex, "{:02x}", byte)`
hex_digit : ℕ → ℕ
hex_digit d = if ltb d 10 then b'0' + d else b'a' + (d - 10)

-- `generate_session_id`, from the bytes that the generator gave
unfoldable pub session_id : Bytes → Text
unfolding hex_digit
session_id [] = []
session_id (b ∷ bs) = hex_digit (b / 16 % 16) ∷ hex_digit (b % 16) ∷ session_id bs

pub record SessionState : Type 0 where
  pub id : Text
  pub auth : AuthTable
  pub handles : HandleTable GuardOf

-- `SessionState::new`
unfoldable pub new : Bytes → ℕ → SessionState
new bytes ttl = record { id = session_id bytes; auth = Auth.new ttl; handles = Handles.new }

-- `SessionState::grant`, `authorize` and `invalidate_device`
unfoldable pub grant : ℕ → AuthKey → SessionState → SessionState
grant now key s = record s { auth = Auth.grant now key s.auth }

unfoldable pub authorize :
    ℕ → AuthKey → SessionState → Result AuthRejection (Unit {0}) × SessionState
authorize now key s = let (r, a) = Auth.check now key s.auth in (r, record s { auth = a })

unfoldable pub invalidate_device : Text → Text → SessionState → ℕ × SessionState
invalidate_device provider device s =
    let (n, a) = Auth.invalidate_device provider device s.auth in (n, record s { auth = a })

-- The 16 bytes make 32 characters.
pub length-session_id : (bs : Bytes) → length (session_id bs) ≡ 2 * length bs
unfolding session_id
length-session_id [] = refl
length-session_id (b ∷ bs) = omega (arith, length-session_id bs)

-- Two lists of bytes, each byte below 256, with one identifier are the same list.
pub session_id-injective :
    (xs ys : Bytes)
    → All (λ b. b < 256) xs
    → All (λ b. b < 256) ys
    → session_id xs ≡ session_id ys
    → xs ≡ ys
unfolding session_id
session_id-injective [] [] p q h = refl
session_id-injective (x ∷ xs) (y ∷ ys) p q h = ground (arith, session_id-injective xs ys p.1 q.1)
session_id-injective [] (y ∷ ys) p q h = cc
session_id-injective (x ∷ xs) [] p q h = cc
