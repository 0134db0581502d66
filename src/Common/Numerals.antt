-- ===== src/Common/Numerals.antt =====
-- The numbers that `format!` prints: `{}` in decimal and `{:08X}` in eight hexadecimal digits.
use Prim.Native.Nat.{ℕ, zero, suc, ◌+◌, ◌-◌, ◌*◌, ◌/◌, ◌%◌, ◌<◌}
use mathlib.Core.Path.{◌≡◌, ap, sym, ◌∙◌}
use mathlib.Core.List.{[], ◌∷◌, ◌++◌, foldl, foldl-append}
use mathlib.Core.Logic.{◌≢◌, inl, inr}
use native.Mathlib.Omega.{arith}
use liuzx_skf.Common.Tests.{ltb, if◌then◌else◌, Bool-cases}
use liuzx_skf.Common.Lists.{All-append}
use liuzx_skf.Common.Texts.{Text, Bytes, Lacks}

-- The digits of `n`, with fuel for their number.
decimal_digits : ℕ → ℕ → Text
decimal_digits zero n = []
decimal_digits (suc f) n =
    let front = decimal_digits f (n / 10) in
    if ltb n 10 then (b'0' + n) ∷ [] else front ++ (b'0' + n % 10) ∷ []

-- `format!("{}", n)`; a number has fewer digits than `n + 1`.
unfoldable pub decimal : ℕ → Text
unfolding decimal_digits
decimal n = decimal_digits (suc n) n

-- What a row of digits stands for.
decimal_value : Text → ℕ
decimal_value = foldl (λ n c. n * 10 + (c - b'0')) 0

decimal_value-append :
    (s : Text) (c : ℕ) → decimal_value (s ++ c ∷ []) ≡ decimal_value s * 10 + (c - b'0')
unfolding decimal_value
decimal_value-append s c = rw foldl-append

decimal_value_single : (c : ℕ) → decimal_value (c ∷ []) ≡ c - b'0'
unfolding decimal_value
decimal_value_single c = omega arith

decimal_value-digits : (f n : ℕ) → n < f → decimal_value (decimal_digits f n) ≡ n
unfolding decimal_digits
decimal_value-digits zero n h = elim h [ ]
decimal_value-digits (suc f) n h = ground (
  arith,
  decimal_value_single (b'0' + n),
  decimal_value-append (decimal_digits f (n / 10)) (b'0' + n % 10),
  decimal_value-digits f (n / 10),
)

decimal_value-decimal : (n : ℕ) → decimal_value (decimal n) ≡ n
unfolding decimal
decimal_value-decimal n = decimal_value-digits (suc n) n (omega arith)

-- Two numbers that print alike are one.
pub decimal-injective : (m n : ℕ) → decimal m ≡ decimal n → m ≡ n
decimal-injective m n h =
    sym (decimal_value-decimal m) ∙ ap decimal_value h ∙ decimal_value-decimal n

digits-Lacks : (sep f n : ℕ) → sep < b'0' → Lacks sep (decimal_digits f n)
unfolding decimal_digits
digits-Lacks sep zero n h = tt
digits-Lacks sep (suc f) n h = elim (Bool-cases (ltb n 10)) [
  | inl small ↦ rw small (omega arith)
  | inr big ↦ rw big (
      All-append (λ (c : ℕ). c ≢ sep) (decimal_digits f (n / 10)) _ (digits-Lacks sep f (n / 10) h)
        (omega arith))
]

-- A decimal holds no character below the digits, such as the dash.
pub decimal-Lacks : (sep n : ℕ) → sep < b'0' → Lacks sep (decimal n)
unfolding decimal
decimal-Lacks sep n h = digits-Lacks sep (suc n) n h

hex_digit : ℕ → ℕ
hex_digit d = if ltb d 10 then b'0' + d else b'A' + (d - 10)

hex_digits : ℕ → ℕ → Text
unfolding hex_digit
hex_digits zero n = []
hex_digits (suc k) n = hex_digits k (n / 16) ++ hex_digit (n % 16) ∷ []

-- `format!("{:02X}", b)` for each byte.
unfoldable pub hex_upper : Bytes → Text
unfolding hex_digits
hex_upper [] = []
hex_upper (b ∷ bytes) = hex_digits 2 b ++ hex_upper bytes

-- `format!("{:08X}", n)` for a `u32`, which has at most eight hexadecimal digits.
unfoldable pub hex8 : ℕ → Text
unfolding hex_digits
hex8 n = hex_digits 8 n
