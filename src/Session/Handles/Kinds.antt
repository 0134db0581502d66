-- ===== src/Session/Handles/Kinds.antt =====
-- The type check of src/session/handles.rs: what a handle's prefix says.
use liuzx_skf.Session.Handles.{
  ResourceKind, device, application, container, digest, wrong_kind, prefix, prefix_of, from_prefix,
  kind_beq, check,
}
use liuzx_skf.Common.{
  if◌then◌else◌, Option-cases, ok, err, Text, Lacks, text_eq, text_eq_iff, split_once-join,
  split_once, append-split_once, Option-cases, text, text_beq, split_once, decimal, ℕ, ◌≡◌, refl,
  ◌↔◌, ◌⊎◌, inl, inr, true, some, ◌∷◌, ◌++◌, arith,
}

-- The text that `mint` makes for the counter's value `i`.
abbrev pub handle_of : ResourceKind → ℕ → Text
handle_of kind i = prefix kind ++ b'-' ∷ decimal i

from_prefix-prefix : (kind : ResourceKind) → from_prefix (prefix kind) ≡ some kind
unfolding from_prefix prefix text text_beq
from_prefix-prefix device = refl
from_prefix-prefix application = refl
from_prefix-prefix container = refl
from_prefix-prefix digest = refl

-- The other way round, a prefix that is read as a kind is that kind's.
prefix-from_prefix : (p : Text) (kind : ResourceKind) → from_prefix p ≡ some kind → p ≡ prefix kind
unfolding from_prefix prefix
prefix-from_prefix p kind h = ground (
  arith,
  text_eq_iff p (text "dev"),
  text_eq_iff p (text "app"),
  text_eq_iff p (text "cnt"),
  text_eq_iff p (text "hsh"),
)

prefix-Lacks : (kind : ResourceKind) → Lacks b'-' (prefix kind)
unfolding prefix text
prefix-Lacks device = omega arith
prefix-Lacks application = omega arith
prefix-Lacks container = omega arith
prefix-Lacks digest = omega arith

pub kind_beq_iff : (a b : ResourceKind) → (kind_beq a b ≡ true) ↔ (a ≡ b)
unfolding kind_beq
kind_beq_iff a b = (λ h. ground arith, λ h. ground arith)

-- A text whose first dash follows the prefix of a kind is a handle of that kind and no other.
pub check-prefix :
    (kind expected : ResourceKind) (rest : Text)
    → check (prefix kind ++ b'-' ∷ rest) expected
      ≡ (if kind_beq kind expected then ok tt else err wrong_kind)
unfolding check prefix_of
check-prefix kind expected rest =
    ground
      (arith, split_once-join b'-' (prefix kind) rest (prefix-Lacks kind), from_prefix-prefix kind)

prefix_of_join :
    (handle p : Text) → prefix_of handle ≡ some p → (rest : Text) × (handle ≡ p ++ b'-' ∷ rest)
unfolding prefix_of
prefix_of_join handle p h = elim (Option-cases (split_once b'-' handle)) [
  | inl e ↦ ground arith
  | inr ((a, rest), e) ↦ (rest, ground (arith, append-split_once b'-' handle a rest))
]

accepted :
    (handle : Text) (kind : ResourceKind)
    → check handle kind ≡ ok tt
    → (rest : Text) × (handle ≡ prefix kind ++ b'-' ∷ rest)
unfolding check
accepted handle kind h = elim (Option-cases (prefix_of handle)) [
  | inl e ↦ ground arith
  | inr (p, e) ↦ elim (Option-cases (from_prefix p)) [
    | inl e' ↦ ground arith
    | inr (k, e') ↦
        let (rest, j) = prefix_of_join handle p e in
        (rest, ground (arith, prefix-from_prefix p k e', kind_beq_iff k kind))
  ]
]

-- `check` accepts a text for a kind exactly when it is that kind's prefix, a dash and anything.
pub check_iff :
    (handle : Text) (kind : ResourceKind)
    → (check handle kind ≡ ok tt) ↔ ((rest : Text) × (handle ≡ prefix kind ++ b'-' ∷ rest))
check_iff handle kind = (accepted handle kind, λ (rest, e). rw e (accepts kind rest))
  where
    accepts : (k : ResourceKind) (rest : Text) → check (prefix k ++ b'-' ∷ rest) k ≡ ok tt
    accepts k rest = ground (arith, check-prefix k k rest, kind_beq_iff k k)

-- `check` never answers `Unknown`.
pub check_total :
    (handle : Text) (kind : ResourceKind)
    → (check handle kind ≡ ok tt) ⊎ (check handle kind ≡ err wrong_kind)
unfolding check
check_total handle kind = ground arith
