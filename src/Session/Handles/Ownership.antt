-- ===== src/Session/Handles/Ownership.antt =====
-- What holds of each of the four tables of src/session/handles.rs.
use mathlib.Core.List.{append_cancel_left}
use liuzx_skf.Session.Handles.{ResourceKind, wrong_kind, prefix, check}
use liuzx_skf.Session.Handles.Kinds.{handle_of, check-prefix, kind_beq_iff}
use liuzx_skf.Common.{
  err, Text, text_eq, text_eq_iff, decimal-injective, decimal, get-insert, get-remove, IsMap,
  insert-IsMap, remove-IsMap, get, insert, remove, ℕ, ◌+◌, ◌≤◌, ◌<◌, ◌≡◌, refl, ap, none, List, [],
  ◌∷◌, arith,
}

-- The text that the next `mint` makes, where the counter does not wrap.
pub handle_of-injective :
    (kind : ResourceKind) (i j : ℕ) → handle_of kind i ≡ handle_of kind j → i ≡ j
handle_of-injective kind i j h =
    decimal-injective i j (tail-eq (append_cancel_left (prefix kind) _ _ h))
  where
    tail-eq : {s t : Text} → b'-' ∷ s ≡ b'-' ∷ t → s ≡ t
    tail-eq h = cc

module _ {G : Type 0} (kind : ResourceKind) where
  -- One table of the four: its keys are distinct, of its kind, and were minted before `next`.
  pub record Owned (next : ℕ) (m : List (Text × G)) : Type 0 where
    pub distinct : IsMap m
    pub fresh : (i : ℕ) → next < i → get (handle_of kind i) m ≡ none
    pub typed : (h : Text) → check h kind ≡ err wrong_kind → get h m ≡ none

  pub Owned-nil : Owned 0 []
  unfolding get
  Owned-nil = record { distinct = tt; fresh = λ i h. refl; typed = λ h e. refl }

  pub Owned-mono : {m : ℕ} {n : ℕ} (t : List (Text × G)) → m ≤ n → Owned m t → Owned n t
  Owned-mono t p o = record {
    distinct = o.distinct;
    fresh = λ i h. o.fresh i (omega arith);
    typed = o.typed;
  }

  pub Owned-remove :
      (next : ℕ) (h : Text) (t : List (Text × G)) → Owned next t → Owned next (remove h t)
  Owned-remove next h t o = record {
    distinct = remove-IsMap h t o.distinct;
    fresh = λ i p. ground (arith, get-remove h (handle_of kind i) t, o.fresh i p);
    typed = λ j e. ground (arith, get-remove h j t, o.typed j e);
  }

  pub Owned-insert :
      (next : ℕ) (g : G) (t : List (Text × G))
      → Owned next t
      → Owned (next + 1) (insert (handle_of kind (next + 1)) g t)
  Owned-insert next g t o = record {
    distinct = insert-IsMap (handle_of kind (next + 1)) g t o.distinct;
    fresh = λ i p. ground (
      arith,
      get-insert (handle_of kind (next + 1)) (handle_of kind i) g t,
      o.fresh i,
      handle_of-injective kind (next + 1) i,
      text_eq_iff (handle_of kind (next + 1)) (handle_of kind i),
    );
    typed = λ j e. ground (
      arith,
      get-insert (handle_of kind (next + 1)) j g t,
      o.typed j e,
      check-prefix kind kind (decimal (next + 1)),
      kind_beq_iff kind kind,
      text_eq_iff (handle_of kind (next + 1)) j,
      λ (p : handle_of kind (next + 1) ≡ j). ap (λ x. check x kind) p,
    );
  }
