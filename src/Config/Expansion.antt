-- ===== src/Config/Expansion.antt =====
-- What `expand_env_vars` of src/config/mod.rs computes, described without its loop.
use liuzx_skf.Config.{substituted, expand, expand_env_vars}
use liuzx_skf.Common.{
  ◌==◌, ==_iff, Bool-cases, Option-cases, length, length-append, Text, Lacks, text_eq,
  append-split_once, split_once, ℕ, zero, suc, ◌≤◌, ◌≡◌, sym, ap, subst, ◌≢◌, inl, inr, Option,
  none, some, [], ◌∷◌, ◌++◌, arith,
}

open_end : (sep : ℕ) (s : Text) → split_once sep s ≡ none → Lacks sep s
unfolding split_once
open_end sep [] h = tt
open_end sep (c ∷ s) h = ground (arith, open_end sep s)

module _ (env : Text → Option Text) where
  -- The expansion of a path, piece by piece.
  pub data Expands : Text → Text → Type 0 where
    done : Expands [] []
    plain : (c : ℕ) (s t : Text) → c ≢ b'%' → Expands s t → Expands (c ∷ s) (c ∷ t)
    -- the value of a variable
    known :
        (name s t val : Text)
        → name ≢ []
        → Lacks b'%' name
        → env name ≡ some val
        → Expands s t
        → Expands (b'%' ∷ name ++ b'%' ∷ s) (val ++ t)
    -- a variable that is not set stays as it is
    unknown :
        (name s t : Text)
        → name ≢ []
        → Lacks b'%' name
        → env name ≡ none
        → Expands s t
        → Expands (b'%' ∷ name ++ b'%' ∷ s) ((b'%' ∷ name ++ b'%' ∷ []) ++ t)
    -- two signs are one
    doubled : (s t : Text) → Expands s t → Expands (b'%' ∷ b'%' ∷ s) (b'%' ∷ t)
    -- a sign that is not closed stays, with the rest
    unclosed : (s : Text) → Lacks b'%' s → Expands (b'%' ∷ s) (b'%' ∷ s)

  substituted_known :
      (name s t : Text)
      → Lacks b'%' name
      → Expands s t
      → Expands (b'%' ∷ name ++ b'%' ∷ s) (substituted env name ++ t)
  unfolding substituted
  substituted_known [] s t l p = doubled s t p
  substituted_known (c ∷ name) s t l p = elim (Option-cases (env (c ∷ name))) [
    | inl e ↦ rw (substituted, e) (unknown (c ∷ name) s t (λ q. cc) l e p)
    | inr (val, e) ↦ rw (substituted, e) (known (c ∷ name) s t val (λ q. cc) l e p)
  ]

  -- A path that begins with the sign, where the rest is expanded.
  opened_at :
      (n : ℕ) (s : Text)
      → ((rest : Text) → length rest ≤ length s → Expands rest (expand env n rest))
      → Expands (b'%' ∷ s) (expand env (suc n) (b'%' ∷ s))
  unfolding expand
  opened_at n s ih = elim (Option-cases (split_once b'%' s)) [
    | inl e ↦ rw (expand, e) (unclosed s (open_end b'%' s e))
    | inr ((name, rest), e) ↦
        let (j, l) = append-split_once b'%' s name rest e in
        rw (expand, e)
          (subst (λ x. Expands (b'%' ∷ x) (substituted env name ++ expand env n rest)) (sym j)
            (substituted_known name rest (expand env n rest) l
              (ih rest (omega (arith, length-append name (b'%' ∷ rest), ap length j)))))
  ]

  -- Any fuel of at least the path's length.
  enough : (n : ℕ) (s : Text) → length s ≤ n → Expands s (expand env n s)
  unfolding expand
  enough zero [] h = done
  enough zero (c ∷ s) h = absurd (omega (arith, h))
  enough (suc n) [] h = done
  enough (suc n) (c ∷ s) h = elim (Bool-cases (c == b'%')) [
    | inl e ↦
        subst (λ x. Expands (x ∷ s) (expand env (suc n) (x ∷ s))) (sym ((==_iff c b'%').0 e))
          (opened_at n s (λ rest p. enough n rest (omega (arith, h, p))))
    | inr e ↦
        rw (expand, e)
          (plain c s (expand env n s) (λ q. ground (arith, ==_iff c b'%'))
            (enough n s (omega (arith, h))))
  ]

  -- The loop ends, and gives the expansion: closed references to variables are replaced by the
  -- values, references to unset variables and a sign that is not closed stay as they are, two
  -- signs in a row give one, and every other character stays.
  pub expand_env_vars-Expands : (path : Text) → Expands path (expand_env_vars env path)
  unfolding expand_env_vars
  expand_env_vars-Expands path = enough (length path) path (omega arith)
