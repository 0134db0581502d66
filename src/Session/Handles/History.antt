-- ===== src/Session/Handles/History.antt =====
-- What the handles of src/session/handles.rs reach after any history of issues and removals.
use liuzx_skf.Common.{
  Text, text_eq, ℕ, ◌+◌, ◌^◌, ◌≤◌, ◌<◌, ◌≡◌, refl, ◌∙◌, ◌≢◌, ◌⊎◌, List, [], ◌∷◌, arith,
}
use liuzx_skf.Session.Handles.{ResourceKind, HandleTable, new, issue, remove_handle}
use liuzx_skf.Session.Handles.Kinds.{handle_of}
use liuzx_skf.Session.Handles.Lifecycle.{
  IsValid, new-IsValid, issue-IsValid, remove-IsValid, next_id-issue, next_id-remove,
}

pub data HandleEvent (Guard : ResourceKind → Type 0) : Type 0 where
  issued : (kind : ResourceKind) → Guard kind → HandleEvent Guard
  removed : ResourceKind → Text → HandleEvent Guard

module _ {Guard : ResourceKind → Type 0} where
  -- The last event comes first.
  unfoldable pub run : List (HandleEvent Guard) → HandleTable Guard
  unfolding new issue remove_handle
  run [] = new
  run (issued kind g ∷ history) = (issue kind g (run history)).1
  run (removed kind h ∷ history) = (remove_handle kind h (run history)).1

  -- How many handles were issued.
  unfoldable pub issues : List (HandleEvent Guard) → ℕ
  issues [] = 0
  issues (issued kind g ∷ history) = issues history + 1
  issues (removed kind h ∷ history) = issues history

  -- The specification: the resource that was issued as the `n`-th, counted over all kinds, is held
  -- under its kind, and stays so but for a removal of its handle under that kind.
  pub data Holds : List (HandleEvent Guard) → (kind : ResourceKind) → ℕ → Guard kind → Type 0 where
    fresh :
        {kind : ResourceKind} {g : Guard kind} {history : List (HandleEvent Guard)}
        → Holds (issued kind g ∷ history) kind (issues history + 1) g
    later :
        {kind other : ResourceKind} {g : Guard kind} {d : Guard other} {n : ℕ}
        {history : List (HandleEvent Guard)}
        → Holds history kind n g
        → Holds (issued other d ∷ history) kind n g
    spared :
        {kind other : ResourceKind} {g : Guard kind} {n : ℕ} {h : Text}
        {history : List (HandleEvent Guard)}
        → (handle_of kind n ≢ h) ⊎ (other ≢ kind)
        → Holds history kind n g
        → Holds (removed other h ∷ history) kind n g

  pub next_id-run :
      (history : List (HandleEvent Guard))
      → issues history < 2 ^ 64
      → (run history).next_id ≡ issues history
  unfolding run issues new
  next_id-run [] b = refl
  next_id-run (issued kind g ∷ history) b =
      let e = next_id-run history (omega (arith, b)) in
      next_id-issue kind g (run history) (omega (arith, e, b)) ∙ omega (arith, e)
  next_id-run (removed kind h ∷ history) b =
      next_id-remove kind h (run history) ∙ next_id-run history b

  pub run-IsValid :
      (history : List (HandleEvent Guard)) → issues history < 2 ^ 64 → IsValid (run history)
  unfolding run issues
  run-IsValid [] b = new-IsValid
  run-IsValid (issued kind g ∷ history) b =
      issue-IsValid kind g (run history) (run-IsValid history (omega (arith, b)))
        (omega (arith, next_id-run history (omega (arith, b)), b))
  run-IsValid (removed kind h ∷ history) b =
      remove-IsValid kind h (run history) (run-IsValid history b)

  pub Holds-issues :
      {history : List (HandleEvent Guard)} {kind : ResourceKind} {n : ℕ} {g : Guard kind}
      → Holds history kind n g
      → n ≤ issues history
  unfolding issues
  Holds-issues fresh = omega arith
  Holds-issues (later p) = omega (arith, Holds-issues p)
  Holds-issues (spared d p) = Holds-issues p
