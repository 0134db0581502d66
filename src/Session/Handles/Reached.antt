-- ===== src/Session/Handles/Reached.antt =====
-- The handles of src/session/handles.rs reach what the history says.
use liuzx_skf.Common.{
  Bool-cases, Result, Result-cases, ok, err, length, length-append, Text, ◌===◌, text_eq,
  text_eq_iff, decimal, get, ℕ, ◌+◌, ◌^◌, ◌<◌, ◌≡◌, sym, ap, subst, ◌∙◌, ◌≢◌, ◌↔◌, ◌⊎◌, inl, inr,
  List, [], ◌∷◌, arith,
}
use liuzx_skf.Session.Handles.{
  ResourceKind, device, application, container, digest, HandleError, wrong_kind, HandleTable, new,
  issue, find, find_in, remove_handle, check, prefix,
}
use liuzx_skf.Session.Handles.Kinds.{handle_of, check-prefix, kind_beq_iff}
use liuzx_skf.Session.Handles.Ownership.{handle_of-injective}
use liuzx_skf.Session.Handles.Lifecycle.{
  IsValid, kind_cases, issue-handle, find-table, table-remove_ne,
}
use liuzx_skf.Session.Handles.Access.{find-issue, find-remove_handle}
use liuzx_skf.Session.Handles.History.{
  HandleEvent, issued, removed, run, issues, Holds, fresh, later, spared, next_id-run, run-IsValid,
  Holds-issues,
}

handle_of-kind :
    (kind other : ResourceKind) (i j : ℕ) → handle_of kind i ≡ handle_of other j → kind ≡ other
handle_of-kind kind other i j e = ground (
  arith,
  check-prefix kind kind (decimal i),
  check-prefix other kind (decimal j),
  kind_beq_iff kind kind,
  kind_beq_iff other kind,
  ap (λ h. check h kind) e,
)

handle_of_ne : (kind other : ResourceKind) (i j : ℕ) → i < j → handle_of kind i ≢ handle_of other j
handle_of_ne kind other i j b e =
    let same : kind ≡ other = handle_of-kind kind other i j e in
    let n : i ≡ j = handle_of-injective kind i j (e ∙ ap (λ k. handle_of k j) (sym same)) in
    absurd (omega (arith, b, n))

text_cases : (s t : Text) → (s ≡ t) ⊎ (s ≢ t)
text_cases s t = elim (Bool-cases (s === t)) [
  | inl e ↦ inl ((text_eq_iff s t).0 e)
  | inr e ↦ inr (λ p. ground (arith, text_eq_iff s t))
]

-- Another kind, and another text than a handle.
another : (kind : ResourceKind) → (other : ResourceKind) × (kind ≢ other)
another device = (application, λ e. cc)
another application = (device, λ e. cc)
another container = (device, λ e. cc)
another digest = (device, λ e. cc)

find-new :
    (Guard : ResourceKind → Type 0) (kind : ResourceKind) (h : Text) (g : Guard kind)
    → find kind h (new {Guard = Guard}) ≢ ok g
unfolding find find_in new get
find-new Guard device h g e = ground arith
find-new Guard application h g e = ground arith
find-new Guard container h g e = ground arith
find-new Guard digest h g e = ground arith

ok-injective : {A : Type 0} (c d : A) → ◌≡◌ {A = Result HandleError A} (ok c) (ok d) → c ≡ d
ok-injective c d q = cc

refused : {A : Type 0} (x : HandleError) (c : A) → err x ≢ ok c
refused x c q = cc

module _ {Guard : ResourceKind → Type 0} where
  module _ (kind : ResourceKind) (g : Guard kind) (t : HandleTable Guard) (v : IsValid t)
      (b : t.next_id + 1 < 2 ^ 64) where
    not_empty : [] ≢ (issue kind g t).0
    not_empty e = absurd (
        omega (
          arith,
          ap length (e ∙ issue-handle kind g t b),
          length-append (prefix kind) (b'-' ∷ decimal (t.next_id + 1)),
        ))

    issue_own : find kind (issue kind g t).0 (issue kind g t).1 ≡ ok g
    issue_own =
        let (other, ne) = another kind in (find-issue kind g t other kind [] v b ne not_empty).1

    issue_other :
        (other : ResourceKind)
        → kind ≢ other
        → find other (issue kind g t).0 (issue kind g t).1 ≡ err wrong_kind
    issue_other other ne = (find-issue kind g t other kind [] v b ne not_empty).2

    issue_rest :
        (any : ResourceKind) (j : Text)
        → j ≢ (issue kind g t).0
        → find any j (issue kind g t).1 ≡ find any j t
    issue_rest any j nej =
        let (other, ne) = another kind in (find-issue kind g t other any j v b ne nej).3

  remove_rest :
      (kind any : ResourceKind) (h j : Text) (t : HandleTable Guard)
      → (j ≢ h) ⊎ (kind ≢ any)
      → find any j (remove_handle kind h t).1 ≡ find any j t
  remove_rest kind any h j t (inl ne) = (find-remove_handle kind h j t any ne).2
  remove_rest kind any h j t (inr ne) =
      rw (find-table, table-remove_ne kind any h t ne) (sym (find-table any j t))

  find-removed :
      (kind : ResourceKind) (h : Text) (g : Guard kind) (t : HandleTable Guard)
      → find kind h (remove_handle kind h t).1 ≢ ok g
  find-removed kind h g t e =
      let (same, gone, rest) = find-remove_handle kind h (b'-' ∷ h) t kind longer in
      elim (Result-cases (find kind h t)) [
        | inl (d, found) ↦ absurd (ground (arith, gone, found))
        | inr (d, lost) ↦ absurd (ground (arith, gone, lost))
      ]
    where
      longer : b'-' ∷ h ≢ h
      longer q = absurd (omega (arith, ap length q))

  find-held :
      {history : List (HandleEvent Guard)} {kind : ResourceKind} {n : ℕ} {g : Guard kind}
      → issues history < 2 ^ 64
      → Holds history kind n g
      → find kind (handle_of kind n) (run history) ≡ ok g
  unfolding run issues
  find-held b (fresh {kind} {g} {history}) =
      let e = next_id-run history (omega (arith, b)) in
      let v = run-IsValid history (omega (arith, b)) in
      subst (λ h. find kind h (issue kind g (run history)).1 ≡ ok g)
        (issue-handle kind g (run history) (omega (arith, e, b))
          ∙ ap (λ n. handle_of kind (n + 1)) e)
        (issue_own kind g (run history) v (omega (arith, e, b)))
  find-held b (later {kind} {other} {g} {d} {n} {history} p) =
      let e = next_id-run history (omega (arith, b)) in
      let v = run-IsValid history (omega (arith, b)) in
      issue_rest other d (run history) v (omega (arith, e, b)) kind (handle_of kind n) (λ same.
        handle_of_ne kind other n (issues history + 1) (omega (arith, Holds-issues p)) (
          same
          ∙ issue-handle other d (run history) (omega (arith, e, b))
          ∙ ap (λ m. handle_of other (m + 1)) e))
      ∙ find-held (omega (arith, b)) p
  find-held b (spared {kind} {other} {g} {n} {h} {history} d p) =
      remove_rest other kind h (handle_of kind n) (run history) d ∙ find-held b p

  -- The handle of the last issue reaches its resource, under its kind alone.
  issued-Holds :
      (history : List (HandleEvent Guard)) (other kind : ResourceKind) (d : Guard other)
      (g : Guard kind)
      → issues history + 1 < 2 ^ 64
      → find kind (issue other d (run history)).0 (issue other d (run history)).1 ≡ ok g
      → (other ≡ kind) × Holds (issued other d ∷ history) kind (issues history + 1) g
  issued-Holds history other kind d g b f =
      let e = next_id-run history (omega (arith, b)) in
      let v = run-IsValid history (omega (arith, b)) in
      let small : (run history).next_id + 1 < 2 ^ 64 = omega (arith, e, b) in
      let own = issue_own other d (run history) v small in
      elim (kind_cases other kind) [
        | inr ne ↦
            absurd
              (refused wrong_kind g (sym (issue_other other d (run history) v small kind ne) ∙ f))
        | inl q ↦ (
          q,
          subst
              (λ k.
                (c : Guard k)
                → find k (issue other d (run history)).0 (issue other d (run history)).1 ≡ ok c
                → Holds (issued other d ∷ history) k (issues history + 1) c)
              q
              (λ c f'.
                subst (Holds (issued other d ∷ history) other (issues history + 1))
                  (ok-injective d c (sym own ∙ f')) fresh)
              g f,
        )
      ]

  held-find :
      (history : List (HandleEvent Guard)) (kind : ResourceKind) (h : Text) (g : Guard kind)
      → issues history < 2 ^ 64
      → find kind h (run history) ≡ ok g
      → (n : ℕ) × (h ≡ handle_of kind n) × Holds history kind n g
  unfolding run issues
  held-find [] kind h g b f = absurd (find-new Guard kind h g f)
  held-find (issued other d ∷ history) kind h g b f =
      let e = next_id-run history (omega (arith, b)) in
      let v = run-IsValid history (omega (arith, b)) in
      let small : (run history).next_id + 1 < 2 ^ 64 = omega (arith, e, b) in
      elim (text_cases h (issue other d (run history)).0) [
        | inr ne ↦
            let (n, same, p) =
              held-find history kind h g (omega (arith, b))
                (sym (issue_rest other d (run history) v small kind h ne) ∙ f) in
            (n, same, later p)
        | inl same ↦
            let p =
              issued-Holds history other kind d g b
                (ap (λ j. find kind j (issue other d (run history)).1) (sym same) ∙ f) in
            (
              issues history + 1,
              same
                  ∙ issue-handle other d (run history) small
                  ∙ ap (λ m. handle_of other (m + 1)) e
                  ∙ ap (λ k. handle_of k (issues history + 1)) p.0,
              p.1,
            )
      ]
  held-find (removed other j ∷ history) kind h g b f = elim (text_cases h j) [
    | inr ne ↦
        let (n, same, p) =
          held-find history kind h g b
            (sym (remove_rest other kind j h (run history) (inl ne)) ∙ f) in
        (n, same, spared (inl (λ q. ne (same ∙ q))) p)
    | inl q ↦ elim (kind_cases other kind) [
      | inr ne ↦
          let (n, same, p) =
            held-find history kind h g b
              (sym (remove_rest other kind j h (run history) (inr ne)) ∙ f) in
          (n, same, spared (inr ne) p)
      | inl r ↦ absurd (
          subst (λ k. find kind h (remove_handle k h (run history)).1 ≢ ok g) (sym r)
            (find-removed kind h g (run history))
            (ap (λ i. find kind h (remove_handle other i (run history)).1) q ∙ f))
    ]
  ]

  -- After any history of issues and removals of a fresh table, with fewer than 2 ^ 64 issues, a text
  -- reaches a resource under a kind exactly when it is the handle of that kind and of a number, and
  -- the resource was issued under that kind as the one of that number, counted over all kinds, and
  -- that handle was not removed under that kind since.
  pub find-run :
      (history : List (HandleEvent Guard)) (kind : ResourceKind) (h : Text) (g : Guard kind)
      → issues history < 2 ^ 64
      → (find kind h (run history) ≡ ok g)
        ↔ ((n : ℕ) × (h ≡ handle_of kind n) × Holds history kind n g)
  find-run history kind h g b =
      (held-find history kind h g b, λ (n, same, p). rw same (find-held b p))
