-- ===== src/Session/Handles/Lifecycle.antt =====
-- Who owns what in src/session/handles.rs: a handle reaches the resource that it was issued for,
-- until it is removed, and nothing else.
use liuzx_skf.Session.Handles.{
  ResourceKind, device, application, container, digest, prefix, find_in, HandleTable, new, issue,
  find, remove_handle, kind_beq,
}
use liuzx_skf.Session.Handles.Kinds.{handle_of, kind_beq_iff}
use liuzx_skf.Session.Handles.Ownership.{Owned, Owned-nil, Owned-insert, Owned-mono, Owned-remove}
use liuzx_skf.Common.{
  true, false, subst, Text, text_eq, decimal, insert, ◌+◌, ◌^◌, ◌<◌, ◌≡◌, refl, ap, ◌≢◌, List, ◌∷◌,
  ◌++◌, arith, ◌⊎◌, ◌∙◌, inl, Bool-cases, inr, Bool, if◌then◌else◌, is_ok, remove,
}

pub kind_cases : (a b : ResourceKind) → (a ≡ b) ⊎ (a ≢ b)
kind_cases a b = elim (Bool-cases (kind_beq a b)) [
  | inl same ↦ inl ((kind_beq_iff a b).0 same)
  | inr other ↦ inr (λ e. ground (arith, kind_beq_iff a b))
]

module _ {Guard : ResourceKind → Type 0} where
  -- The table of a kind.
  abbrev pub table : (kind : ResourceKind) → HandleTable Guard → List (Text × Guard kind)
  table device t = t.devices
  table application t = t.applications
  table container t = t.containers
  table digest t = t.digests

  pub record IsValid (t : HandleTable Guard) : Type 0 where
    pub bounded : t.next_id < 2 ^ 64
    pub owned : (kind : ResourceKind) → Owned kind t.next_id (table kind t)

  pub new-IsValid : IsValid new
  unfolding new
  new-IsValid = record {
    bounded = omega arith;
    owned = elim [
      | device ↦ Owned-nil device
      | application ↦ Owned-nil application
      | container ↦ Owned-nil container
      | digest ↦ Owned-nil digest
    ];
  }

  -- The handle that the next `issue` gives, where the counter does not wrap.
  pub issue-handle :
      (kind : ResourceKind) (g : Guard kind) (t : HandleTable Guard)
      → t.next_id + 1 < 2 ^ 64
      → (issue kind g t).0 ≡ handle_of kind (t.next_id + 1)
  unfolding issue
  issue-handle device g t h = ap (λ n. prefix device ++ b'-' ∷ decimal n) (omega arith)
  issue-handle application g t h = ap (λ n. prefix application ++ b'-' ∷ decimal n) (omega arith)
  issue-handle container g t h = ap (λ n. prefix container ++ b'-' ∷ decimal n) (omega arith)
  issue-handle digest g t h = ap (λ n. prefix digest ++ b'-' ∷ decimal n) (omega arith)

  pub next_id-issue :
      (kind : ResourceKind) (g : Guard kind) (t : HandleTable Guard)
      → t.next_id + 1 < 2 ^ 64
      → (issue kind g t).1.next_id ≡ t.next_id + 1
  unfolding issue
  next_id-issue device g t h = omega arith
  next_id-issue application g t h = omega arith
  next_id-issue container g t h = omega arith
  next_id-issue digest g t h = omega arith

  -- `issue` writes its own table and leaves the others.
  pub table-issue :
      (kind : ResourceKind) (g : Guard kind) (t : HandleTable Guard)
      → table kind (issue kind g t).1 ≡ insert (issue kind g t).0 g (table kind t)
  unfolding issue
  table-issue device g t = refl
  table-issue application g t = refl
  table-issue container g t = refl
  table-issue digest g t = refl

  pub table-issue_ne :
      (kind other : ResourceKind) (g : Guard kind) (t : HandleTable Guard)
      → kind ≢ other
      → table other (issue kind g t).1 ≡ table other t
  unfolding issue
  table-issue_ne device device g t h = absurd (h refl)
  table-issue_ne application application g t h = absurd (h refl)
  table-issue_ne container container g t h = absurd (h refl)
  table-issue_ne digest digest g t h = absurd (h refl)
  table-issue_ne device _ g t h = refl
  table-issue_ne application _ g t h = refl
  table-issue_ne container _ g t h = refl
  table-issue_ne digest _ g t h = refl

  pub find-table :
      (kind : ResourceKind) (h : Text) (t : HandleTable Guard)
      → find kind h t ≡ find_in kind h (table kind t)
  unfolding find
  find-table device h t = refl
  find-table application h t = refl
  find-table container h t = refl
  find-table digest h t = refl

  pub table-issue-handle_of :
      (kind : ResourceKind) (g : Guard kind) (t : HandleTable Guard)
      → t.next_id + 1 < 2 ^ 64
      → table kind (issue kind g t).1 ≡ insert (handle_of kind (t.next_id + 1)) g (table kind t)
  table-issue-handle_of kind g t b =
      table-issue kind g t ∙ ap (λ h. insert h g (table kind t)) (issue-handle kind g t b)

  -- Issuing a handle keeps the table valid, as long as the counter has a value left.
  pub issue-IsValid :
      (kind : ResourceKind) (g : Guard kind) (t : HandleTable Guard)
      → IsValid t
      → t.next_id + 1 < 2 ^ 64
      → IsValid (issue kind g t).1
  issue-IsValid kind g t v b = record {
    bounded = omega (arith, next_id-issue kind g t b);
    owned = λ other. rw (next_id-issue kind g t b) (elim (kind_cases kind other) [
      | inl e ↦
          subst (λ k. Owned k (t.next_id + 1) (table k (issue kind g t).1)) e
            (rw (table-issue-handle_of kind g t b)
              (Owned-insert kind t.next_id g (table kind t) (v.owned kind)))
      | inr ne ↦
          rw (table-issue_ne kind other g t ne)
            (Owned-mono other (table other t) (omega arith) (v.owned other))
    ]);
  }

  pub remove_handle-find :
      (kind : ResourceKind) (h : Text) (t : HandleTable Guard)
      → (remove_handle kind h t).0 ≡ find kind h t
  unfolding remove_handle find
  remove_handle-find device h t = ground arith
  remove_handle-find application h t = ground arith
  remove_handle-find container h t = ground arith
  remove_handle-find digest h t = ground arith

  pub next_id-remove :
      (kind : ResourceKind) (h : Text) (t : HandleTable Guard)
      → (remove_handle kind h t).1.next_id ≡ t.next_id
  unfolding remove_handle
  next_id-remove device h t = ground arith
  next_id-remove application h t = ground arith
  next_id-remove container h t = ground arith
  next_id-remove digest h t = ground arith

  pub table-remove :
      (kind : ResourceKind) (h : Text) (t : HandleTable Guard)
      → table kind (remove_handle kind h t).1
        ≡ (if is_ok (find kind h t) then remove h (table kind t) else table kind t)
  unfolding remove_handle find
  table-remove device h t = ground arith
  table-remove application h t = ground arith
  table-remove container h t = ground arith
  table-remove digest h t = ground arith

  pub table-remove_ne :
      (kind other : ResourceKind) (h : Text) (t : HandleTable Guard)
      → kind ≢ other
      → table other (remove_handle kind h t).1 ≡ table other t
  unfolding remove_handle
  table-remove_ne device device h t ne = absurd (ne refl)
  table-remove_ne application application h t ne = absurd (ne refl)
  table-remove_ne container container h t ne = absurd (ne refl)
  table-remove_ne digest digest h t ne = absurd (ne refl)
  table-remove_ne device _ h t ne = ground arith
  table-remove_ne application _ h t ne = ground arith
  table-remove_ne container _ h t ne = ground arith
  table-remove_ne digest _ h t ne = ground arith

  -- Removing a handle, whether or not it is held, keeps the table valid.
  pub remove-IsValid :
      (kind : ResourceKind) (h : Text) (t : HandleTable Guard)
      → IsValid t
      → IsValid (remove_handle kind h t).1
  remove-IsValid kind h t v = record {
    bounded = rw (next_id-remove kind h t) v.bounded;
    owned = λ other. rw (next_id-remove kind h t) (elim (kind_cases kind other) [
      | inl e ↦
          subst (λ k. Owned k t.next_id (table k (remove_handle kind h t).1)) e
            (rw (table-remove kind h t) (removed (is_ok (find kind h t))))
      | inr ne ↦ rw (table-remove_ne kind other h t ne) (v.owned other)
    ]);
  }
    where
      removed :
          (b : Bool) → Owned kind t.next_id (if b then remove h (table kind t) else table kind t)
      removed true = Owned-remove kind t.next_id h (table kind t) (v.owned kind)
      removed false = v.owned kind
