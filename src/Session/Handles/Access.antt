-- ===== src/Session/Handles/Access.antt =====
-- What the accessors of src/session/handles.rs answer after an issue or a removal.
use liuzx_skf.Session.Handles.{
  ResourceKind, wrong_kind, unknown, kind_beq, check, find_in, HandleTable, issue, find,
  remove_handle, HandleError,
}
use liuzx_skf.Session.Handles.Kinds.{handle_of, check-prefix, kind_beq_iff, check_total}
use liuzx_skf.Session.Handles.Lifecycle.{
  table, IsValid, kind_cases, find-table, table-issue-handle_of, table-issue_ne, table-remove,
  table-remove_ne, remove_handle-find, issue-handle,
}
use liuzx_skf.Common.{
  if◌then◌else◌, is_ok, ok, err, Text, text_eq, text_eq_iff, decimal, get-insert, get-remove, get,
  insert, remove, ℕ, ◌+◌, ◌^◌, ◌<◌, ◌≡◌, refl, sym, subst, ◌∙◌, ◌≢◌, inl, inr, Bool, true, false,
  none, List, [], arith, Result,
}

check_minted :
    (kind other : ResourceKind) (i : ℕ)
    → check (handle_of kind i) other ≡ (if kind_beq kind other then ok tt else err wrong_kind)
check_minted kind other i = check-prefix kind other (decimal i)

module _ {G : Type 0} (kind : ResourceKind) (h j : Text) (m : List (Text × G)) where
  find_in-insert : (g : G) → check h kind ≡ ok tt → find_in kind h (insert h g m) ≡ ok g
  unfolding find_in
  find_in-insert g c = ground (arith, get-insert h h g m, text_eq_iff h h)

  find_in-insert_ne : (g : G) → j ≢ h → find_in kind j (insert h g m) ≡ find_in kind j m
  unfolding find_in
  find_in-insert_ne g ne = ground (arith, get-insert h j g m, text_eq_iff h j)

  find_in-remove : check h kind ≡ ok tt → find_in kind h (remove h m) ≡ err unknown
  unfolding find_in
  find_in-remove c = ground (arith, get-remove h h m, text_eq_iff h h)

  find_in-remove_ne : j ≢ h → find_in kind j (remove h m) ≡ find_in kind j m
  unfolding find_in
  find_in-remove_ne ne = ground (arith, get-remove h j m, text_eq_iff h j)

minted : (kind : ResourceKind) (i : ℕ) → check (handle_of kind i) kind ≡ ok tt
minted kind i = ground (arith, check_minted kind kind i, kind_beq_iff kind kind)

module _ {G : Type 0} (kind : ResourceKind) where
  missing :
      (i : ℕ) (m : List (Text × G))
      → get (handle_of kind i) m ≡ none
      → find_in kind (handle_of kind i) m ≡ err unknown
  unfolding find_in
  missing i m e = ground (arith, minted kind i)

  refused :
      (other : ResourceKind) (i : ℕ) (m : List (Text × G))
      → kind ≢ other
      → find_in other (handle_of kind i) m ≡ err wrong_kind
  unfolding find_in
  refused other i m ne = ground (arith, check_minted kind other i, kind_beq_iff kind other)

  held_check :
      (h : Text) (m : List (Text × G)) → is_ok (find_in kind h m) ≡ true → check h kind ≡ ok tt
  unfolding find_in
  held_check h m e = ground (arith, check_total h kind)

  removed :
      (h : Text) (m : List (Text × G)) (r : Result HandleError G)
      → r ≡ find_in kind h m
      → find_in kind h (if is_ok r then remove h m else m) ≡ (if is_ok r then err unknown else r)
  removed h m (ok g) e = find_in-remove kind h [] m (held_check h m (rw (← e)))
  removed h m (err x) e = sym e

  spared :
      (h j : Text) (m : List (Text × G)) (b : Bool)
      → j ≢ h
      → find_in kind j (if b then remove h m else m) ≡ find_in kind j m
  spared h j m false ne = refl
  spared h j m true ne = find_in-remove_ne kind h j m ne

module _ {Guard : ResourceKind → Type 0} (kind : ResourceKind) where
  -- In a valid table, the handle of a fresh resource was not held before under its kind. It now reaches that
  -- resource, it is refused as a handle of every other kind, and every other text answers as
  -- before, under each kind. This holds while the counter has a value left.
  pub find-issue :
      (g : Guard kind) (t : HandleTable Guard) (other any : ResourceKind) (j : Text)
      → IsValid t
      → t.next_id + 1 < 2 ^ 64
      → kind ≢ other
      → j ≢ (issue kind g t).0
      → (find kind (issue kind g t).0 t ≡ err unknown)
        × (find kind (issue kind g t).0 (issue kind g t).1 ≡ ok g)
        × (find other (issue kind g t).0 (issue kind g t).1 ≡ err wrong_kind)
        × (find any j (issue kind g t).1 ≡ find any j t)
  find-issue g t other any j v b =
      let n : ℕ = t.next_id + 1 in
      rw (issue-handle kind g t b) (λ ne nej. (
        rw find-table (missing kind n (table kind t) ((v.owned kind).fresh n (omega arith))),
        rw (find-table, table-issue-handle_of kind g t b)
            (find_in-insert kind (handle_of kind n) [] (table kind t) g (minted kind n)),
        rw find-table (refused kind other n (table other (issue kind g t).1) ne),
        elim (kind_cases kind any) [
          | inl e ↦
              subst (λ k. find k j (issue kind g t).1 ≡ find k j t) e
                (rw (find-table, table-issue-handle_of kind g t b)
                  (find_in-insert_ne kind (handle_of kind n) j (table kind t) g nej
                    ∙ sym (find-table kind j t)))
          | inr d ↦ rw (find-table, table-issue_ne kind any g t d) (sym (find-table any j t))
        ],
      ))

  -- A removal answers what the accessor answers. If that was the resource, its handle is unknown
  -- afterwards; every other text answers as before, under each kind, and after a refused removal
  -- so does the handle.
  pub find-remove_handle :
      (h j : Text) (t : HandleTable Guard) (any : ResourceKind)
      → j ≢ h
      → ((remove_handle kind h t).0 ≡ find kind h t)
        × (find kind h (remove_handle kind h t).1
            ≡ (if is_ok (find kind h t) then err unknown else find kind h t))
        × (find any j (remove_handle kind h t).1 ≡ find any j t)
  find-remove_handle h j t any ne = (
    remove_handle-find kind h t,
    rw (find-table, table-remove kind h t)
        (removed kind h (table kind t) (find kind h t) (find-table kind h t)),
    elim (kind_cases kind any) [
      | inl e ↦
          subst (λ k. find k j (remove_handle kind h t).1 ≡ find k j t) e
            (rw (find-table, table-remove kind h t)
              (spared kind h j (table kind t) (is_ok (find kind h t)) ne
                ∙ sym (find-table kind j t)))
      | inr d ↦ rw (find-table, table-remove_ne kind any h t d) (sym (find-table any j t))
    ],
  )
