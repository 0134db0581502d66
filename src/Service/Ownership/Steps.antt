-- ===== src/Service/Ownership/Steps.antt =====
-- The steps of the branches of src/main.rs settle the guards that the handler owns.
use liuzx_skf.Session.Handles.{ResourceKind, HandleError, HandleTable, issue, find, remove_handle}
use liuzx_skf.Session.Handles.Lifecycle.{
  IsValid, issue-IsValid, remove-IsValid, next_id-issue, next_id-remove, remove_handle-find,
}
use liuzx_skf.Session.State.{SessionState}
use liuzx_skf.Protocol.{RpcResponse}
use liuzx_skf.Provider.{GuardOf, ProviderError, Operation, Call}
use liuzx_skf.Exec.{
  Resource, Event, opened, closed, called, checked, resolved, Handler, respond, or_return, or_fail,
  invoke,
}
use liuzx_skf.Service.Steps.{
  guard_resource, obtain, obtained, dispose, issue_handle, find_handle, take_handle,
}
use liuzx_skf.Service.Ownership.{
  Holding, one, follow, owned, owned-issue, owned-remove_handle, owned-find, one_refl,
  remove_handle-err,
}
use liuzx_skf.Common.{
  Result, ok, err, Text, List, [], ◌∷◌, ◌++◌, some, ◌≡◌, refl, ◌∙◌, ap, sym, arith, ℕ, ◌+◌, ◌-◌,
  ◌<◌, ◌≤◌, ◌^◌,
}

-- The guards that the handler owns itself.
abbrev pub total : List Resource → Holding
total [] x = 0
total (r ∷ rs) x = total rs x + one r x

-- The counts are those of the session's guards and the handler's.
abbrev pub Counts : Holding → SessionState → List Resource → Type 0
Counts f s mine = (x : Resource) → f x ≡ owned s.handles x + total mine x

pub follow-append :
    (f g : Holding) (es fs : List Event) → follow f es ≡ some g → follow f (es ++ fs) ≡ follow g fs
unfolding follow
follow-append f g [] fs h = ground arith
follow-append f g (opened r name ∷ es) fs h = follow-append _ g es fs h
follow-append f g (closed r ∷ es) fs h = ground (arith, follow-append (λ x. f x - one r x) g es fs)
follow-append f g (called r op ∷ es) fs h = ground (arith, follow-append f g es fs)
follow-append f g (checked key b ∷ es) fs h = follow-append f g es fs h
follow-append f g (resolved alias ∷ es) fs h = follow-append f g es fs h

module _ {W : Type 0} where
  -- A handler that begins owning `mine` ends owning `left`, where the counter of the session's
  -- handles has room for as many as it issues.
  pub record Settles (room : ℕ) (mine left : List Resource) (h : Handler W) (s : SessionState)
      : Type 0 where
    pub at :
        (w : W) (f : Holding)
        → IsValid s.handles
        → s.handles.next_id + room < 2 ^ 64
        → Counts f s mine
        → IsValid (h s w).session.handles
          × ((g : Holding) × (follow f (h s w).trace ≡ some g) × Counts g (h s w).session left)

  module _ (room : ℕ) (mine : List Resource) (s : SessionState) where
    pub respond-Settles : (r : RpcResponse) → Settles room mine mine (respond r) s
    unfolding respond follow
    respond-Settles r = record { at = λ w f v b c. (v, (f, refl, c)) }

    pub or_return-Settles :
        {A : Type 0} (r : Result RpcResponse A) (k : A → Handler W)
        → ((a : A) → Settles room mine mine (k a) s)
        → Settles room mine mine (or_return r k) s
    unfolding or_return
    or_return-Settles (ok a) k p = p a
    or_return-Settles (err e) k p = respond-Settles e

  module _ (room : ℕ) (mine left : List Resource) (s : SessionState) where
    pub or_fail-Settles :
        {A : Type 0} (fail : ProviderError → Handler W) (r : Result ProviderError A)
        (k : A → Handler W)
        → ((e : ProviderError) → Settles room mine left (fail e) s)
        → ((a : A) → Settles room mine left (k a) s)
        → Settles room mine left (or_fail fail r k) s
    unfolding or_fail
    or_fail-Settles fail (ok a) k p q = q a
    or_fail-Settles fail (err e) k p q = p e

    pub invoke-Settles :
        {A : Type 0} (r : Resource) (op : Operation) (call : Call W A)
        (k : Result ProviderError A → Handler W)
        → 1 ≤ owned s.handles r + total mine r
        → ((a : Result ProviderError A) → Settles room mine left (k a) s)
        → Settles room mine left (invoke r op call k) s
    unfolding invoke follow
    invoke-Settles r op call k p q = record {
      at = λ w f v b c.
          let (a, w') = call w in
          let (v', (g, e, d)) = (q a).at w' f v b c in (v', (g, ground (arith, c r), d));
    }

    obtained-Settles :
        {A : Type 0} (resource : A → Resource) (name : Text) (fail : ProviderError → Handler W)
        (k : A → Handler W) (r : Result ProviderError A)
        → ((e : ProviderError) → Settles room mine left (fail e) s)
        → ((a : A) → Settles room (resource a ∷ mine) left (k a) s)
        → Settles room mine left (obtained resource name fail k r) s
    unfolding obtained follow
    obtained-Settles resource name fail k (err e) p q = p e
    obtained-Settles resource name fail k (ok a) p q = record {
      at = λ w f v b c. (q a).at w (λ x. f x + one (resource a) x) v b (λ x. omega (arith, c x));
    }

    pub obtain-Settles :
        {A : Type 0} (es : List Event) (resource : A → Resource) (name : Text)
        (call : W → Result ProviderError A × W) (fail : ProviderError → Handler W)
        (k : A → Handler W)
        → ((f : Holding) → Counts f s mine → follow f es ≡ some f)
        → ((e : ProviderError) → Settles room mine left (fail e) s)
        → ((a : A) → Settles room (resource a ∷ mine) left (k a) s)
        → Settles room mine left (obtain es resource name call fail k) s
    unfolding obtain
    obtain-Settles es resource name call fail k u p q = record {
      at = λ w f v b c.
          let (r, w') = call w in
          let (v', (g, e, d)) = (obtained-Settles resource name fail k r p q).at w' f v b c in
          (v', (g, follow-append f f es _ (u f c) ∙ e, d));
    }

    pub dispose-Settles :
        (r : Resource) (close : W → W) (h : Handler W)
        → Settles room mine (r ∷ left) h s
        → Settles room mine left (dispose r close h) s
    unfolding dispose follow
    dispose-Settles r close h p = record {
      at = λ w f v b c.
          let (v', (g, e, d)) = p.at w f v b c in
          (
            v',
            (
              λ x. g x - one r x,
              follow-append f g (h s w).trace (closed r ∷ []) e ∙ ground (arith, d r, one_refl r),
              λ x. omega (arith, d x),
            ),
          );
    }

    pub find_handle-Settles :
        (kind : ResourceKind) (h : Text) (k : Result HandleError (GuardOf kind) → Handler W)
        → ((e : HandleError) → Settles room mine left (k (err e)) s)
        → ((g : GuardOf kind)
            → 1 ≤ owned s.handles (guard_resource kind g)
            → Settles room mine left (k (ok g)) s)
        → Settles room mine left (find_handle kind h k) s
    unfolding find_handle
    find_handle-Settles kind h k p q = record {
      at = λ w f v b c. found (find kind h s.handles) refl w f v b c;
    }
      where
        found :
            (r : Result HandleError (GuardOf kind))
            → find kind h s.handles ≡ r
            → (w : W) (f : Holding) → IsValid s.handles
            → s.handles.next_id + room < 2 ^ 64
            → Counts f s mine
            → IsValid (k r s w).session.handles
              × ((g : Holding) × (follow f (k r s w).trace ≡ some g)
                  × Counts g (k r s w).session left)
        found (err e) h w f v b c = (p e).at w f v b c
        found (ok g) e w f v b c = (q g (owned-find kind h g s.handles v e)).at w f v b c

    pub take_handle-Settles :
        (kind : ResourceKind) (h : Text) (k : Result HandleError (GuardOf kind) → Handler W)
        → ((e : HandleError) (s' : SessionState) → Settles room mine left (k (err e)) s')
        → ((g : GuardOf kind) (s' : SessionState)
            → Settles room (guard_resource kind g ∷ mine) left (k (ok g)) s')
        → Settles room mine left (take_handle kind h k) s
    unfolding take_handle
    take_handle-Settles kind h k p q = record {
      at = λ w f v b c.
          taken (remove_handle kind h s.handles).0 refl w f v
            (rw (next_id-remove kind h s.handles) b) c;
    }
      where
        t : HandleTable GuardOf
        t = (remove_handle kind h s.handles).1

        taken :
            (r : Result HandleError (GuardOf kind))
            → (remove_handle kind h s.handles).0 ≡ r
            → (w : W) (f : Holding) → IsValid s.handles
            → t.next_id + room < 2 ^ 64
            → Counts f s mine
            → IsValid (k r (record s { handles = t }) w).session.handles
              × ((g : Holding) × (follow f (k r (record s { handles = t }) w).trace ≡ some g)
                  × Counts g (k r (record s { handles = t }) w).session left)
        taken (err e) same w f v b c =
            (p e (record s { handles = t })).at w f (remove-IsValid kind h s.handles v) b (λ x.
              c x
              ∙ ap (λ u. owned u x + total mine x)
                  (sym (remove_handle-err kind h e s.handles same)))
        taken (ok g) same w f v b c =
            (q g (record s { handles = t })).at w f (remove-IsValid kind h s.handles v) b (λ x.
              omega (
                arith,
                c x,
                owned-remove_handle kind h g s.handles x v
                    (sym (remove_handle-find kind h s.handles) ∙ same),
              ))

    pub issue_handle-Settles :
        (kind : ResourceKind) (g : GuardOf kind) (k : Text → Handler W)
        → ((h : Text) (s' : SessionState) → Settles room mine left (k h) s')
        → Settles (room + 1) (guard_resource kind g ∷ mine) left (issue_handle kind g k) s
    unfolding issue_handle
    issue_handle-Settles kind g k p = record {
      at = λ w f v b c.
          let (h, t) = issue kind g s.handles in
          (p h (record s { handles = t })).at w f (issue-IsValid kind g s.handles v (omega arith))
            (omega (arith, next_id-issue kind g s.handles (omega arith)))
            (λ x. omega (arith, c x, owned-issue kind g s.handles x v (omega arith)));
    }
