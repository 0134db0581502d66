-- ===== src/Service/Steps.antt =====
-- The steps of the branches of src/main.rs that keep guards in the session's handle table.
use liuzx_skf.Session.Handles.{ResourceKind, HandleError, issue, find}
use liuzx_skf.Session.Handles
use liuzx_skf.Provider.{GuardOf, ProviderError, Call}
use liuzx_skf.Exec.{
  Resource, Event, opened, closed, Handler, Step, after, device_resource, app_resource,
  container_resource, digest_resource,
}
use liuzx_skf.Common.{Result, ok, err, Text, text_eq, List, [], ◌∷◌, ◌++◌}

-- The native resource of a guard.
abbrev pub guard_resource : (kind : ResourceKind) → GuardOf kind → Resource
guard_resource ResourceKind.device g = device_resource g
guard_resource ResourceKind.application g = app_resource g
guard_resource ResourceKind.container g = container_resource g
guard_resource ResourceKind.digest g = digest_resource g

module _ {W : Type 0} where
  unfoldable pub obtained :
      {A : Type 0}
      → (A → Resource)
      → Text
      → (ProviderError → Handler W)
      → (A → Handler W)
      → Result ProviderError A
      → Handler W
  unfolding after
  obtained resource name fail k (err e) s w = fail e s w
  obtained resource name fail k (ok a) s w = after (opened (resource a) name ∷ []) (k a s w)

  -- A call that makes a guard, which the rest of the handler owns.
  unfoldable pub obtain :
      {A : Type 0}
      → List Event
      → (A → Resource)
      → Text
      → Call W A
      → (ProviderError → Handler W)
      → Step W A
  unfolding obtained after
  obtain es resource name call fail k s w =
      let (r, w') = call w in after es (obtained resource name fail k r s w')

  -- The rest of the handler ends, and drops the guard.
  unfoldable pub dispose : Resource → (W → W) → Handler W → Handler W
  dispose r close h s w =
      let reply = h s w in
      record reply { trace = reply.trace ++ closed r ∷ []; world = close reply.world }

  -- `state.handles_mut().issue_…(guard)`: the session owns the guard from here on.
  unfoldable pub issue_handle : (kind : ResourceKind) → GuardOf kind → Step W Text
  issue_handle kind g k s w =
      let (handle, t) = issue kind g s.handles in k handle (record s { handles = t }) w

  -- `state.handles_mut().device(handle)` and the like: the session keeps the guard.
  unfoldable pub find_handle :
      (kind : ResourceKind) → Text → Step W (Result HandleError (GuardOf kind))
  find_handle kind handle k s w = k (find kind handle s.handles) s w

  -- `state.handles_mut().remove_device(handle)` and the like: the handler owns the guard.
  unfoldable pub take_handle :
      (kind : ResourceKind) → Text → Step W (Result HandleError (GuardOf kind))
  take_handle kind handle k s w =
      let (r, t) = Handles.remove_handle kind handle s.handles in k r (record s { handles = t }) w
