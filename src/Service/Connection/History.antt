-- ===== src/Service/Connection/History.antt =====
-- What holds of a connection of src/main.rs after any sequence of requests, whichever of them run out
-- of time or die.
use liuzx_skf.Session.State.{SessionState}
use liuzx_skf.Protocol.{RpcRequest, RpcResponse, Language}
use liuzx_skf.Service.Connection.{
  Connection, TaskEnd, returned, died, Answer, connected, handle, settle, expire, exempt,
}
use liuzx_skf.Common.{
  Bool-cases, text_eq, ◌≡◌, refl, sym, subst, ◌∙◌, inl, inr, Bool, ◌&&◌, not, Option, some,
}

-- What a task may do: the invariant holds of the state that it hands back.
abbrev pub Keeps : (SessionState → Type 0) → (SessionState → Language → TaskEnd) → Type 0
Keeps P task =
    (s : SessionState) (lang : Language) (s' : SessionState) (r : RpcResponse) (lang' : Language)
    → P s
    → task s lang ≡ returned s' r lang'
    → P s'

-- The connections that requests lead to, from a fresh one; every request has a fresh state of its
-- own to fall back on.
pub data Reached (P : SessionState → Type 0) : Connection → Type 0 where
  opened : (s : SessionState) → P s → Reached P (connected s)
  served :
      (c c' : Connection) (new_state : SessionState) (parsed : Option RpcRequest)
      (task : SessionState → Language → TaskEnd) (late : Bool) (a : Answer)
      → Reached P c
      → P new_state
      → Keeps P task
      → handle new_state parsed task late c ≡ some (c', a)
      → Reached P c'

-- The connection has its state back, and the state is as the invariant says.
abbrev pub Ready : (SessionState → Type 0) → Connection → Type 0
Ready P c = (s : SessionState) × (c.slot ≡ some s) × P s

same_connection :
    (c d : Connection) (a b : Answer)
    → ◌≡◌ {A = Option (Connection × Answer)} (some (c, a)) (some (d, b))
    → c ≡ d
same_connection c d a b h = cc

module _ (P : SessionState → Type 0) where
  settle-Ready :
      (new_state : SessionState) (e : TaskEnd)
      → P new_state
      → ((s : SessionState) (r : RpcResponse) (lang : Language) → e ≡ returned s r lang → P s)
      → Ready P (settle new_state e).0
  unfolding settle
  settle-Ready new_state (returned s r lang) p q = (s, refl, q s r lang refl)
  settle-Ready new_state (died join) p q = (new_state, refl, p)

  expire-Ready :
      (new_state : SessionState) (parsed : Option RpcRequest)
      → P new_state
      → Ready P (expire new_state parsed).0
  unfolding expire
  expire-Ready new_state parsed p = (new_state, refl, p)

  handle-Ready :
      (new_state : SessionState) (parsed : Option RpcRequest)
      (task : SessionState → Language → TaskEnd) (late : Bool) (c : Connection)
      → Ready P c
      → P new_state
      → Keeps P task
      → (c' : Connection) × (a : Answer) × (handle new_state parsed task late c ≡ some (c', a))
        × Ready P c'
  unfolding handle
  handle-Ready new_state parsed task late c (s, e, p) q k =
      elim (Bool-cases (late && not (exempt parsed))) [
        | inl b ↦ (
          (expire new_state parsed).0,
          (expire new_state parsed).1,
          rw (handle, e, b) refl,
          expire-Ready new_state parsed q,
        )
        | inr b ↦ (
          (settle new_state (task s c.lang)).0,
          (settle new_state (task s c.lang)).1,
          rw (handle, e, b) refl,
          settle-Ready new_state (task s c.lang) q (λ s' r lang' h. k s c.lang s' r lang' p h),
        )
      ]

  -- Whatever the requests before did, the connection has its state back, and the invariant holds of
  -- it.
  Ready-Reached : (c : Connection) → Reached P c → Ready P c
  unfolding connected
  Ready-Reached _ (opened s p) = (s, refl, p)
  Ready-Reached c' (served c _ new_state parsed task late a before q k h) =
      let (d, b, e, ready) =
        handle-Ready new_state parsed task late c (Ready-Reached c before) q k in
      subst (λ x. Ready P x) (same_connection d c' b a (sym e ∙ h)) ready

-- A connection answers every request: after any history of requests, some of which ran out of time or
-- died, the next one is answered, however it ends, and leaves a connection that is ready for another
-- one. Its state satisfies each invariant that a fresh state has and that no task breaks.
pub handle-Reached :
    (P : SessionState → Type 0) (c : Connection) (new_state : SessionState)
    (parsed : Option RpcRequest) (task : SessionState → Language → TaskEnd) (late : Bool)
    → Reached P c
    → P new_state
    → Keeps P task
    → (c' : Connection) × (a : Answer) × (handle new_state parsed task late c ≡ some (c', a))
      × Ready P c'
      × Reached P c'
handle-Reached P c new_state parsed task late before q k =
    let (c', a, e, ready) =
      handle-Ready P new_state parsed task late c (Ready-Reached P c before) q k in
    (c', a, e, ready, served c c' new_state parsed task late a before q k e)
