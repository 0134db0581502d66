-- ===== src/Service/Ownership.antt =====
-- Who owns the native resources, as a property of what a branch of src/main.rs did: `follow` counts
-- the guards that are alive through its events, and stops at a call on a resource that is not alive
-- and at a guard that is dropped twice. A branch settles its guards if those that are alive when it
-- ends are the ones in the session's table.
pub mod Steps
pub mod Native
pub mod Branches
pub mod Direct
pub mod Settled
pub mod Answered
pub mod Closed
use liuzx_skf.Session.Handles.{
  ResourceKind, device, application, container, digest, HandleTable, HandleError, issue, find,
  remove_handle, find_in,
}
use liuzx_skf.Session.Handles
use liuzx_skf.Session.Handles.Kinds.{kind_beq_iff, handle_of}
use liuzx_skf.Session.Handles.Lifecycle.{
  table, IsValid, issue-IsValid, remove-IsValid, issue-handle,
}
use liuzx_skf.Session.State.{SessionState}
use liuzx_skf.Protocol.{RpcResponse}
use liuzx_skf.Provider.{GuardOf, ProviderError, Operation, Call}
use liuzx_skf.Exec.{
  Resource, Event, opened, closed, called, checked, resolved, Handler, respond, or_return, or_fail,
  invoke, resource_beq,
}
use liuzx_skf.Service.Steps.{
  guard_resource, obtain, obtained, dispose, issue_handle, find_handle, take_handle,
}
use liuzx_skf.Common.{
  ltb, if◌then◌else◌, ok, err, Text, text_eq, text_eq_iff, IsMap, remove_absent, get, insert,
  remove, ℕ, ◌+◌, ◌-◌, ◌^◌, ◌≤◌, ◌<◌, ◌≡◌, refl, ap, Option, none, some, List, [], ◌∷◌, arith,
}

-- How often each resource is held.
abbrev pub Holding : Type 0
Holding = Resource → ℕ

unfoldable pub one : Resource → Holding
one r x = if resource_beq r x then 1 else 0

abbrev pub more : Resource → Holding → Holding
more r f x = f x + one r x

abbrev pub less : Resource → Holding → Holding
less r f x = f x - one r x

unfoldable pub follow : Holding → List Event → Option Holding
follow f [] = some f
follow f (opened r name ∷ es) = follow (more r f) es
follow f (closed r ∷ es) = let rest = follow (less r f) es in if ltb 0 (f r) then rest else none
follow f (called r op ∷ es) = let rest = follow f es in if ltb 0 (f r) then rest else none
follow f (checked key b ∷ es) = follow f es
follow f (resolved alias ∷ es) = follow f es

-- The guards in one table, and in the session's four.
unfoldable pub held_in : {G : Type 0} → (G → Resource) → List (Text × G) → Holding
unfolding one
held_in resource [] x = 0
held_in resource ((h, g) ∷ m) x = held_in resource m x + one (resource g) x

unfoldable pub owned : HandleTable GuardOf → Holding
unfolding held_in
owned t x =
    held_in (guard_resource device) t.devices x
    + held_in (guard_resource application) t.applications x
    + held_in (guard_resource container) t.containers x
    + held_in (guard_resource digest) t.digests x

pub one_refl : (r : Resource) → one r r ≡ 1
unfolding one resource_beq
one_refl r = ground (arith, kind_beq_iff r.kind r.kind)

module _ {G : Type 0} (resource : G → Resource) (x : Resource) where
  held_in-remove :
      (h : Text) (g : G) (m : List (Text × G))
      → IsMap m
      → get h m ≡ some g
      → held_in resource m x ≡ held_in resource (remove h m) x + one (resource g) x
  unfolding held_in get remove
  held_in-remove h g [] d e = cc
  held_in-remove h g ((j, k) ∷ m) d e =
      ground (arith, held_in-remove h g m d.1, remove_absent h m, text_eq_iff j h, get_same j h m)
    where
      get_same : (a b : Text) (l : List (Text × G)) → a ≡ b → get a l ≡ get b l
      get_same a b l p = ap (λ i. get i l) p

  held_in-insert :
      (h : Text) (g : G) (m : List (Text × G))
      → get h m ≡ none
      → held_in resource (insert h g m) x ≡ held_in resource m x + one (resource g) x
  unfolding held_in insert
  held_in-insert h g m e = rw (remove_absent h m e) refl

find_in-get :
    {G : Type 0} (kind : ResourceKind) (h : Text) (m : List (Text × G)) (g : G)
    → find_in kind h m ≡ ok g
    → get h m ≡ some g
unfolding find_in
find_in-get kind h m g e = ground arith

pub owned-issue :
    (kind : ResourceKind) (g : GuardOf kind) (t : HandleTable GuardOf) (x : Resource)
    → IsValid t
    → t.next_id + 1 < 2 ^ 64
    → owned (issue kind g t).1 x ≡ owned t x + one (guard_resource kind g) x
unfolding owned issue
owned-issue device g t x v b =
    let n : ℕ = t.next_id + 1 in
    let f = (v.owned device).fresh n (omega arith) in
    ground (
      arith,
      issue-handle device g t b,
      held_in-insert (guard_resource device) x (handle_of device n) g t.devices f,
    )
owned-issue application g t x v b =
    let n : ℕ = t.next_id + 1 in
    let f = (v.owned application).fresh n (omega arith) in
    ground (
      arith,
      issue-handle application g t b,
      held_in-insert (guard_resource application) x (handle_of application n) g t.applications f,
    )
owned-issue container g t x v b =
    let n : ℕ = t.next_id + 1 in
    let f = (v.owned container).fresh n (omega arith) in
    ground (
      arith,
      issue-handle container g t b,
      held_in-insert (guard_resource container) x (handle_of container n) g t.containers f,
    )
owned-issue digest g t x v b =
    let n : ℕ = t.next_id + 1 in
    let f = (v.owned digest).fresh n (omega arith) in
    ground (
      arith,
      issue-handle digest g t b,
      held_in-insert (guard_resource digest) x (handle_of digest n) g t.digests f,
    )

pub owned-remove_handle :
    (kind : ResourceKind) (h : Text) (g : GuardOf kind) (t : HandleTable GuardOf) (x : Resource)
    → IsValid t
    → find kind h t ≡ ok g
    → owned t x ≡ owned (remove_handle kind h t).1 x + one (guard_resource kind g) x
unfolding owned find remove_handle
owned-remove_handle device h g t x v e = ground (
  arith,
  held_in-remove (guard_resource device) x h g t.devices (v.owned device).distinct,
  find_in-get device h t.devices g,
)
owned-remove_handle application h g t x v e = ground (
  arith,
  held_in-remove (guard_resource application) x h g t.applications (v.owned application).distinct,
  find_in-get application h t.applications g,
)
owned-remove_handle container h g t x v e = ground (
  arith,
  held_in-remove (guard_resource container) x h g t.containers (v.owned container).distinct,
  find_in-get container h t.containers g,
)
owned-remove_handle digest h g t x v e = ground (
  arith,
  held_in-remove (guard_resource digest) x h g t.digests (v.owned digest).distinct,
  find_in-get digest h t.digests g,
)

-- A guard that the session finds is alive.
pub owned-find :
    (kind : ResourceKind) (h : Text) (g : GuardOf kind) (t : HandleTable GuardOf)
    → IsValid t
    → find kind h t ≡ ok g
    → 1 ≤ owned t (guard_resource kind g)
owned-find kind h g t v e = omega (
  arith,
  owned-remove_handle kind h g t (guard_resource kind g) v e,
  one_refl (guard_resource kind g),
)

-- A refused removal changes nothing.
pub remove_handle-err :
    (kind : ResourceKind) (h : Text) (e : HandleError) (t : HandleTable GuardOf)
    → (remove_handle kind h t).0 ≡ err e
    → (remove_handle kind h t).1 ≡ t
unfolding remove_handle
remove_handle-err device h e t p = ground arith
remove_handle-err application h e t p = ground arith
remove_handle-err container h e t p = ground arith
remove_handle-err digest h e t p = ground arith
