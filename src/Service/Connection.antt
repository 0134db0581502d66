-- ===== src/Service/Connection.antt =====
-- src/main.rs: `JsonRpcSession::handle`, one request of a connection, with the slot of
-- `SessionGuard` in src/session/registry.rs. A request runs as a task of its own, with the state and
-- the language of the connection. How the task ends is an argument: in time, too late, or by a panic
-- of the task. What a late task does to the world afterwards is not modelled.
pub mod History
use liuzx_skf.Session.State.{SessionState}
use liuzx_skf.Session.State
use liuzx_skf.Protocol.{Json, RpcRequest, RpcResponse, respond_err, Language, en}
use liuzx_skf.Common.{
  if◌then◌else◌, negsuc, Text, ◌===◌, text_eq, text, Bool, false, ◌&&◌, ◌||◌, not, Option, none,
  some, arith,
}

pub record Connection : Type 0 where
  -- `SessionGuard::state`: empty while a request runs
  pub slot : Option SessionState
  pub lang : Language

-- `is_wait_method`
unfoldable pub is_wait_method : Text → Bool
is_wait_method method = method === text "WaitForDevEvent" || method === text "CancelWaitForDevEvent"

-- A request that does not parse is not exempt.
unfoldable pub exempt : Option RpcRequest → Bool
unfolding is_wait_method
exempt none = false
exempt (some req) = is_wait_method req.method

-- `parsed.as_ref().and_then(|r| r.id.clone())`
unfoldable pub request_id : Option RpcRequest → Option Json
request_id none = none
request_id (some req) = req.id

-- `JsonRpcSession::new`, with the state of `JsonRpcSessionFactory::create`
unfoldable pub connected : SessionState → Connection
connected s = record { slot = some s; lang = en }

-- How the task of a request ends.
pub data TaskEnd : Type 0 where
  -- the state, the answer and the language that it hands back
  returned : SessionState → RpcResponse → Language → TaskEnd
  -- a panic of the task, with the text of the join error
  died : Text → TaskEnd

-- What the client reads: a response of the protocol, or the text of a failed task.
pub data Answer : Type 0 where
  response : RpcResponse → Answer
  task_failed : Text → Answer

module _ (new_state : SessionState) where
  -- `match joined { … }`
  unfoldable pub settle : TaskEnd → Connection × Answer
  settle (returned s r lang) = (record { slot = some s; lang = lang }, response r)
  settle (died join) = (record { slot = some new_state; lang = en }, task_failed join)

  -- `Err(_elapsed)`
  unfoldable pub expire : Option RpcRequest → Connection × Answer
  unfolding request_id
  expire parsed = (
    record { slot = some new_state; lang = en },
    response
        (respond_err (negsuc 0) (text "Device operation timed out after 30s") (request_id parsed)),
  )

  -- `handle`; `none` is the panic of `take_state` on an empty slot. A task counts as late when the
  -- time limit passes before it ends, and an exempt request has no limit.
  unfoldable pub handle :
      Option RpcRequest
      → (SessionState → Language → TaskEnd)
      → Bool
      → Connection
      → Option (Connection × Answer)
  unfolding settle expire exempt
  handle parsed task late c = elim c.slot [
    | none ↦ none
    | some s ↦ some (if late && not (exempt parsed) then expire parsed else settle (task s c.lang))
  ]
