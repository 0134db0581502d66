-- ===== src/Protocol.antt =====
-- src/protocol/mod.rs: requests, responses and languages; the JSON values of `serde_json`.
pub mod Params
use liuzx_skf.Common.{ℤ, pos, Text, text_eq, ℕ, Bool, Option, none, some, List, arith}

-- `serde_json::Value`. A number is a `u64`, a negative `i64` (`neg n` is -(n + 1)) or an `f64`,
-- which is given by its bits.
mutual
  pub data Json : Type 0 where
    null : Json
    bool : Bool → Json
    num neg float : ℕ → Json
    str : Text → Json
    arr : Items → Json
    obj : Fields → Json

  pub data Items : Type 0 where
    nil : Items
    item : Json → Items → Items

  pub data Fields : Type 0 where
    end : Fields
    field : Text → Json → Fields → Fields

-- `Value::as_str`, `Value::as_u64`, `Value::as_bool`
unfoldable pub as_str : Json → Option Text
as_str (str s) = some s
as_str _ = none

unfoldable pub as_u64 : Json → Option ℕ
as_u64 (num n) = some n
as_u64 _ = none

unfoldable pub as_bool : Json → Option Bool
as_bool (bool b) = some b
as_bool _ = none

pub record RpcRequest : Type 0 where
  pub method : Text
  pub params : List Json
  pub id : Option Json
  pub api_version : Option ℕ

pub record RpcResponse : Type 0 where
  pub error : ℤ
  pub result : Json
  pub message : Option Text
  pub id : Option Json

-- `RpcResponse::ok` and `RpcResponse::err`
unfoldable pub respond_ok : Json → Option Json → RpcResponse
respond_ok result id = record { error = pos 0; result = result; message = none; id = id }

unfoldable pub respond_err : ℤ → Text → Option Json → RpcResponse
respond_err error msg id = record { error = error; result = null; message = some msg; id = id }

pub data Language : Type 0 where
  en cn : Language

-- The text of a message in the language of the connection.
unfoldable pub localized : Language → Text → Text → Text
localized cn chinese english = chinese
localized en chinese english = english
