-- ===== src/Api.antt =====
-- internal/api: the requests and responses, and the handlers of handler.go.
pub mod Request
pub mod Handler
pub mod Middleware
use notification_system.Base.{ℕ, String}

-- The bodies of the responses, and the response as `writeJSON` writes it: every path of a handler
-- writes one response and returns.
pub record SendResponse : Type 0 where
  pub notification_id : String
  pub status : String
  pub message : String

pub record StatusResponse : Type 0 where
  pub notification_id : String
  pub channel : String
  pub status : String
  pub created_at : String

pub record ErrorResponse : Type 0 where
  pub error : String
  pub code : String

pub data Body : Type 0 where
  sent : SendResponse → Body
  found : StatusResponse → Body
  failure : ErrorResponse → Body
  healthy : String → Body

pub record Response : Type 0 where
  pub content_type : String
  pub status : ℕ
  pub body : Body

abbrev pub write_json : ℕ → Body → Response
write_json status body = record { content_type = "application/json"; status = status; body = body }

abbrev pub write_error : String → String → ℕ → Response
write_error message code status =
    write_json status (failure (record { error = message; code = code }))
