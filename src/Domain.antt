-- ===== src/Domain.antt =====
-- internal/domain: the structs and constants that every package uses. `Channel` and `Status` are
-- string types in the source, so a value may be any text. An instant of time is a number.
pub mod Codec
pub mod Repository
use notification_system.Base.{ℕ, String, Bool, List, Option}

abbrev pub Channel : Type 0
Channel = String

abbrev pub channel_ios : Channel
channel_ios = "ios"

abbrev pub channel_android : Channel
channel_android = "android"

abbrev pub channel_sms : Channel
channel_sms = "sms"

abbrev pub channel_email : Channel
channel_email = "email"

abbrev pub Status : Type 0
Status = String

abbrev pub status_pending : Status
status_pending = "pending"

abbrev pub status_sent : Status
status_sent = "sent"

abbrev pub status_failed : Status
status_failed = "failed"

abbrev pub status_skipped : Status
status_skipped = "skipped"

abbrev pub Time : Type 0
Time = ℕ

-- A Go map of texts; `none` where the map is nil.
abbrev pub Payload : Type 0
Payload = Option (List (String × String))

pub record Notification : Type 0 where
  pub id : String
  pub user_id : String
  pub channel : Channel
  pub template_id : String
  pub payload : Payload
  pub status : Status
  pub created_at : Time
  pub scheduled_at : Option Time
  pub recipient_email : String
  pub recipient_phone : String
  pub recipient_token : String

pub record User : Type 0 where
  pub id : String
  pub email : String
  pub phone : String
  pub device_token : String
  pub platform : String

pub record UserPreferences : Type 0 where
  pub user_id : String
  pub email_enabled : Bool
  pub sms_enabled : Bool
  pub push_enabled : Bool

pub record DeliveryLog : Type 0 where
  pub id : String
  pub notification_id : String
  pub channel : Channel
  pub attempt : ℕ
  pub status : Status
  pub error_message : String
  pub attempted_at : Time
