-- ===== src/Api/Handler/Outcomes.antt =====
-- How `SendNotification` ends: the response, and what it leaves in the tables.
use notification_system.Base.{String, true, false, none, some, [], ◌∷◌, ◌++◌, ◌≡◌, ◌⊎◌}
use notification_system.Domain.{Notification, User, UserPreferences, Time}
use notification_system.Json.{Bytes}
use notification_system.Config.{ChannelRouting, route}
use notification_system.Kafka.{message_of}
use notification_system.Runtime.{kafka_publish_total}
use notification_system.Effect.{Outcome, returns}
use notification_system.Store.Tables.{Tables, row_of, find_notification}
use notification_system.Cache.Coherence.{stored_user, stored_preferences}
use notification_system.Api.{Response, sent, write_json, write_error}
use notification_system.Api.Request.{SendRequest, decode_request, lacks_field, valid_channel}
use notification_system.Api.Handler.{Handler, is_channel_enabled, internal_error, notification_of}

abbrev pub queued_response : Notification → Response
queued_response n = write_json 202 (
    sent (record {
      notification_id = n.id;
      status = "queued";
      message = "notification accepted for delivery";
    }))

abbrev pub skipped_response : Response
skipped_response = write_json 200 (
    sent (record {
      notification_id = "";
      status = "skipped";
      message = "user has disabled this notification channel";
    }))

abbrev pub append_notification : Tables → Notification → Tables
append_notification t n = record t { notifications = t.notifications ++ row_of n ∷ [] }

abbrev pub IsValid : Bytes → SendRequest → Type 0
IsValid body req =
    (decode_request body ≡ some req)
    × (lacks_field req ≡ false)
    × (valid_channel req.channel ≡ true)

-- The notification is the one that the request asks for, of a user in the tables who receives on
-- its channel, under an id that is new.
pub record Accepted {W : Type 0} (h : Handler W) (req : SendRequest) (t : Tables) (n : Notification)
    : Type 0 where
  pub user : User
  pub prefs : UserPreferences
  pub id : String
  pub at : Time
  pub known : stored_user req.user_id t ≡ some user
  pub preferred : stored_preferences req.user_id t ≡ some prefs
  pub enabled : is_channel_enabled req.channel prefs ≡ true
  pub built : n ≡ notification_of h req user id at

-- The message of the notification was written, from a world with the tables `t` to the world `x`.
pub record Written {W : Type 0} (h : Handler W) (tables : W → Tables) (n : Notification)
    (t : Tables) (x : W) : Type 0 where
  pub to : ChannelRouting
  pub at : Time
  pub before : W
  pub routed : route n.channel h.producer.routing ≡ some to
  pub stored : tables before ≡ t
  pub acknowledged :
      h.producer.writer.write_messages (message_of h.producer.formats to n at) before ≡ (none, x)

-- From the tables `t`, the handler answered `r` and left the world `x`.
pub data Handled {W : Type 0} (h : Handler W) (tables : W → Tables) (body : Bytes) (t : Tables)
    (r : Outcome Response) (x : W) : Type 0 where
  invalid :
      (message code : String)
      → ((req : SendRequest) → ¬ IsValid body req)
      → r ≡ returns (write_error message code 400)
      → tables x ≡ t
      → Handled h tables body t r x
  limited :
      (req : SendRequest)
      → IsValid body req
      → r ≡ returns (write_error "rate limit exceeded for this channel" "RATE_LIMITED" 429)
      → tables x ≡ t
      → Handled h tables body t r x
  unknown :
      (req : SendRequest)
      → IsValid body req
      → r ≡ returns (write_error "user not found" "USER_NOT_FOUND" 404)
      → tables x ≡ t
      → Handled h tables body t r x
  unread :
      (req : SendRequest) (user : User)
      → IsValid body req
      → stored_user req.user_id t ≡ some user
      → r ≡ returns internal_error
      → tables x ≡ t
      → Handled h tables body t r x
  opted_out :
      (req : SendRequest) (user : User) (prefs : UserPreferences)
      → IsValid body req
      → stored_user req.user_id t ≡ some user
      → stored_preferences req.user_id t ≡ some prefs
      → is_channel_enabled req.channel prefs ≡ false
      → r ≡ returns skipped_response
      → tables x ≡ t
      → Handled h tables body t r x
  unsaved :
      (req : SendRequest) (n : Notification)
      → IsValid body req
      → Accepted h req t n
      → r ≡ returns internal_error
      → (tables x ≡ t) ⊎ (tables x ≡ append_notification t n)
      → Handled h tables body t r x
  unqueued :
      (req : SendRequest) (n : Notification)
      → IsValid body req
      → Accepted h req t n
      → find_notification n.id t.notifications ≡ none
      → r ≡ returns (write_error "failed to queue notification" "INTERNAL_ERROR" 500)
      → tables x ≡ append_notification t n
      → Handled h tables body t r x
  queued :
      (req : SendRequest) (n : Notification)
      → IsValid body req
      → Accepted h req t n
      → find_notification n.id t.notifications ≡ none
      → r ≡ returns (queued_response n)
      → (y : W) → Written h tables n (append_notification t n) y
      → x ≡ h.runtime.inc (kafka_publish_total n.channel "success") y
      → tables x ≡ append_notification t n
      → Handled h tables body t r x
