-- ===== src/Api/Handler.antt =====
-- internal/api/handler.go.
pub mod Laws
pub mod Limiting
pub mod Outcomes
pub mod Steps
pub mod Sending
pub mod Keeps
pub mod Interleaving
pub mod Status
pub mod Unscanned
use notification_system.Base.{
  String, Bool, true, false, Option, none, some, ◌==◌, ◌||◌, if◌then◌else◌,
}
use notification_system.Failure.{Failure, Result, ok, err}
use notification_system.Effect.{Exec, pure, call, ◌>>=◌, ◌>>◌}
use notification_system.Domain.{
  Notification, User, UserPreferences, Channel, Time, status_pending, channel_ios, channel_android,
  channel_sms, channel_email,
}
use notification_system.Json.{Bytes}
use notification_system.Runtime.{Runtime, tick, notifications_skipped_total, kafka_publish_total}
use notification_system.RateLimit.{Limiter, allow}
use notification_system.Cache
use notification_system.Cache.{UserCache, find_preferences_cached}
use notification_system.Domain.Repository.{NotificationRepository}
use notification_system.Kafka.{Producer, publish}
use notification_system.Api.{Response, sent, found, healthy, write_json, write_error}
use notification_system.Api.Request.{SendRequest, decode_request, lacks_field, valid_channel}

-- The fields of a `Handler` besides its logger, and what the process gives it.
pub record Handler (W : Type 0) : Type 0 where
  pub producer : Producer W
  pub user_cache : UserCache W
  pub notif_repo : NotificationRepository W
  pub limiter : Limiter W
  pub runtime : Runtime W
  -- `Time.Format(time.RFC3339)`
  pub rfc3339 : Time → String

abbrev pub new_handler :
    {W : Type 0}
    → Producer W
    → UserCache W
    → NotificationRepository W
    → Limiter W
    → Runtime W
    → (Time → String)
    → Handler W
new_handler producer user_cache notif_repo limiter runtime rfc3339 = record {
  producer = producer;
  user_cache = user_cache;
  notif_repo = notif_repo;
  limiter = limiter;
  runtime = runtime;
  rfc3339 = rfc3339;
}

unfoldable pub is_channel_enabled : Channel → UserPreferences → Bool
is_channel_enabled channel prefs =
    if channel == channel_email
    then prefs.email_enabled
    else if channel == channel_sms
    then prefs.sms_enabled
    else if channel == channel_ios || channel == channel_android
    then prefs.push_enabled
    else false

abbrev pub internal_error : Response
internal_error = write_error "internal server error" "INTERNAL_ERROR" 500

module _ {W : Type 0} (h : Handler W) where
  abbrev pub notification_of : SendRequest → User → String → Time → Notification
  notification_of req user id now = record {
    id = id;
    user_id = req.user_id;
    channel = req.channel;
    template_id = req.template_id;
    payload = req.payload;
    status = status_pending;
    created_at = now;
    scheduled_at = none;
    recipient_email = user.email;
    recipient_phone = user.phone;
    recipient_token = user.device_token;
  }

  -- What follows the reply of `Publish`.
  unfoldable pub after_publish : Notification → Option Failure → Exec W Response
  after_publish n (some e) = do
    tick (h.runtime.inc (kafka_publish_total n.channel "failure"))
    pure (write_error "failed to queue notification" "INTERNAL_ERROR" 500)
  after_publish n none = do
    tick (h.runtime.inc (kafka_publish_total n.channel "success"))
    pure (
        write_json 202 (
          sent (record {
            notification_id = n.id;
            status = "queued";
            message = "notification accepted for delivery";
          })))

  -- Steps 7 to 9: the record first, then the message.
  unfoldable pub after_save : Notification → Option Failure → Exec W Response
  after_save n (some e) = pure internal_error
  after_save n none = publish h.producer n >>= after_publish n

  -- Step 6.
  unfoldable pub enqueue : SendRequest → User → Exec W Response
  enqueue req user = do
    id ← call h.runtime.new_string
    now ← call h.runtime.now
    saved ← call (h.notif_repo.save (notification_of req user id now))
    after_save (notification_of req user id now) saved

  -- Step 5. The answer to an opt-out is 200.
  unfoldable pub after_preferences : SendRequest → User → Result UserPreferences → Exec W Response
  after_preferences req user (err e) = pure internal_error
  after_preferences req user (ok prefs) =
      if is_channel_enabled req.channel prefs then enqueue req user else do
        tick (h.runtime.inc (notifications_skipped_total req.channel "user_opted_out"))
        pure (
            write_json 200 (
              sent (record {
                notification_id = "";
                status = "skipped";
                message = "user has disabled this notification channel";
              })))

  -- Step 4.
  unfoldable pub after_user : SendRequest → Result User → Exec W Response
  after_user req (err e) = pure (write_error "user not found" "USER_NOT_FOUND" 404)
  after_user req (ok user) =
      find_preferences_cached h.user_cache req.user_id >>= after_preferences req user

  -- Step 3. An error of the limiter is only logged.
  unfoldable pub after_limit : SendRequest → Bool × Option Failure → Exec W Response
  after_limit req (true, e) = Cache.find_by_id h.user_cache req.user_id >>= after_user req
  after_limit req (false, e) = do
    tick (h.runtime.inc (notifications_skipped_total req.channel "rate_limited"))
    pure (write_error "rate limit exceeded for this channel" "RATE_LIMITED" 429)

  -- Step 2.
  unfoldable pub after_decode : Option SendRequest → Exec W Response
  after_decode none = pure (write_error "invalid request body" "BAD_REQUEST" 400)
  after_decode (some req) =
      if lacks_field req
      then pure
          (write_error "user_id, channel, and template_id are required" "VALIDATION_ERROR" 400)
      else if valid_channel req.channel
      then allow h.limiter req.user_id req.channel >>= after_limit req
      else pure (
          write_error "invalid channel: must be ios, android, sms, or email" "VALIDATION_ERROR" 400)

  unfoldable pub send_notification : Bytes → Exec W Response
  send_notification body = after_decode (decode_request body)

  -- `r.URL.Query().Get("id")` is the argument.
  unfoldable pub get_notification_status : String → Exec W Response
  get_notification_status id =
      if id == ""
      then pure (write_error "notification id is required" "BAD_REQUEST" 400)
      else call (h.notif_repo.find_by_id id) >>= elim [
        | err e ↦ pure (write_error "notification not found" "NOT_FOUND" 404)
        | ok n ↦ pure (
            write_json 200 (
              found (record {
                notification_id = n.id;
                channel = n.channel;
                status = n.status;
                created_at = h.rfc3339 n.created_at;
              })))
      ]

  unfoldable pub health_check : Exec W Response
  health_check = pure (write_json 200 (healthy "ok"))
