-- ===== src/Api/Handler/Interleaving.antt =====
-- Several requests at once: the steps of `sendNotification` (internal/api/handler.go) between two
-- calls of the services. The steps before it, which decode and validate the body, call no service.
pub mod Alone
use notification_system.Base.{String, Bool, true, false, Option, none, some, ◌≡◌}
use notification_system.Failure.{Failure, Result, ok, err}
use notification_system.Effect.{Outcome, returns}
use notification_system.Json.{Bytes}
use notification_system.Domain.{Notification, User, UserPreferences, Time}
use notification_system.RateLimit.{allow}
use notification_system.Store.{find_user_by_id, find_preferences}
use notification_system.Cache.{user_key, prefs_key, cached_user, cached_preferences}
use notification_system.Cache.Steps.{set_user, set_preferences}
use notification_system.Kafka.{publish}
use notification_system.Runtime.{notifications_skipped_total, kafka_publish_total}
use notification_system.Api.{Response, sent, write_json, write_error}
use notification_system.Api.Handler.Outcomes.{queued_response}
use notification_system.Api.Request.{SendRequest}
use notification_system.Api.Handler.{Handler, is_channel_enabled, notification_of}

-- Where a valid request stands; at the end with the notification that it has saved.
pub data Phase : Type 0 where
  received : Phase
  allowed : Phase
  user_missed : Phase
  user_read : User → Phase
  known : User → Phase
  preferences_missed : User → Phase
  preferences_read : User → UserPreferences → Phase
  preferred : User → UserPreferences → Phase
  saved : Notification → Phase
  answered : Option Notification → Outcome Response → Phase

-- The answers without a notification that was queued, written out.
abbrev pub limited_response : Response
limited_response = write_error "rate limit exceeded for this channel" "RATE_LIMITED" 429

abbrev pub no_user_response : Response
no_user_response = write_error "user not found" "USER_NOT_FOUND" 404

abbrev pub failed_response : Response
failed_response = write_error "internal server error" "INTERNAL_ERROR" 500

abbrev pub unqueued_response : Response
unqueued_response = write_error "failed to queue notification" "INTERNAL_ERROR" 500

abbrev pub skipped_response : Response
skipped_response = write_json 200 (
    sent (record {
      notification_id = "";
      status = "skipped";
      message = "user has disabled this notification channel";
    }))

-- One step of a request, with what it does written out. The check of the limit is one step, since its
-- INCR and its EXPIRE touch neither the tables nor an entry of the cache; so is the publishing.
pub data Move {W : Type 0} (h : Handler W) (req : SendRequest) (x y : W)
    : Phase → Phase → Type 0 where
  pass :
      (e : Option Failure)
      → allow h.limiter req.user_id req.channel x ≡ (returns (true, e), y)
      → Move h req x y received allowed
  refuse :
      {z : W} (e : Option Failure)
      → allow h.limiter req.user_id req.channel x ≡ (returns (false, e), z)
      → h.runtime.inc (notifications_skipped_total req.channel "rate_limited") z ≡ y
      → Move h req x y received (answered none (returns limited_response))
  hit_user :
      {u : User} (reply : Result Bytes)
      → h.user_cache.rdb.get (user_key req.user_id) x ≡ (reply, y)
      → cached_user h.user_cache reply ≡ some u
      → Move h req x y allowed (known u)
  miss_user :
      (reply : Result Bytes)
      → h.user_cache.rdb.get (user_key req.user_id) x ≡ (reply, y)
      → cached_user h.user_cache reply ≡ none
      → Move h req x y allowed user_missed
  query_user :
      {u : User}
      → find_user_by_id h.user_cache.store req.user_id x ≡ (ok u, y)
      → Move h req x y user_missed (user_read u)
  lack_user :
      (e : Failure)
      → find_user_by_id h.user_cache.store req.user_id x ≡ (err e, y)
      → Move h req x y user_missed (answered none (returns no_user_response))
  cache_user :
      {u : User}
      → set_user h.user_cache req.user_id u x ≡ y
      → Move h req x y (user_read u) (known u)
  hit_preferences :
      {u : User} {p : UserPreferences} (reply : Result Bytes)
      → h.user_cache.rdb.get (prefs_key req.user_id) x ≡ (reply, y)
      → cached_preferences h.user_cache reply ≡ some p
      → Move h req x y (known u) (preferred u p)
  miss_preferences :
      {u : User} (reply : Result Bytes)
      → h.user_cache.rdb.get (prefs_key req.user_id) x ≡ (reply, y)
      → cached_preferences h.user_cache reply ≡ none
      → Move h req x y (known u) (preferences_missed u)
  query_preferences :
      {u : User} {p : UserPreferences}
      → find_preferences h.user_cache.store req.user_id x ≡ (ok p, y)
      → Move h req x y (preferences_missed u) (preferences_read u p)
  lack_preferences :
      {u : User} (e : Failure)
      → find_preferences h.user_cache.store req.user_id x ≡ (err e, y)
      → Move h req x y (preferences_missed u) (answered none (returns failed_response))
  cache_preferences :
      {u : User} {p : UserPreferences}
      → set_preferences h.user_cache req.user_id p x ≡ y
      → Move h req x y (preferences_read u p) (preferred u p)
  opt_out :
      {u : User} {p : UserPreferences}
      → is_channel_enabled req.channel p ≡ false
      → h.runtime.inc (notifications_skipped_total req.channel "user_opted_out") x ≡ y
      → Move h req x y (preferred u p) (answered none (returns skipped_response))
  store :
      {u : User} {p : UserPreferences} (id : String) (at : Time) (x1 x2 : W)
      → is_channel_enabled req.channel p ≡ true
      → h.runtime.new_string x ≡ (id, x1)
      → h.runtime.now x1 ≡ (at, x2)
      → h.notif_repo.save (notification_of h req u id at) x2 ≡ (none, y)
      → Move h req x y (preferred u p) (saved (notification_of h req u id at))
  lose :
      {u : User} {p : UserPreferences} (id : String) (at : Time) (x1 x2 : W) (e : Failure)
      → is_channel_enabled req.channel p ≡ true
      → h.runtime.new_string x ≡ (id, x1)
      → h.runtime.now x1 ≡ (at, x2)
      → h.notif_repo.save (notification_of h req u id at) x2 ≡ (some e, y)
      → Move h req x y (preferred u p) (answered none (returns failed_response))
  announce :
      {n : Notification} {z : W}
      → publish h.producer n x ≡ (returns none, z)
      → h.runtime.inc (kafka_publish_total n.channel "success") z ≡ y
      → Move h req x y (saved n) (answered (some n) (returns (queued_response n)))
  withhold :
      {n : Notification} {z : W} (e : Failure)
      → publish h.producer n x ≡ (returns (some e), z)
      → h.runtime.inc (kafka_publish_total n.channel "failure") z ≡ y
      → Move h req x y (saved n) (answered (some n) (returns unqueued_response))
