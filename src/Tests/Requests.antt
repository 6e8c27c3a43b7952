-- ===== src/Tests/Requests.antt =====
-- The handlers of the API at concrete requests.
use notification_system.Base.{◌≡◌, ◌↔◌, ◌∷◌, String, [], List, refl, some, inl}
use notification_system.Effect.{returns, panics}
use notification_system.Json.{Bytes, text, object, member, end}
use notification_system.Config.{default_routing}
use notification_system.Api.Handler.{Handler, send_notification}
use notification_system.Api.Handler.Laws.{HandlerLaws}
use notification_system.Api.Handler.Outcomes.{Handled}
use notification_system.Api.Handler.Sending.{send_notification-Handled}
use notification_system.Api.Middleware.{utf8, not_utf8, Request, Serve, fresh_exchange, new_router}
use notification_system.Api.Middleware.Answers.{new_router-returns_iff, Reads}
use notification_system.Tests.Memory.{
  World, memory_notifications, memory_runtime, memory_redis, memory_cache, memory_broker,
  unary_times, with_user,
}
use notification_system.Tests.Memory.Laws.{
  memory_notifications-laws, memory_runtime-laws, memory_cache-laws, with_user-IsCoherent,
}

abbrev pub memory_handler : Handler World
memory_handler = record {
  producer = record {
    writer = memory_broker;
    runtime = memory_runtime;
    formats = unary_times;
    routing = default_routing;
  };
  user_cache = memory_cache;
  notif_repo = memory_notifications;
  limiter = record { redis = memory_redis; limit = 2; window = 3600 };
  runtime = memory_runtime;
  rfc3339 = unary_times.format;
}

pub memory_handler-laws : HandlerLaws memory_handler (λ key w. w.cell key) (λ w. w.tables)
unfolding memory_redis memory_broker
memory_handler-laws = record {
  cache = memory_cache-laws;
  notif_repo = memory_notifications-laws;
  runtime = memory_runtime-laws;
  producer_runtime = memory_runtime-laws;
  write_keeps = λ m w. refl;
  incr_keeps = λ key w. refl;
  expire_keeps = λ key d w. refl;
  incr_leaves = λ key w j k. inl refl;
  expire_leaves = λ key d w j k. inl refl;
}

abbrev pub sms_request : Bytes
sms_request = some (
    object (
      member "user_id" (text "user-123")
        (member "channel" (text "sms") (member "template_id" (text "order-confirmed") end))))

send_notification-Handled_example :
    let (r, x) = send_notification memory_handler sms_request with_user in
    Handled memory_handler (λ w. w.tables) sms_request with_user.tables r x
send_notification-Handled_example =
    send_notification-Handled memory_handler (λ key w. w.cell key) (λ w. w.tables)
      memory_handler-laws sms_request with_user with_user-IsCoherent

abbrev pub post : Request
post = record {
  method = utf8 "POST";
  path = utf8 "/api/v1/notify";
  request_id = "";
  context = [];
  body = sms_request;
  query_id = "";
}

-- A router whose handlers all panic.
abbrev broken : List (String × String × Serve World) → Serve World
broken routes r s = (panics, s)

-- `POST /%ff`.
abbrev pub post_unreadable : Request
post_unreadable = record post { path = not_utf8 (47 ∷ 255 ∷ []) }

new_router-returns_iff_example :
    ((new_router broken memory_handler
        (λ r s. (panics, s))
        post_unreadable
        (with_user, fresh_exchange)).0
      ≡ returns tt)
    ↔ ((method : String) × (path : String) × Reads post_unreadable method path)
new_router-returns_iff_example =
    new_router-returns_iff broken memory_handler (λ r s. (panics, s)) post_unreadable
      (with_user, fresh_exchange)
