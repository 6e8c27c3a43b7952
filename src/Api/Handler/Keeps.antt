-- ===== src/Api/Handler/Keeps.antt =====
-- What a request keeps, if every operation that its handler uses keeps it.
use notification_system.Base.{
  String, Bool, true, false, Option, none, some, ◌≡◌, refl, ◌==◌, Bool-cases, Option-cases, inl,
  inr,
}
use notification_system.Failure.{Failure, Result, ok, err, Result-cases}
use notification_system.Effect.{Outcome, returns, panics, continue}
use notification_system.Domain.{Notification, User, UserPreferences, status_pending}
use notification_system.Json.{Bytes}
use notification_system.Config.{route}
use notification_system.Runtime.{Metric}
use notification_system.RateLimit.{allow}
use notification_system.Cache
use notification_system.Cache.{find_preferences_cached}
use notification_system.Kafka.{Message, publish, message_of}
use notification_system.Api.Request.{SendRequest, decode_request, lacks_field, valid_channel}
use notification_system.Api.Handler.{
  Handler, is_channel_enabled, after_publish, after_save, enqueue, after_preferences, after_user,
  after_limit, after_decode, send_notification, get_notification_status,
}

-- A request saves a pending notification for one of the four channels.
pub record HandlerKeeps {W : Type 0} (h : Handler W) (P : W → Type 0) : Type 0 where
  pub new_string : (x : W) → P x → P (h.runtime.new_string x).1
  pub now : (x : W) → P x → P (h.runtime.now x).1
  pub inc : (m : Metric) (x : W) → P x → P (h.runtime.inc m x)
  pub save :
      (n : Notification)
      → valid_channel n.channel ≡ true
      → n.status ≡ status_pending
      → (x : W) → P x
      → P (h.notif_repo.save n x).1
  pub find : (id : String) (x : W) → P x → P (h.notif_repo.find_by_id id x).1
  pub stamp : (x : W) → P x → P (h.producer.runtime.now x).1
  pub write : (m : Message) (x : W) → P x → P (h.producer.writer.write_messages m x).1
  pub limit : (user_id channel : String) (x : W) → P x → P (allow h.limiter user_id channel x).1
  pub user : (id : String) (x : W) → P x → P (Cache.find_by_id h.user_cache id x).1
  pub preferences : (id : String) (x : W) → P x → P (find_preferences_cached h.user_cache id x).1

module _ {W : Type 0} (h : Handler W) (P : W → Type 0) (k : HandlerKeeps h P) where
  -- A step after another, where both keep `P`.
  continue-keeps :
      {A B : Type 0} (f : A → W → Outcome B × W)
      → ((a : A) (x : W) → P x → P (f a x).1)
      → (q : Outcome A × W) → P q.1
      → P (continue f q).1
  continue-keeps f each (returns a, x) p = each a x p
  continue-keeps f each (panics, x) p = p

  pub publish-keeps : (n : Notification) (x : W) → P x → P (publish h.producer n x).1
  unfolding publish
  publish-keeps n x p = elim (Option-cases (route n.channel h.producer.routing)) [
    | inl e ↦ rw (publish, e) p
    | inr (r, e) ↦
        let (now, y) = h.producer.runtime.now x in
        let m = message_of h.producer.formats r n now in
        let written = k.write m y (k.stamp x p) in
        elim (Option-cases (h.producer.writer.write_messages m y).0) [
          | inl q ↦ rw (publish, e, q) written
          | inr (f, q) ↦ rw (publish, e, q) written
        ]
  ]

  after_publish-keeps :
      (n : Notification) (e : Option Failure) (x : W) → P x → P (after_publish h n e x).1
  unfolding after_publish
  after_publish-keeps n none x p = k.inc _ x p
  after_publish-keeps n (some e) x p = k.inc _ x p

  pub after_save-keeps :
      (n : Notification) (e : Option Failure) (x : W) → P x → P (after_save h n e x).1
  unfolding after_save
  after_save-keeps n (some e) x p = p
  after_save-keeps n none x p =
      continue-keeps (after_publish h n) (after_publish-keeps n) _ (publish-keeps n x p)

  module _ (req : SendRequest) (valid : valid_channel req.channel ≡ true) where
    enqueue-keeps : (user : User) (x : W) → P x → P (enqueue h req user x).1
    unfolding enqueue
    enqueue-keeps user x p =
        after_save-keeps _ _ _ (k.save _ valid refl _ (k.now _ (k.new_string x p)))

    pub after_preferences-keeps :
        (user : User) (r : Result UserPreferences) (x : W)
        → P x
        → P (after_preferences h req user r x).1
    unfolding after_preferences
    after_preferences-keeps user (err e) x p = p
    after_preferences-keeps user (ok prefs) x p =
        elim (Bool-cases (is_channel_enabled req.channel prefs)) [
          | inl e ↦ rw e (enqueue-keeps user x p)
          | inr e ↦ rw e (k.inc _ x p)
        ]

    pub after_user-keeps : (r : Result User) (x : W) → P x → P (after_user h req r x).1
    unfolding after_user
    after_user-keeps (err e) x p = p
    after_user-keeps (ok user) x p =
        continue-keeps (after_preferences h req user) (after_preferences-keeps user) _
          (k.preferences req.user_id x p)

    pub after_limit-keeps : (r : Bool × Option Failure) (x : W) → P x → P (after_limit h req r x).1
    unfolding after_limit
    after_limit-keeps (true, e) x p =
        continue-keeps (after_user h req) after_user-keeps _ (k.user req.user_id x p)
    after_limit-keeps (false, e) x p = k.inc _ x p

  pub send_notification-keeps : (body : Bytes) (x : W) → P x → P (send_notification h body x).1
  unfolding send_notification after_decode
  send_notification-keeps body x p = elim (Option-cases (decode_request body)) [
    | inl e ↦ rw e p
    | inr (req, e) ↦ elim (Bool-cases (lacks_field req)) [
      | inl q ↦ rw (e, q) p
      | inr q ↦ elim (Bool-cases (valid_channel req.channel)) [
        | inl v ↦
            rw (e, q, v)
              (continue-keeps (after_limit h req) (after_limit-keeps req v) _
                (k.limit req.user_id req.channel x p))
        | inr v ↦ rw (e, q, v) p
      ]
    ]
  ]

  pub get_notification_status-keeps :
      (id : String) (x : W) → P x → P (get_notification_status h id x).1
  unfolding get_notification_status
  get_notification_status-keeps id x p = elim (Bool-cases (id == "")) [
    | inl e ↦ rw e p
    | inr e ↦ elim (Result-cases (h.notif_repo.find_by_id id x).0) [
      | inl (n, q) ↦ rw (e, q) (k.find id x p)
      | inr (f, q) ↦ rw (e, q) (k.find id x p)
    ]
  ]
