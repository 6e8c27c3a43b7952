-- ===== src/Api/Handler/Steps.antt =====
-- The steps of `SendNotification`, from the last to the first.
use notification_system.Base.{
  String, Bool, true, false, Option, none, some, ◌≡◌, refl, ◌∙◌, arith, ap, inl, inr, Bool-cases,
  Option-cases,
}
use notification_system.Failure.{Failure, Result, ok, err}
use notification_system.Domain.{Notification, User, UserPreferences}
use notification_system.Json.{Bytes}
use notification_system.Effect.{Outcome, returns, call, ◌>>=◌}
use notification_system.Store.Tables.{Tables, find_notification, apply}
use notification_system.Cache.Coherence.{IsCoherent, stored_user, stored_preferences}
use notification_system.Cache.Serving.{find_by_id-Serves, find_preferences_cached-Serves}
use notification_system.Kafka.{publish, message_of}
use notification_system.Config.{ChannelRouting, route}
use notification_system.Api.{Response}
use notification_system.Api.Request.{SendRequest}
use notification_system.Api.Handler.{
  Handler, is_channel_enabled, notification_of, after_publish, after_save, enqueue,
  after_preferences, after_user, after_limit,
}
use notification_system.Api.Handler.Laws.{HandlerLaws}
use notification_system.Api.Handler.Outcomes.{
  append_notification, IsValid, Accepted, Written, Handled, limited, unknown, unread, opted_out,
  unsaved, unqueued, queued,
}

module _ {W : Type 0} (h : Handler W) (cached : String → W → Option Bytes) (tables : W → Tables)
    (laws : HandlerLaws h cached tables) where
  publish-Written :
      (n : Notification) (r : ChannelRouting) (w : W)
      → route n.channel h.producer.routing ≡ some r
      → (e : Option Failure) × ((publish h.producer n w).0 ≡ returns e)
        × (tables (publish h.producer n w).1 ≡ tables w)
        × (e ≡ none → Written h tables n (tables w) (publish h.producer n w).1)
  unfolding publish
  publish-Written n r w k =
      let (now, x) = h.producer.runtime.now w in
      let m = message_of h.producer.formats r n now in
      let kept = laws.write_keeps m x ∙ laws.producer_runtime.now_keeps w in
      rw (publish, k)
        (elim (Option-cases (h.producer.writer.write_messages m x).0) [
          | inl e ↦
              let written : Written h tables n (tables w) (h.producer.writer.write_messages m x).1 =
                record {
                  to = r;
                  at = now;
                  before = x;
                  routed = k;
                  stored = laws.producer_runtime.now_keeps w;
                  acknowledged = ap (λ a. (a, (h.producer.writer.write_messages m x).1)) e;
                } in
              rw e (_, refl, kept, λ _. written)
          | inr (f, e) ↦ rw e (_, refl, kept, λ q. absurd (cc))
        ])

  pub publish-returns :
      (n : Notification) (w : W)
      → (e : Option Failure) × ((publish h.producer n w).0 ≡ returns e)
        × (tables (publish h.producer n w).1 ≡ tables w)
        × (e ≡ none → Written h tables n (tables w) (publish h.producer n w).1)
  unfolding publish
  publish-returns n w = elim (Option-cases (route n.channel h.producer.routing)) [
    | inl k ↦ rw (publish, k) (_, refl, refl, λ q. absurd (cc))
    | inr (r, k) ↦ publish-Written n r w k
  ]

  module _ (body : Bytes) (req : SendRequest) (valid : IsValid body req) (t : Tables) where
    abbrev Ends : Outcome Response × W → Type 0
    Ends p = Handled h tables body t p.0 p.1

    module _ (n : Notification) (accepted : Accepted h req t n)
        (fresh : find_notification n.id t.notifications ≡ none) where
      after_publish-Handled :
          (e : Option Failure) (w : W)
          → tables w ≡ append_notification t n
          → (e ≡ none → Written h tables n (append_notification t n) w)
          → Ends (after_publish h n e w)
      unfolding after_publish
      after_publish-Handled none w k written =
          queued req n valid accepted fresh refl w (written refl) refl
            (laws.runtime.inc_keeps _ w ∙ k)
      after_publish-Handled (some e) w k written =
          unqueued req n valid accepted fresh refl (laws.runtime.inc_keeps _ w ∙ k)

      published : (w : W) → tables w ≡ append_notification t n → Ends (after_save h n none w)
      unfolding after_save
      published w k =
          let (e, r, same, written) = publish-returns n w in
          rw r (after_publish-Handled e _ (same ∙ k) (rw k at written))

    saved :
        (n : Notification) (w : W)
        → Accepted h req t n
        → tables w ≡ t
        → Ends ((call (h.notif_repo.save n) >>= after_save h n) w)
    unfolding apply
    saved n w accepted k = elim (Option-cases (h.notif_repo.save n w).0) [
      | inl e ↦
          let (fresh, done) = (laws.notif_repo.save n w).nil e in
          rw e (published n accepted (rw k at fresh.0) _ (rw k at done))
      | inr (f, e) ↦
          let either = (laws.notif_repo.save n w).failed f e in
          rw e (unfold after_save in unsaved req n valid accepted refl (ground arith))
    ]

    enqueue-Handled :
        (user : User) (prefs : UserPreferences) (w : W)
        → tables w ≡ t
        → stored_user req.user_id t ≡ some user
        → stored_preferences req.user_id t ≡ some prefs
        → is_channel_enabled req.channel prefs ≡ true
        → Ends (enqueue h req user w)
    unfolding enqueue
    enqueue-Handled user prefs w k known preferred enabled =
        let (id, x) = h.runtime.new_string w in
        let (at, y) = h.runtime.now x in
        let accepted : Accepted h req t (notification_of h req user id at) = record {
          user = user;
          prefs = prefs;
          id = id;
          at = at;
          known = known;
          preferred = preferred;
          enabled = enabled;
          built = refl;
        } in
        saved _ y accepted (laws.runtime.now_keeps x ∙ (laws.runtime.new_string_keeps w ∙ k))

    after_preferences-Handled :
        (user : User) (r : Result UserPreferences) (w : W)
        → tables w ≡ t
        → stored_user req.user_id t ≡ some user
        → ((p : UserPreferences) → r ≡ ok p → stored_preferences req.user_id t ≡ some p)
        → Ends (after_preferences h req user r w)
    unfolding after_preferences
    after_preferences-Handled user (err e) w k known right = unread req user valid known refl k
    after_preferences-Handled user (ok p) w k known right =
        elim (Bool-cases (is_channel_enabled req.channel p)) [
          | inl e ↦ rw e (enqueue-Handled user p w k known (right p refl) e)
          | inr e ↦ rw e (
              opted_out req user p valid known (right p refl) e refl
                (laws.runtime.inc_keeps _ w ∙ k))
        ]

    after_user-Handled :
        (r : Result User) (w : W)
        → tables w ≡ t
        → IsCoherent cached tables w
        → ((u : User) → r ≡ ok u → stored_user req.user_id t ≡ some u)
        → Ends (after_user h req r w)
    unfolding after_user
    after_user-Handled (err e) w k coherent right = unknown req valid refl k
    after_user-Handled (ok u) w k coherent right =
        let served =
          find_preferences_cached-Serves h.user_cache cached tables laws.cache req.user_id w
            coherent in
        let (r, q) = served.answered in
        rw q (
          after_preferences-Handled u r _ (served.kept ∙ k) (right u refl)
            (λ p e. rw (← k) (served.right p (q ∙ ap returns e))))

    pub after_limit-Handled :
        (b : Bool) (e : Option Failure) (w : W)
        → tables w ≡ t
        → IsCoherent cached tables w
        → Ends (after_limit h req (b, e) w)
    unfolding after_limit
    after_limit-Handled false e w k coherent =
        limited req valid refl (laws.runtime.inc_keeps _ w ∙ k)
    after_limit-Handled true e w k coherent =
        let served =
          find_by_id-Serves h.user_cache cached tables laws.cache req.user_id w coherent in
        let (r, q) = served.answered in
        rw q (
          after_user-Handled r _ (served.kept ∙ k) served.coherent
            (λ u e'. rw (← k) (served.right u (q ∙ ap returns e'))))
