-- ===== src/Api/Handler/Interleaving/Alone.antt =====
-- `sendNotification` without interruption is the steps of a request, one after the other.
use notification_system.Base.{
  String, Bool, true, false, Option, none, some, ◌≡◌, refl, inl, inr, Bool-cases, Option-cases, ap,
}
use notification_system.Failure.{Failure, Result, ok, err}
use notification_system.Effect.{Outcome, returns, continue}
use notification_system.Json.{Bytes}
use notification_system.Kafka.{Producer, publish, message_of}
use notification_system.Config.{route}
use notification_system.Domain.{Notification, User, UserPreferences}
use notification_system.RateLimit.{Limiter, allow}
use notification_system.RateLimit.Interleaving.{allow-CallsReach}
use notification_system.Store.{find_user_by_id, find_preferences}
use notification_system.Cache.{
  user_key, prefs_key, cached_user, cached_preferences, load_user, load_preferences,
}
use notification_system.Cache.Steps.{
  find_by_id-hit, find_by_id-miss, find_preferences-hit, find_preferences-miss,
}
use notification_system.Api.{Response}
use notification_system.Api.Request.{SendRequest}
use notification_system.Api.Handler.{
  Handler, is_channel_enabled, notification_of, after_publish, after_save, enqueue,
  after_preferences, after_user, after_limit, after_decode, send_notification,
}
use notification_system.Api.Handler.Outcomes.{IsValid}
use notification_system.Api.Handler.Interleaving.{
  Phase, received, allowed, user_missed, known, preferences_missed, preferred, answered, Move, pass,
  refuse, hit_user, miss_user, query_user, lack_user, cache_user, hit_preferences, miss_preferences,
  query_preferences, lack_preferences, cache_preferences, opt_out, store, lose, announce, withhold,
  saved,
}

publish-replies :
    {W : Type 0} (p : Producer W) (n : Notification) (x : W)
    → (reply : Option Failure) × ((publish p n x).0 ≡ returns reply)
unfolding publish
publish-replies p n x = elim (Option-cases (route n.channel p.routing)) [
  | inl e ↦ rw (publish, e) (_, refl)
  | inr (r, e) ↦
      let (now, y) = p.runtime.now x in
      elim (Option-cases (p.writer.write_messages (message_of p.formats r n now) y).0) [
        | inl k ↦ rw (publish, e, k) (_, refl)
        | inr (f, k) ↦ rw (publish, e, k) (_, refl)
      ]
]

module _ {W : Type 0} (h : Handler W) (req : SendRequest) where
  -- Steps of one request with nothing in between.
  pub data Moves (x : W) : Phase → W → Type 0 where
    begin : Moves x received x
    go : {s s' : Phase} {u v : W} → Moves x s u → Move h req u v s s' → Moves x s' v

  module _ (x : W) where
    -- The request has been answered so.
    abbrev Answers : Outcome Response × W → Type 0
    Answers p = (mine : Option Notification) × Moves x (answered mine p.0) p.1

    from_published :
        (n : Notification) (v : W)
        → Moves x (saved n) v
        → (reply : Option Failure) (z : W) → publish h.producer n v ≡ (returns reply, z)
        → Answers (after_save h n none v)
    unfolding after_save after_publish
    from_published n v m none z e = rw e (some n, go m (announce e refl))
    from_published n v m (some f) z e = rw e (some n, go m (withhold f e refl))

    from_saved :
        (u : User) (p : UserPreferences) (v : W)
        → is_channel_enabled req.channel p ≡ true
        → Moves x (preferred u p) v
        → let (id, v1) = h.runtime.new_string v in
          let (at, v2) = h.runtime.now v1 in
          (reply : Option Failure) (z : W)
          → h.notif_repo.save (notification_of h req u id at) v2 ≡ (reply, z)
          → Answers (after_save h (notification_of h req u id at) reply z)
    unfolding after_save
    from_saved u p v on m none z e =
        let n = notification_of h req u _ _ in
        let (reply, k) = publish-replies h.producer n z in
        from_published n z (go m (store _ _ _ _ on refl refl e)) reply (publish h.producer n z).1
          (ap (λ o. (o, (publish h.producer n z).1)) k)
    from_saved u p v on m (some f) z e = (none, go m (lose _ _ _ _ f on refl refl e))

    from_preferred :
        (u : User) (p : UserPreferences) (v : W)
        → Moves x (preferred u p) v
        → Answers (after_preferences h req u (ok p) v)
    unfolding after_preferences enqueue
    from_preferred u p v m = elim (Bool-cases (is_channel_enabled req.channel p)) [
      | inl on ↦ rw on (from_saved u p v on m _ _ refl)
      | inr off ↦ rw off (none, go m (opt_out off refl))
    ]

    from_preferences_missed :
        (u : User) (v : W)
        → Moves x (preferences_missed u) v
        → (r : Result UserPreferences) (z : W)
        → find_preferences h.user_cache.store req.user_id v ≡ (r, z)
        → Answers
            (continue (after_preferences h req u) (load_preferences h.user_cache req.user_id v))
    unfolding load_preferences after_preferences
    from_preferences_missed u v m (ok p) z e =
        rw e (from_preferred u p _ (go (go m (query_preferences e)) (cache_preferences refl)))
    from_preferences_missed u v m (err f) z e = rw e (none, go m (lack_preferences f e))

    from_known : (u : User) (v : W) → Moves x (known u) v → Answers (after_user h req (ok u) v)
    unfolding after_user
    from_known u v m =
        let (reply, z) = h.user_cache.rdb.get (prefs_key req.user_id) v in
        elim (Option-cases (cached_preferences h.user_cache reply)) [
          | inl e ↦
              rw (find_preferences-miss h.user_cache req.user_id v e)
                (from_preferences_missed u z (go m (miss_preferences reply refl e)) _ _ refl)
          | inr (p, e) ↦
              rw (find_preferences-hit h.user_cache req.user_id p v e)
                (from_preferred u p z (go m (hit_preferences reply refl e)))
        ]

    from_user_missed :
        (v : W)
        → Moves x user_missed v
        → (r : Result User) (z : W) → find_user_by_id h.user_cache.store req.user_id v ≡ (r, z)
        → Answers (continue (after_user h req) (load_user h.user_cache req.user_id v))
    unfolding load_user after_user
    from_user_missed v m (ok u) z e =
        rw e (from_known u _ (go (go m (query_user e)) (cache_user refl)))
    from_user_missed v m (err f) z e = rw e (none, go m (lack_user f e))

    from_allowed :
        (e : Option Failure) (v : W) → Moves x allowed v → Answers (after_limit h req (true, e) v)
    unfolding after_limit
    from_allowed f v m =
        let (reply, z) = h.user_cache.rdb.get (user_key req.user_id) v in
        elim (Option-cases (cached_user h.user_cache reply)) [
          | inl e ↦
              rw (find_by_id-miss h.user_cache req.user_id v e)
                (from_user_missed z (go m (miss_user reply refl e)) _ _ refl)
          | inr (u, e) ↦
              rw (find_by_id-hit h.user_cache req.user_id u v e)
                (from_known u z (go m (hit_user reply refl e)))
        ]

pub allow-returns :
    {W : Type 0} (l : Limiter W) (user_id channel : String) (w : W)
    → (reply : Bool × Option Failure) × ((allow l user_id channel w).0 ≡ returns reply)
allow-returns l user_id channel w =
    let (b, e, q, _) = allow-CallsReach l user_id channel w in ((b, e), q)

module _ {W : Type 0} (h : Handler W) (req : SendRequest) (x : W) where
  from_received :
      (b : Bool) (e : Option Failure) (z : W)
      → allow h.limiter req.user_id req.channel x ≡ (returns (b, e), z)
      → Answers h req x (after_limit h req (b, e) z)
  unfolding after_limit
  from_received true e z q = from_allowed h req x e z (go begin (pass e q))
  from_received false e z q = (none, go begin (refuse e q refl))

  -- What `sendNotification` does without interruption with a valid request is the steps of a request:
  -- they go from the start to the answer that it gives, in the world that it leaves.
  pub send_notification-Moves :
      (body : Bytes)
      → IsValid body req
      → let (r, z) = send_notification h body x in
        (mine : Option Notification) × Moves h req x (answered mine r) z
  unfolding send_notification after_decode
  send_notification-Moves body (decoded, filled, valid) =
      let ((b, e), q) = allow-returns h.limiter req.user_id req.channel x in
      let z = (allow h.limiter req.user_id req.channel x).1 in
      let limited : allow h.limiter req.user_id req.channel x ≡ (returns (b, e), z) =
        ap (λ o. (o, z)) q in
      rw (decoded, filled, valid, limited) (from_received b e z limited)
