-- ===== src/System/Requests.antt =====
-- What a step of a request does to the tables, the cache and what the request knows.
use notification_system.Base.{String, true, Option, none, some, ◌≡◌, ◌≢◌, ◌⊎◌, refl, ap, subst}
use notification_system.Effect.{returns}
use notification_system.Json.{Bytes}
use notification_system.Domain.{Notification, User, UserPreferences}
use notification_system.Store.{find_user_by_id, find_preferences}
use notification_system.Store.Tables.{Tables, row_of, find_notification}
use notification_system.Cache.Coherence.{
  stored_user, stored_preferences, shrink-IsCoherent, set_user-IsCoherent,
  set_preferences-IsCoherent,
}
use notification_system.RateLimit.{allow}
use notification_system.Api.{write_error}
use notification_system.Api.Request.{SendRequest, valid_channel}
use notification_system.Api.Handler.{Handler}
use notification_system.Api.Handler.Keeps.{HandlerKeeps, publish-keeps}
use notification_system.Api.Handler.Limiting.{allow-Limits}
use notification_system.Api.Handler.Outcomes.{Accepted, queued_response}
use notification_system.Api.Handler.Interleaving.{
  Phase, received, allowed, user_missed, user_read, known, preferences_missed, preferences_read,
  preferred, saved, answered, Move, pass, refuse, hit_user, miss_user, query_user, lack_user,
  cache_user, hit_preferences, miss_preferences, query_preferences, lack_preferences,
  cache_preferences, opt_out, store, lose, announce, withhold,
}
use notification_system.History.Laws.{HandlerQuiet}
use notification_system.History.Sound.{Sound, served, handler-HandlerKeeps}

-- What a request in that phase has found in the tables `t₀` that hold the users, and has stored in
-- the tables `t`. It answers 202 only for the notification that it has saved.
abbrev pub PhaseGood : {W : Type 0} → Handler W → SendRequest → Tables → Phase → Tables → Type 0
PhaseGood h req t₀ received t = Unit
PhaseGood h req t₀ allowed t = Unit
PhaseGood h req t₀ user_missed t = Unit
PhaseGood h req t₀ (user_read u) t = stored_user req.user_id t₀ ≡ some u
PhaseGood h req t₀ (known u) t = stored_user req.user_id t₀ ≡ some u
PhaseGood h req t₀ (preferences_missed u) t = stored_user req.user_id t₀ ≡ some u
PhaseGood h req t₀ (preferences_read u p) t =
    (stored_user req.user_id t₀ ≡ some u) × (stored_preferences req.user_id t₀ ≡ some p)
PhaseGood h req t₀ (preferred u p) t =
    (stored_user req.user_id t₀ ≡ some u) × (stored_preferences req.user_id t₀ ≡ some p)
PhaseGood h req t₀ (saved n) t =
    Accepted h req t₀ n × (find_notification n.id t.notifications ≡ some (row_of n))
PhaseGood h req t₀ (answered (some n) r) t =
    ((r ≡ returns (queued_response n))
      ⊎ (r ≡ returns (write_error "failed to queue notification" "INTERNAL_ERROR" 500)))
    × Accepted h req t₀ n
    × (find_notification n.id t.notifications ≡ some (row_of n))
PhaseGood h req t₀ (answered none r) t = (n : Notification) → r ≢ returns (queued_response n)

module _ {W : Type 0} (h : Handler W) (cached : String → W → Option Bytes) (tables : W → Tables)
    (q : HandlerQuiet cached tables h) (req : SendRequest) (t₀ : Tables) where
  abbrev Fine : W → Type 0
  Fine = Sound cached tables t₀

  pass-Fine : (x : W) → Fine x → Fine (allow h.limiter req.user_id req.channel x).1
  pass-Fine x k =
      let l = allow-Limits h cached tables q.laws req.user_id req.channel x k.coherent in
      served cached tables t₀ x _ l.kept l.coherent k

  get-Fine : (key : String) (x : W) → Fine x → Fine (h.user_cache.rdb.get key x).1
  get-Fine key x k =
      let kept = q.laws.cache.get_keeps key x in
      served cached tables t₀ x _ kept
        (shrink-IsCoherent h.user_cache cached tables q.laws.cache (q.laws.cache.get_shrinks key x)
          kept k.coherent)
        k

  query_user-Fine : (x : W) → Fine x → Fine (h.user_cache.store.query_user req.user_id x).1
  query_user-Fine x k =
      let kept = q.laws.cache.pool.user_keeps req.user_id x in
      served cached tables t₀ x _ kept
        (shrink-IsCoherent h.user_cache cached tables q.laws.cache
          (q.laws.cache.user_shrinks req.user_id x) kept k.coherent)
        k

  query_preferences-Fine :
      (x : W) → Fine x → Fine (h.user_cache.store.query_preferences req.user_id x).1
  query_preferences-Fine x k =
      let kept = q.laws.cache.pool.preferences_keeps req.user_id x in
      served cached tables t₀ x _ kept
        (shrink-IsCoherent h.user_cache cached tables q.laws.cache
          (q.laws.cache.preferences_shrinks req.user_id x) kept k.coherent)
        k

  at_end : {A : Type 0} {p : A × W} {a : A} {y : W} → p ≡ (a, y) → Fine p.1 → Fine y
  at_end e k = subst Fine (ap (λ (r : _ × W). r.1) e) k

  stored_here :
      (u : User) (x : W)
      → Fine x
      → stored_user req.user_id t₀ ≡ some u
      → stored_user req.user_id (tables x) ≡ some u
  stored_here u x k e = rw k.users e

  preferred_here :
      (p : UserPreferences) (x : W)
      → Fine x
      → stored_preferences req.user_id t₀ ≡ some p
      → stored_preferences req.user_id (tables x) ≡ some p
  preferred_here p x k e = rw k.preferences e

  module _ (valid : valid_channel req.channel ≡ true) where
    abbrev keeps : HandlerKeeps h Fine
    keeps = handler-HandlerKeeps cached tables t₀ h q

    -- A step keeps what holds of every history.
    pub Move-Sound :
        (x y : W) (s s' : Phase)
        → Move h req x y s s'
        → PhaseGood h req t₀ s (tables x)
        → Fine x
        → Fine y
    unfolding find_user_by_id find_preferences
    Move-Sound x y s s' (pass e a) g k = at_end a (pass-Fine x k)
    Move-Sound x y s s' (refuse e a b) g k = subst Fine b (keeps.inc _ _ (at_end a (pass-Fine x k)))
    Move-Sound x y s s' (hit_user reply a b) g k = at_end a (get-Fine _ x k)
    Move-Sound x y s s' (miss_user reply a b) g k = at_end a (get-Fine _ x k)
    Move-Sound x y s s' (query_user a) g k = at_end a (query_user-Fine x k)
    Move-Sound x y s s' (lack_user e a) g k = at_end a (query_user-Fine x k)
    Move-Sound x y s s' (cache_user {u} a) g k =
        let done =
          set_user-IsCoherent h.user_cache cached tables q.laws.cache req.user_id u x
            (stored_here u x k g) k.coherent in
        subst Fine a (served cached tables t₀ x _ (q.laws.cache.set_keeps _ _ _ x) done k)
    Move-Sound x y s s' (hit_preferences reply a b) g k = at_end a (get-Fine _ x k)
    Move-Sound x y s s' (miss_preferences reply a b) g k = at_end a (get-Fine _ x k)
    Move-Sound x y s s' (query_preferences a) g k = at_end a (query_preferences-Fine x k)
    Move-Sound x y s s' (lack_preferences e a) g k = at_end a (query_preferences-Fine x k)
    Move-Sound x y s s' (cache_preferences {p} a) g k =
        let done =
          set_preferences-IsCoherent h.user_cache cached tables q.laws.cache req.user_id p x
            (preferred_here p x k g.1) k.coherent in
        subst Fine a (served cached tables t₀ x _ (q.laws.cache.set_keeps _ _ _ x) done k)
    Move-Sound x y s s' (opt_out a b) g k = subst Fine b (keeps.inc _ x k)
    Move-Sound x y s s' (store id at x1 x2 on a b c) g k =
        at_end c
          (keeps.save _ valid refl x2 (at_end b (keeps.now x1 (at_end a (keeps.new_string x k)))))
    Move-Sound x y s s' (lose id at x1 x2 e on a b c) g k =
        at_end c
          (keeps.save _ valid refl x2 (at_end b (keeps.now x1 (at_end a (keeps.new_string x k)))))
    Move-Sound x y s s' (announce {n} a b) g k =
        subst Fine b (keeps.inc _ _ (at_end a (publish-keeps h Fine keeps n x k)))
    Move-Sound x y s s' (withhold {n} e a b) g k =
        subst Fine b (keeps.inc _ _ (at_end a (publish-keeps h Fine keeps n x k)))
