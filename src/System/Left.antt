-- ===== src/System/Left.antt =====
-- What a step of a request leaves in the tables.
use notification_system.Base.{String, Option, none, some, ◌≡◌, sym, ap, ◌∙◌, inl, inr, subst}
use notification_system.Failure.{Failure}
use notification_system.Effect.{Outcome}
use notification_system.Json.{Bytes}
use notification_system.Domain.{Notification, User, UserPreferences, status_pending}
use notification_system.Kafka
use notification_system.Store.{find_user_by_id, find_preferences}
use notification_system.Store.Tables.{Tables, apply, find_notification}
use notification_system.Cache.Coherence.{IsCoherent}
use notification_system.Api.Request.{SendRequest}
use notification_system.Runtime.{Metric}
use notification_system.Api.Handler.{Handler}
use notification_system.Api.Handler.Limiting.{allow-Limits}
use notification_system.Api.Handler.Steps.{publish-returns}
use notification_system.Api.Handler.Outcomes.{append_notification}
use notification_system.Api.Handler.Interleaving.{
  Phase, Move, pass, refuse, hit_user, miss_user, query_user, lack_user, cache_user,
  hit_preferences, miss_preferences, query_preferences, lack_preferences, cache_preferences,
  opt_out, store, lose, announce, withhold,
}
use notification_system.History.Laws.{HandlerQuiet}

-- No row is changed; at most one notification is added, under a new identifier.
pub data Left (t t' : Tables) : Type 0 where
  kept : t' ≡ t → Left t t'
  put :
      (n : Notification)
      → find_notification n.id t.notifications ≡ none
      → t' ≡ append_notification t n
      → Left t t'

-- Where an action ends, by its equation.
pub tables_after :
    {W A : Type 0} (tables : W → Tables) {p : A × W} {a : A} {y : W} {t : Tables}
    → p ≡ (a, y)
    → tables p.1 ≡ t
    → tables y ≡ t
tables_after {W} {A} tables e k = sym (ap (λ (r : A × W). tables r.1) e) ∙ k

module _ {W : Type 0} (h : Handler W) (cached : String → W → Option Bytes) (tables : W → Tables)
    (q : HandlerQuiet cached tables h) (req : SendRequest) where
  saved-Left :
      (n : Notification) (x y : W) (e : Option Failure)
      → h.notif_repo.save n x ≡ (e, y)
      → Left (tables x) (tables y)
  unfolding apply
  saved-Left n x y none e =
      let (fresh, done) = (q.laws.notif_repo.save n x).nil (ap (λ p. p.0) e) in
      put n fresh.0 (tables_after tables e done)
  saved-Left n x y (some f) e = elim ((q.laws.notif_repo.save n x).failed f (ap (λ p. p.0) e)) [
    | inl k ↦ kept (tables_after tables e k)
    | inr (fresh, done) ↦ put n fresh.0 (tables_after tables e done)
  ]

  stamped :
      (x x1 x2 : W) (id : String) (at : notification_system.Domain.Time)
      → h.runtime.new_string x ≡ (id, x1)
      → h.runtime.now x1 ≡ (at, x2)
      → tables x2 ≡ tables x
  stamped x x1 x2 id at a b =
      tables_after tables b
        (q.laws.runtime.now_keeps x1 ∙ tables_after tables a (q.laws.runtime.new_string_keeps x))

  -- A message and the metric after it change no table.
  pub publish-tables :
      (n : Notification) (x y z : W) (r : Outcome (Option Failure)) (m : Metric)
      → Kafka.publish h.producer n x ≡ (r, z)
      → h.runtime.inc m z ≡ y
      → tables y ≡ tables x
  publish-tables n x y z r m a b =
      let (e, returned, same, _) = publish-returns h cached tables q.laws n x in
      ap tables (sym b) ∙ q.laws.runtime.inc_keeps m z ∙ tables_after tables a same

  module _ (x y : W) (k : IsCoherent cached tables x) where
    allow-tables :
        {z : W} {r : _}
        → notification_system.RateLimit.allow h.limiter req.user_id req.channel x ≡ (r, z)
        → tables z ≡ tables x
    allow-tables e =
        tables_after tables e (allow-Limits h cached tables q.laws req.user_id req.channel x k).kept

    pub Move-Left : (s s' : Phase) → Move h req x y s s' → Left (tables x) (tables y)
    unfolding find_user_by_id find_preferences
    Move-Left s s' (pass e a) = kept (allow-tables a)
    Move-Left s s' (refuse e a b) =
        kept (ap tables (sym b) ∙ q.laws.runtime.inc_keeps _ _ ∙ allow-tables a)
    Move-Left s s' (hit_user reply a b) = kept (tables_after tables a (q.laws.cache.get_keeps _ x))
    Move-Left s s' (miss_user reply a b) = kept (tables_after tables a (q.laws.cache.get_keeps _ x))
    Move-Left s s' (query_user a) = kept (tables_after tables a (q.laws.cache.pool.user_keeps _ x))
    Move-Left s s' (lack_user e a) = kept (tables_after tables a (q.laws.cache.pool.user_keeps _ x))
    Move-Left s s' (cache_user a) = kept (ap tables (sym a) ∙ q.laws.cache.set_keeps _ _ _ x)
    Move-Left s s' (hit_preferences reply a b) =
        kept (tables_after tables a (q.laws.cache.get_keeps _ x))
    Move-Left s s' (miss_preferences reply a b) =
        kept (tables_after tables a (q.laws.cache.get_keeps _ x))
    Move-Left s s' (query_preferences a) =
        kept (tables_after tables a (q.laws.cache.pool.preferences_keeps _ x))
    Move-Left s s' (lack_preferences e a) =
        kept (tables_after tables a (q.laws.cache.pool.preferences_keeps _ x))
    Move-Left s s' (cache_preferences a) = kept (ap tables (sym a) ∙ q.laws.cache.set_keeps _ _ _ x)
    Move-Left s s' (opt_out off a) = kept (ap tables (sym a) ∙ q.laws.runtime.inc_keeps _ x)
    Move-Left s s' (store id at x1 x2 on a b c) =
        subst (λ t. Left t (tables y)) (stamped x x1 x2 id at a b) (saved-Left _ x2 y none c)
    Move-Left s s' (lose id at x1 x2 e on a b c) =
        subst (λ t. Left t (tables y)) (stamped x x1 x2 id at a b) (saved-Left _ x2 y (some e) c)
    Move-Left s s' (announce {n} {z} a b) = kept (publish-tables n x y z _ _ a b)
    Move-Left s s' (withhold {n} {z} e a b) = kept (publish-tables n x y z _ _ a b)
