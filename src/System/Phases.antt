-- ===== src/System/Phases.antt =====
-- What a request knows in each of its phases.
use notification_system.Base.{
  ℕ, String, Option, none, some, ◌≡◌, ◌≢◌, refl, ap, ◌∙◌, inl, inr, arith, Bool-cases,
}
use notification_system.Failure.{Result, ok, is, no_rows, Result-cases}
use notification_system.Effect.{Outcome, returns, panics}
use notification_system.Json.{Bytes}
use notification_system.Domain.{Notification, User, UserPreferences}
use notification_system.Store.{find_user_by_id, find_preferences, preferences_reply}
use notification_system.Store.Tables.{Tables, apply, row_of, find_notification}
use notification_system.Store.Contracts.{found_reply-ok}
use notification_system.Store.Records.{find_notification-append}
use notification_system.Cache.{user_key, prefs_key, cached_user, cached_preferences}
use notification_system.Cache.Coherence.{stored_user, stored_preferences}
use notification_system.Cache.Serving.{found-stored, cached_user-some, cached_preferences-some}
use notification_system.Api.{Response}
use notification_system.Api.Request.{SendRequest}
use notification_system.Api.Handler.{Handler}
use notification_system.Api.Handler.Outcomes.{queued_response}
use notification_system.Api.Handler.Interleaving.{
  Phase, Move, pass, refuse, hit_user, miss_user, query_user, lack_user, cache_user,
  hit_preferences, miss_preferences, query_preferences, lack_preferences, cache_preferences,
  opt_out, store, lose, announce, withhold,
}
use notification_system.History.Laws.{HandlerQuiet}
use notification_system.History.Sound.{Sound}
use notification_system.System.Requests.{PhaseGood}
use notification_system.System.Left.{tables_after, publish-tables}

-- An answer with another status than 202.
abbrev status_of : Outcome Response → ℕ
status_of panics = 0
status_of (returns p) = p.status

not_queued :
    {W : Type 0} {y : W} {r : Outcome Response} (q : Outcome Response × W)
    → q ≡ (r, y)
    → status_of q.0 ≢ 202
    → (n : Notification) → r ≢ returns (queued_response n)
not_queued q e other n same = other (ap (λ p. status_of p.0) e ∙ ap status_of same)

module _ {W : Type 0} (h : Handler W) (cached : String → W → Option Bytes) (tables : W → Tables)
    (q : HandlerQuiet cached tables h) (req : SendRequest) (t₀ : Tables) where
  preferences_reply-ok :
      (x : W) (p : UserPreferences)
      → (find_preferences h.user_cache.store req.user_id x).0 ≡ ok p
      → stored_preferences req.user_id (tables x) ≡ some p
  unfolding find_preferences preferences_reply
  preferences_reply-ok x p e =
      elim (Result-cases (h.user_cache.store.query_preferences req.user_id x).0) [
        | inl (p', r) ↦
            let same : p' ≡ p = cc (rw r at e) in
            found-stored h.user_cache cached tables q.laws.cache req.user_id p x
              (q.laws.cache.pool.preferences_ok req.user_id x p (r ∙ ap ok same))
        | inr (f, r) ↦ elim (Bool-cases (is f no_rows)) [
          | inl n ↦ rw (q.laws.cache.pool.preferences_no_rows req.user_id x f r n) (ground arith)
          | inr n ↦ absurd (ground arith)
        ]
      ]

  module _ (x y : W) (k : Sound cached tables t₀ x) where
    -- What the tables have now of users and preferences is what they had.
    found_first :
        (u : User)
        → stored_user req.user_id (tables x) ≡ some u
        → stored_user req.user_id t₀ ≡ some u
    found_first u e = rw (← k.users) e

    preferred_first :
        (p : UserPreferences)
        → stored_preferences req.user_id (tables x) ≡ some p
        → stored_preferences req.user_id t₀ ≡ some p
    preferred_first p e = rw (← k.preferences) e

    hit_user-stored :
        (u : User) (reply : Result Bytes)
        → h.user_cache.rdb.get (user_key req.user_id) x ≡ (reply, y)
        → cached_user h.user_cache reply ≡ some u
        → stored_user req.user_id t₀ ≡ some u
    hit_user-stored u reply a b =
        let (bytes, e, d) = cached_user-some h.user_cache cached tables q.laws.cache reply u b in
        found_first u (
          k.coherent.users req.user_id bytes u (q.laws.cache.get_ok _ x bytes (ap (λ p. p.0) a ∙ e))
            d)

    hit_preferences-stored :
        (p : UserPreferences) (reply : Result Bytes)
        → h.user_cache.rdb.get (prefs_key req.user_id) x ≡ (reply, y)
        → cached_preferences h.user_cache reply ≡ some p
        → stored_preferences req.user_id t₀ ≡ some p
    hit_preferences-stored p reply a b =
        let (bytes, e, d) =
          cached_preferences-some h.user_cache cached tables q.laws.cache reply p b in
        preferred_first p (
          k.coherent.preferences req.user_id bytes p
            (q.laws.cache.get_ok _ x bytes (ap (λ p. p.0) a ∙ e)) d)

    query_user-stored :
        (u : User)
        → find_user_by_id h.user_cache.store req.user_id x ≡ (ok u, y)
        → stored_user req.user_id t₀ ≡ some u
    unfolding find_user_by_id
    query_user-stored u a = found_first u (
        q.laws.cache.pool.user_ok req.user_id x u (
          found_reply-ok h.user_cache.store tables q.laws.cache.pool _ req.user_id _ u
            (ap (λ p. p.0) a)))

    saved-stored :
        (n : Notification) (x2 : W)
        → h.notif_repo.save n x2 ≡ (none, y)
        → find_notification n.id (tables y).notifications ≡ some (row_of n)
    unfolding apply row_of
    saved-stored n x2 a =
        let (fresh, done) = (q.laws.notif_repo.save n x2).nil (ap (λ p. p.0) a) in
        rw (tables_after tables a done)
          (find_notification-append n.id (tables x2).notifications (row_of n) fresh.0 refl)

    -- A step keeps what the request knows.
    pub Move-PhaseGood :
        (s s' : Phase)
        → Move h req x y s s'
        → PhaseGood h req t₀ s (tables x)
        → PhaseGood h req t₀ s' (tables y)
    Move-PhaseGood s s' (pass e a) g = tt
    Move-PhaseGood s s' (refuse e a b) g = not_queued (_, y) refl (λ e. omega arith)
    Move-PhaseGood s s' (hit_user reply a b) g = hit_user-stored _ reply a b
    Move-PhaseGood s s' (miss_user reply a b) g = tt
    Move-PhaseGood s s' (query_user a) g = query_user-stored _ a
    Move-PhaseGood s s' (lack_user e a) g = not_queued (_, y) refl (λ e. omega arith)
    Move-PhaseGood s s' (cache_user a) g = g
    Move-PhaseGood s s' (hit_preferences reply a b) g = (g, hit_preferences-stored _ reply a b)
    Move-PhaseGood s s' (miss_preferences reply a b) g = g
    Move-PhaseGood s s' (query_preferences {p = p} a) g =
        (g, preferred_first p (preferences_reply-ok x p (ap (λ p. p.0) a)))
    Move-PhaseGood s s' (lack_preferences e a) g = not_queued (_, y) refl (λ e. omega arith)
    Move-PhaseGood s s' (cache_preferences a) g = g
    Move-PhaseGood s s' (opt_out off a) g = not_queued (_, y) refl (λ e. omega arith)
    Move-PhaseGood s s' (store {u} {p} id at x1 x2 on a b c) g = (
      record {
        user = u;
        prefs = p;
        id = id;
        at = at;
        known = g.0;
        preferred = g.1;
        enabled = on;
        built = refl;
      },
      saved-stored _ x2 c,
    )
    Move-PhaseGood s s' (lose id at x1 x2 e on a b c) g = not_queued (_, y) refl (λ e. omega arith)
    Move-PhaseGood s s' (announce {n} {z} a b) g =
        (inl refl, g.0, rw (publish-tables h cached tables q req n x y z _ _ a b) g.1)
    Move-PhaseGood s s' (withhold {n} {z} e a b) g =
        (inr refl, g.0, rw (publish-tables h cached tables q req n x y z _ _ a b) g.1)
