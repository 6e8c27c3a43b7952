-- ===== src/Cache/Serving.antt =====
-- The two lookups of the cache, from a coherent world.
use mathlib.Core.Option
use notification_system.Base.{
  String, Option, some, ◌≡◌, refl, sym, ap, ◌∙◌, inl, inr, Bool-cases, Option-cases, arith,
}
use notification_system.Failure.{no_rows, is, Result, ok, err, Result-cases}
use notification_system.Effect.{Outcome, returns}
use notification_system.Domain.{User, UserPreferences}
use notification_system.Json.{Bytes}
use notification_system.Store.Tables.{Tables, find_row_of, scan_preferences}
use notification_system.Cache.Codec.{unmarshal_user, unmarshal_preferences}
use notification_system.Cache.Coherence.{
  CacheLaws, IsCoherent, stored_user, stored_preferences, preferences_of, shrink-IsCoherent,
  set_user-IsCoherent, set_preferences-IsCoherent,
}
use notification_system.Cache.{
  UserCache, user_key, prefs_key, load_user, cached_user, find_by_id, load_preferences,
  cached_preferences, find_preferences_cached,
}
use notification_system.Cache.Steps.{
  load_user-ok, load_user-err, set_preferences, load_preferences-ok, load_preferences-no_rows,
  load_preferences-err, find_by_id-hit, find_by_id-miss, find_preferences-hit,
  find_preferences-miss,
}

module _ {W : Type 0} (c : UserCache W) (cached : String → W → Option Bytes) (tables : W → Tables)
    (laws : CacheLaws c cached tables) where
  -- From a coherent world: the call returns, the cache stays coherent, the tables stay, and a value that is returned
  -- is the one that the database has.
  pub record Serves {A : Type 0} (stored : Tables → Option A) (w : W) (p : Outcome (Result A) × W)
      : Type 0 where
    pub answered : (r : Result A) × (p.0 ≡ returns r)
    pub coherent : IsCoherent cached tables p.1
    pub kept : tables p.1 ≡ tables w
    pub right : (a : A) → p.0 ≡ returns (ok a) → stored (tables w) ≡ some a

  pub found-stored :
      (id : String) (p : UserPreferences) (w : W)
      → Option.bind (find_row_of id (tables w).user_preferences) scan_preferences ≡ some p
      → stored_preferences id (tables w) ≡ some p
  unfolding Option.bind
  found-stored id p w h = ground arith

  load_user-Serves :
      (id : String) (w : W)
      → IsCoherent cached tables w
      → Serves (stored_user id) w (load_user c id w)
  load_user-Serves id w h =
      let x = (c.store.query_user id w).1 in
      let kept : tables x ≡ tables w = laws.pool.user_keeps id w in
      let after = shrink-IsCoherent c cached tables laws (laws.user_shrinks id w) kept h in
      elim (Result-cases (c.store.query_user id w).0) [
        | inl (u, e) ↦
            let stored = laws.pool.user_ok id w u e in
            rw (load_user-ok c id u w e) (record {
              answered = (_, refl);
              coherent = set_user-IsCoherent c cached tables laws id u x (rw kept stored) after;
              kept = laws.set_keeps _ _ _ x ∙ kept;
              right = λ a q. let same : u ≡ a = cc in rw (← same) stored;
            })
        | inr (f, e) ↦
            let (g, q) = load_user-err c id f w e in
            rw q (record {
              answered = (_, refl);
              coherent = after;
              kept = kept;
              right = λ a r. absurd (cc);
            })
      ]

  load_preferences-Serves :
      (id : String) (w : W)
      → IsCoherent cached tables w
      → Serves (stored_preferences id) w (load_preferences c id w)
  load_preferences-Serves id w h =
      let x = (c.store.query_preferences id w).1 in
      let kept : tables x ≡ tables w = laws.pool.preferences_keeps id w in
      let after = shrink-IsCoherent c cached tables laws (laws.preferences_shrinks id w) kept h in
      let served =
        λ (p : UserPreferences) (stored : stored_preferences id (tables w) ≡ some p)
            (e : load_preferences c id w ≡ (returns (ok p), set_preferences c id p x)).
          let done : Serves (stored_preferences id) w (load_preferences c id w) = rw e (record {
            answered = (_, refl);
            coherent =
                set_preferences-IsCoherent c cached tables laws id p x (rw kept stored) after;
            kept = laws.set_keeps _ _ _ x ∙ kept;
            right = λ a q. let same : p ≡ a = cc in rw (← same) stored;
          }) in
          done in
      elim (Result-cases (c.store.query_preferences id w).0) [
        | inl (p, e) ↦
            served p (found-stored id p w (laws.pool.preferences_ok id w p e))
              (load_preferences-ok c id p w e)
        | inr (f, e) ↦ elim (Bool-cases (is f no_rows)) [
          | inl k ↦
              let (p, def, q) = load_preferences-no_rows c id f w e k in
              served p (ap (preferences_of id) (laws.pool.preferences_no_rows id w f e k) ∙ def) q
          | inr k ↦
              let (g, q) = load_preferences-err c id f w e k in
              rw q (record {
                answered = (_, refl);
                coherent = after;
                kept = kept;
                right = λ a r. absurd (cc);
              })
        ]
      ]

  pub cached_user-some :
      (r : Result Bytes) (u : User)
      → cached_user c r ≡ some u
      → (b : Bytes) × (r ≡ ok b) × (unmarshal_user b ≡ some u)
  unfolding cached_user
  cached_user-some (ok b) u h = (b, refl, h)
  cached_user-some (err e) u h = absurd (cc)

  pub cached_preferences-some :
      (r : Result Bytes) (p : UserPreferences)
      → cached_preferences c r ≡ some p
      → (b : Bytes) × (r ≡ ok b) × (unmarshal_preferences b ≡ some p)
  unfolding cached_preferences
  cached_preferences-some (ok b) p h = (b, refl, h)
  cached_preferences-some (err e) p h = absurd (cc)

  Serves-from :
      {A : Type 0} {stored : Tables → Option A} {w x : W} {p : Outcome (Result A) × W}
      → tables x ≡ tables w
      → Serves stored x p
      → Serves stored w p
  Serves-from {stored = stored} k s = record {
    answered = s.answered;
    coherent = s.coherent;
    kept = s.kept ∙ k;
    right = λ a q. ap stored (sym k) ∙ s.right a q;
  }

  -- From a coherent cache, `FindByID` returns, with a user only as the database has it, writes no row,
  -- and leaves the cache coherent, whether Redis hits, misses or fails.
  pub find_by_id-Serves :
      (id : String) (w : W)
      → IsCoherent cached tables w
      → Serves (stored_user id) w (find_by_id c id w)
  find_by_id-Serves id w h =
      let (reply, x) = c.rdb.get (user_key id) w in
      let kept : tables x ≡ tables w = laws.get_keeps (user_key id) w in
      let after =
        shrink-IsCoherent c cached tables laws (laws.get_shrinks (user_key id) w) kept h in
      elim (Option-cases (cached_user c reply)) [
        | inl e ↦ rw (find_by_id-miss c id w e) (Serves-from kept (load_user-Serves id x after))
        | inr (u, e) ↦
            let (b, q, d) = cached_user-some reply u e in
            let stored = h.users id b u (laws.get_ok _ w b q) d in
            rw (find_by_id-hit c id u w e) (record {
              answered = (_, refl);
              coherent = after;
              kept = kept;
              right = λ a r. let same : u ≡ a = cc in rw (← same) stored;
            })
      ]

  -- From a coherent cache, `FindPreferences` returns, with preferences only as the database has
  -- them (all channels enabled where it has no row), writes no row, and leaves the cache coherent,
  -- whether Redis hits, misses or fails.
  pub find_preferences_cached-Serves :
      (id : String) (w : W)
      → IsCoherent cached tables w
      → Serves (stored_preferences id) w (find_preferences_cached c id w)
  find_preferences_cached-Serves id w h =
      let (reply, x) = c.rdb.get (prefs_key id) w in
      let kept : tables x ≡ tables w = laws.get_keeps (prefs_key id) w in
      let after =
        shrink-IsCoherent c cached tables laws (laws.get_shrinks (prefs_key id) w) kept h in
      elim (Option-cases (cached_preferences c reply)) [
        | inl e ↦
            rw (find_preferences-miss c id w e)
              (Serves-from kept (load_preferences-Serves id x after))
        | inr (p, e) ↦
            let (b, q, d) = cached_preferences-some reply p e in
            let stored = h.preferences id b p (laws.get_ok _ w b q) d in
            rw (find_preferences-hit c id p w e) (record {
              answered = (_, refl);
              coherent = after;
              kept = kept;
              right = λ a r. let same : p ≡ a = cc in rw (← same) stored;
            })
      ]

  -- From a coherent cache, both lookups return, a user only as the database has it and preferences
  -- only as the database has them (all channels enabled where it has no row), write no row, and
  -- leave the cache coherent, whether Redis hits, misses or fails.
  pub user_cache-Serves :
      (id : String) (w : W)
      → IsCoherent cached tables w
      → Serves (stored_user id) w (find_by_id c id w)
        × Serves (stored_preferences id) w (find_preferences_cached c id w)
  user_cache-Serves id w h = (find_by_id-Serves id w h, find_preferences_cached-Serves id w h)
