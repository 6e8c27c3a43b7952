-- ===== src/Cache/Steps.antt =====
-- The lookups of the cache, one equation for each reply of Redis and of the database.
use notification_system.Base.{String, true, false, none, some, ◌≡◌, refl, arith}
use notification_system.Failure.{Failure, no_rows, is, wrap, ok, err}
use notification_system.Effect.{returns}
use notification_system.Domain.{User, UserPreferences}
use notification_system.Store.{
  found_or, found_reply, preferences_reply, find_user_by_id, find_preferences,
}
use notification_system.Cache.Codec.{marshal_user, marshal_preferences}
use notification_system.Cache.Coherence.{preferences_of}
use notification_system.Cache.{
  UserCache, user_key, prefs_key, load_user, cached_user, find_by_id, load_preferences,
  cached_preferences, find_preferences_cached,
}

module _ {W : Type 0} (c : UserCache W) where
  abbrev pub set_user : String → User → W → W
  set_user id u w = (c.rdb.set (user_key id) (some (marshal_user u)) c.ttl w).1

  pub load_user-ok :
      (id : String) (u : User) (w : W)
      → (c.store.query_user id w).0 ≡ ok u
      → load_user c id w ≡ (returns (ok u), set_user id u (c.store.query_user id w).1)
  unfolding load_user find_user_by_id found_reply
  load_user-ok id u w h = ground arith

  pub load_user-err :
      (id : String) (e : Failure) (w : W)
      → (c.store.query_user id w).0 ≡ err e
      → (f : Failure) × (load_user c id w ≡ (returns (err f), (c.store.query_user id w).1))
  unfolding load_user find_user_by_id found_reply
  load_user-err id e w h = (found_or "store.FindUserByID" id e, ground arith)

  abbrev pub set_preferences : String → UserPreferences → W → W
  set_preferences id p w = (c.rdb.set (prefs_key id) (some (marshal_preferences p)) c.ttl w).1

  pub load_preferences-ok :
      (id : String) (p : UserPreferences) (w : W)
      → (c.store.query_preferences id w).0 ≡ ok p
      → load_preferences c id w
        ≡ (returns (ok p), set_preferences id p (c.store.query_preferences id w).1)
  unfolding load_preferences find_preferences preferences_reply
  load_preferences-ok id p w h = ground arith

  pub load_preferences-no_rows :
      (id : String) (e : Failure) (w : W)
      → (c.store.query_preferences id w).0 ≡ err e
      → is e no_rows ≡ true
      → (p : UserPreferences) × (preferences_of id none ≡ some p)
        × (load_preferences c id w
            ≡ (returns (ok p), set_preferences id p (c.store.query_preferences id w).1))
  unfolding load_preferences find_preferences preferences_reply
  load_preferences-no_rows id e w h k = (_, refl, ground arith)

  pub load_preferences-err :
      (id : String) (e : Failure) (w : W)
      → (c.store.query_preferences id w).0 ≡ err e
      → is e no_rows ≡ false
      → (f : Failure) × (load_preferences c id w
          ≡ (returns (err f), (c.store.query_preferences id w).1))
  unfolding load_preferences find_preferences preferences_reply
  load_preferences-err id e w h k = (wrap "store.FindPreferences" e, ground arith)

  pub find_by_id-hit :
      (id : String) (u : User) (w : W)
      → cached_user c (c.rdb.get (user_key id) w).0 ≡ some u
      → find_by_id c id w ≡ (returns (ok u), (c.rdb.get (user_key id) w).1)
  unfolding find_by_id
  find_by_id-hit id u w h = ground arith

  pub find_by_id-miss :
      (id : String) (w : W)
      → cached_user c (c.rdb.get (user_key id) w).0 ≡ none
      → find_by_id c id w ≡ load_user c id (c.rdb.get (user_key id) w).1
  unfolding find_by_id
  find_by_id-miss id w h = ground arith

  pub find_preferences-hit :
      (id : String) (p : UserPreferences) (w : W)
      → cached_preferences c (c.rdb.get (prefs_key id) w).0 ≡ some p
      → find_preferences_cached c id w ≡ (returns (ok p), (c.rdb.get (prefs_key id) w).1)
  unfolding find_preferences_cached
  find_preferences-hit id p w h = ground arith

  pub find_preferences-miss :
      (id : String) (w : W)
      → cached_preferences c (c.rdb.get (prefs_key id) w).0 ≡ none
      → find_preferences_cached c id w ≡ load_preferences c id (c.rdb.get (prefs_key id) w).1
  unfolding find_preferences_cached
  find_preferences-miss id w h = ground arith
