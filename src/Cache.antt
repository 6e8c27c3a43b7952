-- ===== src/Cache.antt =====
-- internal/store/cache.go: the users and their preferences behind Redis.
pub mod Codec
pub mod Coherence
pub mod Steps
pub mod Serving
use notification_system.Base.{ℕ, String, Option, none, some, ◌<>◌}
use notification_system.Failure.{Failure, Result, ok, err}
use notification_system.Effect.{Exec, pure, call, ◌>>=◌, ◌>>◌}
use notification_system.Domain.{User, UserPreferences}
use notification_system.Redis.{Redis}
use notification_system.Store.{find_user_by_id, find_preferences}
use notification_system.Store.Connection.{Pool}
use notification_system.Json.{Bytes}
use Codec.{marshal_user, unmarshal_user, marshal_preferences, unmarshal_preferences}

pub record UserCache (W : Type 0) : Type 0 where
  pub rdb : Redis W
  pub store : Pool W
  pub ttl : ℕ

abbrev pub new_user_cache : {W : Type 0} → Redis W → Pool W → ℕ → UserCache W
new_user_cache rdb store ttl = record { rdb = rdb; store = store; ttl = ttl }

abbrev pub user_key : String → String
user_key id = "user:" <> id

abbrev pub prefs_key : String → String
prefs_key user_id = "prefs:" <> user_id

module _ {W : Type 0} (c : UserCache W) where
  -- A miss, an error of Redis and a value that does not decode all go on to the database.
  unfoldable pub load_user : String → Exec W (Result User)
  load_user id = call (find_user_by_id c.store id) >>= elim [
    | err e ↦ pure (err e)
    | ok u ↦ call (c.rdb.set (user_key id) (some (marshal_user u)) c.ttl) >>= λ _. pure (ok u)
  ]

  unfoldable pub cached_user : Result Bytes → Option User
  cached_user (err e) = none
  cached_user (ok bytes) = unmarshal_user bytes

  unfoldable pub find_by_id : String → Exec W (Result User)
  find_by_id id = call (c.rdb.get (user_key id)) >>= λ data'. elim (cached_user data') [
    | some u ↦ pure (ok u)
    | none ↦ load_user id
  ]

  unfoldable pub load_preferences : String → Exec W (Result UserPreferences)
  load_preferences user_id = call (find_preferences c.store user_id) >>= elim [
    | err e ↦ pure (err e)
    | ok p ↦ call (c.rdb.set (prefs_key user_id) (some (marshal_preferences p)) c.ttl) >>= λ _.
        pure (ok p)
  ]

  unfoldable pub cached_preferences : Result Bytes → Option UserPreferences
  cached_preferences (err e) = none
  cached_preferences (ok bytes) = unmarshal_preferences bytes

  unfoldable pub find_preferences_cached : String → Exec W (Result UserPreferences)
  find_preferences_cached user_id = call (c.rdb.get (prefs_key user_id)) >>= λ data'.
      elim (cached_preferences data') [ some p ↦ pure (ok p) | none ↦ load_preferences user_id ]
