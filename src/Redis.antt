-- ===== src/Redis.antt =====
-- The Redis client (go-redis, not in the repository) as the program uses it.
use notification_system.Base.{ℕ, String, Option}
use notification_system.Failure.{Failure, Result}
use notification_system.Json.{Bytes}

-- `get` answers the error `redis.Nil` for a key that is not there; a duration is a 64-bit word.
pub record Redis (W : Type 0) : Type 0 where
  pub incr : String → W → Result ℕ × W
  pub expire : String → ℕ → W → Option Failure × W
  pub get : String → W → Result Bytes × W
  pub set : String → Bytes → ℕ → W → Option Failure × W
