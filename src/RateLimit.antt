-- ===== src/RateLimit.antt =====
-- internal/ratelimit/limiter.go. The limit is a natural number.
pub mod Window
pub mod Keys
pub mod Interleaving
use notification_system.Base.{
  ℕ, String, Bool, true, Option, none, some, leb, eqb, if◌then◌else◌, ◌<>◌,
}
use notification_system.Failure.{Failure, wrap, Result, ok, err}
use notification_system.Effect.{Exec, pure, call, ◌>>=◌}
use notification_system.Redis.{Redis}

pub record Limiter (W : Type 0) : Type 0 where
  pub redis : Redis W
  pub limit : ℕ
  pub window : ℕ

abbrev pub new_limiter : {W : Type 0} → Redis W → ℕ → ℕ → Limiter W
new_limiter rdb limit window = record { redis = rdb; limit = limit; window = window }

abbrev pub rate_key : String → String → String
rate_key user_id channel = "rate:" <> user_id <> ":" <> channel

module _ {W : Type 0} (l : Limiter W) where
  abbrev within : ℕ → Exec W (Bool × Option Failure)
  within count = pure (leb count l.limit, none)

  unfoldable pub allow : String → String → Exec W (Bool × Option Failure)
  allow user_id channel = call (l.redis.incr (rate_key user_id channel)) >>= elim [
    | err e ↦ pure (true, some (wrap "rate limit check: redis incr" e))
    | ok count ↦
        let first = call (l.redis.expire (rate_key user_id channel) l.window) >>= elim [
          | some e ↦ pure (true, some (wrap "rate limit check: redis expire" e))
          | none ↦ within count
        ] in
        if eqb count 1 then first else within count
  ]
