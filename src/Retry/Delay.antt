-- ===== src/Retry/Delay.antt =====
-- The delay between two attempts of internal/retry.
use notification_system.Base.{ℕ, ◌-◌, ◌*◌, ◌≤◌, ◌<◌, ◌^◌, ◌≡◌, min, arith}
use notification_system.Retry.{Config, backoff}

-- While 2 ^ (attempt - 1) base delays fit into 63 bits, the delay is that product, cut at the
-- maximum: it doubles with each attempt and never passes `max_delay`.
pub backoff-eq-min :
    (cfg : Config) (attempt : ℕ)
    → attempt ≤ 63
    → 2 ^ (attempt - 1) * cfg.base_delay < 2 ^ 63
    → cfg.max_delay < 2 ^ 63
    → backoff cfg attempt ≡ min (2 ^ (attempt - 1) * cfg.base_delay) cfg.max_delay
unfolding backoff
backoff-eq-min cfg attempt h p q = ground arith
