-- ===== src/Retry.antt =====
-- internal/retry/retry.go. A `time.Duration` is a 64-bit word in two's complement; `max_attempts`
-- is a natural number, where 0 stands for every `MaxAttempts` below 1.
pub mod Delay
pub mod Runs
pub mod Keeps
use notification_system.Base.{
  ℕ, zero, suc, ◌+◌, ◌-◌, ◌*◌, ◌%◌, ◌^◌, Bool, Option, none, some, ltb, eqb, if◌then◌else◌, ◌<>◌,
  itoa,
}
use notification_system.Failure.{Failure, wrap, exhausted, text_or_nil}
use notification_system.Effect.{Exec, pure, call, ◌>>=◌}

pub record Config : Type 0 where
  pub max_attempts : ℕ
  pub base_delay : ℕ
  pub max_delay : ℕ

-- `ctx` as a retry uses it: `wait d` is the `select` on `ctx.Done()` and `time.After(d)`, with
-- `some ctx.Err()` where the context ends first.
pub record Context (W : Type 0) : Type 0 where
  pub wait : ℕ → W → Option Failure × W

abbrev pub millisecond : ℕ
millisecond = 1000000

abbrev pub default_config : Config
default_config = record {
  max_attempts = 3;
  base_delay = 100 * millisecond;
  max_delay = 5000 * millisecond;
}

-- `a > b` on two 64-bit words, read as signed numbers.
abbrev signed_gt : ℕ → ℕ → Bool
signed_gt a b = ltb ((b + 2 ^ 63) % 2 ^ 64) ((a + 2 ^ 63) % 2 ^ 64)

-- `time.Duration(math.Pow(2, k))`: past the range Go leaves the result to the machine, and amd64
-- gives the least number.
power_of_two : ℕ → ℕ
power_of_two k = if ltb k 63 then 2 ^ k else 2 ^ 63

unfoldable pub backoff : Config → ℕ → ℕ
unfolding power_of_two
backoff cfg attempt =
    let delay = (power_of_two (attempt - 1) * cfg.base_delay) % 2 ^ 64 in
    if signed_gt delay cfg.max_delay then cfg.max_delay else delay

module _ {W : Type 0} (ctx : Context W) (cfg : Config) (fn : ℕ → Exec W (Option Failure)) where
  abbrev give_up : Option Failure → Exec W (Option Failure)
  give_up last = pure (some (exhausted cfg.max_attempts (text_or_nil last)))

  -- The loop from the attempt of that number on, with the rounds that are left to it.
  pub attempts : ℕ → ℕ → Option Failure → Exec W (Option Failure)
  attempts zero attempt last = give_up last
  attempts (suc left) attempt last = fn attempt >>= elim [
    | none ↦ pure none
    | some e ↦
        let next = call (ctx.wait (backoff cfg attempt)) >>= elim [
          | none ↦ attempts left (attempt + 1) (some e)
          | some c ↦ pure (some (wrap ("retry cancelled after attempt " <> itoa attempt) c))
        ] in
        if eqb attempt cfg.max_attempts then give_up (some e) else next
  ]

  unfoldable pub retry_do : Exec W (Option Failure)
  unfolding attempts
  retry_do = attempts cfg.max_attempts 1 none
