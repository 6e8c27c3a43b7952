-- ===== src/Failure.antt =====
-- Go's `error` values: the sentinels that the program compares with, errors that come from
-- outside, and the wrappers that `fmt.Errorf` makes with `%w`.
use notification_system.Base.{
  ℕ, String, Bool, false, eqb, ◌<>◌, itoa, Option, none, some, ◌≡◌, refl, ◌⊎◌, inl, inr,
}

pub data Sentinel : Type 0 where
  canceled deadline_exceeded no_rows redis_nil max_retries_exceeded : Sentinel

-- `wrap p e` is `fmt.Errorf("p: %w", e)`; `exhausted n last` is the error of internal/retry.
pub data Failure : Type 0 where
  sentinel : Sentinel → Failure
  other : String → Failure
  wrap : String → Failure → Failure
  exhausted : ℕ → String → Failure

pub data Result {ℓ} (A : Type ℓ) : Type ℓ where
  ok : A → Result A
  err : Failure → Result A

abbrev rank : Sentinel → ℕ
rank canceled = 0
rank deadline_exceeded = 1
rank no_rows = 2
rank redis_nil = 3
rank max_retries_exceeded = 4

abbrev same : Sentinel → Sentinel → Bool
same s t = eqb (rank s) (rank t)

-- `errors.Is(e, target)` walks the chain of wrapped errors.
unfoldable pub is : Failure → Sentinel → Bool
is (sentinel s) target = same s target
is (other text) target = false
is (wrap prefix e) target = is e target
is (exhausted n last) target = same max_retries_exceeded target

sentinel_text : Sentinel → String
sentinel_text canceled = "context canceled"
sentinel_text deadline_exceeded = "context deadline exceeded"
sentinel_text no_rows = "no rows in result set"
sentinel_text redis_nil = "redis: nil"
sentinel_text max_retries_exceeded = "max retries exceeded"

-- `e.Error()`.
unfoldable pub text : Failure → String
unfolding sentinel_text itoa
text (sentinel s) = sentinel_text s
text (other t) = t
text (wrap prefix e) = prefix <> ": " <> text e
text (exhausted n last) =
    sentinel_text max_retries_exceeded <> " after " <> itoa n <> " attempts: " <> last

-- `%v` of an `error` that may be nil.
unfoldable pub text_or_nil : Option Failure → String
unfolding text
text_or_nil none = "<nil>"
text_or_nil (some e) = text e

pub Result-cases {ℓ} :
    {A : Type ℓ} (r : Result A) → ((a : A) × (r ≡ ok a)) ⊎ ((e : Failure) × (r ≡ err e))
Result-cases (ok a) = inl (a, refl)
Result-cases (err e) = inr (e, refl)
