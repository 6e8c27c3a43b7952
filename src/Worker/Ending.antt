-- ===== src/Worker/Ending.antt =====
-- Which errors end the loop of `Run` (internal/worker/worker.go), by the chain of errors that they wrap.
use notification_system.Base.{String, true, ◌≡◌, ◌⊎◌, refl, inl, inr, Bool-cases, arith}
use notification_system.Failure.{
  Sentinel, canceled, deadline_exceeded, no_rows, redis_nil, max_retries_exceeded, Failure,
  sentinel, other, wrap, exhausted, is,
}
use notification_system.Worker.{Worker, ends}

-- The error is this one, or wraps it with `%w`.
pub data Caused (s : Sentinel) : Failure → Type 0 where
  itself : Caused s (sentinel s)
  inside : {e : Failure} {prefix : String} → Caused s e → Caused s (wrap prefix e)

-- The context was cancelled or passed its deadline.
abbrev pub Stopping : Failure → Type 0
Stopping e = Caused canceled e ⊎ Caused deadline_exceeded e

is_canceled-Caused : (e : Failure) → is e canceled ≡ true → Caused canceled e
unfolding is
is_canceled-Caused (sentinel canceled) h = itself
is_canceled-Caused (sentinel deadline_exceeded) h = absurd (let no = h in cc)
is_canceled-Caused (sentinel no_rows) h = absurd (let no = h in cc)
is_canceled-Caused (sentinel redis_nil) h = absurd (let no = h in cc)
is_canceled-Caused (sentinel max_retries_exceeded) h = absurd (let no = h in cc)
is_canceled-Caused (other m) h = absurd (let no = h in cc)
is_canceled-Caused (wrap p e) h = inside (is_canceled-Caused e h)
is_canceled-Caused (exhausted n last) h = absurd (let no = h in cc)

is_deadline_exceeded-Caused :
    (e : Failure) → is e deadline_exceeded ≡ true → Caused deadline_exceeded e
unfolding is
is_deadline_exceeded-Caused (sentinel canceled) h = absurd (let no = h in cc)
is_deadline_exceeded-Caused (sentinel deadline_exceeded) h = itself
is_deadline_exceeded-Caused (sentinel no_rows) h = absurd (let no = h in cc)
is_deadline_exceeded-Caused (sentinel redis_nil) h = absurd (let no = h in cc)
is_deadline_exceeded-Caused (sentinel max_retries_exceeded) h = absurd (let no = h in cc)
is_deadline_exceeded-Caused (other m) h = absurd (let no = h in cc)
is_deadline_exceeded-Caused (wrap p e) h = inside (is_deadline_exceeded-Caused e h)
is_deadline_exceeded-Caused (exhausted n last) h = absurd (let no = h in cc)

Caused-is_canceled : (e : Failure) → Caused canceled e → is e canceled ≡ true
unfolding is
Caused-is_canceled e itself = refl
Caused-is_canceled e (inside {e = d} c) = Caused-is_canceled d c

Caused-is_deadline_exceeded :
    (e : Failure) → Caused deadline_exceeded e → is e deadline_exceeded ≡ true
unfolding is
Caused-is_deadline_exceeded e itself = refl
Caused-is_deadline_exceeded e (inside {e = d} c) = Caused-is_deadline_exceeded d c

Caused-unwrap :
    {s : Sentinel} {prefix : String} {e : Failure} → Caused s (wrap prefix e) → Caused s e
Caused-unwrap (inside c) = c

pub Stopping-unwrap : {prefix : String} {e : Failure} → Stopping (wrap prefix e) → Stopping e
Stopping-unwrap (inl c) = inl (Caused-unwrap c)
Stopping-unwrap (inr c) = inr (Caused-unwrap c)

Caused-other : {s : Sentinel} {message : String} → ¬ Caused s (other message)
Caused-other c = elim c [ ]

pub Stopping-other : {message : String} → ¬ Stopping (other message)
Stopping-other (inl c) = Caused-other c
Stopping-other (inr c) = Caused-other c

module _ {W : Type 0} (w : Worker W) (e : Failure) where
  pub ends-Stopping : ends w e ≡ true → Stopping e
  unfolding ends
  ends-Stopping h = elim (Bool-cases (is e canceled)) [
    | inl q ↦ inl (is_canceled-Caused e q)
    | inr q ↦ inr (is_deadline_exceeded-Caused e (ground arith))
  ]

  pub Stopping-ends : Stopping e → ends w e ≡ true
  unfolding ends
  Stopping-ends (inl c) = let q = Caused-is_canceled e c in ground arith
  Stopping-ends (inr c) = let q = Caused-is_deadline_exceeded e c in ground arith
