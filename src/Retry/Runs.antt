-- ===== src/Retry/Runs.antt =====
-- How a run of `Do` goes: the attempts that fail before it ends, and the four ways to end.
use notification_system.Base.{
  ℕ, ◌∙◌, ap, sym, zero, suc, ◌+◌, ◌-◌, ◌≤◌, ◌<◌, ◌≡◌, refl, ◌↔◌, inl, inr, Option, none, some,
  arith, ◌<>◌, itoa,
}
use native.Mathlib.Decide.{dec_lt}
use notification_system.Failure.{Failure, wrap, exhausted, text, text_or_nil}
use notification_system.Effect.{error_cases, reply_cases, Outcome, returns, panics, Exec, continue}
use notification_system.Retry.{Config, Context, backoff, attempts, retry_do}

module _ {W : Type 0} (ctx : Context W) (cfg : Config) (fn : ℕ → Exec W (Option Failure)) where
  -- From `w` the attempts before that number failed, each was waited for, and this is the world.
  pub data Failed (w : W) : ℕ → W → Type 0 where
    first : Failed w 1 w
    again :
        {k k' : ℕ} {u v x : W} {e : Failure}
        → k' ≡ k + 1
        → Failed w k u
        → fn k u ≡ (returns (some e), v)
        → ctx.wait (backoff cfg k) v ≡ (none, x)
        → Failed w k' x

  pub data Ending (w : W) (r : Outcome (Option Failure)) (x : W) : Type 0 where
    success :
        {k : ℕ} {u : W}
        → Failed w k u
        → k ≤ cfg.max_attempts
        → fn k u ≡ (returns none, x)
        → r ≡ returns none
        → Ending w r x
    crash :
        {k : ℕ} {u : W}
        → Failed w k u
        → k ≤ cfg.max_attempts
        → fn k u ≡ (panics, x)
        → r ≡ panics
        → Ending w r x
    cancel :
        {k : ℕ} {u v : W} {e c : Failure}
        → Failed w k u
        → k < cfg.max_attempts
        → fn k u ≡ (returns (some e), v)
        → ctx.wait (backoff cfg k) v ≡ (some c, x)
        → r ≡ returns (some (wrap ("retry cancelled after attempt " <> itoa k) c))
        → Ending w r x
    exhaust :
        {u : W} {e : Failure}
        → Failed w cfg.max_attempts u
        → fn cfg.max_attempts u ≡ (returns (some e), x)
        → r ≡ returns (some (exhausted cfg.max_attempts (text e)))
        → Ending w r x

  abbrev run : ℕ → ℕ → Option Failure → W → Outcome (Option Failure) × W
  run left k last u = attempts ctx cfg fn left k last u

  step_success :
      (left k : ℕ) (last : Option Failure) (u : W) {v : W}
      → fn k u ≡ (returns none, v)
      → run (suc left) k last u ≡ (returns none, v)
  unfolding attempts
  step_success left k last u h = rw (h, continue)

  step_crash :
      (left k : ℕ) (last : Option Failure) (u : W) {v : W}
      → fn k u ≡ (panics, v)
      → run (suc left) k last u ≡ (panics, v)
  unfolding attempts
  step_crash left k last u h = rw (h, continue)

  step_exhaust :
      (left k : ℕ) (last : Option Failure) (u : W) {v : W} {e : Failure}
      → fn k u ≡ (returns (some e), v)
      → k ≡ cfg.max_attempts
      → run (suc left) k last u ≡ (returns (some (exhausted cfg.max_attempts (text e))), v)
  unfolding attempts text_or_nil
  step_exhaust left k last u h q = ground arith

  step_cancel :
      (left k : ℕ) (last : Option Failure) (u : W) {v x : W} {e c : Failure}
      → fn k u ≡ (returns (some e), v)
      → k < cfg.max_attempts
      → ctx.wait (backoff cfg k) v ≡ (some c, x)
      → run (suc left) k last u
        ≡ (returns (some (wrap ("retry cancelled after attempt " <> itoa k) c)), x)
  unfolding attempts
  step_cancel left k last u h q p = ground arith

  step_again :
      (left k : ℕ) (last : Option Failure) (u : W) {v x : W} {e : Failure}
      → fn k u ≡ (returns (some e), v)
      → k < cfg.max_attempts
      → ctx.wait (backoff cfg k) v ≡ (none, x)
      → run (suc left) k last u ≡ run left (k + 1) (some e) x
  unfolding attempts
  step_again left k last u h q p = ground arith

  -- One round, where the rounds after it end in one of the four ways.
  module _ (left k : ℕ) (last : Option Failure) (w u : W) (f : Failed w k u)
      (rest : (e : Failure) (x : W)
        → k < cfg.max_attempts
        → Failed w (k + 1) x
        → Ending w (run left (k + 1) (some e) x).0 (run left (k + 1) (some e) x).1) where
    abbrev EndsHere : Type 0
    EndsHere = Ending w (run (suc left) k last u).0 (run (suc left) k last u).1

    step-Ending_waited :
        {e : Failure} {v : W} → fn k u ≡ (returns (some e), v) → k < cfg.max_attempts → EndsHere
    step-Ending_waited {e} {v} h q = elim (reply_cases (ctx.wait (backoff cfg k) v)) [
      | inl (x, d) ↦ rw (step_again left k last u h q d) (rest e x q (again refl f h d))
      | inr (c, x, d) ↦ rw (step_cancel left k last u h q d) (cancel f q h d refl)
    ]

    step-Ending_failed :
        {e : Failure} {v : W} → fn k u ≡ (returns (some e), v) → k ≤ cfg.max_attempts → EndsHere
    step-Ending_failed h n = elim (dec_lt k cfg.max_attempts) [
      | yes q ↦ step-Ending_waited h q
      | no q ↦
          let e : k ≡ cfg.max_attempts = omega arith in
          rw (step_exhaust left k last u h e) (exhaust (rw e at f) (rw e at h) refl)
    ]

    step-Ending : k ≤ cfg.max_attempts → EndsHere
    step-Ending n = elim (error_cases (fn k u)) [
      | inl (v, e) ↦ rw (step_success left k last u e) (success f n e refl)
      | inr (inl (a, v, e)) ↦ step-Ending_failed e n
      | inr (inr (v, e)) ↦ rw (step_crash left k last u e) (crash f n e refl)
    ]

  attempts-Ending :
      (left k : ℕ) (last : Option Failure) (w u : W)
      → Failed w k u
      → k + left ≡ cfg.max_attempts + 1
      → 0 < left
      → Ending w (run left k last u).0 (run left k last u).1
  attempts-Ending zero k last w u f n h = absurd (omega arith)
  attempts-Ending (suc left) k last w u f n h =
      step-Ending left k last w u f
        (λ e x q g. attempts-Ending left (k + 1) (some e) w x g (omega arith) (omega arith))
        (omega arith)

  -- The loop reaches every attempt that `Failed` reaches.
  attempts-Failed :
      {w u : W} {k : ℕ}
      → Failed w k u
      → (last : Option Failure) × ((left : ℕ)
          → k + left ≡ cfg.max_attempts + 1
          → 0 < left
          → retry_do ctx cfg fn w ≡ run left k last u)
  attempts-Failed first = (
    none,
    λ left e _. let n : left ≡ cfg.max_attempts = omega arith in rw n (unfold retry_do in refl),
  )
  attempts-Failed (again {k = j} {u = u} {x = x} {e = e} n f h d) =
      let (last, reach) = attempts-Failed f in
      (
        some e,
        λ left m p.
            reach (suc left) (omega arith) (omega arith)
            ∙ (step_again left j last u h (omega arith) d
                ∙ ap (λ i. run left i (some e) x) (sym n)),
      )

  reached :
      {w u : W} {k : ℕ}
      → Failed w k u
      → k ≤ cfg.max_attempts
      → (last : Option Failure) × (retry_do ctx cfg fn w
          ≡ run (suc (cfg.max_attempts - k)) k last u)
  reached f n = let (last, reach) = attempts-Failed f in (last, reach _ (omega arith) (omega arith))

  Ending-retry_do :
      {w x : W} {r : Outcome (Option Failure)} → Ending w r x → retry_do ctx cfg fn w ≡ (r, x)
  Ending-retry_do (success {k} {u} f n h e) =
      let (last, reach) = reached f n in rw e (reach ∙ step_success _ k last u h)
  Ending-retry_do (crash {k} {u} f n h e) =
      let (last, reach) = reached f n in rw e (reach ∙ step_crash _ k last u h)
  Ending-retry_do (cancel {k} {u} f n h d e) =
      let (last, reach) = reached f (omega arith) in rw e (reach ∙ step_cancel _ k last u h n d)
  Ending-retry_do (exhaust {u} f h e) =
      let (last, reach) = reached f (omega arith) in
      rw e (reach ∙ step_exhaust _ cfg.max_attempts last u h refl)

  -- For at least one attempt, `Do` answers `r` in the world `x` exactly when the run is one of
  -- these: an attempt up to the last allowed one succeeds (nil) or panics after every attempt
  -- before it failed and was waited for; the context ends the wait after an attempt that is not
  -- the last; or each of the `max_attempts` attempts fails.
  pub retry_do_iff :
      0 < cfg.max_attempts
      → (w x : W) (r : Outcome (Option Failure)) → (retry_do ctx cfg fn w ≡ (r, x)) ↔ Ending w r x
  retry_do_iff n w x r = (λ h. rw h at ending, Ending-retry_do)
    where
      ending : Ending w (retry_do ctx cfg fn w).0 (retry_do ctx cfg fn w).1
      ending = unfold retry_do in attempts-Ending cfg.max_attempts 1 none w w first (omega arith) n
