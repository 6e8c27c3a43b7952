-- ===== src/Worker/Running.antt =====
-- The loop of `Run`.
use notification_system.Base.{
  ℕ, zero, suc, ◌+◌, ◌<◌, true, false, Option, ◌≡◌, refl, sym, ap, ◌∙◌, ◌↔◌, inl, inr, arith,
  Bool-cases, Option-cases, String, ◌<>◌, itoa,
}
use notification_system.Failure.{Failure, Result, ok, err, wrap, other}
use notification_system.Effect.{Outcome, returns, panics, ◌>>=◌}
use notification_system.Domain.{Notification}
use notification_system.Kafka.{Message, Consumer, read_one}
use notification_system.Domain.Codec.{unmarshal}
use notification_system.Worker.{Worker, process, ends, run}
use notification_system.Worker.Ending.{
  inside, Stopping, Stopping-unwrap, Stopping-other, ends-Stopping, Stopping-ends,
}

module _ {W : Type 0} (w : Worker W) (c : Consumer W) where
  -- One round after which the loop goes on: a notification is processed, whatever `process`
  -- returns, or a read fails for another reason than the end of the context.
  pub data Round (u x : W) : Type 0 where
    processed :
        {v : W} {n : Notification} {e : Option Failure}
        → read_one c u ≡ (returns (ok n), v)
        → process w n v ≡ (returns e, x)
        → Round u x
    reported : {e : Failure} → read_one c u ≡ (returns (err e), x) → ¬ Stopping e → Round u x

  pub data Rounds (x : W) : ℕ → W → Type 0 where
    start : Rounds x 0 x
    next : {k k' : ℕ} {u v : W} → k' ≡ k + 1 → Round u v → Rounds x k v → Rounds x k' u

  -- The loop returns in the world `x`: after fewer than `limit` rounds, the reader of kafka-go answers
  -- with an error that is, or wraps, the one of a context that was cancelled or passed its deadline.
  pub record Stops (limit : ℕ) (u x : W) : Type 0 where
    pub rounds : ℕ
    pub before : W
    pub reason : Failure
    pub soon : rounds < limit
    pub reached : Rounds before rounds u
    pub read : c.reader.read_message before ≡ (err reason, x)
    pub ended : Stopping reason

  goes_on : (e : Failure) → ¬ Stopping e → ends w e ≡ false
  goes_on e h = elim (Bool-cases (ends w e)) [
    | inl q ↦ absurd (h (ends-Stopping w e q))
    | inr q ↦ q
  ]

  -- `ReadOne` wraps the error of the reader, and an error of the JSON is not one of the context.
  wrapped_too : {e : Failure} {prefix : String} → Stopping e → Stopping (wrap prefix e)
  wrapped_too (inl h) = inl (inside h)
  wrapped_too (inr h) = inr (inside h)

  read_one-err :
      (u x : W) (e : Failure)
      → c.reader.read_message u ≡ (err e, x)
      → read_one c u ≡ (returns (err (wrap ("consumer [" <> c.channel <> "]: read message") e)), x)
  unfolding read_one
  read_one-err u x e h = rw h refl

  read_reply :
      (u x : W) (e : Failure) (q : Result Message × W)
      → c.reader.read_message u ≡ q
      → read_one c u ≡ (returns (err e), x)
      → Stopping e
      → (f : Failure) × (c.reader.read_message u ≡ (err f, x)) × Stopping f
  unfolding read_one
  read_reply u x e (err f, y) k h s =
      let told = sym (read_one-err u y f k) ∙ h in
      let same : e ≡ wrap ("consumer [" <> c.channel <> "]: read message") f = cc in
      (f, k ∙ ap (λ v. (err f, v)) (ap (λ p. p.1) told), Stopping-unwrap (rw same at s))
  read_reply u x e (ok m, y) k h s = elim (Option-cases (unmarshal c.formats m.value)) [
    | inr (n, d) ↦ absurd (let no = rw (k, d) at h in cc)
    | inl d ↦
        let told = rw (k, d) at h in
        let same : e
            ≡ wrap ("consumer [" <> c.channel <> "]: unmarshal message offset=" <> itoa m.offset)
                (other "invalid JSON") =
          cc in
        absurd (Stopping-other (Stopping-unwrap (rw same at s)))
  ]

  read-Stopping :
      (u x : W) (e : Failure)
      → read_one c u ≡ (returns (err e), x)
      → Stopping e
      → (f : Failure) × (c.reader.read_message u ≡ (err f, x)) × Stopping f
  read-Stopping u x e h s = read_reply u x e _ refl h s

  run-Round : (k : ℕ) {u x : W} → Round u x → run w (suc k) c u ≡ run w k c x
  unfolding run
  run-Round k (processed r p) = rw (r, p) refl
  run-Round k (reported {e = e} r h) = rw (r, goes_on e h) refl

  -- A round whose read returns a notification.
  pub run_message :
      (k : ℕ) (n : Notification) (u v : W)
      → read_one c u ≡ (returns (ok n), v)
      → run w (suc k) c u ≡ (process w n >>= λ _. run w k c) v
  unfolding run
  run_message k n u v r = rw r refl

  run_end :
      (k : ℕ) (e : Failure) (u x : W)
      → read_one c u ≡ (returns (err e), x)
      → ends w e ≡ true
      → run w (suc k) c u ≡ (returns true, x)
  unfolding run
  run_end k e u x r h = rw (r, h) refl

  run_crash :
      (k : ℕ) (n : Notification) (u v x : W)
      → read_one c u ≡ (returns (ok n), v)
      → process w n v ≡ (panics, x)
      → run w (suc k) c u ≡ (panics, x)
  unfolding run
  run_crash k n u v x r p = rw (r, p) refl

  run_broken : (k : ℕ) (u x : W) → read_one c u ≡ (panics, x) → run w (suc k) c u ≡ (panics, x)
  unfolding run
  run_broken k u x r = rw r refl

  Stops-next : {k : ℕ} {u v x : W} → Round u v → Stops k v x → Stops (suc k) u x
  Stops-next r s = record {
    rounds = s.rounds + 1;
    before = s.before;
    reason = s.reason;
    soon = omega (arith, s.soon);
    reached = next refl r s.reached;
    read = s.read;
    ended = s.ended;
  }

  process_step :
      (k : ℕ) (n : Notification) (u v x : W)
      → read_one c u ≡ (returns (ok n), v)
      → ((y : W) → run w k c y ≡ (returns true, x) → Stops k y x)
      → run w (suc k) c u ≡ (returns true, x)
      → (p : Outcome (Option Failure) × W) → process w n v ≡ p
      → Stops (suc k) u x
  process_step k n u v x r later h (returns e, y) q =
      Stops-next (processed r q) (later y (sym (run-Round k (processed r q)) ∙ h))
  process_step k n u v x r later h (panics, y) q =
      absurd (let crash = run_crash k n u v y r q in cc)

  round_step :
      (k : ℕ) (u x : W)
      → ((y : W) → run w k c y ≡ (returns true, x) → Stops k y x)
      → run w (suc k) c u ≡ (returns true, x)
      → (p : Outcome (Result Notification) × W) → read_one c u ≡ p
      → Stops (suc k) u x
  round_step k u x later h (returns (ok n), v) r =
      process_step k n u v x r later h (process w n v) refl
  round_step k u x later h (returns (err e), v) r = elim (Bool-cases (ends w e)) [
    | inl q ↦
        let stopped = read-Stopping u v e r (ends-Stopping w e q) in
        let same : v ≡ x = ap (λ p. p.1) (sym (run_end k e u v r q) ∙ h) in
        record {
          rounds = 0;
          before = u;
          reason = stopped.0;
          soon = omega arith;
          reached = start;
          read = rw (← same) (stopped.1);
          ended = stopped.2;
        }
    | inr q ↦
        let on : Round u v = reported r (λ s. absurd (let yes = Stopping-ends w e s in cc)) in
        Stops-next on (later v (sym (run-Round k on) ∙ h))
  ]
  round_step k u x later h (panics, v) r = absurd (let broken = run_broken k u v r in cc)

  run-Stops : (limit : ℕ) (u x : W) → run w limit c u ≡ (returns true, x) → Stops limit u x
  run-Stops zero u x h = absurd (unfold run in cc)
  run-Stops (suc k) u x h = round_step k u x (λ y. run-Stops k y x) h (read_one c u) refl

  Rounds-run :
      (k limit : ℕ) {u v x : W} (e : Failure)
      → Rounds v k u
      → k < limit
      → c.reader.read_message v ≡ (err e, x)
      → Stopping e
      → run w limit c u ≡ (returns true, x)
  Rounds-run k zero e rs lt r h = absurd (omega arith)
  Rounds-run k (suc limit) {v = v} {x = x} e start lt r h =
      let told = read_one-err v x e r in
      run_end limit _ _ _ told (Stopping-ends w _ (wrapped_too h))
  Rounds-run k (suc limit) e (next {k = j} q s rs) lt r h =
      run-Round limit s ∙ Rounds-run j limit e rs (omega arith) r h

  -- With fuel for so many rounds, `Run` returns in a world exactly when after fewer rounds, each a
  -- notification processed without a panic or a read that failed with another error, the reader
  -- answers with an error that is, or wraps, `context.Canceled` or `context.DeadlineExceeded`, and
  -- leaves that world.
  pub run_iff : (limit : ℕ) (u x : W) → (run w limit c u ≡ (returns true, x)) ↔ Stops limit u x
  run_iff limit u x =
      (run-Stops limit u x, λ s. Rounds-run s.rounds limit s.reason s.reached s.soon s.read s.ended)
