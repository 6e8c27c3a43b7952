-- ===== src/Worker/Keeps.antt =====
-- What one call of `process` keeps, if every operation that it uses keeps it.
use notification_system.Base.{
  zero, suc, Option-cases, Bool-cases, ℕ, ◌<◌, String, Bool, true, false, Option, none, some, ◌≡◌,
  refl, ◌⊎◌, inl, inr,
}
use notification_system.Failure.{Failure, Result, ok, err, Result-cases}
use notification_system.Effect.{Outcome, Exec, returns, panics, continue}
use notification_system.Domain.Codec.{unmarshal}
use notification_system.Kafka.{Consumer, read_one}
use notification_system.Domain.{
  Notification, DeliveryLog, Status, Time, status_pending, status_sent, status_failed,
}
use notification_system.Runtime.{Metric}
use notification_system.Retry.Keeps.{retry_do-keeps}
use notification_system.Worker.{
  Worker, ends, run, deliver, conclude, after_insert, attempt_delivery, after_check, process,
}

-- A log is inserted as pending, and set to sent or to failed.
pub record Keeps {W : Type 0} (w : Worker W) (P : W → Type 0) : Type 0 where
  pub new_string : (x : W) → P x → P (w.runtime.new_string x).1
  pub now : (x : W) → P x → P (w.runtime.now x).1
  pub inc : (m : Metric) (x : W) → P x → P (w.runtime.inc m x)
  pub observe : (m : Metric) (t : Time) (x : W) → P x → P (w.runtime.observe m t x)
  pub insert :
      (log : DeliveryLog)
      → log.status ≡ status_pending
      → (x : W) → P x
      → P (w.log_repo.insert log x).1
  pub update :
      (id : String) (status : Status) (message : String)
      → (status ≡ status_sent) ⊎ (status ≡ status_failed)
      → (x : W) → P x
      → P (w.log_repo.update_delivery_status id status message x).1
  pub exists_sent : (id : String) (x : W) → P x → P (w.log_repo.exists_sent id x).1
  pub wait : (d : ℕ) (x : W) → P x → P (w.context.wait d x).1
  pub send : (n : Notification) (x : W) → P x → P (w.sender.send n x).1
  pub tries : 0 < w.retry_cfg.max_attempts

module _ {W : Type 0} (w : Worker W) (P : W → Type 0) (k : Keeps w P) where
  pub deliver-keeps : (n : Notification) (x : W) → P x → P (deliver w n x).1
  unfolding deliver
  deliver-keeps n =
      retry_do-keeps w.context w.retry_cfg P k.wait (λ attempt. w.sender.send n)
        (λ attempt. k.send n) k.tries

  pub conclude-keeps :
      (id : String) (start : Time) (e : Option Failure) (x : W)
      → P x
      → P (conclude w id start e x).1
  unfolding conclude
  conclude-keeps id start (some e) x p = k.inc _ _ (k.update _ _ _ (inr refl) _ p)
  conclude-keeps id start none x p =
      k.observe _ _ _ (k.now _ (k.inc _ _ (k.update _ _ _ (inl refl) _ p)))

  concluded-keeps :
      (id : String) (start : Time) (q : Outcome (Option Failure) × W)
      → P q.1
      → P (continue (conclude w id start) q).1
  concluded-keeps id start (returns e, x) p = conclude-keeps id start e x p
  concluded-keeps id start (panics, x) p = p

  pub after_insert-keeps :
      (start : Time) (n : Notification) (id : String) (e : Option Failure) (x : W)
      → P x
      → P (after_insert w start n id e x).1
  unfolding after_insert
  after_insert-keeps start n id (some e) x p = p
  after_insert-keeps start n id none x p =
      concluded-keeps id start (deliver w n x) (deliver-keeps n x p)

  pub after_check-keeps :
      (start : Time) (n : Notification) (r : Result Bool) (x : W)
      → P x
      → P (after_check w start n r x).1
  unfolding after_check attempt_delivery
  after_check-keeps start n (err e) x p = p
  after_check-keeps start n (ok true) x p = k.inc _ _ p
  after_check-keeps start n (ok false) x p =
      after_insert-keeps start n _ _ _ (k.insert _ refl _ (k.now _ (k.new_string _ p)))

  -- Whatever `process` does, and also where it panics.
  pub process-keeps : (n : Notification) (x : W) → P x → P (process w n x).1
  unfolding process
  process-keeps n x p = after_check-keeps _ n _ _ (k.exists_sent _ _ (k.now _ p))

-- A read keeps what the reader keeps.
module _ {W : Type 0} (P : W → Type 0) (c : Consumer W)
    (read : (x : W) → P x → P (c.reader.read_message x).1) where
  pub read_one-keeps : (x : W) → P x → P (read_one c x).1
  unfolding read_one
  read_one-keeps x p = elim (Result-cases (c.reader.read_message x).0) [
    | inr (e, q) ↦ rw (read_one, q) (read x p)
    | inl (m, q) ↦ elim (Option-cases (unmarshal c.formats m.value)) [
      | inl u ↦ rw (read_one, q, u) (read x p)
      | inr (n, u) ↦ rw (read_one, q, u) (read x p)
    ]
  ]

-- A loop whose reads and whose processing of a notification keep `P`.
module _ {W : Type 0} (w : Worker W) (P : W → Type 0) (c : Consumer W)
    (each : (n : Notification) (x : W) → P x → P (process w n x).1)
    (read : (x : W) → P x → P (c.reader.read_message x).1) where
  went_on :
      (rest : Exec W Bool)
      → ((x : W) → P x → P (rest x).1)
      → (q : Outcome (Option Failure) × W) → P q.1
      → P (continue (λ _. rest) q).1
  went_on rest later (returns e, y) p = later y p
  went_on rest later (panics, y) p = p

  after_read :
      (rounds : ℕ)
      → ((x : W) → P x → P (run w rounds c x).1)
      → (u : W) (q : Outcome (Result Notification) × W) → read_one c u ≡ q
      → P q.1
      → P (run w (suc rounds) c u).1
  unfolding run
  after_read rounds later u (returns (ok n), v) r p =
      rw r (went_on (run w rounds c) later (process w n v) (each n v p))
  after_read rounds later u (returns (err e), v) r p = elim (Bool-cases (ends w e)) [
    | inl q ↦ rw (r, q) p
    | inr q ↦ rw (r, q) (later v p)
  ]
  after_read rounds later u (panics, v) r p = rw r p

  -- However many rounds `Run` has made, and also where it panics.
  pub run-keeps : (rounds : ℕ) (x : W) → P x → P (run w rounds c x).1
  run-keeps zero x p = unfold run in p
  run-keeps (suc rounds) x p =
      after_read rounds (run-keeps rounds) x (read_one c x) refl (read_one-keeps P c read x p)
