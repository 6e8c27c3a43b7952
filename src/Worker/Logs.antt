-- ===== src/Worker/Logs.antt =====
-- What one call of `process` does to the tables.
use notification_system.Worker.Effects.{
  append_log, log_with, Accepts, Effect, skipped, unchecked, unlogged, crashed, delivered, failed,
}
use notification_system.Base.{
  String, Bool, true, false, Option, none, some, ◌≡◌, refl, sym, ◌∙◌, ◌⊎◌, subst, arith,
}
use notification_system.Failure.{Failure, Result, ok, err, text}
use notification_system.Effect.{Outcome, returns, panics, continue}
use notification_system.Domain.{Notification, DeliveryLog, Time, Status, status_sent, status_failed}
use notification_system.Retry.Keeps.{retry_do-keeps, retry_do-success}
use notification_system.Store.Tables.{Tables, apply, update_delivery_log, find_log, has_sent}
use notification_system.Store.Records.{set_delivery-last}
use notification_system.Worker.{
  Worker, delivery_log, deliver, conclude, after_insert, attempt_delivery, after_check, process,
}
use notification_system.Store.Contracts.{Executes-cases}
use notification_system.Worker.Laws.{WorkerLaws}

module _ {W : Type 0} (w : Worker W) (tables : W → Tables) (laws : WorkerLaws w tables)
    (n : Notification) where
  Effect-from :
      {t₀ t t' : Tables} {r : Outcome (Option Failure)}
      → t₀ ≡ t
      → Effect w n t₀ r t'
      → Effect w n t r t'
  Effect-from {t' = t'} {r = r} p = subst (λ t. Effect w n t r t') p

  pub update_cases :
      (id : String) (status : Status) (message : String) (x : W)
      → let y = (w.log_repo.update_delivery_status id status message x).1 in
        (tables y ≡ tables x)
        ⊎ (tables y ≡ apply (update_delivery_log status message id) (tables x))
  update_cases id status message x =
      Executes-cases tables _ x _ (laws.log_repo.update id status message x)

  -- In the tables `t` with the pending log of `id` at the end, an update by `id` sets that log.
  module _ (t : Tables) (id : String) (at : Time) (x : W)
      (fresh : find_log id t.delivery_logs ≡ none)
      (logged : tables x ≡ append_log t (delivery_log w id n at)) where
    updated :
        (status : Status) (message : String)
        → let y = (w.log_repo.update_delivery_status id status message x).1 in
          (tables y ≡ append_log t (delivery_log w id n at))
          ⊎ (tables y ≡ append_log t (log_with w id n at status message))
    unfolding apply
    updated status message = ground (
      arith,
      update_cases id status message x,
      set_delivery-last status message t.delivery_logs (delivery_log w id n at) fresh,
    )

    conclude-Effect :
        (start : Time) (e : Option Failure)
        → (e ≡ none → Accepts w n)
        → has_sent n.id t.delivery_logs ≡ false
        → let (r, y) = conclude w id start e x in Effect w n t r (tables y)
    unfolding conclude
    conclude-Effect start (some e) sent h =
        failed e id at h fresh refl (rw laws.runtime.inc_keeps (updated status_failed (text e)))
    conclude-Effect start none sent h = delivered (sent refl) id at h fresh refl (
        rw (laws.runtime.observe_keeps, laws.runtime.now_keeps, laws.runtime.inc_keeps)
          (updated status_sent ""))

    deliver-Accepts : (y : W) → deliver w n x ≡ (returns none, y) → Accepts w n
    unfolding deliver
    deliver-Accepts y h =
        let (k, u, p, e) =
          retry_do-success w.context w.retry_cfg
            (λ y. tables y ≡ append_log t (delivery_log w id n at)) (λ d y h. rw laws.wait_keeps h)
            (λ _. w.sender.send n) (λ _ y h. rw laws.send_keeps h) laws.tries logged h in
        (u, y, e)

    pub deliver-keeps : tables (deliver w n x).1 ≡ append_log t (delivery_log w id n at)
    unfolding deliver
    deliver-keeps =
        retry_do-keeps w.context w.retry_cfg (λ y. tables y ≡ append_log t (delivery_log w id n at))
          (λ d y h. rw laws.wait_keeps h) (λ _. w.sender.send n) (λ _ y h. rw laws.send_keeps h)
          laws.tries x logged

  module _ (t : Tables) (id : String) (at start : Time)
      (unsent : has_sent n.id t.delivery_logs ≡ false)
      (fresh : find_log id t.delivery_logs ≡ none) where
    concluded :
        (p : Outcome (Option Failure) × W)
        → ((y : W) → p ≡ (returns none, y) → Accepts w n)
        → tables p.1 ≡ append_log t (delivery_log w id n at)
        → let (r, y) = continue (conclude w id start) p in Effect w n t r (tables y)
    concluded (returns e, y) sent logged =
        conclude-Effect t id at y fresh logged start e (λ k. sent y (rw k refl)) unsent
    concluded (panics, y) sent logged = crashed id at unsent fresh refl logged

    after_insert-Effect :
        (x : W)
        → tables x ≡ append_log t (delivery_log w id n at)
        → let (r, y) = after_insert w start n id none x in Effect w n t r (tables y)
    unfolding after_insert
    after_insert-Effect x logged =
        concluded (deliver w n x) (deliver-Accepts t id at x fresh logged)
          (deliver-keeps t id at x fresh logged)

  -- The insert of the log, and what follows its reply.
  module _ (start : Time) (id : String) (at : Time) (x : W)
      (unsent : has_sent n.id (tables x).delivery_logs ≡ false) where
    abbrev row : DeliveryLog
    row = delivery_log w id n at

    inserted :
        (e : Option Failure)
        → (w.log_repo.insert row x).0 ≡ e
        → let (r, y) = after_insert w start n id e (w.log_repo.insert row x).1 in
          Effect w n (tables x) r (tables y)
    unfolding apply
    inserted none h =
        let (admissible, done) = (laws.log_repo.insert row x).nil h in
        after_insert-Effect (tables x) id at start unsent admissible.0 _ done
    inserted (some e) h =
        unfold after_insert in
        unlogged e id at unsent refl (Executes-cases tables _ x _ (laws.log_repo.insert row x))

  attempt_delivery-Effect :
      (start : Time) (x : W)
      → has_sent n.id (tables x).delivery_logs ≡ false
      → let (r, y) = attempt_delivery w start n x in Effect w n (tables x) r (tables y)
  unfolding attempt_delivery
  attempt_delivery-Effect start x unsent =
      let (id, x1) = w.runtime.new_string x in
      let (at, x2) = w.runtime.now x1 in
      let same : tables x2 ≡ tables x =
        laws.runtime.now_keeps x1 ∙ laws.runtime.new_string_keeps x in
      Effect-from same (inserted start id at x2 (rw same unsent) _ refl)

  after_check-Effect :
      (start : Time) (x : W) (found : Result Bool)
      → ((b : Bool) → found ≡ ok b → b ≡ has_sent n.id (tables x).delivery_logs)
      → let (r, y) = after_check w start n found x in Effect w n (tables x) r (tables y)
  unfolding after_check
  after_check-Effect start x (err e) h = unchecked e refl refl
  after_check-Effect start x (ok true) h =
      skipped (sym (h true refl)) refl (laws.runtime.inc_keeps _ x)
  after_check-Effect start x (ok false) h = attempt_delivery-Effect start x (sym (h false refl))

  -- Where no other process writes to the tables: `process` changes them in at most one place, one
  -- log that it appends under a new id. The log reads pending after a panic. After a delivery, whose
  -- nil comes only where the sender has returned nil, it reads sent, and after a failed send failed
  -- with the text of the error, unless the update did not go through and it still reads pending. A
  -- notification with a sent log is skipped, with nil. Every other row stays.
  pub process-Effect : (x : W) → let (r, y) = process w n x in Effect w n (tables x) r (tables y)
  unfolding process
  process-Effect x =
      let (start, x1) = w.runtime.now x in
      let (reply, x2) = w.log_repo.exists_sent n.id x1 in
      let kept : tables x2 ≡ tables x1 = laws.log_repo.exists_keeps n.id x1 in
      Effect-from (kept ∙ laws.runtime.now_keeps x)
        (after_check-Effect start x2 reply (λ b h. rw kept (laws.log_repo.exists_ok n.id x1 b h)))
