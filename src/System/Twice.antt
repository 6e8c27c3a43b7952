-- ===== src/System/Twice.antt =====
-- Two deliveries of one notification that are at work at once: the check of internal/worker/worker.go
-- for a sent log and the insert of the log are two statements.
use notification_system.Base.{false, none, some, List, ◌∷◌, ◌≡◌, ap, ◌∙◌}
use notification_system.Effect.{returns}
use notification_system.Domain.{Notification, Time}
use notification_system.Kafka.{Consumer}
use notification_system.Store.Tables.{
  Tables, NotificationRow, find_notification, find_log, has_sent,
}
use notification_system.Worker.{Worker}
use notification_system.Worker.Effects.{append_log}
use notification_system.Worker.Laws.{WorkerLaws}
use notification_system.Worker.Settled.{Answering}
use notification_system.Worker.Interleaving.{Stage, arrived, unsent, ended, Step}
use notification_system.Api.Handler.{Handler}
use notification_system.System.{Thread, delivery, delivers, Turn, first, later, Reach, advance}
use notification_system.Worker.Interleaving.Sole.{
  next_id, concluded, sent_log, passes, concluded-tables, logs, tries, finishes,
}

module _ {W : Type 0} (w : Worker W) (tables : W → Tables) (laws : WorkerLaws w tables)
    (answering : Answering w tables) (n : Notification) (start : Time) (y : W)
    (row : NotificationRow) (known : find_notification n.id (tables y).notifications ≡ some row)
    (fresh : find_log (next_id w n start y) (tables y).delivery_logs ≡ none)
    (accepts : (z : W) → (w.sender.send n z).0 ≡ returns none) where
  -- The delivery goes from its check to its end, wherever it stands among the threads.
  ends_at :
      (h : Handler W) (Runs : Worker W → Consumer W → Type 0) (x : W)
      (threads : Stage → List (Thread W))
      → ((u v : W) (s s' : Stage)
          → Step w n start u v s s'
          → Turn h Runs u v (threads s) (threads s'))
      → Reach h Runs x (threads unsent) y
      → Reach h Runs x
          (threads (ended (some (next_id w n start y)) (returns none)))
          (concluded w n start y)
  ends_at h Runs x threads place r =
      advance
        (advance
          (advance r
            (place _ _ _ _ (logs w tables laws answering n start y row known fresh accepts)))
          (place _ _ _ _ (tries w tables laws answering n start y row known fresh accepts)))
        (place _ _ _ _ (finishes w tables laws answering n start y row known fresh accepts))

module _ {W : Type 0} (w w' : Worker W) (n : Notification) (start : Time) where
  -- The worlds after both checks, and after the first delivery.
  abbrev pub both : W → W
  both u = (w'.log_repo.exists_sent n.id (w.log_repo.exists_sent n.id u).1).1

  abbrev pub one : W → W
  one u = concluded w n start (both u)

module _ {W : Type 0} (h : Handler W) (Runs : Worker W → Consumer W → Type 0) (tables : W → Tables)
    (w w' : Worker W) (laws : WorkerLaws w tables) (laws' : WorkerLaws w' tables)
    (answering : Answering w tables) (answering' : Answering w' tables) (n : Notification)
    (start start' : Time) where
  -- A notification that is not sent yet, and that two workers have read before either of them has
  -- concluded, may be sent by both: from every state in which both deliveries have arrived, and in
  -- which the store answers, both providers accept it and the identifiers of the logs are new, the
  -- steps can lie so that both deliveries answer nil and each leaves a log of it that reads sent.
  pub Reach-Twice :
      (x u : W) (ts : List (Thread W)) (row : NotificationRow)
      → has_sent n.id (tables u).delivery_logs ≡ false
      → find_notification n.id (tables u).notifications ≡ some row
      → find_log (next_id w n start (both w w' n start u)) (tables u).delivery_logs ≡ none
      → find_log
          (next_id w' n start' (one w w' n start u))
          (tables (one w w' n start u)).delivery_logs
        ≡ none
      → ((z : W) → (w.sender.send n z).0 ≡ returns none)
      → ((z : W) → (w'.sender.send n z).0 ≡ returns none)
      → Reach h Runs x (delivery w n start arrived ∷ delivery w' n start' arrived ∷ ts) u
      → let v = concluded w' n start' (one w w' n start u) in
        Reach h Runs x
          (delivery w n start
              (ended (some (next_id w n start (both w w' n start u))) (returns none))
            ∷ delivery w' n start'
                (ended (some (next_id w' n start' (one w w' n start u))) (returns none))
            ∷ ts)
          v
        × (tables v
            ≡ append_log
                (append_log (tables u) (sent_log w n start (both w w' n start u)))
                (sent_log w' n start' (one w w' n start u)))
  Reach-Twice x u ts row unsent' known fresh fresh' accepts accepts' r =
      let kept1 : tables (w.log_repo.exists_sent n.id u).1 ≡ tables u =
        laws.log_repo.exists_keeps n.id u in
      let kept : tables (both w w' n start u) ≡ tables u =
        laws'.log_repo.exists_keeps n.id _ ∙ kept1 in
      let known_both : find_notification n.id (tables (both w w' n start u)).notifications
          ≡ some row =
        rw kept known in
      let fresh_both : find_log (next_id w n start (both w w' n start u))
            (tables (both w w' n start u)).delivery_logs
          ≡ none =
        rw kept fresh in
      let after : tables (one w w' n start u)
          ≡ append_log (tables u) (sent_log w n start (both w w' n start u)) =
        concluded-tables w tables laws answering n start (both w w' n start u) row known_both
          fresh_both accepts
        ∙ ap (λ t. append_log t (sent_log w n start (both w w' n start u))) kept in
      let known_one : find_notification n.id (tables (one w w' n start u)).notifications
          ≡ some row =
        rw after known in
      let checked1 =
        advance r (first (delivers (passes w tables laws answering n start u unsent'))) in
      let checked2 = advance checked1 (
        later (
          first (
            delivers (
              passes w' tables laws' answering' n start' (w.log_repo.exists_sent n.id u).1
                (rw kept1 unsent'))))) in
      let half =
        ends_at w tables laws answering n start (both w w' n start u) row known_both fresh_both
          accepts h Runs x (λ s. delivery w n start s ∷ delivery w' n start' unsent ∷ ts)
          (λ a b s s' m. first (delivers m)) checked2 in
      (
        ends_at w' tables laws' answering' n start' (one w w' n start u) row known_one fresh'
            accepts' h Runs x
            (λ s.
              delivery w n start
                (ended (some (next_id w n start (both w w' n start u))) (returns none))
              ∷ delivery w' n start' s
              ∷ ts)
            (λ a b s s' m. later (first (delivers m))) half,
        concluded-tables w' tables laws' answering' n start' (one w w' n start u) row known_one
              fresh' accepts'
            ∙ ap (λ t. append_log t (sent_log w' n start' (one w w' n start u))) after,
      )
