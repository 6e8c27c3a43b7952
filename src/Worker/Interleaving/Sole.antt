-- ===== src/Worker/Interleaving/Sole.antt =====
-- One delivery of internal/worker/worker.go that nothing disturbs after its check for a sent log, where
-- the store answers and the provider accepts: the worlds that it passes, and what it leaves.
use notification_system.Base.{String, false, none, some, ◌≡◌, refl, ap, ◌∙◌}
use notification_system.Failure.{ok}
use notification_system.Effect.{returns}
use notification_system.Domain.{Notification, DeliveryLog, Time, status_sent}
use notification_system.Store.Tables.{
  Tables, NotificationRow, apply, find_notification, find_log, has_sent,
}
use notification_system.Worker.{Worker, delivery_log, deliver, conclude}
use notification_system.Worker.Effects.{append_log, log_with}
use notification_system.Worker.Laws.{WorkerLaws}
use notification_system.Worker.Settled.{Answering, deliver-nil, concluded_as}
use notification_system.Worker.Logs.{deliver-keeps}
use notification_system.Worker.Interleaving.{
  arrived, unsent, logged, tried, ended, Step, check, log, try, succeed,
}

-- The worlds that a delivery passes from the world `y` on, after its check, when nothing comes in
-- between; the identifier and the time of its log.
module _ {W : Type 0} (w : Worker W) (n : Notification) (start : Time) where
  abbrev pub next_id : W → String
  next_id y = (w.runtime.new_string y).0

  abbrev pub next_time : W → Time
  next_time y = (w.runtime.now (w.runtime.new_string y).1).0

  abbrev pub inserted : W → W
  inserted y =
      (w.log_repo.insert (delivery_log w (next_id y) n (next_time y))
        (w.runtime.now (w.runtime.new_string y).1).1).1

  abbrev pub delivered : W → W
  delivered y = (deliver w n (inserted y)).1

  abbrev pub concluded : W → W
  concluded y = (conclude w (next_id y) start none (delivered y)).1

  -- The log that the delivery leaves.
  abbrev pub sent_log : W → DeliveryLog
  sent_log y = log_with w (next_id y) n (next_time y) status_sent ""

module _ {W : Type 0} (w : Worker W) (tables : W → Tables) (laws : WorkerLaws w tables)
    (answering : Answering w tables) (n : Notification) (start : Time) where
  abbrev pub checked : W → W
  checked y = (w.log_repo.exists_sent n.id y).1

  pub passes :
      (y : W)
      → has_sent n.id (tables y).delivery_logs ≡ false
      → Step w n start y (checked y) arrived unsent
  passes y unsent' =
      let (b, e) = answering.checks n.id y in
      let no : b ≡ false = laws.log_repo.exists_ok n.id y b e ∙ unsent' in
      check (ap (λ r. (r, checked y)) (e ∙ ap ok no))

  module _ (y : W) (row : NotificationRow)
      (known : find_notification n.id (tables y).notifications ≡ some row)
      (fresh : find_log (next_id w n start y) (tables y).delivery_logs ≡ none)
      (accepts : (z : W) → (w.sender.send n z).0 ≡ returns none) where
    ready-tables : tables (w.runtime.now (w.runtime.new_string y).1).1 ≡ tables y
    ready-tables = laws.runtime.now_keeps _ ∙ laws.runtime.new_string_keeps y

    insert-nil :
        (w.log_repo.insert
          (delivery_log w (next_id w n start y) n (next_time w n start y))
          (w.runtime.now (w.runtime.new_string y).1).1).0
        ≡ none
    insert-nil = answering.inserts _ _ (rw ready-tables fresh, (row, rw ready-tables known))

    inserted-tables :
        tables (inserted w n start y)
        ≡ append_log (tables y) (delivery_log w (next_id w n start y) n (next_time w n start y))
    unfolding apply
    inserted-tables =
        ((laws.log_repo.insert _ (w.runtime.now (w.runtime.new_string y).1).1).nil insert-nil).1
        ∙ ap (λ t. append_log t (delivery_log w (next_id w n start y) n (next_time w n start y)))
            ready-tables

    delivered-nil : deliver w n (inserted w n start y) ≡ (returns none, delivered w n start y)
    delivered-nil =
        ap (λ o. (o, delivered w n start y))
          (deliver-nil w tables laws answering n (inserted w n start y) (accepts _))

    pub concluded-tables :
        tables (concluded w n start y) ≡ append_log (tables y) (sent_log w n start y)
    concluded-tables =
        (concluded_as w tables laws answering n (tables y) (next_id w n start y)
          (next_time w n start y) start fresh (returns none, delivered w n start y)
          (deliver-keeps w tables laws n (tables y) (next_id w n start y) (next_time w n start y)
            (inserted w n start y) fresh inserted-tables)).1

    -- The three steps after the check.
    pub logs : Step w n start y (inserted w n start y) unsent (logged (next_id w n start y))
    logs = log _ _ _ _ refl refl (ap (λ e. (e, inserted w n start y)) insert-nil)

    pub tries :
        Step w n start
          (inserted w n start y)
          (delivered w n start y)
          (logged (next_id w n start y))
          (tried (next_id w n start y) none)
    tries = try none delivered-nil

    pub finishes :
        Step w n start
          (delivered w n start y)
          (concluded w n start y)
          (tried (next_id w n start y) none)
          (ended (some (next_id w n start y)) (returns none))
    unfolding conclude
    finishes = succeed _ _ refl refl refl
