-- ===== src/Api/Handler/Status.antt =====
-- What GET answers about a notification, before and after its delivery.
use mathlib.Core.Option
use notification_system.Base.{String, ◌≡◌, sym, ap, ◌∙◌, some_inj, arith}
use notification_system.Failure.{ok}
use notification_system.Domain.{Notification}
use notification_system.Store.Tables.{Tables, find_notification, scan_notification}
use notification_system.Store.Contracts.{NotificationLaws}
use notification_system.Worker.{Worker, process}
use notification_system.Worker.Laws.{WorkerLaws}
use notification_system.Worker.Effects.{Effect-notifications}
use notification_system.Worker.Logs.{process-Effect}
use notification_system.Api.Handler.{Handler, get_notification_status}

module _ {W : Type 0} (h : Handler W) (w : Worker W) (tables : W → Tables)
    (repo : NotificationLaws tables h.notif_repo) (laws : WorkerLaws w tables) where
  same_record :
      (id : String) (a b : Notification) (x y : W)
      → (tables y).notifications ≡ (tables x).notifications
      → (h.notif_repo.find_by_id id x).0 ≡ ok a
      → (h.notif_repo.find_by_id id y).0 ≡ ok b
      → a ≡ b
  same_record id a b x y k p q =
      let found = repo.find_ok id x a p in
      let again = repo.find_ok id y b q in
      some_inj (
        sym found
        ∙ (ap (λ rs. Option.bind (find_notification id rs) scan_notification) (sym k) ∙ again))

  answers :
      (id : String) (a b : Notification) (x y : W)
      → a ≡ b
      → (h.notif_repo.find_by_id id x).0 ≡ ok a
      → (h.notif_repo.find_by_id id y).0 ≡ ok b
      → (get_notification_status h id y).0 ≡ (get_notification_status h id x).0
  unfolding get_notification_status
  answers id a b x y e p q = ground arith

  -- Where no other process writes to the tables and both lookups find the record: after the worker
  -- has processed a notification, GET answers what it answered before, whatever the delivery did.
  pub get_notification_status-process :
      (id : String) (n a b : Notification) (x : W)
      → let y = (process w n x).1 in
        (h.notif_repo.find_by_id id x).0 ≡ ok a
        → (h.notif_repo.find_by_id id y).0 ≡ ok b
        → (get_notification_status h id y).0 ≡ (get_notification_status h id x).0
  get_notification_status-process id n a b x p q =
      let y = (process w n x).1 in
      let kept : (tables y).notifications ≡ (tables x).notifications =
        Effect-notifications w n (process-Effect w tables laws n x) in
      answers id a b x y (same_record id a b x y kept p q) p q
