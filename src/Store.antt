-- ===== src/Store.antt =====
-- internal/store/postgres.go: the methods of `Store`. The connection pool is a parameter; what the
-- statements do to the tables is in Store/Tables, and what is assumed of the pool in Store/Laws.
pub mod Tables
pub mod Connection
pub mod Laws
pub mod Records
pub mod Contracts
pub mod Opening
use mathlib.Core.Option
use notification_system.Base.{String, Bool, true, Option, ◌<>◌, if◌then◌else◌}
use notification_system.Failure.{Failure, Sentinel, no_rows, other, wrap, is, Result, ok, err}
use notification_system.Domain.Repository.{NotificationRepository, DeliveryLogRepository}
use notification_system.Domain.{Notification, User, UserPreferences, DeliveryLog, Status}
use Tables.{
  Statement, insert_notification, update_notification, insert_delivery_log, update_delivery_log,
  create_schema,
}
use Connection.{Pool}

-- `if err != nil { return fmt.Errorf("…: %w", err) }`, and nil otherwise.
abbrev pub wrap_failure : String → Option Failure → Option Failure
wrap_failure prefix = Option.map (wrap prefix)

-- A missing row has an error of its own.
abbrev pub found_or : String → String → Failure → Failure
found_or method id e =
    if is e no_rows then other (method <> ": not found: " <> id) else wrap method e

-- What a method makes of the reply of the pool.
unfoldable pub exists_reply : Result Bool → Result Bool
exists_reply (ok found) = ok found
exists_reply (err e) = err (wrap "store.ExistsSent" e)

unfoldable pub found_reply {ℓ} : {A : Type ℓ} → String → String → Result A → Result A
found_reply method id (ok a) = ok a
found_reply method id (err e) = err (found_or method id e)

-- No row of preferences means that every channel is enabled.
unfoldable pub preferences_reply : String → Result UserPreferences → Result UserPreferences
preferences_reply user_id (ok p) = ok p
preferences_reply user_id (err e) =
    if is e no_rows
    then ok (record {
      user_id = user_id;
      email_enabled = true;
      sms_enabled = true;
      push_enabled = true;
    })
    else err (wrap "store.FindPreferences" e)

module _ {W : Type 0} (pool : Pool W) where
  -- A statement, with its error wrapped.
  abbrev execute : String → Statement → W → Option Failure × W
  execute prefix s w = let (e, x) = pool.exec s w in (wrap_failure prefix e, x)

  unfoldable pub save : Notification → W → Option Failure × W
  save n = execute "store.Save" (insert_notification n)

  unfoldable pub find_by_id : String → W → Result Notification × W
  find_by_id id w =
      let (r, x) = pool.query_notification id w in (found_reply "store.FindByID" id r, x)

  unfoldable pub update_status : String → Status → W → Option Failure × W
  update_status id status = execute "store.UpdateStatus" (update_notification status id)

  unfoldable pub insert : DeliveryLog → W → Option Failure × W
  insert log = execute "store.Insert delivery log" (insert_delivery_log log)

  unfoldable pub update_delivery_status : String → Status → String → W → Option Failure × W
  update_delivery_status id status message =
      execute "store.UpdateDeliveryStatus" (update_delivery_log status message id)

  unfoldable pub exists_sent : String → W → Result Bool × W
  exists_sent notification_id w =
      let (r, x) = pool.query_exists_sent notification_id w in (exists_reply r, x)

  unfoldable pub find_user_by_id : String → W → Result User × W
  find_user_by_id id w =
      let (r, x) = pool.query_user id w in (found_reply "store.FindUserByID" id r, x)

  unfoldable pub find_preferences : String → W → Result UserPreferences × W
  find_preferences user_id w =
      let (r, x) = pool.query_preferences user_id w in (preferences_reply user_id r, x)

  unfoldable pub migrate : W → Option Failure × W
  migrate = execute "migrate" create_schema

  -- The store behind the interfaces of the domain.
  abbrev pub notifications : NotificationRepository W
  notifications = record { save = save; find_by_id = find_by_id; update_status = update_status }

  abbrev pub delivery_logs : DeliveryLogRepository W
  delivery_logs = record {
    insert = insert;
    update_delivery_status = update_delivery_status;
    exists_sent = exists_sent;
  }
