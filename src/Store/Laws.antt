-- ===== src/Store/Laws.antt =====
-- What the program relies on of PostgreSQL and its driver.
use mathlib.Core.Option
use notification_system.Base.{String, Bool, true, none, some, ◌≡◌, ◌⊎◌}
use notification_system.Failure.{Failure, no_rows, is, ok, err}
use notification_system.Domain.{Notification, User, UserPreferences}
use notification_system.Store.Tables.{
  Tables, Statement, apply, Admissible, find_notification, has_sent, find_user, find_row_of,
  scan_notification, scan_user, scan_preferences,
}
use notification_system.Store.Connection.{Pool}

-- `tables w` are the committed tables in the world `w`. A statement that reports no error was
-- executed; one that reports an error was executed or not (the connection may break after the
-- commit). A query changes no row, and answers from the tables.
pub record PoolLaws {W : Type 0} (pool : Pool W) (tables : W → Tables) : Type 0 where
  pub exec_ok :
      (s : Statement) (w : W)
      → (pool.exec s w).0 ≡ none
      → Admissible s (tables w) × (tables (pool.exec s w).1 ≡ apply s (tables w))
  pub exec_err :
      (s : Statement) (w : W) (e : Failure)
      → (pool.exec s w).0 ≡ some e
      → (tables (pool.exec s w).1 ≡ tables w)
        ⊎ (Admissible s (tables w) × (tables (pool.exec s w).1 ≡ apply s (tables w)))
  pub exists_keeps : (id : String) (w : W) → tables (pool.query_exists_sent id w).1 ≡ tables w
  pub exists_ok :
      (id : String) (w : W) (found : Bool)
      → (pool.query_exists_sent id w).0 ≡ ok found
      → found ≡ has_sent id (tables w).delivery_logs
  pub notification_keeps :
      (id : String) (w : W) → tables (pool.query_notification id w).1 ≡ tables w
  pub notification_ok :
      (id : String) (w : W) (n : Notification)
      → (pool.query_notification id w).0 ≡ ok n
      → Option.bind (find_notification id (tables w).notifications) scan_notification ≡ some n
  pub notification_no_rows :
      (id : String) (w : W) (e : Failure)
      → (pool.query_notification id w).0 ≡ err e
      → is e no_rows ≡ true
      → find_notification id (tables w).notifications ≡ none
  pub user_keeps : (id : String) (w : W) → tables (pool.query_user id w).1 ≡ tables w
  pub user_ok :
      (id : String) (w : W) (u : User)
      → (pool.query_user id w).0 ≡ ok u
      → Option.bind (find_user id (tables w).users) scan_user ≡ some u
  pub preferences_keeps : (id : String) (w : W) → tables (pool.query_preferences id w).1 ≡ tables w
  pub preferences_ok :
      (id : String) (w : W) (p : UserPreferences)
      → (pool.query_preferences id w).0 ≡ ok p
      → Option.bind (find_row_of id (tables w).user_preferences) scan_preferences ≡ some p
  pub preferences_no_rows :
      (id : String) (w : W) (e : Failure)
      → (pool.query_preferences id w).0 ≡ err e
      → is e no_rows ≡ true
      → find_row_of id (tables w).user_preferences ≡ none
