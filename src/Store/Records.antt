-- ===== src/Store/Records.antt =====
-- What the statements of the store leave in the tables: lookups after an append or an update.
use notification_system.Base.{
  String, ◌||◌, ◌&&◌, ◌==◌, eq_iff, none, some, List, [], ◌∷◌, ◌++◌, map, ◌≡◌, arith,
}
use notification_system.Domain.{DeliveryLog, Status, status_sent}
use notification_system.Store.Tables.{
  NotificationRow, find_notification, find_log, has_sent, set_delivery,
}

pub find_notification-append :
    (id : String) (rs : List NotificationRow) (r : NotificationRow)
    → find_notification id rs ≡ none
    → r.id ≡ id
    → find_notification id (rs ++ r ∷ []) ≡ some r
unfolding find_notification
find_notification-append id [] r h e = ground (arith, eq_iff r.id id)
find_notification-append id (x ∷ xs) r h e =
    ground (arith, eq_iff x.id id, find_notification-append id xs r)

pub has_sent-append :
    (id : String) (xs : List DeliveryLog) (r : DeliveryLog)
    → has_sent id (xs ++ r ∷ [])
      ≡ (has_sent id xs || r.notification_id == id && r.status == status_sent)
unfolding has_sent
has_sent-append id [] r = ground arith
has_sent-append id (x ∷ xs) r = ground (arith, has_sent-append id xs r)

-- An update by the id of the last row changes that row alone.
pub set_delivery-last :
    (status : Status) (message : String) (xs : List DeliveryLog) (r : DeliveryLog)
    → find_log r.id xs ≡ none
    → map (set_delivery status message r.id) (xs ++ r ∷ [])
      ≡ xs ++ record r { status = status; error_message = message } ∷ []
unfolding set_delivery find_log
set_delivery-last status message [] r h = ground (arith, eq_iff r.id r.id)
set_delivery-last status message (x ∷ xs) r h =
    ground (arith, set_delivery-last status message xs r)

-- A notification that is found stays the one that is found when another is added.
pub find_notification-stays :
    (id : String) (rs : List NotificationRow) (s r : NotificationRow)
    → find_notification id rs ≡ some r
    → find_notification id (rs ++ s ∷ []) ≡ some r
unfolding find_notification
find_notification-stays id [] s r h = absurd (cc)
find_notification-stays id (x ∷ xs) s r h = ground (arith, find_notification-stays id xs s r)
