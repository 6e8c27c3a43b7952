-- ===== src/History/Typed.antt =====
-- Which words the rows of the tables hold.
use notification_system.Base.{
  String, true, List, [], ◌∷◌, ◌++◌, map, ◌≡◌, ◌⊎◌, inl, inr, ◌==◌, Bool-cases,
}
use notification_system.Domain.{
  Notification, DeliveryLog, Status, status_pending, status_sent, status_failed,
}
use notification_system.Store.Tables.{
  Tables, NotificationRow, row_of, apply, set_delivery, insert_notification, insert_delivery_log,
  update_delivery_log,
}
use notification_system.Api.Request.{valid_channel}

-- A row of `notifications` has one of the four channels, and is pending.
abbrev pub AllRows : List NotificationRow → Type 0
AllRows [] = Unit
AllRows (r ∷ rs) = ((valid_channel r.channel ≡ true) × (r.status ≡ status_pending)) × AllRows rs

-- A row of `delivery_logs` is pending, sent or failed.
abbrev pub AllLogs : List DeliveryLog → Type 0
AllLogs [] = Unit
AllLogs (l ∷ ls) =
    ((l.status ≡ status_pending) ⊎ ((l.status ≡ status_sent) ⊎ (l.status ≡ status_failed)))
    × AllLogs ls

abbrev pub IsTyped : Tables → Type 0
IsTyped t = AllRows t.notifications × AllLogs t.delivery_logs

AllRows-append : (rs ss : List NotificationRow) → AllRows rs → AllRows ss → AllRows (rs ++ ss)
AllRows-append [] ss a b = b
AllRows-append (r ∷ rs) ss (p, a) b = (p, AllRows-append rs ss a b)

AllLogs-append : (xs ys : List DeliveryLog) → AllLogs xs → AllLogs ys → AllLogs (xs ++ ys)
AllLogs-append [] ys a b = b
AllLogs-append (x ∷ xs) ys (p, a) b = (p, AllLogs-append xs ys a b)

AllLogs-map :
    (status : Status) (message id : String)
    → (status ≡ status_sent) ⊎ (status ≡ status_failed)
    → (xs : List DeliveryLog) → AllLogs xs
    → AllLogs (map (set_delivery status message id) xs)
unfolding set_delivery
AllLogs-map status message id s [] a = tt
AllLogs-map status message id s (x ∷ xs) (p, a) = elim (Bool-cases (x.id == id)) [
  | inl e ↦ rw e (inr s, AllLogs-map status message id s xs a)
  | inr e ↦ rw e (p, AllLogs-map status message id s xs a)
]

-- The statements of the workers, and the one of the handler.
pub IsTyped-log :
    (log : DeliveryLog) (t : Tables)
    → log.status ≡ status_pending
    → IsTyped t
    → IsTyped (apply (insert_delivery_log log) t)
unfolding apply
IsTyped-log log t s (rows, logs) =
    (rows, AllLogs-append t.delivery_logs (log ∷ []) logs (inl s, tt))

pub IsTyped-update :
    (status : Status) (message id : String) (t : Tables)
    → (status ≡ status_sent) ⊎ (status ≡ status_failed)
    → IsTyped t
    → IsTyped (apply (update_delivery_log status message id) t)
unfolding apply
IsTyped-update status message id t s (rows, logs) =
    (rows, AllLogs-map status message id s t.delivery_logs logs)

pub IsTyped-insert :
    (n : Notification) (t : Tables)
    → valid_channel n.channel ≡ true
    → n.status ≡ status_pending
    → IsTyped t
    → IsTyped (apply (insert_notification n) t)
unfolding apply row_of
IsTyped-insert n t v s (rows, logs) =
    (AllRows-append t.notifications (row_of n ∷ []) rows ((v, s), tt), logs)
