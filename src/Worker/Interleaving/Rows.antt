-- ===== src/Worker/Interleaving/Rows.antt =====
-- One log among changes of others.
use notification_system.Base.{
  String, false, ◌==◌, eq_iff, eq_refl, none, some, List, [], ◌∷◌, ◌++◌, map, ◌≡◌, refl, arith,
}
use notification_system.Domain.{DeliveryLog, Status}
use notification_system.Store.Tables.{Tables, find_log, set_delivery}
use notification_system.Worker.Interleaving.{Other, same, added, changed}

-- A log that is there stays the one that is found when another is added.
find_log-append :
    (id : String) (rs : List DeliveryLog) (l r : DeliveryLog)
    → find_log id rs ≡ some r
    → find_log id (rs ++ l ∷ []) ≡ some r
unfolding find_log
find_log-append id [] l r h = absurd (cc)
find_log-append id (x ∷ xs) l r h = ground (arith, find_log-append id xs l r)

pub find_log-new :
    (rs : List DeliveryLog) (l : DeliveryLog)
    → find_log l.id rs ≡ none
    → find_log l.id (rs ++ l ∷ []) ≡ some l
unfolding find_log
find_log-new [] l h = ground (arith, eq_refl l.id)
find_log-new (x ∷ xs) l h = ground (arith, find_log-new xs l)

pub find_log-other :
    (id j : String) (status : Status) (message : String) (rs : List DeliveryLog)
    → (j == id) ≡ false
    → find_log id (map (set_delivery status message j) rs) ≡ find_log id rs
unfolding find_log set_delivery
find_log-other id j status message [] h = refl
find_log-other id j status message (x ∷ xs) h =
    ground
      (arith, find_log-other id j status message xs h, eq_iff x.id id, eq_iff x.id j, eq_refl id)

pub find_log-own :
    (id : String) (status : Status) (message : String) (rs : List DeliveryLog) (r : DeliveryLog)
    → find_log id rs ≡ some r
    → find_log id (map (set_delivery status message id) rs)
      ≡ some (record r { status = status; error_message = message })
unfolding find_log set_delivery
find_log-own id status message [] r h = absurd (cc)
find_log-own id status message (x ∷ xs) r h = ground (arith, find_log-own id status message xs r)

pub Other-find_log :
    (id : String) (r : DeliveryLog) (t t' : Tables)
    → Other id t t'
    → find_log id t.delivery_logs ≡ some r
    → find_log id t'.delivery_logs ≡ some r
Other-find_log id r t t' (same k) h = rw k h
Other-find_log id r t t' (added l q k) h = rw k (find_log-append id t.delivery_logs l r h)
Other-find_log id r t t' (changed j status message q k) h =
    rw (k, find_log-other id j status message t.delivery_logs q) h
