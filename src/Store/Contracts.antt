-- ===== src/Store/Contracts.antt =====
-- What the clients of the repositories rely on, and that the store provides it.
use mathlib.Core.Option
use notification_system.Base.{String, Bool, Option, none, some, ◌≡◌, ◌⊎◌, inl, inr, Option-cases}
use notification_system.Failure.{Failure, Result, ok, err}
use notification_system.Domain.{Notification, DeliveryLog, Status}
use notification_system.Domain.Repository.{NotificationRepository, DeliveryLogRepository}
use notification_system.Store.{
  wrap_failure, exists_reply, found_reply, save, find_by_id, update_status, insert,
  update_delivery_status, exists_sent, notifications, delivery_logs,
}
use notification_system.Store.Connection.{Pool}
use notification_system.Store.Laws.{PoolLaws}
use notification_system.Store.Tables.{
  Tables, Statement, apply, Admissible, insert_notification, update_notification,
  insert_delivery_log, update_delivery_log, find_notification, scan_notification, has_sent,
}

module _ {W : Type 0} (tables : W → Tables) where
  -- The statement was executed where there is no error; where there is one it was executed or not.
  pub record Executes (s : Statement) (x : W) (q : Option Failure × W) : Type 0 where
    pub nil : q.0 ≡ none → Admissible s (tables x) × (tables q.1 ≡ apply s (tables x))
    pub failed :
        (e : Failure)
        → q.0 ≡ some e
        → (tables q.1 ≡ tables x) ⊎ (Admissible s (tables x) × (tables q.1 ≡ apply s (tables x)))

  -- Either way the tables are as before, or as the statement makes them.
  pub Executes-cases :
      (s : Statement) (x : W) (q : Option Failure × W)
      → Executes s x q
      → (tables q.1 ≡ tables x) ⊎ (tables q.1 ≡ apply s (tables x))
  Executes-cases s x q e = elim (Option-cases q.0) [
    | inl h ↦ inr ((e.nil h).1)
    | inr (f, h) ↦ elim (e.failed f h) [ inl same ↦ inl same | inr (_, done) ↦ inr done ]
  ]

  pub record DeliveryLogLaws (repo : DeliveryLogRepository W) : Type 0 where
    pub insert :
        (log : DeliveryLog) (x : W) → Executes (insert_delivery_log log) x (repo.insert log x)
    pub update :
        (id : String) (status : Status) (message : String) (x : W)
        → Executes
            (update_delivery_log status message id)
            x
            (repo.update_delivery_status id status message x)
    pub exists_keeps : (id : String) (x : W) → tables (repo.exists_sent id x).1 ≡ tables x
    pub exists_ok :
        (id : String) (x : W) (found : Bool)
        → (repo.exists_sent id x).0 ≡ ok found
        → found ≡ has_sent id (tables x).delivery_logs

  pub record NotificationLaws (repo : NotificationRepository W) : Type 0 where
    pub save : (n : Notification) (x : W) → Executes (insert_notification n) x (repo.save n x)
    pub update :
        (id : String) (status : Status) (x : W)
        → Executes (update_notification status id) x (repo.update_status id status x)
    pub find_keeps : (id : String) (x : W) → tables (repo.find_by_id id x).1 ≡ tables x
    pub find_ok :
        (id : String) (x : W) (n : Notification)
        → (repo.find_by_id id x).0 ≡ ok n
        → Option.bind (find_notification id (tables x).notifications) scan_notification ≡ some n

module _ {W : Type 0} (pool : Pool W) (tables : W → Tables) (laws : PoolLaws pool tables) where
  execute-Executes :
      (prefix : String) (s : Statement) (x : W)
      → Executes tables s x (wrap_failure prefix (pool.exec s x).0, (pool.exec s x).1)
  execute-Executes prefix s x = elim (Option-cases (pool.exec s x).0) [
    | inl e ↦ record { nil = λ h. laws.exec_ok s x e; failed = λ f h. absurd (cc (rw e at h)) }
    | inr (f, e) ↦ record {
      nil = λ h. absurd (cc (rw e at h));
      failed = λ g h. laws.exec_err s x f e;
    }
  ]

  exists_reply-ok : (r : Result Bool) (found : Bool) → exists_reply r ≡ ok found → r ≡ ok found
  unfolding exists_reply
  exists_reply-ok (ok b) found h = h
  exists_reply-ok (err e) found h = absurd (cc)

  pub found_reply-ok :
      {A : Type 0} (method id : String) (r : Result A) (a : A)
      → found_reply method id r ≡ ok a
      → r ≡ ok a
  unfolding found_reply
  found_reply-ok method id (ok b) a h = h
  found_reply-ok method id (err e) a h = absurd (cc)

  -- Where the pool executes each statement that it reports no error for, executes or drops one that
  -- it reports an error for, and answers queries from the tables: the store is what its clients
  -- expect behind both interfaces.
  pub store-Laws :
      NotificationLaws tables (notifications pool) × DeliveryLogLaws tables (delivery_logs pool)
  unfolding save find_by_id update_status insert update_delivery_status exists_sent
  store-Laws = (
    record {
      save = λ n x. execute-Executes _ (insert_notification n) x;
      update = λ id status x. execute-Executes _ (update_notification status id) x;
      find_keeps = λ id x. laws.notification_keeps id x;
      find_ok = λ id x n h. laws.notification_ok id x n (found_reply-ok _ id _ n h);
    },
    record {
      insert = λ log x. execute-Executes _ (insert_delivery_log log) x;
      update = λ id status message x. execute-Executes _ (update_delivery_log status message id) x;
      exists_keeps = λ id x. laws.exists_keeps id x;
      exists_ok = λ id x found h. laws.exists_ok id x found (exists_reply-ok _ found h);
    },
  )
