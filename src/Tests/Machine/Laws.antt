-- ===== src/Tests/Machine/Laws.antt =====
-- The libraries in memory satisfy the laws that the theorems on the two processes assume.
use notification_system.Base.{String, ◌≡◌, refl, arith, subst}
use notification_system.Failure.{is, Result, ok, err}
use notification_system.Domain.{Notification}
use notification_system.Sender.{
  Sender, apns_send, fcm_send, sms_send, email_send, apns_sender, fcm_sender, sms_sender,
  email_sender,
}
use notification_system.Store.Connection.{Pool}
use notification_system.Store.Opening.Origin.{Made}
use notification_system.Store.{insert, update_delivery_status, exists_sent, delivery_logs}
use notification_system.Store.Tables.{Statement, insert_delivery_log, update_delivery_log}
use notification_system.Worker.{new_worker}
use notification_system.Worker.Keeps.{Keeps}
use notification_system.Worker.Draining.{Bounded, Drains}
use notification_system.Server.Laws.{IsSteady, PlatformLaws}
use notification_system.WorkerProcess.{all_senders}
use notification_system.WorkerProcess.Starting.{consumer_for}
use notification_system.WorkerProcess.Stopping.{StoppingLaws}
use notification_system.Tests.Memory.{unary_times}
use notification_system.Tests.Machine.{
  IsStopping, Machine, answering_machine, blank_pool, late_reads, machine_broker, machine_driver,
  machine_runtime, server_machine, worker_machine,
}

abbrev opened : Result (Pool Machine) → Pool Machine
opened (ok pool) = pool
opened (err e) = blank_pool

pub server_machine-laws : PlatformLaws server_machine (λ w. w.held)
server_machine-laws = record {
  pool_opened = λ c w pool e. refl;
  pool_refused = λ c w e h. absurd (cc);
  pool_closed = λ pool w. refl;
  pool_ping = λ pool w. refl;
  pool_steady = λ c w pool e. subst (λ r. IsSteady (λ x. x.held) (opened r)) e (λ s x. refl);
  client_opened = λ c w. refl;
  client_closed = λ rdb w. refl;
  client_ping = λ rdb w. refl;
  writer_opened = λ addr w. refl;
  writer_closed = λ b w. refl;
  listen_keeps = λ s w. refl;
  shutdown_keeps = λ s w. refl;
}

pub answering_machine-laws : PlatformLaws answering_machine (λ w. w.held)
answering_machine-laws = record {
  pool_opened = λ c w pool e. refl;
  pool_refused = λ c w e h. absurd (cc);
  pool_closed = λ pool w. refl;
  pool_ping = λ pool w. refl;
  pool_steady = server_machine-laws.pool_steady;
  client_opened = λ c w. refl;
  client_closed = λ rdb w. refl;
  client_ping = λ rdb w. refl;
  writer_opened = λ addr w. refl;
  writer_closed = λ b w. refl;
  listen_keeps = λ s w. refl;
  shutdown_keeps = λ s w. refl;
}

module _ (db : Pool Machine) (steady : (s : Statement) (x : Machine) → (db.exec s x).1 ≡ x)
    (quiet : (id : String) (x : Machine) → (db.query_exists_sent id x).1 ≡ x)
    (sender : Sender Machine) (sends : (n : Notification) (x : Machine) → (sender.send n x).1 ≡ x)
    (channel : String) (address : String) where
  machine-Keeps :
      (P : Machine → Type 0)
      → Keeps (new_worker machine_runtime (delivery_logs db) worker_machine.context sender) P
  unfolding insert update_delivery_status exists_sent
  machine-Keeps P = record {
    new_string = λ x p. p;
    now = λ x p. p;
    inc = λ m x p. p;
    observe = λ m t x p. p;
    insert = λ log i x p. rw (steady (insert_delivery_log log) x) p;
    update = λ id status message i x p. rw (steady (update_delivery_log status message id) x) p;
    exists_sent = λ id x p. rw (quiet id x) p;
    wait = λ d x p. p;
    send = λ n x p. rw (sends n x) p;
    tries = omega arith;
  }

  machine-Drains :
      Drains IsStopping late_reads
        (new_worker machine_runtime (delivery_logs db) worker_machine.context sender)
        (consumer_for worker_machine.open_reader unary_times address channel)
  unfolding machine_broker is
  machine-Drains = record {
    keeps = λ k. machine-Keeps (Bounded IsStopping late_reads k);
    read_cancelled = λ x p. ground arith;
    read_failed = λ x e p h. ground arith;
    read_message = λ x m p h. ground arith;
  }

module _ (n : Notification) (x : Machine) where
  apns_send-keeps : (apns_send n x).1 ≡ x
  unfolding apns_send
  apns_send-keeps = ground arith

  fcm_send-keeps : (fcm_send n x).1 ≡ x
  unfolding fcm_send
  fcm_send-keeps = ground arith

  sms_send-keeps : (sms_send n x).1 ≡ x
  unfolding sms_send
  sms_send-keeps = ground arith

  email_send-keeps : (email_send n x).1 ≡ x
  unfolding email_send
  email_send-keeps = ground arith

Made-quiet :
    (db : Pool Machine)
    → Made machine_driver db
    → ((s : Statement) (x : Machine) → (db.exec s x).1 ≡ x)
      × ((id : String) (x : Machine) → (db.query_exists_sent id x).1 ≡ x)
Made-quiet db made =
    subst
      (λ r.
        ((s : Statement) (x : Machine) → ((opened r).exec s x).1 ≡ x)
        × ((id : String) (x : Machine) → ((opened r).query_exists_sent id x).1 ≡ x))
      made.made (λ s x. refl, λ id x. refl)

pub worker_machine-laws : StoppingLaws IsStopping late_reads worker_machine all_senders
worker_machine-laws = record {
  cancels = λ x. refl;
  drains = λ db address made.
      let (steady, quiet) = Made-quiet db made in
      (
        machine-Drains db steady quiet apns_sender apns_send-keeps "ios" address,
        (
          machine-Drains db steady quiet fcm_sender fcm_send-keeps "android" address,
          (
            machine-Drains db steady quiet sms_sender sms_send-keeps "sms" address,
            (machine-Drains db steady quiet email_sender email_send-keeps "email" address, tt),
          ),
        ),
      );
}
