-- ===== src/Tests/Once.antt =====
-- One of two deliveries of a notification that have arrived comes to its end, in services that keep
-- everything in memory.
use notification_system.Base.{none, some, List, [], ◌∷◌, refl}
use notification_system.Effect.{returns}
use notification_system.Store.Tables.{
  row_of, find_log, find_notification, has_sent, apply, set_delivery,
}
use notification_system.Store.{insert, update_delivery_status, exists_sent, exists_reply}
use notification_system.Retry.{retry_do}
use notification_system.Worker.{deliver, conclude}
use notification_system.Worker.Interleaving.{Stage, Step, arrived, ended}
use notification_system.Worker.Interleaving.Sole.{next_id, concluded, passes, logs, tries, finishes}
use notification_system.System.{
  Thread, delivery, delivers, Turn, first, Reach, advance, begin, fetch,
}
use notification_system.System.Exclusive.{AtMostOneSent, Exclusive, Exclusively}
use notification_system.System.Once.{Reach-AtMostOneSent}
use notification_system.Tests.Memory.{World, memory_broker, memory_runtime, memory_pool}
use notification_system.Tests.Delivery.{order_confirmed}
use notification_system.Tests.Requests.{memory_handler}
use notification_system.Tests.Arriving.{willing, willing-laws, willing-Answering}
use notification_system.Tests.Histories.{cell, handler-quiet}
use notification_system.Tests.Together.{
  Runs, stored, stored-Sound, all-quiet, arrived_both, first_start, second_start, reads_first,
  reads_second,
}

abbrev checked : World
checked = (willing.log_repo.exists_sent order_confirmed.id arrived_both).1

-- The delivery passes its check, and goes on to its end.
abbrev done : World
done = concluded willing order_confirmed second_start checked

abbrev Ran : List (Thread World) → World → Type 0
Ran ts y = (r : Reach memory_handler Runs stored ts y) × Exclusively memory_handler Runs r

and_then :
    {ts us : List (Thread World)} {u v : World}
    → Ran ts u
    → Exclusive ts
    → Turn memory_handler Runs u v ts us
    → Ran us v
unfolding Exclusively
and_then (r, e) now m = (advance r m, (now, e))

abbrev threads : Stage → List (Thread World)
threads s =
    delivery willing order_confirmed second_start s
    ∷ delivery willing order_confirmed first_start arrived
    ∷ []

threads-Exclusive : (s : Stage) → Exclusive (threads s)
threads-Exclusive s = (((λ i e f. absurd (cc)), tt), (tt, tt))

arrived_once : Ran (threads arrived) arrived_both
unfolding Exclusively
arrived_once =
    (fetch (fetch begin (refl, refl) reads_first refl) (refl, refl) reads_second refl, tt)

delivered_once :
    Ran
      (threads (ended (some (next_id willing order_confirmed second_start checked)) (returns none)))
      done
unfolding has_sent find_notification row_of find_log memory_broker memory_runtime memory_pool
    conclude deliver retry_do insert update_delivery_status exists_sent exists_reply apply
    set_delivery
delivered_once =
    let turn =
      λ (s s' : Stage) (u v : World) (r : Ran (threads s) u)
          (m : Step willing order_confirmed second_start u v s s').
        let next : Ran (threads s') v = and_then r (threads-Exclusive s) (first (delivers m)) in
        next in
    let logged' =
      logs willing (λ w. w.tables) willing-laws willing-Answering order_confirmed second_start
        checked (row_of order_confirmed) refl refl (λ z. refl) in
    let tried' =
      tries willing (λ w. w.tables) willing-laws willing-Answering order_confirmed second_start
        checked (row_of order_confirmed) refl refl (λ z. refl) in
    let ended' =
      finishes willing (λ w. w.tables) willing-laws willing-Answering order_confirmed second_start
        checked (row_of order_confirmed) refl refl (λ z. refl) in
    let passed =
      passes willing (λ w. w.tables) willing-laws willing-Answering order_confirmed second_start
        arrived_both refl in
    turn _ _ _ _ (turn _ _ _ _ (turn _ _ _ _ (turn _ _ _ _ arrived_once passed) logged') tried')
      ended'

Reach-AtMostOneSent_example : AtMostOneSent done.tables
unfolding find_log
Reach-AtMostOneSent_example =
    Reach-AtMostOneSent memory_handler Runs cell (λ w. w.tables) handler-quiet all-quiet
      stored.tables stored done
      (threads (ended (some (next_id willing order_confirmed second_start checked)) (returns none)))
      (delivered_once.0) stored-Sound (λ i a b p q. absurd (let nothing = p.1 in cc))
      (delivered_once.1)
