-- ===== src/Tests/Processes.antt =====
-- The theorems about the two processes and the opening of the store at concrete inputs.
use notification_system.Base.{zero, suc, ◌^◌, map, ◌≡◌, refl, ◌↔◌, arith, inl, inr}
use notification_system.Failure.{ok}
use notification_system.Config.{PostgresConfig, ℤ, pos, negsuc, load}
use notification_system.Store.Opening.{PoolConfig, pool_config}
use notification_system.Store.Opening.Limits.{Fits, pool_config-Fits}
use notification_system.Server
use notification_system.Server.{Stop, HttpServer, closed}
use notification_system.Server.Release.{Leaves, run-Leaves}
use notification_system.Server.Order.{IsReady, run-swapped}
use notification_system.WorkerProcess
use notification_system.WorkerProcess.{all_senders, start}
use notification_system.WorkerProcess.Starting.{Known, none_left, known, slot_for, start-map}
use notification_system.Tests.Services.{defaults}
use notification_system.Tests.Machine.{
  Machine, switched_on, server_machine, answering_machine, worker_machine, blank_pool,
}
use notification_system.Tests.Machine.Laws.{server_machine-laws, answering_machine-laws}

abbrev four_billion : PostgresConfig
four_billion = record {
  dsn = "postgres://localhost";
  max_open_conns = pos (2 ^ 32);
  max_idle_conns = negsuc 0;
  conn_max_lifetime = 5;
}

abbrev parsed : PoolConfig
parsed = record {
  dsn = "postgres://localhost";
  max_conns = pos 4;
  min_conns = pos 0;
  max_conn_lifetime = 3600;
}

pool_config-Fits_example :
    let p = pool_config four_billion parsed in
    (Fits p.max_conns × ((p.max_conns ≡ pos (2 ^ 32)) ↔ Fits (pos (2 ^ 32))))
    × (Fits p.min_conns × ((p.min_conns ≡ negsuc 0) ↔ Fits (negsuc 0)))
pool_config-Fits_example = pool_config-Fits four_billion parsed

run-Leaves_example : Leaves (λ w. w.held) switched_on.held (Server.run server_machine switched_on)
run-Leaves_example = run-Leaves server_machine (λ w. w.held) server_machine-laws switched_on

-- A `listen` that fails where no writer is open.
abbrev picky : HttpServer Machine → Machine → Stop × Machine
picky s w = elim w.held.writers [ zero ↦ (closed, w) | suc k ↦ answering_machine.listen s w ]

picky-agree :
    (s : HttpServer Machine) (x : Machine)
    → IsReady (λ w. w.held) switched_on.held x
    → picky s x ≡ answering_machine.listen s x
picky-agree s x h = ground arith

run-swapped_example :
    Server.run (record answering_machine { listen = picky }) switched_on
    ≡ Server.run answering_machine switched_on
run-swapped_example =
    run-swapped answering_machine (λ w. w.held) answering_machine-laws picky switched_on picky-agree

all_senders-Known : Known (all_senders {W = Machine})
all_senders-Known =
    known (inl (inl refl))
      (known (inl (inr refl)) (known (inr (inl refl)) (known (inr (inr refl)) none_left)))

start-map_example :
    start worker_machine defaults.kafka blank_pool all_senders
    ≡ ok (map (slot_for worker_machine "localhost:9092" blank_pool) all_senders)
unfolding load notification_system.Config.get_env notification_system.Config.get_duration
    notification_system.Config.get_int
start-map_example = start-map worker_machine defaults blank_pool refl all_senders all_senders-Known
