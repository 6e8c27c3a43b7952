-- ===== src/Tests/Interleaving.antt =====
-- A delivery without interruption, at a concrete input.
use notification_system.Base.{String, Option}
use notification_system.Worker.{process}
use notification_system.Worker.Interleaving.{ended}
use notification_system.Worker.Interleaving.Alone.{Steps, process-Steps}
use notification_system.Tests.Memory.{memory_runtime}
use notification_system.Tests.Delivery.{order_confirmed, start, email_worker}

process-Steps_example :
    let (at, y) = memory_runtime.now start in
    let (r, z) = process email_worker order_confirmed start in
    (mine : Option String) × Steps email_worker order_confirmed at y (ended mine r) z
process-Steps_example = process-Steps email_worker order_confirmed start
