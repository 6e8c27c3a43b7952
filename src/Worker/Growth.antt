-- ===== src/Worker/Growth.antt =====
-- What the loop of a worker leaves of the tables: it only adds logs.
use mathlib.Core.List.{append_assoc, append-nil}
use notification_system.Base.{ℕ, Option, List, [], ◌∷◌, ◌++◌, ◌≡◌, refl, inl, inr}
use notification_system.Failure.{Failure}
use notification_system.Effect.{Outcome}
use notification_system.Domain.{Notification, DeliveryLog}
use notification_system.Kafka.{Consumer}
use notification_system.Store.Tables.{Tables}
use notification_system.Worker.{Worker, run}
use notification_system.Worker.Laws.{WorkerLaws}
use notification_system.Worker.Effects.{
  Effect, skipped, unchecked, unlogged, crashed, delivered, failed, append_log,
}
use notification_system.Worker.Logs.{process-Effect}
use notification_system.Worker.Keeps.{run-keeps}

-- From `t` to `t'`, rows were added at the end of the logs and nothing else changed.
pub record Grows (t t' : Tables) : Type 0 where
  pub added : List DeliveryLog
  pub same : t' ≡ record t { delivery_logs = t.delivery_logs ++ added }

Grows-refl : (t : Tables) → Grows t t
Grows-refl t = record { added = []; same = rw append-nil refl }

Grows-trans : {a b c : Tables} → Grows a b → Grows b c → Grows a c
Grows-trans {a = a} g h = record {
  added = g.added ++ h.added;
  same = rw (h.same, g.same, append_assoc) refl;
}

one_log : {t t' : Tables} (r : DeliveryLog) → t' ≡ append_log t r → Grows t t'
one_log r k = record { added = r ∷ []; same = k }

no_log : {t t' : Tables} → t' ≡ t → Grows t t'
no_log {t = t} k = record { added = []; same = rw append-nil k }

Effect-Grows :
    {W : Type 0} (w : Worker W) (n : Notification) {t t' : Tables} {r : Outcome (Option Failure)}
    → Effect w n t r t'
    → Grows t t'
Effect-Grows w n (skipped h r k) = no_log k
Effect-Grows w n (unchecked e r k) = no_log k
Effect-Grows w n (unlogged e id at h r (inl k)) = no_log k
Effect-Grows w n (unlogged e id at h r (inr k)) = one_log _ k
Effect-Grows w n (crashed id at h f r k) = one_log _ k
Effect-Grows w n (delivered s id at h f r (inl k)) = one_log _ k
Effect-Grows w n (delivered s id at h f r (inr k)) = one_log _ k
Effect-Grows w n (failed e id at h f r (inl k)) = one_log _ k
Effect-Grows w n (failed e id at h f r (inr k)) = one_log _ k

module _ {W : Type 0} (w : Worker W) (tables : W → Tables) (laws : WorkerLaws w tables)
    (c : Consumer W) (read_keeps : (x : W) → tables (c.reader.read_message x).1 ≡ tables x) where
  -- Where no other process writes to the tables and a read changes none: however many rounds `Run`
  -- has made, and also where it panics, the tables are as before but for logs added at the end. No
  -- log that was there changes, and no row of a notification, whose status stays as it was.
  pub run-Grows : (rounds : ℕ) (u : W) → Grows (tables u) (tables (run w rounds c u).1)
  run-Grows rounds u =
      run-keeps w (λ x. Grows (tables u) (tables x)) c
        (λ n x g. Grows-trans g (Effect-Grows w n (process-Effect w tables laws n x)))
        (λ x g. Grows-trans g (no_log (read_keeps x))) rounds u (Grows-refl (tables u))
