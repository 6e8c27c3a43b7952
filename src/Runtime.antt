-- ===== src/Runtime.antt =====
-- What a process takes from its surroundings besides the services: identifiers, the clock and the
-- registry of metrics (the variables of pkg/metrics/metrics.go that the code uses are the
-- constructors below).
use notification_system.Base.{String, ◌≡◌}
use notification_system.Effect.{Exec, returns}
use notification_system.Domain.{Time}

pub data Metric : Type 0 where
  http_requests_total : String → String → String → Metric
  http_request_duration : String → String → Metric
  http_requests_in_flight : Metric
  notifications_sent_total : String → Metric
  notifications_failed_total : String → Metric
  notifications_skipped_total : String → String → Metric
  delivery_duration : String → Metric
  kafka_publish_total : String → String → Metric

-- `new_string` is `uuid.NewString()`, `now` is `time.Now()`; `inc`, `dec` and `observe` are the
-- operations of a metric with its labels.
pub record Runtime (W : Type 0) : Type 0 where
  pub new_string : W → String × W
  pub now : W → Time × W
  pub inc : Metric → W → W
  pub dec : Metric → W → W
  pub observe : Metric → Time → W → W

abbrev pub tick : {W : Type 0} → (W → W) → Exec W (Unit {0})
tick f w = (returns tt, f w)

-- None of these touches what `view` shows of the world.
pub record RuntimeLaws {W : Type 0} {V : Type 0} (runtime : Runtime W) (view : W → V) : Type 0 where
  pub new_string_keeps : (w : W) → view (runtime.new_string w).1 ≡ view w
  pub now_keeps : (w : W) → view (runtime.now w).1 ≡ view w
  pub inc_keeps : (m : Metric) (w : W) → view (runtime.inc m w) ≡ view w
  pub dec_keeps : (m : Metric) (w : W) → view (runtime.dec m w) ≡ view w
  pub observe_keeps : (m : Metric) (t : Time) (w : W) → view (runtime.observe m t w) ≡ view w
