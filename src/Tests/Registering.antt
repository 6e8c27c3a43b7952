-- ===== src/Tests/Registering.antt =====
-- The metrics in a registry that is a map from names to labels.
use notification_system.Base.{
  String, Bool, true, false, Option, none, some, List, ◌≡◌, refl, ◌==◌, eq_refl, if◌then◌else◌,
  length,
}
use notification_system.Effect.{Outcome, returns, panics}
use notification_system.Runtime.{Metric}
use notification_system.Metrics.{Opts, Prometheus, init, variable_of, label_values}
use notification_system.Metrics.Registry.{valid, PrometheusLaws}
use notification_system.Metrics.Registered.{init-registers}

abbrev Names : Type 0
Names = String → Option (List String)

abbrev registered : Opts (Unit {0}) → Names → Names
registered o w s = if s == o.name then some o.labels else w s

abbrev attempt : Opts (Unit {0}) → Names → Bool → Option (List String) → Outcome (Unit {0}) × Names
attempt o w true none = (returns tt, registered o w)
attempt o w _ _ = (panics, w)

attempt-leaves :
    (o : Opts (Unit {0})) (w : Names) (b : Bool) (r : Option (List String)) (s : String)
    → (s == o.name) ≡ false
    → (attempt o w b r).1 s ≡ w s
attempt-leaves o w true none s h = rw h refl
attempt-leaves o w true (some ls) s h = refl
attempt-leaves o w false r s h = refl

unfoldable memory_registry : Prometheus (Unit {0}) Names
memory_registry = record { def_buckets = tt; register = λ o w. attempt o w (valid o) (w o.name) }

memory_registry-laws : PrometheusLaws memory_registry (λ s w. w s)
unfolding memory_registry
memory_registry-laws = record {
  register_ok = λ o w v e. rw (v, e, eq_refl o.name) (refl, refl);
  register_leaves = λ o s w h. attempt-leaves o w (valid o) (w o.name) s h;
}

abbrev nothing : Names
nothing s = none

init-registers_example :
    ((init memory_registry nothing).0 ≡ returns tt)
    × ((m : Metric)
        → (labels : List String) × ((init memory_registry nothing).1
              (variable_of memory_registry m).name
            ≡ some labels)
          × (length (label_values m) ≡ length labels))
init-registers_example =
    init-registers memory_registry (λ s w. w s) memory_registry-laws nothing (λ o m. refl)
