-- ===== src/Metrics/Registered.antt =====
-- What the registration of the metrics (pkg/metrics/metrics.go) leaves in the registry.
use mathlib.Core.List.{Memᴰ}
use mathlib.Core.List.Memᴰ
use notification_system.Base.{
  ℕ, zero, suc, String, false, true, Option, none, some, List, [], ◌∷◌, ◌≡◌, refl, sym, ◌∙◌, ◌==◌,
  eq_iff, length, arith, inl, inr, some_inj,
}
use notification_system.Effect.{returns}
use notification_system.Runtime.{Metric}
use notification_system.Runtime
use notification_system.Metrics.{
  Opts, Prometheus, register_all, variables, init, variable_of, label_values,
}
use notification_system.Metrics.Registry.{valid, named, well_formed, PrometheusLaws}

unfoldable get_elem? {ℓ} : {A : Type ℓ} → List A → ℕ → Option A
get_elem? [] n = none
get_elem? (x ∷ xs) zero = some x
get_elem? (x ∷ xs) (suc n) = get_elem? xs n

get_elem?-Memᴰ {ℓ} :
    {A : Type ℓ} (xs : List A) (n : ℕ) {x : A} → get_elem? xs n ≡ some x → Memᴰ x xs
unfolding get_elem?
get_elem?-Memᴰ [] n h = absurd (let no = h in cc)
get_elem?-Memᴰ (y ∷ xs) zero h = Memᴰ.head (sym (some_inj h))
get_elem?-Memᴰ (y ∷ xs) (suc n) h = Memᴰ.tail (get_elem?-Memᴰ xs n h)

-- A test for equality that fails, fails the other way round.
differs : (s t : String) → (s == t) ≡ false → (t == s) ≡ false
differs s t h = let there = eq_iff s t in let back = eq_iff t s in ground (arith, there, back)

module _ {B W : Type 0} (p : Prometheus B W) (labels_at : String → W → Option (List String))
    (laws : PrometheusLaws p labels_at) where
  named-differs :
      (s : String) (os : List (Opts B)) (o : Opts B)
      → named s os ≡ false
      → Memᴰ o os
      → (s == o.name) ≡ false
  unfolding named
  named-differs s [] o h m = absurd (Memᴰ.not-nil m)
  named-differs s (q ∷ os) o h (Memᴰ.head e) = rw e (ground arith)
  named-differs s (q ∷ os) o h (Memᴰ.tail m) = named-differs s os o (ground arith) m

  abbrev AllFree : List (Opts B) → W → Type 0
  AllFree os w = (o : Opts B) → Memᴰ o os → labels_at o.name w ≡ none

  -- The names after the first are free after its registration.
  AllFree-later :
      (o : Opts B) (os : List (Opts B)) (w : W)
      → named o.name os ≡ false
      → AllFree (o ∷ os) w
      → AllFree os (p.register o w).1
  AllFree-later o os w h free q m =
      laws.register_leaves o q.name w (differs o.name q.name (named-differs o.name os q h m))
      ∙ free q (Memᴰ.tail m)

  register_all-leaves :
      (os : List (Opts B)) (s : String) (w : W)
      → named s os ≡ false
      → well_formed os ≡ true
      → AllFree os w
      → labels_at s (register_all p os w).1 ≡ labels_at s w
  unfolding register_all named well_formed
  register_all-leaves [] s w h k free = refl
  register_all-leaves (o ∷ os) s w h k free =
      let ok = laws.register_ok o w (ground arith) (free o (Memᴰ.head refl)) in
      let later =
        register_all-leaves os s (p.register o w).1 (ground arith) (ground arith)
          (AllFree-later o os w (ground arith) free) in
      let first = laws.register_leaves o s w (ground arith) in rw ok.0 (later ∙ first)

  -- All of them are registered.
  register_all-registers :
      (os : List (Opts B)) (w : W)
      → well_formed os ≡ true
      → AllFree os w
      → ((register_all p os w).0 ≡ returns tt)
        × ((o : Opts B) → Memᴰ o os → labels_at o.name (register_all p os w).1 ≡ some o.labels)
  unfolding register_all well_formed
  register_all-registers [] w k free = (refl, λ o m. absurd (Memᴰ.not-nil m))
  register_all-registers (o ∷ os) w k free =
      let ok = laws.register_ok o w (ground arith) (free o (Memᴰ.head refl)) in
      let fresh : named o.name os ≡ false = ground arith in
      let good : well_formed os ≡ true = ground arith in
      let free' = AllFree-later o os w fresh free in
      let (done, all) = register_all-registers os (p.register o w).1 good free' in
      let leaves = register_all-leaves os o.name (p.register o w).1 fresh good free' in
      rw ok.0
        (done, λ q m. elim (Memᴰ.cases_cons m) [ inl e ↦ rw e (leaves ∙ ok.1) | inr n ↦ all q n ])

  variables-well_formed : well_formed (variables p) ≡ true
  unfolding variables well_formed valid named
  variables-well_formed = refl

  variable_of-variables : (m : Metric) → Memᴰ (variable_of p m) (variables p)
  unfolding variables variable_of get_elem?
  variable_of-variables (Runtime.http_requests_total a b c) = get_elem?-Memᴰ (variables p) 0 refl
  variable_of-variables (Runtime.http_request_duration a b) = get_elem?-Memᴰ (variables p) 1 refl
  variable_of-variables Runtime.http_requests_in_flight = get_elem?-Memᴰ (variables p) 2 refl
  variable_of-variables (Runtime.notifications_sent_total a) = get_elem?-Memᴰ (variables p) 3 refl
  variable_of-variables (Runtime.notifications_failed_total a) = get_elem?-Memᴰ (variables p) 4 refl
  variable_of-variables (Runtime.notifications_skipped_total a b) =
      get_elem?-Memᴰ (variables p) 5 refl
  variable_of-variables (Runtime.delivery_duration a) = get_elem?-Memᴰ (variables p) 6 refl
  variable_of-variables (Runtime.kafka_publish_total a b) = get_elem?-Memᴰ (variables p) 7 refl

  label_values-length : (m : Metric) → length (label_values m) ≡ length ((variable_of p m).labels)
  unfolding variable_of label_values
  label_values-length (Runtime.http_requests_total a b c) = refl
  label_values-length (Runtime.http_request_duration a b) = refl
  label_values-length Runtime.http_requests_in_flight = refl
  label_values-length (Runtime.notifications_sent_total a) = refl
  label_values-length (Runtime.notifications_failed_total a) = refl
  label_values-length (Runtime.notifications_skipped_total a b) = refl
  label_values-length (Runtime.delivery_duration a) = refl
  label_values-length (Runtime.kafka_publish_total a b) = refl

  -- The package is initialised without a panic where its ten names are free, and then every metric
  -- that the code uses is in the registry under its name, with as many labels as the code passes
  -- values for.
  pub init-registers :
      (w : W)
      → ((o : Opts B) → Memᴰ o (variables p) → labels_at o.name w ≡ none)
      → ((init p w).0 ≡ returns tt)
        × ((m : Metric)
            → (labels : List String) × (labels_at (variable_of p m).name (init p w).1 ≡ some labels)
              × (length (label_values m) ≡ length labels))
  init-registers w free =
      let (done, all) = register_all-registers (variables p) w variables-well_formed free in
      (done, λ m. (_, all (variable_of p m) (variable_of-variables m), label_values-length m))
