-- ===== src/Metrics/Registry.antt =====
-- The registry of client_golang, which pkg/metrics/metrics.go fills: what it takes, and what a
-- registration leaves in it.
use Prim.Native.Char.{Char, code}
use notification_system.Base.{
  String, Bool, true, false, not, ◌&&◌, ◌||◌, Option, none, some, List, [], ◌∷◌, ◌≡◌, ◌==◌, leb,
  eqb,
}
use notification_system.Effect.{returns}
use notification_system.Metrics.{
  Kind, counter_vec, histogram_vec, gauge, gauge_vec, Opts, Prometheus,
}

-- What client_golang takes as the name of a metric, `[a-zA-Z_:][a-zA-Z0-9_:]*`, and as that of a
-- label, without the colon, not from "__" on, no name twice, and no "le" in a histogram.
module _ (colon : Bool) where
  letter : Char → Bool
  letter c =
      let d = code c in
      (leb b'a' d && leb d b'z')
      || (leb b'A' d && leb d b'Z')
      || eqb d b'_'
      || (colon && eqb d b':')

  letters : String → Bool
  letters String.[] = true
  letters (String.◌∷◌ c s) = (letter c || (leb b'0' (code c) && leb (code c) b'9')) && letters s

  valid_name : String → Bool
  valid_name String.[] = false
  valid_name (String.◌∷◌ c s) = letter c && letters s

reserved : String → Bool
reserved (String.◌∷◌ c (String.◌∷◌ d s)) = eqb (code c) b'_' && eqb (code d) b'_'
reserved _ = false

any_name : String → List String → Bool
any_name s [] = false
any_name s (t ∷ ts) = (s == t) || any_name s ts

valid_labels : List String → Bool
valid_labels [] = true
valid_labels (l ∷ ls) =
    valid_name false l && not (reserved l) && not (any_name l ls) && valid_labels ls

module _ {B : Type 0} where
  fits_kind : Kind B → List String → Bool
  fits_kind (histogram_vec b) ls = not (any_name "le" ls)
  fits_kind counter_vec ls = true
  fits_kind gauge ls = true
  fits_kind gauge_vec ls = true

  unfoldable pub valid : Opts B → Bool
  unfolding fits_kind valid_labels any_name reserved valid_name letters letter
  valid o = valid_name true o.name && valid_labels o.labels && fits_kind o.kind o.labels

  unfoldable pub named : String → List (Opts B) → Bool
  named s [] = false
  named s (o ∷ os) = (s == o.name) || named s os

  -- Every metric is valid, and no two have one name.
  unfoldable pub well_formed : List (Opts B) → Bool
  well_formed [] = true
  well_formed (o ∷ os) = valid o && not (named o.name os) && well_formed os

-- `labels_at s w` are the labels of the metric that the registry has under the name `s`: a valid
-- metric whose name is free is registered, and no other name is touched.
pub record PrometheusLaws {B W : Type 0} (p : Prometheus B W)
    (labels_at : String → W → Option (List String)) : Type 0 where
  pub register_ok :
      (o : Opts B) (w : W)
      → valid o ≡ true
      → labels_at o.name w ≡ none
      → ((p.register o w).0 ≡ returns tt) × (labels_at o.name (p.register o w).1 ≡ some o.labels)
  pub register_leaves :
      (o : Opts B) (s : String) (w : W)
      → (s == o.name) ≡ false
      → labels_at s (p.register o w).1 ≡ labels_at s w
