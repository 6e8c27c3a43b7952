-- ===== src/Values.antt =====
-- Go's `context.WithValue` and `Value`, as internal/api/middleware.go and pkg/logger/logger.go use
-- them. A key has a type of its own in each package, so keys of two packages are never equal.
use notification_system.Base.{
  ℕ, String, Bool, false, true, ◌&&◌, Option, none, some, List, [], ◌∷◌, ◌==◌, if◌then◌else◌,
}

-- `logger_key` is a `contextKey` of pkg/logger, `request_id_key` the `contextKeyRequestID{}` of
-- internal/api, and `foreign_key` a key of another package, as its type and what is in it.
pub data Key : Type 0 where
  logger_key : String → Key
  request_id_key : Key
  foreign_key : String → String → Key

-- A value behind the interface `any`: a string, a `*slog.Logger` by its address, or anything else.
pub data Value : Type 0 where
  string_value : String → Value
  logger_at : ℕ → Value
  other_value : String → Value

-- What the interface of the two keys compares.
unfoldable pub same_key : Key → Key → Bool
same_key (logger_key s) (logger_key t) = s == t
same_key request_id_key request_id_key = true
same_key (foreign_key s a) (foreign_key t b) = s == t && a == b
same_key _ _ = false

-- The values of a context, those attached last in front.
abbrev pub Values : Type 0
Values = List (Key × Value)

abbrev pub with_value : Values → Key → Value → Values
with_value c k v = (k, v) ∷ c

unfoldable pub value : Values → Key → Option Value
value [] k = none
value ((j, v) ∷ c) k = if same_key j k then some v else value c k
