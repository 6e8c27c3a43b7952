-- ===== src/Api/Middleware/Contexts.antt =====
-- The values that pkg/logger and the middleware keep in the same context.
use notification_system.Base.{ℕ, String, Option, none, some, List, [], ◌∷◌, ◌≡◌, refl}
use notification_system.Values.{Value, foreign_key, Values, with_value, value, same_key}
use notification_system.Logging.{Slog, with_context, asserted, from_context}
use notification_system.Api.Middleware.{
  context_with_request_id, asserted_text, request_id_from_context,
}

-- One more value for a context: by pkg/logger, by the middleware, or by another package.
pub data Attach : Type 0 where
  attach_logger : ℕ → Attach
  attach_id : String → Attach
  attach_foreign : String → String → Value → Attach

abbrev pub attach : Attach → Values → Values
attach (attach_logger l) c = with_context c l
attach (attach_id id) c = context_with_request_id c id
attach (attach_foreign t k v) c = with_value c (foreign_key t k) v

-- A list of them, the last one in front.
abbrev pub attach_all : List Attach → Values → Values
attach_all [] c = c
attach_all (a ∷ steps) c = attach a (attach_all steps c)

abbrev pub last_logger : List Attach → Option ℕ
last_logger [] = none
last_logger (attach_logger l ∷ steps) = some l
last_logger (_ ∷ steps) = last_logger steps

abbrev pub last_id : List Attach → Option String
last_id [] = none
last_id (attach_id id ∷ steps) = some id
last_id (_ ∷ steps) = last_id steps

module _ {W : Type 0} (slog : Slog W) (c : Values) (w : W) where
  -- The logger is the one that was attached last, and otherwise that of the context before.
  from_context-attach_all :
      (steps : List Attach)
      → from_context slog (attach_all steps c) w
        ≡ elim (last_logger steps) [ none ↦ from_context slog c w | some l ↦ (l, w) ]
  unfolding from_context asserted with_context context_with_request_id value same_key
  from_context-attach_all [] = refl
  from_context-attach_all (attach_logger l ∷ steps) = refl
  from_context-attach_all (attach_id id ∷ steps) = from_context-attach_all steps
  from_context-attach_all (attach_foreign t k v ∷ steps) = from_context-attach_all steps

-- The identifier is the one that was attached last, and otherwise that of the context before.
request_id_from_context-attach_all :
    (c : Values) (steps : List Attach)
    → request_id_from_context (attach_all steps c)
      ≡ elim (last_id steps) [ none ↦ request_id_from_context c | some id ↦ id ]
unfolding request_id_from_context asserted_text with_context context_with_request_id value same_key
request_id_from_context-attach_all c [] = refl
request_id_from_context-attach_all c (attach_logger l ∷ steps) =
    request_id_from_context-attach_all c steps
request_id_from_context-attach_all c (attach_id id ∷ steps) = refl
request_id_from_context-attach_all c (attach_foreign t k v ∷ steps) =
    request_id_from_context-attach_all c steps

-- In a context that pkg/logger, the middleware and other packages have extended in any order, each
-- reads its own value: FromContext answers the logger that was attached last, without making one,
-- and requestIDFromContext the identifier that was attached last. Where none was attached, they
-- answer as on the context before.
pub attach_all-apart :
    {W : Type 0} (slog : Slog W) (c : Values) (steps : List Attach) (w : W)
    → (from_context slog (attach_all steps c) w
        ≡ elim (last_logger steps) [ none ↦ from_context slog c w | some l ↦ (l, w) ])
      × (request_id_from_context (attach_all steps c)
          ≡ elim (last_id steps) [ none ↦ request_id_from_context c | some id ↦ id ])
attach_all-apart slog c steps w =
    (from_context-attach_all slog c w steps, request_id_from_context-attach_all c steps)
