-- ===== src/Tests/Contexts.antt =====
-- The values of a context and the numbers of the environment at concrete inputs.
use notification_system.Base.{ℕ, ◌+◌, String, [], ◌∷◌, ◌≡◌, refl, ◌==◌, if◌then◌else◌, itoa}
use notification_system.Values.{other_value}
use notification_system.Logging.{Slog, from_context}
use notification_system.Config.{pos, negsuc, get_int}
use notification_system.Config.Numbers.{get_int-decimal}
use notification_system.Api.Middleware.{request_id_from_context}
use notification_system.Api.Middleware.Contexts.{
  attach_logger, attach_id, attach_foreign, attach_all, attach_all-apart,
}

-- A new logger is at the next address.
abbrev counting_slog : Slog ℕ
counting_slog = record { new_json = λ level w. (w, w + 1) }

-- The key of another package holds the same string as that of the logger, and has another type.
attach_all-apart_example :
    let c =
      attach_all
        (attach_foreign "tracing.contextKey" "logger" (other_value "span")
          ∷ attach_id "req-7"
          ∷ attach_logger 3
          ∷ attach_id "req-6"
          ∷ [])
        [] in
    (from_context counting_slog c 40 ≡ (3, 40)) × (request_id_from_context c ≡ "req-7")
attach_all-apart_example =
    attach_all-apart counting_slog []
      (attach_foreign "tracing.contextKey" "logger" (other_value "span")
        ∷ attach_id "req-7"
        ∷ attach_logger 3
        ∷ attach_id "req-6"
        ∷ [])
      40

abbrev small_pool : String → String
small_pool key = if key == "POSTGRES_MAX_OPEN_CONNS" then "-12" else ""

get_int-decimal_example : get_int small_pool "POSTGRES_MAX_OPEN_CONNS" (pos 25) ≡ negsuc 11
unfolding itoa
get_int-decimal_example =
    get_int-decimal small_pool "POSTGRES_MAX_OPEN_CONNS" (pos 25) (negsuc 11) refl
