-- ===== src/Tests/Core.antt =====
-- Runs of core/exception_handler.py.
use backend_live_canvas.Prelude.{ℕ, String, ◌≡◌, ◌≢◌, refl, Option, none, some, str_eq, str_eq_iff}
use backend_live_canvas.Core.Errors.{
  ErrorCode, Exc, Detail, text, items, dict, nil, cons, end, field, status_code,
}
use backend_live_canvas.Core.Handler.{
  flatten_detail, generic_server_message, structured_exception_handler,
}
use backend_live_canvas.Core.Handler.Messages.{envelope_safe}

-- The framework's handler: an `APIException` has the status of its class, the rest is unhandled.
abbrev drf : Exc → Option ℕ
drf (Exc.app c m) = some (status_code c)
drf (Exc.http404 m) = some 404
drf _ = none

abbrev field_errors : Detail
field_errors = dict (
    field "slug" (items nil)
      (field "title" (items (cons (text "") (cons (text "Too long.") nil))) end))

flatten_field_errors : flatten_detail field_errors ≡ "title: Too long."
unfolding flatten_detail str_eq
flatten_field_errors = refl

envelope_safe_example :
    ((structured_exception_handler drf (Exc.other "boom")).message ≢ "")
    × ((structured_exception_handler drf (Exc.other "boom")).code ≡ ErrorCode.server_error
        → (structured_exception_handler drf (Exc.other "boom")).message ≡ generic_server_message)
envelope_safe_example = envelope_safe drf (Exc.other "boom")

not_empty : ◌≢◌ {A = String} "Unknown upload_key." ""
unfolding str_eq
not_empty e = cc ((str_eq_iff "Unknown upload_key." "").1 e)
