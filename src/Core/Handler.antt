-- ===== src/Core/Handler.antt =====
-- core/exception_handler.py: every exception of a view becomes one error envelope.
pub mod Messages
use Prim.Native.String.{◌++◌ as concat}
use backend_live_canvas.Prelude.{
  ℕ, String, ◌≡◌, Bool, true, false, Option, none, some, str_eq, or_else, truthy, if◌then◌else◌,
  ◌==◌,
}
use backend_live_canvas.Core.Errors.{
  ErrorCode, Exc, error_code, Detail, Details, Fields, absent, text, items, dict, nil, cons, end,
  field,
}

abbrev pub generic_server_message : String
generic_server_message = "An unexpected error occurred."

-- `_STATUS_TO_CODE.get(status, SERVER_ERROR)`
unfoldable pub status_to_code : ℕ → ErrorCode
status_to_code status =
    if status == 400
    then ErrorCode.validation_error
    else if status == 401
    then ErrorCode.invalid_app_key
    else if status == 404
    then ErrorCode.not_found
    else if status == 405
    then ErrorCode.method_not_allowed
    else ErrorCode.server_error

-- `_code_for`, by the status of the framework's response, if it made one.
unfoldable pub code_for : Exc → Option ℕ → ErrorCode
unfolding status_to_code
code_for (Exc.app c m) response = error_code c
code_for (Exc.http404 m) response = ErrorCode.not_found
code_for (Exc.not_found d) response = ErrorCode.not_found
code_for (Exc.method_not_allowed d) response = ErrorCode.method_not_allowed
code_for (Exc.not_authenticated d) response = ErrorCode.invalid_app_key
code_for (Exc.authentication_failed d) response = ErrorCode.invalid_app_key
code_for (Exc.validation_error d) response = ErrorCode.validation_error
code_for (Exc.parse_error d) response = ErrorCode.validation_error
code_for (Exc.api_exception n d) (some status) = status_to_code status
code_for (Exc.api_exception n d) none = ErrorCode.server_error
code_for (Exc.token_error m) (some status) = status_to_code status
code_for (Exc.token_error m) none = ErrorCode.server_error
code_for (Exc.other m) (some status) = status_to_code status
code_for (Exc.other m) none = ErrorCode.server_error

-- One field of a dict: its message alone, or behind the field's name.
abbrev pub labelled : String → String → String
labelled key msg = if str_eq key "non_field_errors" then msg else concat key (concat ": " msg)

-- `_flatten_detail`: the first message that is not empty.
unfoldable mutual
  pub flatten_detail : Detail → String
  flatten_detail absent = ""
  flatten_detail (text s) = s
  flatten_detail (items ds) = flatten_items ds
  flatten_detail (dict fs) = flatten_fields fs

  pub flatten_items : Details → String
  flatten_items nil = ""
  flatten_items (cons d ds) = or_else (flatten_detail d) (flatten_items ds)

  pub flatten_fields : Fields → String
  flatten_fields end = ""
  flatten_fields (field key d fs) =
      if truthy (flatten_detail d) then labelled key (flatten_detail d) else flatten_fields fs

-- `getattr(exc, "detail", None)`
unfoldable pub detail_of : Exc → Detail
detail_of (Exc.app c m) = text m
detail_of (Exc.http404 m) = absent
detail_of (Exc.not_found d) = d
detail_of (Exc.method_not_allowed d) = d
detail_of (Exc.not_authenticated d) = d
detail_of (Exc.authentication_failed d) = d
detail_of (Exc.validation_error d) = d
detail_of (Exc.parse_error d) = d
detail_of (Exc.api_exception n d) = d
detail_of (Exc.token_error m) = absent
detail_of (Exc.other m) = absent

abbrev pub is_server_error : ErrorCode → Bool
is_server_error ErrorCode.server_error = true
is_server_error _ = false

-- `_message_for`
unfoldable pub message_for : Exc → ErrorCode → String
unfolding flatten_detail detail_of
message_for exc code =
    if is_server_error code
    then generic_server_message
    else or_else (flatten_detail (detail_of exc)) "Request could not be processed."

-- The response: its status and the envelope's code and message.
pub record Response : Type 0 where
  pub status : ℕ
  pub code : ErrorCode
  pub message : String

-- `structured_exception_handler`; `drf_exception_handler` is the framework's handler, read only
-- for the status of the response that it makes, if any.
unfoldable pub structured_exception_handler : (Exc → Option ℕ) → Exc → Response
structured_exception_handler drf_exception_handler exc = elim (drf_exception_handler exc) [
  | none ↦ record { status = 500; code = ErrorCode.server_error; message = generic_server_message }
  | some status ↦
      let code = code_for exc (some status) in
      record { status = status; code = code; message = message_for exc code }
]
