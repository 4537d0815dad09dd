-- ===== src/Core/Errors.antt =====
-- core/errors.py: the catalog of error codes and the application exceptions, together with the
-- other exceptions that a view may raise.
use backend_live_canvas.Prelude.{ℕ, String}

-- `ErrorCode`.
pub data ErrorCode : Type 0 where
  invalid_app_key unauthorized_admin forbidden_admin_role : ErrorCode
  validation_error not_found method_not_allowed server_error : ErrorCode
  entitlement_required receipt_invalid receipt_conflict : ErrorCode
  store_api_unavailable webhook_signature_invalid : ErrorCode
  file_rejected tag_not_found tag_slug_conflict tag_in_use : ErrorCode
  wallpaper_not_found collection_slug_conflict : ErrorCode

-- `AppError` and its subclasses.
pub data AppErrorClass : Type 0 where
  app_error : AppErrorClass
  invalid_app_key validation_failed unauthorized_admin forbidden_admin_role : AppErrorClass
  file_rejected tag_not_found tag_slug_conflict tag_in_use : AppErrorClass
  wallpaper_not_found collection_slug_conflict : AppErrorClass
  entitlement_required receipt_invalid receipt_conflict : AppErrorClass
  store_api_unavailable webhook_signature_invalid : AppErrorClass

-- The class attribute `error_code`.
unfoldable pub error_code : AppErrorClass → ErrorCode
error_code AppErrorClass.app_error = ErrorCode.server_error
error_code AppErrorClass.invalid_app_key = ErrorCode.invalid_app_key
error_code AppErrorClass.validation_failed = ErrorCode.validation_error
error_code AppErrorClass.unauthorized_admin = ErrorCode.unauthorized_admin
error_code AppErrorClass.forbidden_admin_role = ErrorCode.forbidden_admin_role
error_code AppErrorClass.file_rejected = ErrorCode.file_rejected
error_code AppErrorClass.tag_not_found = ErrorCode.tag_not_found
error_code AppErrorClass.tag_slug_conflict = ErrorCode.tag_slug_conflict
error_code AppErrorClass.tag_in_use = ErrorCode.tag_in_use
error_code AppErrorClass.wallpaper_not_found = ErrorCode.wallpaper_not_found
error_code AppErrorClass.collection_slug_conflict = ErrorCode.collection_slug_conflict
error_code AppErrorClass.entitlement_required = ErrorCode.entitlement_required
error_code AppErrorClass.receipt_invalid = ErrorCode.receipt_invalid
error_code AppErrorClass.receipt_conflict = ErrorCode.receipt_conflict
error_code AppErrorClass.store_api_unavailable = ErrorCode.store_api_unavailable
error_code AppErrorClass.webhook_signature_invalid = ErrorCode.webhook_signature_invalid

-- The class attribute `status_code`.
unfoldable pub status_code : AppErrorClass → ℕ
status_code AppErrorClass.app_error = 500
status_code AppErrorClass.invalid_app_key = 401
status_code AppErrorClass.validation_failed = 400
status_code AppErrorClass.unauthorized_admin = 401
status_code AppErrorClass.forbidden_admin_role = 403
status_code AppErrorClass.file_rejected = 422
status_code AppErrorClass.tag_not_found = 400
status_code AppErrorClass.tag_slug_conflict = 409
status_code AppErrorClass.tag_in_use = 409
status_code AppErrorClass.wallpaper_not_found = 400
status_code AppErrorClass.collection_slug_conflict = 409
status_code AppErrorClass.entitlement_required = 402
status_code AppErrorClass.receipt_invalid = 400
status_code AppErrorClass.receipt_conflict = 409
status_code AppErrorClass.store_api_unavailable = 503
status_code AppErrorClass.webhook_signature_invalid = 400

-- The class attribute `default_detail`.
unfoldable pub default_detail : AppErrorClass → String
default_detail AppErrorClass.app_error = "An unexpected error occurred."
default_detail AppErrorClass.invalid_app_key = "Missing or invalid application key."
default_detail AppErrorClass.validation_failed = "Request could not be validated."
default_detail AppErrorClass.unauthorized_admin = "Missing or invalid admin credentials."
default_detail AppErrorClass.forbidden_admin_role =
    "This account is not permitted to use the admin API."
default_detail AppErrorClass.file_rejected = "The uploaded file was rejected."
default_detail AppErrorClass.tag_not_found = "One or more tags do not exist."
default_detail AppErrorClass.tag_slug_conflict = "A tag with this slug already exists."
default_detail AppErrorClass.tag_in_use = "This tag is still attached to wallpapers."
default_detail AppErrorClass.wallpaper_not_found = "One or more wallpapers do not exist."
default_detail AppErrorClass.collection_slug_conflict =
    "A collection with this slug already exists."
default_detail AppErrorClass.entitlement_required =
    "This wallpaper requires an active premium entitlement."
default_detail AppErrorClass.receipt_invalid = "The purchase could not be verified with the store."
default_detail AppErrorClass.receipt_conflict =
    "This transaction is already linked to a different subscription."
default_detail AppErrorClass.store_api_unavailable =
    "The store service is temporarily unavailable. Please try again."
default_detail AppErrorClass.webhook_signature_invalid =
    "The notification signature could not be verified."

-- The `detail` of a framework exception: a text, a list, a dict, or nothing.
mutual
  pub data Detail : Type 0 where
    absent : Detail
    text : String → Detail
    items : Details → Detail
    dict : Fields → Detail

  pub data Details : Type 0 where
    nil : Details
    cons : Detail → Details → Details

  pub data Fields : Type 0 where
    end : Fields
    field : String → Detail → Fields → Fields

-- What a view may raise: an `AppError` with its message, `Http404`, the framework's own
-- exceptions, and any other exception.
pub data Exc : Type 0 where
  app : AppErrorClass → String → Exc
  http404 : String → Exc
  not_found method_not_allowed : Detail → Exc
  not_authenticated authentication_failed : Detail → Exc
  validation_error parse_error : Detail → Exc
  -- any other exception of the framework, with its status
  api_exception : ℕ → Detail → Exc
  -- simplejwt's `TokenError`, which is no exception of the framework
  token_error : String → Exc
  other : String → Exc

-- `raise C()`: the exception with the default message of its class.
abbrev pub raised : AppErrorClass → Exc
raised c = app c (default_detail c)
