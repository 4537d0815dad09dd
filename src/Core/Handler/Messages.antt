-- ===== src/Core/Handler/Messages.antt =====
-- The envelope's message and code (core/exception_handler.py).
use Prim.Native.String.{◌++◌ as concat}
use backend_live_canvas.Prelude.{
  ℕ, String, ◌≡◌, refl, ◌≢◌, ◌↔◌, inl, inr, false, Option, some, List, [], ◌∷◌, ◌++◌, All,
  All-append, str_eq, str_eq_iff, or_else, truthy, truthy-false, not_truthy, truthy_of_ne,
  concat-ne-blank, if◌then◌else◌, Bool-cases, Option-cases,
}
use backend_live_canvas.Core.Errors.{
  AppErrorClass, ErrorCode, Exc, Detail, Details, Fields, absent, text, items, dict, nil, cons, end,
  field, error_code, status_code,
}
use backend_live_canvas.Core.Handler.{
  code_for, labelled, flatten_detail, flatten_items, flatten_fields, detail_of, is_server_error,
  message_for, generic_server_message, structured_exception_handler,
}

-- The texts of a detail, from left to right.
unfoldable mutual
  pub leaves : Detail → List String
  leaves absent = []
  leaves (text s) = s ∷ []
  leaves (items ds) = leaves_items ds
  leaves (dict fs) = leaves_fields fs

  pub leaves_items : Details → List String
  leaves_items nil = []
  leaves_items (cons d ds) = leaves d ++ leaves_items ds

  pub leaves_fields : Fields → List String
  leaves_fields end = []
  leaves_fields (field key d fs) = leaves d ++ leaves_fields fs

abbrev pub IsBlank : List String → Type 0
IsBlank = All (λ (s : String). s ≡ "")

IsBlank-append : (xs ys : List String) → IsBlank (xs ++ ys) → IsBlank xs × IsBlank ys
IsBlank-append [] ys h = (tt, h)
IsBlank-append (x ∷ xs) ys h = let (a, b) = IsBlank-append xs ys h.1 in ((h.0, a), b)

or_else-blank : (a b : String) → or_else a b ≡ "" → (a ≡ "") × (b ≡ "")
or_else-blank a b h = elim (Bool-cases (truthy a)) [
  | inl e ↦ absurd (cc (not_truthy a (rw e at h), e))
  | inr e ↦ (truthy-false a e, rw e at h)
]

labelled-ne-blank : (key msg : String) → msg ≢ "" → labelled key msg ≢ ""
labelled-ne-blank key msg h = elim (Bool-cases (str_eq key "non_field_errors")) [
  | inl e ↦ rw e h
  | inr e ↦ rw e (concat-ne-blank key (concat ": " msg) (concat-ne-blank ": " msg h))
]

-- Either side of the branch on a field's message.
field_blank :
    (key msg rest : String)
    → (if truthy msg then labelled key msg else rest) ≡ ""
    → (msg ≡ "") × (rest ≡ "")
field_blank key msg rest h = elim (Bool-cases (truthy msg)) [
  | inl e ↦ absurd (labelled-ne-blank key msg (λ b. cc (not_truthy msg b, e)) (rw e at h))
  | inr e ↦ (truthy-false msg e, rw e at h)
]

mutual
  unfolding flatten_detail leaves

  IsBlank-of_flatten : (d : Detail) → flatten_detail d ≡ "" → IsBlank (leaves d)
  IsBlank-of_flatten absent h = tt
  IsBlank-of_flatten (text s) h = (h, tt)
  IsBlank-of_flatten (items ds) h = IsBlank-of_items ds h
  IsBlank-of_flatten (dict fs) h = IsBlank-of_fields fs h

  IsBlank-of_items : (ds : Details) → flatten_items ds ≡ "" → IsBlank (leaves_items ds)
  IsBlank-of_items nil h = tt
  IsBlank-of_items (cons d ds) h =
      let (a, b) = or_else-blank (flatten_detail d) (flatten_items ds) h in
      All-append (λ (s : String). s ≡ "") (leaves d) (leaves_items ds) (IsBlank-of_flatten d a)
        (IsBlank-of_items ds b)

  IsBlank-of_fields : (fs : Fields) → flatten_fields fs ≡ "" → IsBlank (leaves_fields fs)
  IsBlank-of_fields end h = tt
  IsBlank-of_fields (field key d fs) h =
      let (a, b) = field_blank key (flatten_detail d) (flatten_fields fs) h in
      All-append (λ (s : String). s ≡ "") (leaves d) (leaves_fields fs) (IsBlank-of_flatten d a)
        (IsBlank-of_fields fs b)

mutual
  unfolding flatten_detail leaves

  flatten_of_IsBlank : (d : Detail) → IsBlank (leaves d) → flatten_detail d ≡ ""
  flatten_of_IsBlank absent h = refl
  flatten_of_IsBlank (text s) h = h.0
  flatten_of_IsBlank (items ds) h = items_of_IsBlank ds h
  flatten_of_IsBlank (dict fs) h = fields_of_IsBlank fs h

  items_of_IsBlank : (ds : Details) → IsBlank (leaves_items ds) → flatten_items ds ≡ ""
  items_of_IsBlank nil h = refl
  items_of_IsBlank (cons d ds) h =
      let (a, b) = IsBlank-append (leaves d) (leaves_items ds) h in
      rw (not_truthy (flatten_detail d) (flatten_of_IsBlank d a)) (items_of_IsBlank ds b)

  fields_of_IsBlank : (fs : Fields) → IsBlank (leaves_fields fs) → flatten_fields fs ≡ ""
  fields_of_IsBlank end h = refl
  fields_of_IsBlank (field key d fs) h =
      let (a, b) = IsBlank-append (leaves d) (leaves_fields fs) h in
      rw (not_truthy (flatten_detail d) (flatten_of_IsBlank d a)) (fields_of_IsBlank fs b)

-- The message that a detail is reduced to is empty exactly when every text in it is empty: no
-- text of a nested detail is lost where there is one to show.
pub flatten_detail-IsBlank_iff : (d : Detail) → (flatten_detail d ≡ "") ↔ IsBlank (leaves d)
flatten_detail-IsBlank_iff d = (IsBlank-of_flatten d, flatten_of_IsBlank d)

literal-ne-blank : (s t : String) → str_eq s t ≡ false → s ≢ t
literal-ne-blank s t h e = cc ((str_eq_iff s t).1 e, h)

or_else-ne-blank : (a b : String) → b ≢ "" → or_else a b ≢ ""
or_else-ne-blank a b h e = h (or_else-blank a b e).1

message_for_safe :
    (exc : Exc) (code : ErrorCode)
    → (message_for exc code ≢ "")
      × (code ≡ ErrorCode.server_error → message_for exc code ≡ generic_server_message)
unfolding message_for str_eq
message_for_safe exc ErrorCode.server_error = (literal-ne-blank _ _ refl, λ _. refl)
message_for_safe exc _ = (
  or_else-ne-blank (flatten_detail (detail_of exc)) "Request could not be processed."
      (literal-ne-blank _ _ refl),
  λ e. cc,
)

-- The envelope of any exception, whatever the framework makes of it: its message is never empty,
-- and where its code is SERVER_ERROR the message is the generic one, so that no detail of the
-- exception is shown.
pub envelope_safe :
    (drf : Exc → Option ℕ) (exc : Exc)
    → ((structured_exception_handler drf exc).message ≢ "")
      × ((structured_exception_handler drf exc).code ≡ ErrorCode.server_error
          → (structured_exception_handler drf exc).message ≡ generic_server_message)
unfolding structured_exception_handler str_eq
envelope_safe drf exc = elim (Option-cases (drf exc)) [
  | inl e ↦ rw (e, structured_exception_handler) (literal-ne-blank _ _ refl, λ _. refl)
  | inr (status, e) ↦
      rw (e, structured_exception_handler) (message_for_safe exc (code_for exc (some status)))
]

not_server_error :
    (c : AppErrorClass) → c ≢ AppErrorClass.app_error → is_server_error (error_code c) ≡ false
unfolding error_code
not_server_error AppErrorClass.app_error k = absurd (k refl)
not_server_error _ k = refl

-- An application error keeps its own status and code, and the text that was raised with it: the
-- framework answers an `APIException` with the status of its class.
pub envelope_of_app :
    (drf : Exc → Option ℕ) (c : AppErrorClass) (m : String)
    → drf (Exc.app c m) ≡ some (status_code c)
    → c ≢ AppErrorClass.app_error
    → m ≢ ""
    → structured_exception_handler drf (Exc.app c m)
      ≡ record { status = status_code c; code = error_code c; message = m }
unfolding structured_exception_handler code_for message_for
envelope_of_app drf c m h k b =
    rw (h, structured_exception_handler) (rw (not_server_error c k) (rw (truthy_of_ne m b) refl))
