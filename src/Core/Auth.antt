-- ===== src/Core/Auth.antt =====
-- core/authentication.py, permissions.py, api.py and auth_views.py: the two tiers of the API, and
-- the login of the admin tier. simplejwt and Django's password check are given as functions.
pub mod Tiers
pub mod Login
use backend_live_canvas.Prelude.{
  ℕ, String, codes, Bool, true, false, ◌&&◌, not, Option, none, some, List, [], ◌∷◌, first, every,
  ltb, str_eq, truthy, if◌then◌else◌,
}
use backend_live_canvas.Core.Errors.{Exc, AppErrorClass, raised, Detail}
use backend_live_canvas.Core.Exec.{
  Result, ok, err, Exec, raise, pure, guard, then_result, ◌>>=◌, ◌>>◌,
}
use backend_live_canvas.Audit.{AuditLogEntry, Actor, Members, text, member, end, record_action}

-- A user of the admin tier.
pub record User : Type 0 where
  pub pk : ℕ
  pub username : String
  pub is_active : Bool
  pub is_staff : Bool

-- Who a request is from: the app, a user, or nobody.
pub data Principal : Type 0 where
  app_principal anonymous : Principal
  user : User → Principal

abbrev pub text_or_empty : Option String → String
text_or_empty none = ""
text_or_empty (some s) = s

abbrev pub is_ascii : String → Bool
is_ascii s = every (λ c. ltb c 128) (codes s)

-- `hmac.compare_digest` on texts: it raises unless both are ASCII.
unfoldable pub compare_digest : String → String → Result Bool
compare_digest a b =
    if is_ascii a && is_ascii b then ok (str_eq a b) else err (Exc.other "TypeError")

-- `AppKeyAuthentication.authenticate`, for the configured key and the presented header.
unfoldable pub authenticate_app : Option String → Option String → Result Principal
unfolding compare_digest
authenticate_app configured presented =
    if truthy (text_or_empty configured)
    then then_result (compare_digest (text_or_empty presented) (text_or_empty configured))
        (λ same. if same then ok app_principal else err (raised AppErrorClass.invalid_app_key))
    else err (raised AppErrorClass.invalid_app_key)

-- simplejwt: the raw token of a header, the validated token, and its user.
pub record Jwt : Type 0 where
  pub raw_token : String → Result (Option String)
  pub validated : String → Result String
  pub get_user : String → Result User

-- `except (InvalidToken, TokenError, AuthenticationFailed)`
abbrev pub unless_refused : {A : Type 0} → Result A → Result A
unless_refused (err (Exc.authentication_failed d)) = err (raised AppErrorClass.unauthorized_admin)
unless_refused (err (Exc.token_error m)) = err (raised AppErrorClass.unauthorized_admin)
unless_refused r = r

abbrev pub user_of : Jwt → String → Result User
user_of jwt raw = unless_refused (then_result (jwt.validated raw) jwt.get_user)

abbrev pub with_token : Jwt → Option String → Result User
with_token jwt none = err (raised AppErrorClass.unauthorized_admin)
with_token jwt (some raw) = user_of jwt raw

-- `AdminJWTAuthentication.authenticate`, for the header.
unfoldable pub authenticate_admin : Jwt → Option String → Result User
authenticate_admin jwt none = err (raised AppErrorClass.unauthorized_admin)
authenticate_admin jwt (some header) = then_result (jwt.raw_token header) (with_token jwt)

-- `IsAppAuthenticated.has_permission`
unfoldable pub is_app_authenticated : Principal → Bool
is_app_authenticated app_principal = true
is_app_authenticated _ = false

-- `IsAdminStaff.has_permission`: the user who may pass.
unfoldable pub is_admin_staff : Principal → Result User
is_admin_staff (user u) =
    if u.is_active && u.is_staff then ok u else err (raised AppErrorClass.forbidden_admin_role)
is_admin_staff _ = err (raised AppErrorClass.unauthorized_admin)

-- `AppTierAPIView`: what runs before a view.
unfoldable pub app_tier : Option String → Option String → Result Principal
app_tier configured presented =
    then_result (authenticate_app configured presented)
      (λ p. if is_app_authenticated p then ok p else err (Exc.not_authenticated Detail.absent))

-- `AdminTierAPIView`: what runs before a view.
unfoldable pub admin_tier : Jwt → Option String → Result User
admin_tier jwt header = then_result (authenticate_admin jwt header) (λ u. is_admin_staff (user u))

-- The pair that a login answers.
pub record TokenPair : Type 0 where
  pub access : String
  pub refresh : String
  pub expires_in : ℕ

-- What Django and simplejwt answer at a login.
pub record Accounts : Type 0 where
  pub users : List User
  pub check_password : User → String → Bool
  pub tokens : User → TokenPair

abbrev pub reason : String → Members
reason why = member "reason" (text why) end

abbrev pub as_actor : User → Actor
as_actor u = record { pk = some u.pk; username = u.username }

-- An attempt that fails is recorded and then raised.
abbrev pub refuse : ℕ → String → String → AppErrorClass → Exec (List AuditLogEntry) TokenPair
refuse now username why c = do
  record_action now none "admin.login_failed" none username (reason why)
  raise (raised c)

abbrev pub log_in : ℕ → Accounts → String → String → User → Exec (List AuditLogEntry) TokenPair
log_in now accounts username password u =
    if accounts.check_password u password
    then if u.is_active && u.is_staff
      then (do
        record_action now (some (as_actor u)) "admin.login" none "" end
        pure (accounts.tokens u))
      else refuse now username "not_staff" AppErrorClass.forbidden_admin_role
    else refuse now username "bad_credentials" AppErrorClass.unauthorized_admin

-- `AdminLoginView.post`
unfoldable pub login : ℕ → Accounts → String → String → Exec (List AuditLogEntry) TokenPair
login now accounts username password =
    elim (first (λ u. str_eq u.username username) accounts.users) [
      | none ↦ refuse now username "unknown_user" AppErrorClass.unauthorized_admin
      | some u ↦ log_in now accounts username password u
    ]

-- What the refresh serializer of simplejwt answers: a new pair, an `InvalidToken` or a `TokenError`,
-- or any other exception.
pub data RefreshAnswer : Type 0 where
  rotated : String → String → RefreshAnswer
  refused : RefreshAnswer
  failed : Exc → RefreshAnswer

-- `AdminRefreshView.post`, with the lifetime of an access token.
unfoldable pub refresh_tokens : ℕ → RefreshAnswer → Result TokenPair
refresh_tokens lifetime (rotated access refresh) =
    ok (record { access = access; refresh = refresh; expires_in = lifetime })
refresh_tokens lifetime refused = err (raised AppErrorClass.unauthorized_admin)
refresh_tokens lifetime (failed e) = err e
