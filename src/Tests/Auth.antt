-- ===== src/Tests/Auth.antt =====
-- Runs of core/authentication.py, permissions.py and auth_views.py.
use backend_live_canvas.Prelude.{◌≡◌, ◌↔◌, refl, true, some, [], ◌∷◌, str_eq, truthy}
use backend_live_canvas.Core.Exec.{ok}
use backend_live_canvas.Core.Auth.{
  User, app_principal, text_or_empty, is_ascii, app_tier, Jwt, admin_tier, authenticate_admin,
  is_admin_staff, Accounts, login,
}
use backend_live_canvas.Core.Auth.Tiers.{app_tier_iff, IsStaff, admin_tier-IsStaff}
use backend_live_canvas.Core.Auth.Login.{Attempted, login-Attempted}

app_tier_iff_example : (app_tier (some "k-123") (some "k-123") ≡ ok app_principal) ↔ (
    (truthy (text_or_empty (some "k-123")) ≡ true)
    × (is_ascii (text_or_empty (some "k-123")) ≡ true)
    × (text_or_empty (some "k-123") ≡ text_or_empty (some "k-123")))
app_tier_iff_example = app_tier_iff (some "k-123") (some "k-123")

abbrev operator : User
operator = record { pk = 1; username = "ops"; is_active = true; is_staff = true }

abbrev tokens : Jwt
tokens = record {
  raw_token = λ header. ok (some "jwt");
  validated = λ raw. ok "1";
  get_user = λ token. ok operator;
}

operator_passes : admin_tier tokens (some "Bearer jwt") ≡ ok operator
unfolding admin_tier authenticate_admin is_admin_staff
operator_passes = refl

admin_tier-IsStaff_example : IsStaff tokens (some "Bearer jwt") operator
admin_tier-IsStaff_example = admin_tier-IsStaff tokens (some "Bearer jwt") operator_passes

abbrev accounts : Accounts
accounts = record {
  users = operator ∷ [];
  check_password = λ u password. str_eq password "right";
  tokens = λ u. record { access = "a"; refresh = "r"; expires_in = 1800 };
}

login-Attempted_example :
    Attempted true 1000 accounts "ops" "wrong" []
      (login 1000 accounts "ops" "wrong" []).0
      (login 1000 accounts "ops" "wrong" []).1
login-Attempted_example = login-Attempted 1000 accounts "ops" "wrong" []
