-- ===== src/Core/Auth/Tiers.antt =====
-- Who passes the two tiers of the API (core/authentication.py, permissions.py and api.py).
use backend_live_canvas.Prelude.{
  ◌≡◌, refl, ◌↔◌, inl, inr, String, true, ◌&&◌, Option, none, some, and_true, subst, str_eq,
  str_eq_iff, str_eq_refl, truthy, Bool-cases,
}
use backend_live_canvas.Core.Errors.{Exc}
use backend_live_canvas.Core.Exec.{Result, ok, err, Result-cases, then_result}
use backend_live_canvas.Core.Auth.{
  User, Principal, app_principal, text_or_empty, is_ascii, compare_digest, authenticate_app, Jwt,
  with_token, unless_refused, user_of, authenticate_admin, is_app_authenticated, is_admin_staff,
  app_tier, admin_tier,
}

not_ok : {A : Type 0} (e : Exc) {a : A} → ◌≡◌ {A = Result A} (err e) (ok a) → ⊥
not_ok e q = cc

module _ (configured presented : Option String) where
  passed :
      app_tier configured presented ≡ ok app_principal
      → (truthy (text_or_empty configured) ≡ true)
        × (is_ascii (text_or_empty configured) ≡ true)
        × (text_or_empty presented ≡ text_or_empty configured)
  unfolding app_tier authenticate_app compare_digest
  passed h =
      let a : String = text_or_empty presented in
      let b : String = text_or_empty configured in
      elim (Bool-cases (truthy b)) [
        | inr e ↦ absurd (not_ok _ (rw (e, app_tier, authenticate_app) at h))
        | inl e ↦ elim (Bool-cases (is_ascii a && is_ascii b)) [
          | inr f ↦ absurd (not_ok _ (rw (e, f, app_tier, authenticate_app, compare_digest) at h))
          | inl f ↦ elim (Bool-cases (str_eq a b)) [
            | inr g ↦
                absurd (not_ok _ (rw (e, f, g, app_tier, authenticate_app, compare_digest) at h))
            | inl g ↦ (e, (and_true (is_ascii a) (is_ascii b) f).1, (str_eq_iff a b).0 g)
          ]
        ]
      ]

  let_through :
      truthy (text_or_empty configured) ≡ true
      → is_ascii (text_or_empty configured) ≡ true
      → text_or_empty presented ≡ text_or_empty configured
      → app_tier configured presented ≡ ok app_principal
  unfolding app_tier authenticate_app compare_digest is_app_authenticated
  let_through e f g =
      rw (
        e,
        g,
        f,
        str_eq_refl (text_or_empty configured),
        app_tier,
        authenticate_app,
        compare_digest,
      )

  -- The app tier is passed by exactly the requests that present the configured key, which is not
  -- empty and is ASCII; an empty configuration lets nobody through.
  pub app_tier_iff : (app_tier configured presented ≡ ok app_principal) ↔ (
      (truthy (text_or_empty configured) ≡ true)
      × (is_ascii (text_or_empty configured) ≡ true)
      × (text_or_empty presented ≡ text_or_empty configured))
  app_tier_iff = (passed, λ h. let_through h.0 h.1 h.2)

-- What a request of the admin tier has shown.
pub record IsStaff (jwt : Jwt) (header : Option String) (u : User) : Type 0 where
  pub raw_header : String
  pub raw : String
  pub sent : header ≡ some raw_header
  pub token : jwt.raw_token raw_header ≡ ok (some raw)
  pub accepted : then_result (jwt.validated raw) jwt.get_user ≡ ok u
  pub active : u.is_active ≡ true
  pub staff : u.is_staff ≡ true

unless_refused_ok : {A : Type 0} (r : Result A) {a : A} → unless_refused r ≡ ok a → r ≡ ok a
unless_refused_ok (ok b) h = h
unless_refused_ok {A = A} (err e) {a} h = absurd (refused e h)
  where
    refused : (e : Exc) → unless_refused {A = A} (err e) ≡ ok a → ⊥
    refused (Exc.app c m) q = cc
    refused (Exc.http404 m) q = cc
    refused (Exc.not_found d) q = cc
    refused (Exc.method_not_allowed d) q = cc
    refused (Exc.not_authenticated d) q = cc
    refused (Exc.authentication_failed d) q = cc
    refused (Exc.validation_error d) q = cc
    refused (Exc.parse_error d) q = cc
    refused (Exc.api_exception n d) q = cc
    refused (Exc.token_error m) q = cc
    refused (Exc.other m) q = cc

staff_passed :
    (u v : User)
    → is_admin_staff (Principal.user u) ≡ ok v
    → (u ≡ v) × (u.is_active ≡ true) × (u.is_staff ≡ true)
unfolding is_admin_staff
staff_passed u v h = elim (Bool-cases (u.is_active && u.is_staff)) [
  | inr e ↦ absurd (not_ok _ (rw e at h))
  | inl e ↦
      let q : ◌≡◌ {A = Result User} (ok u) (ok v) = rw e at h in
      (same q, (and_true u.is_active u.is_staff e).0, (and_true u.is_active u.is_staff e).1)
]
  where
    same : ◌≡◌ {A = Result User} (ok u) (ok v) → u ≡ v
    same q = cc

-- A request that passes the admin tier carries a token that simplejwt accepts for the user it acts
-- as, who is active and staff.
pub admin_tier-IsStaff :
    (jwt : Jwt) (header : Option String) {u : User}
    → admin_tier jwt header ≡ ok u
    → IsStaff jwt header u
unfolding admin_tier authenticate_admin
admin_tier-IsStaff jwt none {u} h = absurd (not_ok _ h)
admin_tier-IsStaff jwt (some header) {u} h = elim (Result-cases (jwt.raw_token header)) [
  | inr (x, e) ↦ absurd (not_ok x (rw (e, admin_tier, authenticate_admin) at h))
  | inl (raw, e) ↦ with_raw raw e (rw (e, admin_tier, authenticate_admin) at h)
]
  where
    with_raw :
        (raw : Option String)
        → jwt.raw_token header ≡ ok raw
        → then_result (with_token jwt raw) (λ v. is_admin_staff (Principal.user v)) ≡ ok u
        → IsStaff jwt (some header) u
    with_raw none e q = absurd (not_ok _ q)
    with_raw (some raw) e q = elim (Result-cases (user_of jwt raw)) [
      | inr (x, f) ↦ absurd (not_ok x (rw f at q))
      | inl (v, f) ↦
          let s = staff_passed v u (rw f at q) in
          let accepted = unless_refused_ok (then_result (jwt.validated raw) jwt.get_user) f in
          subst (IsStaff jwt (some header)) s.0 (record {
            raw_header = header;
            raw = raw;
            sent = refl;
            token = e;
            accepted = accepted;
            active = s.1;
            staff = s.2;
          })
    ]
