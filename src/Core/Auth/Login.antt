-- ===== src/Core/Auth/Login.antt =====
-- Every login attempt is recorded (core/auth_views.py).
use backend_live_canvas.Prelude.{
  ℕ, ◌≡◌, refl, sym, ap, inl, inr, String, Bool, true, false, ◌&&◌, none, some, List, [], ◌∷◌, ◌++◌,
  first, first_sound, leb, text_length, truthy, truthy-false, or_else, str_eq, str_eq_iff,
  str_eq_refl, Bool-cases, Option-cases, if◌then◌else◌,
}
use backend_live_canvas.Core.Errors.{AppErrorClass, Exc, raised}
use backend_live_canvas.Core.Exec.{Result, ok, err, pure, raise, ◌>>◌}
use backend_live_canvas.Audit.{
  AuditLogEntry, insert_entry, entry_of, record_action, end, check_members,
}
use backend_live_canvas.Core.Auth.{User, TokenPair, Accounts, reason, as_actor, refuse, login}

-- Why an attempt is refused: its reason in the trail, and its error.
pub data Refusal (accounts : Accounts) (username password : String)
    : String → AppErrorClass → Type 0 where
  unknown_user :
      first (λ v. str_eq v.username username) accounts.users ≡ none
      → Refusal accounts username password "unknown_user" AppErrorClass.unauthorized_admin
  bad_credentials :
      (u : User)
      → first (λ v. str_eq v.username username) accounts.users ≡ some u
      → accounts.check_password u password ≡ false
      → Refusal accounts username password "bad_credentials" AppErrorClass.unauthorized_admin
  not_staff :
      (u : User)
      → first (λ v. str_eq v.username username) accounts.users ≡ some u
      → accounts.check_password u password ≡ true
      → u.is_active && u.is_staff ≡ false
      → Refusal accounts username password "not_staff" AppErrorClass.forbidden_admin_role

-- What an attempt leaves: the entry of a success, or that of a refusal with its reason.
abbrev pub Logged :
    ℕ
    → Accounts
    → String
    → String
    → List AuditLogEntry
    → Result TokenPair
    → List AuditLogEntry
    → Type 0
Logged now accounts username password log (ok pair) log' =
    (u : User) × (first (λ v. str_eq v.username username) accounts.users ≡ some u)
    × (accounts.check_password u password ≡ true)
    × (u.is_active && u.is_staff ≡ true)
    × (pair ≡ accounts.tokens u)
    × (log' ≡ log ++ entry_of now (some (as_actor u)) "admin.login" none "" end ∷ [])
Logged now accounts username password log (err e) log' =
    (why : String) × (c : AppErrorClass) × Refusal accounts username password why c
    × (e ≡ raised c)
    × (log' ≡ log ++ entry_of now none "admin.login_failed" none username (reason why) ∷ [])

-- The same by whether the name fits the trail.
abbrev pub Attempted :
    Bool
    → ℕ
    → Accounts
    → String
    → String
    → List AuditLogEntry
    → Result TokenPair
    → List AuditLogEntry
    → Type 0
Attempted true now accounts username password log r log' =
    Logged now accounts username password log r log'
Attempted false now accounts username password log r log' =
    (r ≡ err (Exc.other "DataError")) × (log' ≡ log)

label_length : (username : String) → text_length (or_else username "") ≡ text_length username
label_length username = elim (Bool-cases (truthy username)) [
  | inl e ↦ rw e refl
  | inr e ↦ rw e (ap text_length (sym (truthy-false username e)))
]

name_length :
    (u : User) (username : String)
    → u.username ≡ username
    → text_length (or_else "" u.username) ≡ text_length username
name_length u username e = rw (str_eq_refl "") (ap text_length e)

inserted :
    (e : AuditLogEntry) (n : ℕ) (log : List AuditLogEntry)
    → text_length e.actor_label ≡ n
    → insert_entry e log
      ≡ (if leb n 150 then (ok tt, log ++ e ∷ []) else (err (Exc.other "DataError"), log))
inserted e n log h =
    ap (λ (k : ℕ). if leb k 150 then (ok tt, log ++ e ∷ []) else (err (Exc.other "DataError"), log))
      h

module _ (now : ℕ) (accounts : Accounts) (username password : String)
    (log : List AuditLogEntry) where
  abbrev fits : Bool
  fits = leb (text_length username) 150

  refuse-Attempted :
      (why : String) (c : AppErrorClass)
      → check_members (reason why) ≡ none
      → Refusal accounts username password why c
      → Attempted fits now accounts username password log
          (refuse now username why c log).0
          (refuse now username why c log).1
  unfolding record_action
  refuse-Attempted why c h r =
      let entry : AuditLogEntry =
        entry_of now none "admin.login_failed" none username (reason why) in
      rw (h, record_action)
        (rw (inserted entry (text_length username) log (label_length username)) (split fits))
    where
      split :
          (b : Bool)
          → (let run =
                ((λ (_ : List AuditLogEntry).
                      if b
                      then (
                        ok tt,
                        log
                            ++ entry_of now none "admin.login_failed" none username (reason why)
                              ∷ [],
                      )
                      else (err (Exc.other "DataError"), log))
                    >> raise {A = TokenPair} (raised c))
                  log in
              Attempted b now accounts username password log run.0 run.1)
      split true = (why, c, r, refl, refl)
      split false = (refl, refl)

  no_leak :
      (check_members (reason "unknown_user") ≡ none)
      × (check_members (reason "bad_credentials") ≡ none)
      × (check_members (reason "not_staff") ≡ none)
  unfolding check_members
  no_leak = (refl, refl, refl)

  recorded :
      (u : User)
      → u.username ≡ username
      → record_action now (some (as_actor u)) "admin.login" none "" end log ≡ (
          if fits
          then (ok tt, log ++ entry_of now (some (as_actor u)) "admin.login" none "" end ∷ [])
          else (err (Exc.other "DataError"), log))
  unfolding record_action check_members
  recorded u e =
      inserted (entry_of now (some (as_actor u)) "admin.login" none "" end) (text_length username)
        log (name_length u username e)

  admitted-Attempted :
      (u : User)
      → first (λ v. str_eq v.username username) accounts.users ≡ some u
      → accounts.check_password u password ≡ true
      → u.is_active && u.is_staff ≡ true
      → (let run =
            (record_action now (some (as_actor u)) "admin.login" none "" end
                >> pure (accounts.tokens u))
              log in
          Attempted fits now accounts username password log run.0 run.1)
  admitted-Attempted u e f g =
      rw
        (recorded u (
          (str_eq_iff u.username username).0
            (first_sound (λ v. str_eq v.username username) accounts.users e)))
        (split fits)
    where
      split :
          (b : Bool)
          → (let run =
                ((λ (_ : List AuditLogEntry).
                      if b
                      then (
                        ok tt,
                        log ++ entry_of now (some (as_actor u)) "admin.login" none "" end ∷ [],
                      )
                      else (err (Exc.other "DataError"), log))
                    >> pure (accounts.tokens u))
                  log in
              Attempted b now accounts username password log run.0 run.1)
      split true = (u, e, f, g, refl, refl)
      split false = (refl, refl)

  -- A login attempt adds exactly one entry to the trail, if the name has at most 150 characters. A
  -- success answers the tokens of a known user, active and staff, whose password is right, and its
  -- entry holds the user and the time alone. A refusal has the reason and the error that the accounts
  -- call for: an unknown user, a wrong password, or a user who is not active or not staff; its entry
  -- holds the given name, the time and that reason alone. A longer name fails in the database and
  -- adds none.
  pub login-Attempted :
      Attempted fits now accounts username password log
        (login now accounts username password log).0
        (login now accounts username password log).1
  unfolding login
  login-Attempted = elim (Option-cases (first (λ v. str_eq v.username username) accounts.users)) [
    | inl e ↦
        rw (e, login)
          (refuse-Attempted "unknown_user" AppErrorClass.unauthorized_admin no_leak.0
            (Refusal.unknown_user e))
    | inr (u, e) ↦ elim (Bool-cases (accounts.check_password u password)) [
      | inr f ↦
          rw (e, f, login)
            (refuse-Attempted "bad_credentials" AppErrorClass.unauthorized_admin no_leak.1
              (Refusal.bad_credentials u e f))
      | inl f ↦ elim (Bool-cases (u.is_active && u.is_staff)) [
        | inr g ↦
            rw (e, f, g, login)
              (refuse-Attempted "not_staff" AppErrorClass.forbidden_admin_role no_leak.2
                (Refusal.not_staff u e f g))
        | inl g ↦ rw (e, f, g, login) (admitted-Attempted u e f g)
      ]
    ]
  ]
