-- ===== src/Audit.antt =====
-- apps/audit: the append-only trail of actions and the guard that keeps secrets out of it.
pub mod Lower
pub mod Leaks
use backend_live_canvas.Prelude.{
  ℕ, String, codes, Bool, true, false, Option, none, some, List, [], ◌∷◌, ◌++◌, or_else, or_first,
  leb, text_length, if◌then◌else◌,
}
use backend_live_canvas.Core.Errors.{Exc}
use backend_live_canvas.Core.Exec.{Exec, Result, ok, err}
use backend_live_canvas.Audit.Lower.{lower, contains, any_equal, any_within}

-- The values that `metadata` may hold.
mutual
  pub data Json : Type 0 where
    null : Json
    boolean : Bool → Json
    number : ℕ → Json
    text : String → Json
    items : Items → Json
    dict : Members → Json

  pub data Items : Type 0 where
    nil : Items
    cons : Json → Items → Items

  pub data Members : Type 0 where
    end : Members
    member : String → Json → Members → Members

-- `_FORBIDDEN_KEYS`
abbrev pub forbidden_keys : List (List ℕ)
forbidden_keys =
    codes "password"
    ∷ codes "token"
    ∷ codes "access"
    ∷ codes "refresh"
    ∷ codes "authorization"
    ∷ codes "secret"
    ∷ codes "receipt"
    ∷ []

-- `_FORBIDDEN_VALUE_MARKERS`
abbrev pub forbidden_value_markers : List (List ℕ)
forbidden_value_markers =
    codes "x-amz-signature" ∷ codes "x-amz-credential" ∷ codes "bearer ey" ∷ codes "jwt ey" ∷ []

-- `AuditSanitizationError`: for a key, or for a value.
pub data AuditSanitizationError : Type 0 where
  forbidden_key : String → AuditSanitizationError
  forbidden_value : AuditSanitizationError

-- `_check_clean`: `none` where it returns, and the error that it raises otherwise.
unfoldable mutual
  unfolding lower any_equal any_within

  pub check_clean : Json → Option AuditSanitizationError
  check_clean null = none
  check_clean (boolean b) = none
  check_clean (number n) = none
  check_clean (text s) =
      if any_within forbidden_value_markers (lower (codes s)) then some forbidden_value else none
  check_clean (items js) = check_items js
  check_clean (dict ms) = check_members ms

  pub check_items : Items → Option AuditSanitizationError
  check_items nil = none
  check_items (cons j js) = or_first (check_clean j) (check_items js)

  pub check_members : Members → Option AuditSanitizationError
  check_members end = none
  check_members (member key j ms) =
      if any_equal forbidden_keys (lower (codes key))
      then some (forbidden_key key)
      else or_first (check_clean j) (check_members ms)

-- Who acts: a user with a primary key and a name.
pub record Actor : Type 0 where
  pub pk : Option ℕ
  pub username : String

-- The object that an action is about: its model and its primary key.
pub record Subject : Type 0 where
  pub model_name : String
  pub pk : Option ℕ

-- `AuditLogEntry`; `object_id` is kept as a number.
pub record AuditLogEntry : Type 0 where
  pub actor : Option ℕ
  pub actor_label : String
  pub action : String
  pub object_type : String
  pub object_id : Option ℕ
  pub metadata : Members
  pub created_at : ℕ

abbrev pub actor_pk : Option Actor → Option ℕ
actor_pk none = none
actor_pk (some a) = a.pk

abbrev pub actor_name : Option Actor → String
actor_name none = ""
actor_name (some a) = a.username

abbrev pub subject_type : Option Subject → String
subject_type none = ""
subject_type (some o) = o.model_name

abbrev pub subject_pk : Option Subject → Option ℕ
subject_pk none = none
subject_pk (some o) = o.pk

abbrev pub entry_of : ℕ → Option Actor → String → Option Subject → String → Members → AuditLogEntry
entry_of now actor action obj label metadata = record {
  actor = actor_pk actor;
  actor_label = or_else label (actor_name actor);
  action = action;
  object_type = subject_type obj;
  object_id = subject_pk obj;
  metadata = metadata;
  created_at = now;
}

-- The longest label that the table takes: the `max_length` of `actor_label`. The actions and the
-- model names that the program records are shorter than their limits.
abbrev pub label_limit : ℕ
label_limit = 150

-- `AuditLogEntry.objects.create`; the database refuses a label that is too long.
abbrev pub insert_entry : AuditLogEntry → Exec (List AuditLogEntry) Unit
insert_entry e log =
    if leb (text_length e.actor_label) label_limit
    then (ok tt, log ++ e ∷ [])
    else (err (Exc.other "DataError"), log)

-- `record`, at the time `now`: one entry, or the error of the guard or of the database.
unfoldable pub record_action :
    ℕ → Option Actor → String → Option Subject → String → Members → Exec (List AuditLogEntry) Unit
unfolding check_clean
record_action now actor action obj label metadata log = elim (check_members metadata) [
  | none ↦ insert_entry (entry_of now actor action obj label metadata) log
  | some e ↦ (err (Exc.other "AuditSanitizationError"), log)
]
