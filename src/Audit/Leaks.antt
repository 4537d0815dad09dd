-- ===== src/Audit/Leaks.antt =====
-- What the guard of apps/audit/services.py refuses, said without it: a forbidden key or a marked
-- text at any depth of the metadata.
use backend_live_canvas.Prelude.{
  ℕ, String, codes, ◌≡◌, refl, ◌↔◌, ◌⊎◌, inl, inr, true, Option, none, some, List, [], ◌∷◌, ◌++◌,
  In, or_first, is_some, leb, text_length, if◌then◌else◌, Bool-cases, Option-cases,
}
use backend_live_canvas.Core.Errors.{Exc}
use backend_live_canvas.Core.Exec.{ok, err}
use backend_live_canvas.Audit.Lower.{
  lower, any_equal, any_within, AnyWithin, any_equal_sound, any_equal_complete, any_within_sound,
  any_within_complete,
}
use backend_live_canvas.Audit.{
  Json, Items, Members, Actor, Subject, AuditLogEntry, null, boolean, number, text, items, dict,
  nil, cons, end, member, forbidden_keys, forbidden_value_markers, check_clean, check_items,
  check_members, entry_of, record_action,
}

-- The places where metadata would leak a secret.
mutual
  pub data Leaks : Json → Type 0 where
    marked : (s : String) → AnyWithin forbidden_value_markers (lower (codes s)) → Leaks (text s)
    in_items : (js : Items) → LeaksItems js → Leaks (items js)
    in_dict : (ms : Members) → LeaksMembers ms → Leaks (dict ms)

  pub data LeaksItems : Items → Type 0 where
    here : (j : Json) (js : Items) → Leaks j → LeaksItems (cons j js)
    later : (j : Json) (js : Items) → LeaksItems js → LeaksItems (cons j js)

  pub data LeaksMembers : Members → Type 0 where
    named :
        (key : String) (j : Json) (ms : Members)
        → In (lower (codes key)) forbidden_keys
        → LeaksMembers (member key j ms)
    below : (key : String) (j : Json) (ms : Members) → Leaks j → LeaksMembers (member key j ms)
    after :
        (key : String) (j : Json) (ms : Members) → LeaksMembers ms → LeaksMembers (member key j ms)

or_first-cases :
    {A : Type 0} (x y : Option A)
    → is_some (or_first x y) ≡ true
    → (is_some x ≡ true) ⊎ (is_some y ≡ true)
or_first-cases none y h = inr h
or_first-cases (some a) y h = inl refl

or_first-left : {A : Type 0} (x y : Option A) → is_some x ≡ true → is_some (or_first x y) ≡ true
or_first-left none y h = cc
or_first-left (some a) y h = refl

or_first-right : {A : Type 0} (x y : Option A) → is_some y ≡ true → is_some (or_first x y) ≡ true
or_first-right none y h = h
or_first-right (some a) y h = refl

mutual
  unfolding check_clean

  check_clean_sound : (j : Json) → is_some (check_clean j) ≡ true → Leaks j
  check_clean_sound null h = absurd (cc)
  check_clean_sound (boolean b) h = absurd (cc)
  check_clean_sound (number n) h = absurd (cc)
  check_clean_sound (text s) h =
      elim (Bool-cases (any_within forbidden_value_markers (lower (codes s)))) [
        | inl e ↦ marked s (any_within_sound forbidden_value_markers (lower (codes s)) e)
        | inr e ↦ absurd (cc (rw e at h))
      ]
  check_clean_sound (items js) h = in_items js (check_items_sound js h)
  check_clean_sound (dict ms) h = in_dict ms (check_members_sound ms h)

  check_items_sound : (js : Items) → is_some (check_items js) ≡ true → LeaksItems js
  check_items_sound nil h = absurd (cc)
  check_items_sound (cons j js) h = elim (or_first-cases (check_clean j) (check_items js) h) [
    | inl e ↦ here j js (check_clean_sound j e)
    | inr e ↦ later j js (check_items_sound js e)
  ]

  check_members_sound : (ms : Members) → is_some (check_members ms) ≡ true → LeaksMembers ms
  check_members_sound end h = absurd (cc)
  check_members_sound (member key j ms) h =
      elim (Bool-cases (any_equal forbidden_keys (lower (codes key)))) [
        | inl e ↦ named key j ms (any_equal_sound forbidden_keys (lower (codes key)) e)
        | inr e ↦ elim (or_first-cases (check_clean j) (check_members ms) (rw e at h)) [
          | inl f ↦ below key j ms (check_clean_sound j f)
          | inr f ↦ after key j ms (check_members_sound ms f)
        ]
      ]

mutual
  unfolding check_clean

  check_clean_complete : {j : Json} → Leaks j → is_some (check_clean j) ≡ true
  check_clean_complete (marked s w) =
      rw (any_within_complete forbidden_value_markers (lower (codes s)) w)
  check_clean_complete (in_items js l) = check_items_complete l
  check_clean_complete (in_dict ms l) = check_members_complete l

  check_items_complete : {js : Items} → LeaksItems js → is_some (check_items js) ≡ true
  check_items_complete (here j js l) =
      or_first-left (check_clean j) (check_items js) (check_clean_complete l)
  check_items_complete (later j js l) =
      or_first-right (check_clean j) (check_items js) (check_items_complete l)

  check_members_complete : {ms : Members} → LeaksMembers ms → is_some (check_members ms) ≡ true
  check_members_complete (named key j ms m) =
      rw (any_equal_complete forbidden_keys (lower (codes key)) m)
  check_members_complete (below key j ms l) =
      elim (Bool-cases (any_equal forbidden_keys (lower (codes key)))) [
        | inl e ↦ rw e
        | inr e ↦ rw e (or_first-left (check_clean j) (check_members ms) (check_clean_complete l))
      ]
  check_members_complete (after key j ms l) =
      elim (Bool-cases (any_equal forbidden_keys (lower (codes key)))) [
        | inl e ↦ rw e
        | inr e ↦
            rw e (or_first-right (check_clean j) (check_members ms) (check_members_complete l))
      ]

-- The guard raises on metadata exactly when a forbidden key, in any case, or a text with a
-- forbidden marker in it, in any case, stands at some depth.
pub check_members-Leaks_iff : (ms : Members) → (is_some (check_members ms) ≡ true) ↔ LeaksMembers ms
check_members-Leaks_iff ms = (check_members_sound ms, λ l. check_members_complete l)

-- Recording on metadata with no leak appends exactly the one entry, if its label has at most 150
-- characters, and fails in the database otherwise; on metadata with a leak it raises the guard's
-- error, whatever the label. Where it raises, the trail is as it was.
pub record_action_guarded :
    (now : ℕ) (actor : Option Actor) (action : String) (obj : Option Subject) (label : String)
    (ms : Members) (log : List AuditLogEntry)
    → (let entry : AuditLogEntry = entry_of now actor action obj label ms in
        (¬ LeaksMembers ms
          → record_action now actor action obj label ms log ≡ (
              if leb (text_length entry.actor_label) 150
              then (ok tt, log ++ entry ∷ [])
              else (err (Exc.other "DataError"), log)))
        × (LeaksMembers ms
            → record_action now actor action obj label ms log
              ≡ (err (Exc.other "AuditSanitizationError"), log)))
unfolding record_action
record_action_guarded now actor action obj label ms log = elim (Option-cases (check_members ms)) [
  | inl e ↦ (λ clean. rw (e, record_action) refl, λ l. absurd (cc (check_members_complete l, e)))
  | inr (x, e) ↦
      (λ clean. absurd (clean (check_members_sound ms (rw e))), λ l. rw (e, record_action))
]

-- A record either appends its entry or raises and leaves the trail.
pub record_action_cases :
    (now : ℕ) (actor : Option Actor) (action : String) (obj : Option Subject) (label : String)
    (ms : Members) (log : List AuditLogEntry)
    → (record_action now actor action obj label ms log
        ≡ (ok tt, log ++ entry_of now actor action obj label ms ∷ []))
      ⊎ ((e : Exc) × (record_action now actor action obj label ms log ≡ (err e, log)))
unfolding record_action
record_action_cases now actor action obj label ms log = elim (Option-cases (check_members ms)) [
  | inr (x, e) ↦ inr (Exc.other "AuditSanitizationError", rw (e, record_action) refl)
  | inl e ↦
      elim (Bool-cases
        (leb (text_length (entry_of now actor action obj label ms).actor_label) 150)) [
          | inl f ↦ inl (rw (e, record_action) (rw f refl))
          | inr f ↦ inr (Exc.other "DataError", rw (e, record_action) (rw f refl))
        ]
]
