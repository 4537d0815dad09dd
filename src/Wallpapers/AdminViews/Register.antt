-- ===== src/Wallpapers/AdminViews/Register.antt =====
-- Registering an upload is all or nothing (apps/wallpapers/admin_views.py).
use backend_live_canvas.Prelude.{
  ℕ, ◌≡◌, ◌≢◌, refl, sym, ◌∙◌, ap, subst, inl, inr, ◌⊎◌, String, true, Option, none, some, List, [],
  ◌∷◌, ◌++◌, Bool-cases, every, update, ◌==◌, str_eq, str_eq_iff, first_sound,
}
use backend_live_canvas.Core.Errors.{Exc}
use backend_live_canvas.Core.Exec.{
  Result, ok, err, Result-cases, atomic, atomic_err, atomic_ok, bind_ok, Outcome, ok_pair, pure,
  ◌>>=◌, ◌>>◌,
}
use backend_live_canvas.Audit.{Actor, Subject, Members, entry_of}
use backend_live_canvas.Audit.Leaks.{record_action_cases}
use backend_live_canvas.Uploads.Models.{UploadSlot, video, purpose_eq}
use backend_live_canvas.Uploads.Storage.{Settings}
use backend_live_canvas.Uploads.Services.{
  consume_slot, check_staged_object, start_processing, audit, consumed, slot_by_key,
}
use backend_live_canvas.Uploads.Services.Slots.{IsKeyed, Claimed, consume_slot-Claimed, slot-saved}
use backend_live_canvas.Wallpapers.Models.{Wallpaper, Db, processing}
use backend_live_canvas.Wallpapers.Admin.{sorted_set}
use backend_live_canvas.Wallpapers.AdminViews.{
  CreateRequest, is_category, is_tag, validate_category_id, validate_tag_ids, registered_row,
  insert_wallpaper, register_body, register,
}

-- An audit that returns adds one entry and writes nothing else.
pub audit_ok :
    (now : ℕ) (actor : Option Actor) (action : String) (obj : Option Subject) (label : String)
    (metadata : Members) (db : Db) {u : Unit {0}} {db' : Db}
    → audit now actor action obj label metadata db ≡ (ok u, db')
    → db'
      ≡ record db { audit_log = db.audit_log ++ entry_of now actor action obj label metadata ∷ [] }
audit_ok now actor action obj label metadata db {u} {db'} h =
    elim (record_action_cases now actor action obj label metadata db.audit_log) [
      | inl e ↦ sym (ok_pair {A = Unit {0}} tt _ (rw e at h)).1
      | inr (x, e) ↦ absurd (no x _ (rw e at h))
    ]
  where
    no : (x : Exc) (d : Db) → ◌≡◌ {A = Result (Unit {0}) × Db} (err x, d) (ok u, db') → ⊥
    no x d q = cc

-- The row of a request: its fields and nothing published.
pub record IsRequested (r : CreateRequest) (db : Db) (w : Wallpaper) : Type 0 where
  pub id : w.id ≡ db.next_wallpaper
  pub title : w.title ≡ r.title
  pub category : w.category ≡ r.category_id
  pub tags : w.tags ≡ sorted_set r.tag_ids
  pub is_premium : w.is_premium ≡ r.is_premium
  pub source_url : w.source_url ≡ r.source_url
  pub license_type : w.license_type ≡ r.license_type
  pub status : w.status ≡ processing
  pub staging_key : w.staging_key ≡ some r.upload_key
  pub master_key : w.master_key ≡ none
  pub deleted_at : w.deleted_at ≡ none

-- What the transaction of a registration has checked and written: the slot of the upload key was
-- open and for a video, and is consumed now, and the row of the request is added.
pub record Committed (now : ℕ) (r : CreateRequest) (db : Db) (w : Wallpaper) (db' : Db)
    : Type 0 where
  pub before : UploadSlot
  pub found : slot_by_key r.upload_key db.slots ≡ some before
  pub fresh : before.consumed_at ≡ none
  pub purpose : purpose_eq before.purpose video ≡ true
  pub slots :
      db'.slots
      ≡ update (λ s. s.id == before.id) (λ _. record before { consumed_at = some now }) db.slots
  pub row : IsRequested r db w
  pub wallpapers : db'.wallpapers ≡ db.wallpapers ++ w ∷ []

module _ (now : ℕ) (r : CreateRequest) (db : Db) where
  row-IsRequested :
      (slot : UploadSlot) (db1 : Db)
      → slot.key ≡ r.upload_key
      → db1.next_wallpaper ≡ db.next_wallpaper
      → IsRequested r db (registered_row now r slot db1)
  row-IsRequested slot db1 k n = record {
    id = n;
    title = refl;
    category = refl;
    tags = refl;
    is_premium = refl;
    source_url = refl;
    license_type = refl;
    status = refl;
    staging_key = ap (λ t. some t) k;
    master_key = refl;
    deleted_at = refl;
  }

  body-Committed :
      (actor : Actor) {w : Wallpaper} {db' : Db}
      → register_body now actor r db ≡ (ok w, db')
      → Committed now r db w db' × (db'.queue ≡ db.queue)
  body-Committed actor {w} {db'} h =
      let (slot, db1, c, h1) = bind_ok (consume_slot now r.upload_key video) _ db h in
      let row : Wallpaper = registered_row now r slot db1 in
      let db2 : Db = insert_wallpaper row db1 in
      let (u3, db3, a3, h3) = bind_ok (audit now (some actor) "upload.register" _ "" _) _ db2 h1 in
      let (u4, db4, a4, h4) = bind_ok (audit now (some actor) "wallpaper.create" _ "" _) _ db3 h3 in
      let claim : Claimed now r.upload_key video db slot db1 =
        consume_slot-Claimed now r.upload_key video db c in
      let e3 = audit_ok now (some actor) "upload.register" _ "" _ db2 a3 in
      let e4 = audit_ok now (some actor) "wallpaper.create" _ "" _ db3 a4 in
      let q = ok_pair row db4 h4 in
      let key : slot.key ≡ r.upload_key =
        ap (λ (s : UploadSlot). s.key) claim.slot_is
        ∙ (str_eq_iff claim.before.key r.upload_key).0
            (first_sound (λ s. str_eq s.key r.upload_key) db.slots claim.found) in
      (
        record {
          before = claim.before;
          found = claim.found;
          fresh = claim.fresh;
          purpose = claim.purpose;
          slots =
              ap (λ (d : Db). d.slots) (sym q.1)
              ∙ ap (λ (d : Db). d.slots) e4
              ∙ ap (λ (d : Db). d.slots) e3
              ∙ ap (λ (d : Db). d.slots) claim.db_is;
          row =
              subst (IsRequested r db) q.0
                (row-IsRequested slot db1 key (ap (λ (d : Db). d.next_wallpaper) claim.db_is));
          wallpapers =
              ap (λ (d : Db). d.wallpapers) (sym q.1)
              ∙ ap (λ (d : Db). d.wallpapers) e4
              ∙ ap (λ (d : Db). d.wallpapers) e3
              ∙ ap (λ (d : Db). d.wallpapers ++ row ∷ []) claim.db_is
              ∙ ap (λ x. db.wallpapers ++ x ∷ []) q.0;
        },
        ap (λ (d : Db). d.queue) (sym q.1)
            ∙ ap (λ (d : Db). d.queue) e4
            ∙ ap (λ (d : Db). d.queue) e3
            ∙ ap (λ (d : Db). d.queue) claim.db_is,
      )

-- What a registration leaves, by what the broker answers to the task.
module _ (s : Settings) (head : Result (Option ℕ)) (broker : Result (Unit {0})) (now : ℕ)
    (actor : Actor) (r : CreateRequest) (db : Db) where
  pub record Registered (w : Wallpaper) (db' : Db) : Type 0 where
    pub tags : every (is_tag db) r.tag_ids ≡ true
    pub category : is_category r.category_id db ≡ true
    pub sent : broker ≡ ok tt
    pub committed : Committed now r db w db'
    pub queue : db'.queue ≡ db.queue ++ w.id ∷ []

  pub record Unsent (e : Exc) (db' : Db) : Type 0 where
    pub refused : broker ≡ err e
    pub wallpaper : Wallpaper
    pub committed : Committed now r db wallpaper db'
    pub queue : db'.queue ≡ db.queue

  abbrev Outcomes : Result Wallpaper × Db → Type 0
  Outcomes = Outcome Registered (λ e db'. (db' ≡ db) ⊎ Unsent e db')

  -- The end of the request, by what the transaction left.
  abbrev finished : Result Wallpaper × Db → Result Wallpaper × Db
  finished m = ((λ (_ : Db). m) >>= (λ w. start_processing broker w.id >> pure w)) db

  finished-Outcomes :
      (m : Result Wallpaper × Db)
      → every (is_tag db) r.tag_ids ≡ true
      → is_category r.category_id db ≡ true
      → m ≡ atomic (register_body now actor r) db
      → Outcomes (finished m)
  unfolding start_processing
  finished-Outcomes (err x, d) t c q = inl (atomic_err (register_body now actor r) db (sym q))
  finished-Outcomes (ok w, d) t c q =
      let (done, queue) =
        body-Committed now r db actor (atomic_ok (register_body now actor r) db (sym q)) in
      sent broker refl w d done queue
    where
      sent :
          (b : Result (Unit {0}))
          → broker ≡ b
          → (w : Wallpaper) (d : Db) → Committed now r db w d
          → d.queue ≡ db.queue
          → Outcomes (((λ (_ : Db). (ok w, d)) >>= (λ w. start_processing b w.id >> pure w)) db)
      sent (ok tt) e w d done queue = record {
        tags = t;
        category = c;
        sent = e;
        committed = record {
          before = done.before;
          found = done.found;
          fresh = done.fresh;
          purpose = done.purpose;
          slots = done.slots;
          row = done.row;
          wallpapers = done.wallpapers;
        };
        queue = ap (λ (xs : List ℕ). xs ++ w.id ∷ []) queue;
      }
      sent (err x) e w d done queue =
          inr (record { refused = e; wallpaper = w; committed = done; queue = queue })

  pub register-Registered :
      Outcome Registered
        (λ e db'. (db' ≡ db) ⊎ Unsent e db')
        (register s head broker now actor r db)
  unfolding register validate_tag_ids validate_category_id
  register-Registered = elim (Bool-cases (every (is_tag db) r.tag_ids)) [
    | inr e ↦ rw (e, register) (inl refl)
    | inl e ↦ elim (Bool-cases (is_category r.category_id db)) [
      | inr f ↦ rw (e, f, register) (inl refl)
      | inl f ↦ elim (Result-cases (check_staged_object s head)) [
        | inr (y, g) ↦ rw (e, f, g, register) (inl refl)
        | inl (n, g) ↦
            rw (e, f, g, register)
              (finished-Outcomes (atomic (register_body now actor r) db) e f refl)
      ]
    ]
  ]

  register_returns :
      (w : Wallpaper) (db' : Db)
      → register s head broker now actor r db ≡ (ok w, db')
      → Committed now r db w db'
  register_returns w db' h =
      (subst (Outcome Registered (λ e db'. (db' ≡ db) ⊎ Unsent e db')) h
        register-Registered).committed

-- After a registration that returned, the same upload key is registered by no later request: no
-- later request with it returns, whoever sends it.
pub register_once :
    (s : Settings) (head : Result (Option ℕ)) (broker : Result (Unit {0})) (now : ℕ) (actor : Actor)
    (r : CreateRequest) (db : Db) {w : Wallpaper} {db' : Db}
    → IsKeyed db.slots
    → register s head broker now actor r db ≡ (ok w, db')
    → (s2 : Settings) (head2 : Result (Option ℕ)) (broker2 : Result (Unit {0})) (later : ℕ)
      (other : Actor) (r2 : CreateRequest) {w2 : Wallpaper} {db2 : Db}
    → r2.upload_key ≡ r.upload_key
    → register s2 head2 broker2 later other r2 db' ≢ (ok w2, db2)
register_once s head broker now actor r db {w} {db'} keyed h s2 head2 broker2 later other r2 {w2}
      {db2} k h2 =
    let c1 = register_returns s head broker now actor r db w db' h in
    let c2 = register_returns s2 head2 broker2 later other r2 db' w2 db2 h2 in
    let found1 : slot_by_key r.upload_key db'.slots ≡ some (consumed now c1.before) =
      ap (slot_by_key r.upload_key) c1.slots
      ∙ slot-saved now r.upload_key db c1.before keyed c1.found in
    let found2 : slot_by_key r.upload_key db'.slots ≡ some c2.before =
      ap (λ key. slot_by_key key db'.slots) (sym k) ∙ c2.found in
    clash (consumed now c1.before) c2.before (sym found1 ∙ found2) refl c2.fresh
  where
    clash :
        (a b : UploadSlot) → some a ≡ some b → a.consumed_at ≡ some now → b.consumed_at ≡ none → ⊥
    clash a b p q t = cc
