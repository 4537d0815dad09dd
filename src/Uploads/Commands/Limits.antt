-- ===== src/Uploads/Commands/Limits.antt =====
-- The options of the backfill (apps/uploads/management/commands/backfill_media.py).
use backend_live_canvas.Prelude.{
  ℕ, ◌+◌, ◌≤◌, ◌≡◌, refl, sym, ◌∙◌, ap, subst, inl, inr, true, ◌||◌, length, is_some, some, List,
  [], ◌∷◌, select, leb, truthy, Bool-cases, Option-cases, arith,
}
use backend_live_canvas.Core.Errors.{Exc}
use backend_live_canvas.Core.Exec.{Result, ok, err, Result-cases, ok_pair}
use backend_live_canvas.Uploads.Pipeline.{World, text_of}
use backend_live_canvas.Uploads.Commands.{
  Backfill, BackfillState, Counters, resume_one, upload_one, backfill_one, is_full, continue,
  backfill_rows, backfill_media, staging_key_of, is_failed, is_pending, no_counters, report,
  with_audit,
}
use backend_live_canvas.Wallpapers.Models.{Wallpaper, Db}

continue_ok :
    (r : Result (Unit {0}) × BackfillState) (f : BackfillState → Result (Unit {0}) × BackfillState)
    {u : Unit {0}} {st' : BackfillState}
    → continue r f ≡ (ok u, st')
    → (v : Unit {0}) × (mid : BackfillState) × (r ≡ (ok v, mid)) × (f mid ≡ (ok u, st'))
continue_ok (ok v, mid) f h = (v, mid, refl, h)
continue_ok (err e, mid) f h = absurd (cc)

continue_next :
    (r : Result (Unit {0}) × BackfillState) (f : BackfillState → Result (Unit {0}) × BackfillState)
    → r.0 ≡ ok tt
    → continue r f ≡ f r.1
continue_next (ok v, mid) f h = refl
continue_next (err e, mid) f h = absurd (cc)

with_audit-counters :
    (x : Result (Unit {0}) × Db) (st : BackfillState) {u : Unit {0}} {last : BackfillState}
    → with_audit x st ≡ (ok u, last)
    → last.counters ≡ st.counters
with_audit-counters (r, db) st {u} {last} h =
    let world = st.world in
    let e : ◌≡◌ {A = BackfillState} (record st { world = record world { db = db } }) last = cc in
    sym (ap (λ (x : BackfillState). x.counters) e)

module _ (b : Backfill) where
  -- One row counts at most once.
  one_step :
      (w : Wallpaper) (st : BackfillState) {st' : BackfillState} {u : Unit {0}}
      → backfill_one b w st ≡ (ok u, st')
      → st'.counters.processed ≤ st.counters.processed + 1
  unfolding resume_one upload_one
  one_step w st {st'} {u} h = elim (Bool-cases (truthy (text_of w.staging_key))) [
    | inl e ↦ elim (Bool-cases (is_failed w || b.requeue_stale)) [
      | inl f ↦ bound _ (rw f at (rw e at h)) (ground arith)
      | inr f ↦ bound _ (rw f at (rw e at h)) (ground arith)
    ]
    | inr e ↦ elim (Option-cases (b.local_suffix w.source_url)) [
      | inl f ↦ bound _ (rw (f, upload_one) at (rw e at h)) (ground arith)
      | inr (suffix, f) ↦ elim (Bool-cases b.dry_run) [
        | inl g ↦ bound _ (rw g at (rw (f, upload_one) at (rw e at h))) (ground arith)
        | inr g ↦ elim (Result-cases (b.upload_file (staging_key_of b w suffix))) [
          | inl (v, k) ↦
              bound _ (rw k at (rw g at (rw (f, upload_one) at (rw e at h)))) (ground arith)
          | inr (x, k) ↦ absurd (no x (rw k at (rw g at (rw (f, upload_one) at (rw e at h)))))
        ]
      ]
    ]
  ]
    where
      bound :
          (r : BackfillState)
          → ◌≡◌ {A = Result (Unit {0}) × BackfillState} (ok tt, r) (ok u, st')
          → r.counters.processed ≤ st.counters.processed + 1
          → st'.counters.processed ≤ st.counters.processed + 1
      bound r q l =
          let e : r ≡ st' = cc in
          subst (λ (x : BackfillState). x.counters.processed ≤ st.counters.processed + 1) e l

      no : (x : Exc) → ◌≡◌ {A = Result (Unit {0}) × BackfillState} (err x, st) (ok u, st') → ⊥
      no x q = cc

  limited :
      (limit : ℕ) (ws : List Wallpaper) (st : BackfillState) {st' : BackfillState} {u : Unit {0}}
      → b.limit ≡ some limit
      → st.counters.processed ≤ limit
      → backfill_rows b ws st ≡ (ok u, st')
      → st'.counters.processed ≤ limit
  unfolding backfill_rows
  limited limit [] st {st'} {u} e l h =
      subst (λ (x : BackfillState). x.counters.processed ≤ limit) (ok_pair {A = Unit {0}} tt st h).1
        l
  limited limit (w ∷ ws) st {st'} {u} e l h = elim (Bool-cases (leb limit st.counters.processed)) [
    | inl f ↦
        subst (λ (x : BackfillState). x.counters.processed ≤ limit)
          (ok_pair {A = Unit {0}} tt st (rw f at (rw (e, backfill_rows) at h))).1 l
    | inr f ↦
        let (v, mid, one, rest) =
          continue_ok (backfill_one b w st) (λ next. backfill_rows b ws next)
            (rw f at (rw (e, backfill_rows) at h)) in
        let step : mid.counters.processed ≤ st.counters.processed + 1 = one_step w st one in
        limited limit ws mid e (ground arith) rest
  ]

  -- A row of a dry run never raises and leaves the database and the storage as they were.
  dry_one :
      (w : Wallpaper) (st : BackfillState)
      → b.dry_run ≡ true
      → ((backfill_one b w st).0 ≡ ok tt) × ((backfill_one b w st).1.world ≡ st.world)
  unfolding resume_one upload_one
  dry_one w st d = elim (Bool-cases (truthy (text_of w.staging_key))) [
    | inl e ↦ elim (Bool-cases (is_failed w || b.requeue_stale)) [
      | inl f ↦ rw (e, f, d, resume_one) (refl, refl)
      | inr f ↦ rw (e, f, resume_one) (refl, refl)
    ]
    | inr e ↦ elim (Option-cases (b.local_suffix w.source_url)) [
      | inl f ↦ rw (e, f, upload_one) (refl, refl)
      | inr (suffix, f) ↦ rw (e, f, d, upload_one) (refl, refl)
    ]
  ]

  dry_rows :
      (ws : List Wallpaper) (st : BackfillState)
      → b.dry_run ≡ true
      → ((backfill_rows b ws st).0 ≡ ok tt) × ((backfill_rows b ws st).1.world ≡ st.world)
  unfolding backfill_rows
  dry_rows [] st d = (refl, refl)
  dry_rows (w ∷ ws) st d =
      let one = dry_one w st d in
      let rest = dry_rows ws (backfill_one b w st).1 d in
      elim (Bool-cases (is_full b.limit st.counters.processed)) [
        | inl f ↦ rw (f, backfill_rows) (refl, refl)
        | inr f ↦
            rw (f, backfill_rows)
              (rw (continue_next (backfill_one b w st) (λ next. backfill_rows b ws next) one.0)
                (rest.0, rest.1 ∙ one.1))
      ]

  report_dry :
      (now done_count : ℕ) (st : BackfillState)
      → b.dry_run ≡ true
      → report now done_count b st ≡ (ok tt, st)
  report_dry now done_count st d = rw d refl

  -- A dry run of the backfill never raises and leaves the database, the queue, the audit trail and
  -- the storage as they were.
  pub backfill_media_dry :
      (now : ℕ) (world : World)
      → b.dry_run ≡ true
      → ((backfill_media now b world).0 ≡ ok tt) × ((backfill_media now b world).1.world ≡ world)
  unfolding backfill_media
  backfill_media_dry now world d =
      let start : BackfillState = record { world = world; counters = no_counters } in
      let rows : Result (Unit {0}) × BackfillState =
        backfill_rows b (select is_pending world.db.wallpapers) start in
      let run = dry_rows (select is_pending world.db.wallpapers) start d in
      rw
        (continue_next rows
          (report now (length (select (λ w. is_some w.master_key) world.db.wallpapers)) b) run.0)
        (rw
          (report_dry now (length (select (λ w. is_some w.master_key) world.db.wallpapers)) rows.1
            d)
          (refl, run.1))

  -- A backfill with a limit that returns has uploaded for no more wallpapers than the limit.
  pub backfill_media_limit :
      (now limit : ℕ) (world : World) {u : Unit {0}} {last : BackfillState}
      → b.limit ≡ some limit
      → backfill_media now b world ≡ (ok u, last)
      → last.counters.processed ≤ limit
  unfolding backfill_media
  backfill_media_limit now limit world {u} {last} e h =
      let start : BackfillState = record { world = world; counters = no_counters } in
      let (v, mid, rows, rest) =
        continue_ok (backfill_rows b (select is_pending world.db.wallpapers) start) _ h in
      let l : mid.counters.processed ≤ limit =
        limited limit (select is_pending world.db.wallpapers) start e (omega arith) rows in
      elim (Bool-cases b.dry_run) [
        | inl d ↦
            subst (λ (x : BackfillState). x.counters.processed ≤ limit)
              (ok_pair {A = Unit {0}} tt mid (rw d at rest)).1 l
        | inr d ↦
            subst (λ (c : Counters). c.processed ≤ limit)
              (sym (with_audit-counters _ mid (rw d at rest))) l
      ]
