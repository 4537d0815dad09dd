-- ===== src/Lib.antt =====
-- A verification library of the LiveCanvas backend: a Django service with a catalog of live
-- wallpapers, an upload pipeline, in-app purchases and an audit trail.
--
-- The parts and the files that model them:
--   Core/Errors, Core/Handler: core/errors.py and core/exception_handler.py, the error classes and
--     the envelope of every error (`structured_exception_handler`).
--   Core/Exec: code that reads and writes the database and may raise; `atomic` is
--     `transaction.atomic`.
--   Core/Auth: core/authentication.py, permissions.py, api.py and auth_views.py, the two tiers
--     (`app_tier`, `admin_tier`), the login and the refresh of tokens.
--   Core/Text: `strip` and `split` of Python.
--   Audit: apps/audit/services.py, the guard (`check_clean`) and `record` (`record_action`).
--   Iap/Models, Tables, Verify, Gate, Notify: apps/iap/models.py, stores/base.py and services.py;
--     `verify_receipt`, `is_entitled`, `resolve_status` and `apply_notification` over the tables.
--   Iap/Views: apps/iap/views.py and serializers.py, the four endpoints (`post_verify_receipt`,
--     `get_subscription_status` and the webhooks).
--   Iap/Holdings: what the purchases promise apart from their tables, a map from subscriptions to
--     their state and the events that were seen (`put`, `deliver`), and the view of the tables.
--   Iap/Stores, Webhook: apps/iap/stores/apple.py and google.py (`verify_apple`, `decode_apple`,
--     `verify_google`, `decode_google`), and the two webhooks.
--   Uploads/Models, Storage, Services: apps/uploads/models.py, storage.py, services.py and views.py.
--   Uploads/Attempt, Pipeline: apps/uploads/tasks.py, one run of `process_wallpaper`, and the
--     attempts of the worker (`run_task`).
--   Uploads/Ffmpeg: apps/uploads/ffmpeg.py, the commands and errors of the media tools; `with_tools`
--     is the pipeline over them.
--   Uploads/Commands: apps/uploads/management/commands, the purge and the backfill.
--   Wallpapers/Models, Queries, Home, Download: apps/wallpapers/models.py, services.py and views.py.
--   Wallpapers/Serializers, Views, Pagination: apps/wallpapers/serializers.py, views.py and
--     pagination.py, and core/pagination.py, the endpoints of the content API.
--   Wallpapers/Upsert, Seed: apps/wallpapers/management/commands/seed_content.py (`handle`); Upsert has
--     the framework's `update_or_create` and the shape of the command's loops.
--   Wallpapers/Crawl, Fixture: scripts/build_seed_fixture.py, the fixture of the seeder from a crawl
--     (`build`).
--   Wallpapers/Admin, Curation, AdminViews: apps/wallpapers/admin_services.py, admin_serializers.py and
--     admin_views.py.
--   Tests: runs on concrete inputs.
--
-- How they interact: the views of the admin tier claim a slot of the uploads app, write a row of the
-- catalog in one transaction and send its task behind the commit, which the broker may refuse; the
-- task publishes the row; the download endpoint asks the gate of the purchases app; every write of
-- an admin and of the purchases app adds an entry to the audit trail. The tables of the content apps are one record (`Db`), those of the purchases
-- another (`IapDb`), the objects of the storage a list.
--
-- Conventions: a table is the list of its rows in the order of their primary keys, an instant is a
-- number, and the time of a call is its argument `now`. A call runs alone: row locks and
-- interleavings inside one call are not modelled. `str(n)` runs on fuel n + 1, which is enough
-- since a number has no more digits than that; `run_task` runs on as many attempts as it is given,
-- and four are enough, since the task asks for a retry in its first three only. No other recursion
-- needs fuel.
--
-- Not modelled: the primary keys of the items of a collection, which nothing refers to, so that an
-- item that is deleted and created again is the same row here; a broker that refuses a task of the
-- backfill command (one that refuses the task of a request is modelled); what the frameworks, the
-- storage client, libmagic, the media tools, simplejwt and the clients of the stores do (they are
-- arguments of the definitions that use them), the shape checks of one field in the serializers of
-- the admin tier, settings, routing, logging, migrations.
pub mod Prelude
pub mod Core
pub mod Audit
pub mod Iap
pub mod Uploads
pub mod Wallpapers
mod Tests
