-- ===== src/Tests/Audit.antt =====
-- Runs of apps/audit/services.py.
use backend_live_canvas.Prelude.{◌≡◌, refl, ◌↔◌, true, none, [], ◌∷◌, is_some}
use backend_live_canvas.Core.Errors.{Exc}
use backend_live_canvas.Core.Exec.{ok, err}
use backend_live_canvas.Prelude.{str_eq}
use backend_live_canvas.Audit.{
  Members, text, items, number, cons, nil, end, member, check_members, entry_of, record_action,
}
use backend_live_canvas.Audit.Leaks.{LeaksMembers, check_members-Leaks_iff, record_action_guarded}

-- A signed link inside a list.
abbrev leaking : Members
leaking =
    member "upload_key" (text "staging/a.mp4")
      (member "urls" (items (cons (text "https://s/a?X-Amz-Signature=1") nil)) end)

leaking_refused : is_some (check_members leaking) ≡ true
unfolding check_members
leaking_refused = refl

clean_passes :
    check_members (member "size" (number 3) (member "key" (text "masters/b.mp4") end)) ≡ none
unfolding check_members
clean_passes = refl

check_members-Leaks_iff_example : (is_some (check_members leaking) ≡ true) ↔ LeaksMembers leaking
check_members-Leaks_iff_example = check_members-Leaks_iff leaking

record_action_guarded_example :
    (¬ LeaksMembers leaking
      → record_action 5 none "upload.presign" none "ops" leaking []
        ≡ (ok tt, entry_of 5 none "upload.presign" none "ops" leaking ∷ []))
    × (LeaksMembers leaking
        → record_action 5 none "upload.presign" none "ops" leaking []
          ≡ (err (Exc.other "AuditSanitizationError"), []))
unfolding str_eq
record_action_guarded_example = record_action_guarded 5 none "upload.presign" none "ops" leaking []
