-- ===== src/Members/Directory.antt =====
-- The table of members and the form for a new one.
use ror_books_test.Prelude.{◌≡◌, ◌≢◌, ◌↔◌, some, All, arith}
use ror_books_test.Api.{ok}
use ror_books_test.Forms.{MemberForm}
use ror_books_test.Forms.Validation.{IsFilled, new_member_errors-nil_iff}
use ror_books_test.Paging.{remove_row_absent}
use ror_books_test.Members.Defs.{Member, Page, create_clicked, create_answered, delete_answered}

-- "Create" sends a member exactly when the form has an email and a password, and then sends the
-- form as it stands.
pub new_member_sent_iff :
    (p : Page) (form : MemberForm)
    → ((create_clicked p).1 ≡ some form)
      ↔ ((p.form ≡ form) × IsFilled p.form.email × IsFilled p.form.password)
unfolding create_clicked
new_member_sent_iff p form = ground (arith, new_member_errors-nil_iff p.form)

-- A member that was created and then deleted is gone: the table is as before, if it had no other
-- member with that id, and no alert was shown.
pub delete-create :
    (m : Member) (p : Page)
    → All (λ x. x.id ≢ m.id) p.list.items
    → let after = delete_answered m.id (ok tt) (create_answered (ok (some m)) p) in
      (after.list ≡ p.list) × (after.alerts ≡ p.alerts)
unfolding delete_answered create_answered
delete-create m p fresh = ground (arith, remove_row_absent (λ x. x.id) m.id p.list.items fresh)
