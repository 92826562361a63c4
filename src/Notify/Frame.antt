-- ===== src/Notify/Frame.antt =====
-- Notifications and audit entries touch no other table.
use twexthub.Shared.{String, ◌≡◌, refl, Bool-cases, inl, inr, Option, List, nat_eq}
use twexthub.Db.{Db, User, Notification, AuditEntry, Datum, is_organization}
use twexthub.Notify.{notify_owner_candidate, audit}

-- `after` is `before` but for its messages.
pub record SameTables (before after : Db) : Type 0 where
  pub notes : List Notification
  pub log : List AuditEntry
  pub same : after ≡ record before { notifications = notes; audit_log = log }

pub notify_owner_candidate-SameTables :
    (candidate : User) (kind message : String) (payload : List (String × Datum)) (db : Db)
    → SameTables db (notify_owner_candidate candidate kind message payload db)
unfolding notify_owner_candidate
notify_owner_candidate-SameTables candidate kind message payload db =
    elim (Bool-cases (is_organization candidate.kind)) [
      | inl e ↦ rw e (record { notes = _; log = db.audit_log; same = refl })
      | inr e ↦ rw e (record { notes = _; log = db.audit_log; same = refl })
    ]

pub audit-SameTables :
    (actor : User) (action : String) (namespace id version : Option String)
    (detail : List (String × Datum)) {before after : Db}
    → SameTables before after
    → SameTables before (audit actor action namespace id version detail after)
unfolding audit
audit-SameTables actor action namespace id version detail {before} s =
    rw s.same (record { notes = s.notes; log = _; same = refl })
