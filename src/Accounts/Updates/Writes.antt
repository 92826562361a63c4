-- ===== src/Accounts/Updates/Writes.antt =====
-- What the statements of a change of an account write, `write_update`.
use twexthub.Shared.{
  ℕ, String, ◌≡◌, refl, Bool, true, false, Option, List, [], ◌∷◌, ◌==◌, nat_eq, string_eq,
  Bool-cases, inl, inr, map, if◌then◌else◌,
}
use twexthub.Shared.Rows.{update}
use twexthub.Db.{Db, User, Membership}
use twexthub.Notify.{notify_user, audit}
use twexthub.Packages.Requests.{Field, absent, null, text, other}
use twexthub.Accounts.Profile.{is_given}
use twexthub.Accounts.Signing.{Store}
use twexthub.Accounts.Updates.{
  Update, write_update, patched, after_password, after_role, without_credentials,
}

-- The tables that are left to themselves.
abbrev pub rest_of : Db → List User × List Membership × ℕ
rest_of db = (db.users, db.organization_owners, db.next_user_id)

after_password-rest :
    (actor target : User) (s : Store) → rest_of (after_password actor target s).db ≡ rest_of s.db
unfolding after_password notify_user
after_password-rest actor target s = elim (Bool-cases (actor.id == target.id)) [
  | inl e ↦ rw e refl
  | inr e ↦ rw e refl
]

pub write_update-rest :
    (hash_password : String → String) (actor target : User) (body : Update) (version : Option ℕ)
    (s : Store)
    → rest_of (write_update hash_password actor target body version s).db ≡ (
      update (λ u. u.id == target.id) (patched hash_password body version) s.db.users,
      s.db.organization_owners,
      s.db.next_user_id,
    )
unfolding write_update after_role notify_user audit
write_update-rest hash_password actor target body version s =
    elim (Bool-cases (is_given body.role)) [
      | inl e ↦ rw e (password_kept (is_given body.password))
      | inr e ↦ rw e (password_kept (is_given body.password))
    ]
  where
    written : Store
    written = record s {
      db = record s.db {
        users = update (λ u. u.id == target.id) (patched hash_password body version) s.db.users;
      };
    }

    password_kept :
        (given : Bool)
        → rest_of (if given then after_password actor target written else written).db
          ≡ rest_of written.db
    password_kept true = after_password-rest actor target written
    password_kept false = refl

pub write_update-creds :
    (hash_password : String → String) (actor target : User) (body : Update) (version : Option ℕ)
    (s : Store)
    → is_given body.password ≡ true
    → (write_update hash_password actor target body version s).creds
      ≡ without_credentials target.id s.creds
unfolding write_update after_password
write_update-creds hash_password actor target body version s given = rw given refl

-- The roles stand where no row is given another one.
pub map-update_role :
    (p : User → Bool) (f : User → User) (users : List User)
    → ((u : User) → (f u).role ≡ u.role)
    → map (λ (u : User). u.role) (update p f users) ≡ map (λ (u : User). u.role) users
map-update_role p f [] kept = refl
map-update_role p f (u ∷ us) kept = elim (Bool-cases (p u)) [
  | inl e ↦ rw (e, kept u, map-update_role p f us kept) refl
  | inr e ↦ rw (e, map-update_role p f us kept) refl
]

given-absent : (value : Field) → is_given value ≡ false → value ≡ absent
given-absent absent h = refl
given-absent null h = cc
given-absent (text t) h = cc
given-absent other h = cc

pub patched-role :
    (hash_password : String → String) (body : Update) (version : Option ℕ) (u : User)
    → is_given body.role ≡ false
    → (patched hash_password body version u).role ≡ u.role
unfolding patched
patched-role hash_password body version u h = rw (given-absent body.role h) refl

pub patched-id :
    (hash_password : String → String) (body : Update) (version : Option ℕ) (u : User) (n : ℕ)
    → ((patched hash_password body version u).id == n) ≡ (u.id == n)
unfolding patched
patched-id hash_password body version u n = refl
