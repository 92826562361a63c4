-- ===== src/Tests/Data.antt =====
-- A small registry: two accounts, one extension of two versions with a dist-tag, and an offer of it.
use twexthub.Shared.{
  ℕ, String, ◌≡◌, arith, true, false, none, some, [], ◌∷◌, ltb, head?, ◌==◌, string_eq,
  if◌then◌else◌,
}
use twexthub.Util.Regex.{codes}
use twexthub.Util.Versions.{Semver}
use twexthub.Db.{Db, User, Row, Version, Address, user, normal, public, published, rejected}
use twexthub.Access.Credentials.{Auth, session, scopes_known, Credentials}
use twexthub.Transfer.Offers.{Limits}
use twexthub.Packages.Publish.{Manifest, Artifacts, Disk}

-- A version by its first character.
abbrev major : String → ℕ
major v = elim (head? (codes v)) [ none ↦ 0 | some c ↦ c ]

pub ltb_irrefl : (n : ℕ) → ltb n n ≡ false
ltb_irrefl n = ground arith

pub ltb_trans : (a b c : ℕ) → ltb b a ≡ true → ltb c b ≡ true → ltb c a ≡ true
ltb_trans a b c h k = ground arith

pub ltb_compare : (a b c : ℕ) → ltb c a ≡ true → ltb c b ≡ false → ltb b a ≡ true
ltb_compare a b c h k = ground arith

-- Versions of one digit, as the package `semver` orders them.
abbrev pub one_digit : Semver
one_digit = record {
  valid = λ v. if v == "" then none else some v;
  gt = λ a b. ltb (major b) (major a);
  gt_irrefl = λ a. ltb_irrefl (major a);
  gt_trans = λ a b c. ltb_trans (major a) (major b) (major c);
  gt_compare = λ a b c. ltb_compare (major a) (major b) (major c);
}

abbrev pub no_limits : Limits
no_limits = record { max_blob_bytes = none; max_account_blob_bytes = none; max_source_bytes = none }

abbrev pub alice : User
alice = record {
  id = 1;
  namespace = "alice";
  display_name = "Alice";
  kind = user;
  role = normal;
  has_published = true;
  terms_accepted_version = none;
  blob_bytes = 50;
  max_blob_bytes = none;
  password_hash = some "p";
  bio = "";
  website = none;
  github = none;
  avatar_url = none;
  banner_url = none;
  avatar_blob = none;
  banner_blob = none;
}

abbrev pub bob : User
bob = record alice {
  id = 2;
  namespace = "bob";
  display_name = "Bob";
  has_published = false;
  blob_bytes = 0;
}

abbrev pub tool : Address
tool = record { namespace = "alice"; id = "tool" }

abbrev pub one : Row Version
one = record {
  address = tool;
  cols = record {
    id = 1;
    owner_id = 1;
    version = "1.0.0";
    status = published;
    name = "Tool";
    license = "MIT";
    description = "";
    author = some "Alice";
    blob_digest = some "d1";
    blob_size = some 30;
    source_digest = some "s1";
    source_size = some 12;
    visibility = public;
    published_at = some 5;
    deprecation_message = none;
    rejection_reason = none;
  };
}

-- A rejected one.
abbrev pub two : Row Version
two = record one {
  cols = record one.cols {
    id = 2;
    version = "2.0.0";
    status = rejected;
    blob_size = some 5;
    source_size = some 3;
  };
}

abbrev pub registry : Db
registry = record {
  users = alice ∷ bob ∷ [];
  organization_owners = [];
  versions = one ∷ two ∷ [];
  dist_tags =
      record { address = tool; cols = record { owner_id = 1; tag = "stable"; version = "1.0.0" } }
      ∷ [];
  extension_owners = [];
  extension_owner_invites =
      record { address = tool; cols = record { owner_id = 2; invited_by = 1 } } ∷ [];
  extension_access = [];
  extension_transfers =
      record { address = tool; cols = record { to_namespace = "bob"; requested_by = 1 } } ∷ [];
  extension_redirects =
      record { source = record { namespace = "carol"; id = "tool" }; target = tool } ∷ [];
  webhooks = [];
  webhook_deliveries = [];
  download_events = [];
  extension_daily_downloads = [];
  notifications = [];
  audit_log = [];
  next_user_id = 3;
  next_version_id = 3;
  next_delivery_id = 1;
}

abbrev pub as_account : User → Auth
as_account u = record { user = u; token_type = session; scopes = scopes_known; token_id = 7 }

abbrev pub three : Manifest
three = record {
  version = "3.0.0";
  name = "Tool";
  license = "MIT";
  description = "";
  author = none;
}

abbrev pub built : Artifacts
built = record { code_length = 20; code_digest = "d3"; source_length = 10; source_digest = "s3" }

-- The second write fails.
abbrev pub half_full : Disk
half_full = record { source_stored = true; blob_stored = false }

abbrev pub sessions : Credentials
sessions = record {
  sessions =
      record {
        id = 7;
        user_id = 1;
        token_hash = "h";
        expires_at = some 90;
        last_used_at = none;
        scopes = [];
      }
      ∷ [];
  automation_tokens = [];
}
