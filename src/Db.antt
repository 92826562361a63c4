-- ===== src/Db.antt =====
-- The tables that the routes read and write (migrations/*.sql), as lists of rows in the order of
-- insertion. Columns that no modelled code reads are left out.
use twexthub.Shared.{ℕ, String, Bool, true, false, ◌&&◌, Option, List, ◌==◌, string_eq, nat_eq, any}
use twexthub.Shared.Rows.{delete}

-- The pair of columns `namespace` and `extension_id` (or `from_namespace` and its fellows).
pub record Address : Type 0 where
  pub namespace : String
  pub id : String

-- WHERE namespace = .. AND extension_id = ..
abbrev pub same_address : Address → Address → Bool
same_address a b = a.namespace == b.namespace && a.id == b.id

-- A row of a table that is keyed on an address, and its other columns.
pub record Row (C : Type 0) : Type 0 where
  pub address : Address
  pub cols : C

abbrev pub is_at : {C : Type 0} → Address → Row C → Bool
is_at a r = same_address r.address a

pub data Role : Type 0 where
  admin normal : Role

pub data Kind : Type 0 where
  user organization : Kind

pub data Visibility : Type 0 where
  public private : Visibility

pub data Status : Type 0 where
  staging pending published rejected yanked deprecated : Status

-- The columns of an uploaded avatar or banner, which are set and cleared together.
pub record Upload : Type 0 where
  pub digest : String
  pub content_type : String
  pub bytes : ℕ

pub record User : Type 0 where
  pub id : ℕ
  pub namespace : String
  pub display_name : String
  pub kind : Kind
  pub role : Role
  pub has_published : Bool
  pub terms_accepted_version : Option ℕ
  pub blob_bytes : ℕ
  pub max_blob_bytes : Option ℕ
  pub password_hash : Option String
  pub bio : String
  pub website : Option String
  pub github : Option String
  pub avatar_url : Option String
  pub banner_url : Option String
  pub avatar_blob : Option Upload
  pub banner_blob : Option Upload

pub record Version : Type 0 where
  pub id : ℕ
  pub owner_id : ℕ
  pub version : String
  pub status : Status
  pub name : String
  pub license : String
  pub description : String
  pub author : Option String
  pub blob_digest : Option String
  pub blob_size : Option ℕ
  pub source_digest : Option String
  pub source_size : Option ℕ
  pub visibility : Visibility
  pub published_at : Option ℕ
  pub deprecation_message : Option String
  pub rejection_reason : Option String

pub record Tag : Type 0 where
  pub owner_id : ℕ
  pub tag : String
  pub version : String

-- extension_owners
pub record Owner : Type 0 where
  pub owner_id : ℕ
  pub added_by : ℕ

-- extension_owner_invites
pub record Invite : Type 0 where
  pub owner_id : ℕ
  pub invited_by : ℕ

-- extension_access
pub record Grant : Type 0 where
  pub user_id : ℕ
  pub granted_by : ℕ

-- extension_transfers
pub record Offer : Type 0 where
  pub to_namespace : String
  pub requested_by : ℕ

-- extension_redirects
pub record Redirect : Type 0 where
  pub source : Address
  pub target : Address

-- organization_owners
pub record Membership : Type 0 where
  pub org_id : ℕ
  pub user_id : ℕ

-- webhooks; `none` is a hook of the whole namespace
pub record Hook : Type 0 where
  pub id : ℕ
  pub namespace : String
  pub extension_id : Option String
  pub url : String
  pub secret : String
  pub events : List String
  pub active : Bool
  pub last_delivery_status : Option String

pub data Progress : Type 0 where
  pending retrying delivering delivered failed : Progress

-- webhook_deliveries; `payload` and `body` are one value here, the fields in order
pub record Delivery : Type 0 where
  pub id : ℕ
  pub webhook_id : ℕ
  pub event : String
  pub body : List (String × String)
  pub signature : String
  pub attempt : ℕ
  pub max_attempts : ℕ
  pub status : Progress
  pub next_attempt_at : Option ℕ
  pub last_error : Option String

-- download_events and extension_daily_downloads
pub record Download : Type 0 where
  pub version : String
  pub count : ℕ

-- A value in the JSON of a payload or of an audit entry.
pub data Datum : Type 0 where
  text : String → Datum
  number : ℕ → Datum
  nothing : Datum

pub record Notification : Type 0 where
  pub user_id : ℕ
  pub kind : String
  pub message : String
  pub payload : List (String × Datum)

pub record AuditEntry : Type 0 where
  pub actor_id : Option ℕ
  pub actor_namespace : String
  pub action : String
  pub target_namespace : Option String
  pub target_id : Option String
  pub target_version : Option String
  pub detail : List (String × Datum)

pub record Db : Type 0 where
  pub users : List User
  pub organization_owners : List Membership
  pub versions : List (Row Version)
  pub dist_tags : List (Row Tag)
  pub extension_owners : List (Row Owner)
  pub extension_owner_invites : List (Row Invite)
  pub extension_access : List (Row Grant)
  pub extension_transfers : List (Row Offer)
  pub extension_redirects : List Redirect
  pub webhooks : List Hook
  pub webhook_deliveries : List Delivery
  pub download_events : List (Row Download)
  pub extension_daily_downloads : List (Row Download)
  pub notifications : List Notification
  pub audit_log : List AuditEntry
  pub next_user_id : ℕ
  pub next_version_id : ℕ
  pub next_delivery_id : ℕ

-- The tests that the queries make of an enumerated column.
abbrev pub is_admin_role : Role → Bool
is_admin_role admin = true
is_admin_role normal = false

abbrev pub is_organization : Kind → Bool
is_organization organization = true
is_organization user = false

abbrev pub is_private : Visibility → Bool
is_private private = true
is_private public = false

abbrev pub is_staging : Status → Bool
is_staging staging = true
is_staging _ = false

abbrev pub is_pending : Status → Bool
is_pending pending = true
is_pending _ = false

abbrev pub is_published : Status → Bool
is_published published = true
is_published _ = false

abbrev pub is_rejected : Status → Bool
is_rejected rejected = true
is_rejected _ = false

-- status IN ('published', 'deprecated')
abbrev pub is_listed : Status → Bool
is_listed published = true
is_listed deprecated = true
is_listed _ = false

-- status IN ('staging', 'pending')
abbrev pub is_unreviewed : Status → Bool
is_unreviewed staging = true
is_unreviewed pending = true
is_unreviewed _ = false

-- published, yanked or deprecated: the statuses with a download
abbrev pub is_downloadable : Status → Bool
is_downloadable published = true
is_downloadable yanked = true
is_downloadable deprecated = true
is_downloadable _ = false

abbrev pub status_text : Status → String
status_text staging = "staging"
status_text pending = "pending"
status_text published = "published"
status_text rejected = "rejected"
status_text yanked = "yanked"
status_text deprecated = "deprecated"

abbrev pub visibility_text : Visibility → String
visibility_text public = "public"
visibility_text private = "private"

-- ON DELETE CASCADE of webhook_deliveries: the deliveries that are left where `gone` hooks are deleted.
abbrev pub surviving : (Hook → Bool) → List Hook → List Delivery → List Delivery
surviving gone hooks deliveries =
    delete (λ d. any (λ (h : Hook). h.id == d.webhook_id && gone h) hooks) deliveries

-- status IN ('pending', 'retrying')
abbrev pub is_waiting : Progress → Bool
is_waiting pending = true
is_waiting retrying = true
is_waiting _ = false

abbrev pub is_delivering : Progress → Bool
is_delivering delivering = true
is_delivering _ = false
