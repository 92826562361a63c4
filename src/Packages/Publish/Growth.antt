-- ===== src/Packages/Publish/Growth.antt =====
-- `publishVersion` adds one version to the tables or leaves them, whichever of its writes fails.
use twexthub.Shared.{
  ℕ, ◌+◌, ◌≡◌, refl, ◌∙◌, Bool, true, false, List, [], ◌∷◌, ◌++◌, arith, any, ltb, ◌==◌, nat_eq,
  string_eq, All, ok, err, ◌&&◌, Bool-cases, inl, inr, ◌⊎◌, ==_refl,
}
use twexthub.Shared.Rows.{update}
use twexthub.Notify.{audit}
use twexthub.Db.{Db, User, Row, Version, Address, Visibility, is_unreviewed}
use twexthub.Util.Versions.{Semver}
use twexthub.Transfer.Offers.{Limits, charge}
use twexthub.Access.Guards.{Answered}
use twexthub.Packages.Publish.{
  Manifest, Artifacts, Disk, charge_account, insert_staged, staged_row, set_version, store_source,
  promote, stage, finish, publish_version, final_status, published_time,
}
use twexthub.Packages.Publish.Staging.{stage-Staged}

-- The sequence of the table's ids is ahead of every row.
abbrev pub IsNumbered : Db → Type 0
IsNumbered db = All (λ (r : Row Version). ltb r.cols.id db.next_version_id ≡ true) db.versions

abbrev pub awaits : ℕ → Row Version → Bool
awaits owner_id r = r.cols.owner_id == owner_id && is_unreviewed r.cols.status

-- The tables with one version more, and its bytes charged to the publishing account.
pub record Grown (owner credential : User) (a : Address) (bytes : ℕ) (db db' : Db) : Type 0 where
  pub row : Row Version
  pub id : row.cols.id ≡ db.next_version_id
  pub address : row.address ≡ a
  pub owner_id : row.cols.owner_id ≡ credential.id
  pub charged : charge row.cols ≡ bytes
  pub alone : any (awaits credential.id) db.versions ≡ false
  pub versions : db'.versions ≡ db.versions ++ row ∷ []
  pub users : db'.users ≡ charge_account owner.id bytes db.users
  pub next : db'.next_version_id ≡ db.next_version_id + 1

update-last :
    (n : ℕ) (f : Version → Version) (rows : List (Row Version)) (row : Row Version)
    → All (λ (r : Row Version). ltb r.cols.id n ≡ true) rows
    → row.cols.id ≡ n
    → update (λ r. r.cols.id == n) (λ r. record r { cols = f r.cols }) (rows ++ row ∷ [])
      ≡ rows ++ record row { cols = f row.cols } ∷ []
update-last n f [] row h e = rw e (rw (==_refl n) refl)
update-last n f (r ∷ rs) row h e =
    ground (arith, update-last n f rs row, nat_eq.beq_iff r.cols.id n)

module _ (owner credential : User) (a : Address) (bytes : ℕ) (db db' : Db) where
  Grown-set_version :
      (n : ℕ) (f : Version → Version)
      → ((v : Version)
          → ((f v).id ≡ v.id) × ((f v).owner_id ≡ v.owner_id) × (charge (f v) ≡ charge v))
      → IsNumbered db
      → n ≡ db.next_version_id
      → Grown owner credential a bytes db db'
      → Grown owner credential a bytes db (set_version n f db')
  Grown-set_version n f same numbered e g =
      let (same_id, same_owner, same_charge) = same g.row.cols in
      record {
        row = record g.row { cols = f g.row.cols };
        id = same_id ∙ g.id;
        address = g.address;
        owner_id = same_owner ∙ g.owner_id;
        charged = same_charge ∙ g.charged;
        alone = g.alone;
        versions =
            rw g.versions (rw e (update-last db.next_version_id f db.versions g.row numbered g.id));
        users = g.users;
        next = g.next;
      }

  store_source-Grown :
      (row : Row Version) (art : Artifacts)
      → IsNumbered db
      → row.cols.id ≡ db.next_version_id
      → Grown owner credential a bytes db db'
      → Grown owner credential a bytes db (store_source row art db')
  unfolding store_source
  store_source-Grown row art numbered id g =
      Grown-set_version row.cols.id _ (λ v. (refl, refl, refl)) numbered id g

  promote-Grown :
      (now : ℕ) (row : Row Version) (art : Artifacts)
      → IsNumbered db
      → row.cols.id ≡ db.next_version_id
      → Grown owner credential a bytes db db'
      → Grown owner credential a bytes db (promote now owner credential row art db')
  unfolding promote audit
  promote-Grown now row art numbered id g =
      let p =
        Grown-set_version row.cols.id
          (λ v. record v { status = final_status owner; published_at = published_time owner now })
          (λ v. (refl, refl, refl)) numbered id g in
      record {
        row = p.row;
        id = p.id;
        address = p.address;
        owner_id = p.owner_id;
        charged = p.charged;
        alone = p.alone;
        versions = p.versions;
        users = p.users;
        next = p.next;
      }

module _ (sv : Semver) (limits : Limits) (disk : Disk) (now : ℕ) (owner credential : User)
    (a : Address) (manifest : Manifest) (art : Artifacts) (visibility : Visibility) (db : Db)
    (numbered : IsNumbered db) where
  stage-Grown :
      (staged_db : Db) (row : Row Version)
      → stage sv limits owner credential a manifest art visibility db ≡ ok (staged_db, row)
      → Grown owner credential a (art.code_length + art.source_length) db staged_db
        × (row.cols.id ≡ db.next_version_id)
  unfolding insert_staged staged_row
  stage-Grown staged_db row h =
      let s =
        stage-Staged sv limits owner credential a manifest art visibility db staged_db row h in
      rw s.tables (
        rw s.inserted (
          record {
            row = staged_row db.next_version_id credential a s.version manifest art visibility;
            id = refl;
            address = refl;
            owner_id = refl;
            charged = refl;
            alone = s.alone;
            versions = refl;
            users = refl;
            next = refl;
          },
          refl,
        ))

  -- Nothing is written, or one version more with its bytes.
  finish-Grown :
      (s : Answered (Db × Row Version))
      → stage sv limits owner credential a manifest art visibility db ≡ s
      → ((finish disk now owner credential art db s).0 ≡ db)
        ⊎ Grown owner credential a
            (art.code_length + art.source_length)
            db
            (finish disk now owner credential art db s).0
  unfolding finish
  finish-Grown (err e) h = inl refl
  finish-Grown (ok (staged_db, row)) h =
      let (g, id) = stage-Grown staged_db row h in
      let stored = store_source-Grown owner credential a _ db staged_db row art numbered id g in
      let done = promote-Grown owner credential a _ db _ now row art numbered id stored in
      elim (Bool-cases disk.source_stored) [
        | inr e ↦ inr (rw e g)
        | inl e ↦ elim (Bool-cases disk.blob_stored) [
          | inr e' ↦ inr (rw (e, e') stored)
          | inl e' ↦ inr (rw (e, e') done)
        ]
      ]

  pub publish_version-Grown :
      ((publish_version sv limits disk now owner credential a manifest art visibility db).0 ≡ db)
      ⊎ Grown owner credential a
          (art.code_length + art.source_length)
          db
          (publish_version sv limits disk now owner credential a manifest art visibility db).0
  unfolding publish_version
  publish_version-Grown =
      finish-Grown (stage sv limits owner credential a manifest art visibility db) refl
