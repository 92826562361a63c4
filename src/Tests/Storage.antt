-- ===== src/Tests/Storage.antt =====
-- The store of blobs, the profile images and an archive on sample files.
use twexthub.Shared.{
  ℕ, ◌≤◌, ◌≡◌, ◌↔◌, refl, String, true, ◌||◌, none, some, List, [], ◌∷◌, ◌++◌, keep, length, ok,
  sum_by, false, All, ◌||◌, ◌≤◌, value_or,
}
use twexthub.Util.Regex.{codes}
use twexthub.Storage.{File, is_referenced, gc_blobs}
use twexthub.Storage.Sweep.{is_recent, gc_blobs-keep}
use twexthub.Storage.Sniff.{stands_at, is_avif}
use twexthub.Storage.Sniff.Brands.{Brand, is_avif_iff}
use twexthub.Storage.Images.{Hub, Sharp, ImageLimits, avatar, banner, upload, clear, is_self}
use twexthub.Accounts.Updates.{load_user}
use twexthub.Storage.Served.{IsServed}
use twexthub.Storage.Lasting.{Reach, start, next, uploaded, cleared, Reach-IsServed}
use twexthub.Packages.Project.{TarEntry, file, symbolic_link, is_link, extract_tarball}
use twexthub.Packages.Project.Extraction.{extract_tarball-bounds}
use twexthub.Tests.Data.{alice, registry, as_account}

-- One blob that a version refers to, an old one that nothing does, and a recent one.
abbrev blobs : List File
blobs =
    record { digest = "d1"; content = []; modified_at = 1 }
    ∷ record { digest = "d7"; content = []; modified_at = 1 }
    ∷ record { digest = "d8"; content = []; modified_at = 9000000 }
    ∷ []

gc_blobs-keep_example :
    (gc_blobs 9000001 registry blobs).0
    ≡ keep (λ f. is_referenced none f.digest registry || is_recent 9000001 f) blobs
gc_blobs-keep_example =
    gc_blobs-keep 9000001 registry blobs (refl, (refl, (refl, tt))) (refl, (refl, (refl, tt)))

abbrev gif : List ℕ
gif = codes "GIF89a-----"

-- The digest of every content.
abbrev sha256 : List ℕ → String
sha256 content = "d9"

abbrev print : ℕ → String
print n = "2048"

abbrev sharp : Sharp
sharp = record {
  metadata = λ b. some (record { width = 3000; height = 1000 });
  resize =
      λ animated kind b. some (record { pixels = b; info = record { width = 2000; height = 667 } });
}

abbrev limits : ImageLimits
limits = record { max_avatar_bytes = none; max_banner_bytes = none; max_profile_image_bytes = none }

abbrev hub : Hub
hub = record { db = registry; files = blobs }

abbrev with_avatar : Hub
with_avatar = value_or hub (
    upload print sha256 5 sharp limits load_user is_self avatar (some (as_account alice)) "alice"
      gif none hub)

abbrev with_banner : Hub
with_banner = value_or hub (
    upload print sha256 6 sharp limits load_user is_self banner (some (as_account alice)) "alice"
      gif none with_avatar)

-- The banner has the same bytes.
abbrev one_left : Hub
one_left =
    value_or hub (clear load_user is_self avatar (some (as_account alice)) "alice" with_banner)

first_upload :
    upload print sha256 5 sharp limits load_user is_self avatar
      (some (as_account alice))
      "alice"
      gif
      none
      hub
    ≡ ok with_avatar
unfolding upload load_user
first_upload = refl

second_upload :
    upload print sha256 6 sharp limits load_user is_self banner
      (some (as_account alice))
      "alice"
      gif
      none
      with_avatar
    ≡ ok with_banner
unfolding upload load_user
second_upload = refl

removal : clear load_user is_self avatar (some (as_account alice)) "alice" with_banner ≡ ok one_left
unfolding upload clear load_user
removal = refl

abbrev past : Reach sha256 hub one_left
past =
    next with_banner one_left
      (next with_avatar with_banner
        (next hub with_avatar start (
          uploaded print 5 sharp limits load_user is_self avatar (some (as_account alice)) "alice"
            gif none with_avatar first_upload))
        (uploaded print 6 sharp limits load_user is_self banner (some (as_account alice)) "alice"
          gif none with_banner second_upload))
      (cleared load_user is_self avatar (some (as_account alice)) "alice" one_left removal)

Reach-IsServed_example : IsServed one_left
Reach-IsServed_example = Reach-IsServed sha256 hub one_left ((refl, refl), ((refl, refl), tt)) past

abbrev avif : List ℕ
avif = (0 ∷ 0 ∷ 0 ∷ 24 ∷ []) ++ codes "ftypavif0000avismiaf"

is_avif_iff_example : (is_avif avif ≡ true) ↔ (
    (12 ≤ length avif)
    × (stands_at (codes "ftyp") 4 avif ≡ true)
    × ((stands_at (codes "avif") 8 avif || stands_at (codes "avis") 8 avif) ≡ true)
    × Brand 16 avif)
is_avif_iff_example = is_avif_iff avif

abbrev archive : List TarEntry
archive =
    record { path = "src/main.ts"; has_nul = false; type = file; size = 60 }
    ∷ record { path = "src/big.ts"; has_nul = false; type = file; size = 50 }
    ∷ record { path = "out"; has_nul = false; type = symbolic_link; size = 0 }
    ∷ []

extract_tarball-bounds_example :
    (sum_by (λ (e : TarEntry). e.size) (extract_tarball (some 100) archive) ≤ 100)
    × (length (extract_tarball (some 100) archive) ≤ 1000)
    × All
        (λ (e : TarEntry). (e.has_nul || is_link e.type) ≡ false)
        (extract_tarball (some 100) archive)
extract_tarball-bounds_example = extract_tarball-bounds 100 archive
