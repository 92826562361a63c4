-- ===== src/Tests/Tags.antt =====
-- Setting and removing a dist-tag of the sample extension.
use twexthub.Shared.{String, ◌≡◌, refl, true, false, none, some, ok, value_or, ◌==◌, string_eq}
use twexthub.Db.{Address, Row, Tag}
use twexthub.Util.Names.{is_valid_namespace, is_valid_extension_id}
use twexthub.Packages.Requests.{Effect, silent, text}
use twexthub.Packages.Resolve.{find_tag}
use twexthub.Packages.Tags.{normalized, is_released, set_tag, remove_tag}
use twexthub.Packages.Tags.Lookup.{set_tag-find_tag}
use twexthub.Tests.Data.{one_digit, alice, tool, registry, as_account}

abbrev after_set : Effect
unfolding set_tag
after_set =
    value_or (silent registry)
      (set_tag one_digit none (some (as_account alice)) true tool "beta" (text "1.0.0") registry)

sets :
    set_tag one_digit none (some (as_account alice)) true tool "beta" (text "1.0.0") registry
    ≡ ok after_set
unfolding set_tag after_set is_valid_namespace is_valid_extension_id
sets = refl

set_tag-find_tag_example :
    (v : String) × (normalized one_digit (text "1.0.0") ≡ some v)
    × (is_released registry tool v ≡ true)
    × ((r : Row Tag) × (find_tag after_set.db tool "beta" ≡ some r) × (r.cols.version ≡ v))
    × ((b : Address) (t : String)
        → ("beta" == t) ≡ false
        → find_tag after_set.db b t ≡ find_tag registry b t)
set_tag-find_tag_example =
    set_tag-find_tag one_digit none (some (as_account alice)) true tool "beta" (text "1.0.0")
      registry after_set sets

abbrev after_remove : Effect
unfolding remove_tag
after_remove =
    value_or (silent registry) (remove_tag none (some (as_account alice)) tool "stable" registry)

removes : remove_tag none (some (as_account alice)) tool "stable" registry ≡ ok after_remove
unfolding remove_tag after_remove is_valid_namespace is_valid_extension_id
removes = refl
