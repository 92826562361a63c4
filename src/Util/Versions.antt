-- ===== src/Util/Versions.antt =====
-- `maxVersionBySemver` of src/util.js, over the package `semver`, which is a parameter.
pub mod Maximum
use twexthub.Shared.{
  String, ◌≡◌, Bool, true, false, Option, none, some, List, [], ◌∷◌, if◌then◌else◌,
}

-- The package `semver`: `valid` answers the normalised version, and `gt` compares by precedence.
pub record Semver : Type 0 where
  pub valid : String → Option String
  pub gt : String → String → Bool
  pub gt_irrefl : (a : String) → gt a a ≡ false
  pub gt_trans : (a b c : String) → gt a b ≡ true → gt b c ≡ true → gt a c ≡ true
  pub gt_compare : (a b c : String) → gt a c ≡ true → gt b c ≡ false → gt a b ≡ true

abbrev pub is_valid : Semver → String → Bool
is_valid sv v = elim (sv.valid v) [ none ↦ false | some w ↦ true ]

-- The body of the loop: `max` is the best version so far.
unfoldable pub step_max : Semver → Option String → String → Option String
step_max sv none v = if is_valid sv v then some v else none
step_max sv (some m) v = if is_valid sv v then (if sv.gt v m then some v else some m) else some m

unfoldable pub max_from : Semver → Option String → List String → Option String
max_from sv max [] = max
max_from sv max (v ∷ vs) = max_from sv (step_max sv max v) vs

unfoldable pub max_version_by_semver : Semver → List String → Option String
unfolding max_from
max_version_by_semver sv versions = max_from sv none versions
