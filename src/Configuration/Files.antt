-- ===== src/Configuration/Files.antt =====
-- `configStorage` of src/server-config.js: whether the file outlives the instance.
use twexthub.Shared.{
  ℕ, String, Bool, false, not, ◌&&◌, ◌||◌, Option, none, some, List, [], ◌∷◌, ◌++◌, ◌==◌, nat_eq,
  string_eq, if◌then◌else◌, ltb, length,
}
use twexthub.Webhooks.Targets.{starts_with, split, same_codes}

-- What the process sees of the file: whether it may write it, the mount table, and the real path.
pub record Platform : Type 0 where
  pub writable : Bool
  pub mount_info : Option (List ℕ)
  pub resolved : List ℕ
  pub real_path : Option (List ℕ)
  pub container : Bool

abbrev fifth : List (List ℕ) → List ℕ
fifth (a ∷ b ∷ c ∷ d ∷ e ∷ rest) = e
fifth _ = []

abbrev ends_in_slash : List ℕ → Bool
ends_in_slash [] = false
ends_in_slash (c ∷ []) = c == b'/'
ends_in_slash (c ∷ d ∷ s) = ends_in_slash (d ∷ s)

unfoldable pub covers : List ℕ → List ℕ → Bool
unfolding starts_with same_codes
covers mount_point real =
    same_codes real mount_point
    || starts_with (if ends_in_slash mount_point then mount_point else mount_point ++ b'/' ∷ [])
        real

-- The loop over the lines, on the fifth field of each.
unfoldable pub deepest_of : List ℕ → List (List ℕ) → List ℕ → List ℕ
unfolding covers split
deepest_of real [] deepest = deepest
deepest_of real (line ∷ lines) deepest =
    let mount_point = fifth (split b' ' line) in
    deepest_of real lines (
      if not (length mount_point == 0)
        && covers mount_point real
        && ltb (length deepest) (length mount_point)
      then mount_point
      else deepest)

abbrev real_or : Option (List ℕ) → List ℕ → List ℕ
real_or none resolved = resolved
real_or (some real) resolved = real

abbrev is_image_layer : List ℕ → Bool
is_image_layer deepest = same_codes deepest [] || same_codes deepest (b'/' ∷ [])

-- configStorage: the reason where the file is not persistent
unfoldable pub config_storage : Platform → Option String
unfolding deepest_of same_codes
config_storage platform =
    if not platform.writable
    then some "The configuration file is not writable by this process."
    else elim platform.mount_info [
      | none ↦ none
      | some info ↦
          if platform.container
            && is_image_layer
                (deepest_of (real_or platform.real_path platform.resolved) (split b'\n' info) [])
          then some
              "The configuration file is inside the container, so a change to it is lost when the instance is recreated. Mount it as a volume to enable this."
          else none
    ]
