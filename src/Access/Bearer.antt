-- ===== src/Access/Bearer.antt =====
-- The `Authorization` header of src/auth.js: /^Bearer\s+(\S.*)$/i and the `trim()` of its group.
use mathlib.Core.List.{reverse}
use twexthub.Shared.{
  ℕ, ◌+◌, Bool, ◌||◌, Option, none, some, List, [], ◌∷◌, if◌then◌else◌, ◌==◌, nat_eq, any,
}
use twexthub.Util.Text.{is_space}
use twexthub.Util.Regex.{codes, in_range}

-- The line terminators, which `.` does not match.
abbrev is_line_end : ℕ → Bool
is_line_end c = c == 10 || c == 13 || c == 8232 || c == 8233

abbrev lower : ℕ → ℕ
lower c = if in_range b'A' b'Z' c then c + 32 else c

-- The rest of a text behind a prefix, whose letters are compared without their case.
after : List ℕ → List ℕ → Option (List ℕ)
after [] s = some s
after (p ∷ ps) [] = none
after (p ∷ ps) (c ∷ s) = if lower c == p then after ps s else none

skip_spaces : List ℕ → List ℕ
skip_spaces [] = []
skip_spaces (c ∷ s) = if is_space c then skip_spaces s else c ∷ s

-- The group, once a space has been read.
group : List ℕ → Option (List ℕ)
group [] = none
group (c ∷ s) = if any is_line_end s then none else some (c ∷ s)

spaced : List ℕ → Option (List ℕ)
unfolding skip_spaces group
spaced [] = none
spaced (c ∷ s) = if is_space c then group (skip_spaces s) else none

-- The group starts with no space, so only its end is trimmed.
trim_end : List ℕ → List ℕ
unfolding skip_spaces
trim_end s = reverse (skip_spaces (reverse s))

unfoldable pub bearer : List ℕ → Option (List ℕ)
unfolding after spaced trim_end
bearer header = elim (after (codes "bearer") header) [
  | none ↦ none
  | some rest ↦ elim (spaced rest) [ none ↦ none | some token ↦ some (trim_end token) ]
]
