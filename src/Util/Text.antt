-- ===== src/Util/Text.antt =====
-- `trim()` of JavaScript, and the tests on trimmed texts.
use Prim.Native.Char.{code}
use twexthub.Shared.{ℕ, String, Bool, ◌||◌, if◌then◌else◌, ◌==◌, nat_eq, string_eq}
use twexthub.Util.Regex.{in_range}

-- White space and line terminators, which `trim()` strips and \s matches.
abbrev pub is_space : ℕ → Bool
is_space c =
    in_range 9 13 c
    || c == 32
    || c == 160
    || c == 5760
    || in_range 8192 8202 c
    || c == 8232
    || c == 8233
    || c == 8239
    || c == 8287
    || c == 12288
    || c == 65279

unfoldable pub trim_start : String → String
trim_start String.[] = ""
trim_start (String.◌∷◌ c s) = if is_space (code c) then trim_start s else String.◌∷◌ c s

unfoldable pub trim_end : String → String
trim_end String.[] = ""
trim_end (String.◌∷◌ c s) =
    let rest = trim_end s in
    if is_space (code c) then (if rest == "" then "" else String.◌∷◌ c rest) else String.◌∷◌ c rest

unfoldable pub trim : String → String
unfolding trim_start trim_end
trim s = trim_start (trim_end s)

-- s.trim().length === 0
unfoldable pub is_blank : String → Bool
unfolding trim
is_blank s = trim s == ""
