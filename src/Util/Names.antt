-- ===== src/Util/Names.antt =====
-- `isValidNamespace`, `isValidExtensionId` and the colour pattern of src/util.js.
pub mod Language
use Prim.Native.Char.{code}
use twexthub.Shared.{ℕ, String, Bool, ◌||◌, ◌==◌, nat_eq}
use twexthub.Util.Regex.{Regex, class, seq, opt, at_most, exactly, run, test, in_range}

-- [a-z0-9]
abbrev pub is_alnum : ℕ → Bool
is_alnum c = in_range b'a' b'z' c || in_range b'0' b'9' c

-- [a-z0-9-]
abbrev pub is_name_char : ℕ → Bool
is_name_char c = is_alnum c || c == b'-'

-- [0-9a-fA-F]
abbrev pub is_hex : ℕ → Bool
is_hex c = in_range b'0' b'9' c || in_range b'a' b'f' c || in_range b'A' b'F' c

-- ^[a-z0-9](?:[a-z0-9-]{0,38}[a-z0-9])?$
unfoldable pub namespace_pattern : Regex
unfolding at_most
namespace_pattern =
    seq (class is_alnum) (opt (seq (at_most 38 (class is_name_char)) (class is_alnum)))

-- ^[a-z0-9]{1,64}$
unfoldable pub extension_id_pattern : Regex
unfolding at_most
extension_id_pattern = seq (class is_alnum) (at_most 63 (class is_alnum))

-- ^#[0-9a-fA-F]{6}$
unfoldable pub color_pattern : Regex
unfolding exactly
color_pattern = seq (class (λ c. c == b'#')) (exactly 6 (class is_hex))

unfoldable pub is_valid_namespace : String → Bool
unfolding test namespace_pattern
is_valid_namespace value = test namespace_pattern value

unfoldable pub is_valid_extension_id : String → Bool
unfolding test extension_id_pattern
is_valid_extension_id value = test extension_id_pattern value
