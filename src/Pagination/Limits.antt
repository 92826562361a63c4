-- ===== src/Pagination/Limits.antt =====
-- The size of a page.
use twexthub.Shared.{
  ℕ, ◌≤◌, min, ◌≡◌, arith, ltb, leb, length, all, ◌&&◌, ok, require-ok, ok-injective,
}
use twexthub.Util.Regex.{codes}
use twexthub.Util.Text.{trim}
use twexthub.Packages.Requests.{Field, absent, null, text, other}
use twexthub.Pagination.{PageLimits, parse_limit, digits_value, is_digit}

-- A limit that is accepted is at least one and at most the configured maximum, whatever the text, if
-- the configured default is.
pub parse_limit-bounds :
    (config : PageLimits) (raw : Field) (n : ℕ)
    → 1 ≤ config.default_limit
    → config.default_limit ≤ config.max_limit
    → parse_limit config raw ≡ ok n
    → (1 ≤ n) × (n ≤ config.max_limit)
unfolding parse_limit
parse_limit-bounds config absent n low high h =
    let same : config.default_limit ≡ n = ok-injective h in ground (arith, same, low, high)
parse_limit-bounds config null n low high h = cc
parse_limit-bounds config other n low high h = cc
parse_limit-bounds config (text raw) n low high h =
    let (_, h1) =
      require-ok (ltb 0 (length (codes (trim raw))) && all is_digit (codes (trim raw))) _ _ h in
    let (positive, h2) = require-ok (leb 1 (digits_value 0 (codes (trim raw)))) _ _ h1 in
    let same : min (digits_value 0 (codes (trim raw))) config.max_limit ≡ n = ok-injective h2 in
    ground (arith, positive, same, low, high)
