-- ===== src/Storage/Sniff.antt =====
-- src/image-sniff.js: the type of an image by its bytes. A buffer is the list of its bytes, and a byte
-- past its end is undefined, which equals none. The test of a truncated buffer does not throw here,
-- nor there: every read of a length stands behind the test of the length.
pub mod Brands
use twexthub.Shared.{
  ℕ, zero, suc, ◌+◌, ◌*◌, String, Bool, true, false, not, ◌&&◌, ◌||◌, Option, none, some, List, [],
  ◌∷◌, ◌==◌, nat_eq, if◌then◌else◌, leb, ltb, length,
}
use twexthub.Util.Regex.{codes}

-- The bytes `values` stand in the buffer from `offset` on.
unfoldable pub stands_at : List ℕ → ℕ → List ℕ → Bool
stands_at [] offset b = true
stands_at (v ∷ vs) offset [] = false
stands_at (v ∷ vs) zero (c ∷ b) = c == v && stands_at vs 0 b
stands_at (v ∷ vs) (suc offset) (c ∷ b) = stands_at (v ∷ vs) offset b

unfoldable pub is_png : List ℕ → Bool
unfolding stands_at
is_png b =
    ltb 24 (length b)
    && stands_at (137 ∷ 80 ∷ 78 ∷ 71 ∷ 13 ∷ 10 ∷ 26 ∷ 10 ∷ []) 0 b
    && stands_at (codes "IHDR") 12 b

unfoldable pub is_jpeg : List ℕ → Bool
unfolding stands_at
is_jpeg b = ltb 3 (length b) && stands_at (255 ∷ 216 ∷ 255 ∷ []) 0 b

unfoldable pub is_gif : List ℕ → Bool
unfolding stands_at
is_gif b =
    ltb 10 (length b)
    && stands_at (codes "GIF8") 0 b
    && (stands_at (codes "7a") 4 b || stands_at (codes "9a") 4 b)

unfoldable pub is_webp : List ℕ → Bool
unfolding stands_at
is_webp b = ltb 12 (length b) && stands_at (codes "RIFF") 0 b && stands_at (codes "WEBP") 8 b

-- b.readUInt32BE(0)
abbrev pub box_length : List ℕ → ℕ
box_length (a ∷ b ∷ c ∷ d ∷ rest) = ((a * 256 + b) * 256 + c) * 256 + d
box_length _ = 0

abbrev min : ℕ → ℕ → ℕ
min a b = if leb a b then a else b

abbrev pub box_end : List ℕ → ℕ
box_end b = min (length b) (if leb 8 (box_length b) then box_length b else length b)

abbrev pub is_compatible : ℕ → List ℕ → Bool
is_compatible offset b = stands_at (codes "mif1") offset b || stands_at (codes "miaf") offset b

-- The loop over the brands; the number of bytes is fuel enough, one for each round.
unfoldable pub has_compatible : (fuel offset : ℕ) → List ℕ → Bool
unfolding stands_at
has_compatible zero offset b = false
has_compatible (suc fuel) offset b =
    let rest = has_compatible fuel (offset + 4) b in
    if leb (offset + 4) (box_end b) then is_compatible offset b || rest else false

unfoldable pub is_avif : List ℕ → Bool
unfolding stands_at has_compatible
is_avif b =
    leb 12 (length b)
    && stands_at (codes "ftyp") 4 b
    && (stands_at (codes "avif") 8 b || stands_at (codes "avis") 8 b)
    && has_compatible (length b) 16 b

unfoldable pub supported_image_types : List String
supported_image_types = "image/png" ∷ "image/jpeg" ∷ "image/gif" ∷ "image/webp" ∷ "image/avif" ∷ []

unfoldable pub sniff_image_type : List ℕ → Option String
unfolding is_png is_jpeg is_gif is_webp is_avif
sniff_image_type b =
    if is_png b
    then some "image/png"
    else if is_jpeg b
    then some "image/jpeg"
    else if is_gif b
    then some "image/gif"
    else if is_webp b
    then some "image/webp"
    else if is_avif b
    then some "image/avif"
    else none
