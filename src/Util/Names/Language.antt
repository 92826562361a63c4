-- ===== src/Util/Names/Language.antt =====
-- The languages of the name patterns, described without a regular expression.
use twexthub.Shared.{
  ℕ, zero, suc, String, ◌≡◌, refl, Bool, false, ◌&&◌, List, [], ◌∷◌, arith, leb, all, length,
}
use twexthub.Util.Regex.{codes, class, seq, opt, at_most, run, at_end}
use twexthub.Util.Names.{is_alnum, is_name_char, is_valid_namespace, is_valid_extension_id}

-- A text of at most `n` characters of a class.
run-at_most :
    (p : ℕ → Bool) (n : ℕ) (s : List ℕ)
    → run (at_most n (class p)) s at_end ≡ (all p s && leb (length s) n)
unfolding run at_most
run-at_most p zero [] = refl
run-at_most p zero (c ∷ s) = ground arith
run-at_most p (suc n) [] = ground arith
run-at_most p (suc n) (c ∷ s) = ground (arith, run-at_most p n s)

-- Letters, digits and dashes, of which the last is no dash.
abbrev ends_well : List ℕ → Bool
ends_well [] = false
ends_well (c ∷ []) = is_alnum c
ends_well (c ∷ d ∷ s) = is_name_char c && ends_well (d ∷ s)

abbrev last_alnum : List ℕ → Bool
last_alnum s = run (class is_alnum) s at_end

run-tail :
    (n : ℕ) (s : List ℕ)
    → run (at_most n (class is_name_char)) s last_alnum ≡ (ends_well s && leb (length s) (suc n))
unfolding run at_most
run-tail zero [] = ground arith
run-tail zero (c ∷ []) = ground arith
run-tail zero (c ∷ d ∷ s) = ground arith
run-tail (suc n) [] = ground (arith, run-tail n [])
run-tail (suc n) (c ∷ []) = ground (arith, run-tail n [])
run-tail (suc n) (c ∷ d ∷ s) = ground (arith, run-tail n (d ∷ s))

abbrev starts_well : List ℕ → Bool
starts_well [] = false
starts_well (c ∷ s) = is_alnum c

-- A text of 1 to 40 letters, digits and dashes that neither starts nor ends with a dash.
abbrev pub is_name : List ℕ → Bool
is_name s = starts_well s && ends_well s && leb (length s) 40

namespace_run :
    (s : List ℕ)
    → run
        (seq (class is_alnum) (opt (seq (at_most 38 (class is_name_char)) (class is_alnum))))
        s
        at_end
      ≡ is_name s
unfolding run
namespace_run [] = refl
namespace_run (c ∷ []) = ground (arith, run-tail 38 [])
namespace_run (c ∷ d ∷ s) = ground (arith, run-tail 38 (d ∷ s))

-- The namespaces that the pattern accepts are the texts of 1 to 40 lower-case letters, digits and
-- dashes that neither start nor end with a dash.
pub is_valid_namespace_iff : (value : String) → is_valid_namespace value ≡ is_name (codes value)
unfolding is_valid_namespace
is_valid_namespace_iff value = namespace_run (codes value)

id_run :
    (s : List ℕ)
    → run (seq (class is_alnum) (at_most 63 (class is_alnum))) s at_end
      ≡ (leb 1 (length s) && all is_alnum s && leb (length s) 64)
unfolding run
id_run [] = refl
id_run (c ∷ s) = ground (arith, run-at_most is_alnum 63 s)

-- The extension ids that the pattern accepts are the texts of 1 to 64 lower-case letters and
-- digits.
pub is_valid_extension_id_iff :
    (value : String)
    → is_valid_extension_id value ≡ (
        leb 1 (length (codes value)) && all is_alnum (codes value) && leb (length (codes value)) 64)
unfolding is_valid_extension_id
is_valid_extension_id_iff value = id_run (codes value)
