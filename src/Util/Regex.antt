-- ===== src/Util/Regex.antt =====
-- The regular expressions of JavaScript that the program uses: classes of characters, sequences,
-- optional parts and bounded repetitions, anchored at both ends. A character is its code.
use Prim.Native.Char.{code}
use twexthub.Shared.{
  ℕ, zero, suc, String, Bool, true, false, ◌||◌, List, [], ◌∷◌, if◌then◌else◌, leb, ◌&&◌,
}

abbrev pub codes : String → List ℕ
codes String.[] = []
codes (String.◌∷◌ c s) = code c ∷ codes s

pub data Regex : Type 0 where
  empty : Regex
  class : (ℕ → Bool) → Regex
  seq : Regex → Regex → Regex
  opt : Regex → Regex

-- r{0,n}
unfoldable pub at_most : ℕ → Regex → Regex
at_most zero r = empty
at_most (suc n) r = opt (seq r (at_most n r))

-- r{n}
unfoldable pub exactly : ℕ → Regex → Regex
exactly zero r = empty
exactly (suc n) r = seq r (exactly n r)

-- A backtracking match of a prefix, whose rest is handed on.
unfoldable pub run : Regex → List ℕ → (List ℕ → Bool) → Bool
run empty s k = k s
run (class p) [] k = false
run (class p) (c ∷ s) k = if p c then k s else false
run (seq a b) s k = run a s (λ t. run b t k)
run (opt r) s k = run r s k || k s

abbrev pub at_end : List ℕ → Bool
at_end [] = true
at_end (c ∷ s) = false

-- /^r$/.test(text)
unfoldable pub test : Regex → String → Bool
unfolding run
test r text = run r (codes text) at_end

abbrev pub in_range : ℕ → ℕ → ℕ → Bool
in_range lo hi c = leb lo c && leb c hi
