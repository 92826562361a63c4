-- ===== src/Packages/Project/Extraction.antt =====
-- What an archive can write.
use twexthub.Shared.{
  ℕ, ◌+◌, ◌≤◌, ◌≡◌, refl, false, ◌||◌, some, List, [], ◌∷◌, ◌++◌, arith, Bool-cases, inl, inr, All,
  All-append, leb, length, sum_by,
}
use twexthub.Packages.Project.{
  TarEntry, Extracted, is_link, is_full, filter_entry, filter_from, extract_tarball, nothing_yet,
}

abbrev size_of : TarEntry → ℕ
size_of entry = entry.size

-- What the filter counts, and the bounds.
record IsBounded (max : ℕ) (s : Extracted) : Type 0 where
  counted_bytes : sum_by size_of s.seen ≡ s.accounted
  counted_entries : length s.seen ≡ s.entries
  bytes : s.accounted ≤ max
  few : s.entries ≤ 1000
  no_links : All (λ (e : TarEntry). (e.has_nul || is_link e.type) ≡ false) s.seen

sum_last :
    (xs : List TarEntry) (e : TarEntry) → sum_by size_of (xs ++ e ∷ []) ≡ sum_by size_of xs + e.size
sum_last [] e = omega arith
sum_last (x ∷ xs) e = let rest = sum_last xs e in omega (arith, rest)

length_last : (xs : List TarEntry) (e : TarEntry) → length (xs ++ e ∷ []) ≡ length xs + 1
length_last [] e = refl
length_last (x ∷ xs) e = let rest = length_last xs e in omega (arith, rest)

entry-IsBounded :
    (max : ℕ) (e : TarEntry) (s : Extracted)
    → IsBounded max s
    → IsBounded max (filter_entry (some max) e s)
unfolding filter_entry
entry-IsBounded max e s h =
    elim (Bool-cases (
      e.has_nul
      || is_link e.type
      || leb 1000 s.entries
      || is_full (some max) (s.accounted + e.size))) [
        | inl skipped ↦ rw skipped h
        | inr written ↦ rw written (record {
          counted_bytes = omega (arith, sum_last s.seen e, h.counted_bytes);
          counted_entries = omega (arith, length_last s.seen e, h.counted_entries);
          bytes = ground arith;
          few = ground arith;
          no_links = All-append _ s.seen (e ∷ []) h.no_links (ground arith, tt);
        })
      ]

from-IsBounded :
    (max : ℕ) (es : List TarEntry) (s : Extracted)
    → IsBounded max s
    → IsBounded max (filter_from (some max) es s)
unfolding filter_from
from-IsBounded max [] s h = h
from-IsBounded max (e ∷ es) s h =
    from-IsBounded max es (filter_entry (some max) e s) (entry-IsBounded max e s h)

-- A hostile archive exhausts nothing: whatever entries it announces, those that are written have at most
-- the allowed number of bytes together, are at most a thousand, and are no links and have no NUL in
-- their path.
pub extract_tarball-bounds :
    (max : ℕ) (entries : List TarEntry)
    → (sum_by (λ (e : TarEntry). e.size) (extract_tarball (some max) entries) ≤ max)
      × (length (extract_tarball (some max) entries) ≤ 1000)
      × All
          (λ (e : TarEntry). (e.has_nul || is_link e.type) ≡ false)
          (extract_tarball (some max) entries)
unfolding extract_tarball
extract_tarball-bounds max entries =
    let h = from-IsBounded max entries nothing_yet (record {
      counted_bytes = refl;
      counted_entries = refl;
      bytes = omega arith;
      few = omega arith;
      no_links = tt;
    }) in
    (omega (arith, h.counted_bytes, h.bytes), omega (arith, h.counted_entries, h.few), h.no_links)
