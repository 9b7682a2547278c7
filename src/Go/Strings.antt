-- ===== src/Go/Strings.antt =====
-- Package `strings` and slices of a string.
pub mod Contains
use rosetta_casper.Common.{
  ℕ, suc, ◌+◌, ◌-◌, Bool, true, false, ◌||◌, ◌&&◌, Option, none, some, [], ◌∷◌, Text, leb, ◌==◌,
  if◌then◌else◌, length, take, drop,
}
use rosetta_casper.Go.Outcome.{Outcome, ok, panic}

unfoldable pub has_prefix : Text → Text → Bool
has_prefix s [] = true
has_prefix [] (p ∷ ps) = false
has_prefix (c ∷ s) (p ∷ ps) = c == p && has_prefix s ps

-- `strings.Contains(s, part)`.
unfoldable pub contains : Text → Text → Bool
unfolding has_prefix
contains [] part = has_prefix [] part
contains (c ∷ s) part = has_prefix (c ∷ s) part || contains s part

-- `strings.Count(s, c)` for a text of one byte.
unfoldable pub count : Text → ℕ → ℕ
count [] c = 0
count (b ∷ s) c = (if b == c then 1 else 0) + count s c

-- `strings.LastIndex(s, c)` for a text of one byte; `none` is -1.
unfoldable pub last_index : Text → ℕ → Option ℕ
last_index [] c = none
last_index (b ∷ s) c = elim (last_index s c) [
  | some i ↦ some (suc i)
  | none ↦ if b == c then some 0 else none
]

-- `s[from:]`, and `s[from:to]` with constants `from ≤ to`: out of range is a panic.
unfoldable pub slice_from : Text → ℕ → Outcome Text
slice_from s from = if leb from (length s) then ok (drop from s) else panic

unfoldable pub slice : Text → ℕ → ℕ → Outcome Text
slice s from to = if leb to (length s) then ok (take (to - from) (drop from s)) else panic
