-- ===== src/Casper/Operations/Purses.antt =====
-- casper/client.go: `PurseWithoutIndex`.
use rosetta_casper.Common.{
  ℕ, ◌≡◌, refl, ap, ◌↔◌, [], ◌∷◌, ◌++◌, none, some, arith, Text, length, take-append,
}
use rosetta_casper.Go.Outcome.{ok, panic}
use rosetta_casper.Go.Strings.{count, last_index}
use rosetta_casper.Casper.Operations.{purse_without_index}

pub last_index-eq-none_iff : (s : Text) (c : ℕ) → (last_index s c ≡ none) ↔ (count s c ≡ 0)
unfolding last_index count
last_index-eq-none_iff [] c = ground arith
last_index-eq-none_iff (b ∷ s) c = ground (arith, last_index-eq-none_iff s c)

last_index-append :
    (s : Text) (c : ℕ) (t : Text) → count t c ≡ 0 → last_index (s ++ (c ∷ t)) c ≡ some (length s)
unfolding last_index
last_index-append [] c t h = ground (arith, (last_index-eq-none_iff t c).1 h)
last_index-append (b ∷ s) c t h = rw (last_index-append s c t h) refl

-- A purse loses its last dash and what follows it, if what follows holds no further dash.
pub purse_without_index-append :
    (s suffix : Text) → count suffix b'-' ≡ 0 → purse_without_index (s ++ (b'-' ∷ suffix)) ≡ ok s
unfolding purse_without_index
purse_without_index-append s suffix h =
    rw (last_index-append s b'-' suffix h, purse_without_index)
      (ap ok (take-append s (b'-' ∷ suffix)))

-- `PurseWithoutIndex` panics exactly on a text without a dash.
pub purse_without_index-eq-panic_iff :
    (purse : Text) → (purse_without_index purse ≡ panic) ↔ (count purse b'-' ≡ 0)
unfolding purse_without_index
purse_without_index-eq-panic_iff purse = ground (arith, last_index-eq-none_iff purse b'-')
