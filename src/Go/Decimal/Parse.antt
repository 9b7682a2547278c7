-- ===== src/Go/Decimal/Parse.antt =====
-- strconv: a decimal number that fits an int64 is parsed as what it stands for.
use rosetta_casper.Common.{
  ℕ, ◌+◌, ◌*◌, ◌-◌, ◌^◌, ◌<◌, ◌≤◌, ◌≡◌, refl, ◌∙◌, true, false, [], ◌∷◌, arith, Text, pos,
}
use rosetta_casper.Go.Outcome.{ok}
use rosetta_casper.Go.Decimal.{
  scan, scanned, signed, unsigned, parse_int, parsed, to_outcome, atoi, show, show_int, value_onto,
  all_digits, is_decimal,
}
use rosetta_casper.Go.Decimal.Laws.{is_decimal-show, value_onto-show}

le-value_onto : (n : ℕ) (s : Text) → n ≤ value_onto n s
unfolding value_onto
le-value_onto n [] = omega arith
le-value_onto n (c ∷ s) = omega (arith, le-value_onto (n * 10 + (c - b'0')) s)

scan-decimal :
    (n : ℕ) (s : Text)
    → all_digits s ≡ true
    → value_onto n s < 2 ^ 64
    → scan n s ≡ scanned (value_onto n s)
unfolding scan all_digits value_onto
scan-decimal n [] h b = refl
scan-decimal n (c ∷ s) h b =
    ground (arith, scan-decimal (n * 10 + (c - b'0')) s, le-value_onto (n * 10 + (c - b'0')) s)

signed_small : (n : ℕ) → n < 2 ^ 63 → signed false (scanned n) ≡ parsed (pos n)
unfolding signed
signed_small n h = ground arith

unsigned-decimal :
    (c : ℕ) (s : Text)
    → all_digits (c ∷ s) ≡ true
    → value_onto 0 (c ∷ s) < 2 ^ 63
    → unsigned false (c ∷ s) ≡ parsed (pos (value_onto 0 (c ∷ s)))
unfolding unsigned
unsigned-decimal c s h b =
    rw (scan-decimal 0 (c ∷ s) h (omega arith)) (signed_small (value_onto 0 (c ∷ s)) b)

digit_first :
    (c : ℕ) (s : Text) → all_digits (c ∷ s) ≡ true → parse_int (c ∷ s) ≡ unsigned false (c ∷ s)
unfolding parse_int all_digits
digit_first c s h = ground arith

parse_int-decimal :
    (s : Text)
    → is_decimal s ≡ true
    → value_onto 0 s < 2 ^ 63
    → parse_int s ≡ parsed (pos (value_onto 0 s))
unfolding is_decimal
parse_int-decimal [] h b = cc
parse_int-decimal (c ∷ s) h b = digit_first c s h ∙ unsigned-decimal c s h b

-- A number that is printed is parsed again.
parse_int-show : (n : ℕ) → n < 2 ^ 63 → parse_int (show n) ≡ parsed (pos n)
parse_int-show n h =
    parse_int-decimal (show n) (is_decimal-show n) (rw (value_onto-show n) h)
    ∙ rw (value_onto-show n) refl

pub atoi-show_int : (n : ℕ) → n < 2 ^ 63 → atoi (show_int (pos n)) ≡ ok (pos n)
unfolding atoi to_outcome show_int
atoi-show_int n h = rw (parse_int-show n h) refl
