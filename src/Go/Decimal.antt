-- ===== src/Go/Decimal.antt =====
-- Decimal numbers: `strconv.Atoi` and `strconv.ParseInt(s, 10, 64)`, `String` of a big integer, and
-- what a decimal text stands for.
pub mod Laws
pub mod Parse
use rosetta_casper.Common.{
  ℕ, zero, suc, ◌+◌, ◌-◌, ◌*◌, ◌/◌, ◌%◌, ◌^◌, ◌<◌, Bool, true, false, ◌&&◌, Option, none, some,
  List, [], ◌∷◌, ◌++◌, Text, lit, leb, ltb, ◌==◌, if◌then◌else◌, ℤ, pos, negsuc, sub_ℕ,
}
use rosetta_casper.Go.Outcome.{Error, text, Outcome, ok, err}

pub data Parsed : Type 0 where
  parsed : ℤ → Parsed
  invalid_syntax out_of_range : Parsed

abbrev pub is_digit : ℕ → Bool
is_digit c = leb b'0' c && leb c b'9'

pub data Scanned : Type 0 where
  scanned : ℕ → Scanned
  bad_digit too_large : Scanned

-- The loop of `ParseUint` in base 10, over uint64.
scan : ℕ → Text → Scanned
scan n [] = scanned n
scan n (c ∷ s) =
    let rest = scan (n * 10 + (c - b'0')) s in
    if is_digit c
    then (if ltb (n * 10 + (c - b'0')) (2 ^ 64) then rest else too_large)
    else bad_digit

-- The sign and the bound of int64.
signed : Bool → Scanned → Parsed
signed negative bad_digit = invalid_syntax
signed negative too_large = out_of_range
signed true (scanned n) = if leb n (2 ^ 63) then parsed (sub_ℕ 0 n) else out_of_range
signed false (scanned n) = if ltb n (2 ^ 63) then parsed (pos n) else out_of_range

unsigned : Bool → Text → Parsed
unfolding scan signed
unsigned negative [] = invalid_syntax
unsigned negative (c ∷ s) = signed negative (scan 0 (c ∷ s))

unfoldable pub parse_int : Text → Parsed
unfolding unsigned
parse_int [] = invalid_syntax
parse_int (c ∷ s) =
    if c == b'-'
    then unsigned true s
    else if c == b'+'
    then unsigned false s
    else unsigned false (c ∷ s)

-- The error of package strconv, for a text that `strconv.Quote` leaves as it is between quotes.
num_error : Text → Text → Text → Error
num_error function s reason =
    text (lit "strconv." ++ (function ++ (lit ": parsing \"" ++ (s ++ (lit "\": " ++ reason)))))

unfoldable pub to_outcome : Text → Text → Parsed → Outcome ℤ
unfolding num_error
to_outcome function s (parsed z) = ok z
to_outcome function s invalid_syntax = err (num_error function s (lit "invalid syntax"))
to_outcome function s out_of_range = err (num_error function s (lit "value out of range"))

-- `strconv.Atoi(s)`, on a 64-bit machine, and `strconv.ParseInt(s, 10, 64)`.
unfoldable pub atoi : Text → Outcome ℤ
unfolding to_outcome parse_int
atoi s = to_outcome (lit "Atoi") s (parse_int s)

unfoldable pub parse_int64 : Text → Outcome ℤ
unfolding to_outcome parse_int
parse_int64 s = to_outcome (lit "ParseInt") s (parse_int s)

-- The digits of `n` in front of `out`. The fuel must be above `n`.
show_onto : ℕ → ℕ → Text → Text
show_onto zero n out = out
show_onto (suc fuel) n out =
    let more = show_onto fuel (n / 10) ((b'0' + n % 10) ∷ out) in
    if ltb n 10 then (b'0' + n) ∷ out else more

unfoldable pub show : ℕ → Text
unfolding show_onto
show n = show_onto (suc n) n []

-- `String` of a big integer.
unfoldable pub show_int : ℤ → Text
unfolding show
show_int (pos n) = show n
show_int (negsuc n) = b'-' ∷ show (suc n)

-- What a text stands for: digits, at least one, with a minus sign in front or not.
unfoldable pub value_onto : ℕ → Text → ℕ
value_onto n [] = n
value_onto n (c ∷ s) = value_onto (n * 10 + (c - b'0')) s

unfoldable pub all_digits : Text → Bool
all_digits [] = true
all_digits (c ∷ s) = is_digit c && all_digits s

unfoldable pub is_decimal : Text → Bool
unfolding all_digits
is_decimal [] = false
is_decimal (c ∷ s) = all_digits (c ∷ s)

unfoldable pub amount_of : Text → Option ℤ
unfolding is_decimal value_onto
amount_of [] = none
amount_of (c ∷ s) =
    if c == b'-'
    then (if is_decimal s then some (sub_ℕ 0 (value_onto 0 s)) else none)
    else if is_decimal (c ∷ s)
    then some (pos (value_onto 0 (c ∷ s)))
    else none
