-- ===== src/Go/Decimal/Laws.antt =====
-- A printed number is read back, and a minus sign in front of a decimal text negates it.
use rosetta_casper.Common.{
  ℕ, zero, suc, ◌+◌, ◌/◌, ◌%◌, ◌<◌, ◌≡◌, refl, ◌∙◌, true, some, [], ◌∷◌, arith, Text, ℤ, pos,
  negsuc, sub_ℕ,
}
use rosetta_casper.Go.Decimal.{
  show_onto, show, show_int, value_onto, all_digits, is_decimal, amount_of,
}

-- A minus sign in front negates the amount of a decimal text.
pub amount_of-minus :
    (s : Text) → is_decimal s ≡ true → amount_of (b'-' ∷ s) ≡ some (sub_ℕ 0 (value_onto 0 s))
unfolding amount_of
amount_of-minus s h = ground arith

pub amount_of-decimal : (s : Text) → is_decimal s ≡ true → amount_of s ≡ some (pos (value_onto 0 s))
unfolding amount_of
amount_of-decimal [] h = ground arith
amount_of-decimal (c ∷ s) h = ground arith

value_onto-show_onto :
    (fuel n : ℕ) (out : Text) → n < fuel → value_onto 0 (show_onto fuel n out) ≡ value_onto n out
unfolding show_onto value_onto
value_onto-show_onto zero n out h = elim h [ ]
value_onto-show_onto (suc fuel) n out h =
    ground (arith, value_onto-show_onto fuel (n / 10) ((b'0' + n % 10) ∷ out))

is_decimal-show_onto :
    (fuel n : ℕ) (out : Text)
    → n < fuel
    → all_digits out ≡ true
    → is_decimal (show_onto fuel n out) ≡ true
unfolding show_onto is_decimal
is_decimal-show_onto zero n out h k = elim h [ ]
is_decimal-show_onto (suc fuel) n out h k =
    ground (arith, is_decimal-show_onto fuel (n / 10) ((b'0' + n % 10) ∷ out))

pub is_decimal-show : (n : ℕ) → is_decimal (show n) ≡ true
unfolding show is_decimal
is_decimal-show n = is_decimal-show_onto (suc n) n [] (omega arith) refl

pub value_onto-show : (n : ℕ) → value_onto 0 (show n) ≡ n
unfolding show value_onto
value_onto-show n = value_onto-show_onto (suc n) n [] (omega arith)

-- A printed integer stands for itself.
pub amount_of-show_int : (z : ℤ) → amount_of (show_int z) ≡ some z
unfolding show_int
amount_of-show_int (pos n) = amount_of-decimal (show n) (is_decimal-show n) ∙ rw (value_onto-show n)
amount_of-show_int (negsuc n) =
    amount_of-minus (show (suc n)) (is_decimal-show (suc n))
    ∙ rw (value_onto-show (suc n)) (ground arith)
