-- ===== src/Go/Hex.antt =====
-- Package `encoding/hex`: `DecodeString` and `EncodeToString`.
use rosetta_casper.Common.{
  ℕ, ◌+◌, ◌-◌, ◌*◌, ◌/◌, ◌%◌, ◌<◌, ◌≡◌, refl, ap, Bool, true, false, ◌&&◌, Option, none, some, List,
  [], ◌∷◌, ◌++◌, arith, Text, leb, ltb, if◌then◌else◌, All,
}

unfoldable pub from_hex_char : ℕ → Option ℕ
from_hex_char c =
    if leb b'0' c && leb c b'9'
    then some (c - b'0')
    else if leb b'a' c && leb c b'f'
    then some (c - b'a' + 10)
    else if leb b'A' c && leb c b'F'
    then some (c - b'A' + 10)
    else none

unfoldable pub to_hex_char : ℕ → ℕ
to_hex_char d = if ltb d 10 then b'0' + d else b'a' + (d - 10)

-- The bytes that were decoded, and whether all of the text was. At the first character that is no
-- hexadecimal digit, or at a last character without a partner, the decoding stops.
pub record Decoded : Type 0 where
  pub bytes : List ℕ
  pub complete : Bool

abbrev push : ℕ → Decoded → Decoded
push b d = record d { bytes = b ∷ d.bytes }

abbrev stop : Decoded
stop = record { bytes = []; complete = false }

abbrev push_pair : Option ℕ → Option ℕ → Decoded → Decoded
push_pair (some hi) (some lo) rest = push (hi * 16 + lo) rest
push_pair (some hi) none rest = stop
push_pair none _ rest = stop

unfoldable pub decode_string : Text → Decoded
decode_string [] = record { bytes = []; complete = true }
decode_string (c ∷ []) = stop
decode_string (c ∷ d ∷ s) = push_pair (from_hex_char c) (from_hex_char d) (decode_string s)

unfoldable pub encode_to_string : List ℕ → Text
encode_to_string [] = []
encode_to_string (b ∷ bs) = to_hex_char (b / 16) ∷ to_hex_char (b % 16) ∷ encode_to_string bs

from_hex_char-to_hex_char : (d : ℕ) → d < 16 → from_hex_char (to_hex_char d) ≡ some d
unfolding from_hex_char to_hex_char
from_hex_char-to_hex_char d h = ground arith

-- The bytes come back from their print.
pub decode_string-encode_to_string :
    (bs : List ℕ)
    → All (λ b. b < 256) bs
    → decode_string (encode_to_string bs) ≡ record { bytes = bs; complete = true }
unfolding decode_string encode_to_string
decode_string-encode_to_string [] _ = refl
decode_string-encode_to_string (b ∷ bs) (h, hs) =
    rw (from_hex_char-to_hex_char (b / 16) (omega arith)) (
      rw (from_hex_char-to_hex_char (b % 16) (omega arith))
        (rw (decode_string-encode_to_string bs hs) (ground arith)))

-- A digit without a partner.
bytes-half : (o : Option ℕ) (d : Decoded) → (push_pair o none d).bytes ≡ []
bytes-half none d = refl
bytes-half (some hi) d = refl

bytes-push_pair :
    (o o' : Option ℕ) (d d' : Decoded)
    → d.bytes ≡ d'.bytes
    → (push_pair o o' d).bytes ≡ (push_pair o o' d').bytes
bytes-push_pair none o' d d' e = refl
bytes-push_pair (some hi) none d d' e = refl
bytes-push_pair (some hi) (some lo) d d' e = ap (λ bs. (hi * 16 + lo) ∷ bs) e

-- Whatever comes before it, a character that is no digit ends the decoding.
pub decode_string-stops :
    (before : Text) (c : ℕ) (rest : Text)
    → from_hex_char c ≡ none
    → (decode_string (before ++ (c ∷ rest))).bytes ≡ (decode_string before).bytes
unfolding decode_string
decode_string-stops [] c [] n = refl
decode_string-stops [] c (d ∷ rest) n = rw n refl
decode_string-stops (a ∷ []) c rest n = rw n (bytes-half (from_hex_char a) (decode_string rest))
decode_string-stops (a ∷ b ∷ before) c rest n =
    bytes-push_pair (from_hex_char a) (from_hex_char b) _ _ (decode_string-stops before c rest n)
