-- ===== src/Casper/Purse/Keys.antt =====
-- casper/client.go: which public keys `GetMainPurseFromPublicKey` tells apart.
use rosetta_casper.Common.{
  ℕ, ◌<◌, ◌≡◌, refl, sym, ap, ◌∙◌, List, [], ◌∷◌, ◌++◌, none, arith, Text, lit, text_eq, All,
}
use mathlib.Core.List.{append_cancel_left, tail-eq_of_cons-eq, head-eq_of_cons-eq}
use rosetta_casper.Go.Outcome.{ok}
use rosetta_casper.Go.Outcome.Chain.{ok_injective}
use rosetta_casper.Go.Strings.{slice, slice_from}
use rosetta_casper.Go.Hex.{
  from_hex_char, decode_string, encode_to_string, decode_string-encode_to_string,
  decode_string-stops,
}
use rosetta_casper.Casper.Purse.{ed25519, secp256k1, hash_type, account_preimage}

pub data KeyKind : Type 0 where
  ed secp : KeyKind

abbrev pub tag : KeyKind → Text
tag ed = lit "01"
tag secp = lit "02"

abbrev pub name : KeyKind → Text
name ed = ed25519
name secp = secp256k1

-- The text of a public key: its tag, and its bytes in hexadecimal.
abbrev pub key_text : KeyKind → Text → Text
key_text kind digits = tag kind ++ digits

account_preimage-key_text :
    (kind : KeyKind) (digits : Text)
    → account_preimage (key_text kind digits) ≡ ok (name kind ++ (0 ∷ (decode_string digits).bytes))
unfolding account_preimage slice slice_from lit text_eq
account_preimage-key_text ed digits = ground arith
account_preimage-key_text secp digits = ground arith

preimage_injective :
    (kind kind' : KeyKind) (bs bs' : List ℕ)
    → name kind ++ (0 ∷ bs) ≡ name kind' ++ (0 ∷ bs')
    → (kind ≡ kind') × (bs ≡ bs')
unfolding lit
preimage_injective ed ed bs bs' e = (refl, tail-eq_of_cons-eq (append_cancel_left ed25519 _ _ e))
preimage_injective secp secp bs bs' e =
    (refl, tail-eq_of_cons-eq (append_cancel_left secp256k1 _ _ e))
preimage_injective ed secp bs bs' e = absurd (omega (arith, head-eq_of_cons-eq e))
preimage_injective secp ed bs bs' e = absurd (omega (arith, head-eq_of_cons-eq e))

-- A well-formed public key is hashed from its name and its bytes.
pub account_preimage-key :
    (kind : KeyKind) (bs : List ℕ)
    → All (λ b. b < 256) bs
    → account_preimage (key_text kind (encode_to_string bs)) ≡ ok (name kind ++ (0 ∷ bs))
account_preimage-key kind bs h =
    account_preimage-key_text kind (encode_to_string bs) ∙ rw (decode_string-encode_to_string bs h)

-- Two well-formed public keys are hashed from the same bytes only if they are the same key of the
-- same kind.
pub account_preimage_injective :
    (kind kind' : KeyKind) (bs bs' : List ℕ)
    → All (λ b. b < 256) bs
    → All (λ b. b < 256) bs'
    → account_preimage (key_text kind (encode_to_string bs))
      ≡ account_preimage (key_text kind' (encode_to_string bs'))
    → (kind ≡ kind') × (bs ≡ bs')
account_preimage_injective kind kind' bs bs' h h' e = preimage_injective kind kind' bs bs' (
    ok_injective _ _ (sym (account_preimage-key kind bs h) ∙ e ∙ account_preimage-key kind' bs' h'))

account_preimage-tagged :
    (t u : ℕ) (digits : Text)
    → account_preimage (t ∷ u ∷ digits)
      ≡ ok (hash_type (t ∷ u ∷ []) ++ (0 ∷ (decode_string digits).bytes))
unfolding account_preimage slice slice_from
account_preimage-tagged t u digits = ground arith

-- A public key with a character that is no hexadecimal digit anywhere behind its tag is not refused:
-- it is hashed as the text that ends before that character, whatever follows.
pub account_preimage-malformed :
    (t u : ℕ) (before : Text) (c : ℕ) (rest : Text)
    → from_hex_char c ≡ none
    → account_preimage (t ∷ u ∷ (before ++ (c ∷ rest))) ≡ account_preimage (t ∷ u ∷ before)
account_preimage-malformed t u before c rest n =
    account_preimage-tagged t u (before ++ (c ∷ rest))
    ∙ ap (λ ds. ok (hash_type (t ∷ u ∷ []) ++ (0 ∷ ds))) (decode_string-stops before c rest n)
    ∙ sym (account_preimage-tagged t u before)
