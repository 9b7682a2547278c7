-- ===== src/Services/Construction/Derive.antt =====
-- services/construction_service.go and casper/client.go: the address that /construction/derive
-- answers, as `Balance` reads it.
use rosetta_casper.Common.{
  ℕ, ◌<◌, ◌≤◌, ◌≡◌, ◌∙◌, refl, sym, false, Bool-cases, inl, inr, List, [], ◌∷◌, ◌++◌, ◌/◌, ◌%◌,
  arith, Text, lit, text_eq, text_eq_refl, All, Option, none, some,
}
use rosetta_casper.Go.Outcome.{ok}
use rosetta_casper.Go.Strings.{has_prefix, contains, slice}
use rosetta_casper.Go.Strings.Contains.{contains-All}
use rosetta_casper.Go.Hex.{to_hex_char, encode_to_string}
use rosetta_casper.Casper.Purse.Keys.{KeyKind, ed, secp, tag, name, key_text, account_preimage-key}
use rosetta_casper.Casper.Ledger.{
  Ledger, Answers, purse_named, item_purse, balance_of, balance_block_of,
}
use rosetta_casper.Go.Outcome.Gives.{result_of, ◌>>=◌}
use rosetta_casper.Rosetta.{AccountIdentifier, PartialBlockIdentifier}
use rosetta_casper.Casper.Sdk.{Sdk}
use rosetta_casper.Casper.Balance.{balance}
use rosetta_casper.Casper.Purse.{account_hash}
use rosetta_casper.Casper.Ledger.Refinement.{balance-Gives}
use rosetta_casper.Services.Errors.{response}
use rosetta_casper.Services.Construction.{Keypair, construction_derive}

-- A printed byte is no letter after `f`.
to_hex_char-Bound : (d : ℕ) → d < 16 → to_hex_char d ≤ b'f'
unfolding to_hex_char
to_hex_char-Bound d h = ground arith

encode_to_string-Bound :
    (bs : List ℕ) → All (λ b. b < 256) bs → All (λ c. c ≤ b'f') (encode_to_string bs)
unfolding encode_to_string
encode_to_string-Bound [] h = tt
encode_to_string-Bound (b ∷ bs) (h, hs) = (
  to_hex_char-Bound (b / 16) (omega arith),
  (to_hex_char-Bound (b % 16) (omega arith), encode_to_string-Bound bs hs),
)

key_text-Bound :
    (kind : KeyKind) (bs : List ℕ)
    → All (λ b. b < 256) bs
    → All (λ c. c ≤ b'f') (key_text kind (encode_to_string bs))
unfolding lit
key_text-Bound ed bs h = (omega arith, (omega arith, encode_to_string-Bound bs h))
key_text-Bound secp bs h = (omega arith, (omega arith, encode_to_string-Bound bs h))

-- So a public key is told from the other two forms of an address.
key_text-no_hash :
    (kind : KeyKind) (bs : List ℕ)
    → All (λ b. b < 256) bs
    → contains (key_text kind (encode_to_string bs)) (lit "account-hash") ≡ false
unfolding lit
key_text-no_hash kind bs h =
    elim (Bool-cases (contains (key_text kind (encode_to_string bs)) (lit "account-hash"))) [
      | inl e ↦
          absurd (omega (arith, contains-All (λ c. c ≤ b'f') _ _ e (key_text-Bound kind bs h)))
      | inr e ↦ e
    ]

key_text-no_uref :
    (kind : KeyKind) (bs : List ℕ)
    → All (λ b. b < 256) bs
    → contains (key_text kind (encode_to_string bs)) (lit "uref") ≡ false
unfolding lit
key_text-no_uref kind bs h =
    elim (Bool-cases (contains (key_text kind (encode_to_string bs)) (lit "uref"))) [
      | inl e ↦
          absurd (omega (arith, contains-All (λ c. c ≤ b'f') _ _ e (key_text-Bound kind bs h)))
      | inr e ↦ e
    ]

slice-key_text : (kind : KeyKind) (digits : Text) → slice (key_text kind digits) 0 2 ≡ ok (tag kind)
unfolding slice lit
slice-key_text ed digits = ground arith
slice-key_text secp digits = ground arith

module _ (ledger : Ledger) (sum256 : List ℕ → List ℕ) (root : Text) where
  purse_named-account_hash :
      (digits : Text)
      → purse_named ledger sum256 root (lit "account-hash-" ++ digits)
        ≡ item_purse ledger root (lit "account-hash-" ++ digits)
  unfolding contains has_prefix lit
  purse_named-account_hash digits = refl

  purse_named-key_text :
      (kind : KeyKind) (bs : List ℕ)
      → All (λ b. b < 256) bs
      → purse_named ledger sum256 root (key_text kind (encode_to_string bs))
        ≡ item_purse ledger root
            (lit "account-hash-" ++ encode_to_string (sum256 (name kind ++ (0 ∷ bs))))
  unfolding lit text_eq
  purse_named-key_text ed bs h =
      rw
        (
          key_text-no_hash ed bs h,
          key_text-no_uref ed bs h,
          slice-key_text ed (encode_to_string bs),
          account_preimage-key ed bs h,
        )
        refl
  purse_named-key_text secp bs h =
      rw
        (
          key_text-no_hash secp bs h,
          key_text-no_uref secp bs h,
          slice-key_text secp (encode_to_string bs),
          account_preimage-key secp bs h,
        )
        refl

-- What the key pairs of the Casper SDK promise: two names, and a public key as its tag and its bytes
-- in hexadecimal.
pub record IsKeypair (keypair : Keypair) : Type 0 where
  pub apart : text_eq keypair.ed25519_tag keypair.secp256k1_tag ≡ false
  pub of_ed : (bs : List ℕ) → keypair.ed25519_account_hex bs ≡ key_text ed (encode_to_string bs)
  pub of_secp :
      (bs : List ℕ) → keypair.secp256k1_account_hex bs ≡ key_text secp (encode_to_string bs)

abbrev pub curve_of : Keypair → KeyKind → Text
curve_of keypair ed = keypair.ed25519_tag
curve_of keypair secp = keypair.secp256k1_tag

construction_derive-curve_of :
    {keypair : Keypair}
    → IsKeypair keypair
    → (kind : KeyKind) (bs : List ℕ)
    → construction_derive keypair (record { bytes = bs; curve_type = curve_of keypair kind })
      ≡ response (record { address = key_text kind (encode_to_string bs) })
unfolding construction_derive
construction_derive-curve_of {keypair} is ed bs =
    rw (is.apart, text_eq_refl keypair.ed25519_tag, is.of_ed bs) refl
construction_derive-curve_of {keypair} is secp bs =
    rw (text_eq_refl keypair.secp256k1_tag, is.of_secp bs) refl

>>=_cong :
    {A B : Type 0} (o : Option A) {f g : A → Option B}
    → ((a : A) → f a ≡ g a)
    → (o >>= f) ≡ (o >>= g)
>>=_cong none h = refl
>>=_cong (some a) h = h a

balance_of-key_text :
    (ledger : Ledger) (sum256 : List ℕ → List ℕ) (kind : KeyKind) (bs : List ℕ)
    (id : Option PartialBlockIdentifier)
    → All (λ b. b < 256) bs
    → balance_of ledger sum256 (record { address = key_text kind (encode_to_string bs) }) id
      ≡ balance_of ledger sum256
          (record {
            address = lit "account-hash-" ++ encode_to_string (sum256 (name kind ++ (0 ∷ bs)));
          })
          id
balance_of-key_text ledger sum256 kind bs id h = >>=_cong (balance_block_of ledger id) λ b.
    let root = b.header.state_root_hash in
    rw
      (
        purse_named-key_text ledger sum256 root kind bs h,
        purse_named-account_hash ledger sum256 root
            (encode_to_string (sum256 (name kind ++ (0 ∷ bs)))),
      )
      refl

-- Where the SDK names two different curves and writes a public key as the tag of its kind and its
-- bytes in hexadecimal, and the node answers from one state of the chain, /construction/derive
-- answers, for a key of one of the two curves whose bytes are below 256, an address that `Balance`
-- knows: for every block it gives the result that it gives for the hash of the account of that key,
-- the digest of the name of its kind, a zero byte and its bytes. The texts of errors, and whether it
-- is an error or a panic, are left aside.
pub construction_derive-balance :
    {keypair : Keypair} {ledger : Ledger} {sdk : Sdk}
    → IsKeypair keypair
    → Answers ledger sdk
    → (kind : KeyKind) (bs : List ℕ) (id : Option PartialBlockIdentifier) (s : sdk.State)
    → All (λ b. b < 256) bs
    → (account : AccountIdentifier) × (construction_derive keypair
          (record { bytes = bs; curve_type = curve_of keypair kind })
        ≡ response account)
      × (result_of (balance sdk account id s).0
          ≡ result_of
              (balance sdk (record { address = account_hash sdk (name kind ++ (0 ∷ bs)) }) id s).0)
construction_derive-balance {ledger = ledger} {sdk = sdk} is answers kind bs id s h = (
  record { address = key_text kind (encode_to_string bs) },
  construction_derive-curve_of is kind bs,
  balance-Gives answers _ id s
      ∙ balance_of-key_text ledger sdk.sum256 kind bs id h
      ∙ sym (balance-Gives answers _ id s),
)
