-- ===== src/Tests/Derive.antt =====
-- The address of a derived key on the small node.
use rosetta_casper.Common.{◌≡◌, List, ℕ, [], ◌∷◌, ◌++◌, refl, none, arith, lit, text_eq}
use rosetta_casper.Go.Outcome.Gives.{result_of}
use rosetta_casper.Go.Hex.{encode_to_string}
use rosetta_casper.Rosetta.{AccountIdentifier}
use rosetta_casper.Casper.Purse.{account_hash}
use rosetta_casper.Casper.Purse.Keys.{ed, secp, name, key_text}
use rosetta_casper.Casper.Balance.{balance}
use rosetta_casper.Services.Errors.{response}
use rosetta_casper.Services.Construction.{Keypair, construction_derive}
use rosetta_casper.Services.Construction.Derive.{IsKeypair, curve_of, construction_derive-balance}
use rosetta_casper.Tests.Node.{node}
use rosetta_casper.Tests.Ledgers.{answers}

abbrev keypair : Keypair
keypair = record {
  ed25519_tag = lit "ed25519";
  secp256k1_tag = lit "secp256k1";
  ed25519_account_hex = λ bs. key_text ed (encode_to_string bs);
  secp256k1_account_hex = λ bs. key_text secp (encode_to_string bs);
}

keypair-IsKeypair : IsKeypair keypair
unfolding lit text_eq
keypair-IsKeypair = record { apart = refl; of_ed = λ bs. refl; of_secp = λ bs. refl }

abbrev key : List ℕ
key = 2 ∷ 171 ∷ 255 ∷ []

construction_derive-balance_example :
    (account : AccountIdentifier) × (construction_derive keypair
        (record { bytes = key; curve_type = curve_of keypair secp })
      ≡ response account)
    × (result_of (balance node account none 0).0
        ≡ result_of
            (balance node
              (record { address = account_hash node (name secp ++ (0 ∷ key)) })
              none
              0).0)
construction_derive-balance_example =
    construction_derive-balance keypair-IsKeypair answers secp key none 0 (omega arith)
