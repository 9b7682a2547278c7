-- ===== src/Casper/Purse.antt =====
-- casper/client.go: `GetMainPurseFromPublicKey`. The error of `hex.DecodeString` is dropped there.
pub mod Keys
use rosetta_casper.Common.{ℕ, Bool, List, [], ◌∷◌, ◌++◌, Text, lit, text_eq, if◌then◌else◌}
use rosetta_casper.Go.Outcome.{
  Outcome, ok, err, text, message, M, pure, lift, ◌>>=◌, on_error, deref, continue, map_error,
}
use rosetta_casper.Go.Outcome.Chain
use rosetta_casper.Go.Strings.{slice, slice_from}
use rosetta_casper.Go.Hex.{decode_string, encode_to_string}
use rosetta_casper.Casper.Sdk.{Sdk}

abbrev pub ed25519 : Text
ed25519 = lit "ed25519"

abbrev pub secp256k1 : Text
secp256k1 = lit "secp256k1"

abbrev pub hash_type : Text → Text
hash_type tag = if text_eq tag (lit "01") then ed25519 else secp256k1

-- The bytes that are hashed: the name of the key's kind, a zero byte, and the key.
unfoldable pub account_preimage : Text → Outcome (List ℕ)
account_preimage account_addr = Chain.◌>>=◌ (slice account_addr 0 2) λ tag.
    Chain.◌>>=◌ (slice_from account_addr 2)
      λ account. ok (hash_type tag ++ (0 ∷ (decode_string account).bytes))

module _ (sdk : Sdk) where
  abbrev pub account_hash : List ℕ → Text
  account_hash buffer = lit "account-hash-" ++ encode_to_string (sdk.sum256 buffer)

  unfoldable pub get_main_purse_from_public_key : Text → Text → M sdk.State Text
  get_main_purse_from_public_key account_addr state_root_hash = do
    buffer ← lift (account_preimage account_addr)
    item ←
        on_error (λ e. text (lit "could not get state item : ----" ++ (message e ++ lit "---")))
          (sdk.get_state_item state_root_hash (account_hash buffer) [])
    account ← lift (deref item.account)
    pure account.main_purse
