-- ===== src/Tests/Options.antt =====
-- The options of /construction/preprocess at concrete operations.
use rosetta_casper.Common.{◌≡◌, ◌↔◌, refl, false, List, [], ◌∷◌, Text, lit, text_eq}
use rosetta_casper.Go.Outcome.{ok}
use rosetta_casper.Services.Errors.{response}
use rosetta_casper.Go.Dict.{lookup, insert}
use rosetta_casper.Rosetta.{string, AccountIdentifier, Amount, Operation}
use rosetta_casper.Casper.Types.{currency}
use rosetta_casper.Configuration.{testnet}
use rosetta_casper.Services.Construction.{
  Preprocessed, Payloads, at, chain_name_key, source_addr_key, transfer_amount_key, target_addr_key,
  transfer_id_key, gas_price_key, note_sender, note_target, note_operations,
  construction_preprocess,
}
use rosetta_casper.Services.Construction.Flow.{debit, credit}
use rosetta_casper.Services.Construction.Options.{senders, options_at, at-construction_preprocess}
use rosetta_casper.Services.Construction.Preprocess.{has_incomplete}
use rosetta_casper.Services.Construction.Metadata.{IsPayloads}
use rosetta_casper.Services.Construction.Passage.{passage, passage-eq-response_iff}
use rosetta_casper.Tests.Service.{alice, blank, numbered, marshal, online_testing}

abbrev carol : AccountIdentifier
carol = record { address = lit "carol" }

abbrev five : Amount
five = record { value = lit "5"; currency = currency }

-- Two debits and a credit.
abbrev operations : List Operation
operations = debit alice blank ∷ credit carol five numbered ∷ debit carol blank ∷ []

abbrev gathered : Preprocessed
gathered = record {
  options =
      (chain_name_key, string (lit "casper-test"))
      ∷ (source_addr_key, string (lit "carol"))
      ∷ (transfer_amount_key, string (lit "5"))
      ∷ (target_addr_key, string (lit "carol"))
      ∷ (transfer_id_key, string (lit "7"))
      ∷ (gas_price_key, string (lit "1"))
      ∷ [];
  required_public_keys = alice ∷ carol ∷ [];
}

at-construction_preprocess_example :
    (gathered.required_public_keys ≡ senders operations)
    × ((k : Text) → at gathered.options k ≡ options_at testnet.network operations k)
unfolding construction_preprocess note_operations note_sender note_target insert lookup lit text_eq
at-construction_preprocess_example = at-construction_preprocess testnet.network operations refl

abbrev answered : Payloads
answered = record { unsigned_transaction = lit "{}"; signers = carol ∷ [] }

passage-eq-response_iff_example :
    (passage online_testing marshal testnet.network operations ≡ ok (response answered)) ↔ (
      (has_incomplete operations ≡ false)
      × IsPayloads marshal (options_at testnet.network operations) answered)
passage-eq-response_iff_example =
    passage-eq-response_iff testnet.network operations online_testing marshal refl answered
