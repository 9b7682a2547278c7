-- ===== src/Tests/Service.antt =====
-- The configuration and the endpoints at concrete data.
use rosetta_casper.Common.{◌≡◌, refl, ◌↔◌, [], ◌∷◌, none, Text, lit, text_eq, ℤ, pos, if◌then◌else◌}
use rosetta_casper.Go.Outcome.{Outcome, ok}
use rosetta_casper.Go.Decimal.{atoi, parse_int64}
use rosetta_casper.Go.Dict.{lookup}
use rosetta_casper.Rosetta.{string, AccountIdentifier, Amount, Operation}
use rosetta_casper.Casper.Types.{currency}
use rosetta_casper.Configuration.{
  online, offline, Configuration, testnet, read_mode, read_network, read_port, load_configuration,
}
use rosetta_casper.Configuration.Load.{IsLoaded, load_configuration_iff}
use rosetta_casper.ClientSdk.{Deploy, DeployParams}
use rosetta_casper.Services.Errors.{response}
use rosetta_casper.Services.Client.{Client, casper_client, nil_client}
use rosetta_casper.Services.Endpoints.Laws.{IsOnline, online-IsOnline}
use rosetta_casper.Services.Construction.{Keypair, transfer_id_key}
use rosetta_casper.Services.Construction.Flow.{Run, transfer-Run}
use rosetta_casper.Tests.Node.{down}

abbrev pub environment : Text → Text
environment name =
    if text_eq name (lit "MODE")
    then lit "OFFLINE"
    else if text_eq name (lit "NETWORK")
    then lit "TESTNET"
    else if text_eq name (lit "PORT")
    then lit "8081"
    else []

abbrev pub testing : Configuration
testing = record {
  mode = offline;
  network = testnet.network;
  genesis_block_identifier = testnet.genesis_block_identifier;
  port = pos 8081;
}

loaded : load_configuration environment ≡ ok testing
unfolding load_configuration read_mode read_network read_port atoi lit text_eq
loaded = refl

load_configuration_iff_example :
    (load_configuration environment ≡ ok testing) ↔ IsLoaded environment testing
load_configuration_iff_example = load_configuration_iff environment testing

abbrev pub crashing : Client
crashing = nil_client (λ bs. bs) (λ m. m)

abbrev pub online_testing : Configuration
online_testing = record testing { mode = online }

online-IsOnline_example : IsOnline (casper_client down (λ m. m)) online_testing (pos 0) 0
online-IsOnline_example =
    online-IsOnline (casper_client down (λ m. m)) online_testing (pos 0) refl 0

-- 2000-01-01 in milliseconds.
abbrev pub min_epoch : ℤ
min_epoch = pos 946684800000

abbrev pub blank : Operation
blank = record {
  operation_identifier = record { index = pos 9 };
  related_operations = [];
  type = [];
  status = none;
  account = none;
  amount = none;
  metadata = [];
}

abbrev pub numbered : Operation
numbered = record blank { metadata = (transfer_id_key, string (lit "7")) ∷ [] }

abbrev pub alice : AccountIdentifier
alice = record { address = lit "alice" }

abbrev pub bob : AccountIdentifier
bob = record { address = lit "bob" }

abbrev ten : Amount
ten = record { value = lit "10"; currency = currency }

abbrev params : DeployParams
params = record {
  chain_name = [];
  transfer_amount = [];
  payment_amount = [];
  target_account = [];
  src_account = [];
  gas_price = [];
  transfer_id = pos 0;
}

abbrev pub marshal : Deploy → Outcome Text
marshal deploy = ok (lit "{}")

transfer-Run_example :
    Run testnet.network online_testing marshal alice bob ten blank numbered
      (ok (response (record { unsigned_transaction = lit "{}"; signers = bob ∷ [] })))
unfolding lookup parse_int64 lit text_eq
transfer-Run_example =
    transfer-Run testnet.network online_testing marshal alice bob ten blank numbered (lit "7")
      (pos 7) params (lit "{}") refl refl refl refl

abbrev pub keypair : Keypair
keypair = record {
  ed25519_tag = lit "ed25519";
  secp256k1_tag = lit "secp256k1";
  ed25519_account_hex = λ _. lit "01";
  secp256k1_account_hex = λ _. lit "02";
}
