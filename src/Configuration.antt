-- ===== src/Configuration.antt =====
-- configuration/configuration.go: the mode, the network and the port, from the environment.
pub mod Load
pub mod Print
use rosetta_casper.Common.{
  ℕ, Bool, List, [], ◌∷◌, ◌++◌, Text, lit, text_eq, ◌≡◌, arith, if◌then◌else◌, ℤ, pos, ltb_ℤ,
}
use rosetta_casper.Go.Outcome.{Error, text, wrap, Outcome, ok, err, panic}
use rosetta_casper.Go.Outcome.Chain.{◌>>=◌}
use rosetta_casper.Go.Decimal.{atoi}
use rosetta_casper.Rosetta.{NetworkIdentifier, BlockIdentifier}
use rosetta_casper.Casper.Types.{
  blockchain, mainnet_network, testnet_network, mainnet_genesis_block_identifier,
  testnet_genesis_block_identifier,
}

pub data Mode : Type 0 where
  online offline : Mode

pub record Configuration : Type 0 where
  pub mode : Mode
  pub network : NetworkIdentifier
  pub genesis_block_identifier : BlockIdentifier
  pub port : ℤ

pub record NetworkChoice : Type 0 where
  pub network : NetworkIdentifier
  pub genesis_block_identifier : BlockIdentifier

abbrev pub online_text : Text
online_text = lit "ONLINE"

abbrev pub offline_text : Text
offline_text = lit "OFFLINE"

abbrev pub mainnet_text : Text
mainnet_text = lit "MAINNET"

abbrev pub testnet_text : Text
testnet_text = lit "TESTNET"

-- Nothing reads it.
abbrev data_directory : Text
data_directory = lit "/data"

abbrev pub mode_env : Text
mode_env = lit "MODE"

abbrev pub network_env : Text
network_env = lit "NETWORK"

abbrev pub port_env : Text
port_env = lit "PORT"

abbrev pub middleware_version : Text
middleware_version = lit "0.0.4"

abbrev pub mainnet : NetworkChoice
mainnet = record {
  network = record { blockchain = blockchain; network = mainnet_network };
  genesis_block_identifier = mainnet_genesis_block_identifier;
}

abbrev pub testnet : NetworkChoice
testnet = record {
  network = record { blockchain = blockchain; network = testnet_network };
  genesis_block_identifier = testnet_genesis_block_identifier;
}

-- The first `switch`.
unfoldable pub read_mode : Text → Outcome Mode
read_mode value =
    if text_eq value online_text
    then ok online
    else if text_eq value offline_text
    then ok offline
    else if text_eq value []
    then err (text (lit "MODE must be populated"))
    else err (text (value ++ lit " is not a valid mode"))

-- The second `switch`.
unfoldable pub read_network : Text → Outcome NetworkChoice
read_network value =
    if text_eq value mainnet_text
    then ok mainnet
    else if text_eq value testnet_text
    then ok testnet
    else if text_eq value []
    then err (text (lit "NETWORK must be populated"))
    else err (text (value ++ lit " is not a valid network"))

-- `fmt` prints `%w` of a nil error as `%!w(<nil>)`.
abbrev check_port : Text → Outcome ℤ → Outcome ℤ
check_port value (ok port) =
    if ltb_ℤ (pos 0) port
    then ok port
    else err (text (lit "%!w(<nil>): unable to parse port " ++ value))
check_port value (err e) = err (wrap e (lit ": unable to parse port " ++ value))
check_port value panic = panic

unfoldable pub read_port : Text → Outcome ℤ
read_port value =
    if text_eq value []
    then err (text (lit "PORT must be populated"))
    else check_port value (atoi value)

-- The environment gives the empty text for a variable that is not set.
unfoldable pub load_configuration : (Text → Text) → Outcome Configuration
load_configuration getenv = do
  mode ← read_mode (getenv mode_env)
  choice ← read_network (getenv network_env)
  port ← read_port (getenv port_env)
  ok (record {
    mode = mode;
    network = choice.network;
    genesis_block_identifier = choice.genesis_block_identifier;
    port = port;
  })
