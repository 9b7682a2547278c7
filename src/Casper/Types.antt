-- ===== src/Casper/Types.antt =====
-- casper/types.go: the constants of the network.
use rosetta_casper.Common.{ℕ, Bool, true, false, List, [], ◌∷◌, Text, lit, ℤ, pos}
use rosetta_casper.Rosetta.{BlockIdentifier, Currency, OperationStatus}

abbrev pub node_version : Text
node_version = lit "1_2_0"

abbrev pub blockchain : Text
blockchain = lit "Casper"

abbrev pub mainnet_network : Text
mainnet_network = lit "casper"

abbrev pub testnet_network : Text
testnet_network = lit "casper-test"

abbrev symbol : Text
symbol = lit "CSPR"

abbrev decimals : ℕ
decimals = 9

abbrev pub transfer_op_type : Text
transfer_op_type = lit "TRANSFER"

abbrev pub fee_op_type : Text
fee_op_type = lit "FEE"

abbrev pub success_status : Text
success_status = lit "SUCCESS"

abbrev pub failure_status : Text
failure_status = lit "FAILURE"

abbrev pub historical_balance_supported : Bool
historical_balance_supported = true

-- Nothing reads the reward of uncles, their depth and the gas limit.
abbrev pub uncles_reward_multiplier : ℕ
uncles_reward_multiplier = 32

abbrev pub max_uncle_depth : ℕ
max_uncle_depth = 8

abbrev pub transfer_gas_limit : ℤ
transfer_gas_limit = pos 21000

abbrev pub genesis_block_index : ℤ
genesis_block_index = pos 0

abbrev mainnet_genesis_hash : Text
mainnet_genesis_hash = lit "2fe9630b7790852e4409d815b04ca98f37effcdf9097d317b9b9b8ad658f47c8"

abbrev testnet_genesis_hash : Text
testnet_genesis_hash = lit "7952a42ee8568532bc454498a6d5f303423f7cf272880f37af9222a1448efa43"

abbrev pub mainnet_genesis_block_identifier : BlockIdentifier
mainnet_genesis_block_identifier = record {
  hash = mainnet_genesis_hash;
  index = genesis_block_index;
}

abbrev pub testnet_genesis_block_identifier : BlockIdentifier
testnet_genesis_block_identifier = record {
  hash = testnet_genesis_hash;
  index = genesis_block_index;
}

abbrev pub currency : Currency
currency = record { symbol = symbol; decimals = decimals }

abbrev pub operation_types : List Text
operation_types = transfer_op_type ∷ fee_op_type ∷ []

abbrev pub operation_statuses : List OperationStatus
operation_statuses =
    record { status = success_status; successful = true }
    ∷ record { status = failure_status; successful = false }
    ∷ []

abbrev pub call_methods : List Text
call_methods = []

abbrev pub include_mempool_coins : Bool
include_mempool_coins = false
