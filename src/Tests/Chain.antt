-- ===== src/Tests/Chain.antt =====
-- The client of package casper on the small node, and its theorems at that data.
use rosetta_casper.Common.{
  ℕ, ◌≡◌, refl, List, [], ◌∷◌, ◌++◌, map, some, arith, Text, lit, text_eq, pos,
}
use mathlib.Core.Option.{some-injective}
use rosetta_casper.Go.Outcome.{ok}
use rosetta_casper.Go.Dict.{Dict, lookup, insert}
use rosetta_casper.Go.Strings.{contains, count, slice, slice_from, last_index}
use rosetta_casper.Go.Hex.{decode_string, encode_to_string, from_hex_char, to_hex_char}
use rosetta_casper.Go.Decimal.{show_int, is_decimal}
use rosetta_casper.Go.Machine.{to_int64, to_uint64, pred_int64, quot}
use rosetta_casper.Rosetta.{Operation, Block, AccountIdentifier}
use rosetta_casper.Casper.Types.{fee_op_type, transfer_op_type, success_status}
use rosetta_casper.Casper.Sdk.{TransferResponse}
use rosetta_casper.Casper.Operations.{
  purse_without_index, operation, identifier, fee_operations, transfer_operations, fee_of_success,
  success_operations, result_operations,
}
use rosetta_casper.Casper.Operations.Conservation.{HasDecimals}
use rosetta_casper.Casper.Operations.Statuses.{applied, applied-result_operations}
use rosetta_casper.Casper.Purse.{account_preimage, get_main_purse_from_public_key}
use rosetta_casper.Casper.Purse.Keys.{ed, account_preimage_injective, account_preimage-malformed}
use rosetta_casper.Casper.Transaction.{payment_amount, create_ros_transaction}
use rosetta_casper.Casper.Block.{
  Fetched, block_identifier, parent_block_identifier, fetch, fetch_by_hash, fetch_by_index,
  fetch_latest, create_transactions, assemble, block, get_block_response, block_transaction,
  grouped, transfers_of, group_transfers, ensure_key, append_at, add_deploys, load_all, status,
}
use rosetta_casper.Casper.Block.Aliasing.{lookup-grouped}
use rosetta_casper.Casper.Block.Complete.{occurrences, hash_of, occurrences-assemble}
use rosetta_casper.Casper.Block.Identifiers.{parent_at, block_identifier-parents}
use rosetta_casper.Casper.Balance.{
  balance_block, block_by_hash, block_by_index, balance_uref, balance,
}
use rosetta_casper.Tests.Node.{head, transfers, second_transfer, succeeded, node}

unfoldable pub client : Unit {0}
unfolding purse_without_index fee_operations transfer_operations fee_of_success success_operations
    result_operations last_index account_preimage get_main_purse_from_public_key slice slice_from
    decode_string from_hex_char encode_to_string to_hex_char payment_amount create_ros_transaction
    fetch fetch_by_hash fetch_by_index fetch_latest create_transactions assemble block
    get_block_response block_transaction status grouped transfers_of group_transfers ensure_key
    append_at add_deploys load_all lookup insert lit text_eq to_int64 to_uint64 pred_int64 quot
    contains count show_int balance_block block_by_hash block_by_index balance_uref balance
client = tt

unfoldable pub operations_of : Text → List Operation
operations_of amount =
    operation 0 [] fee_op_type success_status (lit "uref-m") (lit "-100")
    ∷ operation 1 (identifier 0 ∷ []) fee_op_type success_status (lit "uref-m") (lit "100")
    ∷ operation 2 [] transfer_op_type success_status (lit "uref-c") (lit "-40")
    ∷ operation 3 [] transfer_op_type success_status (lit "uref-d") amount
    ∷ []

pub built_lem :
    result_operations
      (lit "uref-m-007")
      (lit "uref-m-007")
      (lit "0")
      (second_transfer ∷ [])
      succeeded
    ≡ ok (operations_of (lit "40"))
unfolding client operations_of
built_lem = refl

pub decimals : HasDecimals (lit "0") (second_transfer ∷ []) succeeded
unfolding client is_decimal
decimals = record {
  payment_amount = refl;
  amounts = (refl, tt);
  failure_cost = λ f e. cc;
  success_cost = λ s e. rw (← (some-injective _ _ e)) refl;
}

applied-result_operations_example : applied (operations_of (lit "40")) ≡ operations_of (lit "40")
applied-result_operations_example =
    applied-result_operations (lit "uref-m-007") (lit "uref-m-007") (lit "0") (second_transfer ∷ [])
      succeeded built_lem

account_preimage_injective_example : (ed ≡ ed) × (◌≡◌ {A = List ℕ} (1 ∷ 2 ∷ []) (1 ∷ 2 ∷ []))
account_preimage_injective_example =
    account_preimage_injective ed ed (1 ∷ 2 ∷ []) (1 ∷ 2 ∷ []) (omega arith) (omega arith) refl

account_preimage-malformed_example :
    account_preimage (b'0' ∷ b'2' ∷ (lit "ABc" ++ (b'x' ∷ lit "99")))
    ≡ account_preimage (b'0' ∷ b'2' ∷ lit "ABc")
unfolding from_hex_char
account_preimage-malformed_example =
    account_preimage-malformed b'0' b'2' (lit "ABc") b'x' (lit "99") refl

lookup-grouped_example :
    lookup (lit "d1") (grouped transfers (lit "d1" ∷ lit "d3" ∷ [])) ≡ some (second_transfer ∷ [])
unfolding transfers_of lit text_eq
lookup-grouped_example = lookup-grouped (lit "d1") transfers (lit "d1" ∷ lit "d3" ∷ [])

fetched : Fetched
fetched = record { block = head; transfers = transfers }

same_order : Dict (List TransferResponse) → Dict (List TransferResponse)
same_order m = m

built_block : Block
unfolding client same_order fetched
built_block = elim (assemble node same_order fetched 0).0 [
  | ok b ↦ b
  | _ ↦ record {
    block_identifier = block_identifier head;
    parent_block_identifier = block_identifier head;
    timestamp = pos 0;
    transactions = [];
  }
]

assembled : (assemble node same_order fetched 0).0 ≡ ok built_block
unfolding built_block
assembled = refl

occurrences-assemble_example : occurrences (lit "d2") (map hash_of built_block.transactions) ≡ 1
unfolding client same_order fetched
occurrences-assemble_example =
    occurrences-assemble node same_order (λ m k. refl) fetched 0 assembled (lit "d2")

-- The transaction of the first deploy reports the transfer of the second.
aliased_lem : map hash_of built_block.transactions ≡ lit "d1" ∷ lit "d2" ∷ lit "d3" ∷ []
unfolding built_block
aliased_lem = refl

block_identifier-parents_example :
    ((block_identifier head).index ≡ pos 5) × (parent_block_identifier head ≡ parent_at 5 head)
block_identifier-parents_example = block_identifier-parents head (omega arith)

account : AccountIdentifier
account = record { address = lit "uref-a" }
