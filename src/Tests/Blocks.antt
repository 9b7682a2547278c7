-- ===== src/Tests/Blocks.antt =====
-- The transactions of whole blocks, and the metadata of a transfer, at concrete data.
use rosetta_casper.Common.{◌≡◌, refl, [], ◌∷◌, Option, none, some, lit, pos, All}
use mathlib.Core.Option.{some-injective}
use rosetta_casper.Go.Outcome.{ok}
use rosetta_casper.Go.Outcome.Chain.{ok_injective}
use rosetta_casper.Go.Decimal.{is_decimal}
use rosetta_casper.Rosetta.{BlockIdentifier, Operation, Block, Transaction}
use rosetta_casper.Casper.Operations.Effects.{Accounts, result_operations-Accounts}
use rosetta_casper.Casper.Block.{block, block_transaction, block_identifier}
use rosetta_casper.Casper.Block.Decimals.{HasDecimalCosts, ReportsDecimals}
use rosetta_casper.Casper.Block.Balanced.{IsBalanced, block-IsBalanced}
use rosetta_casper.Casper.Block.Own.{IsOwn, block_transaction-IsOwn}
use rosetta_casper.Configuration.{middleware_version}
use rosetta_casper.Casper.Types.{
  node_version, operation_types, operation_statuses, historical_balance_supported, call_methods,
}
use rosetta_casper.Services.Endpoints
use rosetta_casper.Services.Client.{casper_client}
use rosetta_casper.Services.Endpoints.{NetworkOptionsResponse, network_options}
use rosetta_casper.Services.Endpoints.Published.{
  in_block, in_transaction, IsAdmitted, transactions-IsAdmitted,
}
use rosetta_casper.Services.Errors.{response, errors}
use rosetta_casper.Tests.Node.{head, second_transfer, succeeded, node}
use rosetta_casper.Tests.Chain.{client, operations_of, built_lem, decimals}
use rosetta_casper.Tests.Service.{numbered, online_testing}

result_operations-Accounts_example :
    Accounts
      (lit "uref-m")
      (lit "uref-m-007")
      (lit "uref-m-007")
      (lit "0")
      (second_transfer ∷ [])
      succeeded
      (operations_of (lit "40"))
result_operations-Accounts_example =
    result_operations-Accounts (lit "uref-m") (lit "uref-m-007") (lit "uref-m-007") (lit "0")
      (second_transfer ∷ []) succeeded decimals built_lem

costs_lem : HasDecimalCosts succeeded
unfolding is_decimal lit
costs_lem = (λ f e. cc, λ x e. rw (← (some-injective _ _ e)) refl)

reports : ReportsDecimals node
unfolding is_decimal lit
reports = record {
  costs = λ h s d e. rw (← (ok_injective _ _ e)) (costs_lem, tt);
  payments = λ d s p e. rw (← (ok_injective _ _ e)) refl;
  latest = λ s ts e. rw (← (ok_injective _ _ e)) refl;
  by_hash = λ h s ts e. rw (← (ok_injective _ _ e)) refl;
  by_height = λ n s ts e. rw (← (ok_injective _ _ e)) refl;
}

unfoldable pub latest : Block
unfolding client
latest = elim (block node (λ m. m) none 0).0 [
  | ok b ↦ b
  | _ ↦ record {
    block_identifier = block_identifier head;
    parent_block_identifier = block_identifier head;
    timestamp = pos 0;
    transactions = [];
  }
]

pub latest_lem : (block node (λ m. m) none 0).0 ≡ ok latest
unfolding client latest
latest_lem = refl

block-IsBalanced_example : All IsBalanced latest.transactions
block-IsBalanced_example = block-IsBalanced node reports (λ m. m) (λ p m h. h) none 0 latest_lem

abbrev pub asked : Option BlockIdentifier
asked = some (record { hash = lit "b5"; index = pos 5 })

single : Transaction
unfolding client
single = elim (block_transaction node asked (some (lit "d2")) 0).0 [
  | ok t ↦ t
  | _ ↦ record { transaction_identifier = []; operations = []; metadata = [] }
]

single_lem : (block_transaction node asked (some (lit "d2")) 0).0 ≡ ok single
unfolding client single
single_lem = refl

single_data : single ≡ record {
  transaction_identifier = lit "d2";
  operations = operations_of (lit "40");
  metadata = [];
}
unfolding client single operations_of
single_data = refl

block_transaction-IsOwn_example : IsOwn node asked (lit "d2") 0 single
block_transaction-IsOwn_example = block_transaction-IsOwn node asked (lit "d2") 0 single_lem

abbrev incomplete : Operation
incomplete = record numbered { operation_identifier = record { index = pos 1 } }

-- What /network/options answers.
abbrev published : NetworkOptionsResponse
published = record {
  node_version = node_version;
  rosetta_version = lit "1.4.10";
  middleware_version = middleware_version;
  errors = errors;
  operation_types = operation_types;
  operation_statuses = operation_statuses;
  historical_balance_lookup = historical_balance_supported;
  call_methods = call_methods;
}

published_lem : network_options (lit "1.4.10") ≡ response published
unfolding network_options
published_lem = refl

transactions-IsAdmitted_example :
    All (IsAdmitted published) (
      in_block
        (Endpoints.block
          (casper_client node (λ m. m))
          online_testing
          (record { block_identifier = none })
          0).0)
    × All (IsAdmitted published) (
        in_transaction
          (Endpoints.block_transaction
            (casper_client node (λ m. m))
            online_testing
            (record { block_identifier = asked; transaction_identifier = some (lit "d2") })
            0).0)
transactions-IsAdmitted_example =
    transactions-IsAdmitted node (λ m. m) online_testing (lit "1.4.10") published_lem
      (record { block_identifier = none })
      (record { block_identifier = asked; transaction_identifier = some (lit "d2") }) 0
