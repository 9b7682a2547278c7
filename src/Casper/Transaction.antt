-- ===== src/Casper/Transaction.antt =====
-- casper/client.go: `CreateRosTransaction` and `CreateOperation`.
pub mod Built
pub mod Single
use rosetta_casper.Common.{List, [], ◌∷◌, ◌++◌, none, some, Text, lit, text_eq, ◌==◌, if◌then◌else◌}
use rosetta_casper.Go.Outcome.{
  Outcome, ok, err, panic, text, M, pure, lift, ◌>>=◌, on_error, wrapping, deref,
}
use rosetta_casper.Rosetta.{Operation, Transaction}
use rosetta_casper.Casper.Types.{transfer_op_type, success_status, failure_status}
use rosetta_casper.Casper.Sdk.{Sdk, TransferResponse, BlockResponse, Deploy, ExecutionResult}
use rosetta_casper.Casper.Operations.{operation, identifier, result_operations}
use rosetta_casper.Casper.Purse.{get_main_purse_from_public_key}

-- `if len(deploy.ExecutionResults) == 0 { … }`, and the first result.
abbrev pub first_result : List ExecutionResult → Outcome ExecutionResult
first_result [] = err (text (lit "invalid deploy"))
first_result (r ∷ _) = ok r

module _ (sdk : Sdk) where
  -- "0" for a deploy that names no payment.
  unfoldable pub payment_amount : Deploy → M sdk.State Text
  payment_amount deploy = do
    bytes ← lift (deref deploy.module_bytes)
    if bytes.args_count == 0
        then pure (lit "0")
        else on_error (λ _. text (lit "failed to get read payment amount"))
            (sdk.read_payment_amount deploy)

  unfoldable pub create_ros_transaction :
      Text → List TransferResponse → BlockResponse → Text → M sdk.State Transaction
  create_ros_transaction deploy_hash transfers block validator_main_purse = do
    deploy ← wrapping (lit ": could not get deploy") (sdk.get_deploy deploy_hash)
    result ← lift (first_result deploy.execution_results)
    signer_main_purse ←
        on_error (λ _. text (lit "failed to get signer purse " ++ deploy.deploy.account))
          (get_main_purse_from_public_key sdk deploy.deploy.account block.header.state_root_hash)
    payment ← payment_amount deploy.deploy
    operations ←
        lift (result_operations signer_main_purse validator_main_purse payment transfers result)
    pure (record { transaction_identifier = deploy_hash; operations = operations; metadata = [] })

abbrev pub zero_account : Text
zero_account = lit "account-hash-0000000000000000000000000000000000000000000000000000000000000000"

abbrev pub or_zero_account : Text → Text
or_zero_account address = if text_eq address [] then zero_account else address

-- The loop over the execution results: the last one decides. A nil slice of transfers is a failure.
unfoldable pub last_status : Text → List ExecutionResult → Outcome Text
last_status status [] = ok status
last_status status (r ∷ results) = elim r.success [
  | none ↦ panic
  | some success ↦ elim success.transfers [
    | none ↦ last_status failure_status results
    | some _ ↦ last_status success_status results
  ]
]

module _ (sdk : Sdk) where
  unfoldable pub create_operation : TransferResponse → M sdk.State (List Operation)
  unfolding last_status
  create_operation tx = do
    deploy ← wrapping (lit ": could not get deploy") (sdk.get_deploy tx.deploy_hash)
    status ← lift (last_status [] deploy.execution_results)
    pure (
        operation 0 [] transfer_op_type status (or_zero_account tx.sender) (b'-' ∷ tx.amount)
        ∷ operation 1 (identifier 0 ∷ []) transfer_op_type status (or_zero_account tx.receiver)
            tx.amount
        ∷ [])
